-- ===== src/Common.antt =====
-- The names that the other modules share: the libraries', passed on, and those of the children.
pub mod Tests
pub mod Lists
pub mod Words
pub mod Every
pub mod Maps
pub mod Results
pub mod Arithmetic
pub mod Whole
pub use Tests.*
pub use Lists.*
pub use Words.*
pub use Every.{
  All, All-map, All-append, All-append_right, All-zip, Distinct, selected-All, selected-Distinct,
}
unfoldable pub use Maps.{lookup, emplace, assign, erase, modify}
pub use Maps.{
  Map, lookup-emplace_new, lookup-emplace_old, lookup-emplace_ne, lookup-assign, lookup-erase_self,
  lookup-erase_ne, Each, lookup-Each, emplace-Each, erase-Each, modify-Each,
}
pub use Results.{
  Result, ok, err, ◌>>=◌, ◌>>◌, guard, require, >>=-ok, guard-ok, require-ok, OnOk, OnOk-ok, is_ok,
}
unfoldable pub use Results.{ok_value}
pub use Arithmetic.{Floats, Signal}
pub use Whole.{whole, whole_signal}
pub use Prim.Native.String.{String, ◌++◌ as text_append}
pub use text.Mathlib.Text.{◌==◌ as str_eq}
pub use text.Mathlib.TextEquality.{eq_iff}
pub use Prim.Native.Nat.{ℕ, zero, suc, ◌+◌, ◌-◌, ◌*◌, ◌/◌, ◌%◌, ◌^◌, ◌≤◌, ◌<◌, min, max}
pub use mathlib.Core.Path.{◌≡◌, refl, sym, ap, ap₂, ◌∙◌, subst, ◌≡⟨◌⟩◌, ◌∎}
pub use mathlib.Core.Logic.{◌≢◌, ◌↔◌, ◌⊎◌, inl, inr}
pub use mathlib.Core.Bool.{Bool, true, false, not, ◌&&◌, ◌||◌}
pub use mathlib.Core.Option.{Option, none, some, some-injective}
pub use mathlib.Core.List.{List, [], ◌∷◌, ◌++◌, map, append-nil, append_assoc}
pub use native.Mathlib.Omega.{arith}
unfoldable pub use native.Mathlib.Decide.{dec_lt, dec_le, ℕ_discrete}
