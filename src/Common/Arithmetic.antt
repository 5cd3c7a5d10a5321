-- ===== src/Common/Arithmetic.antt =====
-- What the program uses of `double` (F) and `float` (G). The theorems that take a `Floats` hold for
-- any arithmetic with these operations; nothing is assumed of them.
use Prim.Native.Nat.{ℕ}
use Prim.Native.String.{String}
use mathlib.Core.Bool.{Bool}
use mathlib.Core.Option.{Option}

pub record Floats (F G : Type 0) : Type 0 where
  -- The literal with this sign, these digits and this many decimals.
  pub literal : Bool → ℕ → ℕ → F
  -- `<`, which is false at a NaN.
  pub lt : F → F → Bool
  -- `<=`, which is false at a NaN too.
  pub le : F → F → Bool
  pub is_finite : F → Bool
  -- `std::trunc(v) == v`
  pub is_whole : F → Bool
  -- `static_cast<float>`
  pub to_float : F → G
  -- `static_cast<std::uint64_t>`
  pub to_u64 : F → ℕ
  -- `std::stod`; `none` is its exception.
  pub stod : String → Option F

-- What the signal processing adds to it. The operations on `float` end in `_float`; nothing is
-- assumed of any of them.
pub record Signal (F G : Type 0) : Type 0 where
  pub floats : Floats F G
  pub zero_float : G
  pub one_float : G
  pub add_float : G → G → G
  pub sub_float : G → G → G
  pub mul_float : G → G → G
  pub div_float : G → G → G
  pub neg_float : G → G
  pub cos_float : G → G
  pub sin_float : G → G
  -- `static_cast<float>` of an integer.
  pub float_of_nat : ℕ → G
  pub add : F → F → F
  pub sub : F → F → F
  pub mul : F → F → F
  pub div : F → F → F
  -- `static_cast<double>`, of a float and of an integer.
  pub widen : G → F
  pub of_nat : ℕ → F
  pub pi : F
  pub sin : F → F
  pub cos : F → F
  pub sqrt : F → F
  pub fabs : F → F
  -- `std::pow(10.0, v)`
  pub pow10 : F → F
  pub fmod : F → F → F
  pub floor : F → F
  -- `std::floor`, `std::ceil` and `std::round` of a value that is not negative, cast to an integer.
  pub floor_int : F → ℕ
  pub ceil_int : F → ℕ
  pub round_int : F → ℕ
