-- ===== src/Common/Maps.antt =====
-- `std::unordered_map<std::string, V>` as an association list. The program iterates over a map only
-- to add up or to print, so the order of entries is not that of the hash table.
use Prim.Native.String.{String}
use mathlib.Core.Path.{◌≡◌, refl, subst}
use mathlib.Core.Logic.{◌≢◌, inl, inr}
use mathlib.Core.Option.{Option, none, some, some-injective}
use mathlib.Core.List.{List, [], ◌∷◌}
use native.Mathlib.Omega.{arith}
use text.Mathlib.Text.{◌==◌ as str_eq}
use text.Mathlib.TextEquality.{eq_iff}
use ocudu_channel.Common.Tests.{if◌then◌else◌, Bool-cases, if_split}
use ocudu_channel.Common.Every.{All}

abbrev pub Map {ℓ} : Type ℓ → Type ℓ
Map V = List (String × V)

module _ {ℓ} {V : Type ℓ} where
  unfoldable pub lookup : String → Map V → Option V
  lookup k [] = none
  lookup k ((j, v) ∷ m) = if str_eq j k then some v else lookup k m

  -- `emplace`: an entry that is there stays.
  unfoldable pub emplace : String → V → Map V → Map V
  emplace k v [] = (k, v) ∷ []
  emplace k v ((j, w) ∷ m) = if str_eq j k then (j, w) ∷ m else (j, w) ∷ emplace k v m

  -- `map[k] = v`
  unfoldable pub assign : String → V → Map V → Map V
  assign k v [] = (k, v) ∷ []
  assign k v ((j, w) ∷ m) = if str_eq j k then (j, v) ∷ m else (j, w) ∷ assign k v m

  unfoldable pub erase : String → Map V → Map V
  erase k [] = []
  erase k ((j, w) ∷ m) = if str_eq j k then erase k m else (j, w) ∷ erase k m

  -- A change through the pointer that `find` returned.
  unfoldable pub modify : String → (V → V) → Map V → Map V
  modify k f [] = []
  modify k f ((j, w) ∷ m) = if str_eq j k then (j, f w) ∷ m else (j, w) ∷ modify k f m

  pub lookup-emplace_new :
      (k : String) (v : V) (m : Map V) → lookup k m ≡ none → lookup k (emplace k v m) ≡ some v
  unfolding lookup emplace
  lookup-emplace_new k v [] h = ground (arith, eq_iff k k)
  lookup-emplace_new k v ((j, w) ∷ m) h = ground (arith, lookup-emplace_new k v m)

  -- An entry that is there stays.
  pub lookup-emplace_old :
      (k : String) (v : V) (j : String) (m : Map V) (w : V)
      → lookup j m ≡ some w
      → lookup j (emplace k v m) ≡ some w
  unfolding lookup emplace
  lookup-emplace_old k v j [] w e = cc
  lookup-emplace_old k v j ((i, u) ∷ m) w e =
      ground (arith, eq_iff i k, eq_iff i j, lookup-emplace_old k v j m w)

  pub lookup-emplace_ne :
      (k : String) (v : V) (j : String) (m : Map V) → k ≢ j → lookup j (emplace k v m) ≡ lookup j m
  unfolding lookup emplace
  lookup-emplace_ne k v j [] h = ground (arith, eq_iff k j)
  lookup-emplace_ne k v j ((i, u) ∷ m) h =
      ground (arith, eq_iff i k, eq_iff i j, lookup-emplace_ne k v j m h)

  pub lookup-assign :
      (k : String) (v : V) (j : String) (m : Map V)
      → lookup j (assign k v m) ≡ (if str_eq k j then some v else lookup j m)
  unfolding lookup assign
  lookup-assign k v j [] = refl
  lookup-assign k v j ((i, w) ∷ m) =
      ground (arith, eq_iff k j, eq_iff i k, eq_iff i j, lookup-assign k v j m)

  pub lookup-erase_self : (k : String) (m : Map V) → lookup k (erase k m) ≡ none
  unfolding lookup erase
  lookup-erase_self k [] = refl
  lookup-erase_self k ((j, w) ∷ m) = ground (arith, lookup-erase_self k m)

  pub lookup-erase_ne : (k j : String) (m : Map V) → k ≢ j → lookup j (erase k m) ≡ lookup j m
  unfolding lookup erase
  lookup-erase_ne k j [] h = refl
  lookup-erase_ne k j ((i, w) ∷ m) h =
      ground (arith, eq_iff i k, eq_iff i j, lookup-erase_ne k j m h)

module _ {ℓ κ} {V : Type ℓ} (P : V → Type κ) where
  -- What holds of every value of a map.
  abbrev pub Each : Map V → Type κ
  Each m = All (λ e. P (e.1)) m

  pub lookup-Each : (k : String) (m : Map V) {v : V} → Each m → lookup k m ≡ some v → P v
  unfolding lookup
  lookup-Each k [] h e = cc
  lookup-Each k ((j, w) ∷ m) {v} h e =
      if_split (λ o. o ≡ some v → P v) (str_eq j k)
        (λ same found. subst P (some-injective w v found) h.0)
        (λ other found. lookup-Each k m h.1 found) e

  pub emplace-Each : (k : String) (v : V) (m : Map V) → P v → Each m → Each (emplace k v m)
  unfolding emplace
  emplace-Each k v [] p h = (p, tt)
  emplace-Each k v ((j, w) ∷ m) p h = elim (Bool-cases (str_eq j k)) [
    | inl same ↦ rw same h
    | inr other ↦ rw other (h.0, emplace-Each k v m p h.1)
  ]

  pub erase-Each : (k : String) (m : Map V) → Each m → Each (erase k m)
  unfolding erase
  erase-Each k [] h = tt
  erase-Each k ((j, w) ∷ m) h = elim (Bool-cases (str_eq j k)) [
    | inl same ↦ rw same (erase-Each k m h.1)
    | inr other ↦ rw other (h.0, erase-Each k m h.1)
  ]

  pub modify-Each :
      (k : String) (f : V → V) (m : Map V)
      → ((v : V) → P v → P (f v))
      → Each m
      → Each (modify k f m)
  unfolding modify
  modify-Each k f [] keep h = tt
  modify-Each k f ((j, w) ∷ m) keep h = elim (Bool-cases (str_eq j k)) [
    | inl same ↦ rw same (keep w h.0, h.1)
    | inr other ↦ rw other (h.0, modify-Each k f m keep h.1)
  ]
