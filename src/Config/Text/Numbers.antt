-- ===== src/Config/Text/Numbers.antt =====
-- `parse_u64` of src/config.cpp on decimal digits.
use Prim.Native.Char.{code}
use native.Mathlib.Nat.{add-mul, mul_assoc, pow-succ'}
use ocudu_channel.Common.{
  ◌≡◌, refl, arith, ℕ, suc, ◌+◌, ◌-◌, ◌*◌, ◌^◌, Bool, true, false, ◌&&◌, some, none, String,
  if◌then◌else◌, ltb, leb, Bool-cases, inl, inr, ok, err,
}
use ocudu_channel.Config.Text.{
  bad_unsigned, is_space, trim_left, empty_text, is_digit, digits, starts_digit, unsigned_value,
  signed_value, stoull, starts_minus, whole_unsigned, parse_u64,
}

unfoldable pub all_digits : String → Bool
unfolding is_digit
all_digits String.[] = true
all_digits (String.◌∷◌ c s) = is_digit (code c) && all_digits s

unfoldable pub text_length : String → ℕ
text_length String.[] = 0
text_length (String.◌∷◌ c s) = suc (text_length s)

-- The number that decimal digits stand for, place by place.
unfoldable pub decimal : String → ℕ
decimal String.[] = 0
decimal (String.◌∷◌ c s) = (code c - 48) * 10 ^ text_length s + decimal s

shift_place : (acc d p rest : ℕ) → (acc * 10 + d) * p + rest ≡ acc * (10 * p) + (d * p + rest)
shift_place acc d p rest = rw (add-mul (acc * 10) d p, mul_assoc acc 10 p) (omega arith)

digits-decimal :
    (acc : ℕ) (s : String)
    → all_digits s ≡ true
    → digits acc s ≡ (acc * 10 ^ text_length s + decimal s, "")
unfolding digits all_digits text_length decimal
digits-decimal acc String.[] h = ground arith
digits-decimal acc (String.◌∷◌ c s) h =
    let more = digits-decimal (acc * 10 + (code c - 48)) s (ground arith) in
    let place = shift_place acc (code c - 48) (10 ^ text_length s) (decimal s) in
    let digit : is_digit (code c) ≡ true = ground arith in
    rw (digit, more, place, pow-succ' 10 (text_length s)) refl

stoull-decimal :
    (s : String)
    → all_digits s ≡ true
    → empty_text s ≡ false
    → stoull s ≡ (if leb (2 ^ 64) (decimal s) then none else some (decimal s, ""))
unfolding stoull signed_value unsigned_value starts_digit trim_left is_space all_digits is_digit
    empty_text
stoull-decimal String.[] h e = cc
stoull-decimal (String.◌∷◌ c s) h e = let read = digits-decimal 0 (String.◌∷◌ c s) h in ground arith

-- A text of decimal digits, one at least, is read as the number that it stands for, if that is below
-- 2 ^ 64, and refused otherwise.
pub parse_u64-decimal :
    (s key : String)
    → all_digits s ≡ true
    → empty_text s ≡ false
    → parse_u64 s key
      ≡ (if ltb (decimal s) (2 ^ 64) then ok (decimal s) else err (bad_unsigned key s))
unfolding parse_u64 starts_minus whole_unsigned empty_text all_digits is_digit
parse_u64-decimal String.[] key h e = cc
parse_u64-decimal (String.◌∷◌ c s) key h e =
    let value = decimal (String.◌∷◌ c s) in
    let minus : starts_minus (String.◌∷◌ c s) ≡ false = ground arith in
    let read = stoull-decimal (String.◌∷◌ c s) h e in
    elim (Bool-cases (leb (2 ^ 64) value)) [
      | inl big ↦
          let no : ltb value (2 ^ 64) ≡ false = ground arith in rw (minus, read, big, no) refl
      | inr small ↦
          let yes : ltb value (2 ^ 64) ≡ true = ground arith in rw (minus, read, small, yes) refl
    ]
