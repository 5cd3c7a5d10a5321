-- ===== src/Common/Whole.antt =====
-- An arithmetic of whole numbers, for tests.
use Prim.Native.Nat.{ℕ, ◌+◌, ◌-◌, ◌*◌, ◌/◌, ◌%◌, ◌^◌}
use mathlib.Core.Bool.{true}
use mathlib.Core.Option.{none}
use ocudu_channel.Common.Tests.{ltb, leb}
use ocudu_channel.Common.Arithmetic.{Floats, Signal}

abbrev pub whole : Floats ℕ ℕ
whole = record {
  literal = λ s d k. d / 10 ^ k;
  lt = ltb;
  le = leb;
  is_finite = λ v. true;
  is_whole = λ v. true;
  to_float = λ v. v;
  to_u64 = λ v. v;
  stod = λ s. none;
}

abbrev pub whole_signal : Signal ℕ ℕ
whole_signal = record {
  floats = whole;
  zero_float = 0;
  one_float = 1;
  add_float = ◌+◌;
  sub_float = ◌-◌;
  mul_float = ◌*◌;
  div_float = ◌/◌;
  neg_float = λ v. v;
  cos_float = λ v. 1;
  sin_float = λ v. 0;
  float_of_nat = λ n. n;
  add = ◌+◌;
  sub = ◌-◌;
  mul = ◌*◌;
  div = ◌/◌;
  widen = λ v. v;
  of_nat = λ n. n;
  pi = 3;
  sin = λ v. 0;
  cos = λ v. 1;
  sqrt = λ v. v;
  fabs = λ v. v;
  pow10 = λ v. 10 ^ v;
  fmod = ◌%◌;
  floor = λ v. v;
  floor_int = λ v. v;
  ceil_int = λ v. v;
  round_int = λ v. v;
}
