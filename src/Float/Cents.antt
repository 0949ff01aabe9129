-- ===== src/Float/Cents.antt =====
-- Numbers that are whole hundredths, with `none` for NaN, as an instance of the laws.
use space_project.Base.{refl, Bool, false, Option, none, some, arith}
use space_project.Base.Int.{
  ℤ, pos, ◌+ℤ◌, ◌-ℤ◌, leb_ℤ, ltb_ℤ, times_hundred, add_hundreds, sub_hundreds,
}
use space_project.Float.{Float, IsFloat, ◌≼◌, Between}

abbrev pub Cents : Type 0
Cents = Option ℤ

abbrev compare_cents : (ℤ → ℤ → Bool) → Cents → Cents → Bool
compare_cents test (some a) (some b) = test a b
compare_cents test _ _ = false

abbrev on_cents : (ℤ → ℤ → ℤ) → Cents → Cents → Cents
on_cents op (some a) (some b) = some (op a b)
on_cents op _ _ = none

-- Rounding to two digits or more keeps a whole number of hundredths.
instance abbrev pub cents_float : Float Cents
cents_float = record {
  of_int = λ a. some (times_hundred a);
  hundredths = λ n. some (pos n);
  add = on_cents ◌+ℤ◌;
  sub = on_cents ◌-ℤ◌;
  lt = compare_cents ltb_ℤ;
  le = compare_cents leb_ℤ;
  round = λ x digits. x;
}

cents_add_bounds :
    (a b c : ℤ) (x : Cents)
    → cents_float.of_int a ≼ x
    → x ≼ cents_float.of_int b
    → Between (a +ℤ c) (b +ℤ c) (cents_float.add x (cents_float.of_int c))
cents_add_bounds a b c none h k = ground arith
cents_add_bounds a b c (some x) h k = ((add_hundreds a x c).0 h, (add_hundreds b x c).1 k)

cents_sub_bounds :
    (a b c : ℤ) (x : Cents)
    → cents_float.of_int a ≼ x
    → x ≼ cents_float.of_int b
    → Between (a -ℤ c) (b -ℤ c) (cents_float.sub x (cents_float.of_int c))
cents_sub_bounds a b c none h k = ground arith
cents_sub_bounds a b c (some x) h k = ((sub_hundreds a x c).0 h, (sub_hundreds b x c).1 k)

pub Cents-IsFloat : IsFloat Cents
unfolding ◌-ℤ◌ ◌+ℤ◌
Cents-IsFloat = record {
  le_of_lt = λ x y h. ground arith;
  le_trans = λ x y z h k. ground arith;
  of_int_mono = λ a b h. ground arith;
  hundredths_nonneg = λ n. ground arith;
  round_mono = λ x y digits h. h;
  round-of_int = λ a digits. refl;
  le_of_not_lt = λ a x y h k. ground arith;
  ge_of_not_lt = λ a x y h k. ground arith;
  add_bounds = λ a b c x ha hb hc h k. cents_add_bounds a b c x h k;
  sub_bounds = λ a b c x ha hb hc h k. cents_sub_bounds a b c x h k;
  sub_nonneg = λ a b x y h l k. ground arith;
}
