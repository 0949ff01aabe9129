-- ===== src/Float.antt =====
-- Python's `float` as the simulator uses it: a type with the operations and comparisons that the
-- code applies to numbers, and the laws of IEEE arithmetic that the proofs rest on. They hold with
-- NaN, which is not less than or equal to anything.
pub mod Clamp
pub mod Cents
use space_project.Base.{ℕ, ◌≡◌, Bool, true, false, ◌+◌, ◌≤◌, if◌then◌else◌}
use space_project.Base.Int.{ℤ, pos, pos_part, neg_part, ◌≤ℤ◌, ◌+ℤ◌, ◌-ℤ◌}

pub record Float {ℓ} (F : Type ℓ) : Type ℓ where
  -- An `int` used as a number.
  pub of_int : ℤ → F
  -- The literals 0.01, 0.05, … : n / 100.
  pub hundredths : ℕ → F
  pub add : F → F → F
  pub sub : F → F → F
  pub lt : F → F → Bool
  pub le : F → F → Bool
  -- `round(x, digits)`
  pub round : F → ℕ → F

infix 4 ◌≼◌
abbrev pub ◌≼◌ {ℓ} : {F : Type ℓ} ⦃f : Float F⦄ → F → F → Type 0
◌≼◌ ⦃f⦄ x y = f.le x y ≡ true

abbrev pub IsSmall : ℤ → Type 0
IsSmall a = pos_part a + neg_part a ≤ 1000

pub record IsFloat {ℓ} (F : Type ℓ) ⦃f : Float F⦄ : Type ℓ where
  pub le_of_lt : (x y : F) → f.lt x y ≡ true → x ≼ y
  pub le_trans : (x y z : F) → x ≼ y → y ≼ z → x ≼ z
  pub of_int_mono : (a b : ℤ) → a ≤ℤ b → f.of_int a ≼ f.of_int b
  pub hundredths_nonneg : (n : ℕ) → f.of_int (pos 0) ≼ f.hundredths n
  pub round_mono : (x y : F) (digits : ℕ) → x ≼ y → f.round x digits ≼ f.round y digits
  pub round-of_int : (a : ℤ) (digits : ℕ) → f.round (f.of_int a) digits ≡ f.of_int a
  -- What is above `a` stays at 0 or above when at most `b` is taken from it, with `b ≤ a`.
  pub sub_nonneg :
      (a b : ℤ) (x y : F)
      → b ≤ℤ a
      → f.lt (f.of_int a) x ≡ true
      → y ≼ f.of_int b
      → f.of_int (pos 0) ≼ f.sub x y
  -- A number, that is not NaN, is on one side of an integer.
  pub le_of_not_lt : (a : ℤ) (x y : F) → x ≼ y → f.lt (f.of_int a) x ≡ false → x ≼ f.of_int a
  pub ge_of_not_lt : (a : ℤ) (x y : F) → y ≼ x → f.lt x (f.of_int a) ≡ false → f.of_int a ≼ x
  -- Small integers are exact, so adding one moves an integer bound by as much.
  pub add_bounds :
      (a b c : ℤ) (x : F)
      → IsSmall a
      → IsSmall b
      → IsSmall c
      → f.of_int a ≼ x
      → x ≼ f.of_int b
      → (f.of_int (a +ℤ c) ≼ f.add x (f.of_int c)) × (f.add x (f.of_int c) ≼ f.of_int (b +ℤ c))
  pub sub_bounds :
      (a b c : ℤ) (x : F)
      → IsSmall a
      → IsSmall b
      → IsSmall c
      → f.of_int a ≼ x
      → x ≼ f.of_int b
      → (f.of_int (a -ℤ c) ≼ f.sub x (f.of_int c)) × (f.sub x (f.of_int c) ≼ f.of_int (b -ℤ c))

module _ {ℓ} {F : Type ℓ} ⦃f : Float F⦄ where
  -- Between two integers.
  abbrev pub Between : ℤ → ℤ → F → Type 0
  Between low high x = (f.of_int low ≼ x) × (x ≼ f.of_int high)

  -- `max(a, x)`: the later argument only if it is greater.
  unfoldable pub py_max : F → F → F
  py_max a x = if f.lt a x then x else a

  -- `min(a, x)`: the later argument only if it is less.
  unfoldable pub py_min : F → F → F
  py_min a x = if f.lt x a then x else a

  -- `max(low, min(high, x))`
  unfoldable pub clamp : ℤ → ℤ → F → F
  unfolding py_max py_min
  clamp low high x = py_max (f.of_int low) (py_min (f.of_int high) x)
