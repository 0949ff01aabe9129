-- ===== src/Base/Decimal.antt =====
-- Numbers in decimal digits, and padded with zeros as Python's format `04d` pads them.
use Prim.Native.Nat.{ℕ, zero, suc, ◌+◌, ◌-◌, ◌*◌, ◌/◌, ◌%◌, ◌≤◌}
use space_project.Base.Tests.{ltb, if◌then◌else◌, Bool-cases}
use space_project.Base.Lists.{length, replicate}
use space_project.Base.Text.{Text}
use mathlib.Core.Path.{◌≡◌, refl, sym, ap, ◌∙◌}
use mathlib.Core.Logic.{inl, inr}
use mathlib.Core.List.{[], ◌∷◌, ◌++◌}
use native.Mathlib.Omega.{arith}

-- The digits of `n`; `fuel` bounds their number, and `n` is enough.
unfoldable pub digits : (fuel n : ℕ) → Text
digits zero n = (48 + n) ∷ []
digits (suc fuel) n =
    let more = digits fuel (n / 10) in
    if ltb n 10 then (48 + n) ∷ [] else more ++ (48 + n % 10) ∷ []

-- `f"{n:04d}"`
unfoldable pub format_04d : ℕ → Text
format_04d n = let text = digits n n in replicate (4 - length text) 48 ++ text

-- The number that digits stand for, after those with the value `acc`.
value : ℕ → Text → ℕ
value acc [] = acc
value acc (c ∷ t) = value (10 * acc + (c - 48)) t

value-append : (acc c : ℕ) (t : Text) → value acc (t ++ c ∷ []) ≡ 10 * value acc t + (c - 48)
unfolding value
value-append acc c [] = refl
value-append acc c (d ∷ t) = value-append (10 * acc + (d - 48)) c t

value-zeros : (k : ℕ) (t : Text) → value 0 (replicate k 48 ++ t) ≡ value 0 t
unfolding value
value-zeros zero t = refl
value-zeros (suc k) t = value-zeros k t

value-digits : (fuel n : ℕ) → n ≤ fuel → value 0 (digits fuel n) ≡ n
unfolding value digits
value-digits zero n h = omega arith
value-digits (suc fuel) n h = elim (Bool-cases (ltb n 10)) [
  | inl e ↦ rw e (omega arith)
  | inr e ↦
      rw (e, value-append 0 (48 + n % 10) (digits fuel (n / 10)))
        (rw (value-digits fuel (n / 10) (omega arith)) (omega arith))
]

value-format_04d : (n : ℕ) → value 0 (format_04d n) ≡ n
unfolding format_04d
value-format_04d n =
    value-zeros (4 - length (digits n n)) (digits n n) ∙ value-digits n n (omega arith)

-- Different numbers are formatted differently.
pub format_04d_injective : (m n : ℕ) → format_04d m ≡ format_04d n → m ≡ n
format_04d_injective m n e = sym (value-format_04d m) ∙ (ap (value 0) e ∙ value-format_04d n)
