-- ===== src/Base/Int.antt =====
-- Signed integers over the native numbers. Sums and orders go through the two parts of an integer.
use Prim.Native.Nat.{ℕ, suc, ◌+◌, ◌-◌, ◌*◌, ◌≤◌}
use mathlib.Core.Path.{◌≡◌}
use mathlib.Core.Bool.{Bool, true}
use native.Mathlib.Omega.{arith}
use space_project.Base.Tests.{ltb, leb, if◌then◌else◌}

-- `negsuc n` is -(n + 1).
pub data ℤ : Type 0 where
  pos : ℕ → ℤ
  negsuc : ℕ → ℤ

abbrev pub pos_part : ℤ → ℕ
pos_part (pos n) = n
pos_part (negsuc n) = 0

abbrev pub neg_part : ℤ → ℕ
neg_part (pos n) = 0
neg_part (negsuc n) = suc n

-- a - b
abbrev pub sub_ℕ : ℕ → ℕ → ℤ
sub_ℕ a b = if leb b a then pos (a - b) else negsuc (b - a - 1)

infixl 65 ◌+ℤ◌ ◌-ℤ◌
infix 50 ◌≤ℤ◌
unfoldable pub ◌+ℤ◌ : ℤ → ℤ → ℤ
a +ℤ b = sub_ℕ (pos_part a + pos_part b) (neg_part a + neg_part b)

unfoldable pub ◌-ℤ◌ : ℤ → ℤ → ℤ
a -ℤ b = sub_ℕ (pos_part a + neg_part b) (neg_part a + pos_part b)

-- 100 * a
abbrev pub times_hundred : ℤ → ℤ
times_hundred (pos n) = pos (100 * n)
times_hundred (negsuc n) = negsuc (100 * n + 99)

abbrev pub ◌≤ℤ◌ : ℤ → ℤ → Type 0
a ≤ℤ b = pos_part a + neg_part b ≤ pos_part b + neg_part a

abbrev pub leb_ℤ : ℤ → ℤ → Bool
leb_ℤ a b = leb (pos_part a + neg_part b) (pos_part b + neg_part a)

abbrev pub ltb_ℤ : ℤ → ℤ → Bool
ltb_ℤ a b = ltb (pos_part a + neg_part b) (pos_part b + neg_part a)

times_hundred_parts :
    (a : ℤ)
    → (pos_part (times_hundred a) ≡ 100 * pos_part a)
      × (neg_part (times_hundred a) ≡ 100 * neg_part a)
times_hundred_parts (pos n) = omega arith
times_hundred_parts (negsuc n) = omega arith

-ℤ_parts :
    (a b : ℤ)
    → pos_part (a -ℤ b) + neg_part a + pos_part b ≡ neg_part (a -ℤ b) + pos_part a + neg_part b
unfolding ◌-ℤ◌
-ℤ_parts a b = ground arith

+ℤ_parts :
    (a b : ℤ)
    → pos_part (a +ℤ b) + neg_part a + neg_part b ≡ neg_part (a +ℤ b) + pos_part a + pos_part b
unfolding ◌+ℤ◌
+ℤ_parts a b = ground arith

-- Adding or subtracting whole numbers keeps the order of hundredths, on either side.
pub add_hundreds :
    (a b c : ℤ)
    → (leb_ℤ (times_hundred a) b ≡ true
        → leb_ℤ (times_hundred (a +ℤ c)) (b +ℤ times_hundred c) ≡ true)
      × (leb_ℤ b (times_hundred a) ≡ true
          → leb_ℤ (b +ℤ times_hundred c) (times_hundred (a +ℤ c)) ≡ true)
add_hundreds a b c =
    let ha = times_hundred_parts a in
    let hc = times_hundred_parts c in
    let hs = times_hundred_parts (a +ℤ c) in
    let s = +ℤ_parts a c in
    let t = +ℤ_parts b (times_hundred c) in ((λ h. ground arith), λ h. ground arith)

pub sub_hundreds :
    (a b c : ℤ)
    → (leb_ℤ (times_hundred a) b ≡ true
        → leb_ℤ (times_hundred (a -ℤ c)) (b -ℤ times_hundred c) ≡ true)
      × (leb_ℤ b (times_hundred a) ≡ true
          → leb_ℤ (b -ℤ times_hundred c) (times_hundred (a -ℤ c)) ≡ true)
sub_hundreds a b c =
    let ha = times_hundred_parts a in
    let hc = times_hundred_parts c in
    let hs = times_hundred_parts (a -ℤ c) in
    let s = -ℤ_parts a c in
    let t = -ℤ_parts b (times_hundred c) in ((λ h. ground arith), λ h. ground arith)
