-- ===== src/Base/Text/Strip.antt =====
-- `strip` and its two halves: idempotence, what they keep, and how they act on a concatenation.
use Prim.Native.Nat.{ℕ}
use mathlib.Core.Path.{◌≡◌, refl, sym, ap, ◌∙◌}
use mathlib.Core.Logic.{◌≢◌, inl, inr}
use mathlib.Core.Bool.{true, false, ◌&&◌}
use mathlib.Core.List.{[], ◌∷◌, ◌++◌}
use native.Mathlib.Omega.{arith}
use space_project.Base.Tests.{Bool-cases}
use space_project.Base.Lists.{All, is_empty}
use space_project.Base.Text.{Text, is_space, lstrip, rstrip, strip, carriage_return}

-- The text neither begins nor ends with white space.
abbrev pub IsStripped : Text → Type 0
IsStripped s = strip s ≡ s

rstrip-rstrip : (s : Text) → rstrip (rstrip s) ≡ rstrip s
unfolding rstrip
rstrip-rstrip [] = refl
rstrip-rstrip (c ∷ s) = ground (arith, rstrip-rstrip s)

lstrip-rstrip-lstrip : (s : Text) → lstrip (rstrip (lstrip s)) ≡ rstrip (lstrip s)
unfolding lstrip rstrip
lstrip-rstrip-lstrip [] = refl
lstrip-rstrip-lstrip (c ∷ s) = ground (arith, lstrip-rstrip-lstrip s)

pub strip-IsStripped : (s : Text) → IsStripped (strip s)
unfolding strip
strip-IsStripped s = rw lstrip-rstrip-lstrip (rstrip-rstrip (lstrip s))

-- No white space in front.
abbrev pub IsBare : Text → Type 0
IsBare [] = Unit
IsBare (c ∷ s) = is_space c ≡ false

lstrip-IsBare : (s : Text) → IsBare (lstrip s)
unfolding lstrip
lstrip-IsBare [] = tt
lstrip-IsBare (c ∷ s) = elim (Bool-cases (is_space c)) [
  | inl e ↦ rw e (lstrip-IsBare s)
  | inr e ↦ rw e e
]

rstrip-IsBare : (s : Text) → IsBare s → IsBare (rstrip s)
unfolding rstrip
rstrip-IsBare [] h = tt
rstrip-IsBare (c ∷ s) h = rw h h

pub IsStripped-IsBare : (s : Text) → IsStripped s → IsBare s
unfolding strip
IsStripped-IsBare s h = rw h at (rstrip-IsBare (lstrip s) (lstrip-IsBare s))

pub IsStripped-rstrip : (s : Text) → IsStripped s → rstrip s ≡ s
unfolding strip
IsStripped-rstrip s h = ap rstrip (sym h) ∙ rstrip-rstrip (lstrip s) ∙ h

pub rstrip-append : (s t : Text) → is_empty (rstrip t) ≡ false → rstrip (s ++ t) ≡ s ++ rstrip t
unfolding rstrip
rstrip-append [] t h = refl
rstrip-append (c ∷ []) t h = rw h (ground arith)
rstrip-append (c ∷ d ∷ s) t h = rw (rstrip-append (d ∷ s) t h) (ground arith)

pub rstrip-append_space : (s : Text) (c : ℕ) → is_space c ≡ true → rstrip (s ++ c ∷ []) ≡ rstrip s
unfolding rstrip
rstrip-append_space [] c h = ground arith
rstrip-append_space (d ∷ s) c h = rw (rstrip-append_space s c h)

module _ {κ} (P : ℕ → Type κ) where
  lstrip-All : (s : Text) → All P s → All P (lstrip s)
  unfolding lstrip
  lstrip-All [] p = tt
  lstrip-All (c ∷ s) p = elim (Bool-cases (is_space c)) [
    | inl e ↦ rw e (lstrip-All s p.1)
    | inr e ↦ rw e p
  ]

  rstrip-All : (s : Text) → All P s → All P (rstrip s)
  unfolding rstrip
  rstrip-All [] p = tt
  rstrip-All (c ∷ s) p = elim (Bool-cases (is_space c && is_empty (rstrip s))) [
    | inl e ↦ rw e tt
    | inr e ↦ rw e (p.0, rstrip-All s p.1)
  ]

  pub strip-All : (s : Text) → All P s → All P (strip s)
  unfolding strip
  strip-All s p = rstrip-All (lstrip s) (lstrip-All s p)

-- A carriage return stands at the end only.
abbrev pub IsCrLast : Text → Type 0
IsCrLast [] = Unit
IsCrLast (c ∷ s) = (c ≡ carriage_return → is_empty s ≡ true) × IsCrLast s

abbrev pub HasNoCr : Text → Type 0
HasNoCr = All λ c. c ≢ carriage_return

lstrip-IsCrLast : (s : Text) → IsCrLast s → IsCrLast (lstrip s)
unfolding lstrip
lstrip-IsCrLast [] p = tt
lstrip-IsCrLast (c ∷ s) p = elim (Bool-cases (is_space c)) [
  | inl e ↦ rw e (lstrip-IsCrLast s p.1)
  | inr e ↦ rw e p
]

-- What `rstrip` keeps in front of a text that ends in a carriage return is not one.
kept_ne_cr :
    (c : ℕ) (s : Text)
    → (c ≡ carriage_return → is_empty s ≡ true)
    → is_space c && is_empty (rstrip s) ≡ false
    → c ≢ carriage_return
unfolding rstrip is_space
kept_ne_cr c [] p e h = ground arith
kept_ne_cr c (d ∷ s) p e h = cc (p h)

rstrip-HasNoCr : (s : Text) → IsCrLast s → HasNoCr (rstrip s)
unfolding rstrip
rstrip-HasNoCr [] p = tt
rstrip-HasNoCr (c ∷ s) p = elim (Bool-cases (is_space c && is_empty (rstrip s))) [
  | inl e ↦ rw e tt
  | inr e ↦ rw e (kept_ne_cr c s p.0 e, rstrip-HasNoCr s p.1)
]

pub strip-HasNoCr : (s : Text) → IsCrLast s → HasNoCr (strip s)
unfolding strip
strip-HasNoCr s p = rstrip-HasNoCr (lstrip s) (lstrip-IsCrLast s p)
