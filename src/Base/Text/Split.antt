-- ===== src/Base/Text/Split.antt =====
-- `split('\n')` and reading in text mode: the pieces, and the inverse of writing lines.
use Prim.Native.Nat.{ℕ}
use mathlib.Core.Path.{◌≡◌, refl}
use mathlib.Core.Logic.{◌≢◌, inl, inr}
use mathlib.Core.Bool.{false, ◌&&◌, true}
use mathlib.Core.List.{List, [], ◌∷◌, ◌++◌}
use native.Mathlib.Omega.{arith}
use space_project.Base.Tests.{Bool-cases, ◌==◌}
use space_project.Base.Lists.{All, is_empty}
use space_project.Base.Text.{
  is_space, lstrip, rstrip, strip, Text, newline, carriage_return, onto_first, split_lines,
  universal_newlines,
}
use space_project.Base.Text.Strip.{IsCrLast, HasNoCr}

abbrev pub HasNoNewline : Text → Type 0
HasNoNewline = All λ c. c ≢ newline

onto_first-All {κ} :
    (P : Text → Type κ) (c : ℕ) (ls : List Text)
    → P (c ∷ [])
    → ((l : Text) → P l → P (c ∷ l))
    → All P ls
    → All P (onto_first c ls)
onto_first-All P c [] one more p = (one, tt)
onto_first-All P c (l ∷ ls) one more p = (more l p.0, p.1)

-- No line holds a newline.
pub split_lines-HasNoNewline : (s : Text) → All HasNoNewline (split_lines s)
unfolding split_lines
split_lines-HasNoNewline [] = (tt, tt)
split_lines-HasNoNewline (c ∷ s) = elim (Bool-cases (c == newline)) [
  | inl e ↦ rw e (tt, split_lines-HasNoNewline s)
  | inr e ↦ rw e (
      onto_first-All HasNoNewline c (split_lines s) (ground arith, tt) (λ l p. (ground arith, p))
        (split_lines-HasNoNewline s))
]

-- Every carriage return is followed by a newline, as in a text with `\r\n` line ends.
abbrev pub HasNoLoneCr : Text → Type 0
HasNoLoneCr [] = Unit
HasNoLoneCr (c ∷ []) = (c ≢ carriage_return) × Unit {0}
HasNoLoneCr (c ∷ d ∷ s) = (c ≡ carriage_return → d ≡ newline) × HasNoLoneCr (d ∷ s)

pub split_lines-newline :
    (s t : Text) → HasNoNewline s → split_lines (s ++ newline ∷ t) ≡ s ∷ split_lines t
unfolding split_lines
split_lines-newline [] t h = refl
split_lines-newline (c ∷ s) t h = rw (split_lines-newline s t h.1) (ground arith)

pub split_lines_single : (s : Text) → HasNoNewline s → split_lines s ≡ s ∷ []
unfolding split_lines
split_lines_single [] h = refl
split_lines_single (c ∷ s) h = rw (split_lines_single s h.1) (ground arith)

abbrev IsEmptyFirst : List Text → Type 0
IsEmptyFirst [] = Unit
IsEmptyFirst (l ∷ ls) = is_empty l ≡ true

onto_first-IsCrLast :
    (c : ℕ) (ls : List Text)
    → (c ≡ carriage_return → IsEmptyFirst ls)
    → All IsCrLast ls
    → All IsCrLast (onto_first c ls)
onto_first-IsCrLast c [] first p = ((λ _. refl, tt), tt)
onto_first-IsCrLast c (l ∷ ls) first p = ((first, p.0), p.1)

split_lines-IsEmptyFirst : (d : ℕ) (s : Text) → d ≡ newline → IsEmptyFirst (split_lines (d ∷ s))
unfolding split_lines
split_lines-IsEmptyFirst d s h = ground arith

-- Then a line has a carriage return at its end only.
pub split_lines-IsCrLast : (s : Text) → HasNoLoneCr s → All IsCrLast (split_lines s)
unfolding split_lines
split_lines-IsCrLast [] h = (tt, tt)
split_lines-IsCrLast (c ∷ []) h = elim (Bool-cases (c == newline)) [
  | inl e ↦ rw e (tt, (tt, tt))
  | inr e ↦ rw e ((λ _. refl, tt), tt)
]
split_lines-IsCrLast (c ∷ d ∷ s) h =
    let rest = split_lines-IsCrLast (d ∷ s) h.1 in
    elim (Bool-cases (c == newline)) [
      | inl e ↦ rw e (tt, rest)
      | inr e ↦ rw e (
          onto_first-IsCrLast c (split_lines (d ∷ s)) (λ r. split_lines-IsEmptyFirst d s (h.0 r))
            rest)
    ]

pub universal_newlines_id : (s : Text) → HasNoCr s → universal_newlines s ≡ s
unfolding universal_newlines
universal_newlines_id [] h = refl
universal_newlines_id (c ∷ []) h = ground arith
universal_newlines_id (c ∷ d ∷ s) h = rw (universal_newlines_id (d ∷ s) h.1) (ground arith)

lstrip-HasNoLoneCr : (s : Text) → HasNoLoneCr s → HasNoLoneCr (lstrip s)
unfolding lstrip
lstrip-HasNoLoneCr [] h = tt
lstrip-HasNoLoneCr (c ∷ []) h = elim (Bool-cases (is_space c)) [ inl e ↦ rw e tt | inr e ↦ rw e h ]
lstrip-HasNoLoneCr (c ∷ d ∷ s) h = elim (Bool-cases (is_space c)) [
  | inl e ↦ rw e (lstrip-HasNoLoneCr (d ∷ s) h.1)
  | inr e ↦ rw e h
]

bare_ne_cr : (c : ℕ) → is_space c ≡ false → c ≢ carriage_return
unfolding is_space
bare_ne_cr c h = ground arith

rstrip-HasNoLoneCr : (s : Text) → HasNoLoneCr s → HasNoLoneCr (rstrip s)
unfolding rstrip
rstrip-HasNoLoneCr [] h = tt
rstrip-HasNoLoneCr (c ∷ []) h = elim (Bool-cases (is_space c)) [ inl e ↦ rw e tt | inr e ↦ rw e h ]
rstrip-HasNoLoneCr (c ∷ d ∷ s) h =
    let rest = rstrip-HasNoLoneCr (d ∷ s) h.1 in
    elim (Bool-cases (is_space d && is_empty (rstrip s))) [
      | inl e ↦
          rw e
            (elim (Bool-cases (is_space c)) [ inl b ↦ rw b tt | inr b ↦ rw b (bare_ne_cr c b, tt) ])
      | inr e ↦ rw e (elim (Bool-cases (is_space c)) [
        | inl b ↦ rw b (h.0, rw e at rest)
        | inr b ↦ rw b (h.0, rw e at rest)
      ])
    ]

pub strip-HasNoLoneCr : (s : Text) → HasNoLoneCr s → HasNoLoneCr (strip s)
unfolding strip
strip-HasNoLoneCr s h = rstrip-HasNoLoneCr (lstrip s) (lstrip-HasNoLoneCr s h)
