-- ===== src/Tle/Manager/Names/Laws.antt =====
-- `get_real_satellite_names`: how many names it returns, and which.
use space_project.Base.{
  ℕ, zero, suc, ◌+◌, ◌-◌, ◌%◌, ◌≤◌, ◌≡◌, ◌≢◌, refl, sym, ap, ◌∙◌, inl, inr, none, List, [], ◌∷◌,
  ◌++◌, arith, ltb, Bool-cases, Option-cases, length, length-append, length-replicate, take,
  take_all, replicate, All, All-append,
}
use space_project.Base.Text.{Text}
use space_project.Tle.{Cache}
use space_project.Tle.Find.{find_by_name}
use space_project.Tle.Manager.Names.{real_satellites, filter_available, get_or, fill, choose_names}
use mathlib.Core.Logic.Or
use mathlib.Core.List.{Mem, mem-cons, mem-cons_self, append_assoc, append-nil}

first_again :
    (name : Text) (names : List Text) → get_or (name ∷ names) (0 % length (name ∷ names)) [] ≡ name
first_again name names =
    let e : 0 % length (name ∷ names) ≡ 0 = omega arith in ap (λ k. get_or (name ∷ names) k []) e

one_more :
    (k j : ℕ) (name : Text) (names : List Text)
    → j ≡ suc k
    → (name ∷ (names ++ name ∷ [])) ++ replicate k name ≡ (name ∷ names) ++ replicate j name
one_more k j name names e = rw (e, append_assoc)

-- With `i` at 0 the loop appends the first name over and over, until there are `count` names.
fill_first :
    (fuel count : ℕ) (name : Text) (names : List Text)
    → count ≤ length (name ∷ names) + fuel
    → fill fuel count 0 (name ∷ names)
      ≡ (name ∷ names) ++ replicate (count - length (name ∷ names)) name
unfolding fill
fill_first zero count name names h =
    let e : count - length (name ∷ names) ≡ 0 = omega arith in
    rw e (sym (append-nil (name ∷ names)))
fill_first (suc fuel) count name names h = elim (Bool-cases (ltb (length (name ∷ names)) count)) [
  | inl e ↦
      rw (e, first_again name names)
        (fill_first fuel count name (names ++ name ∷ [])
            (omega (arith, length-append names (name ∷ [])))
          ∙ one_more _ _ name names (ground (arith, length-append names (name ∷ []))))
  | inr e ↦
      let z : count - length (name ∷ names) ≡ 0 = ground arith in
      rw (e, z) (sym (append-nil (name ∷ names)))
]

filter_available-le :
    (cache : Cache) (names : List Text) → length (filter_available cache names) ≤ length names
unfolding filter_available
filter_available-le cache [] = omega arith
filter_available-le cache (name ∷ names) = ground (arith, filter_available-le cache names)

length-take-le : (n : ℕ) (names : List Text) → length (take n names) ≤ n
length-take-le zero names = omega arith
length-take-le (suc n) [] = omega arith
length-take-le (suc n) (x ∷ names) = omega (arith, length-take-le n names)

-- What the filter keeps fits into `count`.
length-available-le :
    (count : ℕ) (cache : Cache) (name : Text) (names : List Text)
    → filter_available cache (take count real_satellites) ≡ name ∷ names
    → length (name ∷ names) ≤ count
length-available-le count cache name names e = omega (
  arith,
  ap length e,
  filter_available-le cache (take count real_satellites),
  length-take-le count real_satellites,
)

length-filled :
    (count : ℕ) (name : Text) (names : List Text)
    → length (name ∷ names) ≤ count
    → length ((name ∷ names) ++ replicate (count - length (name ∷ names)) name) ≤ count
length-filled count name names h = omega (
  arith,
  length-append (name ∷ names) (replicate (count - length (name ∷ names)) name),
  length-replicate (count - length (name ∷ names)) name,
)

-- The names of the list that are found, in their order, and then the first of them again until
-- there are `count`.
pub choose_names_lem :
    (count : ℕ) (cache : Cache) (name : Text) (names : List Text)
    → filter_available cache (take count real_satellites) ≡ name ∷ names
    → choose_names count cache ≡ (name ∷ names) ++ replicate (count - length (name ∷ names)) name
unfolding choose_names
choose_names_lem count cache name names e =
    rw (e, choose_names)
      (rw (fill_first count count name names (omega arith)) (
        take_all count _
          (length-filled count name names (length-available-le count cache name names e))))

-- If no name of the first `count` of the list is found, no name is returned.
choose_names_none :
    (count : ℕ) (cache : Cache)
    → filter_available cache (take count real_satellites) ≡ []
    → choose_names count cache ≡ []
unfolding choose_names
choose_names_none zero cache e = refl
choose_names_none (suc count) cache e = rw (e, choose_names)

-- A name to use: it is found in the dict, and is one of the first `count` of `REAL_SATELLITES`.
abbrev pub IsUsable : ℕ → Cache → Text → Type 0
IsUsable count cache name = (find_by_name name cache ≢ none) × Mem name (take count real_satellites)

All-filter_available {κ} :
    (P : Text → Type κ) (cache : Cache) (names : List Text)
    → All P names
    → All (λ n. (find_by_name n cache ≢ none) × P n) (filter_available cache names)
unfolding filter_available
All-filter_available P cache [] h = tt
All-filter_available P cache (name ∷ names) h = elim (Option-cases (find_by_name name cache)) [
  | inl e ↦ rw (e, filter_available) (All-filter_available P cache names h.1)
  | inr (tle, e) ↦ rw (e, filter_available) ((λ n. cc, h.0), All-filter_available P cache names h.1)
]

All-Mem_onto :
    (xs ys : List Text) → All (λ n. Mem n ys) xs → (y : Text) → All (λ n. Mem n (y ∷ ys)) xs
All-Mem_onto [] ys h y = tt
All-Mem_onto (x ∷ xs) ys h y = (mem-cons.1 (Or.inr h.0), All-Mem_onto xs ys h.1 y)

All-Mem_self : (xs : List Text) → All (λ n. Mem n xs) xs
All-Mem_self [] = tt
All-Mem_self (x ∷ xs) = (mem-cons_self, All-Mem_onto xs xs (All-Mem_self xs) x)

All-replicate {κ} : (P : Text → Type κ) (n : ℕ) (x : Text) → P x → All P (replicate n x)
All-replicate P zero x h = tt
All-replicate P (suc n) x h = (h, All-replicate P n x h)

-- Every name that is returned can be used: position data exist for it, and it is listed.
pub choose_names-IsUsable :
    (count : ℕ) (cache : Cache) → All (IsUsable count cache) (choose_names count cache)
choose_names-IsUsable count cache = split (filter_available cache (take count real_satellites)) refl
  where
    split :
        (l : List Text)
        → filter_available cache (take count real_satellites) ≡ l
        → All (IsUsable count cache) (choose_names count cache)
    split [] e = rw (choose_names_none count cache e) tt
    split (name ∷ names) e =
        let listed : All (IsUsable count cache) (name ∷ names) = rw e at (
          All-filter_available (λ n. Mem n (take count real_satellites)) cache _
            (All-Mem_self (take count real_satellites))) in
        rw (choose_names_lem count cache name names e) (
          All-append (IsUsable count cache) (name ∷ names) _ listed
            (All-replicate (IsUsable count cache) _ name listed.0))
