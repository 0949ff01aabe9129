-- ===== src/Tle/Find/Laws.antt =====
-- What the two ways to find a satellite promise, and where they differ.
use space_project.Base.{
  ◌≡◌, refl, ◌↔◌, ap, inl, inr, Bool, true, false, none, some, [], ◌∷◌, ◌++◌, arith, Bool-cases,
  Option-cases, All,
}
use space_project.Base.Text.{Text, upper, text_eq, contains}
use space_project.Base.Text.Equality.{text_eq_iff}
use space_project.Base.Text.Search.{contains_refl}
use space_project.Base.Dict.{Dict}
use space_project.Tle.Find.{find_first, matches_exactly, matches_partly, find_by_name, find_either}

-- A name that is the query is also one that contains it.
exactly→partly :
    (query name : Text) → matches_exactly query name ≡ true → matches_partly query name ≡ true
exactly→partly query name h =
    rw ((text_eq_iff (upper name) (upper query)).0 h) (contains_refl (upper query))

module _ {ℓ} {V : Type ℓ} where
  abbrev pub NoneMatches : (Text → Bool) → Dict V → Type 0
  NoneMatches test = All λ (name, _). test name ≡ false

  find_first-none :
      (test : Text → Bool) (d : Dict V) → (find_first test d ≡ none) ↔ NoneMatches test d
  unfolding find_first
  find_first-none test [] = (λ _. tt, λ _. refl)
  find_first-none test ((name, v) ∷ d) = elim (Bool-cases (test name)) [
    | inl e ↦ rw e (λ h. cc, λ h. cc h.0)
    | inr e ↦ rw e (λ h. (refl, (find_first-none test d).0 h), λ h. (find_first-none test d).1 h.1)
  ]

  pub find_first_skip :
      (test : Text → Bool) (before : Dict V) (name : Text) (v : V) (after : Dict V)
      → NoneMatches test before
      → test name ≡ true
      → find_first test (before ++ (name, v) ∷ after) ≡ some v
  unfolding find_first
  find_first_skip test [] name v after b h = rw h
  find_first_skip test ((j, w) ∷ before) name v after b h =
      rw b.0 (find_first_skip test before name v after b.1 h)

  none_partly→none_exactly :
      (query : Text) (d : Dict V)
      → NoneMatches (matches_partly query) d
      → NoneMatches (matches_exactly query) d
  none_partly→none_exactly query [] h = tt
  none_partly→none_exactly query ((name, v) ∷ d) h =
      (ground (arith, exactly→partly query name, h.0), none_partly→none_exactly query d h.1)

  -- A satellite is not found exactly when no name of the dict contains the query, in any case.
  pub find_by_name-none_iff :
      (query : Text) (d : Dict V)
      → (find_by_name query d ≡ none) ↔ NoneMatches (matches_partly query) d
  unfolding find_by_name
  find_by_name-none_iff query d = elim (Option-cases (find_first (matches_exactly query) d)) [
    | inl e ↦ rw (e, find_by_name) (find_first-none (matches_partly query) d)
    | inr (v, e) ↦
        rw (e, find_by_name)
          (
            λ h. cc,
            λ h. cc (
                (find_first-none (matches_exactly query) d).1 (none_partly→none_exactly query d h)),
          )
  ]

  -- The first name that equals the query, in any case, is found, even if an entry in front of it
  -- contains the query.
  pub find_by_name_exact :
      (query : Text) (before : Dict V) (name : Text) (v : V) (after : Dict V)
      → NoneMatches (matches_exactly query) before
      → matches_exactly query name ≡ true
      → find_by_name query (before ++ (name, v) ∷ after) ≡ some v
  unfolding find_by_name
  find_by_name_exact query before name v after b h =
      rw (find_first_skip (matches_exactly query) before name v after b h, find_by_name)

  -- If no name equals the query, the first name that contains it is found.
  find_by_name_partial :
      (query : Text) (before : Dict V) (name : Text) (v : V) (after : Dict V)
      → NoneMatches (matches_exactly query) (before ++ (name, v) ∷ after)
      → NoneMatches (matches_partly query) before
      → matches_partly query name ≡ true
      → find_by_name query (before ++ (name, v) ∷ after) ≡ some v
  unfolding find_by_name
  find_by_name_partial query before name v after n b h =
      rw ((find_first-none (matches_exactly query) (before ++ (name, v) ∷ after)).1 n, find_by_name)
        (find_first_skip (matches_partly query) before name v after b h)

  -- Queries that differ in case only find the same satellite.
  pub find_by_name_case :
      (p q : Text) (d : Dict V) → upper p ≡ upper q → find_by_name p d ≡ find_by_name q d
  unfolding find_by_name
  find_by_name_case p q d e =
      let exact : find_first (matches_exactly p) d ≡ find_first (matches_exactly q) d =
        ap (λ u. find_first (λ name. text_eq (upper name) u) d) e in
      let partial : find_first (matches_partly p) d ≡ find_first (matches_partly q) d =
        ap (λ u. find_first (λ name. contains (upper name) u) d) e in
      cc (exact, partial)

  -- The exact test of `_find_tle` changes nothing: the first name that contains the query wins.
  pub find_either-eq-find_first :
      (query : Text) (d : Dict V) → find_either query d ≡ find_first (matches_partly query) d
  unfolding find_either find_first
  find_either-eq-find_first query [] = refl
  find_either-eq-find_first query ((name, v) ∷ d) =
      ground (arith, exactly→partly query name, find_either-eq-find_first query d)
