-- ===== src/Tle/Find.antt =====
-- Finding a satellite by name in a dict: the loops that `get_satellite_tle` of tle_manager.py and
-- `_find_satellite` of position_calc.py share word for word.
pub mod Laws
use space_project.Base.{
  ◌≡◌, ◌≢◌, refl, ◌↔◌, ◌⊎◌, inl, inr, Bool, true, false, Option, none, some, List, [], ◌∷◌, ◌++◌,
  arith, if◌then◌else◌, Bool-cases,
}
use space_project.Base.Text.{Text, upper, text_eq, contains}
use space_project.Base.Dict.{Dict}

-- `name.upper() == satellite_name.upper()`
abbrev pub matches_exactly : Text → Text → Bool
matches_exactly query name = text_eq (upper name) (upper query)

-- `satellite_name.upper() in name.upper()`
abbrev pub matches_partly : Text → Text → Bool
matches_partly query name = contains (upper name) (upper query)

module _ {ℓ} {V : Type ℓ} where
  -- `for name, value in d.items(): if test(name): return value`
  unfoldable pub find_first : (Text → Bool) → Dict V → Option V
  find_first test [] = none
  find_first test ((name, v) ∷ d) = if test name then some v else find_first test d

  -- The exact loop first, then the partial one.
  unfoldable pub find_by_name : Text → Dict V → Option V
  find_by_name query d = elim (find_first (matches_exactly query) d) [
    | some v ↦ some v
    | none ↦ find_first (matches_partly query) d
  ]

  -- `_find_tle` of position_calc.py: one loop that tries both tests at each entry.
  unfoldable pub find_either : Text → Dict V → Option V
  find_either query [] = none
  find_either query ((name, v) ∷ d) =
      if matches_exactly query name
      then some v
      else if matches_partly query name
      then some v
      else find_either query d
