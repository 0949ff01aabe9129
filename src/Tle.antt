-- ===== src/Tle.antt =====
-- python-simulator/generators/tle_manager.py: the orbital elements of a satellite, and the dict
-- `_tle_cache` that the manager fills, looks up and saves.
pub mod Parse
pub mod Find
pub mod Manager
use space_project.Base.Text.{Text}
use space_project.Base.Dict.{Dict}

-- `TLEData`
pub record TleData : Type 0 where
  pub name : Text
  pub line1 : Text
  pub line2 : Text

-- `Dict[str, TLEData]`
abbrev pub Cache : Type 0
Cache = Dict TleData
