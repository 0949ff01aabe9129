-- ===== src/Simulation/Launch.antt =====
-- `SatelliteSwarm.__init__` of satellite_sim.py from its start: two TLE managers, one after the
-- other on the same cache files, the position calculator and the satellites; and
-- `create_position_manager` of position_calc.py.
pub mod Laws
pub mod Returns
use space_project.Base.{ℕ, Bool, true, false, Option, none, some, List, [], ◌∷◌, if◌then◌else◌}
use space_project.Base.Text.{Text}
use space_project.Float.{Float}
use space_project.Tle.Manager.{Manager, Disk, Outside, Result, ok, raised, load_tle_data}
use space_project.Tle.Manager.Names.{get_real_satellite_names}
use space_project.Position.Skyfield.{Skyfield}
use space_project.Position.Calculator.{Calculator, new_calculator, as_lookup}
use space_project.Telemetry
use space_project.Telemetry.Random.{Rng}
use space_project.Telemetry.Action.{Action}
use space_project.Simulation.{SimulatorConfig, Satellite}
use space_project.Simulation.Start.{swarm_satellites}

-- `TLEManager()`, which takes its directory and its expiry time from the defaults.
abbrev pub new_manager : Manager
new_manager = record { cache_expiry_hours = 24; tle_cache = [] }

-- What the outside does in the two calls of `load_tle_data`, and whether `load.timescale()`
-- returns.
pub record Surroundings : Type 0 where
  pub first : Outside
  pub has_timescale : Bool
  pub second : Outside

module _ {F : Type 0} ⦃f : Float F⦄ (sky : Skyfield F) where
  open sky use {Datetime}

  abbrev constructed :
      (has_timescale : Bool) → Result (Manager × Disk) → Disk → Option (Calculator sky) × Disk
  constructed has_timescale (raised e) disk = (none, disk)
  constructed true (ok (m, disk')) disk = (some (new_calculator sky m.tle_cache), disk')
  constructed false (ok (m, disk')) disk = (none, disk')

  -- `create_position_manager`, and the `try` block of the constructor, which makes the same calls;
  -- an exception is `none`.
  unfoldable pub create_position_manager : Surroundings → Disk → Option (Calculator sky) × Disk
  create_position_manager out disk =
      constructed out.has_timescale (load_tle_data out.first false new_manager disk) disk

  abbrev names_of : Result (List Text × Manager × Disk) → Result (List Text × Disk)
  names_of (raised e) = raised e
  names_of (ok (names, _, disk)) = ok (names, disk)

  -- `_get_satellite_names(count)`, whose exceptions leave the constructor.
  unfoldable pub load_satellite_names :
      Outside → (count : ℕ) → Option (Calculator sky) → Disk → Result (List Text × Disk)
  load_satellite_names out count none disk = ok ([], disk)
  load_satellite_names out count (some _) disk =
      names_of (get_real_satellite_names out count new_manager disk)

  -- The calculator as the generators see it.
  abbrev pub lookup_of : Option (Calculator sky) → Option (Telemetry.Calculator F Datetime)
  lookup_of none = none
  lookup_of (some c) = some (as_lookup sky c)

  module _ {S : Type 0} (r : Rng F S) where
    abbrev populated :
        SimulatorConfig F
        → Option (Calculator sky)
        → Result (List Text × Disk)
        → Result (Action S (List (Satellite F Datetime)) × Disk)
    populated config calculator (raised e) = raised e
    populated config calculator (ok (names, disk)) =
        ok (swarm_satellites r config (lookup_of calculator) names, disk)

    -- The whole constructor: an exception, or the action that makes the satellites, and the files.
    unfoldable pub new_swarm :
        Surroundings
        → SimulatorConfig F
        → Disk
        → Result (Action S (List (Satellite F Datetime)) × Disk)
    new_swarm out config disk =
        let (calculator, disk') = create_position_manager out disk in
        populated config calculator
          (load_satellite_names out.second config.num_satellites calculator disk')
