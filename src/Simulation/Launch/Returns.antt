-- ===== src/Simulation/Launch/Returns.antt =====
-- The constructor of a swarm, on any files.
use space_project.Base.{ℕ, ◌≡◌, refl, false, Option, none, some, List, Bool-cases, inl, inr}
use space_project.Base.Text.{Text}
use space_project.Float.{Float}
use space_project.Tle.Manager.{Manager, Disk, Outside, Result, ok, raised, saved, load_tle_data}
use space_project.Tle.Manager.Again.{Returns, load_tle_data_again}
use space_project.Tle.Manager.Names.{get_real_satellite_names}
use space_project.Position.Skyfield.{Skyfield}
use space_project.Position.Calculator.{Calculator, new_calculator}
use space_project.Telemetry.Random.{Rng}
use space_project.Simulation.{SimulatorConfig}
use space_project.Simulation.Start.{swarm_satellites}
use space_project.Simulation.Launch.{
  new_manager, Surroundings, create_position_manager, load_satellite_names, lookup_of, new_swarm,
}

module _ {F : Type 0} ⦃f : Float F⦄ (sky : Skyfield F) where
  load_satellite_names-Returns :
      (out : Outside) (count : ℕ) (calculator : Option (Calculator sky)) (disk : Disk)
      → Returns (load_tle_data out false new_manager disk)
      → Returns (load_satellite_names sky out count calculator disk)
  unfolding load_satellite_names get_real_satellite_names
  load_satellite_names-Returns out count none disk h = (_, refl)
  load_satellite_names-Returns out count (some c) disk (after, e) =
      rw (e, load_satellite_names) (_, refl)

  -- Without a calculator no name is loaded, and with one the files are those that its manager left.
  names_return :
      (out : Surroundings) (count : ℕ) (disk : Disk)
      → (first : Result (Manager × Disk)) → load_tle_data out.first false new_manager disk ≡ first
      → out.first.save ≡ saved
      → let (calculator, disk') = create_position_manager sky out disk in
        Returns (load_satellite_names sky out.second count calculator disk')
  unfolding create_position_manager load_satellite_names
  names_return out count disk (raised error) e w = rw (e, create_position_manager) (_, refl)
  names_return out count disk (ok after) e w = elim (Bool-cases out.has_timescale) [
    | inl ts ↦
        rw (e, ts, create_position_manager)
          (load_satellite_names-Returns out.second count
            (some (new_calculator sky after.0.tle_cache)) after.1
            (load_tle_data_again out.first new_manager disk after e w out.second new_manager))
    | inr ts ↦ rw (e, ts, create_position_manager) (_, refl)
  ]

  module _ {S : Type 0} (r : Rng F S) where
    pub new_swarm_returns :
        (out : Surroundings) (config : SimulatorConfig F) (disk : Disk)
        → out.first.save ≡ saved
        → (calculator : Option (Calculator sky)) × (names : List Text) × (disk' : Disk) × (new_swarm
              sky r out config disk
            ≡ ok (swarm_satellites r config (lookup_of sky calculator) names, disk'))
    unfolding new_swarm
    new_swarm_returns out config disk w =
        let ((names, disk'), e) =
          names_return out config.num_satellites disk
            (load_tle_data out.first false new_manager disk) refl w in
        ((create_position_manager sky out disk).0, names, disk', rw (e, new_swarm) refl)
