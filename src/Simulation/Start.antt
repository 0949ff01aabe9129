-- ===== src/Simulation/Start.antt =====
-- `SatelliteSwarm.__init__`, after its position calculator, and the coroutines that `start` makes.
pub mod Laws
pub mod Run
use space_project.Base.{
  ℕ, zero, suc, ◌+◌, Bool, true, Option, none, some, List, [], ◌∷◌, ◌++◌, map, drop, is_empty,
}
use space_project.Base.Decimal.{format_04d}
use space_project.Base.Int.{ℤ, pos, negsuc}
use space_project.Base.Text.{Text, codes}
use space_project.Float.{Float}
use space_project.Telemetry.{Generator, Calculator}
use space_project.Telemetry.Random.{Rng}
use space_project.Telemetry.Action.{Action, pure, ◌>>=◌}
use space_project.Telemetry.Generate.{whole, new_generator}
use space_project.Simulation.{
  SimulatorConfig, Stats, Satellite, Place, created, Task, Shared, Swarm,
}

-- `f"SAT-{i+1:04d}"`
unfoldable pub sat_id : ℕ → Text
sat_id i = codes "SAT-" ++ format_04d (i + 1)

-- `satellite_names[i] if i < len(satellite_names) else None`
unfoldable pub name_at : ℕ → List Text → Option Text
name_at i [] = none
name_at zero (name ∷ names) = some name
name_at (suc i) (name ∷ names) = name_at i names

-- `_get_satellite_names`, where `real_names` is what a TLE manager's `get_real_satellite_names`
-- returns.
unfoldable pub get_satellite_names : {C : Type 0} → Option C → List Text → List Text
get_satellite_names none real_names = []
get_satellite_names (some _) real_names = real_names

-- `stats`, at the time `now`.
abbrev pub new_stats : ℕ → Stats
new_stats now = record { total_sent = 0; success = 0; errors = 0; start_time = now }

module _ {F T S : Type 0} ⦃f : Float F⦄ (r : Rng F S) where
  -- The loop over `range(config.num_satellites)`, from `i` on, with `rest` rounds to go.
  unfoldable pub make_satellites :
      F → Option (Calculator F T) → List Text → (i rest : ℕ) → Action S (List (Satellite F T))
  make_satellites anomaly_rate calculator names i zero = pure []
  make_satellites anomaly_rate calculator names i (suc rest) = do
    generator ←
        new_generator r (whole 100) (whole 0) (f.of_int (negsuc 49)) anomaly_rate (name_at i names)
          calculator
    satellites ← make_satellites anomaly_rate calculator names (suc i) rest
    pure (record { id = sat_id i; generator = generator } ∷ satellites)

  -- The satellites of a new swarm.
  unfoldable pub swarm_satellites :
      SimulatorConfig F → Option (Calculator F T) → List Text → Action S (List (Satellite F T))
  swarm_satellites config calculator real_names =
      make_satellites config.anomaly_rate calculator (get_satellite_names calculator real_names) 0
        config.num_satellites

-- The swarm when `start` has made its coroutines.
unfoldable pub start :
    {F T S : Type 0} → SimulatorConfig F → ℕ → S → List (Satellite F T) → Swarm F T S
start config now rng satellites = record {
  shared = record { config = config; stats = new_stats now; rng = rng; requests = [] };
  tasks = map (λ satellite. record { satellite = satellite; place = created }) satellites;
}
