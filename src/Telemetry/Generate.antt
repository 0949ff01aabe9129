-- ===== src/Telemetry/Generate.antt =====
-- The methods of TelemetryGenerator.
mod State
mod Normal
mod Anomaly
unfoldable pub use State.*
unfoldable pub use Normal.*
unfoldable pub use Anomaly.*
use space_project.Base.{ℕ, zero, suc, Option, none, some, if◌then◌else◌, is_empty}
use space_project.Base.Int.{pos, negsuc}
use space_project.Base.Text.{Text}
use space_project.Float.{Float, clamp, py_max}
use space_project.Telemetry.{
  PositionData, Lookup, failed, not_found, found, Calculator, Generator, Telemetry,
}
use space_project.Telemetry.Random.{Rng}
use space_project.Telemetry.Action.{Action, pure, gets, modify, ◌>>=◌, ◌>>◌}

module _ {F T S : Type 0} ⦃f : Float F⦄ (r : Rng F S) where
  -- `_get_current_position` at the time `now`, and its use in `generate_telemetry`.
  abbrev last_known : Action (World F T S) (Option (PositionData F))
  last_known = self_gets r (λ g. g.last_position)

  unfoldable pub remember : Lookup F → Action (World F T S) (Option (PositionData F))
  remember (found p) = do update_self r (λ g. record g { last_position = some p }); pure (some p)
  remember not_found = last_known
  remember failed = last_known

  unfoldable pub get_current_position : T → Action (World F T S) (Option (PositionData F))
  get_current_position now w = elim (tracked w.self) [
    | none ↦ (some none, w)
    | some (name, calculator) ↦ remember (calculator name now) w
  ]

  -- The last part of `generate_telemetry`, for what `tracked` says of the object.
  unfoldable pub add_position :
      T → Telemetry F → Option (Text × Calculator F T) → Action (World F T S) (Telemetry F)
  add_position now telemetry none = pure telemetry
  add_position now telemetry (some _) = do
    position ← get_current_position now
    pure (with_position telemetry position)

  unfoldable pub generate_telemetry : T → Action (World F T S) (Telemetry F)
  generate_telemetry now = do
    p ← draw r r.random
    rate ← self_gets r (λ g. g.anomaly_rate)
    telemetry ← if f.lt p rate then generate_anomaly r else generate_normal r
    tracking ← self_gets r tracked
    add_position now telemetry tracking

  -- `__init__` with `__post_init__`: the three walks start at the base values, with parameters that
  -- are drawn.
  unfoldable pub new_generator :
      (base_battery base_storage base_signal anomaly_rate : F)
      → Option Text
      → Option (Calculator F T)
      → S
      → Option (Generator F T) × S
  new_generator base_battery base_storage base_signal anomaly_rate name calculator = do
    drain ← r.np_normal (f.hundredths 5) (f.hundredths 1)
    growth ← r.np_normal (whole 10) (whole 2)
    volatility ← r.np_normal (f.hundredths 50) (f.hundredths 10)
    pure (record {
      anomaly_rate = anomaly_rate;
      satellite_name = name;
      position_calculator = calculator;
      battery = base_battery;
      storage = base_storage;
      signal = base_signal;
      battery_drain_rate = drain;
      storage_growth_rate = growth;
      signal_volatility = volatility;
      last_position = none;
    })
