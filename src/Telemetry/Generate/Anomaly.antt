-- ===== src/Telemetry/Generate/Anomaly.antt =====
-- `_generate_anomaly`.
use space_project.Base.Int.{negsuc}
use space_project.Float.{Float}
use space_project.Telemetry.{Telemetry}
use space_project.Telemetry.Random.{Rng}
use space_project.Telemetry.Action.{Action, pure, ◌>>=◌}
use space_project.Telemetry.Generate.State.{
  World, AnomalyType, battery_critical, storage_full, signal_loss, sudden_discharge, anomaly_type,
  whole, clamped_reading, self_gets, draw,
}

module _ {F T S : Type 0} ⦃f : Float F⦄ (r : Rng F S) where
  -- `self.battery + random.uniform(-2, 2)`, and so on.
  unfoldable pub battery_plus : Action (World F T S) F
  battery_plus = do
    change ← draw r (r.uniform (f.of_int (negsuc 1)) (whole 2))
    self_gets r (λ g. f.add g.battery change)

  unfoldable pub storage_plus : Action (World F T S) F
  storage_plus = do
    change ← draw r (r.uniform (whole 0) (whole 100))
    self_gets r (λ g. f.add g.storage change)

  unfoldable pub signal_plus : Action (World F T S) F
  signal_plus = do
    change ← draw r (r.uniform (f.of_int (negsuc 4)) (whole 5))
    self_gets r (λ g. f.add g.signal change)

  -- `_generate_anomaly`, for each anomaly type: the values before they are clamped.
  unfoldable pub anomalous : AnomalyType → Action (World F T S) (F × F × F)
  anomalous battery_critical = do
    battery ← draw r (r.uniform (whole 0) (whole 10))
    storage ← storage_plus
    signal ← signal_plus
    pure (battery, storage, signal)
  anomalous storage_full = do
    battery ← battery_plus
    storage ← draw r (r.uniform (whole 95_000) (whole 100_000))
    signal ← signal_plus
    pure (battery, storage, signal)
  anomalous signal_loss = do
    battery ← battery_plus
    storage ← storage_plus
    signal ← draw r (r.uniform (f.of_int (negsuc 119)) (f.of_int (negsuc 109)))
    pure (battery, storage, signal)
  anomalous sudden_discharge = do
    drop ← draw r (r.uniform (whole 20) (whole 40))
    battery ← self_gets r (λ g. f.sub g.battery drop)
    storage ← storage_plus
    signal ← signal_plus
    pure (battery, storage, signal)

  unfoldable pub generate_anomaly : Action (World F T S) (Telemetry F)
  generate_anomaly = do
    k ← draw r (r.choice 4)
    values ← anomalous (anomaly_type k)
    pure (clamped_reading values)
