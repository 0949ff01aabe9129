-- ===== src/Ingest/Batch.antt =====
-- go-service/db/batch.go: the buffer of the batch processor, and a flush, which tries to insert its
-- batch and spills it to the log when the breaker refuses or every try fails.
pub mod Flush
pub mod Run
pub mod Backoff
use space_project.Base.{
  ◌<◌, ◌≡◌, arith, ℕ, suc, ◌+◌, Bool, true, false, Option, none, some, List, [], ◌∷◌, ◌++◌, map,
  if◌then◌else◌, leb, ltb, length, is_empty,
}
use space_project.Float.{Float}
use space_project.Ingest.{TelemetryPoint}

-- `AnomalyConfig`
pub record AnomalyConfig (F : Type 0) : Type 0 where
  pub battery_min_percent : F
  pub storage_max_mb : F
  pub signal_min_dbm : F

-- The settings of a `BatchProcessor`.
pub record BatchConfig (F : Type 0) : Type 0 where
  pub batch_size : ℕ
  pub max_retries : ℕ
  pub max_buffer_size : ℕ
  pub anomaly_config : AnomalyConfig F

-- What `Add` does: it rejects the point, or keeps it, and starts a flush or does not.
pub data Added (F T : Type 0) : Type 0 where
  rejected : Added F T
  kept : (buffer : List (TelemetryPoint F T)) (flushes : Bool) → Added F T

module _ {F T : Type 0} ⦃f : Float F⦄ where
  unfoldable pub detect_anomaly : BatchConfig F → TelemetryPoint F T → Bool
  detect_anomaly config point =
      if f.lt point.battery_charge_percent config.anomaly_config.battery_min_percent
      then true
      else if f.lt config.anomaly_config.storage_max_mb point.storage_usage_mb
      then true
      else if f.lt point.signal_strength_dbm config.anomaly_config.signal_min_dbm
      then true
      else false

  -- The point as `Add` keeps it.
  abbrev pub marked : BatchConfig F → TelemetryPoint F T → TelemetryPoint F T
  marked config point = record point { is_anomaly = detect_anomaly config point }

  unfoldable pub add : BatchConfig F → TelemetryPoint F T → List (TelemetryPoint F T) → Added F T
  add config point buffer =
      if leb config.max_buffer_size (length buffer)
      then rejected
      else let buffer' = buffer ++ marked config point ∷ [] in
        kept buffer' (leb config.batch_size (length buffer'))

  -- A point that is kept had room, and it is the last of the buffer.
  pub add_kept :
      (config : BatchConfig F) (point : TelemetryPoint F T)
      (buffer buffer' : List (TelemetryPoint F T)) (flushes : Bool)
      → add config point buffer ≡ kept buffer' flushes
      → (length buffer < config.max_buffer_size)
        × (buffer' ≡ buffer ++ marked config point ∷ [])
        × (flushes ≡ leb config.batch_size (length buffer'))
  unfolding add
  add_kept config point buffer buffer' flushes e = ground (arith, e)
