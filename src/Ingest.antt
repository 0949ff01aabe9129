-- ===== src/Ingest.antt =====
-- go-service/: the ingestion service, from a posted point to the database. models/telemetry.go,
-- db/batch.go, db/wal.go, db/circuit_breaker.go, db/health_monitor.go and handlers/telemetry.go.
pub mod Breaker
pub mod Wal
pub mod Batch
pub mod Config
pub mod Monitor
pub mod System
pub mod Start
pub mod Shutdown
pub mod Handlers
use space_project.Base.{ℕ, Bool, Option}
use space_project.Base.Text.{Text}

-- `TelemetryPoint`, for numbers `F` and times `T`; a nil pointer, and the zero time, are `none`.
pub record TelemetryPoint (F T : Type 0) : Type 0 where
  pub satellite_id : Text
  pub battery_charge_percent : F
  pub storage_usage_mb : F
  pub signal_strength_dbm : F
  pub timestamp : Option T
  pub is_anomaly : Bool
  pub latitude : Option F
  pub longitude : Option F
  pub altitude_km : Option F
  pub velocity_kmph : Option F

-- `WALRecord`
pub record WalRecord (F T : Type 0) : Type 0 where
  pub timestamp : Option T
  pub satellite_id : Text
  pub battery_charge_percent : F
  pub storage_usage_mb : F
  pub signal_strength_dbm : F
  pub is_anomaly : Bool
  pub latitude : Option F
  pub longitude : Option F
  pub altitude_km : Option F
  pub velocity_kmph : Option F

-- A row of the table `telemetry`, as the statements insert it.
pub record Row (F T : Type 0) : Type 0 where
  pub time : Option T
  pub satellite_id : Text
  pub battery_charge_percent : F
  pub storage_usage_mb : F
  pub signal_strength_dbm : F
  pub is_anomaly : Bool
  pub latitude : Option F
  pub longitude : Option F
  pub altitude_km : Option F
  pub velocity_kmph : Option F

module _ {F T : Type 0} where
  -- The record that `flushToWAL` makes of a point.
  abbrev pub record_of : TelemetryPoint F T → WalRecord F T
  record_of point = record {
    timestamp = point.timestamp;
    satellite_id = point.satellite_id;
    battery_charge_percent = point.battery_charge_percent;
    storage_usage_mb = point.storage_usage_mb;
    signal_strength_dbm = point.signal_strength_dbm;
    is_anomaly = point.is_anomaly;
    latitude = point.latitude;
    longitude = point.longitude;
    altitude_km = point.altitude_km;
    velocity_kmph = point.velocity_kmph;
  }

  -- The arguments of `insertBatch`, in the order of its statement.
  abbrev pub row_of_point : TelemetryPoint F T → Row F T
  row_of_point point = record {
    time = point.timestamp;
    satellite_id = point.satellite_id;
    battery_charge_percent = point.battery_charge_percent;
    storage_usage_mb = point.storage_usage_mb;
    signal_strength_dbm = point.signal_strength_dbm;
    is_anomaly = point.is_anomaly;
    latitude = point.latitude;
    longitude = point.longitude;
    altitude_km = point.altitude_km;
    velocity_kmph = point.velocity_kmph;
  }

  -- The arguments of `insertWALRecords`.
  abbrev pub row_of_record : WalRecord F T → Row F T
  row_of_record r = record {
    time = r.timestamp;
    satellite_id = r.satellite_id;
    battery_charge_percent = r.battery_charge_percent;
    storage_usage_mb = r.storage_usage_mb;
    signal_strength_dbm = r.signal_strength_dbm;
    is_anomaly = r.is_anomaly;
    latitude = r.latitude;
    longitude = r.longitude;
    altitude_km = r.altitude_km;
    velocity_kmph = r.velocity_kmph;
  }
