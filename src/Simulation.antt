-- ===== src/Simulation.antt =====
-- python-simulator/satellite_sim.py and config.py: the satellites, their coroutines and the state
-- that these share.
pub mod Send
pub mod Start
pub mod Launch
pub mod Main
pub mod Schedule
pub mod Counts
pub mod Safety
pub mod Stop
use space_project.Base.{ℕ, Bool, Option, List}
use space_project.Base.Int.{ℤ}
use space_project.Base.Text.{Text}
use space_project.Telemetry.{Generator}

pub record SimulatorConfig (F : Type 0) : Type 0 where
  pub num_satellites : ℕ
  pub points_per_second_per_satellite : ℤ
  pub api_url : Text
  pub duration_seconds : ℤ
  pub max_connections : ℕ
  pub max_connections_per_host : ℕ
  pub anomaly_rate : F
  pub running : Bool

-- The dict `stats`; `start_time` is only reported.
pub record Stats : Type 0 where
  pub total_sent : ℕ
  pub success : ℕ
  pub errors : ℕ
  pub start_time : ℕ

-- The JSON object of a request; a key that is not set is `none`.
pub record Payload (F : Type 0) : Type 0 where
  pub satellite_id : Text
  pub timestamp : Text
  pub battery_charge_percent : F
  pub storage_usage_mb : F
  pub signal_strength_dbm : F
  pub latitude : Option F
  pub longitude : Option F
  pub altitude_km : Option F
  pub velocity_kmph : Option F

-- What comes of a request: a status, or an exception with its text.
pub data Reply : Type 0 where
  status : ℕ → Reply
  exception : Text → Reply

-- The dict that `send_telemetry` returns.
pub data SendResult : Type 0 where
  success : (satellite : Text) → SendResult
  error_code : (code : ℕ) → SendResult
  error_message : (message : Text) → SendResult

pub record Satellite (F T : Type 0) : Type 0 where
  pub id : Text
  pub generator : Generator F T

-- Where the coroutine `continuous_send` of a satellite is: not yet run, at the test of its loop, at
-- the `await` of its request or of its pause, returned, ended by an exception of its own, or
-- cancelled, at a request or elsewhere.
pub data Place : Type 0 where
  created at_test at_request at_pause returned raised cancelled_at_request cancelled : Place

pub record Task (F T : Type 0) : Type 0 where
  pub satellite : Satellite F T
  pub place : Place

-- What the coroutines share: the configuration, the statistics, the random number generators, and
-- the requests that were made so far, the last first, with which the statistics are compared.
pub record Shared (F S : Type 0) : Type 0 where
  pub config : SimulatorConfig F
  pub stats : Stats
  pub rng : S
  pub requests : List (Payload F)

pub record Swarm (F T S : Type 0) : Type 0 where
  pub shared : Shared F S
  pub tasks : List (Task F T)
