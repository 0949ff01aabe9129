-- ===== src/Telemetry.antt =====
-- python-simulator/generators/telemetry_gen.py: class TelemetryGenerator. A method is an action on
-- the object and on the state of the random number generators; `none` is the `ValueError` that
-- `np.random.normal` raises for a negative scale. What was written before stays written.
pub mod Random
pub mod Action
pub mod Generate
pub mod Invariant
pub mod Position
pub mod Correct
use space_project.Base.{ℕ, Option, none, some}
use space_project.Base.Text.{Text}

-- `PositionData` of position_calc.py
pub record PositionData (F : Type 0) : Type 0 where
  pub latitude : F
  pub longitude : F
  pub altitude_km : F
  pub velocity_kmph : F

-- `get_position` of a `PositionCalculator`: an exception, `None`, or a position.
pub data Lookup (F : Type 0) : Type 0 where
  failed : Lookup F
  not_found : Lookup F
  found : PositionData F → Lookup F

abbrev pub Calculator : Type 0 → Type 0 → Type 0
Calculator F T = Text → T → Lookup F

-- The fields of the object that are read after its construction.
pub record Generator (F T : Type 0) : Type 0 where
  pub anomaly_rate : F
  pub satellite_name : Option Text
  pub position_calculator : Option (Calculator F T)
  pub battery : F
  pub storage : F
  pub signal : F
  pub battery_drain_rate : F
  pub storage_growth_rate : F
  pub signal_volatility : F
  pub last_position : Option (PositionData F)

-- The dict that `generate_telemetry` returns; a key that is not set is `none`.
pub record Telemetry (F : Type 0) : Type 0 where
  pub battery : F
  pub storage : F
  pub signal : F
  pub latitude : Option F
  pub longitude : Option F
  pub altitude_km : Option F
  pub velocity_kmph : Option F
