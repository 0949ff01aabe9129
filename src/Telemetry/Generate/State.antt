-- ===== src/Telemetry/Generate/State.antt =====
-- The object with its random generators, and the values that a reading is made of.
use space_project.Base.{ℕ, zero, suc, Option, none, some, if◌then◌else◌, is_empty}
use space_project.Base.Int.{pos, negsuc}
use space_project.Base.Text.{Text}
use space_project.Float.{Float, clamp, py_max}
use space_project.Telemetry.{PositionData, Calculator, Generator, Telemetry}
use space_project.Telemetry.Random.{Rng}
use space_project.Telemetry.Action.{Action, gets, modify}

-- The object, and the state of the random number generators.
pub record World (F T S : Type 0) : Type 0 where
  pub self : Generator F T
  pub rng : S

-- The strings of `random.choice`, in their order.
pub data AnomalyType : Type 0 where
  battery_critical storage_full signal_loss sudden_discharge : AnomalyType

abbrev pub anomaly_type : ℕ → AnomalyType
anomaly_type zero = battery_critical
anomaly_type (suc zero) = storage_full
anomaly_type (suc (suc zero)) = signal_loss
anomaly_type (suc (suc (suc _))) = sudden_discharge

module _ {F : Type 0} ⦃f : Float F⦄ where
  -- `int` literals as numbers.
  abbrev pub whole : ℕ → F
  whole n = f.of_int (pos n)

  -- The dict with the three rounded values.
  abbrev pub reading : F → F → F → Telemetry F
  reading battery storage signal = record {
    battery = f.round battery 2;
    storage = f.round storage 2;
    signal = f.round signal 2;
    latitude = none;
    longitude = none;
    altitude_km = none;
    velocity_kmph = none;
  }

  -- The end of `_generate_anomaly`.
  abbrev pub clamped_reading : F × F × F → Telemetry F
  clamped_reading (battery, storage, signal) =
      reading (clamp (pos 0) (pos 100) battery) (py_max (whole 0) storage)
        (clamp (negsuc 119) (negsuc 29) signal)

  abbrev pub with_position : Telemetry F → Option (PositionData F) → Telemetry F
  with_position telemetry none = telemetry
  with_position telemetry (some p) = record telemetry {
    latitude = some (f.round p.latitude 6);
    longitude = some (f.round p.longitude 6);
    altitude_km = some (f.round p.altitude_km 2);
    velocity_kmph = some (f.round p.velocity_kmph 2);
  }

-- A calculator that is set, and a name that is neither missing nor empty.
unfoldable pub tracked : {F T : Type 0} → Generator F T → Option (Text × Calculator F T)
tracked g = elim g.position_calculator [
  | none ↦ none
  | some calculator ↦ elim g.satellite_name [
    | none ↦ none
    | some name ↦ if is_empty name then none else some (name, calculator)
  ]
]

module _ {F T S : Type 0} ⦃f : Float F⦄ (r : Rng F S) where
  abbrev pub update_self : (Generator F T → Generator F T) → Action (World F T S) (Unit {0})
  update_self g = modify λ w. record w { self = g w.self }

  abbrev pub self_gets {ℓ} : {A : Type ℓ} → (Generator F T → A) → Action (World F T S) A
  self_gets g = gets λ w. g w.self

  abbrev pub draw {ℓ} : {A : Type ℓ} → (S → A × S) → Action (World F T S) A
  draw d w = let (a, s) = d w.rng in (some a, record w { rng = s })

  abbrev pub draw_normal : F → F → Action (World F T S) F
  draw_normal mean scale w = let (a, s) = r.np_normal mean scale w.rng in (a, record w { rng = s })
