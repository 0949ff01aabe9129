-- ===== src/Position/Calculator.antt =====
-- The methods of PositionCalculator.
use space_project.Base.{Bool, Option, none, some, List, [], ◌∷◌, map, take, drop, if◌then◌else◌}
use space_project.Base.Int.{pos, negsuc}
use space_project.Base.Text.{Text}
use space_project.Base.Dict.{Dict, insert}
use space_project.Float.{Float}
use space_project.Tle.{TleData, Cache}
use space_project.Tle.Find.{find_by_name, find_either}
use space_project.Telemetry.{PositionData, Lookup, not_found, found}
use space_project.Position.Skyfield.{Skyfield}

-- An expression that may raise, inside a `try` block.
infixl 10 ◌>>=◌
abbrev pub ◌>>=◌ : {A B : Type 0} → Option A → (A → Option B) → Option B
none >>= k = none
some a >>= k = k a

-- `position` if it is not `None`, and the answer is none too where `get_position` returned `None`.
abbrev optional_velocity : {F : Type 0} → Option (PositionData F) → Option F
optional_velocity none = none
optional_velocity (some p) = some p.velocity_kmph

module _ {F : Type 0} ⦃f : Float F⦄ (sky : Skyfield F) where
  open sky use {
    EarthSatellite, Datetime, earth_satellite, in_utc, at, subpoint, speed_kms, elevation_degrees,
    parse_float, mul, divide,
  }

  pub record Calculator : Type 0 where
    pub tle_data : Cache
    pub satellites : Dict EarthSatellite

  -- `_load_satellites`: an entry that Skyfield refuses is passed over.
  unfoldable pub load_satellites : Cache → Dict EarthSatellite → Dict EarthSatellite
  load_satellites [] satellites = satellites
  load_satellites ((name, tle) ∷ entries) satellites =
      load_satellites entries (elim (earth_satellite tle.line1 tle.line2 name) [
        | none ↦ satellites
        | some satellite ↦ insert name satellite satellites
      ])

  unfoldable pub new_calculator : Cache → Calculator
  new_calculator tle_data = record { tle_data = tle_data; satellites = load_satellites tle_data [] }

  -- Normalize longitude to -180 to 180.
  unfoldable pub normalize_longitude : F → F
  normalize_longitude longitude =
      if f.lt (f.of_int (pos 180)) longitude
      then f.sub longitude (f.of_int (pos 360))
      else if f.lt longitude (f.of_int (negsuc 179))
      then f.add longitude (f.of_int (pos 360))
      else longitude

  -- The `try` block of `get_position`; an exception is logged and gives `None`.
  unfoldable pub position_of : EarthSatellite → Datetime → Option (PositionData F)
  position_of satellite timestamp = do
    t ← in_utc timestamp
    geocentric ← at satellite t
    place ← subpoint geocentric
    speed ← speed_kms geocentric
    some (record {
      latitude = place.0;
      longitude = normalize_longitude place.1;
      altitude_km = place.2;
      velocity_kmph = mul speed (f.of_int (pos 3600));
    })

  unfoldable pub find_satellite : Calculator → Text → Option EarthSatellite
  find_satellite c name = find_by_name name c.satellites

  unfoldable pub get_position : Calculator → Text → Datetime → Option (PositionData F)
  get_position c name timestamp = do
    satellite ← find_satellite c name
    position_of satellite timestamp

  unfoldable get_velocity : Calculator → Text → Datetime → Option F
  get_velocity c name timestamp = optional_velocity (get_position c name timestamp)

  unfoldable is_satellite_visible :
      Calculator → Text → Datetime → (lat lon alt_km min_elevation_deg : F) → Option Bool
  is_satellite_visible c name timestamp lat lon alt_km min_elevation_deg = do
    satellite ← find_satellite c name
    t ← in_utc timestamp
    degrees ← elevation_degrees satellite lat lon alt_km t
    some (f.le min_elevation_deg degrees)

  unfoldable pub get_available_satellites : Calculator → List Text
  get_available_satellites c = map (λ (name, _). name) c.satellites

  unfoldable pub find_tle : Calculator → Text → Option TleData
  find_tle c name = find_either name c.tle_data

  unfoldable get_orbital_period : Calculator → Text → Option F
  get_orbital_period c name = do
    satellite ← find_satellite c name
    tle ← find_tle c name
    mean_motion_rev_day ← parse_float (take 11 (drop 52 tle.line2))
    divide (f.of_int (pos 1440)) mean_motion_rev_day

  -- `get_position` as a `TelemetryGenerator` sees it: it returns `None` rather than raise.
  unfoldable pub as_lookup : Calculator → Text → Datetime → Lookup F
  as_lookup c name timestamp = elim (get_position c name timestamp) [
    | none ↦ not_found
    | some p ↦ found p
  ]
