-- ===== src/Position/Skyfield.antt =====
-- What position_calc.py calls of Skyfield and of `datetime`: each call may raise, which is `none`.
use space_project.Base.{Option}
use space_project.Base.Text.{Text}

pub record Skyfield (F : Type 0) : Type 1 where
  pub EarthSatellite : Type 0
  -- `datetime`, with or without a time zone, and Skyfield's time.
  pub Datetime : Type 0
  pub Time : Type 0
  pub Geocentric : Type 0
  -- `EarthSatellite(line1, line2, name, ts)`
  pub earth_satellite : (line1 line2 name : Text) → Option EarthSatellite
  -- The timestamp in UTC, as a Skyfield time: `replace` or `astimezone`, then `ts.utc(…)`.
  pub in_utc : Datetime → Option Time
  -- `satellite.at(t)`
  pub at : EarthSatellite → Time → Option Geocentric
  -- `wgs84.subpoint(geocentric)`: latitude and longitude in degrees, and elevation in km.
  pub subpoint : Geocentric → Option (F × F × F)
  -- `float(np.linalg.norm(geocentric.velocity.km_per_s))`
  pub speed_kms : Geocentric → Option F
  -- `(satellite - wgs84.latlon(lat, lon, alt)).at(t).altaz()[0].degrees`
  pub elevation_degrees : EarthSatellite → F → F → F → Time → Option F
  -- Python's `float(text)`, product, and quotient, which raises at 0.
  pub parse_float : Text → Option F
  pub mul : F → F → F
  pub divide : F → F → Option F
