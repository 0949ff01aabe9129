-- ===== src/Tests/Data.antt =====
-- Generators of random numbers that always draw their lowest value or the mean, a satellite, a
-- text as Celestrak answers it, and a library that accepts every TLE.
use space_project.Base.{ℕ, zero, suc, refl, none, some, [], ◌∷◌, ◌++◌, arith, if◌then◌else◌}
use space_project.Base.Int.{pos, negsuc}
use space_project.Base.Text.{Text, codes, newline}
use space_project.Float.{◌≼◌}
use space_project.Float.Cents.{Cents, cents_float}
use space_project.Telemetry.{PositionData, found, not_found, Calculator, Generator}
use space_project.Telemetry.Random.{Rng, IsRng}
use space_project.Telemetry.Generate.{World}
use space_project.Telemetry.Invariant.{IsInRange}
use space_project.Tle.{Cache}
use space_project.Tle.Manager.{
  Disk, CacheFile, MetadataFile, Outside, received, saved, fallback_iss, fallback_noaa_18,
  fallback_noaa_19,
}
use space_project.Position.Skyfield.{Skyfield}

-- The state counts the draws.
abbrev pub low_rng : Rng Cents ℕ
low_rng = record {
  random = λ s. (some (pos 50), suc s);
  uniform = λ a b s. (a, suc s);
  np_uniform = λ a b s. (a, suc s);
  np_normal =
      λ mean scale s. (if cents_float.le (some (pos 0)) scale then some mean else none, suc s);
  choice = λ n s. (0, suc s);
}

le_self : (a b : Cents) → a ≼ b → a ≼ a
le_self none b h = h
le_self (some a) b h = ground arith

pub low_rng-IsRng : IsRng low_rng
low_rng-IsRng = record {
  uniform_bounds = λ a b s h. (le_self a b h, h);
  np_uniform_bounds = λ a b s h. (le_self a b h, h);
  np_normal_some = λ mean scale s h. rw h (λ e. cc);
}

abbrev pub over_java : PositionData Cents
over_java = record {
  latitude = some (negsuc 699);
  longitude = some (pos 11_000);
  altitude_km = some (pos 42_000);
  velocity_kmph = some (pos 2_760_000);
}

-- A position at the time 0 only.
abbrev pub start_calculator : Calculator Cents ℕ
start_calculator name zero = found over_java
start_calculator name (suc _) = not_found

abbrev pub iss_generator : Generator Cents ℕ
iss_generator = record {
  anomaly_rate = some (pos 1);
  satellite_name = some (codes "ISS");
  position_calculator = some start_calculator;
  battery = some (pos 10_000);
  storage = some (pos 0);
  signal = some (negsuc 4999);
  battery_drain_rate = some (pos 5);
  storage_growth_rate = some (pos 1000);
  signal_volatility = some (pos 50);
  last_position = none;
}

pub iss_generator-IsInRange : IsInRange iss_generator
iss_generator-IsInRange = record { battery = (refl, refl); storage = refl; signal = (refl, refl) }

abbrev pub iss_world : World Cents ℕ ℕ
iss_world = record { self = iss_generator; rng = 0 }

abbrev pub two_records : Text
two_records =
    fallback_iss.name
    ++ newline
      ∷ (fallback_iss.line1
          ++ newline
            ∷ (fallback_iss.line2
                ++ newline
                  ∷ (fallback_noaa_18.name
                      ++ newline ∷ (fallback_noaa_18.line1 ++ newline ∷ fallback_noaa_18.line2))))

abbrev pub old_cache : Cache
old_cache = (fallback_noaa_19.name, fallback_noaa_19) ∷ (fallback_iss.name, fallback_iss) ∷ []

abbrev pub empty_disk : Disk
empty_disk = record { cache_file = CacheFile.missing; metadata_file = MetadataFile.missing }

abbrev pub good_day : Outside
good_day = record { now = 1000; response = received 200 two_records; saved_at = 2000; save = saved }

-- A library for which a satellite is its name and a time is a number.
abbrev pub flat_sky : Skyfield Cents
flat_sky = record {
  EarthSatellite = Text;
  Datetime = ℕ;
  Time = ℕ;
  Geocentric = ℕ;
  earth_satellite = λ line1 line2 name. some name;
  in_utc = λ t. some t;
  at = λ satellite t. some t;
  subpoint = λ t. some (some (pos 0), some (pos 20_000), some (pos 40_000));
  speed_kms = λ t. some (some (pos 766));
  elevation_degrees = λ satellite lat lon alt t. some (some (pos 1500));
  parse_float = λ text. some (some (pos 1550));
  mul = λ a b. a;
  divide = λ a b. some a;
}
