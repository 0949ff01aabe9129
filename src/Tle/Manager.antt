-- ===== src/Tle/Manager.antt =====
-- class TLEManager: its state, the two files of its cache directory, and the methods that load,
-- download and save. What the outside does in a call (the clock, the response of Celestrak, whether
-- a write succeeds) is an argument.
pub mod Validity
pub mod Load
pub mod Restart
pub mod Again
pub mod Names
use space_project.Base.{
  ℕ, ◌+◌, ◌*◌, Bool, true, false, Option, none, some, List, [], ◌∷◌, ◌&&◌, if◌then◌else◌, ltb, leb,
  is_empty, length,
}
use space_project.Base.Text.{Text, codes}
use space_project.Base.Dict.{insert}
use space_project.Tle.{TleData, Cache}
use space_project.Tle.Parse.{parse_download, parse_cache, render}

-- The fields of the object that change or are read later.
pub record Manager : Type 0 where
  pub cache_expiry_hours : ℕ
  pub tle_cache : Cache

-- What `fromisoformat` makes of the value under 'cached_at'. Times are microseconds since the epoch.
pub data Stamp : Type 0 where
  aware : ℕ → Stamp
  naive : Stamp
  malformed : Stamp
  not_text : Stamp

pub record MetadataObject : Type 0 where
  pub cached_at : Option Stamp
  pub satellite_count : ℕ
  pub source : Text

-- `metadata.json`: absent, not readable, no JSON, JSON that is no object, or an object.
pub data MetadataFile : Type 0 where
  missing : MetadataFile
  unreadable : MetadataFile
  no_json : MetadataFile
  no_object : MetadataFile
  object : MetadataObject → MetadataFile

-- `satellites.tle`
pub data CacheFile : Type 0 where
  missing : CacheFile
  unreadable : CacheFile
  text : Text → CacheFile

pub record Disk : Type 0 where
  pub cache_file : CacheFile
  pub metadata_file : MetadataFile

-- `requests.get` raised a `RequestException`, or returned a response.
pub data Response : Type 0 where
  request_failed : Response
  received : (status : ℕ) (body : Text) → Response

-- How far `_save_to_cache` came before an `IOError`, and what the failed write left.
pub data SaveOutcome : Type 0 where
  saved : SaveOutcome
  cache_write_failed : CacheFile → SaveOutcome
  metadata_write_failed : MetadataFile → SaveOutcome

-- The exceptions that leave `_is_cache_valid`.
pub data Error : Type 0 where
  os_error attribute_error type_error : Error

pub data Result {ℓ} (A : Type ℓ) : Type ℓ where
  ok : A → Result A
  raised : Error → Result A

abbrev pub cache_file_exists : CacheFile → Bool
cache_file_exists CacheFile.missing = false
cache_file_exists _ = true

abbrev pub microseconds_per_hour : ℕ
microseconds_per_hour = 3_600_000_000

-- `age.total_seconds() < (self.cache_expiry_hours * 3600)`. A missing 'cached_at' is read as '',
-- which is no ISO time, and the difference of a time with a zone and one without raises.
is_recent : (now : ℕ) (hours : ℕ) → Option Stamp → Result Bool
is_recent now hours none = ok false
is_recent now hours (some malformed) = ok false
is_recent now hours (some (aware cached)) = ok (ltb now (cached + hours * microseconds_per_hour))
is_recent now hours (some naive) = raised type_error
is_recent now hours (some not_text) = raised type_error

check_metadata : (now : ℕ) (hours : ℕ) → MetadataFile → Result Bool
unfolding is_recent
check_metadata now hours MetadataFile.missing = ok false
check_metadata now hours MetadataFile.unreadable = raised os_error
check_metadata now hours no_json = ok false
check_metadata now hours no_object = raised attribute_error
check_metadata now hours (object o) = is_recent now hours o.cached_at

unfoldable pub is_cache_valid : (now : ℕ) → Manager → Disk → Result Bool
unfolding check_metadata
is_cache_valid now m disk =
    if cache_file_exists disk.cache_file
    then check_metadata now m.cache_expiry_hours disk.metadata_file
    else ok false

-- `_load_from_cache`; an `IOError` leaves the dict empty.
abbrev read_cache : CacheFile → Cache
read_cache CacheFile.missing = []
read_cache CacheFile.unreadable = []
read_cache (text content) = parse_cache content

unfoldable pub load_from_cache : Manager → Disk → Manager
load_from_cache m disk = record m { tle_cache = read_cache disk.cache_file }

celestrak_active_url : Text
celestrak_active_url = codes "https://celestrak.org/NORAD/elements/gp.php?GROUP=active&FORMAT=tle"

-- `_save_to_cache`
unfoldable pub save_to_cache : (now : ℕ) → SaveOutcome → Manager → Disk → Disk
unfolding celestrak_active_url
save_to_cache now saved m disk = record {
  cache_file = text (render m.tle_cache);
  metadata_file = object (record {
    cached_at = some (aware now);
    satellite_count = length m.tle_cache;
    source = celestrak_active_url;
  });
}
save_to_cache now (cache_write_failed left) m disk = record disk { cache_file = left }
save_to_cache now (metadata_write_failed left) m disk = record {
  cache_file = text (render m.tle_cache);
  metadata_file = left;
}

-- `_add_fallback_tle`
abbrev pub fallback_iss : TleData
fallback_iss = record {
  name = codes "ISS";
  line1 = codes "1 25544U 98067A   24010.50000000  .00010000  00000-0  18000-3 0  9998";
  line2 = codes "2 25544  51.6416 250.0000 0005000 200.0000 150.0000 15.50000000420000";
}

abbrev pub fallback_noaa_18 : TleData
fallback_noaa_18 = record {
  name = codes "NOAA-18";
  line1 = codes "1 28654U 05018A   24010.50000000  .00000000  00000-0  00000-0 0  9998";
  line2 = codes "2 28654  99.1000 200.0000 0014000 100.0000 260.0000 14.10000000450000";
}

abbrev pub fallback_noaa_19 : TleData
fallback_noaa_19 = record {
  name = codes "NOAA-19";
  line1 = codes "1 33591U 09005A   24010.50000000  .00000000  00000-0  00000-0 0  9998";
  line2 = codes "2 33591  99.1000 200.0000 0014000 100.0000 260.0000 14.10000000450000";
}

add_tles : List TleData → Cache → Cache
add_tles [] cache = cache
add_tles (tle ∷ tles) cache = add_tles tles (insert tle.name tle cache)

unfoldable pub add_fallback_tle : Cache → Cache
unfolding add_tles
add_fallback_tle cache =
    add_tles (fallback_noaa_18 ∷ fallback_noaa_19 ∷ [])
      (insert fallback_iss.name fallback_iss cache)

-- `raise_for_status` raises for the status codes from 400 to 599.
unfoldable pub is_error_status : ℕ → Bool
is_error_status status = leb 400 status && ltb status 600

-- The dict after `_download_tle_data`, which clears it first.
pub downloaded : Response → Cache
unfolding is_error_status
downloaded request_failed = add_fallback_tle []
downloaded (received status body) =
    if is_error_status status then add_fallback_tle [] else parse_download body

unfoldable pub download_tle_data : Response → Manager → Manager
unfolding downloaded
download_tle_data response m = record m { tle_cache = downloaded response }

-- What the outside does during one call of `load_tle_data`.
pub record Outside : Type 0 where
  pub now : ℕ
  pub response : Response
  pub saved_at : ℕ
  pub save : SaveOutcome

refresh : Outside → Manager → Disk → Manager × Disk
refresh out m disk =
    let m' = download_tle_data out.response m in (m', save_to_cache out.saved_at out.save m' disk)

use_cache : Outside → Manager → Disk → Manager × Disk
unfolding refresh
use_cache out m disk =
    let m' = load_from_cache m disk in
    if is_empty m'.tle_cache then refresh out m' disk else (m', disk)

-- `load_tle_data`; the dict that it returns is the field `tle_cache` of the new state.
unfoldable pub load_tle_data :
    Outside → (force_refresh : Bool) → Manager → Disk → Result (Manager × Disk)
unfolding refresh use_cache
load_tle_data out true m disk = ok (refresh out m disk)
load_tle_data out false m disk = elim (is_cache_valid out.now m disk) [
  | raised e ↦ raised e
  | ok true ↦ ok (use_cache out m disk)
  | ok false ↦ ok (refresh out m disk)
]
