-- ===== src/Tests/TleTests.antt =====
-- The theorems on TLE data, at concrete texts and caches.
use space_project.Base.{
  refl, ◌≡◌, Bool, true, false, some, [], ◌∷◌, ◌++◌, arith, replicate, ◌-◌, not, ◌&&◌, ◌==◌,
}
use space_project.Base.Text.{Text, codes, carriage_return, upper, contains, text_eq, is_space}
use space_project.Base.Text.Split.{HasNoLoneCr}
use space_project.Tle.{Cache}
use space_project.Tle.Parse.{parse_download, render}
use space_project.Tle.Parse.IsCache.{IsCache}
use space_project.Tle.Parse.Download.{parse_download-IsCache}
use space_project.Tle.Find.{find_by_name, find_first}
use space_project.Tle.Find.Laws.{find_by_name_exact, find_by_name_case}
use space_project.Tle.Manager.{
  Disk, text, object, aware, naive, Outside, received, is_cache_valid, is_error_status,
  fallback_iss, fallback_noaa_18, fallback_noaa_19,
}
use space_project.Tle.Manager.Restart.{
  SharesDict, MustDownload, load_tle_data_after_download, load_tle_data_after_failure,
  fallback_cache,
}
use space_project.Tle.Manager.Names.{choose_names, filter_available, real_satellites}
use space_project.Tle.Manager.Names.Laws.{choose_names_lem}
use space_project.Simulation.Launch.{new_manager}
use space_project.Tests.Data.{two_records, old_cache, empty_disk, good_day}

-- A test that no carriage return is there at all.
abbrev cr_free : Text → Bool
cr_free [] = true
cr_free (c ∷ s) = not (c == carriage_return) && cr_free s

cr_free-HasNoLoneCr : (s : Text) → cr_free s ≡ true → HasNoLoneCr s
cr_free-HasNoLoneCr [] h = tt
cr_free-HasNoLoneCr (c ∷ []) h = (ground arith, tt)
cr_free-HasNoLoneCr (c ∷ d ∷ s) h =
    ((λ e. ground arith), cr_free-HasNoLoneCr (d ∷ s) (ground arith))

pub two_records_crs : HasNoLoneCr two_records
two_records_crs = cr_free-HasNoLoneCr two_records refl

abbrev pub next_day : Outside
next_day = record good_day { now = 86_400_000_000 }

pub not_valid : (force : Bool) → MustDownload good_day force new_manager empty_disk
unfolding is_cache_valid
not_valid force h = refl

load_tle_data_after_download_example :
    SharesDict good_day next_day false new_manager new_manager empty_disk
      (parse_download two_records)
unfolding is_error_status parse_download is_space text_eq
load_tle_data_after_download_example =
    load_tle_data_after_download good_day next_day false new_manager new_manager empty_disk 200
      two_records (not_valid false) refl refl two_records_crs refl refl (omega arith)

abbrev bad_day : Outside
bad_day = record good_day { response = received 503 [] }

load_tle_data_after_failure_example :
    SharesDict bad_day next_day true new_manager new_manager empty_disk fallback_cache
unfolding is_error_status
load_tle_data_after_failure_example =
    load_tle_data_after_failure bad_day next_day true new_manager new_manager empty_disk (λ h. cc)
      refl refl (omega arith)

parse_download-IsCache_example : IsCache (parse_download two_records)
parse_download-IsCache_example = parse_download-IsCache two_records

-- 'NOAA-1' is in the name of the first entry, and is the name of the second.
find_by_name_exact_example :
    find_by_name
      (codes "noaa-1")
      ((codes "NOAA-18", fallback_noaa_18) ∷ (codes "NOAA-1", fallback_noaa_19) ∷ old_cache)
    ≡ some fallback_noaa_19
unfolding text_eq upper
find_by_name_exact_example =
    find_by_name_exact (codes "noaa-1") ((codes "NOAA-18", fallback_noaa_18) ∷ []) (codes "NOAA-1")
      fallback_noaa_19 old_cache (refl, tt) refl

find_by_name_case_example :
    find_by_name (codes "iss") old_cache ≡ find_by_name (codes "ISS") old_cache
unfolding upper
find_by_name_case_example = find_by_name_case (codes "iss") (codes "ISS") old_cache refl

abbrev dated_disk : Disk
dated_disk = record {
  cache_file = text (render old_cache);
  metadata_file =
      object (record { cached_at = some (aware 500); satellite_count = 2; source = [] });
}

abbrev naive_disk : Disk
naive_disk = record dated_disk {
  metadata_file = object (record { cached_at = some naive; satellite_count = 2; source = [] });
}

-- Of the first seven names, the cache has the first.
abbrev some_cache : Cache
some_cache = (codes "ISS (ZARYA)", fallback_iss) ∷ (codes "NOAA 18", fallback_noaa_18) ∷ []

choose_names_lem_example :
    choose_names 7 some_cache ≡ (codes "ISS" ∷ []) ++ replicate (7 - 1) (codes "ISS")
unfolding filter_available find_by_name find_first real_satellites upper contains text_eq
choose_names_lem_example = choose_names_lem 7 some_cache (codes "ISS") [] refl
