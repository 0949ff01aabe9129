-- ===== src/Tle/Manager/Load.antt =====
-- `load_tle_data` on each of its paths.
use space_project.Base.{◌≡◌, refl, Bool, true, false, is_empty}
use space_project.Base.Text.{Text}
use space_project.Tle.Parse.{parse_cache}
use space_project.Tle.Manager.{
  Manager, Disk, text, Outside, ok, is_cache_valid, load_from_cache, download_tle_data, downloaded,
  save_to_cache, use_cache, load_tle_data,
}

-- A valid cache file with at least one record is used as it is: nothing is downloaded and nothing
-- is written.
pub load_tle_data_cached :
    (out : Outside) (m : Manager) (disk : Disk) (content : Text)
    → is_cache_valid out.now m disk ≡ ok true
    → disk.cache_file ≡ text content
    → is_empty (parse_cache content) ≡ false
    → load_tle_data out false m disk ≡ ok (record m { tle_cache = parse_cache content }, disk)
unfolding load_tle_data load_from_cache
load_tle_data_cached out m disk content v f n = rw (v, f, n, load_tle_data, use_cache)

-- In every other case in which no exception is raised the dict is what the download gives, and the
-- result of the save is on the disk, whatever the dict held before.
pub load_tle_data_refreshed :
    (out : Outside) (force : Bool) (m : Manager) (disk : Disk)
    → (force ≡ false → is_cache_valid out.now m disk ≡ ok false)
    → load_tle_data out force m disk ≡ (
        let m' : Manager = record m { tle_cache = downloaded out.response } in
        ok (m', save_to_cache out.saved_at out.save m' disk))
unfolding load_tle_data download_tle_data
load_tle_data_refreshed out true m disk h = refl
load_tle_data_refreshed out false m disk h = rw (h refl, load_tle_data) refl
