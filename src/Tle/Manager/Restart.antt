-- ===== src/Tle/Manager/Restart.antt =====
-- One run of the simulator downloads and saves, the next run loads: what the second run gets.
use space_project.Base.{ℕ, ◌+◌, ◌*◌, ◌<◌, ◌≡◌, refl, ap, ◌∙◌, Bool, true, false, [], ◌∷◌, is_empty}
use space_project.Base.Text.{Text}
use space_project.Base.Text.Split.{HasNoLoneCr}
use space_project.Base.Dict.{insert}
use space_project.Base.Text.{text_eq, is_space}
use space_project.Tle.{Cache}
use space_project.Tle.Parse.{parse_download, parse_cache, render}
use space_project.Tle.Parse.Reload.{parse_cache-render-parse_download}
use space_project.Tle.Manager.{
  Manager, Disk, Response, request_failed, received, saved, Outside, ok, is_cache_valid,
  microseconds_per_hour, downloaded, save_to_cache, load_tle_data, is_error_status,
  add_fallback_tle, fallback_iss, fallback_noaa_18, fallback_noaa_19,
}
use space_project.Tle.Manager.Validity.{is_cache_valid_iff}
use space_project.Tle.Manager.Load.{load_tle_data_cached, load_tle_data_refreshed}

-- A manager that loads within the expiry time of a save gets the saved dict, if that is not empty
-- and survives the file.
load_tle_data-save_to_cache :
    (t : ℕ) (out : Outside) (m m' : Manager) (disk : Disk)
    → parse_cache (render m.tle_cache) ≡ m.tle_cache
    → is_empty m.tle_cache ≡ false
    → out.now < t + m'.cache_expiry_hours * microseconds_per_hour
    → let disk' : Disk = save_to_cache t saved m disk in
      load_tle_data out false m' disk' ≡ ok (record m' { tle_cache = m.tle_cache }, disk')
unfolding save_to_cache
load_tle_data-save_to_cache t out m m' disk same some_left recent =
    let disk' : Disk = save_to_cache t saved m disk in
    load_tle_data_cached out m' disk' (render m.tle_cache)
      ((is_cache_valid_iff out.now m' disk').1 (refl, recent)) refl (rw same some_left)
    ∙ ap (λ c. ok (record m' { tle_cache = c }, disk')) same

-- The call of `load_tle_data` does not use the cache file.
abbrev pub MustDownload : Outside → Bool → Manager → Disk → Type 0
MustDownload out force m disk = force ≡ false → is_cache_valid out.now m disk ≡ ok false

-- A run that downloads a dict `c` and saves it, and a later run of any manager on that disk: the
-- later run holds `c` too, and leaves the disk alone.
abbrev pub SharesDict : (out out' : Outside) → Bool → (m m' : Manager) → Disk → Cache → Type 0
SharesDict out out' force m m' disk c =
    let m₁ : Manager = record m { tle_cache = c } in
    let disk₁ : Disk = save_to_cache out.saved_at saved m₁ disk in
    (load_tle_data out force m disk ≡ ok (m₁, disk₁))
    × (load_tle_data out' false m' disk₁ ≡ ok (record m' { tle_cache = c }, disk₁))

SharesDict-of_same :
    (out out' : Outside) (force : Bool) (m m' : Manager) (disk : Disk) (c : Cache)
    → MustDownload out force m disk
    → downloaded out.response ≡ c
    → out.save ≡ saved
    → parse_cache (render c) ≡ c
    → is_empty c ≡ false
    → out'.now < out.saved_at + m'.cache_expiry_hours * microseconds_per_hour
    → SharesDict out out' force m m' disk c
SharesDict-of_same out out' force m m' disk c must d w same some_left recent = (
  rw (← d, ← w) (load_tle_data_refreshed out force m disk must),
  load_tle_data-save_to_cache out.saved_at out' (record m { tle_cache = c }) m' disk same some_left
      recent,
)

-- A run that does not use the cache file, to which Celestrak answers with no error status and a text
-- in which every carriage return stands before a newline and which gives at least one record, and
-- which writes both files: it gets the dict of that text, and every run that starts within the
-- expiry time gets the same dict, entry for entry and in the same order, whatever Celestrak would
-- answer it, and leaves the files alone.
pub load_tle_data_after_download :
    (out out' : Outside) (force : Bool) (m m' : Manager) (disk : Disk) (status : ℕ) (body : Text)
    → MustDownload out force m disk
    → out.response ≡ received status body
    → is_error_status status ≡ false
    → HasNoLoneCr body
    → is_empty (parse_download body) ≡ false
    → out.save ≡ saved
    → out'.now < out.saved_at + m'.cache_expiry_hours * microseconds_per_hour
    → SharesDict out out' force m m' disk (parse_download body)
unfolding downloaded
load_tle_data_after_download out out' force m m' disk status body must r e cr some_left w recent =
    SharesDict-of_same out out' force m m' disk (parse_download body) must (ap downloaded r ∙ rw e)
      w (parse_cache-render-parse_download body cr) some_left recent

-- `requests.get` or `raise_for_status` raises.
abbrev pub IsFailure : Response → Type 0
IsFailure request_failed = Unit
IsFailure (received status body) = is_error_status status ≡ true

abbrev pub fallback_cache : Cache
fallback_cache =
    (fallback_iss.name, fallback_iss)
    ∷ (fallback_noaa_18.name, fallback_noaa_18)
    ∷ (fallback_noaa_19.name, fallback_noaa_19)
    ∷ []

downloaded_failure : (r : Response) → IsFailure r → downloaded r ≡ fallback_cache
unfolding downloaded add_fallback_tle insert text_eq
downloaded_failure request_failed h = refl
downloaded_failure (received status body) h = rw h

fallback_survives : parse_cache (render fallback_cache) ≡ fallback_cache
unfolding parse_cache render is_space text_eq
fallback_survives = refl

-- A run that does not use the cache file, whose download fails, and which writes both files: it gets
-- the three fallback satellites, and so does every run that starts within the expiry time, even if
-- Celestrak would answer it.
pub load_tle_data_after_failure :
    (out out' : Outside) (force : Bool) (m m' : Manager) (disk : Disk)
    → MustDownload out force m disk
    → IsFailure out.response
    → out.save ≡ saved
    → out'.now < out.saved_at + m'.cache_expiry_hours * microseconds_per_hour
    → SharesDict out out' force m m' disk fallback_cache
load_tle_data_after_failure out out' force m m' disk must f w recent =
    SharesDict-of_same out out' force m m' disk fallback_cache must (downloaded_failure _ f) w
      fallback_survives refl recent
