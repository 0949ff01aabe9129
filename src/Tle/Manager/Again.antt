-- ===== src/Tle/Manager/Again.antt =====
-- A second `load_tle_data` on the files that a first one left.
use mathlib.Core.Path.{subst}
use space_project.Base.{
  ℕ, ◌≡◌, refl, Bool, true, false, Option, some, none, is_empty, Bool-cases, inl, inr,
}
use space_project.Tle.Manager.{
  Manager, Disk, Stamp, aware, naive, malformed, not_text, MetadataFile, no_json, no_object, object,
  cache_file_exists, Outside, Result, ok, raised, saved, is_recent, check_metadata, is_cache_valid,
  load_from_cache, download_tle_data, save_to_cache, refresh, use_cache, load_tle_data,
}

abbrev pub Returns {ℓ} : {A : Type ℓ} → Result A → Type ℓ
Returns {A = A} result = (a : A) × (result ≡ ok a)

-- The time does not decide whether the test of the metadata raises.
is_recent_again :
    (now now' hours hours' : ℕ) (stamp : Option Stamp)
    → Returns (is_recent now hours stamp)
    → Returns (is_recent now' hours' stamp)
unfolding is_recent
is_recent_again now now' hours hours' none h = (false, refl)
is_recent_again now now' hours hours' (some malformed) h = (false, refl)
is_recent_again now now' hours hours' (some (aware cached)) h = (_, refl)
is_recent_again now now' hours hours' (some naive) (b, e) = absurd cc
is_recent_again now now' hours hours' (some not_text) (b, e) = absurd cc

check_metadata_again :
    (now now' hours hours' : ℕ) (file : MetadataFile)
    → Returns (check_metadata now hours file)
    → Returns (check_metadata now' hours' file)
unfolding check_metadata
check_metadata_again now now' hours hours' MetadataFile.missing h = (false, refl)
check_metadata_again now now' hours hours' MetadataFile.unreadable (b, e) = absurd cc
check_metadata_again now now' hours hours' no_json h = (false, refl)
check_metadata_again now now' hours hours' no_object (b, e) = absurd cc
check_metadata_again now now' hours hours' (object o) h =
    is_recent_again now now' hours hours' o.cached_at h

is_cache_valid_again :
    (now now' : ℕ) (m m' : Manager) (disk : Disk)
    → Returns (is_cache_valid now m disk)
    → Returns (is_cache_valid now' m' disk)
unfolding is_cache_valid
is_cache_valid_again now now' m m' disk = elim (Bool-cases (cache_file_exists disk.cache_file)) [
  | inl e ↦
      rw e (
        check_metadata_again now now' m.cache_expiry_hours m'.cache_expiry_hours disk.metadata_file)
  | inr e ↦ rw e (λ h. (false, refl))
]

is_cache_valid-save_to_cache :
    (t now : ℕ) (m m' : Manager) (disk : Disk)
    → Returns (is_cache_valid now m' (save_to_cache t saved m disk))
unfolding is_cache_valid save_to_cache check_metadata is_recent
is_cache_valid-save_to_cache t now m m' disk = (_, refl)

-- Only the test of the cache raises.
load_tle_data-Returns :
    (out : Outside) (m : Manager) (disk : Disk)
    → Returns (is_cache_valid out.now m disk)
    → Returns (load_tle_data out false m disk)
unfolding load_tle_data
load_tle_data-Returns out m disk (true, e) = rw (e, load_tle_data) (_, refl)
load_tle_data-Returns out m disk (false, e) = rw (e, load_tle_data) (_, refl)

-- The test of the cache raises at no time.
abbrev pub IsReadable : Disk → Type 0
IsReadable disk = (now : ℕ) (m : Manager) → Returns (is_cache_valid now m disk)

refresh-IsReadable :
    (out : Outside) (m : Manager) (disk : Disk)
    → out.save ≡ saved
    → IsReadable (refresh out m disk).1
unfolding refresh
refresh-IsReadable out m disk w now m' =
    rw w (is_cache_valid-save_to_cache out.saved_at now (download_tle_data out.response m) m' disk)

use_cache-IsReadable :
    (out : Outside) (m : Manager) (disk : Disk)
    → out.save ≡ saved
    → Returns (is_cache_valid out.now m disk)
    → IsReadable (use_cache out m disk).1
unfolding use_cache
use_cache-IsReadable out m disk w h =
    elim (Bool-cases (is_empty (load_from_cache m disk).tle_cache)) [
      | inl e ↦ rw e (refresh-IsReadable out (load_from_cache m disk) disk w)
      | inr e ↦ rw e (λ now m'. is_cache_valid_again out.now now m m' disk h)
    ]

module _ (out : Outside) (m : Manager) (disk : Disk) where
  load_tle_data_from :
      (result : Result Bool)
      → is_cache_valid out.now m disk ≡ result
      → out.save ≡ saved
      → (after : Manager × Disk) → load_tle_data out false m disk ≡ ok after
      → IsReadable after.1
  unfolding load_tle_data
  load_tle_data_from (raised error) e w after = rw (e, load_tle_data) (λ h. absurd cc)
  load_tle_data_from (ok true) e w after =
      rw (e, load_tle_data)
        (λ h.
          let same : use_cache out m disk ≡ after = cc in
          subst (λ a. IsReadable a.1) same (use_cache-IsReadable out m disk w (true, e)))
  load_tle_data_from (ok false) e w after =
      rw (e, load_tle_data)
        (λ h.
          let same : refresh out m disk ≡ after = cc in
          subst (λ a. IsReadable a.1) same (refresh-IsReadable out m disk w))

  -- After a load that saves what it downloads, another manager loads without an exception at any
  -- time, whatever the files held, what Celestrak answers and what becomes of its own save.
  pub load_tle_data_again :
      (after : Manager × Disk)
      → load_tle_data out false m disk ≡ ok after
      → out.save ≡ saved
      → (out' : Outside) (m' : Manager) → Returns (load_tle_data out' false m' after.1)
  load_tle_data_again after e w out' m' =
      load_tle_data-Returns out' m' after.1
        (load_tle_data_from (is_cache_valid out.now m disk) refl w after e out'.now m')
