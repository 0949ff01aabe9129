-- ===== src/Tle/Manager/Validity.antt =====
-- `_is_cache_valid`: when it says yes, and when it raises.
use space_project.Base.{
  ℕ, ◌+◌, ◌*◌, ◌<◌, ◌≡◌, refl, ◌↔◌, inl, inr, true, Option, none, some, arith, if◌then◌else◌,
  Bool-cases,
}
use space_project.Tle.Manager.{
  Manager, Stamp, aware, naive, malformed, not_text, MetadataFile, no_json, no_object, object, Disk,
  Error, os_error, attribute_error, type_error, Result, ok, raised, microseconds_per_hour,
  is_recent, check_metadata, is_cache_valid, cache_file_exists,
}

-- The stamp is a time with a zone, and less than the expiry time has passed since.
abbrev pub IsRecent : (now : ℕ) (hours : ℕ) → Option Stamp → Type 0
IsRecent now hours (some (aware cached)) = now < cached + hours * microseconds_per_hour
IsRecent now hours _ = ⊥

abbrev pub IsRecentFile : (now : ℕ) (hours : ℕ) → MetadataFile → Type 0
IsRecentFile now hours (object o) = IsRecent now hours o.cached_at
IsRecentFile now hours _ = ⊥

is_recent_iff :
    (now hours : ℕ) (s : Option Stamp) → (is_recent now hours s ≡ ok true) ↔ IsRecent now hours s
unfolding is_recent
is_recent_iff now hours none = (λ h. cc, λ h. absurd h)
is_recent_iff now hours (some malformed) = (λ h. cc, λ h. absurd h)
is_recent_iff now hours (some naive) = (λ h. cc, λ h. absurd h)
is_recent_iff now hours (some not_text) = (λ h. cc, λ h. absurd h)
is_recent_iff now hours (some (aware cached)) = (λ h. ground arith, λ h. ground arith)

check_metadata_iff :
    (now hours : ℕ) (file : MetadataFile)
    → (check_metadata now hours file ≡ ok true) ↔ IsRecentFile now hours file
unfolding check_metadata
check_metadata_iff now hours MetadataFile.missing = (λ h. cc, λ h. absurd h)
check_metadata_iff now hours MetadataFile.unreadable = (λ h. cc, λ h. absurd h)
check_metadata_iff now hours no_json = (λ h. cc, λ h. absurd h)
check_metadata_iff now hours no_object = (λ h. cc, λ h. absurd h)
check_metadata_iff now hours (object o) = is_recent_iff now hours o.cached_at

-- The cache is valid exactly when its file exists and the metadata hold a time with a zone from
-- which less than the expiry time has passed.
pub is_cache_valid_iff :
    (now : ℕ) (m : Manager) (disk : Disk)
    → (is_cache_valid now m disk ≡ ok true) ↔ (
        (cache_file_exists disk.cache_file ≡ true)
        × IsRecentFile now m.cache_expiry_hours disk.metadata_file)
unfolding is_cache_valid
is_cache_valid_iff now m disk = elim (Bool-cases (cache_file_exists disk.cache_file)) [
  | inl e ↦
      rw (e, is_cache_valid)
        (
          λ h. (refl, (check_metadata_iff now m.cache_expiry_hours disk.metadata_file).0 h),
          λ h. (check_metadata_iff now m.cache_expiry_hours disk.metadata_file).1 h.1,
        )
  | inr e ↦ rw (e, is_cache_valid) (λ h. cc, λ h. cc h.0)
]

-- The exception that the metadata lead to: a file that cannot be opened, JSON that is no object, a
-- time without a zone, or a value that is no text.
abbrev pub stamp_error : Option Stamp → Option Error
stamp_error (some naive) = some type_error
stamp_error (some not_text) = some type_error
stamp_error _ = none

abbrev pub metadata_error : MetadataFile → Option Error
metadata_error MetadataFile.unreadable = some os_error
metadata_error no_object = some attribute_error
metadata_error (object o) = stamp_error o.cached_at
metadata_error _ = none

abbrev pub error_of {ℓ} : {A : Type ℓ} → Result A → Option Error
error_of (ok _) = none
error_of (raised e) = some e

error-is_recent :
    (now hours : ℕ) (s : Option Stamp) → error_of (is_recent now hours s) ≡ stamp_error s
unfolding is_recent
error-is_recent now hours none = refl
error-is_recent now hours (some malformed) = refl
error-is_recent now hours (some naive) = refl
error-is_recent now hours (some not_text) = refl
error-is_recent now hours (some (aware cached)) = refl

error-check_metadata :
    (now hours : ℕ) (file : MetadataFile)
    → error_of (check_metadata now hours file) ≡ metadata_error file
unfolding check_metadata
error-check_metadata now hours (object o) = error-is_recent now hours o.cached_at
error-check_metadata now hours MetadataFile.missing = refl
error-check_metadata now hours MetadataFile.unreadable = refl
error-check_metadata now hours no_json = refl
error-check_metadata now hours no_object = refl

-- The test raises exactly for a cache file that exists beside metadata that lead to an exception,
-- and at no time does it depend on the clock.
error-is_cache_valid :
    (now : ℕ) (m : Manager) (disk : Disk)
    → error_of (is_cache_valid now m disk)
      ≡ (if cache_file_exists disk.cache_file then metadata_error disk.metadata_file else none)
unfolding is_cache_valid
error-is_cache_valid now m disk = elim (Bool-cases (cache_file_exists disk.cache_file)) [
  | inl e ↦
      rw (e, is_cache_valid) (error-check_metadata now m.cache_expiry_hours disk.metadata_file)
  | inr e ↦ rw (e, is_cache_valid) refl
]
