-- ===== src/Ingest/Wal/Laws.antt =====
-- The log as a list of records.
use space_project.Base.{
  ℕ, ◌≡◌, refl, ap, Bool, true, false, Option, none, some, List, [], ◌∷◌, ◌++◌, All, length,
}
use space_project.Ingest.Wal.{
  Bytes, Json, Wal, written, WriteResult, ok, reopened, write, read_all, count, count_of, clear,
}
use space_project.Ingest.Wal.Lines.{IsJson, Encodes, nil, Encodes-append, parse_lines-Encodes}

-- A call of one of the methods.
pub data LogCall (R : Type 0) : Type 0 where
  writes : R → LogCall R
  reads counts clears : LogCall R

pub data Answer (R : Type 0) : Type 0 where
  done failed : Answer R
  records : List R → Answer R
  number : ℕ → Answer R

abbrev pub written_answer : {R : Type 0} → WriteResult → Answer R
written_answer ok = done
written_answer _ = failed

abbrev pub read_answer : {R : Type 0} → Option (List R) → Answer R
read_answer none = failed
read_answer (some rs) = records rs

abbrev pub count_answer : {R : Type 0} → Option ℕ → Answer R
count_answer none = failed
count_answer (some n) = number n

abbrev pub clear_answer : {R : Type 0} → Bool → Answer R
clear_answer true = done
clear_answer false = failed

module _ {R : Type 0} (json : Json R) where
  -- A call, with a file system that does what it is told.
  abbrev pub log_step : LogCall R → Wal → Answer R × Wal
  log_step (writes r) w = let (result, w') = write json written r w in (written_answer result, w')
  log_step reads w = let (rs, w') = read_all json reopened w in (read_answer rs, w')
  log_step counts w = let (n, w') = count json reopened w in (count_answer n, w')
  log_step clears w = let (b, w') = clear reopened w in (clear_answer b, w')

  pub wal_answers : List (LogCall R) → Wal → List (Answer R)
  wal_answers [] w = []
  wal_answers (call ∷ calls) w = let (a, w') = log_step call w in a ∷ wal_answers calls w'

  -- The log is open, and its file is one line for each of the records.
  pub record Represents (w : Wal) (rs : List R) : Type 0 where
    pub is_open : w.is_open ≡ true
    pub content : Bytes
    pub file : w.file ≡ some content
    pub encodes : Encodes json content rs

  abbrev pub IsMarshalled : LogCall R → Type 0
  IsMarshalled (writes r) = (b : Bytes) × (json.marshal r ≡ some b)
  IsMarshalled _ = Unit

-- The same call of a list.
abbrev pub list_step : {R : Type 0} → LogCall R → List R → Answer R × List R
list_step (writes r) rs = (done, rs ++ r ∷ [])
list_step reads rs = (records rs, rs)
list_step counts rs = (number (length rs), rs)
list_step clears rs = (done, [])

pub list_answers : {R : Type 0} → List (LogCall R) → List R → List (Answer R)
list_answers [] rs = []
list_answers (call ∷ calls) rs = let (a, rs') = list_step call rs in a ∷ list_answers calls rs'

module _ {R : Type 0} (json : Json R) (laws : IsJson json) where
  pub write-Represents :
      (w : Wal) (rs : List R) (r : R) (b : Bytes)
      → json.marshal r ≡ some b
      → Represents json w rs
      → ((write json written r w).0 ≡ ok)
        × Represents json (write json written r w).1 (rs ++ r ∷ [])
  unfolding write
  write-Represents w rs r b e h =
      rw (e, h.is_open, h.file, write)
        (
          refl,
          record {
            is_open = refl;
            content = _;
            file = refl;
            encodes = Encodes-append json laws r b e h.encodes;
          },
        )

  pub read_all-Represents :
      (w : Wal) (rs : List R)
      → Represents json w rs
      → ((read_all json reopened w).0 ≡ some rs) × Represents json (read_all json reopened w).1 rs
  unfolding read_all
  read_all-Represents w rs h =
      rw (h.file, read_all)
        (
          ap some (parse_lines-Encodes json laws h.encodes),
          record { is_open = refl; content = h.content; file = h.file; encodes = h.encodes },
        )

  pub clear-Represents :
      (w : Wal) (rs : List R)
      → Represents json w rs
      → ((clear reopened w).0 ≡ true) × Represents json (clear reopened w).1 []
  unfolding clear
  clear-Represents w rs h =
      rw (h.file, clear) (refl, record { is_open = refl; content = []; file = refl; encodes = nil })

  step-Represents :
      (call : LogCall R) (w : Wal) (rs : List R)
      → IsMarshalled json call
      → Represents json w rs
      → ((log_step json call w).0 ≡ (list_step call rs).0)
        × Represents json (log_step json call w).1 (list_step call rs).1
  unfolding count
  step-Represents (writes r) w rs (b, e) h =
      let s = write-Represents w rs r b e h in (ap written_answer s.0, s.1)
  step-Represents reads w rs m h = let s = read_all-Represents w rs h in (ap read_answer s.0, s.1)
  step-Represents counts w rs m h =
      let s = read_all-Represents w rs h in (ap (λ o. count_answer (count_of o)) s.0, s.1)
  step-Represents clears w rs m h = let s = clear-Represents w rs h in (ap clear_answer s.0, s.1)

  -- As long as the file system does what it is told and the records can be marshalled, every
  -- history of calls on a log gives the answers of a list: a write appends, a read gives all
  -- records in their order, a count their number, and a clear leaves none.
  pub wal_answers-eq-list_answers :
      (calls : List (LogCall R)) (w : Wal) (rs : List R)
      → All (IsMarshalled json) calls
      → Represents json w rs
      → wal_answers json calls w ≡ list_answers calls rs
  unfolding wal_answers list_answers
  wal_answers-eq-list_answers [] w rs m h = refl
  wal_answers-eq-list_answers (call ∷ calls) w rs m h =
      let s = step-Represents call w rs m.0 h in
      rw s.0 (ap (λ l. (list_step call rs).0 ∷ l) (wal_answers-eq-list_answers calls _ _ m.1 s.1))
