-- ===== src/Ingest/Wal.antt =====
-- go-service/db/wal.go: the log of records that the database did not take, one JSON object on a
-- line. `encoding/json` is a parameter. Each method holds the mutex from its start to its end, and
-- is given what the file system does in it.
pub mod Lines
pub mod Laws
pub mod Closed
use space_project.Base.{
  ℕ, Bool, true, false, Option, none, some, List, [], ◌∷◌, ◌++◌, if◌then◌else◌, is_empty, length,
  ◌==◌,
}
use space_project.Base.Text.{newline}

abbrev pub Bytes : Type 0
Bytes = List ℕ

-- `json.Marshal` and `json.Unmarshal` for the record type.
pub record Json (R : Type 0) : Type 0 where
  pub marshal : R → Option Bytes
  pub unmarshal : Bytes → Option R

-- The file, `none` if there is none, and whether `file` is an open handle that appends to it.
pub record Wal : Type 0 where
  pub is_open : Bool
  pub file : Option Bytes

-- What becomes of the bytes that are written: all are there, and synced or not, or a part is.
pub data WriteOutcome : Type 0 where
  written sync_failed : WriteOutcome
  short : Bytes → WriteOutcome

pub data WriteResult : Type 0 where
  ok marshal_failed write_failed not_synced : WriteResult

-- The file with `data` at its end; there is nothing to see of what is appended to a removed file.
abbrev pub append : Option Bytes → Bytes → Option Bytes
append none bytes = none
append (some content) bytes = some (content ++ bytes)

abbrev append_line : WriteOutcome → Bytes → Wal → WriteResult × Wal
append_line written line w = (ok, record w { file = append w.file line })
append_line sync_failed line w = (not_synced, record w { file = append w.file line })
append_line (short part) line w = (write_failed, record w { file = append w.file part })

-- The loop of `splitLines`, with the bytes since the last newline.
unfoldable pub lines_from : Bytes → Bytes → List Bytes
lines_from line [] = if is_empty line then [] else line ∷ []
lines_from line (b ∷ bytes) =
    if b == newline then line ∷ lines_from [] bytes else lines_from (line ++ b ∷ []) bytes

unfoldable pub split_lines : Bytes → List Bytes
split_lines bytes = lines_from [] bytes

-- What the file system does when a method reopens the file, after it closed it.
pub data ReopenOutcome : Type 0 where
  reopened not_reopened failed_before : ReopenOutcome

abbrev pub count_of : {R : Type 0} → Option (List R) → Option ℕ
count_of none = none
count_of (some rs) = some (length rs)

module _ {R : Type 0} (json : Json R) where
  -- `Write`
  unfoldable pub write : WriteOutcome → R → Wal → WriteResult × Wal
  write outcome r w = elim (json.marshal r) [
    | none ↦ (marshal_failed, w)
    | some bytes ↦
        if w.is_open then append_line outcome (bytes ++ newline ∷ []) w else (write_failed, w)
  ]

  -- The records of the lines that can be parsed.
  unfoldable pub parse_lines : List Bytes → List R
  parse_lines [] = []
  parse_lines (line ∷ lines) =
      let rest = parse_lines lines in
      if is_empty line then rest else elim (json.unmarshal line) [ none ↦ rest | some r ↦ r ∷ rest ]

  -- `ReadAll`; `none` is an error. A missing file is no error, and leaves the closed handle.
  unfoldable pub read_all : ReopenOutcome → Wal → Option (List R) × Wal
  read_all outcome w = elim w.file [
    | none ↦ (some [], record w { is_open = false })
    | some bytes ↦ elim outcome [
      | failed_before ↦ (none, record w { is_open = false })
      | not_reopened ↦ (none, record w { is_open = false })
      | reopened ↦ (some (parse_lines (split_lines bytes)), record w { is_open = true })
    ]
  ]

  unfoldable pub count : ReopenOutcome → Wal → Option ℕ × Wal
  count outcome w = let (records, w') = read_all outcome w in (count_of records, w')

-- `Clear`; `false` is an error. There must be a file to truncate.
unfoldable pub clear : ReopenOutcome → Wal → Bool × Wal
clear outcome w = elim w.file [
  | none ↦ (false, record w { is_open = false })
  | some _ ↦ elim outcome [
    | failed_before ↦ (false, record w { is_open = false })
    | not_reopened ↦ (false, record { is_open = false; file = some [] })
    | reopened ↦ (true, record { is_open = true; file = some [] })
  ]
]

-- `NewWAL`, where it returns no error: the file is created if there is none.
unfoldable pub new_wal : Option Bytes → Wal
new_wal none = record { is_open = true; file = some [] }
new_wal (some content) = record { is_open = true; file = some content }

unfoldable pub size : Wal → ℕ
size w = elim w.file [ none ↦ 0 | some content ↦ length content ]

unfoldable pub close : Wal → Wal
close w = record w { is_open = false }
