-- ===== src/Ingest/Monitor.antt =====
-- go-service/db/health_monitor.go: a check of the database, and the replay of the log, cut where
-- another goroutine may run.
pub mod Laws
use space_project.Base.{
  ℕ, zero, suc, Bool, true, false, Option, none, some, List, [], ◌∷◌, ◌++◌, map, if◌then◌else◌,
  is_empty, take, drop, length, ◌&&◌, not,
}
use space_project.Ingest.{WalRecord, Row, row_of_record}
use space_project.Ingest.Batch.Flush.{InsertOutcome, inserted, reports_success}
use space_project.Ingest.Wal.{Json, Wal, ReopenOutcome, read_all, clear}

-- Where the monitor is, with the calls of `replayWAL` that it has still to make: at the start of
-- the next, in the loop over its batches with `records[:i]` and `records[i:]`, or before the clear.
pub data Place (R : Type 0) : Type 0 where
  idle : Place R
  to_read : (replays : ℕ) → Place R
  replaying : (replays : ℕ) (inserted_before left : List R) → Place R

pub record Monitor (R : Type 0) : Type 0 where
  pub is_healthy : Bool
  pub place : Place R

-- The next call of `replayWAL`, if one is left.
abbrev pub next_replay : {R : Type 0} → ℕ → Place R
next_replay zero = idle
next_replay (suc n) = to_read n

-- `checkHealth` with the result of its ping: one replay if the database is healthy, and one before
-- if it was not.
unfoldable pub check_health : {R : Type 0} → (is_up : Bool) → Monitor R → Monitor R
check_health is_up m = record {
  is_healthy = is_up;
  place = next_replay (if is_up then if m.is_healthy then 1 else 2 else 0);
}

abbrev pub replay_batch_size : ℕ
replay_batch_size = 1000

module _ {F T : Type 0} where
  abbrev pub after_read : ℕ → Option (List (WalRecord F T)) → Place (WalRecord F T)
  after_read replays none = next_replay replays
  after_read replays (some []) = next_replay replays
  after_read replays (some (r ∷ rs)) = replaying replays [] (r ∷ rs)

  -- The start of `replayWAL`.
  unfoldable pub begin_replay :
      Json (WalRecord F T) → ReopenOutcome → ℕ → Wal → Place (WalRecord F T) × Wal
  begin_replay json outcome replays w =
      let (records, w') = read_all json outcome w in (after_read replays records, w')

  -- One round of the loop: the insert of one batch, which is `insertWALRecords`.
  unfoldable pub replay_batch :
      InsertOutcome
      → (replays : ℕ) (inserted_before left : List (WalRecord F T))
      → Place (WalRecord F T) × List (Row F T)
  replay_batch outcome replays inserted_before left =
      let batch = take replay_batch_size left in
      (
        if reports_success outcome
            then replaying replays (inserted_before ++ batch) (drop replay_batch_size left)
            else next_replay replays,
        inserted outcome (map row_of_record batch),
      )

  -- The end of the loop.
  unfoldable pub end_replay : ReopenOutcome → ℕ → Wal → Place (WalRecord F T) × Wal
  end_replay outcome replays w = let (_, w') = clear outcome w in (next_replay replays, w')

  -- The whole loop without another goroutine: `outcome` is what becomes of each batch in turn, and
  -- `fuel` bounds their number. The answer is whether it came to its end, and the rows.
  unfoldable pub replay_loop :
      (outcome : ℕ → InsertOutcome) (fuel i : ℕ) (left : List (WalRecord F T))
      → Bool × List (Row F T)
  replay_loop outcome zero i left = (is_empty left, [])
  replay_loop outcome (suc fuel) i left =
      let batch = take replay_batch_size left in
      let rows = inserted (outcome i) (map row_of_record batch) in
      let (done, more) = replay_loop outcome fuel (suc i) (drop replay_batch_size left) in
      if is_empty left
      then (true, [])
      else if reports_success (outcome i)
      then (done, rows ++ more)
      else (false, rows)

  abbrev replay_records :
      (outcome : ℕ → InsertOutcome) (cleared : ReopenOutcome)
      → Option (List (WalRecord F T)) × Wal
      → Wal × List (Row F T)
  replay_records outcome cleared (none, w) = (w, [])
  replay_records outcome cleared (some rs, w) =
      let (done, rows) = replay_loop outcome (length rs) 0 rs in
      (if done && not (is_empty rs) then (clear cleared w).1 else w, rows)

  -- `replayWAL` without another goroutine: the log, and the rows that the database gets.
  unfoldable pub replay_wal :
      Json (WalRecord F T)
      → (opened cleared : ReopenOutcome) (outcome : ℕ → InsertOutcome) → Wal
      → Wal × List (Row F T)
  replay_wal json opened cleared outcome w = replay_records outcome cleared (read_all json opened w)
