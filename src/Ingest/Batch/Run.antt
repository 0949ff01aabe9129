-- ===== src/Ingest/Batch/Run.antt =====
-- A whole flush, with no other goroutine between its turns.
pub mod Settles
use space_project.Base.{
  ℕ, zero, suc, ◌+◌, ◌-◌, ◌*◌, ◌≤◌, ◌<◌, ◌≡◌, refl, sym, ap, ◌∙◌, Bool, true, false, Option, none,
  some, List, [], ◌∷◌, ◌++◌, map, arith, length, if◌then◌else◌, ltb, ◌⊎◌, inl, inr, Bool-cases,
  map-append,
}
use mathlib.Core.Path.{subst}
use mathlib.Core.List.{append-nil, append_assoc}
use space_project.Ingest.{TelemetryPoint, WalRecord, Row, record_of, row_of_point}
use space_project.Ingest.Breaker.{CircuitBreaker, allow}
use space_project.Ingest.Wal.{Bytes, Json, Wal, written, write}
use space_project.Ingest.Wal.Lines.{IsJson}
use space_project.Ingest.Wal.Laws.{Represents, write-Represents}
use space_project.Ingest.Batch.Flush.{
  InsertOutcome, failed, committed, committed_unheard, reports_success, Flush, waiting, trying,
  inserting, spilling, finished, lost, begin_attempt, end_attempt, spill, spill_written,
}

-- A flush, the breaker, the log, and the rows that the flush brought to the database.
pub record Progress (F T : Type 0) : Type 0 where
  pub flush : Flush F T
  pub breaker : Option CircuitBreaker
  pub log : Option Wal
  pub rows : List (Row F T)

abbrev pub progress :
    {F T : Type 0} → Flush F T → Option CircuitBreaker → Option Wal → List (Row F T) → Progress F T
progress flush breaker log rows = record {
  flush = flush;
  breaker = breaker;
  log = log;
  rows = rows;
}

module _ {F T : Type 0} (json : Json (WalRecord F T)) (max_retries : ℕ) (begun ended : ℕ → ℕ)
    (outcome : ℕ → InsertOutcome) where
  -- The next turn: `outcome` gives what becomes of each attempt, `begun` and `ended` when it is.
  abbrev pub turn_of :
      Flush F T → Option CircuitBreaker → Option Wal → List (Row F T) → Progress F T
  turn_of (trying attempt batch) breaker log rows =
      let (flush, breaker') = begin_attempt max_retries (begun attempt) attempt batch breaker in
      progress flush breaker' log rows
  turn_of (inserting attempt batch) breaker log rows =
      let (flush, breaker', more) =
        end_attempt (outcome attempt) (ended attempt) attempt batch breaker in
      progress flush breaker' log (rows ++ more)
  turn_of (spilling left) breaker log rows =
      let (flush, log') = spill json written left log in progress flush breaker log' rows
  turn_of waiting breaker log rows = progress waiting breaker log rows
  turn_of finished breaker log rows = progress finished breaker log rows
  turn_of (lost left) breaker log rows = progress (lost left) breaker log rows

  unfoldable pub turns : ℕ → Progress F T → Progress F T
  turns zero p = p
  turns (suc n) p = turns n (turn_of p.flush p.breaker p.log p.rows)

  -- `flushWithRetry`, from its first attempt.
  abbrev pub flush_with_retry :
      (fuel : ℕ) → List (TelemetryPoint F T) → Option CircuitBreaker → Option Wal → Progress F T
  flush_with_retry fuel batch breaker log = turns fuel (progress (trying 0 batch) breaker log [])
