-- ===== src/Ingest/Batch/Flush.antt =====
-- `flush`, `flushWithRetry`, `insertBatch` and `flushToWAL`, cut where another goroutine may run:
-- between the critical sections of the buffer, of the breaker and of the log, and around an insert.
use space_project.Base.{
  ◌<◌, ◌⊎◌, arith, ℕ, suc, ◌≡◌, Bool, true, false, Option, none, some, List, [], ◌∷◌, map,
  if◌then◌else◌, ltb, is_empty,
}
use space_project.Ingest.{TelemetryPoint, WalRecord, Row, record_of, row_of_point}
use space_project.Ingest.Breaker.{CircuitBreaker, allow, record_success, record_failure}
use space_project.Ingest.Wal.{
  Json, Wal, WriteOutcome, WriteResult, ok, marshal_failed, write_failed, not_synced, write,
}

-- What becomes of a transaction: it fails, it commits, or it commits and reports an error.
pub data InsertOutcome : Type 0 where
  failed committed committed_unheard : InsertOutcome

-- The rows that a transaction leaves, and whether its error is nil.
abbrev pub inserted {ℓ} : {A : Type ℓ} → InsertOutcome → List A → List A
inserted failed rows = []
inserted committed rows = rows
inserted committed_unheard rows = rows

abbrev pub reports_success : InsertOutcome → Bool
reports_success committed = true
reports_success _ = false

-- Where a call of `flush` is: not begun, at the test of its loop, in an insert, in the loop that
-- spills the points that are left, or returned, without an error, or with the points that it lost.
pub data Flush (F T : Type 0) : Type 0 where
  waiting : Flush F T
  trying inserting : (attempt : ℕ) (batch : List (TelemetryPoint F T)) → Flush F T
  spilling : (left : List (TelemetryPoint F T)) → Flush F T
  finished : Flush F T
  lost : (left : List (TelemetryPoint F T)) → Flush F T

-- The breaker, if there is one, after it was told the result.
abbrev pub told : Bool → ℕ → Option CircuitBreaker → Option CircuitBreaker
told success now none = none
told success now (some cb) = some (if success then record_success cb else record_failure now cb)

module _ {F T : Type 0} where
  -- The swap of the buffer: the flush and the buffer.
  unfoldable pub take_batch : List (TelemetryPoint F T) → Flush F T × List (TelemetryPoint F T)
  take_batch buffer = if is_empty buffer then (finished, buffer) else (trying 0 buffer, [])

  -- One test of `attempt < maxRetries`, and of the breaker if there is one.
  unfoldable pub begin_attempt :
      (max_retries now attempt : ℕ) (batch : List (TelemetryPoint F T))
      → Option CircuitBreaker
      → Flush F T × Option CircuitBreaker
  begin_attempt max_retries now attempt batch breaker =
      if ltb attempt max_retries
      then elim breaker [
        | none ↦ (inserting attempt batch, none)
        | some cb ↦
            let (allowed, cb') = allow now cb in
            (if allowed then inserting attempt batch else spilling batch, some cb')
      ]
      else (spilling batch, breaker)

  -- The end of an insert: what the flush does next, the breaker, and the rows in the database.
  unfoldable pub end_attempt :
      InsertOutcome
      → (now attempt : ℕ) (batch : List (TelemetryPoint F T)) → Option CircuitBreaker
      → Flush F T × Option CircuitBreaker × List (Row F T)
  end_attempt outcome now attempt batch breaker =
      let success = reports_success outcome in
      (
        if success then finished else trying (suc attempt) batch,
        told success now breaker,
        inserted outcome (map row_of_point batch),
      )

  abbrev pub after_write :
      (point : TelemetryPoint F T) (left : List (TelemetryPoint F T))
      → WriteResult × Wal
      → Flush F T × Option Wal
  after_write point left (ok, w) = (spilling left, some w)
  after_write point left (marshal_failed, w) = (lost (point ∷ left), some w)
  after_write point left (write_failed, w) = (lost (point ∷ left), some w)
  after_write point left (not_synced, w) = (lost (point ∷ left), some w)

  -- One round of the loop of `flushToWAL`, or its error if there is no log.
  unfoldable pub spill :
      Json (WalRecord F T)
      → WriteOutcome
      → List (TelemetryPoint F T)
      → Option Wal
      → Flush F T × Option Wal
  spill json outcome points none = (lost points, none)
  spill json outcome [] (some w) = (finished, some w)
  spill json outcome (point ∷ left) (some w) =
      after_write point left (write json outcome (record_of point) w)

  pub spill_written :
      (json : Json (WalRecord F T)) (outcome : WriteOutcome) (point : TelemetryPoint F T)
      (left : List (TelemetryPoint F T)) (w w' : Wal)
      → write json outcome (record_of point) w ≡ (ok, w')
      → spill json outcome (point ∷ left) (some w) ≡ (spilling left, some w')
  unfolding spill
  spill_written json outcome point left w w' e = rw e

  -- An attempt is made, or the batch is spilled.
  pub begin_attempt_next :
      (max_retries : ℕ) (batch : List (TelemetryPoint F T)) (attempt time : ℕ)
      (breaker : Option CircuitBreaker)
      → let flush : Flush F T = (begin_attempt max_retries time attempt batch breaker).0 in
        ((flush ≡ inserting attempt batch) × (attempt < max_retries)) ⊎ (flush ≡ spilling batch)
  unfolding begin_attempt
  begin_attempt_next max_retries batch attempt time none = ground arith
  begin_attempt_next max_retries batch attempt time (some cb) = ground arith
