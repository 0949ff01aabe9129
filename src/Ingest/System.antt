-- ===== src/Ingest/System.antt =====
-- The running service: main.go starts the batch processor and the health monitor on one buffer, one
-- breaker, one log and one database, and every request, tick, flush and replay takes its turns.
pub mod Rows
pub mod Conserves
pub mod Laws
pub mod Delivery
pub mod Drain
pub mod Race
pub mod Bounds
use space_project.Base.{
  ℕ, ◌≡◌, ◌≢◌, Bool, true, false, Option, none, some, List, [], ◌∷◌, ◌++◌, if◌then◌else◌,
}
use space_project.Float.{Float}
use space_project.Ingest.{TelemetryPoint, WalRecord, Row, row_of_point}
use space_project.Ingest.Breaker.{CircuitBreaker, new_circuit_breaker}
use space_project.Ingest.Wal.{count, Bytes, Json, Wal, new_wal, written, reopened}
use space_project.Ingest.Batch.{BatchConfig, Added, rejected, kept, marked, add}
use space_project.Ingest.Batch.Flush.{
  InsertOutcome, Flush, waiting, trying, inserting, spilling, finished, lost, take_batch,
  begin_attempt, end_attempt, spill,
}
use space_project.Ingest.Monitor.{
  Place, idle, to_read, replaying, Monitor, check_health, begin_replay, replay_batch, end_replay,
}

-- The last flush is the one of the loop of `Start`, which calls `flush` itself and waits for it; those
-- in front of it have a goroutine each.
pub record Service (F T : Type 0) : Type 0 where
  pub buffer : List (TelemetryPoint F T)
  pub flushes : List (Flush F T)
  pub breaker : Option CircuitBreaker
  pub log : Option Wal
  pub monitor : Monitor (WalRecord F T)
  pub database : List (Row F T)

-- What `main` starts, on a file that has `content` and a database with no rows.
abbrev pub new_service :
    {F T : Type 0} (threshold timeout : ℕ) (content : Option Bytes) → Service F T
new_service threshold timeout content = record {
  buffer = [];
  flushes = finished ∷ [];
  breaker = some (new_circuit_breaker threshold timeout);
  log = some (new_wal content);
  monitor = record { is_healthy = false; place = idle };
  database = [];
}

-- `go bp.flush()` in `Add`.
abbrev pub with_flush : {F T : Type 0} → Bool → List (Flush F T) → List (Flush F T)
with_flush true flushes = waiting ∷ flushes
with_flush false flushes = flushes

-- A flush that has returned.
abbrev pub IsDone : {F T : Type 0} → Flush F T → Type 0
IsDone finished = Unit
IsDone (lost _) = Unit
IsDone _ = ⊥

abbrev pub IsReplaying : {R : Type 0} → Place R → Type 0
IsReplaying (replaying _ _ _) = Unit
IsReplaying _ = ⊥

module _ {F T : Type 0} ⦃f : Float F⦄ (config : BatchConfig F) (json : Json (WalRecord F T)) where
  -- A turn, with a file system that does what it is told, any result of an insert and of a ping,
  -- and no write to the log between the read and the clear of a replay.
  pub data Turn : Service F T → Service F T → Type 0 where
    ticks :
        {s : Service F T} (before : List (Flush F T)) (last : Flush F T)
        → s.flushes ≡ before ++ last ∷ []
        → IsDone last
        → Turn s (record s { flushes = before ++ waiting ∷ [] })
    takes_batch :
        {s : Service F T} (before behind : List (Flush F T))
        → s.flushes ≡ before ++ waiting ∷ behind
        → Turn s (record s {
          flushes = before ++ (take_batch s.buffer).0 ∷ behind;
          buffer = (take_batch s.buffer).1;
        })
    begins_attempt :
        {s : Service F T} (before behind : List (Flush F T))
        → (now attempt : ℕ) (batch : List (TelemetryPoint F T))
        → s.flushes ≡ before ++ trying attempt batch ∷ behind
        → Turn s (record s {
          flushes =
              before ++ (begin_attempt config.max_retries now attempt batch s.breaker).0 ∷ behind;
          breaker = (begin_attempt config.max_retries now attempt batch s.breaker).1;
        })
    ends_attempt :
        {s : Service F T} (before behind : List (Flush F T))
        → (outcome : InsertOutcome) (now attempt : ℕ) (batch : List (TelemetryPoint F T))
        → s.flushes ≡ before ++ inserting attempt batch ∷ behind
        → Turn s (record s {
          flushes = before ++ (end_attempt outcome now attempt batch s.breaker).0 ∷ behind;
          breaker = (end_attempt outcome now attempt batch s.breaker).1;
          database = s.database ++ (end_attempt outcome now attempt batch s.breaker).2;
        })
    spills :
        {s : Service F T} (before behind : List (Flush F T)) (left : List (TelemetryPoint F T))
        → s.flushes ≡ before ++ spilling left ∷ behind
        → ¬ (IsReplaying s.monitor.place)
        → Turn s (record s {
          flushes = before ++ (spill json written left s.log).0 ∷ behind;
          log = (spill json written left s.log).1;
        })
    checks :
        {s : Service F T} (is_up : Bool)
        → s.monitor.place ≡ idle
        → Turn s (record s { monitor = check_health is_up s.monitor })
    reports_health :
        {s : Service F T} (w : Wal)
        → s.log ≡ some w
        → Turn s (record s { log = some (count json reopened w).1 })
    begins_replay :
        {s : Service F T} (replays : ℕ) (w : Wal)
        → s.monitor.place ≡ to_read replays
        → s.log ≡ some w
        → Turn s (record s {
          monitor = record (s.monitor) { place = (begin_replay json reopened replays w).0 };
          log = some (begin_replay json reopened replays w).1;
        })
    replays_batch :
        {s : Service F T} (outcome : InsertOutcome) (replays : ℕ)
        (before left : List (WalRecord F T))
        → s.monitor.place ≡ replaying replays before left
        → left ≢ []
        → Turn s (record s {
          monitor = record (s.monitor) { place = (replay_batch outcome replays before left).0 };
          database = s.database ++ (replay_batch outcome replays before left).1;
        })
    ends_replay :
        {s : Service F T} (replays : ℕ) (before : List (WalRecord F T)) (w : Wal)
        → s.monitor.place ≡ replaying replays before []
        → s.log ≡ some w
        → Turn s (record s {
          monitor = record (s.monitor) {
            place = (end_replay {F = F} {T = T} reopened replays w).0;
          };
          log = some (end_replay {F = F} {T = T} reopened replays w).1;
        })

  -- What a service reaches from `start`, with the rows that were there, and those of the points
  -- that `Add` took.
  pub data Reaches (start : Service F T) (rows : List (Row F T))
      : Service F T → List (Row F T) → Type 0 where
    starts : Reaches start rows start rows
    posts :
        {s : Service F T} {accepted : List (Row F T)} (point : TelemetryPoint F T)
        → (buffer : List (TelemetryPoint F T)) (flushes : Bool) → Reaches start rows s accepted
        → add config point s.buffer ≡ kept buffer flushes
        → Reaches start rows
            (record s { buffer = buffer; flushes = with_flush flushes s.flushes })
            (row_of_point (marked config point) ∷ accepted)
    turns :
        {s s' : Service F T} {accepted : List (Row F T)}
        → Reaches start rows s accepted
        → Turn s s'
        → Reaches start rows s' accepted
