-- ===== src/Ingest/Handlers/Health.antt =====
-- `HealthCheck`, and what scripts/chaos_monkey.py reads in its answer.
use space_project.Base.{
  ℕ, ◌≡◌, refl, ap, ◌∙◌, Bool, true, false, Option, none, some, List, length, ◌==◌, if◌then◌else◌,
  arith,
}
use space_project.Chaos.{HealthAnswer, request_failed, answered, wal_count}
use space_project.Ingest.{TelemetryPoint, WalRecord}
use space_project.Ingest.Breaker.{BreakerState, CircuitBreaker}
use space_project.Ingest.Wal.{Json, Wal, ReopenOutcome, reopened, count, count_of, size}
use space_project.Ingest.Wal.Lines.{IsJson}
use space_project.Ingest.Wal.Laws.{Represents, read_all-Represents}

-- `HealthResponse`, without its time; a zero that `omitempty` leaves out is `none`.
pub record HealthResponse : Type 0 where
  pub is_degraded : Bool
  pub wal_size_bytes : Option ℕ
  pub wal_record_count : Option ℕ
  pub buffer_size : Option ℕ
  pub circuit_breaker : Option BreakerState

abbrev pub omit_empty : ℕ → Option ℕ
omit_empty n = if n == 0 then none else some n

abbrev pub state_of : Option CircuitBreaker → Option BreakerState
state_of none = none
state_of (some cb) = some cb.state

abbrev pub reported_size : Option Wal → Option ℕ
reported_size none = none
reported_size (some w) = omit_empty (size w)

abbrev pub reported_count : Option ℕ → Option ℕ
reported_count none = none
reported_count (some n) = omit_empty n

module _ {F T : Type 0} (json : Json (WalRecord F T)) where
  abbrev pub log_count : ReopenOutcome → Option Wal → Option ℕ × Option Wal
  log_count outcome none = (none, none)
  log_count outcome (some w) = let (n, w') = count json outcome w in (reported_count n, some w')

  -- `HealthCheck`: the status, the response and the log; `is_up` is the result of the ping.
  unfoldable pub health_check :
      (is_up : Bool)
      → ReopenOutcome
      → Option Wal
      → List (TelemetryPoint F T)
      → Option CircuitBreaker
      → ℕ × HealthResponse × Option Wal
  health_check is_up outcome log buffer breaker =
      let (n, log') = log_count outcome log in
      (
        if is_up then 200 else 503,
        record {
          is_degraded = if is_up then false else true;
          wal_size_bytes = reported_size log;
          wal_record_count = n;
          buffer_size = omit_empty (length buffer);
          circuit_breaker = state_of breaker;
        },
        log',
      )

-- What `get_health_status` of the chaos test makes of the answer.
abbrev pub seen : ℕ × HealthResponse × Option Wal → HealthAnswer
seen (code, response, _) =
    if code == 200 then answered response.wal_record_count else request_failed

wal_count-omit_empty : (n : ℕ) → wal_count (answered (omit_empty n)) ≡ n
wal_count-omit_empty n = ground arith

module _ {F T : Type 0} (json : Json (WalRecord F T)) (laws : IsJson json) where
  -- The chaos test reads the number of records in the log if the database answers the ping of the
  -- health check, and 0, whatever is in the log, if it does not.
  pub wal_count-health_check :
      (w : Wal) (rs : List (WalRecord F T)) (buffer : List (TelemetryPoint F T))
      (breaker : Option CircuitBreaker)
      → Represents json w rs
      → (wal_count (seen (health_check json true reopened (some w) buffer breaker)) ≡ length rs)
        × (wal_count (seen (health_check json false reopened (some w) buffer breaker)) ≡ 0)
  unfolding health_check count
  wal_count-health_check w rs buffer breaker h =
      let read = (read_all-Represents json laws w rs h).0 in
      (
        ap (λ o. wal_count (answered (reported_count (count_of o)))) read
            ∙ wal_count-omit_empty (length rs),
        refl,
      )
