-- ===== src/Ingest/Breaker.antt =====
-- go-service/db/circuit_breaker.go. Times are in any unit, on a clock that starts with the zero
-- time; each method holds the mutex from its start to its end.
pub mod Laws
use space_project.Base.{ℕ, suc, ◌+◌, Bool, true, false, List, [], ◌∷◌, leb, ltb, if◌then◌else◌}

-- `CircuitBreakerState`
pub data BreakerState : Type 0 where
  closed open_circuit half_open : BreakerState

pub record CircuitBreaker : Type 0 where
  pub state : BreakerState
  pub failure_count : ℕ
  pub failure_threshold : ℕ
  pub last_failure_time : ℕ
  pub timeout : ℕ
  pub half_open_attempts : ℕ

abbrev pub new_circuit_breaker : (threshold timeout : ℕ) → CircuitBreaker
new_circuit_breaker threshold timeout = record {
  state = closed;
  failure_count = 0;
  failure_threshold = threshold;
  last_failure_time = 0;
  timeout = timeout;
  half_open_attempts = 0;
}

-- `Allow`, at the time `now`: the answer and the breaker.
unfoldable pub allow : (now : ℕ) → CircuitBreaker → Bool × CircuitBreaker
allow now cb = elim cb.state [
  | closed ↦ (true, cb)
  | open_circuit ↦
      if leb (cb.last_failure_time + cb.timeout) now
      then (true, record cb { state = half_open; half_open_attempts = 0 })
      else (false, cb)
  | half_open ↦
      let cb' : CircuitBreaker = record cb { half_open_attempts = suc cb.half_open_attempts } in
      if ltb 1 cb'.half_open_attempts then (false, cb') else (true, cb')
]

unfoldable pub record_success : CircuitBreaker → CircuitBreaker
record_success cb = elim cb.state [
  | half_open ↦ record cb { state = closed; failure_count = 0; half_open_attempts = 0 }
  | closed ↦ cb
  | open_circuit ↦ cb
]

unfoldable pub record_failure : (now : ℕ) → CircuitBreaker → CircuitBreaker
record_failure now cb =
    let cb' : CircuitBreaker = record cb {
      failure_count = suc cb.failure_count;
      last_failure_time = now;
    } in
    elim cb.state [
      | closed ↦
          if leb cb.failure_threshold cb'.failure_count
          then record cb' { state = open_circuit }
          else cb'
      | half_open ↦ record cb' { state = open_circuit; half_open_attempts = 0 }
      | open_circuit ↦ cb'
    ]

unfoldable pub reset : CircuitBreaker → CircuitBreaker
reset cb = record cb {
  state = closed;
  failure_count = 0;
  last_failure_time = 0;
  half_open_attempts = 0;
}

-- A call of one of the methods, at a time where it reads the clock.
pub data Call : Type 0 where
  allows : (now : ℕ) → Call
  succeeds : Call
  fails : (now : ℕ) → Call
  resets : Call

abbrev pub after : Call → CircuitBreaker → CircuitBreaker
after (allows now) cb = (allow now cb).1
after succeeds cb = record_success cb
after (fails now) cb = record_failure now cb
after resets cb = reset cb

-- The breaker after a history of calls, the first in front.
unfoldable pub run : List Call → CircuitBreaker → CircuitBreaker
run [] cb = cb
run (call ∷ calls) cb = run calls (after call cb)

-- What the calls of `Allow` in a history answer.
unfoldable pub answers : List Call → CircuitBreaker → List Bool
answers [] cb = []
answers (allows now ∷ calls) cb = (allow now cb).0 ∷ answers calls (allow now cb).1
answers (succeeds ∷ calls) cb = answers calls (record_success cb)
answers (fails now ∷ calls) cb = answers calls (record_failure now cb)
answers (resets ∷ calls) cb = answers calls (reset cb)
