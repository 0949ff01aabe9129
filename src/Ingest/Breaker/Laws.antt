-- ===== src/Ingest/Breaker/Laws.antt =====
-- When the breaker trips, what it refuses, and how many requests test the recovery.
use mathlib.Core.Path.{subst}
use space_project.Base.{
  ℕ, suc, ◌+◌, ◌≤◌, ◌<◌, ◌≡◌, refl, sym, true, false, List, [], ◌∷◌, ◌++◌, arith, All, map, length,
  replicate, leb, ltb, ap,
}
use space_project.Ingest.Breaker.{
  closed, open_circuit, half_open, CircuitBreaker, new_circuit_breaker, allow, record_success,
  record_failure, Call, allows, succeeds, fails, resets, after, run, answers,
}

-- The failures of a history.
abbrev pub failures : List Call → ℕ
failures [] = 0
failures (fails _ ∷ calls) = suc (failures calls)
failures (allows _ ∷ calls) = failures calls
failures (succeeds ∷ calls) = failures calls
failures (resets ∷ calls) = failures calls

abbrev pub IsNoReset : Call → Type 0
IsNoReset resets = ⊥
IsNoReset _ = Unit

-- Closed, with `k` failures counted.
abbrev HasCounted : ℕ → CircuitBreaker → CircuitBreaker → Type 0
HasCounted k cb cb' =
    (cb'.state ≡ closed)
    × (cb'.failure_count ≡ k + cb.failure_count)
    × (cb'.failure_threshold ≡ cb.failure_threshold)

run_closed :
    (calls : List Call) (cb : CircuitBreaker)
    → All IsNoReset calls
    → cb.state ≡ closed
    → failures calls + cb.failure_count < cb.failure_threshold
    → HasCounted (failures calls) cb (run calls cb)
unfolding run allow record_success record_failure
run_closed [] cb n c h = ground arith
run_closed (allows now ∷ calls) cb n c h =
    ground (arith, run_closed calls (after (allows now) cb) n.1)
run_closed (succeeds ∷ calls) cb n c h = ground (arith, run_closed calls (after succeeds cb) n.1)
run_closed (fails now ∷ calls) cb n c h =
    ground (arith, run_closed calls (after (fails now) cb) n.1)
run_closed (resets ∷ calls) cb n c h = absurd n.0

-- A call that leaves a breaker open until `deadline`: a request before it, a success, or a failure
-- that moves the deadline on.
abbrev pub IsBefore : (deadline timeout : ℕ) → Call → Type 0
IsBefore deadline timeout (allows now) = now < deadline
IsBefore deadline timeout succeeds = Unit
IsBefore deadline timeout (fails now) = deadline ≤ now + timeout
IsBefore deadline timeout resets = ⊥

allow_refuses :
    (now : ℕ) (cb : CircuitBreaker)
    → cb.state ≡ open_circuit
    → now < cb.last_failure_time + cb.timeout
    → allow now cb ≡ (false, cb)
unfolding allow
allow_refuses now cb o h =
    let late : leb (cb.last_failure_time + cb.timeout) now ≡ false = ground arith in rw (o, late)

open_success : (cb : CircuitBreaker) → cb.state ≡ open_circuit → record_success cb ≡ cb
unfolding record_success
open_success cb o = rw o

open_failure :
    (now : ℕ) (cb : CircuitBreaker)
    → cb.state ≡ open_circuit
    → record_failure now cb ≡ record cb {
      state = open_circuit;
      failure_count = suc cb.failure_count;
      last_failure_time = now;
    }
unfolding record_failure
open_failure now cb o = rw o

-- The breaker stays open, and refuses every request.
abbrev pub StaysOpen : List Call → CircuitBreaker → Type 0
StaysOpen calls cb =
    ((run calls cb).state ≡ open_circuit) × All (λ answer. answer ≡ false) (answers calls cb)

-- While less than the timeout has passed since the last failure, an open breaker stays open and
-- refuses every request, whatever successes and later failures of earlier requests it is told of.
pub open_refuses :
    (calls : List Call) (cb : CircuitBreaker) (deadline : ℕ)
    → cb.state ≡ open_circuit
    → deadline ≤ cb.last_failure_time + cb.timeout
    → All (IsBefore deadline cb.timeout) calls
    → StaysOpen calls cb
unfolding run answers
open_refuses [] cb deadline o d b = (o, tt)
open_refuses (allows now ∷ calls) cb deadline o d b =
    let rest = open_refuses calls cb deadline o d b.1 in
    subst
      (λ a.
        ((run calls a.1).state ≡ open_circuit)
        × ((a.0 ≡ false) × All (λ answer. answer ≡ false) (answers calls a.1)))
      (sym (allow_refuses now cb o (omega (arith, b.0)))) (rest.0, (refl, rest.1))
open_refuses (succeeds ∷ calls) cb deadline o d b =
    subst (StaysOpen calls) (sym (open_success cb o)) (open_refuses calls cb deadline o d b.1)
open_refuses (fails now ∷ calls) cb deadline o d b =
    subst (StaysOpen calls) (sym (open_failure now cb o)) (
      open_refuses calls
        (record cb {
          state = open_circuit;
          failure_count = suc cb.failure_count;
          last_failure_time = now;
        })
        deadline refl b.0 b.1)
open_refuses (resets ∷ calls) cb deadline o d b = absurd b.0

count_failures_append :
    (calls : List Call) (now : ℕ) (cb : CircuitBreaker)
    → run (calls ++ fails now ∷ []) cb ≡ record_failure now (run calls cb)
unfolding run
count_failures_append [] now cb = refl
count_failures_append (call ∷ calls) now cb = count_failures_append calls now (after call cb)

-- A new breaker without a reset stays closed until the number of failures reaches its threshold,
-- and then opens: successes in between do not start the count again, so the failures need not be
-- consecutive.
pub new_circuit_breaker_trips :
    (threshold timeout now : ℕ) (calls : List Call)
    → All IsNoReset calls
    → suc (failures calls) ≡ threshold
    → ((run calls (new_circuit_breaker threshold timeout)).state ≡ closed)
      × ((run (calls ++ fails now ∷ []) (new_circuit_breaker threshold timeout)).state
          ≡ open_circuit)
unfolding record_failure
new_circuit_breaker_trips threshold timeout now calls n e =
    let new : CircuitBreaker = new_circuit_breaker threshold timeout in
    let before = run_closed calls new n refl (omega arith) in
    (before.0, rw (count_failures_append calls now new) (ground (arith, before)))

half_open_refuses :
    (cb : CircuitBreaker) (nows : List ℕ)
    → cb.state ≡ half_open
    → 0 < cb.half_open_attempts
    → answers (map allows nows) cb ≡ replicate (length nows) false
unfolding answers allow
half_open_refuses cb [] h a = refl
half_open_refuses cb (now ∷ nows) h a =
    let busy : ltb 1 (suc cb.half_open_attempts) ≡ true = ground arith in
    rw (h, busy)
      (ap (λ rest. false ∷ rest)
        (half_open_refuses
          (record cb { state = half_open; half_open_attempts = suc cb.half_open_attempts }) nows
          refl (omega arith)))

-- The requests of an open breaker once its timeout has passed, until a result is recorded: two are
-- let through, the one that half-opens it and one more, and every later one is refused.
pub answers_probes :
    (cb : CircuitBreaker) (first second : ℕ) (nows : List ℕ)
    → cb.state ≡ open_circuit
    → cb.last_failure_time + cb.timeout ≤ first
    → answers (map allows (first ∷ second ∷ nows)) cb ≡ true ∷ true ∷ replicate (length nows) false
unfolding answers allow
answers_probes cb first second nows o h =
    let due : leb (cb.last_failure_time + cb.timeout) first ≡ true = ground arith in
    rw (o, due)
      (ap (λ rest. true ∷ true ∷ rest)
        (half_open_refuses (record cb { state = half_open; half_open_attempts = 1 }) nows refl
          (omega arith)))
