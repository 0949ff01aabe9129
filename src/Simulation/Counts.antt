-- ===== src/Simulation/Counts.antt =====
-- The statistics of a swarm and its requests, in every order in which the coroutines may run.
use space_project.Base.{
  ℕ, suc, ◌+◌, ◌≡◌, refl, Bool, true, false, Option, none, some, List, [], ◌∷◌, ◌++◌, arith, length,
  if◌then◌else◌,
}
use space_project.Float.{Float}
use space_project.Telemetry.Random.{Rng}
use space_project.Telemetry.Generate.{World}
use space_project.Simulation.{
  Stats, Payload, SendResult, success, error_code, error_message, Satellite, Place, at_test,
  at_request, returned, cancelled_at_request, Task, Shared, Swarm,
}
use space_project.Simulation.Send.{
  send_result, count_result, start_task, prepare, request, begin_round, end_round,
}
use space_project.Simulation.Schedule.{
  Turn, starts, begins, ends, wakes, cancels_request, cancels_pause, cancels_created, Step, turn,
  stop, Reach, here, next,
}

-- A request of which no result was counted.
abbrev pub unanswered : Place → ℕ
unanswered at_request = 1
unanswered cancelled_at_request = 1
unanswered _ = 0

abbrev pub count_unanswered : {F T : Type 0} → List (Task F T) → ℕ
count_unanswered [] = 0
count_unanswered (task ∷ tasks) = unanswered task.place + count_unanswered tasks

-- Every counted request succeeded or failed, and every request is counted or without a result.
abbrev pub IsCounted : {F T S : Type 0} → Swarm F T S → Type 0
IsCounted u =
    (u.shared.stats.total_sent ≡ u.shared.stats.success + u.shared.stats.errors)
    × (length u.shared.requests ≡ u.shared.stats.total_sent + count_unanswered u.tasks)

count_unanswered-append :
    {F T : Type 0} (before after : List (Task F T))
    → count_unanswered (before ++ after) ≡ count_unanswered before + count_unanswered after
count_unanswered-append [] after = omega arith
count_unanswered-append (task ∷ before) after = omega (arith, count_unanswered-append before after)

-- What one turn does to the counts: the place before, and after.
abbrev Balanced : {F T S : Type 0} → Shared F S → Place → Shared F S → Task F T → Type 0
Balanced shared place shared' task' =
    (shared.stats.total_sent ≡ shared.stats.success + shared.stats.errors
      → shared'.stats.total_sent ≡ shared'.stats.success + shared'.stats.errors)
    × (length shared'.requests + shared.stats.total_sent + unanswered place
        ≡ length shared.requests + shared'.stats.total_sent + unanswered task'.place)

count_result-Balanced :
    (result : SendResult) (stats : Stats)
    → (let stats' = count_result result stats in
        (stats.total_sent ≡ stats.success + stats.errors
          → stats'.total_sent ≡ stats'.success + stats'.errors)
        × (stats'.total_sent ≡ suc stats.total_sent))
unfolding count_result
count_result-Balanced (success _) stats = ((λ h. omega arith), refl)
count_result-Balanced (error_code _) stats = ((λ h. omega arith), refl)
count_result-Balanced (error_message _) stats = ((λ h. omega arith), refl)

module _ {F T S : Type 0} ⦃f : Float F⦄ (r : Rng F S) where
  request-Balanced :
      (shared : Shared F S) (satellite : Satellite F T) (out : Option (Payload F) × World F T S)
      → (let (shared', task') = request r shared satellite out in
          Balanced shared at_test shared' task')
  request-Balanced shared satellite (none, w) = (λ h. h, refl)
  request-Balanced shared satellite (some p, w) = (λ h. h, omega arith)

  test-Balanced :
      (running : Bool) (shared : Shared F S) (satellite : Satellite F T)
      (out : Option (Payload F) × World F T S)
      → (let (shared', task') =
            if running
            then request r shared satellite out
            else (shared, record { satellite = satellite; place = returned }) in
          Balanced shared at_test shared' task')
  test-Balanced true shared satellite out = request-Balanced shared satellite out
  test-Balanced false shared satellite out = (λ h. h, refl)

  Turn-Balanced :
      {shared : Shared F S} {satellite : Satellite F T} {place : Place} {shared' : Shared F S}
      {task' : Task F T}
      → Turn r shared satellite place shared' task'
      → Balanced shared place shared' task'
  unfolding start_task begin_round end_round
  Turn-Balanced {shared} {satellite} starts = ground arith
  Turn-Balanced {shared} {satellite} (begins now timestamp) =
      test-Balanced shared.config.running shared satellite (
        prepare r now timestamp satellite (record { self = satellite.generator; rng = shared.rng }))
  Turn-Balanced {shared} {satellite} (ends reply) =
      let counts = count_result-Balanced (send_result satellite.id reply) shared.stats in
      (counts.0, omega (arith, counts.1))
  Turn-Balanced wakes = (λ h. h, refl)
  Turn-Balanced cancels_request = (λ h. h, refl)
  Turn-Balanced cancels_pause = (λ h. h, refl)
  Turn-Balanced cancels_created = (λ h. h, refl)

  Step-IsCounted : {u v : Swarm F T S} → Step r u v → IsCounted u → IsCounted v
  Step-IsCounted (turn before after task task' shared shared' t) h =
      let balanced = Turn-Balanced t in
      (
        balanced.0 h.0,
        omega (
          arith,
          balanced.1,
          h.1,
          count_unanswered-append before (task ∷ after),
          count_unanswered-append before (task' ∷ after),
        ),
      )
  Step-IsCounted (stop u) h = h

  -- In every state that a swarm may reach, in any order of its coroutines, replies, exceptions and
  -- cancellations: the total is that of successes and errors, and each request is either counted in
  -- it, or waits for its reply, or was cancelled.
  pub Reach-IsCounted : {u v : Swarm F T S} → IsCounted u → Reach r u v → IsCounted v
  Reach-IsCounted h here = h
  Reach-IsCounted h (next reach step) = Step-IsCounted step (Reach-IsCounted h reach)
