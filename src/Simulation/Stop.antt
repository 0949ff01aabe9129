-- ===== src/Simulation/Stop.antt =====
-- What `config.running = False` stops.
use space_project.Base.{
  ℕ, suc, ◌+◌, ◌≤◌, ◌≡◌, refl, ◌∙◌, Bool, true, false, Option, List, [], ◌∷◌, ◌++◌, arith,
  if◌then◌else◌, length, ◌*◌,
}
use space_project.Float.{Float}
use space_project.Telemetry.Random.{Rng}
use space_project.Telemetry.Generate.{World}
use space_project.Simulation.{
  Payload, Satellite, Place, created, at_test, at_request, at_pause, returned, raised,
  cancelled_at_request, cancelled, Task, Shared, Swarm,
}
use space_project.Simulation.Send.{
  has_interval, start_task, prepare, request, begin_round, end_round,
}
use space_project.Simulation.Schedule.{
  Turn, starts, begins, ends, wakes, cancels_request, cancels_pause, cancels_created, turn, stop,
  Reach, here, next,
}

-- The awaits that a coroutine can still come to, with the start and the last test of its loop.
abbrev left : Place → ℕ
left created = 4
left at_request = 3
left at_pause = 2
left at_test = 1
left _ = 0

abbrev turns_left : {F T : Type 0} → List (Task F T) → ℕ
turns_left [] = 0
turns_left (task ∷ tasks) = left task.place + turns_left tasks

turns_left-append :
    {F T : Type 0} (before after : List (Task F T))
    → turns_left (before ++ after) ≡ turns_left before + turns_left after
turns_left-append [] after = omega arith
turns_left-append (task ∷ before) after = omega (arith, turns_left-append before after)

left-le : (place : Place) → left place ≤ 4
left-le created = omega arith
left-le at_test = omega arith
left-le at_request = omega arith
left-le at_pause = omega arith
left-le returned = omega arith
left-le raised = omega arith
left-le cancelled_at_request = omega arith
left-le cancelled = omega arith

turns_left-le : {F T : Type 0} (tasks : List (Task F T)) → turns_left tasks ≤ 4 * length tasks
turns_left-le [] = omega arith
turns_left-le (task ∷ tasks) = omega (arith, left-le task.place, turns_left-le tasks)

module _ {F T S : Type 0} ⦃f : Float F⦄ (r : Rng F S) where
  -- How often a coroutine ran, between two states.
  abbrev pub turns : {u v : Swarm F T S} → Reach r u v → ℕ
  turns here = 0
  turns (next reach (turn before after task task' shared shared' t)) = suc (turns reach)
  turns (next reach (stop u)) = turns reach

  -- What one turn does when the loop's test fails.
  record IsStoppedTurn (shared : Shared F S) (place : Place) (shared' : Shared F S)
      (task' : Task F T) : Type 0 where
    running : shared'.config.running ≡ false
    requests : shared'.requests ≡ shared.requests
    fewer : suc (left task'.place) ≤ left place

  test-IsStoppedTurn :
      (running : Bool) (shared : Shared F S) (satellite : Satellite F T)
      (out : Option (Payload F) × World F T S)
      → running ≡ false
      → shared.config.running ≡ false
      → (let (shared', task') =
            if running
            then request r shared satellite out
            else (shared, record { satellite = satellite; place = returned }) in
          IsStoppedTurn shared at_test shared' task')
  test-IsStoppedTurn true shared satellite out e h = cc
  test-IsStoppedTurn false shared satellite out e h = record {
    running = h;
    requests = refl;
    fewer = omega arith;
  }

  start-IsStoppedTurn :
      (b : Bool) (shared : Shared F S) (satellite : Satellite F T)
      → shared.config.running ≡ false
      → IsStoppedTurn shared created shared
          (record { satellite = satellite; place = if b then at_test else raised })
  start-IsStoppedTurn true shared satellite h = record {
    running = h;
    requests = refl;
    fewer = omega arith;
  }
  start-IsStoppedTurn false shared satellite h = record {
    running = h;
    requests = refl;
    fewer = omega arith;
  }

  Turn-IsStoppedTurn :
      {shared : Shared F S} {satellite : Satellite F T} {place : Place} {shared' : Shared F S}
      {task' : Task F T}
      → Turn r shared satellite place shared' task'
      → shared.config.running ≡ false
      → IsStoppedTurn shared place shared' task'
  unfolding start_task begin_round end_round
  Turn-IsStoppedTurn {shared} {satellite} starts h =
      start-IsStoppedTurn (has_interval shared.config) shared satellite h
  Turn-IsStoppedTurn {shared} {satellite} (begins now timestamp) h =
      test-IsStoppedTurn shared.config.running shared satellite
        (prepare r now timestamp satellite
          (record { self = satellite.generator; rng = shared.rng }))
        h h
  Turn-IsStoppedTurn (ends reply) h = record { running = h; requests = refl; fewer = omega arith }
  Turn-IsStoppedTurn wakes h = record { running = h; requests = refl; fewer = omega arith }
  Turn-IsStoppedTurn cancels_request h = record {
    running = h;
    requests = refl;
    fewer = omega arith;
  }
  Turn-IsStoppedTurn cancels_pause h = record { running = h; requests = refl; fewer = omega arith }
  Turn-IsStoppedTurn cancels_created h = record {
    running = h;
    requests = refl;
    fewer = omega arith;
  }

  stopped_lem :
      {u v : Swarm F T S} (reach : Reach r u v)
      → u.shared.config.running ≡ false
      → (v.shared.config.running ≡ false)
        × (v.shared.requests ≡ u.shared.requests)
        × (turns reach + turns_left v.tasks ≤ turns_left u.tasks)
  stopped_lem here h = (h, refl, omega arith)
  stopped_lem (next reach (turn before after task task' shared shared' t)) h =
      let earlier = stopped_lem reach h in
      let now = Turn-IsStoppedTurn t earlier.0 in
      (
        now.running,
        now.requests ∙ earlier.1,
        omega (
          arith,
          earlier.2,
          now.fewer,
          turns_left-append before (task ∷ after),
          turns_left-append before (task' ∷ after),
        ),
      )
  stopped_lem (next reach (stop u)) h =
      let earlier = stopped_lem reach h in (refl, earlier.1, earlier.2)

  -- After `config.running = False`, in any order of what follows, it stays so, no request is made
  -- any more, and the coroutines of `n` satellites run at most `4 * n` more times in all.
  pub Reach-stopped :
      {u v : Swarm F T S} (reach : Reach r u v)
      → u.shared.config.running ≡ false
      → (v.shared.config.running ≡ false)
        × (v.shared.requests ≡ u.shared.requests)
        × (turns reach ≤ 4 * length u.tasks)
  Reach-stopped {u} reach h =
      let (running, requests, bound) = stopped_lem reach h in
      (running, requests, omega (arith, bound, turns_left-le u.tasks))
