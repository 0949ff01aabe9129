-- ===== src/Simulation/Safety.antt =====
-- What a swarm sends, and the state of its coroutines, in every order in which these may run.
use space_project.Base.{
  ◌≡◌, ◌≢◌, refl, Bool, true, false, Option, none, some, ◌∷◌, All, All-append, All-split,
  if◌then◌else◌,
}
use space_project.Base.Int.{pos, negsuc}
use space_project.Base.Text.{Text}
use space_project.Float.{Float, IsFloat, ◌≼◌, Between}
use space_project.Telemetry.{Telemetry}
use space_project.Telemetry.Random.{Rng, IsRng}
use space_project.Telemetry.Action.{continue, pure}
use space_project.Telemetry.Generate.{World, whole, generate_telemetry}
use space_project.Telemetry.Invariant.{IsInRange}
use space_project.Telemetry.Invariant.Returns.{HasScale}
use space_project.Telemetry.Correct.{
  IsAnswer, generate_telemetry-IsInRange, generate_telemetry_returns,
}
use space_project.Simulation.{Payload, Satellite, Place, returned, raised, Task, Shared, Swarm}
use space_project.Simulation.Send.{
  payload_of, start_task, has_interval, prepare, request, begin_round, end_round,
}
use space_project.Simulation.Schedule.{
  Turn, starts, begins, ends, wakes, cancels_request, cancels_pause, cancels_created, Step, turn,
  stop, Reach, here, next,
}

-- Battery, storage and signal of a request are those of a satellite that can be.
pub record IsPayload {F : Type 0} ⦃f : Float F⦄ (p : Payload F) : Type 0 where
  pub battery : Between (pos 0) (pos 100) p.battery_charge_percent
  pub storage : whole 0 ≼ p.storage_usage_mb
  pub signal : Between (negsuc 119) (negsuc 29) p.signal_strength_dbm

-- A coroutine whose object is in range, and draws the signal's walk with a scale that numpy takes;
-- no exception has ended it.
pub record IsSound {F T : Type 0} ⦃f : Float F⦄ (task : Task F T) : Type 0 where
  pub range : IsInRange task.satellite.generator
  pub scale : HasScale task.satellite.generator
  pub alive : task.place ≢ raised

-- A rate that is not 0, sound coroutines, and requests in range.
pub record IsSafe {F T S : Type 0} ⦃f : Float F⦄ (u : Swarm F T S) : Type 0 where
  pub rate : has_interval u.shared.config ≡ true
  pub tasks : All IsSound u.tasks
  pub requests : All IsPayload u.shared.requests

record IsSafeTurn {F T S : Type 0} ⦃f : Float F⦄ (shared : Shared F S) (task : Task F T)
    : Type 0 where
  rate : has_interval shared.config ≡ true
  sound : IsSound task
  requests : All IsPayload shared.requests

-- What `prepare` may come to.
abbrev IsPrepared : {F T S : Type 0} ⦃f : Float F⦄ → Option (Payload F) × World F T S → Type 0
IsPrepared (none, w) = ⊥
IsPrepared (some p, w) = IsPayload p × IsInRange w.self × HasScale w.self

module _ {F T S : Type 0} ⦃f : Float F⦄ (r : Rng F S) where
  prepared :
      (id timestamp : Text) (o : Option (Telemetry F)) (w : World F T S)
      → o ≢ none
      → IsAnswer o
      → IsInRange w.self
      → HasScale w.self
      → IsPrepared (continue o (λ telemetry. pure (payload_of id timestamp telemetry)) w)
  unfolding payload_of
  prepared id timestamp none w n h range scale = absurd (n refl)
  prepared id timestamp (some t) w n h range scale =
      (record { battery = h.battery; storage = h.storage; signal = h.signal }, range, scale)

  request-IsSafe :
      (shared : Shared F S) (satellite : Satellite F T) (out : Option (Payload F) × World F T S)
      → has_interval shared.config ≡ true
      → All IsPayload shared.requests
      → IsPrepared out
      → (let (shared', task') = request r shared satellite out in IsSafeTurn shared' task')
  request-IsSafe shared satellite (none, w) rate requests h = absurd h
  request-IsSafe shared satellite (some p, w) rate requests h = record {
    rate = rate;
    sound = record { range = h.1; scale = h.2; alive = λ e. cc };
    requests = (h.0, requests);
  }

  test-IsSafe :
      (running : Bool) (shared : Shared F S) (satellite : Satellite F T)
      (out : Option (Payload F) × World F T S)
      → has_interval shared.config ≡ true
      → All IsPayload shared.requests
      → IsInRange satellite.generator
      → HasScale satellite.generator
      → IsPrepared out
      → (let (shared', task') =
            if running
            then request r shared satellite out
            else (shared, record { satellite = satellite; place = returned }) in
          IsSafeTurn shared' task')
  test-IsSafe true shared satellite out rate requests range scale h =
      request-IsSafe shared satellite out rate requests h
  test-IsSafe false shared satellite out rate requests range scale h = record {
    rate = rate;
    sound = record { range = range; scale = scale; alive = λ e. cc };
    requests = requests;
  }

module _ {F T S : Type 0} ⦃f : Float F⦄ (laws : IsFloat F) (r : Rng F S) (random : IsRng r) where
  prepare-IsPrepared :
      (now : T) (timestamp : Text) (satellite : Satellite F T) (s : S)
      → IsInRange satellite.generator
      → HasScale satellite.generator
      → IsPrepared
          (prepare r now timestamp satellite (record { self = satellite.generator; rng = s }))
  unfolding prepare
  prepare-IsPrepared now timestamp satellite s range scale =
      let w : World F T S = record { self = satellite.generator; rng = s } in
      let safe = generate_telemetry-IsInRange laws r random now w range in
      let live = generate_telemetry_returns laws r random now w scale in
      prepared r satellite.id timestamp (generate_telemetry r now w).0
        (generate_telemetry r now w).1 live.0 safe.1 safe.0 live.1

  Turn-IsSafe :
      {shared : Shared F S} {satellite : Satellite F T} {place : Place} {shared' : Shared F S}
      {task' : Task F T}
      → Turn r shared satellite place shared' task'
      → has_interval shared.config ≡ true
      → All IsPayload shared.requests
      → IsInRange satellite.generator
      → HasScale satellite.generator
      → IsSafeTurn shared' task'
  unfolding start_task begin_round end_round
  Turn-IsSafe {shared} starts rate requests range scale = record {
    rate = rate;
    sound = record { range = range; scale = scale; alive = rw rate (λ e. cc) };
    requests = requests;
  }
  Turn-IsSafe {shared} {satellite} (begins now timestamp) rate requests range scale =
      test-IsSafe r shared.config.running shared satellite
        (prepare r now timestamp satellite
          (record { self = satellite.generator; rng = shared.rng }))
        rate requests range scale
        (prepare-IsPrepared now timestamp satellite shared.rng range scale)
  Turn-IsSafe {shared} {satellite} (ends reply) rate requests range scale = record {
    rate = rate;
    sound = record { range = range; scale = scale; alive = λ e. cc };
    requests = requests;
  }
  Turn-IsSafe {shared} wakes rate requests range scale = record {
    rate = rate;
    sound = record { range = range; scale = scale; alive = λ e. cc };
    requests = requests;
  }
  Turn-IsSafe {shared} cancels_request rate requests range scale = record {
    rate = rate;
    sound = record { range = range; scale = scale; alive = λ e. cc };
    requests = requests;
  }
  Turn-IsSafe {shared} cancels_pause rate requests range scale = record {
    rate = rate;
    sound = record { range = range; scale = scale; alive = λ e. cc };
    requests = requests;
  }
  Turn-IsSafe {shared} cancels_created rate requests range scale = record {
    rate = rate;
    sound = record { range = range; scale = scale; alive = λ e. cc };
    requests = requests;
  }

  Step-IsSafe : {u v : Swarm F T S} → Step r u v → IsSafe u → IsSafe v
  Step-IsSafe (turn before after task task' shared shared' t) h =
      let parts = All-split IsSound before (task ∷ after) h.tasks in
      let done = Turn-IsSafe t h.rate h.requests parts.1.0.range parts.1.0.scale in
      record {
        rate = done.rate;
        tasks = All-append IsSound before (task' ∷ after) parts.0 (done.sound, parts.1.1);
        requests = done.requests;
      }
  Step-IsSafe (stop u) h = record { rate = h.rate; tasks = h.tasks; requests = h.requests }

  -- From a swarm whose satellites are in range, whose signal walks have a scale and whose rate is
  -- not 0, in every state that may be reached, in any order of its coroutines, replies, exceptions
  -- of requests and cancellations: no coroutine was ended by an exception, every satellite is still
  -- in range, and so is every request that was made.
  pub Reach-IsSafe : {u v : Swarm F T S} → IsSafe u → Reach r u v → IsSafe v
  Reach-IsSafe h here = h
  Reach-IsSafe h (next reach step) = Step-IsSafe step (Reach-IsSafe h reach)
