-- ===== src/Simulation/Schedule.antt =====
-- How the event loop may interleave the coroutines of a swarm, the replies of the service, the
-- cancellation that `asyncio.wait_for` or the end of the loop brings, and the end of `main`.
use space_project.Base.{false, List, ◌∷◌, ◌++◌}
use space_project.Base.Text.{Text}
use space_project.Float.{Float}
use space_project.Telemetry.Random.{Rng}
use space_project.Simulation.{
  Reply, Satellite, Place, created, at_test, at_request, at_pause, cancelled_at_request, cancelled,
  Task, Shared, Swarm,
}
use space_project.Simulation.Send.{start_task, begin_round, end_round}

module _ {F T S : Type 0} ⦃f : Float F⦄ (r : Rng F S) where
  -- One coroutine runs from an `await` to the next, or is cancelled there. Others may run between
  -- an `await` and the test of the loop too, which the event loop does not use.
  pub data Turn (shared : Shared F S) (satellite : Satellite F T)
      : Place → Shared F S → Task F T → Type 0 where
    starts : Turn shared satellite created shared (start_task shared satellite)
    begins :
        (now : T) (timestamp : Text)
        → Turn shared satellite at_test
            (begin_round r now timestamp shared satellite).0
            (begin_round r now timestamp shared satellite).1
    ends :
        (reply : Reply)
        → Turn shared satellite at_request
            (end_round reply shared satellite).0
            (end_round reply shared satellite).1
    wakes :
        Turn shared satellite at_pause shared (record { satellite = satellite; place = at_test })
    cancels_request :
        Turn shared satellite at_request shared
          (record { satellite = satellite; place = cancelled_at_request })
    cancels_pause :
        Turn shared satellite at_pause shared (record { satellite = satellite; place = cancelled })
    cancels_created :
        Turn shared satellite created shared (record { satellite = satellite; place = cancelled })

  pub data Step : Swarm F T S → Swarm F T S → Type 0 where
    turn :
        (before after : List (Task F T)) (task task' : Task F T) (shared shared' : Shared F S)
        → Turn shared task.satellite task.place shared' task'
        → Step
            (record { shared = shared; tasks = before ++ task ∷ after })
            (record { shared = shared'; tasks = before ++ task' ∷ after })
    -- `config.running = False`
    stop :
        (u : Swarm F T S)
        → Step u (record u {
          shared = record u.shared { config = record u.shared.config { running = false } };
        })

  pub data Reach (u : Swarm F T S) : Swarm F T S → Type 0 where
    here : Reach u u
    next : {v w : Swarm F T S} → Reach u v → Step v w → Reach u w
