-- ===== src/Simulation/Start/Run.antt =====
-- What a swarm that is started may come to.
use space_project.Base.{ℕ, suc, ◌≡◌, refl, true, Option, List, [], ◌∷◌, arith, All, map}
use space_project.Base.Text.{Text}
use space_project.Float.{Float, IsFloat}
use space_project.Telemetry.{Calculator}
use space_project.Telemetry.Random.{Rng, IsRng}
use space_project.Telemetry.Invariant.Returns.{HasScale}
use space_project.Simulation.Start.Laws.{AreNumbered}
use space_project.Simulation.{SimulatorConfig, Satellite, Swarm, created}
use space_project.Simulation.Send.{has_interval}
use space_project.Simulation.Start.{start}
use space_project.Simulation.Schedule.{Reach}
use space_project.Simulation.Counts.{IsCounted, Reach-IsCounted, count_unanswered}
use space_project.Simulation.Safety.{IsSound, IsSafe, Reach-IsSafe}

created-IsSound :
    {F T : Type 0} ⦃f : Float F⦄ (calculator : Option (Calculator F T)) (names : List Text) (i : ℕ)
    → (satellites : List (Satellite F T)) → AreNumbered calculator names i satellites
    → All (λ s. HasScale s.generator) satellites
    → All IsSound (map (λ s. record { satellite = s; place = created }) satellites)
created-IsSound calculator names i [] a h = tt
created-IsSound calculator names i (s ∷ satellites) a h = (
  record { range = a.0.range; scale = h.0; alive = λ e. cc },
  created-IsSound calculator names (suc i) satellites a.1 h.1,
)

created-unanswered :
    {F T : Type 0} (satellites : List (Satellite F T))
    → count_unanswered (map (λ s. record { satellite = s; place = created }) satellites) ≡ 0
created-unanswered [] = refl
created-unanswered (s ∷ satellites) = omega (arith, created-unanswered satellites)

start-IsCounted :
    {F T S : Type 0} (config : SimulatorConfig F) (now : ℕ) (rng : S)
    (satellites : List (Satellite F T))
    → IsCounted (start config now rng satellites)
unfolding start
start-IsCounted config now rng satellites =
    (omega arith, omega (arith, created-unanswered satellites))

module _ {F T S : Type 0} ⦃f : Float F⦄ where
  -- The statistics of a started swarm: in every state that it may reach, in any order of its
  -- coroutines, replies, exceptions and cancellations, the total is that of successes and errors,
  -- and each request that was made is either counted in it, or waits for its reply, or was
  -- cancelled.
  pub start-Reach-IsCounted :
      (r : Rng F S) (config : SimulatorConfig F) (now : ℕ) (rng : S)
      (satellites : List (Satellite F T))
      → {u : Swarm F T S} → Reach r (start config now rng satellites) u
      → IsCounted u
  start-Reach-IsCounted r config now rng satellites reach =
      Reach-IsCounted r (start-IsCounted config now rng satellites) reach

  -- The run of a new swarm with a rate that is not 0, whose signal walks were drawn with scales of
  -- 0 or more: in every state that it may reach, in any order of its coroutines, replies,
  -- exceptions of requests and cancellations, no exception of its own has ended a coroutine, every
  -- satellite is in range, and so is every request that was made.
  pub start-Reach-IsSafe :
      (laws : IsFloat F) (r : Rng F S) (random : IsRng r) (config : SimulatorConfig F)
      → (calculator : Option (Calculator F T)) (names : List Text) (now : ℕ) (rng : S)
      → (satellites : List (Satellite F T)) {u : Swarm F T S} → has_interval config ≡ true
      → AreNumbered calculator names 0 satellites
      → All (λ s. HasScale s.generator) satellites
      → Reach r (start config now rng satellites) u
      → IsSafe u
  unfolding start
  start-Reach-IsSafe laws r random config calculator names now rng satellites rate a h reach =
      Reach-IsSafe laws r random
        (record {
          rate = rate;
          tasks = created-IsSound calculator names 0 satellites a h;
          requests = tt;
        })
        reach
