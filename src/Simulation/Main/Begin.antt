-- ===== src/Simulation/Main/Begin.antt =====
-- `main` of satellite_sim.py up to its `try` block, and the swarm that it starts there.
use space_project.Base.{
  ℕ, ◌≡◌, refl, sym, ap, ◌∙◌, true, Option, none, some, List, map, length, All, [], ◌∷◌, suc,
}
use mathlib.Core.Path.{subst}
use space_project.Float.{Float, IsFloat}
use space_project.Tle.Manager.{Disk, Result, ok, raised, saved}
use space_project.Position.Skyfield.{Skyfield}
use space_project.Base.Text.{Text}
use space_project.Telemetry
use space_project.Telemetry.Random.{Rng, IsRng}
use space_project.Telemetry.Action.{Action}
use space_project.Telemetry.Invariant.Returns.{HasScale}
use space_project.Simulation.{SimulatorConfig, Satellite, created, Task, Swarm}
use space_project.Simulation.Send.{has_interval}
use space_project.Simulation.Start.{start, swarm_satellites, get_satellite_names}
use space_project.Simulation.Start.Laws.{AreNumbered, HaveDistinctIds, swarm_satellites_lem}
use space_project.Simulation.Start.Run.{start-Reach-IsSafe}
use space_project.Simulation.Schedule.{Reach}
use space_project.Simulation.Safety.{IsSafe}
use space_project.Simulation.Launch.{Surroundings, lookup_of, new_swarm}
use space_project.Simulation.Launch.Returns.{new_swarm_returns}
use space_project.Simulation.Main.{Arguments, config_of}

module _ {F T : Type 0} where
  -- The coroutines that `start` makes.
  abbrev tasks_of : List (Satellite F T) → List (Task F T)
  tasks_of = map (λ satellite. record { satellite = satellite; place = created })

  tasks-length :
      (satellites : List (Satellite F T)) → length (tasks_of satellites) ≡ length satellites
  tasks-length [] = refl
  tasks-length (s ∷ satellites) = ap suc (tasks-length satellites)

  tasks-satellites :
      (satellites : List (Satellite F T))
      → map (λ task. task.satellite) (tasks_of satellites) ≡ satellites
  tasks-satellites [] = refl
  tasks-satellites (s ∷ satellites) = ap (λ rest. s ∷ rest) (tasks-satellites satellites)

  scales_back :
      ⦃f : Float F⦄ (satellites : List (Satellite F T))
      → All (λ task. HasScale task.satellite.generator) (tasks_of satellites)
      → All (λ s. HasScale s.generator) satellites
  scales_back [] h = tt
  scales_back (s ∷ satellites) h = (h.0, scales_back satellites h.1)

start_scales :
    {F T S : Type 0} ⦃f : Float F⦄ (config : SimulatorConfig F) (now : ℕ) (rng : S)
    (satellites : List (Satellite F T))
    → All (λ task. HasScale task.satellite.generator) (start config now rng satellites).tasks
    → All (λ s. HasScale s.generator) satellites
unfolding start
start_scales config now rng satellites h = scales_back satellites h

module _ {F S : Type 0} ⦃f : Float F⦄ (sky : Skyfield F) (r : Rng F S) where
  open sky use {Datetime}

  abbrev started :
      Arguments F
      → (now : ℕ) → Option (List (Satellite F Datetime)) × S
      → Option (Swarm F Datetime S)
  started args now (none, rng) = none
  started args now (some satellites, rng) = some (start (config_of args) now rng satellites)

  abbrev constructed :
      Arguments F
      → (now : ℕ) → S
      → Result (Action S (List (Satellite F Datetime)) × Disk)
      → Option (Swarm F Datetime S)
  constructed args now rng (raised e) = none
  constructed args now rng (ok (action, disk)) = started args now (action rng)

  -- The swarm when `start` has made its coroutines; `none` is an exception of the constructor.
  unfoldable pub main_begin :
      Surroundings → Arguments F → Disk → (now : ℕ) → S → Option (Swarm F Datetime S)
  main_begin out args disk now rng =
      constructed args now rng (new_swarm sky r out (config_of args) disk)

  module _ (laws : IsFloat F) (random : IsRng r) where
    -- What `main` starts, with what the start depends on.
    record Launched (args : Arguments F) (now : ℕ) (out : Option (Swarm F Datetime S))
        : Type 0 where
      rng : S
      calculator : Option (Telemetry.Calculator F Datetime)
      names : List Text
      satellites : List (Satellite F Datetime)
      starts : out ≡ some (start (config_of args) now rng satellites)
      count : length satellites ≡ args.satellites
      numbered : AreNumbered calculator names 0 satellites
      distinct : HaveDistinctIds satellites

    main_begin-Launched :
        (out : Surroundings) (args : Arguments F) (disk : Disk) (now : ℕ) (rng : S)
        → out.first.save ≡ saved
        → Launched args now (main_begin out args disk now rng)
    unfolding main_begin config_of
    main_begin-Launched out args disk now rng w =
        let config = config_of args in
        let (calculator, names, disk', made) = new_swarm_returns sky r out config disk w in
        let lookup = lookup_of sky calculator in
        let (satellites, e, n, numbered, distinct) =
          swarm_satellites_lem laws r random config lookup names rng in
        let rng' = (swarm_satellites r config lookup names rng).1 in
        record {
          rng = rng';
          calculator = lookup;
          names = get_satellite_names lookup names;
          satellites = satellites;
          starts = ap (constructed args now rng) made ∙ ap (λ o. started args now (o, rng')) e;
          count = n;
          numbered = numbered;
          distinct = distinct;
        }

    -- `main`, on any files of the cache, with any answers of Celestrak and any draws, when the
    -- first of its two loads can save what it downloads, comes to its `try` block, with a coroutine
    -- for each of the satellites that the arguments ask for, no two with the same id.
    pub main_begin_starts :
        (out : Surroundings) (args : Arguments F) (disk : Disk) (now : ℕ) (rng : S)
        → out.first.save ≡ saved
        → (u : Swarm F Datetime S) × (main_begin out args disk now rng ≡ some u)
          × (length u.tasks ≡ args.satellites)
          × HaveDistinctIds (map (λ task. task.satellite) u.tasks)
    unfolding start
    main_begin_starts out args disk now rng w =
        let l = main_begin-Launched out args disk now rng w in
        (
          start (config_of args) now l.rng l.satellites,
          l.starts,
          tasks-length l.satellites ∙ l.count,
          subst HaveDistinctIds (sym (tasks-satellites l.satellites)) l.distinct,
        )

    -- The swarm that `main` starts, with a rate that is not 0 and when the first of its two loads
    -- can save what it downloads, on any files of the cache and with any answers of Celestrak: if
    -- the signal walks were drawn with scales of 0 or more, then in every state that the swarm may
    -- reach, in any order of its coroutines, replies, exceptions of requests and cancellations, no
    -- exception of its own has ended a coroutine, every satellite is in range, and so is every
    -- request that was made.
    pub main_begin-IsSafe :
        (out : Surroundings) (args : Arguments F) (disk : Disk) (now : ℕ) (rng : S)
        → (u : Swarm F Datetime S) {v : Swarm F Datetime S} → out.first.save ≡ saved
        → has_interval (config_of args) ≡ true
        → main_begin out args disk now rng ≡ some u
        → All (λ task. HasScale task.satellite.generator) u.tasks
        → Reach r u v
        → IsSafe v
    main_begin-IsSafe out args disk now rng u {v} w rate e scales reach =
        let l = main_begin-Launched out args disk now rng w in
        let is_start = l.starts in
        let same : u ≡ start (config_of args) now l.rng l.satellites = cc in
        start-Reach-IsSafe laws r random (config_of args) l.calculator l.names now l.rng
          l.satellites rate l.numbered
          (start_scales (config_of args) now l.rng l.satellites
            (subst (λ t. All (λ task. HasScale task.satellite.generator) t.tasks) same scales))
          (subst (λ t. Reach r t v) same reach)
