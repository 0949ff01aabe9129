-- ===== src/Tests/SwarmTests.antt =====
-- The theorems on the swarm, at a swarm of two satellites.
use space_project.Base.{
  arith, ◌/◌, ltb, if◌then◌else◌, ℕ, refl, ◌≡◌, ◌≤◌, ◌*◌, true, none, some, List, [], ◌∷◌, length,
}
use space_project.Base.Int.{pos, ◌+ℤ◌, ◌-ℤ◌}
use space_project.Base.Text.{codes}
use space_project.Float.{py_max, clamp}
use space_project.Float.Cents.{Cents, cents_float, Cents-IsFloat}
use space_project.Telemetry.Generate.{
  generate_telemetry, generate_normal, update_battery, update_storage, update_signal, transmit,
  charge, add_position, tracked, get_current_position, remember,
}
use space_project.Simulation.{
  SimulatorConfig, Satellite, status, Place, created, at_test, Task, Shared, Swarm,
}
use space_project.Simulation.Send.{
  count_result, send_result, start_task, begin_round, end_round, prepare,
}
use space_project.Simulation.Start.{start}
use space_project.Simulation.Start.Run.{start-Reach-IsCounted}
use space_project.Simulation.Schedule.{starts, begins, ends, turn, Reach, here, next}
use space_project.Simulation.Counts.{IsCounted}
use space_project.Simulation.Stop.{turns}
use space_project.Simulation.Main.{Division, Report, timeout_error, main_end}
use space_project.Simulation.Main.Laws.{IsDivision, IsConsistent, main_end_stops}
use space_project.Tests.Data.{low_rng, iss_generator}

abbrev pub small_config : SimulatorConfig Cents
small_config = record {
  num_satellites = 2;
  points_per_second_per_satellite = pos 100;
  api_url = codes "http://localhost:8080";
  duration_seconds = pos 60;
  max_connections = 1000;
  max_connections_per_host = 500;
  anomaly_rate = some (pos 1);
  running = true;
}

abbrev iss : Satellite Cents ℕ
iss = record { id = codes "SAT-0001"; generator = iss_generator }

abbrev second : Satellite Cents ℕ
second = record {
  id = codes "SAT-0002";
  generator = record iss_generator { satellite_name = none };
}

abbrev pair : List (Satellite Cents ℕ)
pair = iss ∷ second ∷ []

abbrev task_of : Satellite Cents ℕ → Place → Task Cents ℕ
task_of satellite place = record { satellite = satellite; place = place }

abbrev new_shared : Shared Cents ℕ
new_shared = record {
  config = small_config;
  stats = record { total_sent = 0; success = 0; errors = 0; start_time = 0 };
  rng = 0;
  requests = [];
}

-- The shared state and the task after the request of the first satellite, and after its reply.
abbrev asked : Shared Cents ℕ × Task Cents ℕ
asked = begin_round low_rng 0 (codes "now") new_shared iss

abbrev answered : Shared Cents ℕ × Task Cents ℕ
answered = end_round (status 202) asked.0 asked.1.satellite

abbrev end_state : Swarm Cents ℕ ℕ
end_state = record { shared = answered.0; tasks = answered.1 ∷ task_of second created ∷ [] }

-- The first satellite starts, makes a request, and gets its reply.
one_round : Reach low_rng (start small_config 0 0 pair) end_state
unfolding start start_task begin_round end_round prepare generate_telemetry generate_normal
    update_battery update_storage update_signal transmit charge add_position py_max clamp ◌+ℤ◌ ◌-ℤ◌
    tracked get_current_position remember
one_round =
    next
      (next
        (next here (
          turn [] (task_of second created ∷ []) (task_of iss created) (task_of iss at_test)
            new_shared new_shared starts))
        (turn [] (task_of second created ∷ []) (task_of iss at_test) asked.1 new_shared asked.0
          (begins 0 (codes "now"))))
      (turn [] (task_of second created ∷ []) asked.1 answered.1 asked.0 answered.0
        (ends (status 202)))

start-Reach-IsCounted_example : IsCounted end_state
start-Reach-IsCounted_example = start-Reach-IsCounted low_rng small_config 0 0 pair one_round

-- Percents as whole hundredths.
abbrev percent_of : ℕ → ℕ → ℕ
percent_of a b = let q = a * 10_000 / b in if ltb 10_000 q then 10_000 else q

abbrev cents_division : Division Cents
cents_division = record {
  quotient = λ a b. some (pos (a * 100 / b));
  percent = λ a b. some (pos (percent_of a b));
}

percent_of-le : (a b : ℕ) → percent_of a b ≤ 10_000
percent_of-le a b = ground arith

cents_division-IsDivision : IsDivision cents_division
cents_division-IsDivision = record {
  percent_bounds = λ a b h k. (ground arith, ground (arith, percent_of-le a b));
}

abbrev ended : Swarm Cents ℕ ℕ
ended = record end_state { shared = (main_end cents_division timeout_error 60 end_state.shared).2 }

end_state_time : end_state.shared.stats.start_time ≡ 0
unfolding start start_task begin_round end_round prepare generate_telemetry generate_normal
    update_battery update_storage update_signal transmit charge add_position py_max clamp ◌+ℤ◌ ◌-ℤ◌
    tracked get_current_position remember count_result send_result
end_state_time = refl

no_turns : Reach low_rng ended ended
no_turns = here

main_end_stops_example :
    ((report : Report Cents) × ((main_end cents_division timeout_error 60 end_state.shared).0
        ≡ some report)
      × IsConsistent cents_division report)
    × ((main_end cents_division timeout_error 60 end_state.shared).1 ≡ true)
    × (ended.shared.requests ≡ end_state.shared.requests)
    × (turns low_rng no_turns ≤ 4 * length end_state.tasks)
main_end_stops_example =
    main_end_stops cents_division Cents-IsFloat cents_division-IsDivision low_rng small_config 0 60
      0 pair timeout_error one_round (λ e. absurd (omega (arith, e, end_state_time))) no_turns
