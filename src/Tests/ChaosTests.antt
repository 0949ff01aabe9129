-- ===== src/Tests/ChaosTests.antt =====
-- The theorems on the chaos test, at a Docker that does what it is told.
use space_project.Base.{◌≡◌, refl, Bool, true, false}
use space_project.Base.Int.{pos}
use space_project.Chaos.{
  request_failed, exec_failed, Found, Environment, returned, run_chaos_test, setup,
}
use space_project.Chaos.Laws.{run_chaos_test_silent}

-- The state says whether the database is up; the service never answers.
abbrev mute_docker : Environment Bool
mute_docker = record {
  get_container = λ container w. Found.found;
  health = λ w. (request_failed, w);
  count_telemetry = λ w. (exec_failed, w);
  stop_db = λ w. (true, false);
  start_db = λ w. (true, true);
  sleep = λ seconds w. w;
}

run_chaos_test_silent_example : (run_chaos_test mute_docker (pos 10) true).0 ≡ returned true
unfolding setup
run_chaos_test_silent_example =
    run_chaos_test_silent mute_docker 10 true (λ v. refl) refl (λ v. refl) (λ v. refl)
