-- ===== src/Chaos.antt =====
-- scripts/chaos_monkey.py: class ChaosMonkey, which stops the database for a while and looks whether
-- the write-ahead log of the service is empty afterwards. Docker and the service are a parameter.
pub mod Laws
pub mod Stats
use space_project.Base.{
  ℕ, zero, suc, ◌+◌, Bool, true, false, Option, none, some, ◌==◌, if◌then◌else◌,
}
use space_project.Base.Int.{ℤ, pos, negsuc}

-- What the health endpoint answers: `raise_for_status`, the request or the JSON raised, or an
-- object that has a `wal_record_count` or has none.
pub data HealthAnswer : Type 0 where
  request_failed : HealthAnswer
  answered : (wal_record_count : Option ℕ) → HealthAnswer

-- "orbitstream-timescaledb" and "orbitstream-go-service".
pub data Container : Type 0 where
  timescaledb go_service : Container

-- What a search for a container gives; `failed` is another exception than `NotFound`.
pub data Found : Type 0 where
  found not_found failed : Found

-- `exec_run` raised, or there are an exit code and what `int` makes of the output.
pub data ExecAnswer : Type 0 where
  exec_failed : ExecAnswer
  exited : (exit_code : ℕ) (number : Option ℕ) → ExecAnswer

-- Docker with the two containers and the service, in a state `W`: each call changes it, and
-- `false` is an exception.
pub record Environment (W : Type 0) : Type 0 where
  -- `containers.get`
  pub get_container : Container → W → Found
  pub health : W → HealthAnswer × W
  -- The `SELECT COUNT(*)` in the container.
  pub count_telemetry : W → ExecAnswer × W
  pub stop_db : W → Bool × W
  pub start_db : W → Bool × W
  -- `time.sleep`, which raises for a negative number of seconds.
  pub sleep : ℕ → W → W

-- `health.get("wal_record_count", 0)`; a failed request gives the empty dict.
abbrev pub wal_count : HealthAnswer → ℕ
wal_count request_failed = 0
wal_count (answered none) = 0
wal_count (answered (some n)) = n

-- `get_db_telemetry_count`, of which only the log shows the result.
abbrev telemetry_count : ExecAnswer → ℕ
telemetry_count exec_failed = 0
telemetry_count (exited exit_code none) = 0
telemetry_count (exited exit_code (some n)) = if exit_code == 0 then n else 0

-- What leaves a method: a value, or an exception.
pub data Outcome (A : Type 0) : Type 0 where
  returned : A → Outcome A
  raised : Outcome A

module _ {W : Type 0} (env : Environment W) where
  unfoldable pub get_wal_record_count : W → ℕ × W
  get_wal_record_count w = let (answer, w') = env.health w in (wal_count answer, w')

  unfoldable pub get_db_telemetry_count : W → ℕ × W
  get_db_telemetry_count w =
      let (answer, w') = env.count_telemetry w in (telemetry_count answer, w')

  abbrev both_found : Found → Found → Outcome Bool
  both_found not_found go = returned false
  both_found failed go = raised
  both_found found found = returned true
  both_found found not_found = returned false
  both_found found failed = raised

  unfoldable pub setup : W → Outcome Bool
  setup w = both_found (env.get_container timescaledb w) (env.get_container go_service w)

  -- The end of `kill_db`, with the database started again.
  unfoldable pub measure_after : ℕ → W → Outcome (ℕ × ℕ) × W
  unfolding get_wal_record_count get_db_telemetry_count
  measure_after before w =
      let (after, w₁) = get_wal_record_count (env.sleep 20 w) in
      (returned (before, after), (get_db_telemetry_count w₁).1)

  -- The outage, from the stopped database on; a negative duration raises in `time.sleep`.
  unfoldable pub outage : ℕ → ℤ → W → Outcome (ℕ × ℕ) × W
  unfolding measure_after
  outage before (negsuc _) w = (raised, (env.health (env.sleep 2 w)).1)
  outage before (pos seconds) w =
      let down = env.sleep seconds (env.health (env.sleep 2 w)).1 in
      let (started, w₁) = env.start_db down in
      if started then measure_after before w₁ else (raised, w₁)

  unfoldable pub kill_db : ℤ → W → Outcome (ℕ × ℕ) × W
  unfolding get_wal_record_count get_db_telemetry_count outage
  kill_db duration_seconds w =
      let (before, w₁) = get_wal_record_count w in
      let (stopped, w₂) = env.stop_db (get_db_telemetry_count w₁).1 in
      if stopped then outage before duration_seconds w₂ else (raised, w₂)

  -- The test of the result.
  abbrev pub verdict : Outcome (ℕ × ℕ) × W → Outcome Bool × W
  verdict (raised, w) = (raised, w)
  verdict (returned (before, after), w) = (returned (after == 0), w)

  unfoldable pub run_chaos_test : ℤ → W → Outcome Bool × W
  unfolding kill_db setup
  run_chaos_test outage_duration w = elim (setup w) [
    | returned true ↦ verdict (kill_db outage_duration w)
    | returned false ↦ (returned false, w)
    | raised ↦ (raised, w)
  ]

  -- The exit status of the script; an exception that nothing catches gives 1 too.
  abbrev pub exit_code : Outcome Bool × W → ℕ × W
  exit_code (returned true, w) = (0, w)
  exit_code (returned false, w) = (1, w)
  exit_code (raised, w) = (1, w)

  -- `main` with its first argument, if there is one, as `int` reads it.
  unfoldable pub main : Option (Option ℤ) → W → ℕ × W
  unfolding run_chaos_test
  main none w = exit_code (run_chaos_test (pos 10) w)
  main (some none) w = (1, w)
  main (some (some duration)) w = exit_code (run_chaos_test duration w)
