-- ===== src/Chaos/Laws.antt =====
-- When the chaos test passes, and what it leaves behind.
use space_project.Base.{Option, none, some, ℕ, ◌≡◌, refl, ap, ◌∙◌, Bool, true, false}
use space_project.Base.Int.{ℤ, pos, negsuc}
use space_project.Chaos.{
  request_failed, Environment, Outcome, returned, raised, get_wal_record_count, measure_after,
  outage, kill_db, setup, exit_code, main, get_db_telemetry_count, run_chaos_test,
}

-- Docker, seen from the database: stopping and starting do what they say if they do not raise, and
-- no other call stops or starts it.
pub record IsDocker {W : Type 0} (env : Environment W) (is_up : W → Bool) : Type 0 where
  pub stops : (w : W) → (env.stop_db w).0 ≡ true → is_up (env.stop_db w).1 ≡ false
  pub starts : (w : W) → (env.start_db w).0 ≡ true → is_up (env.start_db w).1 ≡ true
  pub health : (w : W) → is_up (env.health w).1 ≡ is_up w
  pub count : (w : W) → is_up (env.count_telemetry w).1 ≡ is_up w
  pub sleep : (seconds : ℕ) (w : W) → is_up (env.sleep seconds w) ≡ is_up w

-- Whether a method returned, and did not raise.
abbrev pub has_returned : {A : Type 0} → Outcome A → Bool
has_returned (returned _) = true
has_returned raised = false

module _ {W : Type 0} (env : Environment W) where
  -- No answer of the health endpoint counts as an empty log: a test in which Docker finds, stops and
  -- starts the containers passes if the service never answers.
  pub run_chaos_test_silent :
      (seconds : ℕ) (w : W)
      → ((v : W) → (env.health v).0 ≡ request_failed)
      → setup env w ≡ returned true
      → ((v : W) → (env.stop_db v).0 ≡ true)
      → ((v : W) → (env.start_db v).0 ≡ true)
      → (run_chaos_test env (pos seconds) w).0 ≡ returned true
  unfolding run_chaos_test kill_db outage measure_after get_wal_record_count get_db_telemetry_count
  run_chaos_test_silent seconds w h f s t = rw (f, s, t, h, run_chaos_test) refl

module _ {W : Type 0} (env : Environment W) (is_up : W → Bool) (docker : IsDocker env is_up) where
  exit_code-world : (out : Outcome Bool × W) → (exit_code env out).1 ≡ out.1
  exit_code-world (returned true, w) = refl
  exit_code-world (returned false, w) = refl
  exit_code-world (raised, w) = refl

  -- The argument is missing, is no number, or is a number that is not negative.
  abbrev pub IsDuration : Option (Option ℤ) → Type 0
  IsDuration none = Unit
  IsDuration (some none) = Unit
  IsDuration (some (some (pos seconds))) = Unit
  IsDuration (some (some (negsuc k))) = ⊥

  -- A negative duration stops the database and raises before it is started again.
  run_chaos_test_negative :
      (k : ℕ) (w : W)
      → setup env w ≡ returned true
      → ((v : W) → (env.stop_db v).0 ≡ true)
      → (has_returned (run_chaos_test env (negsuc k) w).0 ≡ false)
        × (is_up (run_chaos_test env (negsuc k) w).1 ≡ false)
  unfolding run_chaos_test kill_db outage get_wal_record_count get_db_telemetry_count
  run_chaos_test_negative k w f s =
      let w₂ : W = (env.stop_db (env.count_telemetry (env.health w).1).1).1 in
      rw (f, s, run_chaos_test)
        (refl, rw (docker.health (env.sleep 2 w₂), docker.sleep 2 w₂) (docker.stops _ (s _)))

  exit_code_raised :
      (out : Outcome Bool × W) → has_returned out.0 ≡ false → (exit_code env out).0 ≡ 1
  exit_code_raised (returned _, w) h = absurd cc
  exit_code_raised (raised, w) h = refl

  -- The script ends with the status 1 then, as for a test that failed, and the database is down.
  main_negative :
      (k : ℕ) (w : W)
      → setup env w ≡ returned true
      → ((v : W) → (env.stop_db v).0 ≡ true)
      → ((main env (some (some (negsuc k))) w).0 ≡ 1)
        × (is_up (main env (some (some (negsuc k))) w).1 ≡ false)
  unfolding main
  main_negative k w f s =
      let (raises, down) = run_chaos_test_negative k w f s in
      (
        exit_code_raised (run_chaos_test env (negsuc k) w) raises,
        ap is_up (exit_code-world (run_chaos_test env (negsuc k) w)) ∙ down,
      )
