-- ===== src/Simulation/Main.antt =====
-- `main` of satellite_sim.py, from the parsed arguments on, and the coroutine that reports the
-- statistics.
pub mod Laws
pub mod Begin
use space_project.Base.{
  ℕ, ◌-◌, Bool, true, false, Option, none, some, List, [], ◌∷◌, if◌then◌else◌, ◌==◌, ltb,
}
use space_project.Base.Int.{ℤ, pos}
use space_project.Base.Text.{Text}
use space_project.Float.{Float}
use space_project.Simulation.{SimulatorConfig, Stats, Shared}

-- The options, where the number of satellites is not negative.
pub record Arguments (F : Type 0) : Type 0 where
  pub satellites : ℕ
  pub rate : ℤ
  pub api_url : Text
  pub duration : ℤ
  pub anomaly_rate : F

unfoldable pub config_of : {F : Type 0} → Arguments F → SimulatorConfig F
config_of args = record {
  num_satellites = args.satellites;
  points_per_second_per_satellite = args.rate;
  api_url = args.api_url;
  duration_seconds = args.duration;
  max_connections = 1000;
  max_connections_per_host = 500;
  anomaly_rate = args.anomaly_rate;
  running = true;
}

-- Python's `a / b` and `a / b * 100`, where `b` is not 0.
pub record Division (F : Type 0) : Type 0 where
  pub quotient : ℕ → ℕ → F
  pub percent : ℕ → ℕ → F

-- The figures of a report.
pub record Report (F : Type 0) : Type 0 where
  pub total_sent : ℕ
  pub success : ℕ
  pub errors : ℕ
  pub throughput : F
  pub success_rate : F

-- How the `try` block of `main` ends.
pub data Ending : Type 0 where
  returned keyboard_interrupt timeout_error other_error : Ending

abbrev pub is_handled : Ending → Bool
is_handled other_error = false
is_handled _ = true

-- How a coroutine that reports is left.
pub data Reporter : Type 0 where
  asleep finished raised : Reporter

module _ {F : Type 0} ⦃f : Float F⦄ (division : Division F) where
  unfoldable pub success_rate : Stats → F
  success_rate stats =
      if ltb 0 stats.total_sent
      then division.percent stats.success stats.total_sent
      else f.of_int (pos 0)

  -- The figures at the time `now`, on a clock that does not go back; `none` is the
  -- `ZeroDivisionError` of the throughput.
  unfoldable pub make_report : (now : ℕ) → Stats → Option (Report F)
  make_report now stats =
      if now == stats.start_time
      then none
      else some (record {
        total_sent = stats.total_sent;
        success = stats.success;
        errors = stats.errors;
        throughput = division.quotient stats.total_sent (now - stats.start_time);
        success_rate = success_rate stats;
      })

  -- `report_stats`: for each round, whether the test of its loop holds, and the time and the
  -- statistics after its pause. The reports, and how it is left.
  unfoldable report_stats : List (Bool × ℕ × Stats) → List (Report F) × Reporter
  report_stats [] = ([], asleep)
  report_stats ((running, now, stats) ∷ rounds) =
      let (reports, reporter) = report_stats rounds in
      if running
      then elim (make_report now stats) [
        | none ↦ ([], raised)
        | some report ↦ (report ∷ reports, reporter)
      ]
      else ([], finished)

  -- The end of `main`: the report of the `finally` block, whether `main` returns, and the shared
  -- state.
  unfoldable pub main_end :
      {S : Type 0} → Ending → (now : ℕ) → Shared F S → Option (Report F) × Bool × Shared F S
  main_end {S = S} ending now shared =
      let shared' : Shared F S = record shared {
        config = record (shared.config) { running = false };
      } in
      elim (make_report now shared.stats) [
        | none ↦ (none, false, shared')
        | some report ↦ (some report, is_handled ending, shared')
      ]
