-- ===== src/Simulation/Main/Laws.antt =====
-- What the end of `main` reports, and what it stops.
use space_project.Base.{
  ℕ, ◌-◌, ◌+◌, ◌*◌, ◌≤◌, ◌<◌, ◌≡◌, ◌≢◌, refl, ap, ◌∙◌, false, some, List, arith, length, ◌==◌, ltb,
  Bool-cases, inl, inr,
}
use space_project.Base.Int.{pos}
use space_project.Float.{Float, IsFloat, ◌≼◌}
use space_project.Telemetry.Random.{Rng}
use space_project.Simulation.{SimulatorConfig, Stats, Satellite, Shared, Swarm}
use space_project.Simulation.Start.{start}
use space_project.Simulation.Start.Run.{start-Reach-IsCounted}
use space_project.Simulation.Schedule.{Reach}
use space_project.Simulation.Stop.{turns, Reach-stopped}
use space_project.Simulation.Main.{
  Division, Report, Ending, success_rate, make_report, main_end, is_handled,
}

-- What holds of division: a part is from 0 to 100 percent.
pub record IsDivision {F : Type 0} ⦃f : Float F⦄ (division : Division F) : Type 0 where
  pub percent_bounds :
      (a b : ℕ)
      → a ≤ b
      → 0 < b
      → (f.of_int (pos 0) ≼ division.percent a b) × (division.percent a b ≼ f.of_int (pos 100))

module _ {F : Type 0} ⦃f : Float F⦄ (division : Division F) where
  main_end_reported :
      {S : Type 0} (ending : Ending) (now : ℕ) (shared : Shared F S) (report : Report F)
      → make_report division now shared.stats ≡ some report
      → main_end division ending now shared ≡ (
        some report,
        is_handled ending,
        record shared { config = record (shared.config) { running = false } },
      )
  unfolding main_end
  main_end_reported ending now shared report e = rw (e, main_end) refl

  -- The figures fit together.
  pub record IsConsistent (report : Report F) : Type 0 where
    pub total : report.total_sent ≡ report.success + report.errors
    pub rate_low : f.of_int (pos 0) ≼ report.success_rate
    pub rate_high : report.success_rate ≼ f.of_int (pos 100)

  module _ (laws : IsFloat F) (divides : IsDivision division) where
    success_rate-bounds :
        (stats : Stats)
        → stats.success ≤ stats.total_sent
        → (f.of_int (pos 0) ≼ success_rate division stats)
          × (success_rate division stats ≼ f.of_int (pos 100))
    unfolding success_rate
    success_rate-bounds stats h = elim (Bool-cases (ltb 0 stats.total_sent)) [
      | inl e ↦ rw e (divides.percent_bounds stats.success stats.total_sent h (ground arith))
      | inr e ↦ rw e (
        laws.of_int_mono (pos 0) (pos 0) (omega arith),
        laws.of_int_mono (pos 0) (pos 100) (omega arith),
      )
    ]

    make_report-IsConsistent :
        (now : ℕ) (stats : Stats)
        → stats.start_time ≢ now
        → stats.total_sent ≡ stats.success + stats.errors
        → (report : Report F) × (make_report division now stats ≡ some report) × IsConsistent report
    unfolding make_report
    make_report-IsConsistent now stats ne h =
        let later : (now == stats.start_time) ≡ false = ground arith in
        let bounds = success_rate-bounds stats (omega arith) in
        let report : Report F = record {
          total_sent = stats.total_sent;
          success = stats.success;
          errors = stats.errors;
          throughput = division.quotient stats.total_sent (now - stats.start_time);
          success_rate = success_rate division stats;
        } in
        (report, rw later refl, record { total = h; rate_low = bounds.0; rate_high = bounds.1 })

    -- The end of a run of a new swarm, at any point, if time has passed since its start: `main`
    -- reports a total that is that of successes and errors, and a rate from 0 to 100 percent, and
    -- returns unless another exception than its interrupt and its time limit ended the run; and
    -- whatever coroutines are left make no more requests, and all together run at most four times as
    -- often as there are coroutines.
    pub main_end_stops :
        {T S : Type 0} (r : Rng F S) (config : SimulatorConfig F) (begun now : ℕ) (rng : S)
        → (satellites : List (Satellite F T)) (ending : Ending) {u v : Swarm F T S}
        → Reach r (start config begun rng satellites) u
        → u.shared.stats.start_time ≢ now
        → (rest : Reach r (record u { shared = (main_end division ending now u.shared).2 }) v)
        → let (reported, returns, _) = main_end division ending now u.shared in
          ((report : Report F) × (reported ≡ some report) × IsConsistent report)
          × (returns ≡ is_handled ending)
          × (v.shared.requests ≡ u.shared.requests)
          × (turns r rest ≤ 4 * length u.tasks)
    main_end_stops r config begun now rng satellites ending {u} {v} reach ne rest =
        let counted = (start-Reach-IsCounted r config begun rng satellites reach).0 in
        let (report, e, consistent) = make_report-IsConsistent now u.shared.stats ne counted in
        let ended = main_end_reported ending now u.shared report e in
        let (_, requests, bound) = Reach-stopped r rest (ap (λ m. m.2.config.running) ended) in
        (
          (report, ap (λ m. m.0) ended, consistent),
          ap (λ m. m.1) ended,
          requests ∙ ap (λ m. m.2.requests) ended,
          bound,
        )
