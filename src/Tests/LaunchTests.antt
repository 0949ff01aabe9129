-- ===== src/Tests/LaunchTests.antt =====
-- The theorem on the launch of a swarm, for two satellites.
use space_project.Base.{[], ℕ, map, length, refl, ◌≡◌, ◌≢◌, true, false, none, some, arith, All}
use space_project.Base.Text.{codes, text_eq, is_space}
use space_project.Base.Int.{pos}
use space_project.Float.Cents.{Cents, cents_float, Cents-IsFloat}
use space_project.Tle.Parse.{parse_download}
use space_project.Tle.Manager.{
  is_cache_valid, load_tle_data, saved, ok, is_error_status, save_to_cache,
}
use space_project.Tle.Manager.Names.{choose_names, get_real_satellite_names}
use space_project.Position.Calculator.{new_calculator, find_satellite, as_lookup}
use space_project.Simulation.{Swarm}
use space_project.Simulation.Start.{start, make_satellites, swarm_satellites}
use space_project.Simulation.Schedule.{stop, here, next}
use space_project.Simulation.Safety.{IsSafe}
use space_project.Telemetry.Generate.{new_generator}
use space_project.Simulation.Start.Laws.{HaveDistinctIds}
use space_project.Simulation.Main.{Arguments, config_of}
use space_project.Simulation.Main.Begin.{main_begin, main_begin_starts, main_begin-IsSafe}
use space_project.Simulation.Launch.{
  create_position_manager, load_satellite_names, new_manager, Surroundings, new_swarm,
}
use space_project.Simulation.Launch.Laws.{new_swarm_tracks}
use space_project.Tests.Data.{low_rng, low_rng-IsRng, two_records, empty_disk, good_day, flat_sky}
use space_project.Tests.TleTests.{next_day, two_records_crs, not_valid}
use space_project.Tests.SwarmTests.{small_config}

abbrev pub two_days : Surroundings
two_days = record { first = good_day; has_timescale = true; second = next_day }

new_swarm_tracks_example :
    (new_swarm flat_sky low_rng two_days small_config empty_disk
      ≡ ok (
        swarm_satellites low_rng small_config
            (some (as_lookup flat_sky (new_calculator flat_sky (parse_download two_records))))
            (choose_names 2 (parse_download two_records)),
        save_to_cache 2000 saved
            (record new_manager { tle_cache = parse_download two_records })
            empty_disk,
      ))
    × All
        (λ name.
          find_satellite flat_sky (new_calculator flat_sky (parse_download two_records)) name
          ≢ none)
        (choose_names 2 (parse_download two_records))
unfolding is_error_status parse_download is_space text_eq
new_swarm_tracks_example =
    new_swarm_tracks flat_sky low_rng two_days small_config empty_disk 200 two_records
      (not_valid false) refl refl two_records_crs refl refl refl (omega arith)
      ((λ e. cc), ((λ e. cc), tt))

abbrev pub two_satellites : Arguments Cents
two_satellites = record {
  satellites = 2;
  rate = pos 100;
  api_url = codes "http://localhost:8080";
  duration = pos 60;
  anomaly_rate = some (pos 1);
}

main_begin_starts_example :
    (u : Swarm Cents ℕ ℕ) × (main_begin flat_sky low_rng two_days two_satellites empty_disk 0 0
      ≡ some u)
    × (length u.tasks ≡ 2)
    × HaveDistinctIds (map (λ task. task.satellite) u.tasks)
main_begin_starts_example =
    main_begin_starts flat_sky low_rng Cents-IsFloat low_rng-IsRng two_days two_satellites
      empty_disk 0 0 refl

-- The swarm that is started, and the same after the signal to stop.
abbrev begun : Swarm Cents ℕ ℕ
begun = elim (main_begin flat_sky low_rng two_days two_satellites empty_disk 0 0) [
  | none ↦ start small_config 0 0 []
  | some u ↦ u
]

abbrev told_to_stop : Swarm Cents ℕ ℕ
told_to_stop = record begun {
  shared = record (begun.shared) { config = record (begun.shared.config) { running = false } };
}

main_begin-IsSafe_example : IsSafe told_to_stop
unfolding main_begin new_swarm load_satellite_names create_position_manager load_tle_data
    is_cache_valid get_real_satellite_names save_to_cache swarm_satellites make_satellites config_of
    new_generator start
main_begin-IsSafe_example =
    main_begin-IsSafe flat_sky low_rng Cents-IsFloat low_rng-IsRng two_days two_satellites
      empty_disk 0 0 begun refl refl refl (refl, (refl, tt)) (next here (stop begun))
