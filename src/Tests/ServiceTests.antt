-- ===== src/Tests/ServiceTests.antt =====
-- The theorems on the limits, the configuration and the end of the ingestion service, at small
-- inputs.
use space_project.Base.{
  ℕ, zero, suc, ◌+◌, ◌-◌, ◌*◌, ◌≤◌, ◌<◌, ◌≡◌, ◌≢◌, ◌↔◌, ◌⊎◌, refl, true, false, Option, none, some,
  List, [], ◌∷◌, arith,
}
use space_project.Base.Int.{ℤ, pos, ◌≤ℤ◌}
use Prim.Native.Nat.{◌^◌}
use space_project.Base.Text.{Text, codes}
use space_project.Float.Cents.{Cents, cents_float}
use space_project.Ingest.{Row, row_of_point, row_of_record}
use space_project.Ingest.Wal.{new_wal, close}
use space_project.Ingest.Batch.{marked}
use space_project.Ingest.Batch.Backoff.{magnitude, delay, pauses, pauses_bounds}
use space_project.Ingest.Config.{atoi, load_config, start_processor}
use space_project.Ingest.Config.Laws.{IsBadSize, start_processor-load_config}
use space_project.Ingest.Monitor.{idle}
use space_project.Ingest.System.Bounds.{IsBounded, Reaches-IsBounded}
use space_project.Ingest.System.Bounds.Pending.{HasPending, pending_unbounded}
use space_project.Ingest.System.Conserves.{Conserves}
use space_project.Ingest.Shutdown.{
  at_signal, at_monitor_stop, at_monitor_wait, at_processor_stop, at_log_close, at_server_shutdown,
  exited, panicked, Process, process_of, main_turn, main_turns, monitor_returns, Runs, signalled,
  steps,
}
use space_project.Ingest.Shutdown.Durable.{IsStored}
use space_project.Ingest.Shutdown.Kept.{Continues, stays, goes, close_keeps}
use space_project.Ingest.Shutdown.Ends.{Drops, Runs-ends, Runs-Drops, close_after_replay}
use space_project.Tests.JsonLines.{lines_json, lines_json-IsJson, lines_json-marshals}
use space_project.Tests.IngestTests.{
  charged, small_config, old_record, old_content, old_content-Encodes, log_with, start_state,
  posted_state, flushed_state, flushed,
}

abbrev old_rows : List (Row Cents ℕ)
old_rows = row_of_record old_record ∷ []

abbrev posted_rows : List (Row Cents ℕ)
posted_rows = row_of_point (marked small_config charged) ∷ old_rows

Reaches-IsBounded_example : IsBounded small_config flushed_state
Reaches-IsBounded_example = Reaches-IsBounded small_config lines_json (omega arith) refl flushed

pending_unbounded_example : HasPending small_config lines_json start_state old_rows 1000
pending_unbounded_example =
    pending_unbounded small_config lines_json start_state old_rows charged 1000 refl (omega arith)
      (omega arith)

Runs-Drops_example : Drops small_config lines_json posted_state posted_rows (log_with old_content)
unfolding new_wal
Runs-Drops_example =
    Runs-Drops small_config lines_json posted_state posted_rows (log_with old_content) refl refl

-- The signal comes, and `main` stops the monitor, which is idle, and the batch processor.
abbrev stopping : Process Cents ℕ
stopping = record (process_of flushed_state) { stop_closed = true }

abbrev stopped : Process Cents ℕ
stopped = record stopping { monitor_returned = true }

abbrev closing : Process Cents ℕ
closing = record stopped { done_closed = true }

to_close : Runs small_config lines_json flushed_state posted_rows at_log_close closing posted_rows
unfolding main_turn
to_close =
    steps
      (steps
        (steps
          (steps (steps signalled (main_turns {m = at_signal} {p = process_of flushed_state}))
            (main_turns {m = at_monitor_stop false} {p = process_of flushed_state}))
          (monitor_returns {p = stopping} tt refl refl))
        (main_turns {m = at_monitor_wait false} {p = stopped}))
      (main_turns {m = at_processor_stop} {p = stopped})

abbrev ended : Process Cents ℕ
ended = record closing {
  service = record flushed_state { log = some (close (new_wal (some old_content))) };
}

to_panic : Runs small_config lines_json flushed_state posted_rows panicked ended posted_rows
unfolding main_turn
to_panic =
    steps
      (steps (steps to_close (main_turns {m = at_log_close} {p = closing}))
        (main_turns {m = at_server_shutdown} {p = ended}))
      (main_turns {m = at_monitor_stop true} {p = ended})

Runs-ends_example :
    (panicked ≡ exited → flushed_state.log ≡ none)
    × (panicked ≡ panicked → flushed_state.log ≢ none)
Runs-ends_example = Runs-ends small_config lines_json to_panic

close_after_replay_example :
    (closing.service.monitor.place ≡ idle) × Conserves lines_json posted_rows closing.service
close_after_replay_example =
    close_after_replay small_config lines_json lines_json-IsJson lines_json-marshals 3 30
      old_content (old_record ∷ []) old_content-Encodes flushed to_close

to_end :
    Continues small_config lines_json at_log_close closing posted_rows panicked ended posted_rows
unfolding main_turn
to_end =
    goes
      (goes (goes stays (main_turns {m = at_log_close} {p = closing}))
        (main_turns {m = at_server_shutdown} {p = ended}))
      (main_turns {m = at_monitor_stop true} {p = ended})

close_keeps_example : IsStored lines_json posted_rows ended.service
close_keeps_example =
    close_keeps small_config lines_json lines_json-IsJson lines_json-marshals 3 30 old_content
      (old_record ∷ []) old_content-Encodes flushed to_close refl (refl, tt) to_end

-- The first pause is a fifth longer.
abbrev late : ℕ → ℤ
late zero = pos 200_000_000
late (suc n) = pos 0

late-small : (n : ℕ) → n < 5 - 1 → 5 * magnitude (late n) ≤ delay 1_000_000_000 n
unfolding delay
late-small zero l = omega arith
late-small (suc n) l = omega arith

pauses_bounds_example :
    (4 * (1_000_000_000 * 2 ^ 4) ≤ 5 * pauses 5 1_000_000_000 late 5 + 4 * 1_000_000_000)
    × (5 * pauses 5 1_000_000_000 late 5 + 6 * 1_000_000_000 ≤ 6 * (1_000_000_000 * 2 ^ 4))
pauses_bounds_example = pauses_bounds 5 1_000_000_000 late (omega arith) late-small

-- An environment in which each variable is a number below 0, which is no float and no duration.
abbrev no_duration : Text → Option ℤ
no_duration t = none

abbrev no_float : Text → Option Cents
no_float t = none

abbrev below : Text → Text
below key = codes "-1"

start_processor-load_config_example :
    (start_processor 1_000_000 (load_config below no_float no_duration) ≡ none) ↔ (
      ((z : ℤ) × (atoi (codes "-1") ≡ some z) × IsBadSize 1_000_000 z)
      ⊎ ((d : ℤ) × (no_duration (codes "-1") ≡ some d) × (d ≤ℤ pos 0)))
start_processor-load_config_example =
    start_processor-load_config below no_float no_duration 1_000_000 refl (omega arith)
