-- ===== src/Tests/IngestTests.antt =====
-- The theorems on the ingestion service, at small inputs.
use space_project.Base.{
  zero, suc, take, length-replicate, ℕ, ◌*◌, ◌≤◌, ◌<◌, ◌≡◌, ◌≢◌, refl, Bool, true, false, none,
  some, List, [], ◌∷◌, ◌++◌, map, arith, All, count_where, replicate, length, drop, if◌then◌else◌,
  ◌==◌, leb,
}
use space_project.Base.Int.{pos, negsuc}
use space_project.Base.Text.{codes, newline}
use space_project.Float.Cents.{Cents, cents_float}
use space_project.Ingest.{TelemetryPoint, WalRecord, Row, record_of, row_of_point, row_of_record}
use space_project.Ingest.Breaker.{
  CircuitBreaker, open_circuit, closed, new_circuit_breaker, allows, succeeds, fails, run, answers,
  allow, record_success,
}
use space_project.Ingest.Breaker.Laws.{
  StaysOpen, open_refuses, new_circuit_breaker_trips, answers_probes,
}
use space_project.Ingest.Wal.{
  Bytes, Wal, reopened, WriteOutcome, written, sync_failed, ok, new_wal, read_all, split_lines,
  lines_from, parse_lines, clear,
}
use space_project.Ingest.Wal.Lines.{Encodes, nil, one_line}
use space_project.Ingest.Wal.Laws.{
  writes, reads, counts, clears, wal_answers, list_answers, Represents, wal_answers-eq-list_answers,
}
use space_project.Ingest.Wal.Closed.{write_all, read_all_missing}
use space_project.Ingest.Batch.{BatchConfig, add, marked, detect_anomaly}
use space_project.Ingest.Batch.Flush.{
  InsertOutcome, failed, committed, waiting, trying, inserting, spilling, finished, take_batch,
  begin_attempt, end_attempt, spill,
}
use space_project.Ingest.Batch.Run.{flush_with_retry}
use space_project.Ingest.Batch.Run.Settles.{Settles, flush_with_retry-Settles}
use space_project.Ingest.Monitor.{
  to_read, replaying, check_health, begin_replay, replay_batch, replay_batch_size, end_replay,
  replay_wal,
}
use space_project.Ingest.Monitor.Laws.{replay_wal_interrupted}
use space_project.Ingest.Handlers.{accepted_count, kept_points, handle_telemetry_batch}
use space_project.Ingest.Handlers.Batch.{handle_telemetry_batch_lem}
use mathlib.Core.List.{Sublistᴰ}
use space_project.Chaos.{wal_count}
use space_project.Simulation.{Stats}
use space_project.Ingest.Handlers.{handle_telemetry}
use space_project.Ingest.Handlers.Counted.{AgreesWith, stats_after, handle_telemetry_counted}
use space_project.Ingest.Handlers.Health.{health_check, seen, wal_count-health_check}
use space_project.Ingest.System.{
  Service, new_service, ticks, takes_batch, begins_attempt, ends_attempt, checks, begins_replay,
  replays_batch, ends_replay, Reaches, starts, posts, turns,
}
use space_project.Ingest.System.Conserves.{Conserves}
use space_project.Ingest.System.Delivery.{IsDrained, rows_conserved, rows_delivered}
use space_project.Ingest.System.Drain.{Goes}
use space_project.Ingest.System.Drain.Whole.{rows_deliverable}
use space_project.Ingest.System.Race.{spill_in_replay_lost}
use space_project.Tests.JsonLines.{lines_json, line_of, lines_json-IsJson, lines_json-marshals}

-- A charged satellite, and one whose battery is low.
abbrev pub charged : TelemetryPoint Cents ℕ
charged = record {
  satellite_id = codes "A";
  battery_charge_percent = some (pos 9000);
  storage_usage_mb = some (pos 100);
  signal_strength_dbm = some (negsuc 5499);
  timestamp = some 7;
  is_anomaly = false;
  latitude = none;
  longitude = none;
  altitude_km = none;
  velocity_kmph = none;
}

abbrev drained : TelemetryPoint Cents ℕ
drained = record charged {
  satellite_id = codes "B";
  battery_charge_percent = some (pos 500);
  timestamp = none;
}

abbrev pub old_record : WalRecord Cents ℕ
old_record = record_of charged

abbrev pub old_content : Bytes
old_content = line_of old_record ++ newline ∷ []

pub old_content-Encodes : Encodes lines_json old_content (old_record ∷ [])
old_content-Encodes = one_line old_record (line_of old_record) refl nil

abbrev pub log_with : Bytes → Wal
log_with content = record { is_open = true; file = some content }

old_log-Represents : Represents lines_json (log_with old_content) (old_record ∷ [])
old_log-Represents = record {
  is_open = refl;
  content = old_content;
  file = refl;
  encodes = old_content-Encodes;
}

abbrev pub small_config : BatchConfig Cents
small_config = record {
  batch_size = 2;
  max_retries = 1;
  max_buffer_size = 3;
  anomaly_config = record {
    battery_min_percent = some (pos 1000);
    storage_max_mb = some (pos 9_500_000);
    signal_min_dbm = some (negsuc 9_999);
  };
}

-- The log.
wal_answers-eq-list_answers_example :
    wal_answers lines_json
      (reads ∷ writes (record_of drained) ∷ counts ∷ clears ∷ reads ∷ [])
      (log_with old_content)
    ≡ list_answers
        (reads ∷ writes (record_of drained) ∷ counts ∷ clears ∷ reads ∷ [])
        (old_record ∷ [])
wal_answers-eq-list_answers_example =
    wal_answers-eq-list_answers lines_json lines_json-IsJson
      (reads ∷ writes (record_of drained) ∷ counts ∷ clears ∷ reads ∷ []) (log_with old_content)
      (old_record ∷ []) (tt, (lines_json-marshals (record_of drained), (tt, (tt, (tt, tt)))))
      old_log-Represents

abbrev removed_log : Wal
removed_log = record { is_open = true; file = none }

abbrev two_writes : List (WriteOutcome × WalRecord Cents ℕ)
two_writes = (written, old_record) ∷ (sync_failed, record_of drained) ∷ []

read_all_missing_example :
    ((read_all lines_json reopened removed_log).0 ≡ some [])
    × All
        (λ result. result ≢ ok)
        (write_all lines_json two_writes (read_all lines_json reopened removed_log).1).0
    × ((write_all lines_json two_writes (read_all lines_json reopened removed_log).1).1.file ≡ none)
read_all_missing_example = read_all_missing lines_json reopened removed_log two_writes refl

-- The breaker.
abbrev tripped : CircuitBreaker
tripped = record (new_circuit_breaker 3 30) {
  state = open_circuit;
  failure_count = 3;
  last_failure_time = 100;
}

open_refuses_example : StaysOpen (allows 110 ∷ succeeds ∷ fails 115 ∷ allows 129 ∷ []) tripped
open_refuses_example =
    open_refuses (allows 110 ∷ succeeds ∷ fails 115 ∷ allows 129 ∷ []) tripped 130 refl
      (omega arith) (omega arith, (tt, (omega arith, (omega arith, tt))))

new_circuit_breaker_trips_example :
    ((run (fails 1 ∷ succeeds ∷ allows 2 ∷ fails 3 ∷ []) (new_circuit_breaker 3 30)).state ≡ closed)
    × ((run
          (fails 1 ∷ succeeds ∷ allows 2 ∷ fails 3 ∷ fails 4 ∷ [])
          (new_circuit_breaker 3 30)).state
        ≡ open_circuit)
new_circuit_breaker_trips_example =
    new_circuit_breaker_trips 3 30 4 (fails 1 ∷ succeeds ∷ allows 2 ∷ fails 3 ∷ [])
      (tt, (tt, (tt, (tt, tt)))) refl

answers_probes_example :
    answers (map allows (130 ∷ 131 ∷ 132 ∷ 133 ∷ [])) tripped ≡ true ∷ true ∷ false ∷ false ∷ []
answers_probes_example = answers_probes tripped 130 131 (132 ∷ 133 ∷ []) refl (omega arith)

-- A flush, a replay and a request.
flush_with_retry-Settles_example :
    Settles lines_json 3
      (λ n. n)
      (λ n. n)
      (λ n. failed)
      (old_record ∷ [])
      (charged ∷ drained ∷ [])
      (flush_with_retry lines_json 3
        (λ n. n)
        (λ n. n)
        (λ n. failed)
        10
        (charged ∷ drained ∷ [])
        (some (new_circuit_breaker 2 30))
        (some (log_with old_content)))
flush_with_retry-Settles_example =
    flush_with_retry-Settles lines_json 3 (λ n. n) (λ n. n) (λ n. failed) lines_json-IsJson
      lines_json-marshals (old_record ∷ []) (charged ∷ drained ∷ [])
      (some (new_circuit_breaker 2 30)) (log_with old_content) 10 old_log-Represents (omega arith)

-- A flush takes the buffer before the third point.
abbrev third_taken : ℕ → Bool
third_taken i = if i == 2 then true else false

handle_telemetry_batch_lem_example :
    let (answer, flushed, buffer') =
      handle_telemetry_batch small_config 9 third_taken
        (some (drained ∷ charged ∷ drained ∷ []))
        (charged ∷ charged ∷ []) in
    (more : List (TelemetryPoint Cents ℕ)) × (answer
      ≡ accepted_count (length (take 1 (drained ∷ charged ∷ drained ∷ []) ++ more)))
    × (flushed ++ buffer'
        ≡ (charged ∷ charged ∷ [])
          ++ kept_points small_config 9 (take 1 (drained ∷ charged ∷ drained ∷ []) ++ more))
    × Sublistᴰ more (drop 1 (drained ∷ charged ∷ drained ∷ []))
    × (((i : ℕ) → third_taken i ≡ false) → more ≡ [])
handle_telemetry_batch_lem_example =
    handle_telemetry_batch_lem small_config 9 third_taken (drained ∷ charged ∷ drained ∷ [])
      (charged ∷ charged ∷ []) 1 refl

-- A log of many records, more than a replay inserts at once.
abbrev many_records : ℕ → List (WalRecord Cents ℕ)
many_records n = replicate n old_record

abbrev content_of : ℕ → Bytes
content_of zero = []
content_of (suc n) = line_of old_record ++ newline ∷ content_of n

many_records-Encodes : (n : ℕ) → Encodes lines_json (content_of n) (many_records n)
many_records-Encodes zero = nil
many_records-Encodes (suc n) =
    one_line old_record (line_of old_record) refl (many_records-Encodes n)

-- The second batch fails.
abbrev second_fails : ℕ → InsertOutcome
second_fails zero = committed
second_fails (suc n) = failed

second_fails-first : (j : ℕ) → j < 1 → second_fails j ≡ committed
second_fails-first zero l = refl
second_fails-first (suc j) l = absurd (omega arith)

replay_wal_interrupted_example :
    ((replay_wal lines_json reopened reopened second_fails (log_with (content_of 1001))).1
      ≡ map row_of_record (take (1 * replay_batch_size) (many_records 1001)))
    × Represents lines_json
        (replay_wal lines_json reopened reopened second_fails (log_with (content_of 1001))).0
        (many_records 1001)
replay_wal_interrupted_example =
    replay_wal_interrupted lines_json lines_json-IsJson second_fails 1 (log_with (content_of 1001))
      (many_records 1001)
      (record {
        is_open = refl;
        content = content_of 1001;
        file = refl;
        encodes = many_records-Encodes 1001;
      })
      (omega (arith, length-replicate 1001 old_record)) second_fails-first refl

-- A point is posted, flushed into the database, and the old record is replayed.
abbrev pub start_state : Service Cents ℕ
start_state = new_service 3 30 (some old_content)

abbrev pub posted_state : Service Cents ℕ
posted_state = record start_state { buffer = marked small_config charged ∷ [] }

abbrev ticked_state : Service Cents ℕ
ticked_state = record posted_state { flushes = waiting ∷ [] }

abbrev taken_state : Service Cents ℕ
taken_state = record ticked_state {
  flushes = trying 0 (marked small_config charged ∷ []) ∷ [];
  buffer = [];
}

abbrev inserting_state : Service Cents ℕ
inserting_state = record taken_state {
  flushes = inserting 0 (marked small_config charged ∷ []) ∷ [];
}

abbrev pub flushed_state : Service Cents ℕ
flushed_state = record inserting_state {
  flushes = finished ∷ [];
  database = row_of_point (marked small_config charged) ∷ [];
}

abbrev checked_state : Service Cents ℕ
checked_state = record flushed_state { monitor = record { is_healthy = true; place = to_read 1 } }

abbrev read_state : Service Cents ℕ
read_state = record checked_state {
  monitor = record { is_healthy = true; place = replaying 1 [] (old_record ∷ []) };
}

abbrev inserted_state : Service Cents ℕ
inserted_state = record read_state {
  monitor = record { is_healthy = true; place = replaying 1 (old_record ∷ []) [] };
  database = row_of_point (marked small_config charged) ∷ row_of_record old_record ∷ [];
}

abbrev end_state : Service Cents ℕ
end_state = record inserted_state {
  monitor = record { is_healthy = true; place = to_read 0 };
  log = some (log_with []);
}

pub posted :
    Reaches small_config lines_json start_state
      (row_of_record old_record ∷ [])
      posted_state
      (row_of_point (marked small_config charged) ∷ row_of_record old_record ∷ [])
unfolding add detect_anomaly
posted = posts {s = start_state} charged (marked small_config charged ∷ []) false starts refl

pub flushed :
    Reaches small_config lines_json start_state
      (row_of_record old_record ∷ [])
      flushed_state
      (row_of_point (marked small_config charged) ∷ row_of_record old_record ∷ [])
unfolding take_batch begin_attempt allow end_attempt record_success detect_anomaly
flushed =
    let batch = marked small_config charged ∷ [] in
    turns {s = inserting_state} {s' = flushed_state}
      (turns {s = taken_state} {s' = inserting_state}
        (turns {s = ticked_state} {s' = taken_state}
          (turns {s = posted_state} {s' = ticked_state} posted
            (ticks {s = posted_state} [] finished refl tt))
          (takes_batch {s = ticked_state} [] [] refl))
        (begins_attempt {s = taken_state} [] [] 0 0 batch refl))
      (ends_attempt {s = inserting_state} [] [] committed 1 0 batch refl)

replayed :
    Reaches small_config lines_json start_state
      (row_of_record old_record ∷ [])
      end_state
      (row_of_point (marked small_config charged) ∷ row_of_record old_record ∷ [])
unfolding check_health begin_replay read_all split_lines lines_from parse_lines replay_batch
    end_replay clear new_wal detect_anomaly
replayed =
    turns {s = inserted_state} {s' = end_state}
      (turns {s = read_state} {s' = inserted_state}
        (turns {s = checked_state} {s' = read_state}
          (turns {s = flushed_state} {s' = checked_state} flushed
            (checks {s = flushed_state} true refl))
          (begins_replay {s = checked_state} 1 (log_with old_content) refl refl))
        (replays_batch {s = read_state} committed 1 [] (old_record ∷ []) refl (λ e. cc)))
      (ends_replay {s = inserted_state} 1 (old_record ∷ []) (log_with old_content) refl refl)

rows_conserved_example :
    Conserves lines_json
      (row_of_point (marked small_config charged) ∷ row_of_record old_record ∷ [])
      end_state
rows_conserved_example =
    rows_conserved small_config lines_json lines_json-IsJson lines_json-marshals 3 30 old_content
      (old_record ∷ []) old_content-Encodes replayed

-- The schema has 50 characters for an id.
abbrev fits_id : Row Cents ℕ → Bool
fits_id row = leb (length row.satellite_id) 50

rows_deliverable_example :
    (s' : Service Cents ℕ) × Goes small_config lines_json fits_id posted_state s'
    × IsDrained lines_json s'
    × ((test : Row Cents ℕ → Bool)
        → count_where test
            (row_of_point (marked small_config charged) ∷ row_of_record old_record ∷ [])
          ≤ count_where test s'.database)
rows_deliverable_example =
    rows_deliverable small_config lines_json lines_json-IsJson lines_json-marshals 3 30 old_content
      (old_record ∷ []) old_content-Encodes posted fits_id refl

-- A test of a row.
abbrev is_late : Row Cents ℕ → Bool
is_late row = elim row.time [ none ↦ false | some t ↦ true ]

end_state-IsDrained : IsDrained lines_json end_state
end_state-IsDrained = record {
  log = log_with [];
  buffer = refl;
  flushes = (refl, tt);
  has_log = refl;
  represents = record { is_open = refl; content = []; file = refl; encodes = nil };
}

rows_delivered_example :
    (count_where is_late
        (row_of_point (marked small_config charged) ∷ row_of_record old_record ∷ [])
      ≤ count_where is_late end_state.database)
    × (count_where is_late
            (row_of_point (marked small_config charged) ∷ row_of_record old_record ∷ [])
          ≡ 0
        → count_where is_late end_state.database ≡ 0)
rows_delivered_example =
    rows_delivered small_config lines_json lines_json-IsJson lines_json-marshals 3 30 old_content
      (old_record ∷ []) old_content-Encodes replayed end_state-IsDrained is_late

spill_in_replay_lost_example :
    let (place, w₁) = begin_replay lines_json reopened 0 (log_with old_content) in
    let (flush, log) = spill lines_json written (drained ∷ charged ∷ []) (some w₁) in
    (place ≡ replaying 0 [] (old_record ∷ []))
    × (flush ≡ spilling (charged ∷ []))
    × ((w₂ : Wal) × (log ≡ some w₂)
        × Represents lines_json w₂ (old_record ∷ record_of drained ∷ [])
        × Represents lines_json (end_replay {F = Cents} {T = ℕ} reopened 0 w₂).1 [])
spill_in_replay_lost_example =
    spill_in_replay_lost lines_json lines_json-IsJson 0 (log_with old_content) old_record [] drained
      (charged ∷ []) (line_of (record_of drained)) old_log-Represents refl

-- The answer to a posted point, and to a question for the health.
abbrev no_stats : Stats
no_stats = record { total_sent = 0; success = 0; errors = 0; start_time = 0 }

handle_telemetry_counted_example :
    let (answer, buffer) = handle_telemetry small_config 9 (some drained) (charged ∷ []) in
    AgreesWith small_config 9
      (some drained)
      no_stats
      (stats_after (codes "SAT-0001") answer no_stats)
      (charged ∷ [])
      buffer
handle_telemetry_counted_example =
    handle_telemetry_counted small_config 9 (codes "SAT-0001") no_stats (some drained)
      (charged ∷ [])

wal_count-health_check_example :
    (wal_count (
        seen
          (health_check lines_json true reopened (some (log_with old_content)) [] (some tripped)))
      ≡ 1)
    × (wal_count (
          seen (
            health_check lines_json false reopened (some (log_with old_content)) [] (some tripped)))
        ≡ 0)
wal_count-health_check_example =
    wal_count-health_check lines_json lines_json-IsJson (log_with old_content) (old_record ∷ []) []
      (some tripped) old_log-Represents
