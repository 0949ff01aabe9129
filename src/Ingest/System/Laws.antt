-- ===== src/Ingest/System/Laws.antt =====
-- The rows, turn by turn.
use space_project.Base.{
  ℕ, ◌≡◌, refl, sym, ap, ◌∙◌, Bool, some, List, [], ◌∷◌, ◌++◌, arith, count_where-append,
  if◌then◌else◌,
}
use mathlib.Core.Path.{subst}
use space_project.Float.{Float}
use space_project.Ingest.{WalRecord, Row}
use space_project.Ingest.Wal.{count, Bytes, Json, Wal, reopened, read_all, clear}
use space_project.Ingest.Wal.Lines.{IsJson}
use space_project.Ingest.Wal.Laws.{Represents, read_all-Represents, clear-Represents}
use space_project.Ingest.Batch.{BatchConfig}
use space_project.Ingest.Batch.Flush.{
  InsertOutcome, waiting, trying, inserting, spilling, take_batch, begin_attempt, end_attempt,
}
use space_project.Ingest.Monitor.{
  Place, idle, replaying, check_health, after_read, begin_replay, replay_batch, end_replay,
}
use space_project.Ingest.System.{
  Service, Turn, ticks, takes_batch, begins_attempt, ends_attempt, spills, checks, reports_health,
  begins_replay, replays_batch, ends_replay,
}
use space_project.Ingest.System.Conserves.{
  Conserves, flush_moves, spill-Conserves, after_read-fresh,
}
use space_project.Ingest.System.Rows.{
  IsDone-held, replayed, ReplaysLog, in_points, in_records, in_records-append, take_batch-points,
  end_attempt-points, begin_attempt-held, replay_batch-ReplaysLog, replay_batch-records,
  next_replay-records, next_replay-ReplaysLog,
}

module _ {F T : Type 0} {json : Json (WalRecord F T)} {accepted : List (Row F T)}
    (s : Service F T) where
  checks-Conserves :
      (is_up : Bool)
      → s.monitor.place ≡ idle
      → Conserves json accepted s
      → Conserves json accepted (record s { monitor = check_health is_up s.monitor })
  unfolding check_health
  checks-Conserves is_up i h =
      let n : ℕ = if is_up then if s.monitor.is_healthy then 1 else 2 else 0 in
      record {
        log = h.log;
        records = h.records;
        has_log = h.has_log;
        represents = h.represents;
        replays_log = next_replay-ReplaysLog n h.records;
        none_lost =
            λ test. omega (arith, h.none_lost test, next_replay-records {F = F} {T = T} test n);
        none_made = λ test none_yet. h.none_made test none_yet;
      }

  reports_health-Conserves :
      IsJson json
      → (w : Wal) → s.log ≡ some w
      → Conserves json accepted s
      → Conserves json accepted (record s { log = some (count json reopened w).1 })
  unfolding count
  reports_health-Conserves laws w l h =
      let same : h.log ≡ w = cc in
      let kept = subst (λ v. Represents json v h.records) same h.represents in
      record {
        log = (read_all json reopened w).1;
        records = h.records;
        has_log = refl;
        represents = (read_all-Represents json laws w h.records kept).1;
        replays_log = h.replays_log;
        none_lost = h.none_lost;
        none_made = h.none_made;
      }

  begins_replay-Conserves :
      IsJson json
      → (replays : ℕ) (w : Wal) → s.log ≡ some w
      → Conserves json accepted s
      → Conserves json accepted (record s {
        monitor = record (s.monitor) { place = (begin_replay json reopened replays w).0 };
        log = some (begin_replay json reopened replays w).1;
      })
  unfolding begin_replay
  begins_replay-Conserves laws replays w l h =
      let same : h.log ≡ w = cc in
      let read = read_all-Represents json laws h.log h.records h.represents in
      let place : Place (WalRecord F T) = after_read replays (read_all json reopened h.log).0 in
      let fresh =
        subst
          (λ rs.
            (replayed (after_read replays rs) ≡ []) × ReplaysLog (after_read replays rs) h.records)
          (sym read.0) (after_read-fresh replays h.records) in
      let s' : Wal → Service F T = λ v. record s {
        monitor = record (s.monitor) { place = (begin_replay json reopened replays v).0 };
        log = some (begin_replay json reopened replays v).1;
      } in
      subst (λ v. Conserves json accepted (s' v)) same
        (record {
          log = (read_all json reopened h.log).1;
          records = h.records;
          has_log = refl;
          represents = read.1;
          replays_log = fresh.1;
          none_lost = λ test. omega (arith, h.none_lost test, ap (in_records test) fresh.0);
          none_made = λ test none_yet. h.none_made test none_yet;
        })

  replays_batch-Conserves :
      (outcome : InsertOutcome) (replays : ℕ) (before left : List (WalRecord F T))
      → s.monitor.place ≡ replaying replays before left
      → Conserves json accepted s
      → Conserves json accepted (record s {
        monitor = record (s.monitor) { place = (replay_batch outcome replays before left).0 };
        database = s.database ++ (replay_batch outcome replays before left).1;
      })
  replays_batch-Conserves outcome replays before left p h =
      let (place, rows) = replay_batch outcome replays before left in
      let log_is : h.records ≡ before ++ left =
        subst (λ q. ReplaysLog q h.records) p h.replays_log in
      let old = λ (test : Row F T → Bool). ap (λ q. in_records test (replayed q)) p in
      let batch =
        λ (test : Row F T → Bool). replay_batch-records replays before left test outcome in
      let all = λ (test : Row F T → Bool).
        ap (in_records test) log_is ∙ in_records-append test before left in
      record {
        log = h.log;
        records = h.records;
        has_log = h.has_log;
        represents = h.represents;
        replays_log = replay_batch-ReplaysLog replays before left h.records outcome log_is;
        none_lost = λ test. omega (
          arith,
          h.none_lost test,
          old test,
          batch test,
          count_where-append test s.database rows,
        );
        none_made = λ test none_yet. omega (
          arith,
          h.none_made test none_yet,
          all test,
          batch test,
          count_where-append test s.database rows,
        );
      }

  ends_replay-Conserves :
      IsJson json
      → (replays : ℕ) (before : List (WalRecord F T)) (w : Wal)
      → s.monitor.place ≡ replaying replays before []
      → s.log ≡ some w
      → Conserves json accepted s
      → Conserves json accepted (record s {
        monitor = record (s.monitor) { place = (end_replay {F = F} {T = T} reopened replays w).0 };
        log = some (end_replay {F = F} {T = T} reopened replays w).1;
      })
  unfolding end_replay
  ends_replay-Conserves laws replays before w p l h =
      let same : h.log ≡ w = cc in
      let log_is : h.records ≡ before ++ [] = subst (λ q. ReplaysLog q h.records) p h.replays_log in
      let cleared =
        clear-Represents json laws w h.records
          (subst (λ v. Represents json v h.records) same h.represents) in
      let old = λ (test : Row F T → Bool). ap (λ q. in_records test (replayed q)) p in
      let all =
        λ (test : Row F T → Bool). ap (in_records test) log_is ∙ in_records-append test before [] in
      record {
        log = (clear reopened w).1;
        records = [];
        has_log = refl;
        represents = cleared.1;
        replays_log = next_replay-ReplaysLog replays [];
        none_lost = λ test. omega (
          arith,
          h.none_lost test,
          old test,
          all test,
          next_replay-records {F = F} {T = T} test replays,
        );
        none_made = λ test none_yet. omega (arith, h.none_made test none_yet);
      }

module _ {F T : Type 0} ⦃f : Float F⦄ (config : BatchConfig F) (json : Json (WalRecord F T))
    (laws : IsJson json) where
  pub Turn-Conserves :
      ((r : WalRecord F T) → (b : Bytes) × (json.marshal r ≡ some b))
      → {s s' : Service F T} (accepted : List (Row F T)) → Turn config json s s'
      → Conserves json accepted s
      → Conserves json accepted s'
  unfolding end_attempt
  Turn-Conserves marshals accepted (ticks {s} before last e done) =
      let empty = λ (test : Row F T → Bool). ap (in_points test) (IsDone-held last done) in
      flush_moves s before [] last e waiting (record s { flushes = before ++ waiting ∷ [] }) refl
        refl refl (λ test. (omega (arith, empty test), λ nothing. omega arith))
  Turn-Conserves marshals accepted (takes_batch {s} before behind e) =
      let (flush, buffer) = take_batch s.buffer in
      flush_moves s before behind waiting e flush
        (record s { flushes = before ++ flush ∷ behind; buffer = buffer }) refl refl refl
        (λ test. (
          omega (arith, take_batch-points test s.buffer),
          λ nothing. omega (arith, take_batch-points test s.buffer),
        ))
  Turn-Conserves marshals accepted (begins_attempt {s} before behind now attempt batch e) =
      let (flush, breaker) = begin_attempt config.max_retries now attempt batch s.breaker in
      let same = λ (test : Row F T → Bool).
        ap (in_points test) (begin_attempt-held config.max_retries now attempt batch s.breaker) in
      flush_moves s before behind (trying attempt batch) e flush
        (record s { flushes = before ++ flush ∷ behind; breaker = breaker }) refl refl refl
        (λ test. (omega (arith, same test), λ nothing. omega (arith, same test)))
  Turn-Conserves marshals accepted (ends_attempt {s} before behind outcome now attempt batch e) =
      let (flush, breaker, rows) = end_attempt outcome now attempt batch s.breaker in
      let moved =
        λ (test : Row F T → Bool). end_attempt-points test outcome now attempt batch s.breaker in
      flush_moves s before behind (inserting attempt batch) e flush
        (record s {
          flushes = before ++ flush ∷ behind;
          breaker = breaker;
          database = s.database ++ rows;
        })
        refl refl refl
        (λ test. (
          omega (arith, moved test, count_where-append test s.database rows),
          λ nothing.
              omega (arith, (moved test).1 (omega arith), count_where-append test s.database rows),
        ))
  Turn-Conserves marshals accepted (spills {s} before behind left e n) =
      spill-Conserves s before behind (spilling left) e laws marshals left refl n
  Turn-Conserves marshals accepted (checks {s} is_up i) = checks-Conserves s is_up i
  Turn-Conserves marshals accepted (reports_health {s} w l) = reports_health-Conserves s laws w l
  Turn-Conserves marshals accepted (begins_replay {s} replays w p l) =
      begins_replay-Conserves s laws replays w l
  Turn-Conserves marshals accepted (replays_batch {s} outcome replays before left p l) =
      replays_batch-Conserves s outcome replays before left p
  Turn-Conserves marshals accepted (ends_replay {s} replays before w p l) =
      ends_replay-Conserves s laws replays before w p l
