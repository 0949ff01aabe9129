-- ===== src/Ingest/System/Conserves.antt =====
-- What the service conserves, and the turns of a flush.
use space_project.Base.{
  ℕ, zero, suc, ◌+◌, ◌≤◌, ◌≡◌, refl, sym, ap, ◌∙◌, Bool, Option, some, List, [], ◌∷◌, ◌++◌, arith,
  count_where,
}
use mathlib.Core.Path.{subst}
use space_project.Ingest.{TelemetryPoint, WalRecord, Row, record_of}
use space_project.Ingest.Wal.{Bytes, Json, Wal, written, write}
use space_project.Ingest.Wal.Lines.{IsJson}
use space_project.Ingest.Wal.Laws.{Represents, write-Represents}
use space_project.Ingest.Batch.Flush.{Flush, spilling, spill, spill_written}
use space_project.Ingest.Monitor.{Place, idle, to_read, replaying, after_read}
use space_project.Ingest.System.{Service, IsReplaying}
use space_project.Ingest.System.Rows.{
  held, replayed, ReplaysLog, in_points, in_flushes, in_records, in_records-append, in_flushes-at,
}

module _ {F T : Type 0} where
  -- The copies of the rows that pass a test which are in a buffer, in flushes, in a log of given
  -- records and in the database.
  abbrev pub copies : (Row F T → Bool) → List (WalRecord F T) → Service F T → ℕ
  copies test records s =
      in_points test s.buffer
      + in_flushes test s.flushes
      + in_records test records
      + count_where test s.database

  -- The log after a round of the loop that spills: what left the flush is in it.
  record Spilled (json : Json (WalRecord F T)) (left : List (TelemetryPoint F T))
      (rs : List (WalRecord F T)) (turn : Flush F T × Option Wal) : Type 0 where
    log : Wal
    records : List (WalRecord F T)
    has_log : turn.1 ≡ some log
    represents : Represents json log records
    moves :
        (test : Row F T → Bool)
        → in_points test (held turn.0) + in_records test records
          ≡ in_points test left + in_records test rs

  spill-Spilled :
      (json : Json (WalRecord F T))
      → IsJson json
      → ((r : WalRecord F T) → (b : Bytes) × (json.marshal r ≡ some b))
      → (left : List (TelemetryPoint F T)) (w : Wal) (rs : List (WalRecord F T))
      → Represents json w rs
      → Spilled json left rs (spill json written left (some w))
  unfolding spill
  spill-Spilled json laws marshals [] w rs h = record {
    log = w;
    records = rs;
    has_log = refl;
    represents = h;
    moves = λ test. refl;
  }
  spill-Spilled json laws marshals (point ∷ left) w rs h =
      let (b, e) = marshals (record_of point) in
      let done = write-Represents json laws w rs (record_of point) b e h in
      let w' = (write json written (record_of point) w).1 in
      subst (λ t. Spilled json (point ∷ left) rs t)
        (sym (spill_written json written point left w w' (ap (λ r. (r, w')) done.0)))
        (record {
          log = w';
          records = rs ++ record_of point ∷ [];
          has_log = refl;
          represents = done.1;
          moves = λ test. omega (arith, in_records-append test rs (record_of point ∷ []));
        })

  not_replaying :
      (place : Place (WalRecord F T)) (records : List (WalRecord F T))
      → ¬ (IsReplaying place)
      → (replayed place ≡ []) × ReplaysLog place records
  not_replaying idle records n = (refl, tt)
  not_replaying (to_read _) records n = (refl, tt)
  not_replaying (replaying _ _ _) records n = absurd (n tt)

  pub after_read-fresh :
      (replays : ℕ) (records : List (WalRecord F T))
      → let place = after_read replays (some records) in
        (replayed place ≡ []) × ReplaysLog place records
  after_read-fresh zero [] = (refl, tt)
  after_read-fresh (suc n) [] = (refl, tt)
  after_read-fresh n (r ∷ records) = (refl, refl)

  -- The log holds records, and every accepted row is in one place at least, not counting those rows
  -- of the log which the current replay has brought to the database; there are no other rows.
  pub record Conserves (json : Json (WalRecord F T)) (accepted : List (Row F T)) (s : Service F T)
      : Type 0 where
    pub log : Wal
    pub records : List (WalRecord F T)
    pub has_log : s.log ≡ some log
    pub represents : Represents json log records
    pub replays_log : ReplaysLog s.monitor.place records
    pub none_lost :
        (test : Row F T → Bool)
        → count_where test accepted + in_records test (replayed s.monitor.place)
          ≤ copies test records s
    pub none_made :
        (test : Row F T → Bool) → count_where test accepted ≡ 0 → copies test records s ≡ 0

-- The log and the place of the monitor are left as they are.
module _ {F T : Type 0} {json : Json (WalRecord F T)} {accepted : List (Row F T)} where
  pub flush_turn :
      (s s' : Service F T)
      → (s'.log ≡ s.log)
      → (s'.monitor ≡ s.monitor)
      → ((test : Row F T → Bool) (records : List (WalRecord F T))
          → copies test records s ≤ copies test records s')
      → ((test : Row F T → Bool) (records : List (WalRecord F T))
          → copies test records s ≡ 0
          → copies test records s' ≡ 0)
      → Conserves json accepted s
      → Conserves json accepted s'
  flush_turn s s' same_log same_monitor more no_more h = record {
    log = h.log;
    records = h.records;
    has_log = same_log ∙ h.has_log;
    represents = h.represents;
    replays_log = subst (λ m. ReplaysLog m.place h.records) (sym same_monitor) h.replays_log;
    none_lost = λ test.
        subst
          (λ m.
            count_where test accepted + in_records test (replayed m.place)
            ≤ copies test h.records s')
          (sym same_monitor) (omega (arith, h.none_lost test, more test h.records));
    none_made = λ test e. no_more test h.records (h.none_made test e);
  }

-- A flush `old` becomes `new`, and moves its points to the buffer or to the database.
module _ {F T : Type 0} {json : Json (WalRecord F T)} {accepted : List (Row F T)} (s : Service F T)
    (before behind : List (Flush F T)) (old : Flush F T)
    (e : s.flushes ≡ before ++ old ∷ behind) where
  pub flush_moves :
      (new : Flush F T) (s' : Service F T)
      → s'.log ≡ s.log
      → s'.monitor ≡ s.monitor
      → s'.flushes ≡ before ++ new ∷ behind
      → ((test : Row F T → Bool)
          → let old_rows =
              in_points test (held old) + in_points test s.buffer + count_where test s.database in
            let new_rows =
              in_points test (held new) + in_points test s'.buffer + count_where test s'.database in
            (old_rows ≤ new_rows) × (old_rows ≡ 0 → new_rows ≡ 0))
      → Conserves json accepted s
      → Conserves json accepted s'
  flush_moves new s' same_log same_monitor now moved =
      flush_turn s s' same_log same_monitor
        (λ test records. omega (
          arith,
          in_flushes-at test s.flushes before behind old e,
          in_flushes-at test s'.flushes before behind new now,
          (moved test).0,
        ))
        (λ test records nothing.
          let was = in_flushes-at test s.flushes before behind old e in
          omega (
            arith,
            was,
            in_flushes-at test s'.flushes before behind new now,
            (moved test).1 (omega (arith, was)),
          ))

  -- One round of the loop of `flushToWAL` moves a point to the log.
  pub spill-Conserves :
      IsJson json
      → ((r : WalRecord F T) → (b : Bytes) × (json.marshal r ≡ some b))
      → (left : List (TelemetryPoint F T)) → old ≡ spilling left
      → ¬ (IsReplaying s.monitor.place)
      → Conserves json accepted s
      → Conserves json accepted (record s {
        flushes = before ++ (spill json written left s.log).0 ∷ behind;
        log = (spill json written left s.log).1;
      })
  unfolding spill
  spill-Conserves laws marshals left o n h =
      let turn = spill json written left (some h.log) in
      let moved = spill-Spilled json laws marshals left h.log h.records h.represents in
      let quiet = not_replaying s.monitor.place moved.records n in
      let was = λ (test : Row F T → Bool). in_flushes-at test s.flushes before behind old e in
      let held_left = λ (test : Row F T → Bool). ap (λ f. in_points test (held f)) o in
      let is = λ (test : Row F T → Bool).
        in_flushes-at test (before ++ turn.0 ∷ behind) before behind turn.0 refl in
      let s' : Option Wal → Service F T = λ log. record s {
        flushes = before ++ (spill json written left log).0 ∷ behind;
        log = (spill json written left log).1;
      } in
      subst (λ log. Conserves json accepted (s' log)) (sym h.has_log)
        (record {
          log = moved.log;
          records = moved.records;
          has_log = moved.has_log;
          represents = moved.represents;
          replays_log = quiet.1;
          none_lost = λ test. omega (
            arith,
            h.none_lost test,
            was test,
            is test,
            held_left test,
            moved.moves test,
            ap (in_records test) quiet.0,
          );
          none_made = λ test none_yet. omega (
            arith,
            h.none_made test none_yet,
            was test,
            is test,
            held_left test,
            moved.moves test,
          );
        })
