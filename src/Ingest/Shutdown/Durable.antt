-- ===== src/Ingest/Shutdown/Durable.antt =====
-- What is in the log and in the database when `main` closes the log, and afterwards.
use space_project.Base.{
  ◌+◌, ◌≤◌, ◌≡◌, refl, ap, ◌∙◌, Bool, some, List, [], ◌∷◌, ◌++◌, arith, count_where,
  count_where-append, Bool-cases, Option-cases, inl, inr,
}
use mathlib.Core.Path.{subst}
use space_project.Float.{Float}
use space_project.Ingest.{TelemetryPoint, WalRecord, Row, record_of}
use space_project.Ingest.Wal.{
  Bytes, Json, Wal, WriteResult, ok, marshal_failed, write_failed, not_synced, written, reopened,
  write, read_all, count,
}
use space_project.Ingest.Wal.Lines.{IsJson, Encodes, Encodes-append}
use space_project.Ingest.Batch.{BatchConfig}
use space_project.Ingest.Batch.Flush.{after_write, spill, end_attempt}
use space_project.Ingest.Monitor.{idle}
use space_project.Ingest.System.{
  Service, Turn, ticks, takes_batch, begins_attempt, ends_attempt, spills, checks, reports_health,
  begins_replay, replays_batch, ends_replay,
}
use space_project.Ingest.System.Rows.{in_records, in_records-append}

module _ {F T : Type 0} (json : Json (WalRecord F T)) where
  -- The file of a log, be it open or closed, has a line for each of the records.
  pub record Holds (w : Wal) (rs : List (WalRecord F T)) : Type 0 where
    pub content : Bytes
    pub file : w.file ≡ some content
    pub encodes : Encodes json content rs

  -- The file has at least the rows that the records bring.
  pub record HoldsMore (w : Wal) (rs : List (WalRecord F T)) : Type 0 where
    pub records : List (WalRecord F T)
    pub holds : Holds w records
    pub more : (test : Row F T → Bool) → in_records test rs ≤ in_records test records

  pub HoldsMore-same :
      (w w' : Wal) (rs : List (WalRecord F T)) → w'.file ≡ w.file → Holds w rs → HoldsMore w' rs
  HoldsMore-same w w' rs e h = record {
    records = rs;
    holds = record { content = h.content; file = e ∙ h.file; encodes = h.encodes };
    more = λ test. omega arith;
  }

  write-HoldsMore :
      (laws : IsJson json) (r : WalRecord F T) (w : Wal) (rs : List (WalRecord F T))
      → Holds w rs
      → HoldsMore (write json written r w).1 rs
  unfolding write
  write-HoldsMore laws r w rs h = elim (Option-cases (json.marshal r)) [
    | inl e ↦ rw (e, write) (HoldsMore-same w w rs refl h)
    | inr (b, e) ↦ elim (Bool-cases w.is_open) [
      | inl is_open ↦
          rw (e, is_open, h.file, write)
            (record {
              records = rs ++ r ∷ [];
              holds = record {
                content = _;
                file = refl;
                encodes = Encodes-append json laws r b e h.encodes;
              };
              more = λ test. omega (arith, in_records-append test rs (r ∷ []));
            })
      | inr is_closed ↦ rw (e, is_closed, write) (HoldsMore-same w _ rs refl h)
    ]
  ]

  count-HoldsMore :
      (w : Wal) (rs : List (WalRecord F T)) → Holds w rs → HoldsMore (count json reopened w).1 rs
  unfolding count read_all
  count-HoldsMore w rs h =
      HoldsMore-same w (count json reopened w).1 rs (rw (h.file, read_all) h.file) h

  after_write-log :
      (point : TelemetryPoint F T) (left : List (TelemetryPoint F T)) (result : WriteResult)
      (w : Wal)
      → (after_write point left (result, w)).1 ≡ some w
  after_write-log point left ok w = refl
  after_write-log point left marshal_failed w = refl
  after_write-log point left write_failed w = refl
  after_write-log point left not_synced w = refl

  -- The rows are in the log or in the database, each as often as it is among them, or more.
  pub record IsStored (rows : List (Row F T)) (s : Service F T) : Type 0 where
    pub log : Wal
    pub records : List (WalRecord F T)
    pub has_log : s.log ≡ some log
    pub holds : Holds log records
    pub stored :
        (test : Row F T → Bool)
        → count_where test rows ≤ in_records test records + count_where test s.database

  -- The same log, or one with more records, and the same database, or one with more rows.
  pub IsStored-more :
      (rows : List (Row F T)) (s s' : Service F T) (h : IsStored rows s) (w : Wal)
      → s'.log ≡ some w
      → HoldsMore w h.records
      → ((test : Row F T → Bool) → count_where test s.database ≤ count_where test s'.database)
      → IsStored rows s'
  IsStored-more rows s s' h w e m more = record {
    log = w;
    records = m.records;
    has_log = e;
    holds = m.holds;
    stored = λ test. omega (arith, h.stored test, m.more test, more test);
  }

  pub IsStored-same :
      (rows : List (Row F T)) (s s' : Service F T) (h : IsStored rows s)
      → s'.log ≡ s.log
      → ((test : Row F T → Bool) → count_where test s.database ≤ count_where test s'.database)
      → IsStored rows s'
  IsStored-same rows s s' h e more =
      IsStored-more rows s s' h h.log (e ∙ h.has_log)
        (HoldsMore-same h.log h.log h.records refl h.holds) more

  spill-log :
      (laws : IsJson json) (left : List (TelemetryPoint F T)) (w : Wal) (rs : List (WalRecord F T))
      → Holds w rs
      → (w' : Wal) × ((spill json written left (some w)).1 ≡ some w') × HoldsMore w' rs
  unfolding spill
  spill-log laws [] w rs h = (w, refl, HoldsMore-same w w rs refl h)
  spill-log laws (point ∷ left) w rs h =
      let (result, w') = write json written (record_of point) w in
      (w', after_write-log point left result w', write-HoldsMore laws (record_of point) w rs h)

module _ {F T : Type 0} ⦃f : Float F⦄ (config : BatchConfig F) (json : Json (WalRecord F T))
    (laws : IsJson json) (stored_rows : List (Row F T)) where
  pub Turn-IsStored :
      {s s' : Service F T}
      → Turn config json s s'
      → s.monitor.place ≡ idle
      → IsStored json stored_rows s
      → IsStored json stored_rows s'
  Turn-IsStored (ticks before last e done) rests h =
      IsStored-same json stored_rows _ _ h refl (λ test. omega arith)
  Turn-IsStored (takes_batch before behind e) rests h =
      IsStored-same json stored_rows _ _ h refl (λ test. omega arith)
  Turn-IsStored (begins_attempt before behind now attempt batch e) rests h =
      IsStored-same json stored_rows _ _ h refl (λ test. omega arith)
  Turn-IsStored (ends_attempt {s} before behind outcome now attempt batch e) rests h =
      IsStored-same json stored_rows _ _ h refl (λ test. omega (
        arith,
        count_where-append test s.database (end_attempt outcome now attempt batch s.breaker).2,
      ))
  Turn-IsStored (spills {s} before behind left e n) rests h =
      let (w, is, more) = spill-log json laws left h.log h.records h.holds in
      IsStored-more json stored_rows _ _ h w
        (ap (λ log. (spill json written left log).1) h.has_log ∙ is) more (λ test. omega arith)
  Turn-IsStored (checks is_up e) rests h =
      IsStored-same json stored_rows _ _ h refl (λ test. omega arith)
  Turn-IsStored (reports_health w e) rests h =
      let same : h.log ≡ w = let e' = h.has_log in cc in
      let holds = subst (λ v. Holds json v h.records) same h.holds in
      IsStored-more json stored_rows _ _ h _ refl (count-HoldsMore json w h.records holds)
        (λ test. omega arith)
  Turn-IsStored (begins_replay replays w e e') rests h = absurd cc
  Turn-IsStored (replays_batch outcome replays before left e n) rests h = absurd cc
  Turn-IsStored (ends_replay replays before w e e') rests h = absurd cc
