-- ===== src/Ingest/System/Delivery.antt =====
-- What the service delivers.
use space_project.Base.{
  ℕ, ◌≤◌, ◌≡◌, refl, sym, ap, ◌∙◌, Bool, true, false, some, List, [], ◌∷◌, map, arith, count_where,
  All,
}
use space_project.Float.{Float}
use space_project.Ingest.{TelemetryPoint, WalRecord, Row, row_of_point, row_of_record}
use space_project.Ingest.Wal.{Bytes, Json, Wal, new_wal, read_all, reopened}
use space_project.Ingest.Wal.Lines.{IsJson, Encodes}
use space_project.Ingest.Wal.Laws.{Represents, read_all-Represents}
use space_project.Ingest.Batch.{BatchConfig, kept, marked, add, add_kept}
use space_project.Ingest.Batch.Flush.{Flush}
use space_project.Ingest.System.{Service, with_flush, new_service, Reaches, starts, posts, turns}
use space_project.Ingest.System.Conserves.{Conserves}
use space_project.Ingest.System.Rows.{
  held, in_points, in_flushes, in_records, in_points-append, in_records-rows,
}
use space_project.Ingest.System.Laws.{Turn-Conserves}

module _ {F T : Type 0} where
  -- Nothing is left to do: no point is in the buffer or in a flush, and the log has no record.
  pub record IsDrained (json : Json (WalRecord F T)) (s : Service F T) : Type 0 where
    pub log : Wal
    pub buffer : s.buffer ≡ []
    pub flushes : All (λ flush. held flush ≡ []) s.flushes
    pub has_log : s.log ≡ some log
    pub represents : Represents json log []

  pub in_flushes_none :
      (test : Row F T → Bool) (flushes : List (Flush F T))
      → All (λ flush. held flush ≡ []) flushes
      → in_flushes test flushes ≡ 0
  in_flushes_none test [] n = refl
  in_flushes_none test (flush ∷ flushes) n =
      omega (arith, ap (in_points test) n.0, in_flushes_none test flushes n.1)

  with_flush-copies :
      (test : Row F T → Bool) (starts_flush : Bool) (flushes : List (Flush F T))
      → in_flushes test (with_flush starts_flush flushes) ≡ in_flushes test flushes
  with_flush-copies test true flushes = omega arith
  with_flush-copies test false flushes = refl

module _ {F T : Type 0} ⦃f : Float F⦄ (config : BatchConfig F) where
  module _ (json : Json (WalRecord F T)) (laws : IsJson json)
      (marshals : (r : WalRecord F T) → (b : Bytes) × (json.marshal r ≡ some b)) where
    post-Conserves :
        (s : Service F T) (accepted : List (Row F T)) (point : TelemetryPoint F T)
        → (buffer : List (TelemetryPoint F T)) (flushes : Bool)
        → add config point s.buffer ≡ kept buffer flushes
        → Conserves json accepted s
        → Conserves json
            (row_of_point (marked config point) ∷ accepted)
            (record s { buffer = buffer; flushes = with_flush flushes s.flushes })
    post-Conserves s accepted point buffer flushes e h =
        let is = λ (test : Row F T → Bool).
          ap (in_points test) ((add_kept config point s.buffer buffer flushes e).1) in
        record {
          log = h.log;
          records = h.records;
          has_log = h.has_log;
          represents = h.represents;
          replays_log = h.replays_log;
          none_lost = λ test. omega (
            arith,
            h.none_lost test,
            is test,
            in_points-append test s.buffer (marked config point ∷ []),
            with_flush-copies test flushes s.flushes,
          );
          none_made = λ test none_yet. omega (
            arith,
            h.none_made test (omega arith),
            is test,
            in_points-append test s.buffer (marked config point ∷ []),
            with_flush-copies test flushes s.flushes,
          );
        }

    pub Reaches-Conserves :
        {start : Service F T} {rows : List (Row F T)} {s : Service F T} {accepted : List (Row F T)}
        → Conserves json rows start
        → Reaches config json start rows s accepted
        → Conserves json accepted s
    Reaches-Conserves h starts = h
    Reaches-Conserves h (posts {s} {accepted} point buffer flushes reach e) =
        post-Conserves s accepted point buffer flushes e (Reaches-Conserves h reach)
    Reaches-Conserves h (turns {s} {s'} {accepted} reach turn) =
        Turn-Conserves config json laws marshals accepted turn (Reaches-Conserves h reach)

    pub new_service-Conserves :
        (threshold timeout : ℕ) (content : Bytes) (rs : List (WalRecord F T))
        → Encodes json content rs
        → Conserves json (map row_of_record rs) (new_service threshold timeout (some content))
    unfolding new_wal
    new_service-Conserves threshold timeout content rs h = record {
      log = new_wal (some content);
      records = rs;
      has_log = refl;
      represents = record { is_open = refl; content = content; file = refl; encodes = h };
      replays_log = tt;
      none_lost = λ test. omega (arith, in_records-rows test rs);
      none_made = λ test none_yet. omega (arith, in_records-rows test rs);
    }

    -- In every service that `main` starts on a log of given records, and that is run to any point,
    -- with any results of the inserts and of the pings, with records that can be marshalled, a file
    -- system that does what it is told, and no write to the log while a replay reads and clears it:
    -- each row, of the old records and of the accepted points, is in the buffer, in a flush, in the
    -- log or in the database, as often as it was accepted or more, where the records that the
    -- current replay has brought to the database do not count in the log, and there are no other
    -- rows.
    pub rows_conserved :
        {s : Service F T} {accepted : List (Row F T)}
        → (threshold timeout : ℕ) (content : Bytes) (rs : List (WalRecord F T))
        → Encodes json content rs
        → Reaches config json
            (new_service threshold timeout (some content))
            (map row_of_record rs)
            s
            accepted
        → Conserves json accepted s
    rows_conserved threshold timeout content rs h =
        Reaches-Conserves (new_service-Conserves threshold timeout content rs h)

    drained_records :
        (w w' : Wal) (rs : List (WalRecord F T))
        → w ≡ w'
        → Represents json w rs
        → Represents json w' []
        → rs ≡ []
    drained_records w w' rs e h n =
        let read = read_all-Represents json laws in
        let same : some rs ≡ some [] =
          sym (read w rs h).0 ∙ ap (λ v. (read_all json reopened v).0) e ∙ (read w' [] n).0 in
        cc

    -- A service that `main` starts on a log of given records, run to any point with any results of
    -- the inserts and of the pings, with records that can be marshalled, a file system that does
    -- what it is told, and no write to the log while a replay reads and clears it, delivers: when
    -- its buffer, its flushes and its log are empty, the database has each row, of the old records
    -- and of the accepted points, as often as it was accepted or more, and no other row.
    pub rows_delivered :
        {s : Service F T} {accepted : List (Row F T)}
        → (threshold timeout : ℕ) (content : Bytes) (rs : List (WalRecord F T))
        → Encodes json content rs
        → Reaches config json
            (new_service threshold timeout (some content))
            (map row_of_record rs)
            s
            accepted
        → IsDrained json s
        → (test : Row F T → Bool)
        → (count_where test accepted ≤ count_where test s.database)
          × (count_where test accepted ≡ 0 → count_where test s.database ≡ 0)
    rows_delivered {s} threshold timeout content rs h reach d test =
        let all = rows_conserved threshold timeout content rs h reach in
        let same : all.log ≡ d.log = let e = all.has_log in let e' = d.has_log in cc in
        let no_records =
          ap (in_records test)
            (drained_records all.log d.log all.records same all.represents d.represents) in
        let no_points = ap (in_points test) d.buffer in
        let no_flushes = in_flushes_none test s.flushes d.flushes in
        (
          omega (arith, all.none_lost test, no_records, no_points, no_flushes),
          λ none_yet. omega (arith, all.none_made test none_yet),
        )
