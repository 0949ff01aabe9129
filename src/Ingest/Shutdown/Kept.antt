-- ===== src/Ingest/Shutdown/Kept.antt =====
-- A process that has nothing in its buffer and its flushes when `main` closes the log.
use space_project.Base.{
  ℕ, ◌≡◌, refl, ap, ◌∙◌, true, some, List, [], map, if◌then◌else◌, arith, All, Bool-cases, inl, inr,
}
use space_project.Float.{Float}
use space_project.Ingest.{WalRecord, Row, row_of_record}
use space_project.Ingest.Wal.{Bytes, Json, close}
use space_project.Ingest.Wal.Lines.{IsJson, Encodes}
use space_project.Ingest.Batch.{BatchConfig}
use space_project.Ingest.Monitor.{idle}
use space_project.Ingest.System.{Service, new_service, Reaches}
use space_project.Ingest.System.Rows.{held, in_points}
use space_project.Ingest.System.Delivery.{in_flushes_none}
use space_project.Ingest.Shutdown.{
  Main, at_signal, at_log_close, at_server_shutdown, at_monitor_stop, at_monitor_wait,
  at_processor_stop, exited, panicked, Process, closed_log, main_turn, Step, main_turns,
  service_turns, accepts, monitor_returns, processor_returns, Runs,
}
use space_project.Ingest.Shutdown.Laws.{Runs-IsIn}
use space_project.Ingest.Shutdown.Ends.{close_after_replay}
use space_project.Ingest.Shutdown.Durable.{
  IsStored, IsStored-same, IsStored-more, HoldsMore-same, Turn-IsStored,
}

-- The places from the close of the log on.
abbrev pub IsAfter : Main → Type 0
IsAfter at_log_close = Unit
IsAfter at_server_shutdown = Unit
IsAfter (at_monitor_stop is_deferred) = is_deferred ≡ true
IsAfter (at_monitor_wait is_deferred) = is_deferred ≡ true
IsAfter exited = Unit
IsAfter panicked = Unit
IsAfter _ = ⊥

module _ {F T : Type 0} ⦃f : Float F⦄ (config : BatchConfig F) (json : Json (WalRecord F T)) where
  -- What comes after a point of a run.
  pub data Continues (m : Main) (p : Process F T) (rows : List (Row F T))
      : Main → Process F T → List (Row F T) → Type 0 where
    stays : Continues m p rows m p rows
    goes :
        {m' m'' : Main} {p' p'' : Process F T} {rows' rows'' : List (Row F T)}
        → Continues m p rows m' p' rows'
        → Step config json m' p' rows' m'' p'' rows''
        → Continues m p rows m'' p'' rows''

  record IsSettled (stored_rows : List (Row F T)) (m : Main) (p : Process F T) : Type 0 where
    after : IsAfter m
    returned : p.monitor_returned ≡ true
    rests : p.service.monitor.place ≡ idle
    is_stored : IsStored json stored_rows p.service

  module _ (stored_rows : List (Row F T)) where
    IsSettled-at :
        (m m' : Main) (p : Process F T)
        → IsAfter m'
        → IsSettled stored_rows m p
        → IsSettled stored_rows m' p
    IsSettled-at m m' p after h = record {
      after = after;
      returned = h.returned;
      rests = h.rests;
      is_stored = h.is_stored;
    }

    main_turn-IsSettled :
        (m : Main) (p : Process F T)
        → IsSettled stored_rows m p
        → IsSettled stored_rows (main_turn m p).0 (main_turn m p).1
    unfolding main_turn close
    main_turn-IsSettled at_signal p h = absurd h.after
    main_turn-IsSettled (at_monitor_stop is_deferred) p h = elim (Bool-cases p.stop_closed) [
      | inl e ↦
          rw e
            (record { after = tt; returned = h.returned; rests = h.rests; is_stored = h.is_stored })
      | inr e ↦ rw e (record {
        after = h.after;
        returned = h.returned;
        rests = h.rests;
        is_stored = h.is_stored;
      })
    ]
    main_turn-IsSettled (at_monitor_wait is_deferred) p h =
        let here = h.after in
        let returned = h.returned in
        let next : (if p.monitor_returned
              then if is_deferred then exited else at_processor_stop
              else at_monitor_wait is_deferred)
            ≡ exited =
          rw (returned, here) refl in
        rw next (IsSettled-at (at_monitor_wait is_deferred) exited p tt h)
    main_turn-IsSettled at_processor_stop p h = absurd h.after
    main_turn-IsSettled at_log_close p h = record {
      after = tt;
      returned = h.returned;
      rests = h.rests;
      is_stored =
          IsStored-more json stored_rows _ _ h.is_stored (close h.is_stored.log)
            (ap closed_log h.is_stored.has_log)
            (HoldsMore-same json h.is_stored.log _ h.is_stored.records refl h.is_stored.holds)
            (λ test. omega arith);
    }
    main_turn-IsSettled at_server_shutdown p h = elim (Bool-cases p.has_log) [
      | inl e ↦
          rw e (record {
            after = refl;
            returned = h.returned;
            rests = h.rests;
            is_stored = h.is_stored;
          })
      | inr e ↦
          rw e
            (record { after = tt; returned = h.returned; rests = h.rests; is_stored = h.is_stored })
    ]
    main_turn-IsSettled exited p h = h
    main_turn-IsSettled panicked p h = h

    Step-IsSettled :
        {m : Main} {p : Process F T} {rows : List (Row F T)} {m' : Main} {p' : Process F T}
        {rows' : List (Row F T)}
        → IsJson json
        → Step config json m p rows m' p' rows'
        → IsSettled stored_rows m p
        → IsSettled stored_rows m' p'
    Step-IsSettled laws (main_turns {m} {p}) h = main_turn-IsSettled m p h
    Step-IsSettled laws (service_turns runs turn same no_tick) h = record {
      after = h.after;
      returned = h.returned;
      rests = ap (λ monitor. monitor.place) (same h.returned) ∙ h.rests;
      is_stored = Turn-IsStored config json laws stored_rows turn h.rests h.is_stored;
    }
    Step-IsSettled laws (accepts point buffer flushes runs e) h = record {
      after = h.after;
      returned = h.returned;
      rests = h.rests;
      is_stored = IsStored-same json stored_rows _ _ h.is_stored refl (λ test. omega arith);
    }
    Step-IsSettled laws (monitor_returns runs stop rests) h = record {
      after = h.after;
      returned = refl;
      rests = h.rests;
      is_stored = h.is_stored;
    }
    Step-IsSettled laws (processor_returns before last runs done e e' d) h = record {
      after = h.after;
      returned = h.returned;
      rests = h.rests;
      is_stored = IsStored-same json stored_rows _ _ h.is_stored refl (λ test. omega arith);
    }

    Continues-IsSettled :
        {m : Main} {p : Process F T} {rows : List (Row F T)} {m' : Main} {p' : Process F T}
        {rows' : List (Row F T)}
        → IsJson json
        → Continues m p rows m' p' rows'
        → IsSettled stored_rows m p
        → IsSettled stored_rows m' p'
    Continues-IsSettled laws stays h = h
    Continues-IsSettled laws (goes run step) h =
        Step-IsSettled laws step (Continues-IsSettled laws run h)

  module _ (laws : IsJson json)
      (marshals : (r : WalRecord F T) → (b : Bytes) × (json.marshal r ≡ some b)) where
    -- A process that `main` starts on a log of given records, that gets the signal at any time, and
    -- whose buffer and flushes are empty when `main` is about to close the log, with records that
    -- can be marshalled, a file system that does what it is told, and no write to the log while a
    -- replay reads and clears it, keeps what it has accepted until then: at every point from there
    -- to its end, each row, of the old records and of these points, is in the file of the log or in
    -- the database, as often as it was accepted or more.
    pub close_keeps :
        {s : Service F T} {accepted : List (Row F T)} {p : Process F T} {accepted' : List (Row F T)}
        → {m : Main} {p' : Process F T} {accepted'' : List (Row F T)}
        → (threshold timeout : ℕ) (content : Bytes) (rs : List (WalRecord F T))
        → Encodes json content rs
        → Reaches config json
            (new_service threshold timeout (some content))
            (map row_of_record rs)
            s
            accepted
        → Runs config json s accepted at_log_close p accepted'
        → p.service.buffer ≡ []
        → All (λ flush. held flush ≡ []) p.service.flushes
        → Continues at_log_close p accepted' m p' accepted''
        → IsStored json accepted' p'.service
    close_keeps {p} {accepted'} threshold timeout content rs h reach run no_buffer no_flushes more =
        let (rests, c) =
          close_after_replay config json laws marshals threshold timeout content rs h reach run in
        let start : IsSettled accepted' at_log_close p = record {
          after = tt;
          returned = (Runs-IsIn config json run).2;
          rests = rests;
          is_stored = record {
            log = c.log;
            records = c.records;
            has_log = c.has_log;
            holds = record {
              content = c.represents.content;
              file = c.represents.file;
              encodes = c.represents.encodes;
            };
            stored = λ test. omega (
              arith,
              c.none_lost test,
              ap (in_points test) no_buffer,
              in_flushes_none test p.service.flushes no_flushes,
            );
          };
        } in
        (Continues-IsSettled accepted' laws more start).is_stored
