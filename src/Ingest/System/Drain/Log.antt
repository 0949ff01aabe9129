-- ===== src/Ingest/System/Drain/Log.antt =====
-- The turns of a replay that empties the log.
use space_project.Base.{
  ℕ, zero, suc, ◌≤◌, ◌≡◌, refl, ap, some, List, [], ◌∷◌, ◌++◌, arith, length, length-drop, take,
  Bool, not, count_where, drop,
}
use space_project.Float.{Float}
use space_project.Ingest.{WalRecord, Row}
use space_project.Ingest.Wal.{Bytes, Json, Wal, reopened, read_all}
use space_project.Ingest.Wal.Lines.{IsJson}
use space_project.Ingest.Wal.Laws.{Represents, read_all-Represents, clear-Represents}
use space_project.Ingest.Batch.{BatchConfig}
use space_project.Ingest.Batch.Flush.{committed}
use space_project.Ingest.Monitor.{
  to_read, replaying, next_replay, replay_batch_size, begin_replay, after_read, replay_batch,
  end_replay,
}
use space_project.Ingest.System.{Service, begins_replay, replays_batch, ends_replay}
use space_project.Ingest.System.Conserves.{Conserves}
use space_project.Ingest.System.Drain.{Goes, Goes-Conserves, go_on}

module _ {F T : Type 0} ⦃f : Float F⦄ (config : BatchConfig F) (json : Json (WalRecord F T))
    (laws : IsJson json) (marshals : (r : WalRecord F T) → (b : Bytes) × (json.marshal r ≡ some b))
    (takes : Row F T → Bool) (origin : Service F T) (accepted : List (Row F T))
    (conserved : Conserves json accepted origin)
    (taken : count_where (λ row. not (takes row)) accepted ≡ 0) where
  -- A state that is reached from `s` with an empty log and the buffer and the flushes as they were.
  pub record Replayed (s : Service F T) (replays : ℕ) : Type 0 where
    pub state : Service F T
    pub reach : Goes config json takes origin state
    pub buffer : state.buffer ≡ s.buffer
    pub flushes : state.flushes ≡ s.flushes
    pub place : state.monitor.place ≡ next_replay replays
    pub log : Wal
    pub has_log : state.log ≡ some log
    pub represents : Represents json log []

  pub finish_replay :
      (fuel replays : ℕ) (before left : List (WalRecord F T)) (s : Service F T)
      → Goes config json takes origin s
      → s.monitor.place ≡ replaying replays before left
      → length left ≤ fuel
      → Replayed s replays
  unfolding end_replay replay_batch
  finish_replay fuel replays before [] s reach p l =
      let h = Goes-Conserves config json laws marshals takes origin accepted conserved reach in
      record {
        state = _;
        reach =
            go_on config json laws marshals takes origin accepted conserved taken reach
              (ends_replay replays before h.log p h.has_log);
        buffer = refl;
        flushes = refl;
        place = refl;
        log = _;
        has_log = refl;
        represents = (clear-Represents json laws h.log h.records h.represents).1;
      }
  finish_replay zero replays before (r ∷ left) s reach p l = absurd (omega arith)
  finish_replay (suc fuel) replays before (r ∷ left) s reach p l =
      let s' : Service F T = record s {
        monitor = record (s.monitor) {
          place = (replay_batch committed replays before (r ∷ left)).0;
        };
        database = s.database ++ (replay_batch committed replays before (r ∷ left)).1;
      } in
      let rest =
        finish_replay fuel replays (before ++ take replay_batch_size (r ∷ left))
          (drop replay_batch_size (r ∷ left)) s'
          (go_on config json laws marshals takes origin accepted conserved taken reach
            (replays_batch committed replays before (r ∷ left) p (λ e. cc)))
          refl (omega (arith, length-drop replay_batch_size (r ∷ left))) in
      record {
        state = rest.state;
        reach = rest.reach;
        buffer = rest.buffer;
        flushes = rest.flushes;
        place = rest.place;
        log = rest.log;
        has_log = rest.has_log;
        represents = rest.represents;
      }

  pub replay_all :
      (replays : ℕ) (s : Service F T)
      → Goes config json takes origin s
      → s.monitor.place ≡ to_read replays
      → Replayed s replays
  unfolding begin_replay
  replay_all replays s reach p =
      let h = Goes-Conserves config json laws marshals takes origin accepted conserved reach in
      let read = read_all-Represents json laws h.log h.records h.represents in
      go h.log h.records h.has_log read.0 read.1
    where
      go :
          (w : Wal) (records : List (WalRecord F T))
          → s.log ≡ some w
          → (read_all json reopened w).0 ≡ some records
          → Represents json (read_all json reopened w).1 records
          → Replayed s replays
      go w [] e read h = record {
        state = _;
        reach =
            go_on config json laws marshals takes origin accepted conserved taken reach
              (begins_replay replays w p e);
        buffer = refl;
        flushes = refl;
        place = ap (after_read replays) read;
        log = _;
        has_log = refl;
        represents = h;
      }
      go w (r ∷ records) e read h =
          let s' : Service F T = record s {
            monitor = record (s.monitor) { place = (begin_replay json reopened replays w).0 };
            log = some (begin_replay json reopened replays w).1;
          } in
          let rest =
            finish_replay (length (r ∷ records)) replays [] (r ∷ records) s'
              (go_on config json laws marshals takes origin accepted conserved taken reach
                (begins_replay replays w p e))
              (ap (after_read replays) read) (omega arith) in
          record {
            state = rest.state;
            reach = rest.reach;
            buffer = rest.buffer;
            flushes = rest.flushes;
            place = rest.place;
            log = rest.log;
            has_log = rest.has_log;
            represents = rest.represents;
          }
