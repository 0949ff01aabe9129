-- ===== src/Ingest/System/Drain.antt =====
-- The turns that a flush takes until it returns, where the database takes its rows.
pub mod Buffer
pub mod Log
pub mod Whole
use mathlib.Core.Path.{subst}
use mathlib.Core.List.{append-nil, append_assoc}
use space_project.Base.{
  ℕ, zero, suc, ◌-◌, ◌≤◌, ◌≡◌, ◌≢◌, refl, sym, ap, ◌∙◌, Bool, true, false, Option, none, some, List,
  [], ◌∷◌, ◌++◌, arith, All, All-append, ◌⊎◌, inl, inr, length, take, drop, is_empty, if◌then◌else◌,
  ltb, count_where, not,
}
use space_project.Float.{Float}
use space_project.Ingest.{TelemetryPoint, WalRecord, Row, record_of}
use space_project.Ingest.Breaker.{CircuitBreaker, allow}
use space_project.Ingest.Wal.{Bytes, Json, Wal, written, reopened, write}
use space_project.Ingest.Wal.Lines.{IsJson}
use space_project.Ingest.Wal.Laws.{Represents, write-Represents}
use space_project.Ingest.Batch.{BatchConfig}
use space_project.Ingest.Batch.Flush.{
  InsertOutcome, committed, Flush, waiting, trying, inserting, spilling, finished, lost, take_batch,
  begin_attempt, end_attempt, spill, spill_written, begin_attempt_next,
}
use space_project.Ingest.Monitor.{Place, idle, to_read, replaying}
use space_project.Ingest.System.{
  Service, IsDone, IsReplaying, Turn, ticks, takes_batch, begins_attempt, ends_attempt, spills,
  Reaches, turns,
}
use space_project.Ingest.System.Conserves.{Conserves}
use space_project.Ingest.System.Rows.{held}
use space_project.Ingest.System.Laws.{Turn-Conserves}

module _ {F T : Type 0} ⦃f : Float F⦄ (config : BatchConfig F) (json : Json (WalRecord F T))
    (takes : Row F T → Bool) where
  -- What turns lead to from `origin`, where the schema of the database takes the rows that pass
  -- `takes`: no turn brings another row into it.
  pub data Goes (origin : Service F T) : Service F T → Type 0 where
    here : Goes origin origin
    goes_on :
        {s s' : Service F T}
        → Goes origin s
        → Turn config json s s'
        → count_where (λ row. not (takes row)) s'.database
          ≡ count_where (λ row. not (takes row)) s.database
        → Goes origin s'

  pub Goes-Reaches :
      {start origin s : Service F T} {rows accepted : List (Row F T)}
      → Reaches config json start rows origin accepted
      → Goes origin s
      → Reaches config json start rows s accepted
  Goes-Reaches reach here = reach
  Goes-Reaches reach (goes_on way turn same) = turns (Goes-Reaches reach way) turn

  pub Goes-refused :
      {origin s : Service F T}
      → Goes origin s
      → count_where (λ row. not (takes row)) s.database
        ≡ count_where (λ row. not (takes row)) origin.database
  Goes-refused here = refl
  Goes-refused (goes_on way turn same) = same ∙ Goes-refused way

module _ {F T : Type 0} ⦃f : Float F⦄ (config : BatchConfig F) (json : Json (WalRecord F T))
    (laws : IsJson json) (marshals : (r : WalRecord F T) → (b : Bytes) × (json.marshal r ≡ some b))
    (takes : Row F T → Bool) (origin : Service F T) (accepted : List (Row F T))
    (conserved : Conserves json accepted origin) where
  pub Goes-Conserves :
      {s : Service F T} → Goes config json takes origin s → Conserves json accepted s
  Goes-Conserves here = conserved
  Goes-Conserves (goes_on way turn same) =
      Turn-Conserves config json laws marshals accepted turn (Goes-Conserves way)

module _ {F T : Type 0} ⦃f : Float F⦄ (config : BatchConfig F) (json : Json (WalRecord F T))
    (laws : IsJson json) (marshals : (r : WalRecord F T) → (b : Bytes) × (json.marshal r ≡ some b))
    (takes : Row F T → Bool) (origin : Service F T) (accepted : List (Row F T))
    (conserved : Conserves json accepted origin)
    (taken : count_where (λ row. not (takes row)) accepted ≡ 0) where
  -- Every row that is in the service is one that the schema takes.
  pub go_on :
      {s s' : Service F T}
      → Goes config json takes origin s
      → Turn config json s s'
      → Goes config json takes origin s'
  go_on way turn =
      let refused = λ (row : Row F T). not (takes row) in
      let h = Goes-Conserves config json laws marshals takes origin accepted conserved way in
      let h' = Turn-Conserves config json laws marshals accepted turn h in
      goes_on way turn (omega (arith, h.none_made refused taken, h'.none_made refused taken))

  -- A state that turns lead to with a flush that has returned in the place of one.
  pub record Emptied (s : Service F T) (before behind : List (Flush F T)) : Type 0 where
    pub state : Service F T
    pub reach : Goes config json takes origin state
    pub flush : Flush F T
    pub now : state.flushes ≡ before ++ flush ∷ behind
    pub done : IsDone flush
    pub monitor : state.monitor ≡ s.monitor
    pub buffer : s.buffer ≡ [] → state.buffer ≡ []

  spill_all :
      (left : List (TelemetryPoint F T)) (s : Service F T) (before behind : List (Flush F T))
      → Goes config json takes origin s
      → s.flushes ≡ before ++ spilling left ∷ behind
      → ¬ (IsReplaying s.monitor.place)
      → Emptied s before behind
  unfolding spill
  spill_all [] s before behind reach e n =
      let h = Goes-Conserves config json laws marshals takes origin accepted conserved reach in
      let done : (spill json written [] s.log).0 ≡ finished =
        ap (λ log. (spill json written [] log).0) h.has_log in
      record {
        state = _;
        reach = go_on reach (spills before behind [] e n);
        flush = finished;
        now = ap (λ flush. before ++ flush ∷ behind) done;
        done = tt;
        monitor = refl;
        buffer = λ b. b;
      }
  spill_all (point ∷ left) s before behind reach e n =
      let h = Goes-Conserves config json laws marshals takes origin accepted conserved reach in
      let (b, m) = marshals (record_of point) in
      let wrote = write-Represents json laws h.log h.records (record_of point) b m h.represents in
      let w = (write json written (record_of point) h.log).1 in
      let done : (spill json written (point ∷ left) s.log).0 ≡ spilling left =
        ap (λ log. (spill json written (point ∷ left) log).0) h.has_log
        ∙ ap (λ t. t.0)
            (spill_written json written point left h.log w (ap (λ r. (r, w)) wrote.0)) in
      let s' : Service F T = record s {
        flushes = before ++ (spill json written (point ∷ left) s.log).0 ∷ behind;
        log = (spill json written (point ∷ left) s.log).1;
      } in
      let rest =
        spill_all left s' before behind (go_on reach (spills before behind (point ∷ left) e n))
          (ap (λ flush. before ++ flush ∷ behind) done) n in
      record {
        state = rest.state;
        reach = rest.reach;
        flush = rest.flush;
        now = rest.now;
        done = rest.done;
        monitor = rest.monitor;
        buffer = rest.buffer;
      }

  insert_batch :
      (attempt : ℕ) (batch : List (TelemetryPoint F T)) (s : Service F T)
      (before behind : List (Flush F T))
      → Goes config json takes origin s
      → s.flushes ≡ before ++ inserting attempt batch ∷ behind
      → Emptied s before behind
  unfolding end_attempt
  insert_batch attempt batch s before behind reach e = record {
    state = _;
    reach = go_on reach (ends_attempt before behind committed 0 attempt batch e);
    flush = finished;
    now = refl;
    done = tt;
    monitor = refl;
    buffer = λ b. b;
  }

  try_batch :
      (attempt : ℕ) (batch : List (TelemetryPoint F T)) (s : Service F T)
      (before behind : List (Flush F T))
      → Goes config json takes origin s
      → s.flushes ≡ before ++ trying attempt batch ∷ behind
      → ¬ (IsReplaying s.monitor.place)
      → Emptied s before behind
  try_batch attempt batch s before behind reach e n =
      let (flush, breaker) = begin_attempt config.max_retries 0 attempt batch s.breaker in
      let s' : Service F T = record s { flushes = before ++ flush ∷ behind; breaker = breaker } in
      let reach' : Goes config json takes origin s' =
        go_on reach (begins_attempt before behind 0 attempt batch e) in
      elim (begin_attempt_next config.max_retries batch attempt 0 s.breaker) [
        | inl (i, _) ↦
            let rest =
              insert_batch attempt batch s' before behind reach'
                (ap (λ flush. before ++ flush ∷ behind) i) in
            record {
              state = rest.state;
              reach = rest.reach;
              flush = rest.flush;
              now = rest.now;
              done = rest.done;
              monitor = rest.monitor;
              buffer = rest.buffer;
            }
        | inr i ↦
            let rest =
              spill_all batch s' before behind reach' (ap (λ flush. before ++ flush ∷ behind) i)
                n in
            record {
              state = rest.state;
              reach = rest.reach;
              flush = rest.flush;
              now = rest.now;
              done = rest.done;
              monitor = rest.monitor;
              buffer = rest.buffer;
            }
      ]

  -- A flush that begins empties the buffer too.
  pub empty_waiting :
      (s : Service F T) (before behind : List (Flush F T))
      → Goes config json takes origin s
      → s.flushes ≡ before ++ waiting ∷ behind
      → ¬ (IsReplaying s.monitor.place)
      → (x : Emptied s before behind) × (x.state.buffer ≡ [])
  unfolding take_batch
  empty_waiting s before behind reach e n = take_buffer s.buffer refl
    where
      take_buffer :
          (buffer : List (TelemetryPoint F T))
          → s.buffer ≡ buffer
          → (x : Emptied s before behind) × (x.state.buffer ≡ [])
      take_buffer [] b =
          let none_left = ap (λ buffer. (take_batch buffer).1) b in
          (
            record {
              state = _;
              reach = go_on reach (takes_batch before behind e);
              flush = finished;
              now = ap (λ buffer. before ++ (take_batch buffer).0 ∷ behind) b;
              done = tt;
              monitor = refl;
              buffer = λ _. none_left;
            },
            none_left,
          )
      take_buffer (point ∷ points) b =
          let s' : Service F T = record s {
            flushes = before ++ (take_batch s.buffer).0 ∷ behind;
            buffer = (take_batch s.buffer).1;
          } in
          let rest =
            try_batch 0 (point ∷ points) s' before behind
              (go_on reach (takes_batch before behind e))
              (ap (λ buffer. before ++ (take_batch buffer).0 ∷ behind) b) n in
          let none_left = rest.buffer (ap (λ buffer. (take_batch buffer).1) b) in
          (
            record {
              state = rest.state;
              reach = rest.reach;
              flush = rest.flush;
              now = rest.now;
              done = rest.done;
              monitor = rest.monitor;
              buffer = λ _. none_left;
            },
            none_left,
          )

  -- Any flush can return.
  pub empty_flush :
      (old : Flush F T) (s : Service F T) (before behind : List (Flush F T))
      → Goes config json takes origin s
      → s.flushes ≡ before ++ old ∷ behind
      → ¬ (IsReplaying s.monitor.place)
      → Emptied s before behind
  empty_flush waiting s before behind reach e n = (empty_waiting s before behind reach e n).0
  empty_flush (trying attempt batch) s before behind reach e n =
      try_batch attempt batch s before behind reach e n
  empty_flush (inserting attempt batch) s before behind reach e n =
      insert_batch attempt batch s before behind reach e
  empty_flush (spilling left) s before behind reach e n = spill_all left s before behind reach e n
  empty_flush finished s before behind reach e n = record {
    state = s;
    reach = reach;
    flush = finished;
    now = e;
    done = tt;
    monitor = refl;
    buffer = λ b. b;
  }
  empty_flush (lost left) s before behind reach e n = record {
    state = s;
    reach = reach;
    flush = lost left;
    now = e;
    done = tt;
    monitor = refl;
    buffer = λ b. b;
  }
