-- ===== src/Ingest/System/Drain/Buffer.antt =====
-- The turns until all flushes have returned, and the buffer is empty.
use mathlib.Core.Path.{subst}
use mathlib.Core.List.{append-nil, append_assoc}
use space_project.Base.{
  ◌≡◌, refl, sym, ap, ◌∙◌, Bool, true, false, count_where, not, some, List, [], ◌∷◌, ◌++◌, All,
  All-append,
}
use space_project.Float.{Float}
use space_project.Ingest.{WalRecord, Row}
use space_project.Ingest.Wal.{Bytes, Json}
use space_project.Ingest.Wal.Lines.{IsJson}
use space_project.Ingest.Batch.{BatchConfig}
use space_project.Ingest.Batch.Flush.{Flush, waiting}
use space_project.Ingest.System.{
  Service, IsDone, IsReplaying, with_flush, Turn, ticks, takes_batch, begins_attempt, ends_attempt,
  spills, checks, reports_health, begins_replay, replays_batch, ends_replay, Reaches, starts, posts,
  turns,
}
use space_project.Ingest.System.Conserves.{Conserves}
use space_project.Ingest.System.Rows.{held, IsDone-held}
use space_project.Ingest.System.Drain.{Goes, here, goes_on, go_on, empty_waiting, empty_flush}

-- All flushes have returned.
abbrev pub AreDone : {F T : Type 0} → List (Flush F T) → Type 0
AreDone = All IsDone

pub AreDone-held :
    {F T : Type 0} (flushes : List (Flush F T))
    → AreDone flushes
    → All (λ flush. held flush ≡ []) flushes
AreDone-held [] a = tt
AreDone-held (flush ∷ flushes) a = (IsDone-held flush a.0, AreDone-held flushes a.1)

-- The loop of `Start` has its flush.
module _ {F T : Type 0} where
  abbrev pub HasFlush : List (Flush F T) → Type 0
  HasFlush [] = ⊥
  HasFlush (_ ∷ _) = Unit

  append-HasFlush :
      (before behind : List (Flush F T)) (flush : Flush F T) → HasFlush (before ++ flush ∷ behind)
  append-HasFlush [] behind flush = tt
  append-HasFlush (_ ∷ before) behind flush = tt

  with_flush-HasFlush :
      (b : Bool) (flushes : List (Flush F T)) → HasFlush flushes → HasFlush (with_flush b flushes)
  with_flush-HasFlush true flushes h = tt
  with_flush-HasFlush false flushes h = h

-- The last flush, which is the one of the loop of `Start`.
last_flush :
    {F T : Type 0} (flushes : List (Flush F T))
    → HasFlush flushes
    → AreDone flushes
    → (before : List (Flush F T)) × ((last : Flush F T) × (flushes ≡ before ++ last ∷ [])
        × AreDone before
        × IsDone last)
last_flush [] h a = absurd h
last_flush (last ∷ []) h a = ([], (last, refl, tt, a.0))
last_flush (flush ∷ next ∷ flushes) h a =
    let (before, (last, e, b, d)) = last_flush (next ∷ flushes) tt a.1 in
    (flush ∷ before, (last, ap (λ l. flush ∷ l) e, (a.0, b), d))

module _ {F T : Type 0} ⦃f : Float F⦄ (config : BatchConfig F) (json : Json (WalRecord F T)) where
  Turn-HasFlush :
      {s s' : Service F T} → HasFlush s.flushes → Turn config json s s' → HasFlush s'.flushes
  Turn-HasFlush h (ticks before last e done) = append-HasFlush before [] waiting
  Turn-HasFlush h (takes_batch before behind e) = append-HasFlush before behind _
  Turn-HasFlush h (begins_attempt before behind now attempt batch e) =
      append-HasFlush before behind _
  Turn-HasFlush h (ends_attempt before behind outcome now attempt batch e) =
      append-HasFlush before behind _
  Turn-HasFlush h (spills before behind left e n) = append-HasFlush before behind _
  Turn-HasFlush h (checks is_up e) = h
  Turn-HasFlush h (reports_health w e) = h
  Turn-HasFlush h (begins_replay replays w p e) = h
  Turn-HasFlush h (replays_batch outcome replays before left p n) = h
  Turn-HasFlush h (ends_replay replays before w p e) = h

  pub Reaches-HasFlush :
      {start : Service F T} {rows : List (Row F T)} {s : Service F T} {accepted : List (Row F T)}
      → HasFlush start.flushes
      → Reaches config json start rows s accepted
      → HasFlush s.flushes
  Reaches-HasFlush h starts = h
  Reaches-HasFlush h (posts {s} point buffer flushes reach e) =
      with_flush-HasFlush flushes s.flushes (Reaches-HasFlush h reach)
  Reaches-HasFlush h (turns reach turn) = Turn-HasFlush (Reaches-HasFlush h reach) turn

  Goes-HasFlush :
      (takes : Row F T → Bool) {origin s : Service F T}
      → HasFlush origin.flushes
      → Goes config json takes origin s
      → HasFlush s.flushes
  Goes-HasFlush takes h here = h
  Goes-HasFlush takes h (goes_on way turn same) = Turn-HasFlush (Goes-HasFlush takes h way) turn

module _ {F T : Type 0} ⦃f : Float F⦄ (config : BatchConfig F) (json : Json (WalRecord F T))
    (laws : IsJson json) (marshals : (r : WalRecord F T) → (b : Bytes) × (json.marshal r ≡ some b))
    (takes : Row F T → Bool) (origin : Service F T) (accepted : List (Row F T))
    (conserved : Conserves json accepted origin)
    (taken : count_where (λ row. not (takes row)) accepted ≡ 0) where
  pub record Flushed (s : Service F T) : Type 0 where
    pub state : Service F T
    pub reach : Goes config json takes origin state
    pub empty : AreDone state.flushes
    pub monitor : state.monitor ≡ s.monitor
    pub buffer : s.buffer ≡ [] → state.buffer ≡ []

  pub empty_flushes :
      (behind before : List (Flush F T)) (s : Service F T)
      → Goes config json takes origin s
      → s.flushes ≡ before ++ behind
      → AreDone before
      → ¬ (IsReplaying s.monitor.place)
      → Flushed s
  empty_flushes [] before s reach e a n = record {
    state = s;
    reach = reach;
    empty = subst AreDone (sym (append-nil before) ∙ sym e) a;
    monitor = refl;
    buffer = λ b. b;
  }
  empty_flushes (old ∷ behind) before s reach e a n =
      let one =
        empty_flush config json laws marshals takes origin accepted conserved taken old s before
          behind reach e n in
      let rest =
        empty_flushes behind (before ++ one.flush ∷ []) one.state one.reach
          (one.now ∙ sym (append_assoc before (one.flush ∷ []) behind))
          (All-append IsDone before (one.flush ∷ []) a (one.done, tt))
          (subst (λ m. ¬ (IsReplaying m.place)) (sym one.monitor) n) in
      record {
        state = rest.state;
        reach = rest.reach;
        empty = rest.empty;
        monitor = rest.monitor ∙ one.monitor;
        buffer = λ b. rest.buffer (one.buffer b);
      }

  -- The buffer, by a flush that the ticker starts.
  pub empty_buffer :
      (s : Service F T)
      → Goes config json takes origin s
      → HasFlush origin.flushes
      → AreDone s.flushes
      → ¬ (IsReplaying s.monitor.place)
      → (s' : Service F T) × Goes config json takes origin s'
        × AreDone s'.flushes
        × (s'.buffer ≡ [])
        × (s'.monitor ≡ s.monitor)
  empty_buffer s reach h a n =
      let (before, (last, e, b, d)) =
        last_flush s.flushes (Goes-HasFlush config json takes h reach) a in
      let ticked : Service F T = record s { flushes = before ++ waiting ∷ [] } in
      let (x, none_left) =
        empty_waiting config json laws marshals takes origin accepted conserved taken ticked before
          []
          (go_on config json laws marshals takes origin accepted conserved taken reach
            (ticks before last e d))
          refl n in
      (
        x.state,
        x.reach,
        subst AreDone (sym x.now) (All-append IsDone before (x.flush ∷ []) b (x.done, tt)),
        none_left,
        x.monitor,
      )
