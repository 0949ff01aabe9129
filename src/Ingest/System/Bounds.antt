-- ===== src/Ingest/System/Bounds.antt =====
-- The size of the buffer, the flush that it waits for, and the points that flushes hold.
pub mod Pending
use space_project.Base.{
  ℕ, suc, ◌+◌, ◌≤◌, ◌<◌, ◌≡◌, refl, sym, ap, ◌∙◌, Bool, true, false, List, [], ◌∷◌, ◌++◌, arith,
  leb, length, length-append, Bool-cases, inl, inr, if◌then◌else◌, count_where, count_where-append,
}
use space_project.Float.{Float}
use space_project.Ingest.{TelemetryPoint, WalRecord, Row}
use space_project.Ingest.Wal.{Json}
use space_project.Ingest.Batch.{BatchConfig, Added, kept, marked, add, add_kept}
use space_project.Ingest.Batch.Flush.{
  Flush, waiting, trying, inserting, spilling, finished, lost, take_batch, begin_attempt,
  end_attempt, spill,
}
use space_project.Ingest.System.{
  Service, with_flush, Turn, ticks, takes_batch, begins_attempt, ends_attempt, spills, checks,
  reports_health, begins_replay, replays_batch, ends_replay, Reaches, starts, posts, turns,
}

abbrev pub is_waiting : {F T : Type 0} → Flush F T → Bool
is_waiting waiting = true
is_waiting _ = false

-- The flushes that have not begun.
abbrev pub count_waiting : {F T : Type 0} → List (Flush F T) → ℕ
count_waiting flushes = count_where is_waiting flushes

-- The buffer is not larger than its limit, and a buffer of a whole batch has a flush on its way.
pub record IsBounded {F T : Type 0} (config : BatchConfig F) (s : Service F T) : Type 0 where
  pub fits : length s.buffer ≤ config.max_buffer_size
  pub is_triggered : config.batch_size ≤ length s.buffer → 0 < count_waiting s.flushes

module _ {F T : Type 0} ⦃f : Float F⦄ (config : BatchConfig F) where
  -- A turn of a flush that has begun leaves the flushes that have not.
  flush_turn :
      (s : Service F T) (before behind : List (Flush F T)) (old new : Flush F T)
      → is_waiting old ≡ false
      → s.flushes ≡ before ++ old ∷ behind
      → 0 < count_waiting s.flushes
      → 0 < count_waiting (before ++ new ∷ behind)
  flush_turn s before behind old new begun e w =
      let was = ap count_waiting e ∙ count_where-append is_waiting before (old ∷ behind) in
      let is = count_where-append is_waiting before (new ∷ behind) in ground (arith, was, is)

  pub take_batch_buffer : (buffer : List (TelemetryPoint F T)) → (take_batch buffer).1 ≡ []
  unfolding take_batch
  take_batch_buffer [] = refl
  take_batch_buffer (point ∷ buffer) = refl

  add-IsBounded :
      (s : Service F T) (point : TelemetryPoint F T) (buffer : List (TelemetryPoint F T))
      (flushes : Bool)
      → add config point s.buffer ≡ kept buffer flushes
      → IsBounded config (record s { buffer = buffer; flushes = with_flush flushes s.flushes })
  add-IsBounded s point buffer flushes e =
      let (room, more, flushed) = add_kept config point s.buffer buffer flushes e in
      let longer = ap length more ∙ length-append s.buffer (marked config point ∷ []) in
      record {
        fits = omega (arith, room, longer);
        is_triggered =
            λ h. let full : flushes ≡ true = ground (arith, flushed, h) in rw full (omega arith);
      }

  module _ (json : Json (WalRecord F T)) (some_size : 0 < config.batch_size) where
    Turn-IsBounded :
        {s s' : Service F T} → Turn config json s s' → IsBounded config s → IsBounded config s'
    Turn-IsBounded (ticks before last e done) h = record {
      fits = h.fits;
      is_triggered = λ _. omega (arith, count_where-append is_waiting before (waiting ∷ []));
    }
    Turn-IsBounded (takes_batch {s} before behind e) h =
        let none_left = ap length (take_batch_buffer s.buffer) in
        record {
          fits = omega (arith, none_left);
          is_triggered = λ full. absurd (omega (arith, full, none_left, some_size));
        }
    Turn-IsBounded (begins_attempt {s} before behind now attempt batch e) h = record {
      fits = h.fits;
      is_triggered =
          λ full. flush_turn s before behind (trying attempt batch) _ refl e (h.is_triggered full);
    }
    Turn-IsBounded (ends_attempt {s} before behind outcome now attempt batch e) h = record {
      fits = h.fits;
      is_triggered = λ full.
          flush_turn s before behind (inserting attempt batch) _ refl e (h.is_triggered full);
    }
    Turn-IsBounded (spills {s} before behind left e n) h = record {
      fits = h.fits;
      is_triggered =
          λ full. flush_turn s before behind (spilling left) _ refl e (h.is_triggered full);
    }
    Turn-IsBounded (checks is_up e) h = record { fits = h.fits; is_triggered = h.is_triggered }
    Turn-IsBounded (reports_health w e) h = record { fits = h.fits; is_triggered = h.is_triggered }
    Turn-IsBounded (begins_replay replays w p e) h = record {
      fits = h.fits;
      is_triggered = h.is_triggered;
    }
    Turn-IsBounded (replays_batch outcome replays before left p n) h = record {
      fits = h.fits;
      is_triggered = h.is_triggered;
    }
    Turn-IsBounded (ends_replay replays before w p e) h = record {
      fits = h.fits;
      is_triggered = h.is_triggered;
    }

    -- In every service that starts with an empty buffer and has a batch size that is not 0, however
    -- its requests, ticks, flushes and replays are interleaved, the buffer never holds more points
    -- than its limit, and whenever it holds a whole batch a flush that has not begun is on its way.
    pub Reaches-IsBounded :
        {start : Service F T} {rows : List (Row F T)} {s : Service F T} {accepted : List (Row F T)}
        → start.buffer ≡ []
        → Reaches config json start rows s accepted
        → IsBounded config s
    Reaches-IsBounded b starts =
        let empty = ap length b in
        record {
          fits = omega (arith, empty);
          is_triggered = λ full. absurd (omega (arith, full, empty, some_size));
        }
    Reaches-IsBounded b (posts {s} point buffer flushes reach e) =
        add-IsBounded s point buffer flushes e
    Reaches-IsBounded b (turns reach turn) = Turn-IsBounded turn (Reaches-IsBounded b reach)
