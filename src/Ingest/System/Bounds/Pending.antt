-- ===== src/Ingest/System/Bounds/Pending.antt =====
-- Points in flushes, which the limit of the buffer does not count.
use space_project.Base.{
  ℕ, zero, suc, ◌+◌, ◌≤◌, ◌<◌, ◌≡◌, refl, ap, ◌∙◌, Bool, true, false, List, [], ◌∷◌, ◌++◌, arith,
  leb, length, length-append, Bool-cases, inl, inr,
}
use space_project.Float.{Float}
use space_project.Ingest.{TelemetryPoint, WalRecord, Row}
use space_project.Ingest.Wal.{Json}
use space_project.Ingest.Batch.{BatchConfig, kept, marked, add}
use space_project.Ingest.Batch.Flush.{Flush, waiting}
use space_project.Ingest.System.{Service, takes_batch, Reaches, starts, posts, turns}
use space_project.Ingest.System.Rows.{in_points, in_flushes, in_points-append, take_batch-points}
use space_project.Ingest.System.Bounds.{take_batch_buffer}

-- The points that flushes hold.
abbrev pub pending : {F T : Type 0} → List (Flush F T) → ℕ
pending flushes = in_flushes (λ _. true) flushes

module _ {F T : Type 0} ⦃f : Float F⦄ (config : BatchConfig F) (json : Json (WalRecord F T))
    (start : Service F T) (rows : List (Row F T)) where
  -- A state with an empty buffer and at least `n` points in flushes.
  pub record HasPending (n : ℕ) : Type 0 where
    pub state : Service F T
    pub accepted : List (Row F T)
    pub reach : Reaches config json start rows state accepted
    pub no_buffer : state.buffer ≡ []
    pub many : n ≤ pending state.flushes

  add_room :
      (point : TelemetryPoint F T) (buffer : List (TelemetryPoint F T))
      → length buffer < config.max_buffer_size
      → add config point buffer
        ≡ kept
            (buffer ++ marked config point ∷ [])
            (leb config.batch_size (length (buffer ++ marked config point ∷ [])))
  unfolding add
  add_room point buffer h =
      let room : leb config.max_buffer_size (length buffer) ≡ false = ground arith in rw room refl

  -- A flush that has not begun takes the buffer.
  take_full :
      (batch : List (TelemetryPoint F T)) (s : Service F T) {accepted : List (Row F T)} {n : ℕ}
      → Reaches config json start rows
          (record s { buffer = batch; flushes = waiting ∷ s.flushes })
          accepted
      → n ≤ in_points (λ _. true) batch + pending s.flushes
      → HasPending n
  take_full batch s reach many = record {
    state = _;
    accepted = _;
    reach = turns reach (
        takes_batch {s = record s { buffer = batch; flushes = waiting ∷ s.flushes }} [] s.flushes
          refl);
    no_buffer = take_batch_buffer config batch;
    many = omega (
      arith,
      many,
      take_batch-points (λ _. true) batch,
      ap (in_points (λ _. true)) (take_batch_buffer config batch),
    );
  }

  -- Points are posted until `Add` starts a flush, which takes them all.
  fill_batch :
      (point : TelemetryPoint F T) (n fuel : ℕ) (s : Service F T) (accepted : List (Row F T))
      → Reaches config json start rows s accepted
      → n ≤ pending s.flushes
      → length s.buffer < config.max_buffer_size
      → config.batch_size ≤ config.max_buffer_size
      → config.batch_size ≤ length s.buffer + suc fuel
      → HasPending (suc n)
  fill_batch point n zero s accepted reach p room fits enough =
      let batch = s.buffer ++ marked config point ∷ [] in
      let longer = length-append s.buffer (marked config point ∷ []) in
      let full : leb config.batch_size (length batch) ≡ true = ground (arith, longer, enough) in
      take_full batch s
        (posts point batch true reach (add_room point s.buffer room ∙ ap (λ b. kept batch b) full))
        (omega (arith, p, in_points-append (λ _. true) s.buffer (marked config point ∷ [])))
  fill_batch point n (suc fuel) s accepted reach p room fits enough =
      let batch = s.buffer ++ marked config point ∷ [] in
      let longer = length-append s.buffer (marked config point ∷ []) in
      let posted = λ (b : Bool) (e : leb config.batch_size (length batch) ≡ b).
        posts point batch b reach (add_room point s.buffer room ∙ ap (λ b. kept batch b) e) in
      elim (Bool-cases (leb config.batch_size (length batch))) [
        | inl full ↦
            take_full batch s (posted true full)
              (omega (arith, p, in_points-append (λ _. true) s.buffer (marked config point ∷ [])))
        | inr short ↦
            fill_batch point n fuel (record s { buffer = batch }) _ (posted false short) p
              (ground (arith, short, longer, fits)) fits (omega (arith, longer, enough))
      ]

  -- From an empty buffer, where the batch size is at most the limit of the buffer and that limit is
  -- not 0, and for every number, the service can reach a state in which its flushes hold that many
  -- points or more, while its buffer is empty.
  pub pending_unbounded :
      (point : TelemetryPoint F T) (n : ℕ)
      → start.buffer ≡ []
      → 0 < config.max_buffer_size
      → config.batch_size ≤ config.max_buffer_size
      → HasPending n
  pending_unbounded point zero b h fits = record {
    state = start;
    accepted = rows;
    reach = starts;
    no_buffer = b;
    many = omega arith;
  }
  pending_unbounded point (suc n) b h fits =
      let p = pending_unbounded point n b h fits in
      let empty = ap length p.no_buffer in
      fill_batch point n config.batch_size p.state p.accepted p.reach p.many
        (omega (arith, empty, h)) fits (omega arith)
