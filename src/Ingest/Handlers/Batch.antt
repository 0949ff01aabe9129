-- ===== src/Ingest/Handlers/Batch.antt =====
-- go-service/handlers/telemetry.go: which points of a posted batch are kept.
use space_project.Base.{
  ℕ, zero, suc, ◌+◌, ◌-◌, ◌≤◌, ◌<◌, ◌≡◌, refl, sym, ap, ◌∙◌, Bool, false, some, List, [], ◌∷◌, ◌++◌,
  arith, take, drop, true, length, Bool-cases, inl, inr, ◌⊎◌, length-append, leb,
}
use mathlib.Core.List.{append-nil, append_assoc, Sublistᴰ}
use mathlib.Core.List.Sublistᴰ.{slnil, cons, cons-cons}
use mathlib.Core.Path.{subst}
use space_project.Float.{Float}
use space_project.Ingest.{TelemetryPoint}
use space_project.Ingest.Batch.{BatchConfig, Added, rejected, kept, marked, add}
use space_project.Ingest.Handlers.{
  accepted_count, stamped, answer_added, handle_telemetry, taken_out, count_added, add_all,
  handle_telemetry_batch, kept_points,
}

module _ {F T : Type 0} where
  taken_out-same :
      (b : Bool) (flushed buffer : List (TelemetryPoint F T))
      → let (flushed', buffer') = taken_out b flushed buffer in
        (flushed' ++ buffer' ≡ flushed ++ buffer) × (length buffer' ≤ length buffer)
  taken_out-same true flushed buffer = (append-nil (flushed ++ buffer), omega arith)
  taken_out-same false flushed buffer = (refl, omega arith)

module _ {F T : Type 0} ⦃f : Float F⦄ (config : BatchConfig F) (now : T) where
  add_full :
      (point : TelemetryPoint F T) (buffer : List (TelemetryPoint F T))
      → config.max_buffer_size ≤ length buffer
      → add config point buffer ≡ rejected
  unfolding add
  add_full point buffer h = ground arith

  add_room :
      (point : TelemetryPoint F T) (buffer : List (TelemetryPoint F T))
      → length buffer < config.max_buffer_size
      → (flushes : Bool) × (add config point buffer
          ≡ kept (buffer ++ marked config point ∷ []) flushes)
  unfolding add
  add_room point buffer h =
      let room : leb config.max_buffer_size (length buffer) ≡ false = ground arith in
      (leb config.batch_size (length (buffer ++ marked config point ∷ [])), rw room refl)

  add_cases :
      (point : TelemetryPoint F T) (buffer : List (TelemetryPoint F T))
      → (add config point buffer ≡ rejected)
        ⊎ ((length buffer < config.max_buffer_size)
            × ((flushes : Bool) × (add config point buffer
                  ≡ kept (buffer ++ marked config point ∷ []) flushes)))
  add_cases point buffer = elim (Bool-cases (leb config.max_buffer_size (length buffer))) [
    | inl full ↦ inl (add_full point buffer (ground (arith, full)))
    | inr room ↦
        let fits : length buffer < config.max_buffer_size = ground (arith, room) in
        inr (fits, add_room point buffer fits)
  ]

  -- What the loop makes of `points`: the first `room` are kept, and `more` of the others, behind
  -- those that were there. No more are kept where `Q`.
  pub record Keeps (Q : Type 0) (room count : ℕ) (points there : List (TelemetryPoint F T))
      (after : ℕ × List (TelemetryPoint F T) × List (TelemetryPoint F T)) : Type 0 where
    pub more : List (TelemetryPoint F T)
    pub counted : after.0 ≡ count + length (take room points ++ more)
    pub in_order : after.1 ++ after.2 ≡ there ++ kept_points config now (take room points ++ more)
    pub from_rest : Sublistᴰ more (drop room points)
    pub none_more : Q → more ≡ []

  add_one :
      (point : TelemetryPoint F T) (points flushed buffer : List (TelemetryPoint F T))
      → (flushed ++ (buffer ++ marked config (stamped now point) ∷ []))
          ++ kept_points config now points
        ≡ (flushed ++ buffer) ++ kept_points config now (point ∷ points)
  add_one point points flushed buffer =
      ap (λ l. l ++ kept_points config now points)
        (sym (append_assoc flushed buffer (marked config (stamped now point) ∷ [])))
      ∙ append_assoc (flushed ++ buffer) (marked config (stamped now point) ∷ [])
          (kept_points config now points)

  -- The point takes a place that `room` counts.
  add_first :
      {Q Q' : Type 0} (point : TelemetryPoint F T) (room count : ℕ)
      (points flushed buffer there : List (TelemetryPoint F T))
      {after : ℕ × List (TelemetryPoint F T) × List (TelemetryPoint F T)}
      → (Q → Q')
      → flushed ++ buffer ≡ there
      → Keeps Q' room
          (suc count)
          points
          (flushed ++ (buffer ++ marked config (stamped now point) ∷ []))
          after
      → Keeps Q (suc room) count (point ∷ points) there after
  add_first point room count points flushed buffer there quiet e k = record {
    more = k.more;
    counted = omega (arith, k.counted);
    in_order =
        k.in_order
        ∙ add_one point (take room points ++ k.more) flushed buffer
        ∙ ap (λ l. l ++ kept_points config now (point ∷ (take room points ++ k.more))) e;
    from_rest = k.from_rest;
    none_more = λ q. k.none_more (quiet q);
  }

  -- The point finds a place that a flush has made.
  add_more :
      {Q Q' : Type 0} (point : TelemetryPoint F T) (count : ℕ)
      (points flushed buffer there : List (TelemetryPoint F T))
      {after : ℕ × List (TelemetryPoint F T) × List (TelemetryPoint F T)}
      → ¬ Q
      → flushed ++ buffer ≡ there
      → Keeps Q' zero
          (suc count)
          points
          (flushed ++ (buffer ++ marked config (stamped now point) ∷ []))
          after
      → Keeps Q zero count (point ∷ points) there after
  add_more point count points flushed buffer there loud e k = record {
    more = point ∷ k.more;
    counted = omega (arith, k.counted);
    in_order =
        k.in_order
        ∙ add_one point k.more flushed buffer
        ∙ ap (λ l. l ++ kept_points config now (point ∷ k.more)) e;
    from_rest = cons-cons refl k.from_rest;
    none_more = λ q. absurd (loud q);
  }

  add_none :
      {Q Q' : Type 0} (point : TelemetryPoint F T) (count : ℕ)
      (points there : List (TelemetryPoint F T))
      {after : ℕ × List (TelemetryPoint F T) × List (TelemetryPoint F T)}
      → (Q → Q')
      → Keeps Q' zero count points there after
      → Keeps Q zero count (point ∷ points) there after
  add_none point count points there quiet k = record {
    more = k.more;
    counted = k.counted;
    in_order = k.in_order;
    from_rest = cons k.from_rest;
    none_more = λ q. k.none_more (quiet q);
  }

  -- No flush takes the buffer, and `room` is all the room that it has.
  abbrev IsQuiet : (ℕ → Bool) → ℕ → List (TelemetryPoint F T) → Type 0
  IsQuiet taken room buffer =
      ((j : ℕ) → taken j ≡ false) × (room ≡ config.max_buffer_size - length buffer)

  add_all-Keeps :
      (taken : ℕ → Bool) (points : List (TelemetryPoint F T)) (i room count : ℕ)
      (flushed buffer there : List (TelemetryPoint F T))
      → flushed ++ buffer ≡ there
      → room ≤ config.max_buffer_size - length buffer
      → Keeps
          (IsQuiet taken room buffer)
          room
          count
          points
          there
          (add_all config now taken points i (count, flushed, buffer))
  unfolding add_all
  add_all-Keeps taken [] i zero count flushed buffer there e r = record {
    more = [];
    counted = omega arith;
    in_order = e ∙ sym (append-nil there);
    from_rest = slnil;
    none_more = λ q. refl;
  }
  add_all-Keeps taken [] i (suc room) count flushed buffer there e r = record {
    more = [];
    counted = omega arith;
    in_order = e ∙ sym (append-nil there);
    from_rest = slnil;
    none_more = λ q. refl;
  }
  add_all-Keeps taken (point ∷ points) i (suc room) count flushed buffer there e r =
      let (flushed', buffer') = taken_out (taken i) flushed buffer in
      let (same, no_longer) = taken_out-same (taken i) flushed buffer in
      let (flushes, k) = add_room (stamped now point) buffer' (omega (arith, r, no_longer)) in
      let point' = marked config (stamped now point) in
      let longer = length-append buffer' (point' ∷ []) in
      subst
        (λ added. Keeps (IsQuiet taken (suc room) buffer) (suc room) count (point ∷ points) there (
          add_all config now taken points (suc i)
            (count_added config now added (count, flushed', buffer'))))
        (sym k)
        (add_first point room count points flushed' buffer' there
          (λ q.
            let still = ap (λ b. length (taken_out b flushed buffer).1) (q.0 i) in
            (q.0, omega (arith, q.1, longer, still)))
          (same ∙ e)
          (add_all-Keeps taken points (suc i) room (suc count) flushed' (buffer' ++ point' ∷ []) _
            refl (omega (arith, longer, no_longer, r))))
  add_all-Keeps taken (point ∷ points) i zero count flushed buffer there e r =
      let (flushed', buffer') = taken_out (taken i) flushed buffer in
      let (same, no_longer) = taken_out-same (taken i) flushed buffer in
      let still = λ (q : IsQuiet taken zero buffer).
        ap (λ b. length (taken_out b flushed buffer).1) (q.0 i) in
      let point' = marked config (stamped now point) in
      elim (add_cases (stamped now point) buffer') [
        | inl k ↦
            subst
              (λ added. Keeps (IsQuiet taken zero buffer) zero count (point ∷ points) there (
                add_all config now taken points (suc i)
                  (count_added config now added (count, flushed', buffer'))))
              (sym k)
              (add_none point count points there (λ q. (q.0, omega (arith, q.1, still q)))
                (add_all-Keeps taken points (suc i) zero count flushed' buffer' there (same ∙ e)
                  (omega arith)))
        | inr (room, (flushes, k)) ↦
            subst
              (λ added. Keeps (IsQuiet taken zero buffer) zero count (point ∷ points) there (
                add_all config now taken points (suc i)
                  (count_added config now added (count, flushed', buffer'))))
              (sym k)
              (add_more point count points flushed' buffer' there
                (λ q. omega (arith, q.1, still q, room)) (same ∙ e)
                (add_all-Keeps taken points (suc i) zero (suc count) flushed'
                  (buffer' ++ point' ∷ []) _ refl (omega arith)))
      ]

  -- With `room` places left in the buffer, whatever flushes take it between the points of a batch,
  -- and with no other request in between: the first `room` points of the batch are kept, and
  -- perhaps more of its others, each marked and with a time, in their order behind those that were
  -- there, in the buffer or in what the flushes took; the answer, which is an acceptance even if
  -- nothing is kept, has the number of those kept; and if no flush takes the buffer, no more are
  -- kept.
  pub handle_telemetry_batch_lem :
      (taken : ℕ → Bool) (points buffer : List (TelemetryPoint F T)) (room : ℕ)
      → room ≡ config.max_buffer_size - length buffer
      → let (answer, flushed, buffer') =
          handle_telemetry_batch config now taken (some points) buffer in
        (more : List (TelemetryPoint F T)) × (answer
          ≡ accepted_count (length (take room points ++ more)))
        × (flushed ++ buffer' ≡ buffer ++ kept_points config now (take room points ++ more))
        × Sublistᴰ more (drop room points)
        × (((i : ℕ) → taken i ≡ false) → more ≡ [])
  unfolding handle_telemetry_batch
  handle_telemetry_batch_lem taken points buffer room e =
      let k = add_all-Keeps taken points 0 room 0 [] buffer buffer refl (omega (arith, e)) in
      (
        k.more,
        ap accepted_count (k.counted ∙ omega arith),
        k.in_order,
        k.from_rest,
        λ quiet. k.none_more (quiet, e),
      )

  -- A single point is kept as a batch of one is, if no flush comes in between.
  handle_telemetry-one :
      (taken : ℕ → Bool) (point : TelemetryPoint F T) (buffer : List (TelemetryPoint F T))
      → taken 0 ≡ false
      → (handle_telemetry config now (some point) buffer).1
        ≡ (handle_telemetry_batch config now taken (some (point ∷ [])) buffer).2
  unfolding handle_telemetry handle_telemetry_batch add_all
  handle_telemetry-one taken point buffer e = rw e (one (add config (stamped now point) buffer))
    where
      one :
          (added : Added F T)
          → (answer_added config now (stamped now point) buffer added).1
            ≡ (add_all config now taken [] 1 (count_added config now added (0, [], buffer))).2
      one rejected = refl
      one (kept buffer' flushes) = refl
