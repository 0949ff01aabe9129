-- ===== src/Ingest/Handlers.antt =====
-- go-service/handlers/telemetry.go: the answers to posted points. What `ShouldBindJSON` makes of
-- the body is given, `none` for an error, and `now` is the clock. `taken` says whether a flush takes
-- the buffer before the point at an index of a batch is added; no other request adds points in
-- between.
pub mod Batch
pub mod Counted
pub mod Health
use space_project.Base.{
  ℕ, zero, suc, ◌+◌, ◌-◌, ◌≤◌, ◌<◌, ◌≡◌, refl, sym, ap, ◌∙◌, Bool, false, Option, none, some, List,
  [], ◌∷◌, ◌++◌, map, arith, take, drop, true, length, Bool-cases, inl, inr, ◌⊎◌, length-append,
  leb,
}
use mathlib.Core.List.{append-nil, append_assoc, Sublistᴰ}
use mathlib.Core.List.Sublistᴰ.{slnil, cons, cons-cons}
use mathlib.Core.Path.{subst}
use space_project.Base.Text.{Text}
use space_project.Float.{Float}
use space_project.Ingest.{TelemetryPoint}
use space_project.Ingest.Batch.{BatchConfig, Added, rejected, kept, marked, add}

-- The status, and what the body of the answer says.
pub data Answer : Type 0 where
  bad_request service_unavailable : Answer
  accepted : (satellite_id : Text) → Answer
  accepted_count : ℕ → Answer

module _ {F T : Type 0} where
  -- The point with the time of the request, if it has none.
  abbrev pub stamped : (now : T) → TelemetryPoint F T → TelemetryPoint F T
  stamped now point = record point {
    timestamp = elim point.timestamp [ none ↦ some now | some t ↦ some t ];
  }

  -- What flushes have taken, and the buffer, when one takes the buffer or none does.
  abbrev pub taken_out :
      Bool
      → (flushed buffer : List (TelemetryPoint F T))
      → List (TelemetryPoint F T) × List (TelemetryPoint F T)
  taken_out true flushed buffer = (flushed ++ buffer, [])
  taken_out false flushed buffer = (flushed, buffer)

module _ {F T : Type 0} ⦃f : Float F⦄ (config : BatchConfig F) (now : T) where
  abbrev pub answer_added :
      TelemetryPoint F T
      → List (TelemetryPoint F T)
      → Added F T
      → Answer × List (TelemetryPoint F T)
  answer_added point buffer rejected = (service_unavailable, buffer)
  answer_added point buffer (kept buffer' _) = (accepted point.satellite_id, buffer')

  -- `HandleTelemetry`: the answer and the buffer.
  unfoldable pub handle_telemetry :
      Option (TelemetryPoint F T) → List (TelemetryPoint F T) → Answer × List (TelemetryPoint F T)
  handle_telemetry none buffer = (bad_request, buffer)
  handle_telemetry (some point) buffer =
      let point' = stamped now point in answer_added point' buffer (add config point' buffer)

  abbrev pub count_added :
      Added F T
      → ℕ × List (TelemetryPoint F T) × List (TelemetryPoint F T)
      → ℕ × List (TelemetryPoint F T) × List (TelemetryPoint F T)
  count_added rejected (count, flushed, buffer) = (count, flushed, buffer)
  count_added (kept buffer' _) (count, flushed, _) = (suc count, flushed, buffer')

  -- The loop over the points from index `i`, with `acceptedCount`, the points that flushes have
  -- taken out of the buffer since the first `Add`, and the buffer.
  unfoldable pub add_all :
      (taken : ℕ → Bool)
      → List (TelemetryPoint F T)
      → (i : ℕ) → ℕ × List (TelemetryPoint F T) × List (TelemetryPoint F T)
      → ℕ × List (TelemetryPoint F T) × List (TelemetryPoint F T)
  add_all taken [] i (count, flushed, buffer) = (count, flushed, buffer)
  add_all taken (point ∷ points) i (count, flushed, buffer) =
      let (flushed', buffer') = taken_out (taken i) flushed buffer in
      add_all taken points (suc i)
        (count_added (add config (stamped now point) buffer') (count, flushed', buffer'))

  -- `HandleTelemetryBatch`: the answer, the points that flushes took meanwhile, and the buffer.
  unfoldable pub handle_telemetry_batch :
      (taken : ℕ → Bool)
      → Option (List (TelemetryPoint F T))
      → List (TelemetryPoint F T)
      → Answer × List (TelemetryPoint F T) × List (TelemetryPoint F T)
  handle_telemetry_batch taken none buffer = (bad_request, [], buffer)
  handle_telemetry_batch taken (some points) buffer =
      let (count, flushed, buffer') = add_all taken points 0 (0, [], buffer) in
      (accepted_count count, flushed, buffer')

  abbrev pub kept_points : List (TelemetryPoint F T) → List (TelemetryPoint F T)
  kept_points points = map (λ point. marked config (stamped now point)) points
