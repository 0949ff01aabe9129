-- ===== src/Ingest/Handlers/Counted.antt =====
-- What the simulator counts of a request, and what became of the point: handlers/telemetry.go and
-- python-simulator/satellite_sim.py together.
use space_project.Base.{
  ℕ, suc, ◌≡◌, refl, Bool, Option, none, some, List, [], ◌∷◌, ◌++◌, ◌⊎◌, inl, inr, length, leb,
  Bool-cases,
}
use space_project.Base.Text.{Text}
use space_project.Float.{Float}
use space_project.Simulation.{Stats, status}
use space_project.Simulation.Send.{send_result, count_result}
use space_project.Ingest.{TelemetryPoint}
use space_project.Ingest.Batch.{BatchConfig, rejected, kept, marked, add}
use space_project.Ingest.Handlers.{
  Answer, bad_request, service_unavailable, accepted, accepted_count, stamped, handle_telemetry,
}

-- The status of an answer.
abbrev pub http_status : Answer → ℕ
http_status bad_request = 400
http_status service_unavailable = 503
http_status (accepted _) = 202
http_status (accepted_count _) = 202

-- The statistics of the simulator after the answer to the satellite `id`.
abbrev pub stats_after : Text → Answer → Stats → Stats
stats_after id answer stats = count_result (send_result id (status (http_status answer))) stats

module _ {F T : Type 0} ⦃f : Float F⦄ (config : BatchConfig F) (now : T) where
  -- The service kept the point behind the others of the buffer.
  abbrev pub IsKept :
      Option (TelemetryPoint F T) → (buffer buffer' : List (TelemetryPoint F T)) → Type 0
  IsKept none buffer buffer' = ⊥
  IsKept (some point) buffer buffer' = buffer' ≡ buffer ++ marked config (stamped now point) ∷ []

  abbrev pub AgreesWith :
      Option (TelemetryPoint F T)
      → (stats stats' : Stats) (buffer buffer' : List (TelemetryPoint F T)) → Type 0
  AgreesWith point stats stats' buffer buffer' =
      ((stats'.success ≡ suc stats.success)
        × (stats'.errors ≡ stats.errors)
        × IsKept point buffer buffer')
      ⊎ ((stats'.errors ≡ suc stats.errors) × (stats'.success ≡ stats.success) × (buffer' ≡ buffer))

  add_cases :
      (point : TelemetryPoint F T) (buffer : List (TelemetryPoint F T))
      → (add config point buffer ≡ rejected)
        ⊎ ((flushes : Bool) × (add config point buffer
              ≡ kept (buffer ++ marked config point ∷ []) flushes))
  unfolding add
  add_cases point buffer = elim (Bool-cases (leb config.max_buffer_size (length buffer))) [
    | inl e ↦ inl (rw e refl)
    | inr e ↦ inr (leb config.batch_size (length (buffer ++ marked config point ∷ [])), rw e refl)
  ]

  -- The simulator and the service agree on every answered request, whatever its body: a success is
  -- a point that the service keeps, marked and with a time, and an error is a point that it does
  -- not keep, so that its buffer is as before.
  pub handle_telemetry_counted :
      (id : Text) (stats : Stats) (point : Option (TelemetryPoint F T))
      (buffer : List (TelemetryPoint F T))
      → let (answer, buffer') = handle_telemetry config now point buffer in
        AgreesWith point stats (stats_after id answer stats) buffer buffer'
  unfolding handle_telemetry send_result count_result
  handle_telemetry_counted id stats none buffer = inr (refl, refl, refl)
  handle_telemetry_counted id stats (some point) buffer =
      elim (add_cases (stamped now point) buffer) [
        | inl e ↦ rw e (inr (refl, refl, refl))
        | inr (flushes, e) ↦ rw e (inl (refl, refl, refl))
      ]
