-- ===== src/Simulation/Send.antt =====
-- `Satellite.send_telemetry` and `Satellite.continuous_send`, cut at their `await`s: what a
-- coroutine does from one to the next.
use space_project.Base.{suc, Bool, true, false, Option, none, some, ◌∷◌, if◌then◌else◌, ◌==◌}
use space_project.Base.Int.{pos, negsuc}
use space_project.Base.Text.{Text}
use space_project.Float.{Float}
use space_project.Telemetry.{Telemetry}
use space_project.Telemetry.Random.{Rng}
use space_project.Telemetry.Action.{Action, pure, ◌>>=◌}
use space_project.Telemetry.Generate.{World, generate_telemetry}
use space_project.Simulation.{
  SimulatorConfig, Stats, Payload, Reply, status, exception, SendResult, success, error_code,
  error_message, Satellite, at_test, at_request, at_pause, returned, raised, Task, Shared,
}

-- The payload, with the position keys that the telemetry has.
unfoldable pub payload_of : {F : Type 0} → Text → Text → Telemetry F → Payload F
payload_of id timestamp telemetry = record {
  satellite_id = id;
  timestamp = timestamp;
  battery_charge_percent = telemetry.battery;
  storage_usage_mb = telemetry.storage;
  signal_strength_dbm = telemetry.signal;
  latitude = telemetry.latitude;
  longitude = telemetry.longitude;
  altitude_km = telemetry.altitude_km;
  velocity_kmph = telemetry.velocity_kmph;
}

-- The dict for the response, or for an exception of the request.
unfoldable pub send_result : Text → Reply → SendResult
send_result id (status code) = if code == 202 then success id else error_code code
send_result id (exception message) = error_message message

-- Update statistics.
unfoldable pub count_result : SendResult → Stats → Stats
count_result (success _) stats = record stats {
  total_sent = suc stats.total_sent;
  success = suc stats.success;
}
count_result (error_code _) stats = record stats {
  total_sent = suc stats.total_sent;
  errors = suc stats.errors;
}
count_result (error_message _) stats = record stats {
  total_sent = suc stats.total_sent;
  errors = suc stats.errors;
}

-- `interval = 1.0 / config.points_per_second_per_satellite`, which raises for 0.
abbrev pub has_interval : {F : Type 0} → SimulatorConfig F → Bool
has_interval config = elim config.points_per_second_per_satellite [
  | pos n ↦ if n == 0 then false else true
  | negsuc _ ↦ true
]

unfoldable pub start_task : {F S T : Type 0} → Shared F S → Satellite F T → Task F T
start_task shared satellite = record {
  satellite = satellite;
  place = if has_interval shared.config then at_test else raised;
}

module _ {F T S : Type 0} ⦃f : Float F⦄ (r : Rng F S) where
  -- `send_telemetry` up to its request, with the times that it reads.
  unfoldable pub prepare : T → Text → Satellite F T → Action (World F T S) (Payload F)
  prepare now timestamp satellite = do
    telemetry ← generate_telemetry r now
    pure (payload_of satellite.id timestamp telemetry)

  -- The request is made, or the exception of `generate_telemetry` ends the coroutine.
  abbrev pub request :
      Shared F S → Satellite F T → Option (Payload F) × World F T S → Shared F S × Task F T
  request shared satellite (none, w) = (
    record shared { rng = w.rng },
    record { satellite = record satellite { generator = w.self }; place = raised },
  )
  request shared satellite (some payload, w) = (
    record shared { rng = w.rng; requests = payload ∷ shared.requests },
    record { satellite = record satellite { generator = w.self }; place = at_request },
  )

  -- One test of `while config.running`, and the request if it holds.
  unfoldable pub begin_round : T → Text → Shared F S → Satellite F T → Shared F S × Task F T
  begin_round now timestamp shared satellite =
      if shared.config.running
      then request shared satellite (
          prepare now timestamp satellite (record { self = satellite.generator; rng = shared.rng }))
      else (shared, record { satellite = satellite; place = returned })

-- The rest of the round, up to its pause.
unfoldable pub end_round :
    {F T S : Type 0} → Reply → Shared F S → Satellite F T → Shared F S × Task F T
end_round reply shared satellite = (
  record shared { stats = count_result (send_result satellite.id reply) shared.stats },
  record { satellite = satellite; place = at_pause },
)
