-- ===== src/Telemetry/Correct.antt =====
-- What a call of `generate_telemetry` promises.
use space_project.Base.{◌≡◌, ◌≢◌, refl, Option, none, some}
use space_project.Float.{Float, IsFloat}
use space_project.Telemetry.{Telemetry}
use space_project.Telemetry.Random.{Rng, IsRng}
use space_project.Telemetry.Generate.{World, generate_telemetry}
use space_project.Telemetry.Invariant.{IsInRange, IsReading}
use space_project.Telemetry.Invariant.Anomaly.{generate_telemetry-Yields}
use space_project.Telemetry.Invariant.Returns.{HasScale, generate_telemetry-Returns}

-- A reading in range, or an exception.
abbrev pub IsAnswer : {F : Type 0} ⦃f : Float F⦄ → Option (Telemetry F) → Type 0
IsAnswer none = Unit
IsAnswer (some t) = IsReading t

IsAnswer-of :
    {F : Type 0} ⦃f : Float F⦄ (o : Option (Telemetry F))
    → ((t : Telemetry F) → o ≡ some t → IsReading t)
    → IsAnswer o
IsAnswer-of none h = tt
IsAnswer-of (some t) h = h t refl

module _ {F T S : Type 0} ⦃f : Float F⦄ (laws : IsFloat F) (r : Rng F S) (random : IsRng r)
    (now : T) (w : World F T S) where
  -- From an object in range, whatever the generators draw: the object stays in range, also if the
  -- call raises, and a reading that is returned has a battery from 0 to 100, a storage of 0 or
  -- more and a signal from -120 to -30, after rounding, anomalies included.
  pub generate_telemetry-IsInRange :
      IsInRange w.self
      → IsInRange (generate_telemetry r now w).1.self × IsAnswer (generate_telemetry r now w).0
  generate_telemetry-IsInRange h =
      let y = generate_telemetry-Yields laws r random now in
      (y.at w h, IsAnswer-of (generate_telemetry r now w).0 (y.reading w h))

  -- If the drawn parameter of the signal's walk is not negative, a call returns a reading, whatever
  -- the random generators draw and the position calculator does, exceptions included, and the
  -- parameter is still not negative for the next call.
  pub generate_telemetry_returns :
      HasScale w.self
      → ((generate_telemetry r now w).0 ≢ none) × HasScale (generate_telemetry r now w).1.self
  generate_telemetry_returns h =
      let y = generate_telemetry-Returns laws r random now in (y.returns w h, y.keeps w h)
