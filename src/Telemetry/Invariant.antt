-- ===== src/Telemetry/Invariant.antt =====
-- The ranges of battery, storage and signal: of the object, whatever is drawn and also after an
-- exception, and of every reading. The rules for actions that keep them.
pub mod Normal
pub mod Anomaly
pub mod Returns
pub mod Raises
use mathlib.Core.Path.{subst}
use mathlib.Core.Option.{some-injective}
use space_project.Base.{
  ℕ, ◌≡◌, ◌≢◌, refl, Bool, true, false, inl, inr, Option, none, some, arith, if◌then◌else◌,
  Bool-cases, Option-cases,
}
use space_project.Base.Int.{ℤ, pos, negsuc}
use space_project.Float.{Float, ◌≼◌, IsFloat, Between, clamp, py_max}
use space_project.Float.Clamp.{clamp-Between, le-py_max, round-ge, round-Between}
use space_project.Telemetry.{Generator, Telemetry}
use space_project.Telemetry.Random.{Rng, IsRng}
use space_project.Telemetry.Action.{Action, pure, gets, modify, continue, ◌>>=◌, ◌>>◌}
use space_project.Telemetry.Generate.{
  World, whole, reading, draw, draw_normal, update_self, self_gets, update_battery, update_storage,
  update_signal, transmit, charge, generate_normal, generate_anomaly,
}

-- Battery in percent, storage in megabytes, signal in dBm.
pub record IsInRange {F T : Type 0} ⦃f : Float F⦄ (g : Generator F T) : Type 0 where
  pub battery : Between (pos 0) (pos 100) g.battery
  pub storage : whole 0 ≼ g.storage
  pub signal : Between (negsuc 119) (negsuc 29) g.signal

pub record IsReading {F : Type 0} ⦃f : Float F⦄ (t : Telemetry F) : Type 0 where
  pub battery : Between (pos 0) (pos 100) t.battery
  pub storage : whole 0 ≼ t.storage
  pub signal : Between (negsuc 119) (negsuc 29) t.signal

-- An action keeps the ranges, whether it returns or raises.
pub record Keeps {ℓ} {F T S : Type 0} {A : Type ℓ} ⦃f : Float F⦄ (m : Action (World F T S) A)
    : Type ℓ where
  pub at : (w : World F T S) → IsInRange w.self → IsInRange (m w).1.self

pub reading-IsReading :
    {F : Type 0} ⦃f : Float F⦄ (laws : IsFloat F) (battery storage signal : F)
    → Between (pos 0) (pos 100) battery
    → whole 0 ≼ storage
    → Between (negsuc 119) (negsuc 29) signal
    → IsReading (reading battery storage signal)
reading-IsReading laws b s g hb hs hg = record {
  battery = round-Between laws _ _ b 2 hb;
  storage = round-ge laws (pos 0) s 2 hs;
  signal = round-Between laws _ _ g 2 hg;
}

-- An action keeps the ranges, and what it returns is a reading in them.
pub record Yields {F T S : Type 0} ⦃f : Float F⦄ (m : Action (World F T S) (Telemetry F))
    : Type 0 where
  pub at : (w : World F T S) → IsInRange w.self → IsInRange (m w).1.self
  pub reading :
      (w : World F T S) → IsInRange w.self → (t : Telemetry F) → (m w).0 ≡ some t → IsReading t

module _ {F T S : Type 0} ⦃f : Float F⦄ where
  module _ {A : Type 0} (k : A → Action (World F T S) (Telemetry F))
      (y : (a : A) → Yields (k a)) where
    continue_at :
        (o : Option A) (w : World F T S) → IsInRange w.self → IsInRange (continue o k w).1.self
    continue_at none w h = h
    continue_at (some a) w h = (y a).at w h

    continue_reading :
        (o : Option A) (w : World F T S)
        → IsInRange w.self
        → (t : Telemetry F) → (continue o k w).0 ≡ some t
        → IsReading t
    continue_reading none w h t e = cc
    continue_reading (some a) w h t e = (y a).reading w h t e

  pub Yields-bind :
      {A : Type 0} (m : Action (World F T S) A) (k : A → Action (World F T S) (Telemetry F))
      → Keeps m
      → ((a : A) → Yields (k a))
      → Yields (m >>= k)
  Yields-bind m k keeps y = record {
    at = λ w h. continue_at k y (m w).0 (m w).1 (keeps.at w h);
    reading = λ w h. continue_reading k y (m w).0 (m w).1 (keeps.at w h);
  }

  module _ (k : Telemetry F → Action (World F T S) (Telemetry F))
      (y : (t : Telemetry F) → IsReading t → Yields (k t)) where
    then_at :
        (o : Option (Telemetry F)) (w : World F T S)
        → IsInRange w.self
        → ((t : Telemetry F) → o ≡ some t → IsReading t)
        → IsInRange (continue o k w).1.self
    then_at none w h p = h
    then_at (some a) w h p = (y a (p a refl)).at w h

    then_reading :
        (o : Option (Telemetry F)) (w : World F T S)
        → IsInRange w.self
        → ((t : Telemetry F) → o ≡ some t → IsReading t)
        → (t : Telemetry F) → (continue o k w).0 ≡ some t
        → IsReading t
    then_reading none w h p t e = cc
    then_reading (some a) w h p t e = (y a (p a refl)).reading w h t e

  -- The rest of the action may use that a reading is in range.
  pub Yields-then :
      (m : Action (World F T S) (Telemetry F))
      (k : Telemetry F → Action (World F T S) (Telemetry F))
      → Yields m
      → ((t : Telemetry F) → IsReading t → Yields (k t))
      → Yields (m >>= k)
  Yields-then m k ym y = record {
    at = λ w h. then_at k y (m w).0 (m w).1 (ym.at w h) (ym.reading w h);
    reading = λ w h. then_reading k y (m w).0 (m w).1 (ym.at w h) (ym.reading w h);
  }

  pub pure-Yields : (t : Telemetry F) → IsReading t → Yields {T = T} {S = S} (pure t)
  pure-Yields t p = record {
    at = λ w h. h;
    reading = λ w h u e. subst IsReading (some-injective t u e) p;
  }
