-- ===== src/Telemetry/Invariant/Anomaly.antt =====
-- The ranges in `_generate_anomaly` and in `generate_telemetry`.
use mathlib.Core.Path.{subst}
use space_project.Base.{
  ◌≡◌, refl, sym, ◌∙◌, Bool, true, false, inl, inr, Option, none, some, arith, if◌then◌else◌,
  Option-cases,
}
use space_project.Base.Int.{pos, negsuc}
use space_project.Base.Text.{Text}
use space_project.Float.{Float, IsFloat, clamp, py_max}
use space_project.Float.Clamp.{clamp-Between, le-py_max}
use space_project.Telemetry.{Telemetry, PositionData, Lookup, failed, not_found, found, Calculator}
use space_project.Telemetry.Random.{Rng, IsRng}
use space_project.Telemetry.Action.{pure, continue}
use space_project.Telemetry.Generate.{
  World, whole, reading, draw, self_gets, AnomalyType, battery_critical, storage_full, signal_loss,
  sudden_discharge, anomaly_type, anomalous, generate_normal, generate_anomaly, tracked,
  with_position, remember, get_current_position, add_position, generate_telemetry, battery_plus,
  storage_plus, signal_plus,
}
use space_project.Telemetry.Invariant.{
  IsInRange, IsReading, Keeps, Yields, Yields-bind, Yields-then, pure-Yields, reading-IsReading,
}
use space_project.Telemetry.Invariant.Normal.{generate_normal-Yields}

continue-pure-self :
    {F T S A B : Type 0} (o : Option A) (g : A → B) (w : World F T S)
    → (continue o (λ a. pure (g a)) w).1.self ≡ w.self
continue-pure-self none g w = refl
continue-pure-self (some a) g w = refl

module _ {F T S : Type 0} ⦃f : Float F⦄ (r : Rng F S) where
  self-anomalous : (kind : AnomalyType) (w : World F T S) → (anomalous r kind w).1.self ≡ w.self
  unfolding anomalous battery_plus storage_plus signal_plus
  self-anomalous battery_critical w = refl
  self-anomalous storage_full w = refl
  self-anomalous signal_loss w = refl
  self-anomalous sudden_discharge w = refl

  -- An anomaly is made up for one reading: battery, storage and signal of the object stay.
  self-generate_anomaly : (w : World F T S) → (generate_anomaly r w).1.self ≡ w.self
  unfolding generate_anomaly
  self-generate_anomaly w =
      let w' : World F T S = (draw r (r.choice 4) w).1 in
      let kind : AnomalyType = anomaly_type (r.choice 4 w.rng).0 in
      continue-pure-self (anomalous r kind w').0 _ (anomalous r kind w').1 ∙ self-anomalous kind w'

module _ {F : Type 0} ⦃f : Float F⦄ (laws : IsFloat F) where
  clamped-IsReading :
      (battery storage signal : F)
      → IsReading (
          reading
            (clamp (pos 0) (pos 100) battery)
            (py_max (whole 0) storage)
            (clamp (negsuc 119) (negsuc 29) signal))
  clamped-IsReading b s g =
      reading-IsReading laws _ _ _ (clamp-Between laws (pos 0) (pos 100) b (omega arith))
        (le-py_max laws (pos 0) s) (clamp-Between laws (negsuc 119) (negsuc 29) g (omega arith))

  with_position-IsReading :
      (t : Telemetry F) (p : Option (PositionData F)) → IsReading t → IsReading (with_position t p)
  with_position-IsReading t none h = h
  with_position-IsReading t (some p) h = record {
    battery = h.battery;
    storage = h.storage;
    signal = h.signal;
  }

module _ {F T S : Type 0} ⦃f : Float F⦄ (laws : IsFloat F) (r : Rng F S) (random : IsRng r) where
  generate_anomaly-Yields : Yields {T = T} (generate_anomaly r)
  unfolding generate_anomaly
  generate_anomaly-Yields =
      Yields-bind (draw r (r.choice 4)) _ (record { at = λ w h. h })
        λ k.
          Yields-bind (anomalous r (anomaly_type k)) _
            (record { at = λ w h. subst IsInRange (sym (self-anomalous r (anomaly_type k) w)) h })
            λ values. pure-Yields _ (clamped-IsReading laws values.0 values.1 values.2)

  remember-Keeps : (found_at : Lookup F) → Keeps (remember {T = T} r found_at)
  unfolding remember
  remember-Keeps (found p) = record {
    at = λ w h. record { battery = h.battery; storage = h.storage; signal = h.signal };
  }
  remember-Keeps not_found = record { at = λ w h. h }
  remember-Keeps failed = record { at = λ w h. h }

  get_current_position-Keeps : (now : T) → Keeps (get_current_position r now)
  unfolding get_current_position
  get_current_position-Keeps now = record {
    at = λ w h. elim (Option-cases (tracked w.self)) [
      | inl e ↦ rw (e, get_current_position) h
      | inr ((name, calculator), e) ↦
          rw (e, get_current_position) ((remember-Keeps (calculator name now)).at w h)
    ];
  }

  add_position-Yields :
      (now : T) (t : Telemetry F) (tracking : Option (Text × Calculator F T))
      → IsReading t
      → Yields (add_position r now t tracking)
  unfolding add_position
  add_position-Yields now t none h = pure-Yields t h
  add_position-Yields now t (some _) h =
      Yields-bind (get_current_position r now) _ (get_current_position-Keeps now)
        λ p. pure-Yields _ (with_position-IsReading laws t p h)

  pick-Yields : (b : Bool) → Yields {T = T} (if b then generate_anomaly r else generate_normal r)
  pick-Yields true = generate_anomaly-Yields
  pick-Yields false = generate_normal-Yields laws r random

  -- From an object in range, whatever the generators draw: the object stays in range, also if the
  -- call raises, and every reading that is returned has a battery from 0 to 100, a storage of 0 or
  -- more and a signal from -120 to -30, after rounding, anomalies included.
  pub generate_telemetry-Yields : (now : T) → Yields (generate_telemetry r now)
  unfolding generate_telemetry
  generate_telemetry-Yields now =
      Yields-bind (draw r r.random) _ (record { at = λ w h. h })
        λ p.
          Yields-bind (self_gets r (λ g. g.anomaly_rate)) _ (record { at = λ w h. h })
            λ rate. Yields-then _ _ (pick-Yields (f.lt p rate)) λ t h.
              Yields-bind (self_gets r tracked) _ (record { at = λ w h. h })
                λ tracking. add_position-Yields now t tracking h
