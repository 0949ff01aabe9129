-- ===== src/Telemetry/Invariant/Returns.antt =====
-- When a call of `generate_telemetry` returns.
use space_project.Base.{
  ◌≢◌, refl, Bool, true, false, inl, inr, Option, none, some, arith, if◌then◌else◌, Bool-cases,
  Option-cases,
}
use space_project.Base.Int.{pos}
use space_project.Base.Text.{Text}
use space_project.Float.{Float, ◌≼◌, IsFloat, clamp}
use space_project.Telemetry.{Generator, Telemetry, Lookup, failed, not_found, found, Calculator}
use space_project.Telemetry.Random.{Rng, IsRng}
use space_project.Telemetry.Action.{Action, pure, continue, ◌>>=◌}
use space_project.Telemetry.Generate.{
  World, whole, reading, clamped_reading, draw, update_self, self_gets, AnomalyType,
  battery_critical, storage_full, signal_loss, sudden_discharge, anomaly_type, update_battery,
  update_storage, update_signal, transmit, charge, battery_plus, storage_plus, signal_plus,
  anomalous, generate_normal, generate_anomaly, tracked, with_position, remember,
  get_current_position, add_position, generate_telemetry,
}

-- The parameter of the signal's walk is a scale that numpy takes.
abbrev pub HasScale : {F T : Type 0} ⦃f : Float F⦄ → Generator F T → Type 0
HasScale g = whole 0 ≼ g.signal_volatility

-- From an object with such a scale the action returns, and keeps the scale.
pub record Returns {F T S A : Type 0} ⦃f : Float F⦄ (m : Action (World F T S) A) : Type 0 where
  pub returns : (w : World F T S) → HasScale w.self → (m w).0 ≢ none
  pub keeps : (w : World F T S) → HasScale w.self → HasScale (m w).1.self

module _ {F T S A B : Type 0} ⦃f : Float F⦄ (k : A → Action (World F T S) B)
    (y : (a : A) → Returns (k a)) where
  continue_returns :
      (o : Option A) (w : World F T S) → o ≢ none → HasScale w.self → (continue o k w).0 ≢ none
  continue_returns none w n h = absurd (n refl)
  continue_returns (some a) w n h = (y a).returns w h

  continue_keeps :
      (o : Option A) (w : World F T S) → HasScale w.self → HasScale (continue o k w).1.self
  continue_keeps none w h = h
  continue_keeps (some a) w h = (y a).keeps w h

module _ {F T S A B : Type 0} ⦃f : Float F⦄ where
  Returns-bind :
      (m : Action (World F T S) A) (k : A → Action (World F T S) B)
      → Returns m
      → ((a : A) → Returns (k a))
      → Returns (m >>= k)
  Returns-bind m k n y = record {
    returns = λ w h. continue_returns k y (m w).0 (m w).1 (n.returns w h) (n.keeps w h);
    keeps = λ w h. continue_keeps k y (m w).0 (m w).1 (n.keeps w h);
  }

some-ne-none : {A : Type 0} (a : A) → some a ≢ none
some-ne-none a e = cc

module _ {F T S A : Type 0} ⦃f : Float F⦄ where
  Returns-at :
      (m : Action (World F T S) A)
      → ((w : World F T S) → HasScale w.self → ((m w).0 ≢ none) × HasScale (m w).1.self)
      → Returns m
  Returns-at m p = record { returns = λ w h. (p w h).0; keeps = λ w h. (p w h).1 }

module _ {F T S A : Type 0} ⦃f : Float F⦄ (r : Rng F S) where
  Returns-pure : (a : A) → Returns {F = F} {T = T} {S = S} (pure a)
  Returns-pure a = Returns-at (pure a) λ w h. (some-ne-none a, h)

  Returns-gets : (g : Generator F T → A) → Returns (self_gets r g)
  Returns-gets g = Returns-at (self_gets r g) λ w h. (some-ne-none (g w.self), h)

  Returns-draw : (d : S → A × S) → Returns (draw {T = T} r d)
  Returns-draw d = Returns-at (draw r d) λ w h. (some-ne-none (d w.rng).0, h)

module _ {F T S : Type 0} ⦃f : Float F⦄ (laws : IsFloat F) (r : Rng F S) (random : IsRng r) where
  update_battery-Returns : Returns (update_battery {T = T} r)
  unfolding update_battery
  update_battery-Returns = Returns-at (update_battery r) λ w h.
      elim (Option-cases (r.np_normal (whole 0) (f.hundredths 50) w.rng).0) [
        | inl e ↦ absurd (random.np_normal_some _ _ w.rng (laws.hundredths_nonneg 50) e)
        | inr (n, e) ↦ rw e (some-ne-none tt, h)
      ]

  update_storage-Returns : Returns (update_storage {T = T} r)
  unfolding update_storage
  update_storage-Returns = Returns-at (update_storage r) λ w h.
      elim (Option-cases (r.np_normal (whole 0) (whole 5) w.rng).0) [
        | inl e ↦
            absurd
              (random.np_normal_some _ _ w.rng (laws.of_int_mono (pos 0) (pos 5) (omega arith)) e)
        | inr (n, e) ↦ rw e (some-ne-none tt, h)
      ]

  update_signal-Returns : Returns (update_signal {T = T} r)
  unfolding update_signal
  update_signal-Returns = Returns-at (update_signal r) λ w h.
      elim (Option-cases (r.np_normal (whole 0) w.self.signal_volatility w.rng).0) [
        | inl e ↦ absurd (random.np_normal_some _ _ w.rng h e)
        | inr (n, e) ↦ rw e (some-ne-none tt, h)
      ]

  transmit-Returns : Returns (transmit {T = T} r)
  unfolding transmit
  transmit-Returns = Returns-at (transmit r) λ w h.
      elim (Bool-cases (f.lt (whole 90_000) w.self.storage)) [
        | inr e ↦ rw e (some-ne-none tt, h)
        | inl e ↦ elim (Bool-cases (f.lt (r.random w.rng).0 (f.hundredths 10))) [
          | inr c ↦ rw (e, c) (some-ne-none tt, h)
          | inl c ↦ rw (e, c) (some-ne-none tt, h)
        ]
      ]

  charge-Returns : Returns (charge {T = T} r)
  unfolding charge
  charge-Returns = Returns-at (charge r) λ w h. elim (Bool-cases (f.lt w.self.battery (whole 30))) [
    | inr e ↦ rw e (some-ne-none tt, h)
    | inl e ↦ elim (Bool-cases (f.lt (r.random w.rng).0 (f.hundredths 5))) [
      | inr c ↦ rw (e, c) (some-ne-none tt, h)
      | inl c ↦ rw (e, c) (some-ne-none tt, h)
    ]
  ]

  generate_normal-Returns : Returns (generate_normal {T = T} r)
  unfolding generate_normal
  generate_normal-Returns = Returns-bind (update_battery r) _ update_battery-Returns λ _.
      Returns-bind (update_storage r) _ update_storage-Returns λ _.
        Returns-bind (update_signal r) _ update_signal-Returns λ _.
          Returns-bind (transmit r) _ transmit-Returns λ _.
            Returns-bind (charge r) _ charge-Returns λ _.
              Returns-bind
                (update_self r (λ g. record g { battery = clamp (pos 0) (pos 100) g.battery })) _
                (Returns-at _ λ w h. (some-ne-none tt, h))
                λ _. Returns-gets r (λ g. reading g.battery g.storage g.signal)

  anomalous-Returns : (kind : AnomalyType) → Returns (anomalous {T = T} r kind)
  unfolding anomalous battery_plus storage_plus signal_plus
  anomalous-Returns battery_critical =
      Returns-at (anomalous r battery_critical) λ w h. (some-ne-none _, h)
  anomalous-Returns storage_full = Returns-at (anomalous r storage_full) λ w h. (some-ne-none _, h)
  anomalous-Returns signal_loss = Returns-at (anomalous r signal_loss) λ w h. (some-ne-none _, h)
  anomalous-Returns sudden_discharge =
      Returns-at (anomalous r sudden_discharge) λ w h. (some-ne-none _, h)

  generate_anomaly-Returns : Returns (generate_anomaly {T = T} r)
  unfolding generate_anomaly
  generate_anomaly-Returns = Returns-bind (draw r (r.choice 4)) _ (Returns-draw r (r.choice 4)) λ k.
      Returns-bind (anomalous r (anomaly_type k)) _ (anomalous-Returns (anomaly_type k))
        λ values. Returns-pure r (clamped_reading values)

  remember-Returns : (found_at : Lookup F) → Returns (remember {T = T} r found_at)
  unfolding remember
  remember-Returns (found p) = Returns-at (remember r (found p)) λ w h. (some-ne-none (some p), h)
  remember-Returns not_found = Returns-gets r (λ g. g.last_position)
  remember-Returns failed = Returns-gets r (λ g. g.last_position)

  get_current_position-Returns : (now : T) → Returns (get_current_position r now)
  unfolding get_current_position
  get_current_position-Returns now = Returns-at (get_current_position r now) λ w h.
      elim (Option-cases (tracked w.self)) [
        | inl e ↦ rw (e, get_current_position) (some-ne-none _, h)
        | inr ((name, calculator), e) ↦
            let done = remember-Returns (calculator name now) in
            rw (e, get_current_position) (done.returns w h, done.keeps w h)
      ]

  add_position-Returns :
      (now : T) (t : Telemetry F) (tracking : Option (Text × Calculator F T))
      → Returns (add_position r now t tracking)
  unfolding add_position
  add_position-Returns now t none = Returns-pure r t
  add_position-Returns now t (some _) =
      Returns-bind (get_current_position r now) _ (get_current_position-Returns now)
        λ p. Returns-pure r (with_position t p)

  pick-Returns : (b : Bool) → Returns {T = T} (if b then generate_anomaly r else generate_normal r)
  pick-Returns true = generate_anomaly-Returns
  pick-Returns false = generate_normal-Returns

  -- If the drawn parameter of the signal's walk is not negative, a call returns a reading, whatever
  -- the random generators draw and the position calculator does, exceptions included, and so does
  -- every later call: the parameter is still not negative.
  pub generate_telemetry-Returns : (now : T) → Returns (generate_telemetry r now)
  unfolding generate_telemetry
  generate_telemetry-Returns now = Returns-bind (draw r r.random) _ (Returns-draw r r.random) λ p.
      Returns-bind (self_gets r (λ g. g.anomaly_rate)) _ (Returns-gets r (λ g. g.anomaly_rate))
        λ rate. Returns-bind _ _ (pick-Returns (f.lt p rate)) λ t.
          Returns-bind (self_gets r tracked) _ (Returns-gets r tracked)
            λ tracking. add_position-Returns now t tracking
