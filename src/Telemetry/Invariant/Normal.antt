-- ===== src/Telemetry/Invariant/Normal.antt =====
-- The ranges in `_generate_normal`, part by part.
use mathlib.Core.Path.{subst}
use mathlib.Core.Option.{some-injective}
use space_project.Base.{◌≡◌, refl, inl, inr, Option, none, some, arith, Bool-cases, Option-cases}
use space_project.Base.Int.{pos, negsuc}
use space_project.Float.{Float, ◌≼◌, IsFloat, Between, clamp}
use space_project.Float.Clamp.{clamp-Between, le-py_max}
use space_project.Telemetry.{Generator, Telemetry}
use space_project.Telemetry.Invariant.{
  IsInRange, IsReading, Keeps, Yields, Yields-bind, reading-IsReading,
}
use space_project.Telemetry.Random.{Rng, IsRng}
use space_project.Telemetry.Action.{Action, continue, ◌>>◌}
use space_project.Telemetry.Generate.{
  World, whole, reading, update_self, self_gets, update_battery, update_storage, update_signal,
  transmit, charge, generate_normal,
}

clamped_battery :
    {F : Type 0} ⦃f : Float F⦄ (laws : IsFloat F) (x : F)
    → Between (pos 0) (pos 100) (clamp (pos 0) (pos 100) x)
clamped_battery laws x = clamp-Between laws (pos 0) (pos 100) x (omega arith)

module _ {F T S : Type 0} ⦃f : Float F⦄ (laws : IsFloat F) (r : Rng F S) (random : IsRng r) where
  -- The battery stays in range because the draw between its updates does not raise.
  update_battery-Keeps : Keeps (update_battery {T = T} r)
  unfolding update_battery
  update_battery-Keeps = record {
    at = λ w h. elim (Option-cases (r.np_normal (whole 0) (f.hundredths 50) w.rng).0) [
      | inl e ↦ absurd (random.np_normal_some _ _ w.rng (laws.hundredths_nonneg 50) e)
      | inr (n, e) ↦ rw e (record {
        battery = clamp-Between laws (pos 0) (pos 100) _ (omega arith);
        storage = h.storage;
        signal = h.signal;
      })
    ];
  }

  update_storage-Keeps : Keeps (update_storage {T = T} r)
  unfolding update_storage
  update_storage-Keeps = record {
    at = λ w h. elim (Option-cases (r.np_normal (whole 0) (whole 5) w.rng).0) [
      | inl e ↦
          absurd
            (random.np_normal_some _ _ w.rng (laws.of_int_mono (pos 0) (pos 5) (omega arith)) e)
      | inr (n, e) ↦
          rw e
            (record { battery = h.battery; storage = le-py_max laws (pos 0) _; signal = h.signal })
    ];
  }

  -- A volatility below zero raises before the signal is written.
  update_signal-Keeps : Keeps (update_signal {T = T} r)
  unfolding update_signal
  update_signal-Keeps = record {
    at = λ w h. elim (Option-cases (r.np_normal (whole 0) w.self.signal_volatility w.rng).0) [
      | inl e ↦ rw e h
      | inr (n, e) ↦ rw e (record {
        battery = h.battery;
        storage = h.storage;
        signal = clamp-Between laws (negsuc 119) (negsuc 29) _ (omega arith);
      })
    ];
  }

  -- At most 20 GB are sent of more than 90 GB.
  transmit-Keeps : Keeps (transmit {T = T} r)
  unfolding transmit
  transmit-Keeps = record {
    at = λ w h. elim (Bool-cases (f.lt (whole 90_000) w.self.storage)) [
      | inr e ↦ rw e h
      | inl e ↦ elim (Bool-cases (f.lt (r.random w.rng).0 (f.hundredths 10))) [
        | inr c ↦ rw (e, c) h
        | inl c ↦
            rw (e, c)
              (record {
                battery = h.battery;
                storage =
                    laws.sub_nonneg (pos 90_000) (pos 20_000) _ _ (omega arith) e
                      (random.np_uniform_bounds _ _ (r.random w.rng).1
                        (laws.of_int_mono (pos 5000) (pos 20_000) (omega arith))).1;
                signal = h.signal;
              })
      ]
    ];
  }

  -- The rest of `_generate_normal` once the battery may have been charged.
  abbrev clamp_and_read : Action (World F T S) (Telemetry F)
  clamp_and_read = do
    update_self r (λ g. record g { battery = clamp (pos 0) (pos 100) g.battery })
    self_gets r (λ g. reading g.battery g.storage g.signal)

  -- What charging leaves alone.
  record OthersInRange (g : Generator F T) : Type 0 where
    storage : whole 0 ≼ g.storage
    signal : Between (negsuc 119) (negsuc 29) g.signal

  charge-OthersInRange :
      (w : World F T S)
      → IsInRange w.self
      → ((charge r w).0 ≡ some tt) × OthersInRange (charge r w).1.self
  unfolding charge
  charge-OthersInRange w h = elim (Bool-cases (f.lt w.self.battery (whole 30))) [
    | inr e ↦ rw e (refl, record { storage = h.storage; signal = h.signal })
    | inl e ↦ elim (Bool-cases (f.lt (r.random w.rng).0 (f.hundredths 5))) [
      | inr c ↦ rw (e, c) (refl, record { storage = h.storage; signal = h.signal })
      | inl c ↦ rw (e, c) (refl, record { storage = h.storage; signal = h.signal })
    ]
  ]

  -- The rest of `_generate_normal`, once the battery may have been charged.
  clamp_and_read-at :
      (o : Option (Unit {0})) (w : World F T S)
      → o ≡ some tt
      → OthersInRange w.self
      → IsInRange (continue o (λ _. clamp_and_read) w).1.self
        × ((t : Telemetry F) → (continue o (λ _. clamp_and_read) w).0 ≡ some t → IsReading t)
  clamp_and_read-at none w e h = cc
  clamp_and_read-at (some _) w e h = (
    record {
      battery = clamped_battery laws w.self.battery;
      storage = h.storage;
      signal = h.signal;
    },
    λ t p.
        subst IsReading (some-injective _ t p)
          (reading-IsReading laws _ _ _ (clamped_battery laws w.self.battery) h.storage h.signal),
  )

  charge-Yields : Yields (charge r >> clamp_and_read)
  charge-Yields = record {
    at = λ w h.
        let c = charge-OthersInRange w h in
        (clamp_and_read-at (charge r w).0 (charge r w).1 c.0 c.1).0;
    reading = λ w h.
        let c = charge-OthersInRange w h in
        (clamp_and_read-at (charge r w).0 (charge r w).1 c.0 c.1).1;
  }

  pub generate_normal-Yields : Yields {T = T} (generate_normal r)
  unfolding generate_normal
  generate_normal-Yields = Yields-bind (update_battery r) _ update_battery-Keeps λ _.
      Yields-bind (update_storage r) _ update_storage-Keeps λ _.
        Yields-bind (update_signal r) _ update_signal-Keeps
          λ _. Yields-bind (transmit r) _ transmit-Keeps λ _. charge-Yields
