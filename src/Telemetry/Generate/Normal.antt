-- ===== src/Telemetry/Generate/Normal.antt =====
-- `_generate_normal`, part by part.
use space_project.Base.{if◌then◌else◌}
use space_project.Base.Int.{pos, negsuc}
use space_project.Float.{Float, clamp, py_max}
use space_project.Telemetry.{Telemetry}
use space_project.Telemetry.Random.{Rng}
use space_project.Telemetry.Action.{Action, pure, ◌>>=◌, ◌>>◌}
use space_project.Telemetry.Generate.State.{
  World, whole, reading, update_self, self_gets, draw, draw_normal,
}

module _ {F T S : Type 0} ⦃f : Float F⦄ (r : Rng F S) where
  -- Battery: gradual drain with small fluctuations.
  unfoldable pub update_battery : Action (World F T S) (Unit {0})
  update_battery = do
    update_self r (λ g. record g { battery = f.sub g.battery g.battery_drain_rate })
    n ← draw_normal r (whole 0) (f.hundredths 50)
    update_self r (λ g. record g { battery = f.add g.battery n })
    update_self r (λ g. record g { battery = clamp (pos 0) (pos 100) g.battery })

  -- Storage: gradual accumulation.
  unfoldable pub update_storage : Action (World F T S) (Unit {0})
  update_storage = do
    update_self r (λ g. record g { storage = f.add g.storage g.storage_growth_rate })
    n ← draw_normal r (whole 0) (whole 5)
    update_self r (λ g. record g { storage = f.add g.storage n })
    update_self r (λ g. record g { storage = py_max (whole 0) g.storage })

  -- Signal: fluctuation around the base.
  unfoldable pub update_signal : Action (World F T S) (Unit {0})
  update_signal = do
    volatility ← self_gets r (λ g. g.signal_volatility)
    signal_change ← draw_normal r (whole 0) volatility
    update_self r (λ g. record g { signal = f.add g.signal signal_change })
    update_self r (λ g. record g { signal = clamp (negsuc 119) (negsuc 29) g.signal })

  -- Occasional data transmission; the second test is drawn only if the first holds.
  unfoldable pub transmit : Action (World F T S) (Unit {0})
  transmit = do
    storage ← self_gets r (λ g. g.storage)
    if f.lt (whole 90_000) storage
        then (do
          p ← draw r r.random
          if f.lt p (f.hundredths 10)
              then (do
                sent ← draw r (r.np_uniform (whole 5000) (whole 20_000))
                update_self r (λ g. record g { storage = f.sub g.storage sent }))
              else pure tt)
        else pure tt

  -- Occasional battery charging.
  unfoldable pub charge : Action (World F T S) (Unit {0})
  charge = do
    battery ← self_gets r (λ g. g.battery)
    if f.lt battery (whole 30)
        then (do
          p ← draw r r.random
          if f.lt p (f.hundredths 5)
              then (do
                charged ← draw r (r.np_uniform (whole 5) (whole 15))
                update_self r (λ g. record g { battery = f.add g.battery charged }))
              else pure tt)
        else pure tt

  -- `_generate_normal`
  unfoldable pub generate_normal : Action (World F T S) (Telemetry F)
  generate_normal = do
    update_battery
    update_storage
    update_signal
    transmit
    charge
    update_self r (λ g. record g { battery = clamp (pos 0) (pos 100) g.battery })
    self_gets r (λ g. reading g.battery g.storage g.signal)
