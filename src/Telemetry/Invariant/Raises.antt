-- ===== src/Telemetry/Invariant/Raises.antt =====
-- When a normal reading raises.
use space_project.Base.{◌≡◌, refl, inl, inr, Option, none, some, Option-cases}
use space_project.Float.{Float}
use space_project.Telemetry.Random.{Rng}
use space_project.Telemetry.Action.{Action, continue}
use space_project.Telemetry.Generate.{
  World, whole, update_battery, update_storage, update_signal, generate_normal,
}

continue_raises :
    {W A B : Type 0} (o : Option A) (k : A → Action W B) (w : W)
    → ((a : A) → (k a w).0 ≡ none)
    → (continue o k w).0 ≡ none
continue_raises none k w h = refl
continue_raises (some a) k w h = h a

-- numpy refuses the scale `v`.
abbrev pub Refused : {F S : Type 0} ⦃f : Float F⦄ → Rng F S → F → Type 0
Refused {S} r v = (s : S) → (r.np_normal (whole 0) v s).0 ≡ none

module _ {F T S : Type 0} ⦃f : Float F⦄ (r : Rng F S) where
  volatility-update_battery :
      (w : World F T S) → (update_battery r w).1.self.signal_volatility ≡ w.self.signal_volatility
  unfolding update_battery
  volatility-update_battery w =
      elim (Option-cases (r.np_normal (whole 0) (f.hundredths 50) w.rng).0) [
        | inl e ↦ rw e
        | inr (n, e) ↦ rw e
      ]

  volatility-update_storage :
      (w : World F T S) → (update_storage r w).1.self.signal_volatility ≡ w.self.signal_volatility
  unfolding update_storage
  volatility-update_storage w = elim (Option-cases (r.np_normal (whole 0) (whole 5) w.rng).0) [
    | inl e ↦ rw e
    | inr (n, e) ↦ rw e
  ]

  update_signal_raises :
      (w : World F T S) → Refused r w.self.signal_volatility → (update_signal r w).0 ≡ none
  unfolding update_signal
  update_signal_raises w h = rw (h w.rng)

  -- An object whose parameter of the signal's walk numpy refuses as a scale, as it does a negative
  -- one, has no normal reading: `_generate_normal` raises on every call.
  pub generate_normal_raises :
      (w : World F T S) → Refused r w.self.signal_volatility → (generate_normal r w).0 ≡ none
  unfolding generate_normal
  generate_normal_raises w h =
      let w₁ : World F T S = (update_battery r w).1 in
      let w₂ : World F T S = (update_storage r w₁).1 in
      continue_raises (update_battery r w).0 _ w₁ λ _.
        continue_raises (update_storage r w₁).0 _ w₂ λ _. rw (
          update_signal_raises w₂
            (rw (volatility-update_storage w₁, volatility-update_battery w) h))
