-- ===== src/Telemetry/Position.antt =====
-- The position of a reading, and the last known position that stands in for it.
use space_project.Base.{◌≡◌, refl, Option, some}
use space_project.Base.Text.{Text}
use space_project.Float.{Float}
use space_project.Telemetry.{Telemetry, PositionData, Lookup, failed, not_found, found, Calculator}
use space_project.Telemetry.Random.{Rng}
use space_project.Telemetry.Generate.{
  World, tracked, with_position, remember, get_current_position, add_position,
}

-- The position to show: the calculated one, or else the last one that was calculated.
abbrev pub shown : {F : Type 0} → Lookup F → Option (PositionData F) → Option (PositionData F)
shown (found p) last = some p
shown not_found last = last
shown failed last = last

module _ {F T S : Type 0} ⦃f : Float F⦄ (r : Rng F S) where
  -- The object after a lookup.
  abbrev pub with_last : World F T S → Option (PositionData F) → World F T S
  with_last w p = record w { self = record w.self { last_position = p } }

  remember_lem :
      (l : Lookup F) (w : World F T S)
      → remember r l w
        ≡ (some (shown l w.self.last_position), with_last w (shown l w.self.last_position))
  unfolding remember
  remember_lem (found p) w = refl
  remember_lem not_found w = refl
  remember_lem failed w = refl

  get_current_position_lem :
      (now : T) (w : World F T S) (name : Text) (calculator : Calculator F T)
      → tracked w.self ≡ some (name, calculator)
      → get_current_position r now w ≡ (
          let p : Option (PositionData F) = shown (calculator name now) w.self.last_position in
          (some p, with_last w p))
  unfolding get_current_position
  get_current_position_lem now w name calculator e =
      rw (e, get_current_position) (remember_lem (calculator name now) w)

  -- A satellite that is tracked shows, beside the reading, the calculated position, or else the last
  -- one that was calculated, and remembers what it shows; without any it shows none. An exception
  -- of the calculator is treated as no position.
  pub add_position_lem :
      (now : T) (t : Telemetry F) (w : World F T S) (name : Text) (calculator : Calculator F T)
      → tracked w.self ≡ some (name, calculator)
      → add_position r now t (tracked w.self) w ≡ (
          let p : Option (PositionData F) = shown (calculator name now) w.self.last_position in
          (some (with_position t p), with_last w p))
  unfolding add_position
  add_position_lem now t w name calculator e =
      rw (e, add_position) (rw (get_current_position_lem now w name calculator e))
