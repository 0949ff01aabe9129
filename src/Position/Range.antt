-- ===== src/Position/Range.antt =====
-- The ranges of the positions that the calculator reports.
use mathlib.Core.Path.{subst}
use mathlib.Core.Option.{some-injective}
use space_project.Base.{◌≡◌, refl, Option, none, some, Option-cases, inl, inr}
use space_project.Base.Int.{pos, negsuc}
use space_project.Base.Text.{Text}
use space_project.Float.{Float, IsFloat, Between}
use space_project.Telemetry.{PositionData, Telemetry}
use space_project.Telemetry.Random.{Rng}
use space_project.Telemetry.Generate.{World, tracked, with_position, add_position}
use space_project.Telemetry.Position.{shown, with_last, add_position_lem}
use space_project.Position.Skyfield.{Skyfield}
use space_project.Position.Calculator.{
  ◌>>=◌, Calculator, find_satellite, position_of, get_position, as_lookup,
}
use space_project.Position.Laws.{normalize_longitude-Between}

-- Skyfield's latitudes go from -90 to 90 degrees; longitudes are less than one and a half turns off.
pub record IsSkyfield {F : Type 0} ⦃f : Float F⦄ (sky : Skyfield F) : Type 0 where
  pub latitude :
      (g : sky.Geocentric) (place : F × F × F)
      → sky.subpoint g ≡ some place
      → Between (negsuc 89) (pos 90) place.0
  pub longitude :
      (g : sky.Geocentric) (place : F × F × F)
      → sky.subpoint g ≡ some place
      → Between (negsuc 539) (pos 540) place.1

pub record IsOnEarth {F : Type 0} ⦃f : Float F⦄ (p : PositionData F) : Type 0 where
  pub latitude : Between (negsuc 89) (pos 90) p.latitude
  pub longitude : Between (negsuc 179) (pos 180) p.longitude

-- A chain that returns has returned at each link.
chain_inv :
    {A B : Type 0} (m : Option A) (k : A → Option B) (b : B)
    → m >>= k ≡ some b
    → (a : A) × (m ≡ some a) × (k a ≡ some b)
chain_inv none k b h = cc
chain_inv (some a) k b h = (a, refl, h)

module _ {F : Type 0} ⦃f : Float F⦄ (laws : IsFloat F) (sky : Skyfield F)
    (ranges : IsSkyfield sky) where
  open sky use {Datetime, EarthSatellite, in_utc, at, subpoint, speed_kms}

  position_of-IsOnEarth :
      (satellite : EarthSatellite) (timestamp : Datetime) (p : PositionData F)
      → position_of sky satellite timestamp ≡ some p
      → IsOnEarth p
  unfolding position_of
  position_of-IsOnEarth satellite timestamp p h =
      let (t, _, h₁) = chain_inv (in_utc timestamp) _ p h in
      let (g, _, h₂) = chain_inv (at satellite t) _ p h₁ in
      let (place, e, h₃) = chain_inv (subpoint g) _ p h₂ in
      let (speed, _, h₄) = chain_inv (speed_kms g) _ p h₃ in
      subst IsOnEarth (some-injective _ p h₄) (record {
        latitude = ranges.latitude g place e;
        longitude = normalize_longitude-Between laws sky place.1 (ranges.longitude g place e);
      })

  -- Every position that `get_position` returns has a latitude from -90 to 90 and a longitude from
  -- -180 to 180, as its class promises, if Skyfield's latitudes are in that range and its longitudes
  -- are less than one and a half turns off.
  pub get_position-IsOnEarth :
      (c : Calculator sky) (name : Text) (timestamp : Datetime) (p : PositionData F)
      → get_position sky c name timestamp ≡ some p
      → IsOnEarth p
  unfolding get_position
  get_position-IsOnEarth c name timestamp p h =
      let (satellite, _, h₁) = chain_inv (find_satellite sky c name) _ p h in
      position_of-IsOnEarth satellite timestamp p h₁

-- No position, or one that can be.
abbrev pub IsKnown : {F : Type 0} ⦃f : Float F⦄ → Option (PositionData F) → Type 0
IsKnown none = Unit
IsKnown (some p) = IsOnEarth p

module _ {F : Type 0} ⦃f : Float F⦄ (laws : IsFloat F) (sky : Skyfield F)
    (ranges : IsSkyfield sky) where
  open sky use {Datetime}

  shown-IsKnown :
      (c : Calculator sky) (name : Text) (now : Datetime) (last : Option (PositionData F))
      → IsKnown last
      → IsKnown (shown (as_lookup sky c name now) last)
  unfolding as_lookup
  shown-IsKnown c name now last h = elim (Option-cases (get_position sky c name now)) [
    | inl e ↦ rw (e, as_lookup) h
    | inr (p, e) ↦ rw (e, as_lookup) (get_position-IsOnEarth laws sky ranges c name now p e)
  ]

  -- A generator that follows a satellite of a position calculator, and whose last position is none or
  -- in range, adds to a reading either no position or one with a latitude from -90 to 90 and a
  -- longitude from -180 to 180, before rounding, and this is its last position then.
  pub add_position-IsKnown :
      {S : Type 0} (r : Rng F S) (c : Calculator sky) (name : Text) (now : Datetime)
      (t : Telemetry F) (w : World F Datetime S)
      → tracked w.self ≡ some (name, as_lookup sky c)
      → IsKnown w.self.last_position
      → (p : Option (PositionData F)) × (add_position r now t (tracked w.self) w
          ≡ (some (with_position t p), with_last r w p))
        × IsKnown p
  add_position-IsKnown r c name now t w e h = (
    shown (as_lookup sky c name now) w.self.last_position,
    add_position_lem r now t w name (as_lookup sky c) e,
    shown-IsKnown c name now w.self.last_position h,
  )
