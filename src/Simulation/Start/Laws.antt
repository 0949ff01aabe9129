-- ===== src/Simulation/Start/Laws.antt =====
-- The satellites that a swarm starts with.
use space_project.Base.{
  ℕ, zero, suc, ◌+◌, ◌<◌, ◌≡◌, ◌≢◌, refl, ap, ◌∙◌, Option, some, List, [], ◌∷◌, arith, length, All,
  drop, Option-cases, inl, inr,
}
use space_project.Base.Decimal.{format_04d_injective}
use space_project.Base.Int.{pos, negsuc}
use space_project.Base.Text.{Text}
use space_project.Float.{Float, IsFloat, ◌≼◌}
use space_project.Telemetry.{Generator, Calculator}
use space_project.Telemetry.Random.{Rng, IsRng}
use space_project.Telemetry.Generate.{whole, new_generator}
use space_project.Telemetry.Invariant.{IsInRange}
use space_project.Simulation.{SimulatorConfig, Satellite}
use space_project.Simulation.Start.{
  sat_id, name_at, get_satellite_names, make_satellites, swarm_satellites,
}

sat_id_injective : (i j : ℕ) → sat_id i ≡ sat_id j → i ≡ j
unfolding sat_id
sat_id_injective i j e =
    let same = format_04d_injective (i + 1) (j + 1) (ap (drop 4) e) in omega (arith, same)

-- A satellite with its number `i`: its id, the name at its place, the shared position calculator,
-- and the three walks in range.
pub record IsNumbered {F T : Type 0} ⦃f : Float F⦄ (calculator : Option (Calculator F T))
    (names : List Text) (i : ℕ) (s : Satellite F T) : Type 0 where
  pub id : s.id ≡ sat_id i
  pub satellite_name : s.generator.satellite_name ≡ name_at i names
  pub position_calculator : s.generator.position_calculator ≡ calculator
  pub range : IsInRange s.generator

-- The satellites with the numbers from `i` on.
abbrev pub AreNumbered :
    {F T : Type 0} ⦃f : Float F⦄
    → Option (Calculator F T)
    → List Text
    → ℕ
    → List (Satellite F T)
    → Type 0
AreNumbered calculator names i [] = Unit
AreNumbered calculator names i (s ∷ satellites) =
    IsNumbered calculator names i s × AreNumbered calculator names (suc i) satellites

-- No two have the same id.
abbrev pub HaveDistinctIds : {F T : Type 0} → List (Satellite F T) → Type 0
HaveDistinctIds [] = Unit
HaveDistinctIds (s ∷ satellites) = All (λ t. s.id ≢ t.id) satellites × HaveDistinctIds satellites

module _ {F T : Type 0} ⦃f : Float F⦄ (calculator : Option (Calculator F T))
    (names : List Text) where
  AreNumbered-ids_ne :
      (i j : ℕ) (satellites : List (Satellite F T))
      → i < j
      → AreNumbered calculator names j satellites
      → All (λ t. sat_id i ≢ t.id) satellites
  AreNumbered-ids_ne i j [] h a = tt
  AreNumbered-ids_ne i j (s ∷ satellites) h a = (
    (λ e. absurd (omega (arith, sat_id_injective i j (e ∙ a.0.id)))),
    AreNumbered-ids_ne i (suc j) satellites (omega arith) a.1,
  )

  AreNumbered-HaveDistinctIds :
      (i : ℕ) (satellites : List (Satellite F T))
      → AreNumbered calculator names i satellites
      → HaveDistinctIds satellites
  AreNumbered-HaveDistinctIds i [] a = tt
  AreNumbered-HaveDistinctIds i (s ∷ satellites) a = (
    rw a.0.id (AreNumbered-ids_ne i (suc i) satellites (omega arith) a.1),
    AreNumbered-HaveDistinctIds (suc i) satellites a.1,
  )

module _ {F S : Type 0} ⦃f : Float F⦄ (r : Rng F S) (random : IsRng r) where
  normal_some :
      (mean scale : F) (s : S) → whole 0 ≼ scale → (x : F) × ((r.np_normal mean scale s).0 ≡ some x)
  normal_some mean scale s h = elim (Option-cases (r.np_normal mean scale s).0) [
    | inl e ↦ absurd (random.np_normal_some mean scale s h e)
    | inr x ↦ x
  ]

module _ {F T S : Type 0} ⦃f : Float F⦄ (laws : IsFloat F) (r : Rng F S) (random : IsRng r) where
  -- A new object, with what it is made with.
  new_generator_lem :
      (rate : F) (name : Option Text) (calculator : Option (Calculator F T)) (s : S)
      → (g : Generator F T) × ((new_generator r
            (whole 100)
            (whole 0)
            (f.of_int (negsuc 49))
            rate
            name
            calculator
            s).0
          ≡ some g)
        × (g.satellite_name ≡ name)
        × (g.position_calculator ≡ calculator)
        × IsInRange g
  unfolding new_generator
  new_generator_lem rate name calculator s =
      let s₁ = (r.np_normal (f.hundredths 5) (f.hundredths 1) s).1 in
      let s₂ = (r.np_normal (whole 10) (whole 2) s₁).1 in
      let (drain, e₁) =
        normal_some r random (f.hundredths 5) (f.hundredths 1) s (laws.hundredths_nonneg 1) in
      let (growth, e₂) =
        normal_some r random (whole 10) (whole 2) s₁
          (laws.of_int_mono (pos 0) (pos 2) (omega arith)) in
      let (volatility, e₃) =
        normal_some r random (f.hundredths 50) (f.hundredths 10) s₂ (laws.hundredths_nonneg 10) in
      rw (e₁, e₂, e₃)
        (
          _,
          refl,
          refl,
          refl,
          record {
            battery = (
              laws.of_int_mono (pos 0) (pos 100) (omega arith),
              laws.of_int_mono (pos 100) (pos 100) (omega arith),
            );
            storage = laws.of_int_mono (pos 0) (pos 0) (omega arith);
            signal = (
              laws.of_int_mono (negsuc 119) (negsuc 49) (omega arith),
              laws.of_int_mono (negsuc 49) (negsuc 29) (omega arith),
            );
          },
        )

  make_satellites_lem :
      (rate : F) (calculator : Option (Calculator F T)) (names : List Text) (i rest : ℕ) (s : S)
      → (satellites : List (Satellite F T)) × ((make_satellites r rate calculator names i rest s).0
          ≡ some satellites)
        × (length satellites ≡ rest)
        × AreNumbered calculator names i satellites
  unfolding make_satellites
  make_satellites_lem rate calculator names i zero s = ([], refl, refl, tt)
  make_satellites_lem rate calculator names i (suc rest) s =
      let made = new_generator_lem rate (name_at i names) calculator s in
      let s' =
        (new_generator r (whole 100) (whole 0) (f.of_int (negsuc 49)) rate (name_at i names)
          calculator s).1 in
      let (rest_made, e, n, a) = make_satellites_lem rate calculator names (suc i) rest s' in
      rw (made.1, e)
        (
          _,
          refl,
          ap suc n,
          (
            record {
              id = refl;
              satellite_name = made.2;
              position_calculator = made.3;
              range = made.4;
            },
            a,
          ),
        )

  -- A new swarm is made without an exception, whatever the generators draw. It has the configured
  -- number of satellites; each has the id of its number, the name at its place, the swarm's
  -- position calculator and walks in range; no two have the same id.
  pub swarm_satellites_lem :
      (config : SimulatorConfig F) (calculator : Option (Calculator F T)) (real_names : List Text)
      (s : S)
      → (satellites : List (Satellite F T)) × ((swarm_satellites r config calculator real_names s).0
          ≡ some satellites)
        × (length satellites ≡ config.num_satellites)
        × AreNumbered calculator (get_satellite_names calculator real_names) 0 satellites
        × HaveDistinctIds satellites
  unfolding swarm_satellites
  swarm_satellites_lem config calculator real_names s =
      let names = get_satellite_names calculator real_names in
      let (satellites, e, n, a) =
        make_satellites_lem config.anomaly_rate calculator names 0 config.num_satellites s in
      (satellites, e, n, a, AreNumbered-HaveDistinctIds calculator names 0 satellites a)
