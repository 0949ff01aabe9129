-- ===== src/Simulation/Launch/Laws.antt =====
-- The positions of a new swarm.
use space_project.Base.{
  ℕ, ◌+◌, ◌*◌, ◌<◌, ◌≡◌, ◌≢◌, refl, ap, ◌∙◌, Bool, true, false, none, some, List, [], ◌∷◌, is_empty,
  All, Option-cases, inl, inr, Bool-cases,
}
use space_project.Base.Text.{Text, text_eq}
use space_project.Base.Text.Equality.{text_eq_iff}
use space_project.Base.Text.Split.{HasNoLoneCr}
use space_project.Base.Dict.{Dict, insert}
use space_project.Float.{Float}
use space_project.Tle.{Cache}
use space_project.Tle.Find.{find_by_name, matches_partly}
use space_project.Tle.Find.Laws.{NoneMatches, find_by_name-none_iff}
use space_project.Tle.Parse.{parse_download}
use space_project.Tle.Manager.{
  Disk, received, saved, ok, is_error_status, save_to_cache, microseconds_per_hour,
}
use space_project.Tle.Manager.Restart.{MustDownload, load_tle_data_after_download}
use space_project.Tle.Manager.Names.{choose_names, get_real_satellite_names}
use space_project.Tle.Manager.Names.Laws.{IsUsable, choose_names-IsUsable}
use space_project.Position.Skyfield.{Skyfield}
use space_project.Position.Calculator.{load_satellites, new_calculator, find_satellite, as_lookup}
use space_project.Telemetry.Random.{Rng}
use space_project.Simulation.{SimulatorConfig}
use space_project.Simulation.Start.{swarm_satellites}
use space_project.Simulation.Launch.{
  new_manager, Surroundings, create_position_manager, load_satellite_names, new_swarm,
}

insert-NoneMatches {ℓ} :
    {V : Type ℓ} (test : Text → Bool) (k : Text) (v : V) (d : Dict V)
    → NoneMatches test (insert k v d)
    → (test k ≡ false) × NoneMatches test d
unfolding insert
insert-NoneMatches test k v [] h = (h.0, tt)
insert-NoneMatches test k v ((j, w) ∷ d) h = elim (Bool-cases (text_eq j k)) [
  | inl e ↦
      let same : j ≡ k = (text_eq_iff j k).0 e in
      let h' : NoneMatches test ((j, v) ∷ d) = rw e at h in (ap test (cc) ∙ h'.0, h')
  | inr e ↦
      let h' : NoneMatches test ((j, w) ∷ insert k v d) = rw e at h in
      let rest = insert-NoneMatches test k v d h'.1 in (rest.0, (h'.0, rest.1))
]

module _ {F : Type 0} ⦃f : Float F⦄ (sky : Skyfield F) where
  open sky use {EarthSatellite, earth_satellite}

  -- Skyfield makes a satellite of every entry.
  abbrev pub IsAccepted : Cache → Type 0
  IsAccepted = All λ (name, tle). earth_satellite tle.line1 tle.line2 name ≢ none

  load_satellites-NoneMatches :
      (test : Text → Bool) (tles : Cache) (d : Dict EarthSatellite)
      → IsAccepted tles
      → NoneMatches test (load_satellites sky tles d)
      → NoneMatches test tles × NoneMatches test d
  unfolding load_satellites
  load_satellites-NoneMatches test [] d a h = (tt, h)
  load_satellites-NoneMatches test ((name, tle) ∷ tles) d a h =
      elim (Option-cases (earth_satellite tle.line1 tle.line2 name)) [
        | inl e ↦ absurd (a.0 e)
        | inr (satellite, e) ↦
            let rest =
              load_satellites-NoneMatches test tles (insert name satellite d) a.1 (rw e at h) in
            let put = insert-NoneMatches test name satellite d rest.1 in ((put.0, rest.0), put.1)
      ]

  -- What is found in the elements is found in the calculator.
  find_satellite_some :
      (name : Text) (tles : Cache)
      → IsAccepted tles
      → find_by_name name tles ≢ none
      → find_satellite sky (new_calculator sky tles) name ≢ none
  unfolding find_satellite new_calculator
  find_satellite_some name tles a some_found e =
      let none_left = (find_by_name-none_iff name (load_satellites sky tles [])).0 e in
      some_found (
        (find_by_name-none_iff name tles).1
          (load_satellites-NoneMatches (matches_partly name) tles [] a none_left).0)

  usable_found :
      (count : ℕ) (tles : Cache) (names : List Text)
      → IsAccepted tles
      → All (IsUsable count tles) names
      → All (λ name. find_satellite sky (new_calculator sky tles) name ≢ none) names
  usable_found count tles [] a u = tt
  usable_found count tles (name ∷ names) a u =
      (find_satellite_some name tles a u.0.0, usable_found count tles names a u.1)

  module _ {S : Type 0} (r : Rng F S) where
    open sky use {Datetime}

    -- A swarm that is made where the files of the cache are not valid, Celestrak answers with
    -- elements that Skyfield accepts, both files are written, and the second manager loads within a
    -- day of that: the two managers agree, the satellites are made with the calculator of these
    -- elements and with names of the list, and the calculator has a satellite for every one of
    -- these names.
    pub new_swarm_tracks :
        (out : Surroundings) (config : SimulatorConfig F) (disk : Disk) (status : ℕ) (body : Text)
        → MustDownload out.first false new_manager disk
        → out.first.response ≡ received status body
        → is_error_status status ≡ false
        → HasNoLoneCr body
        → is_empty (parse_download body) ≡ false
        → out.first.save ≡ saved
        → out.has_timescale ≡ true
        → out.second.now < out.first.saved_at + 24 * microseconds_per_hour
        → IsAccepted (parse_download body)
        → let c = new_calculator sky (parse_download body) in
          let names = choose_names config.num_satellites (parse_download body) in
          let disk' =
            save_to_cache out.first.saved_at saved
              (record new_manager { tle_cache = parse_download body })
              disk in
          (new_swarm sky r out config disk
            ≡ ok (swarm_satellites r config (some (as_lookup sky c)) names, disk'))
          × All (λ name. find_satellite sky c name ≢ none) names
    unfolding new_swarm create_position_manager load_satellite_names get_real_satellite_names
    new_swarm_tracks out config disk status body must answer e cr some_left w ts recent a =
        let shared =
          load_tle_data_after_download out.first out.second false new_manager new_manager disk
            status body must answer e cr some_left w recent in
        let count = config.num_satellites in
        (
          rw (shared.0, ts, shared.1, new_swarm) refl,
          usable_found count (parse_download body) _ a
              (choose_names-IsUsable count (parse_download body)),
        )
