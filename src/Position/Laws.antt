-- ===== src/Position/Laws.antt =====
-- What the calculator promises: which satellites it holds, and the longitudes it reports.
use space_project.Base.{
  ◌≡◌, refl, true, Option, none, some, [], ◌∷◌, ◌++◌, arith, Option-cases, inl, inr,
}
use space_project.Base.Int.{pos, negsuc, ◌+ℤ◌, ◌-ℤ◌}
use space_project.Base.Text.{Text}
use space_project.Base.Text.Equality.{text_eq_iff}
use space_project.Base.Dict.{Dict, lookup, insert, HasDistinctKeys, lookup-insert}
use space_project.Float.{Float, IsFloat, Between}
use space_project.Tle.{TleData, Cache}
use space_project.Tle.Find.{matches_exactly, matches_partly}
use space_project.Tle.Find.Laws.{
  NoneMatches, find_by_name_exact, find_either-eq-find_first, find_first_skip,
}
use space_project.Position.Skyfield.{Skyfield}
use space_project.Position.Calculator.{
  Calculator, load_satellites, new_calculator, normalize_longitude, find_satellite, find_tle,
}

module _ {F : Type 0} ⦃f : Float F⦄ (sky : Skyfield F) where
  open sky use {EarthSatellite, earth_satellite}

  -- The satellite that Skyfield makes of the entry for a name.
  abbrev pub satellite_of : Text → Option TleData → Option EarthSatellite
  satellite_of name none = none
  satellite_of name (some tle) = earth_satellite tle.line1 tle.line2 name

  abbrev or_else : Option EarthSatellite → Option EarthSatellite → Option EarthSatellite
  or_else none b = b
  or_else (some a) b = some a

  or_else-none : (a : Option EarthSatellite) → or_else a none ≡ a
  or_else-none none = refl
  or_else-none (some a) = refl

  lookup-load_satellites_onto :
      (name : Text) (tles : Cache) (d : Dict EarthSatellite)
      → HasDistinctKeys tles
      → lookup name (load_satellites sky tles d)
        ≡ or_else (satellite_of name (lookup name tles)) (lookup name d)
  unfolding load_satellites lookup
  lookup-load_satellites_onto name [] d h = refl
  lookup-load_satellites_onto name ((key, tle) ∷ tles) d h =
      elim (Option-cases (earth_satellite tle.line1 tle.line2 key)) [
        | inl e ↦
            rw e (
              ground
                (arith, text_eq_iff key name, h.0, lookup-load_satellites_onto name tles d h.1))
        | inr (satellite, e) ↦ rw e (
            ground (
              arith,
              text_eq_iff key name,
              h.0,
              lookup-insert key name satellite d,
              lookup-load_satellites_onto name tles (insert key satellite d) h.1,
            ))
      ]

  -- For a cache without a name twice, the calculator holds a satellite under a name exactly when the
  -- cache has an entry for it that Skyfield accepts, and it is the one Skyfield makes of that entry.
  lookup-load_satellites :
      (name : Text) (tles : Cache)
      → HasDistinctKeys tles
      → lookup name (new_calculator sky tles).satellites ≡ satellite_of name (lookup name tles)
  unfolding new_calculator lookup
  lookup-load_satellites name tles h =
      rw (lookup-load_satellites_onto name tles [] h, new_calculator)
        (or_else-none (satellite_of name (lookup name tles)))

module _ {F : Type 0} ⦃f : Float F⦄ (laws : IsFloat F) where
  sub_turn :
      (x : F)
      → Between (pos 180) (pos 540) x
      → Between (negsuc 179) (pos 180) (f.sub x (f.of_int (pos 360)))
  unfolding ◌-ℤ◌
  sub_turn x h =
      laws.sub_bounds (pos 180) (pos 540) (pos 360) x (omega arith) (omega arith) (omega arith) h.0
        h.1

  add_turn :
      (x : F)
      → Between (negsuc 539) (negsuc 179) x
      → Between (negsuc 179) (pos 180) (f.add x (f.of_int (pos 360)))
  unfolding ◌+ℤ◌
  add_turn x h =
      laws.add_bounds (negsuc 539) (negsuc 179) (pos 360) x (omega arith) (omega arith)
        (omega arith) h.0 h.1

  -- A longitude from -540 to 540 degrees is brought into -180 to 180.
  pub normalize_longitude-Between :
      (sky : Skyfield F) (longitude : F)
      → Between (negsuc 539) (pos 540) longitude
      → Between (negsuc 179) (pos 180) (normalize_longitude sky longitude)
  unfolding normalize_longitude
  normalize_longitude-Between sky longitude h = ground (
    arith,
    sub_turn longitude,
    add_turn longitude,
    laws.le_of_lt (f.of_int (pos 180)) longitude,
    laws.le_of_lt longitude (f.of_int (negsuc 179)),
    laws.le_of_not_lt (pos 180) longitude (f.of_int (pos 540)),
    laws.ge_of_not_lt (negsuc 179) longitude (f.of_int (negsuc 539)),
  )

module _ {F : Type 0} ⦃f : Float F⦄ (sky : Skyfield F) where
  open sky use {EarthSatellite, Datetime}

  -- The satellite for a query is the first whose name equals it, in any case, while the TLE for the
  -- same query is the first whose name contains it, even if a later name equals it.
  find_satellite-find_tle :
      (query name other : Text) (satellite : EarthSatellite) (tle : TleData)
      → (before after : Dict EarthSatellite) (tles_before tles_after : Cache)
      → NoneMatches (matches_exactly query) before
      → matches_exactly query name ≡ true
      → NoneMatches (matches_partly query) tles_before
      → matches_partly query other ≡ true
      → (let c : Calculator sky = record {
        tle_data = tles_before ++ (other, tle) ∷ tles_after;
        satellites = before ++ (name, satellite) ∷ after;
      } in
          (find_satellite sky c query ≡ some satellite) × (find_tle sky c query ≡ some tle))
  unfolding find_satellite find_tle
  find_satellite-find_tle query name other satellite tle before after tles_before tles_after n m k
        l =
      (
        find_by_name_exact query before name satellite after n m,
        rw (find_either-eq-find_first query (tles_before ++ (other, tle) ∷ tles_after))
            (find_first_skip (matches_partly query) tles_before other tle tles_after k l),
      )
