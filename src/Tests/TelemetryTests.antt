-- ===== src/Tests/TelemetryTests.antt =====
-- The theorems on telemetry and positions, at concrete objects.
use mathlib.Core.Option.{some-injective}
use space_project.Position.Range.{
  IsSkyfield, IsOnEarth, IsKnown, get_position-IsOnEarth, add_position-IsKnown,
}
use space_project.Position.Calculator.{get_position, position_of, load_satellites, as_lookup}
use space_project.Tle.Find.{find_by_name, find_first}
use space_project.Base.{ℕ, refl, ◌≡◌, ◌≢◌, Option, none, some}
use space_project.Base.Int.{pos, negsuc, ◌-ℤ◌}
use space_project.Base.Text.{codes, upper, contains, text_eq}
use space_project.Base.Dict.{insert}
use space_project.Float.Cents.{Cents, cents_float, Cents-IsFloat}
use space_project.Telemetry.{Telemetry, PositionData}
use space_project.Telemetry.Generate.{
  World, generate_telemetry, generate_normal, with_position, add_position, tracked, reading,
}
use space_project.Telemetry.Invariant.{IsInRange}
use space_project.Telemetry.Invariant.Returns.{HasScale}
use space_project.Telemetry.Correct.{
  IsAnswer, generate_telemetry-IsInRange, generate_telemetry_returns,
}
use space_project.Telemetry.Invariant.Raises.{generate_normal_raises}
use space_project.Telemetry.Position.{with_last}
use space_project.Position.Calculator.{
  Calculator, new_calculator, normalize_longitude, find_satellite,
}
use space_project.Tests.Data.{
  low_rng, low_rng-IsRng, over_java, iss_generator, iss_generator-IsInRange, iss_world, old_cache,
  flat_sky,
}

generate_telemetry-IsInRange_example :
    IsInRange (generate_telemetry low_rng 0 iss_world).1.self
    × IsAnswer (generate_telemetry low_rng 0 iss_world).0
generate_telemetry-IsInRange_example =
    generate_telemetry-IsInRange Cents-IsFloat low_rng low_rng-IsRng 0 iss_world
      iss_generator-IsInRange

generate_telemetry_returns_example :
    ((generate_telemetry low_rng 0 iss_world).0 ≢ none)
    × HasScale (generate_telemetry low_rng 0 iss_world).1.self
generate_telemetry_returns_example =
    generate_telemetry_returns Cents-IsFloat low_rng low_rng-IsRng 0 iss_world refl

-- A satellite whose walk was drawn with a scale below zero.
abbrev unlucky : World Cents ℕ ℕ
unlucky = record iss_world { self = record iss_generator { signal_volatility = some (negsuc 4) } }

generate_normal_raises_example : (generate_normal low_rng unlucky).0 ≡ none
generate_normal_raises_example = generate_normal_raises low_rng unlucky (λ s. refl)

abbrev plain : Telemetry Cents
plain = reading (some (pos 9000)) (some (pos 100)) (some (negsuc 4999))

-- After a position at the time 0, the calculator has none at the time 1.
abbrev later_world : World Cents ℕ ℕ
later_world = with_last low_rng iss_world (some over_java)

flat_sky-IsSkyfield : IsSkyfield flat_sky
flat_sky-IsSkyfield = record {
  latitude = λ g place e. rw⁻¹ (some-injective _ place e) (refl, refl);
  longitude = λ g place e. rw⁻¹ (some-injective _ place e) (refl, refl);
}

abbrev old_calculator : Calculator flat_sky
old_calculator = new_calculator flat_sky old_cache

-- 200 degrees east are 160 degrees west.
abbrev west : PositionData Cents
west = record {
  latitude = some (pos 0);
  longitude = some (negsuc 15_999);
  altitude_km = some (pos 40_000);
  velocity_kmph = some (pos 766);
}

old_calculator-west : get_position flat_sky old_calculator (codes "iss") 5 ≡ some west
unfolding get_position find_satellite position_of normalize_longitude new_calculator load_satellites
    find_by_name find_first upper contains text_eq insert ◌-ℤ◌
old_calculator-west = refl

get_position-IsOnEarth_example : IsOnEarth west
get_position-IsOnEarth_example =
    get_position-IsOnEarth Cents-IsFloat flat_sky flat_sky-IsSkyfield old_calculator (codes "iss") 5
      west old_calculator-west

abbrev iss_follower : World Cents ℕ ℕ
iss_follower = record iss_world {
  self = record iss_generator { position_calculator = some (as_lookup flat_sky old_calculator) };
}

add_position-IsKnown_example :
    (p : Option (PositionData Cents)) × (add_position low_rng 5 plain
        (tracked iss_follower.self)
        iss_follower
      ≡ (some (with_position plain p), with_last low_rng iss_follower p))
    × IsKnown p
unfolding tracked
add_position-IsKnown_example =
    add_position-IsKnown Cents-IsFloat flat_sky flat_sky-IsSkyfield low_rng old_calculator
      (codes "ISS") 5 plain iss_follower refl tt

-- 'NOAA-1' is in the name of the second entry, and is the name of the third.
