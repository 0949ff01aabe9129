-- ===== src/Tle/Manager/Names.antt =====
-- `REAL_SATELLITES` and `get_real_satellite_names` of tle_manager.py. `count` is an `int` that is not
-- negative.
pub mod Laws
use space_project.Base.{
  ℕ, zero, suc, ◌+◌, ◌%◌, Bool, true, false, Option, none, some, List, [], ◌∷◌, ◌++◌, map, String,
  if◌then◌else◌, ltb, length, take, is_empty,
}
use space_project.Base.Text.{Text, codes}
use space_project.Tle.{TleData, Cache}
use space_project.Tle.Find.{find_by_name}
use space_project.Tle.Manager.{Manager, Disk, Outside, Result, ok, raised, load_tle_data}

unfoldable pub real_satellites : List Text
real_satellites = map codes (
    "ISS" ∷ "STARLINK-1001" ∷ "STARLINK-1002" ∷ "STARLINK-1003" ∷ "STARLINK-1004" ∷ "STARLINK-1005"
    ∷ "NOAA-18" ∷ "NOAA-19" ∷ "METOP-B" ∷ "METOP-C" ∷ "FUNCUBE-1" ∷ "LILACSAT-2" ∷ "BUGSAT-1"
    ∷ "STARLINK-1006" ∷ "STARLINK-1007" ∷ "STARLINK-1008" ∷ "STARLINK-1009" ∷ "STARLINK-1010"
    ∷ "NOAA-20" ∷ "STARLINK-1011" ∷ "STARLINK-1012" ∷ "STARLINK-1013" ∷ "STARLINK-1014"
    ∷ "STARLINK-1015" ∷ "AAUSAT-4" ∷ "OUTSAT-1" ∷ "STARLINK-1016" ∷ "STARLINK-1017"
    ∷ "STARLINK-1018" ∷ "STARLINK-1019" ∷ "STARLINK-1020" ∷ "CAPE-2" ∷ "CUBESAT-H" ∷ "CHALLENGER"
    ∷ "STARLINK-1021" ∷ "STARLINK-1022" ∷ "STARLINK-1023" ∷ "STARLINK-1024" ∷ "STARLINK-1025"
    ∷ "STARLINK-1026" ∷ "STARLINK-1027" ∷ "STARLINK-1028" ∷ "STARLINK-1029" ∷ "STARLINK-1030"
    ∷ "STARLINK-1031" ∷ "STARLINK-1032" ∷ "STARLINK-1033" ∷ "STARLINK-1034" ∷ "STARLINK-1035"
    ∷ "STARLINK-1036" ∷ "STARLINK-1037" ∷ "STARLINK-1038" ∷ "STARLINK-1039" ∷ "STARLINK-1040"
    ∷ "STARLINK-1041" ∷ "STARLINK-1042" ∷ "STARLINK-1043" ∷ "STARLINK-1044" ∷ "STARLINK-1045"
    ∷ "STARLINK-1046" ∷ "STARLINK-1047" ∷ "STARLINK-1048" ∷ "STARLINK-1049" ∷ "STARLINK-1050"
    ∷ "QO-100" ∷ "AO-91" ∷ "AO-92" ∷ "MO-112" ∷ "TO-108" ∷ "STARLINK-1051" ∷ "STARLINK-1052"
    ∷ "STARLINK-1053" ∷ "STARLINK-1054" ∷ "STARLINK-1055" ∷ "STARLINK-1056" ∷ "STARLINK-1057"
    ∷ "STARLINK-1058" ∷ "STARLINK-1059" ∷ "STARLINK-1060" ∷ "STARLINK-1061" ∷ "STARLINK-1062"
    ∷ "STARLINK-1063" ∷ "STARLINK-1064" ∷ "STARLINK-1065" ∷ "STARLINK-1066" ∷ "STARLINK-1067"
    ∷ "STARLINK-1068" ∷ "STARLINK-1069" ∷ "STARLINK-1070" ∷ "FENGYUN-3C" ∷ "METEOR-M2"
    ∷ "METEOR-M2-2" ∷ "STARLINK-1071" ∷ "STARLINK-1072" ∷ "STARLINK-1073" ∷ "STARLINK-1074"
    ∷ "STARLINK-1075" ∷ "STARLINK-1076" ∷ "STARLINK-1077" ∷ "STARLINK-1078" ∷ "STARLINK-1079"
    ∷ "STARLINK-1080" ∷ [])

unfoldable get_satellite_tle : Text → Manager → Option TleData
get_satellite_tle satellite_name m = find_by_name satellite_name m.tle_cache

unfoldable get_available_satellites : Manager → List Text
get_available_satellites m = map (λ (name, _). name) m.tle_cache

-- The names of the list for which the dict has elements.
unfoldable pub filter_available : Cache → List Text → List Text
filter_available cache [] = []
filter_available cache (name ∷ names) =
    let rest = filter_available cache names in
    elim (find_by_name name cache) [ none ↦ rest | some _ ↦ name ∷ rest ]

-- `available[k]`, where the list is not empty.
abbrev pub get_or : List Text → ℕ → Text → Text
get_or [] k other = other
get_or (name ∷ names) zero other = name
get_or (name ∷ names) (suc k) other = get_or names k other

-- `while len(available) < count: available.append(available[i % len(available)])`. The source never
-- increments `i`. `fuel` bounds the rounds.
pub fill : (fuel : ℕ) (count i : ℕ) → List Text → List Text
fill zero count i available = available
fill (suc fuel) count i available =
    let more = fill fuel count i (available ++ get_or available (i % length available) [] ∷ []) in
    if ltb (length available) count then more else available

-- The rest of the method, from the dict on. Each round appends a name, so `count` rounds are enough.
unfoldable pub choose_names : (count : ℕ) → Cache → List Text
choose_names count cache =
    let available = filter_available cache (take count real_satellites) in
    take count (if is_empty available then available else fill count count 0 available)

unfoldable pub get_real_satellite_names :
    Outside → (count : ℕ) → Manager → Disk → Result (List Text × Manager × Disk)
get_real_satellite_names out count m disk =
    if is_empty m.tle_cache
    then elim (load_tle_data out false m disk) [
      | raised e ↦ raised e
      | ok (m', disk') ↦ ok (choose_names count m'.tle_cache, m', disk')
    ]
    else ok (choose_names count m.tle_cache, m, disk)
