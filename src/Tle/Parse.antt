-- ===== src/Tle/Parse.antt =====
-- The two loops of tle_manager.py that read three-line records, and the text that is saved.
-- A loop `while i < len(lines)` is `scan` over the lines from `i` on: its body is given line `i` and
-- the lines behind it, and returns the increment of `i` beside the new dict.
pub mod IsCache
pub mod Download
pub mod RoundTrip
pub mod Reload
use space_project.Base.{
  String, ℕ, zero, suc, ◌-◌, Bool, ◌&&◌, ◌||◌, not, List, [], ◌∷◌, ◌++◌, if◌then◌else◌, is_empty,
}
use space_project.Base.Text.{
  Text, codes, newline, strip, split_lines, starts_with, universal_newlines,
}
use space_project.Base.Dict.{insert}
use space_project.Tle.{TleData, Cache}

abbrev pub Visit : Type 0
Visit = Text → List Text → Cache → ℕ × Cache

-- `skip` counts the lines that the last increment still has to pass.
pub scan : Visit → ℕ → List Text → Cache → Cache
scan visit skip [] cache = cache
scan visit (suc skip) (l ∷ ls) cache = scan visit skip ls cache
scan visit zero (l ∷ ls) cache = let (i, cache') = visit l ls cache in scan visit (i - 1) ls cache'

abbrev pub starts_line : Text → String → Bool
starts_line line mark = starts_with line (codes mark)

-- The body of the loop of `_download_tle_data`, at a line that is not empty, a comment or an
-- element line.
visit_name : Text → List Text → Cache → ℕ × Cache
visit_name name (a ∷ b ∷ _) cache =
    let line1 = strip a in
    let line2 = strip b in
    if starts_line line1 "1 " && starts_line line2 "2 "
    then (3, insert name (record { name = name; line1 = line1; line2 = line2 }) cache)
    else (1, cache)
visit_name name _ cache = (1, cache)

pub visit_download : Visit
visit_download raw rest cache =
    let line = strip raw in
    if is_empty line || starts_line line "#"
    then (1, cache)
    else if not (starts_line line "1 ") && not (starts_line line "2 ")
    then visit_name line rest cache
    else (1, cache)

-- The body of the loop of `_load_from_cache`.
pub visit_cache : Visit
visit_cache raw (a ∷ b ∷ _) cache =
    let name = strip raw in
    (3, insert name (record { name = name; line1 = strip a; line2 = strip b }) cache)
visit_cache raw _ cache = (3, cache)

-- The dict that `_download_tle_data` builds from the text of a response.
unfoldable pub parse_download : Text → Cache
unfolding scan visit_name visit_download strip split_lines starts_with insert
parse_download content = scan visit_download 0 (split_lines (strip content)) []

-- The dict that `_load_from_cache` builds from the text of the file, read in text mode.
unfoldable pub parse_cache : Text → Cache
unfolding scan visit_cache strip split_lines insert universal_newlines
parse_cache file = scan visit_cache 0 (split_lines (strip (universal_newlines file))) []

-- `TLEData.__str__`
tle_str : TleData → Text
tle_str tle = tle.name ++ newline ∷ (tle.line1 ++ newline ∷ tle.line2)

-- What `_save_to_cache` writes to the file, entry by entry.
unfoldable pub render : Cache → Text
unfolding tle_str
render [] = []
render ((_, tle) ∷ cache) = tle_str tle ++ newline ∷ render cache
