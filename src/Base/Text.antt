-- ===== src/Base/Text.antt =====
-- Python's `str`, as the list of its code points, and the methods that the simulator calls:
-- `strip`, `split('\n')`, `startswith`, `in`, `upper` and `==`.
pub mod Equality
pub mod Strip
pub mod Split
pub mod Search
use Prim.Native.Char.{code}
use Prim.Native.Nat.{ℕ, ◌+◌, ◌-◌}
use Prim.Native.String.{String}
use mathlib.Core.Bool.{Bool, true, false, ◌&&◌, ◌||◌}
use mathlib.Core.List.{List, [], ◌∷◌, ◌++◌, map}
use space_project.Base.Tests.{leb, ◌==◌, if◌then◌else◌}
use space_project.Base.Lists.{is_empty}

abbrev pub Text : Type 0
Text = List ℕ

abbrev pub codes : String → Text
codes String.[] = []
codes (String.◌∷◌ c s) = code c ∷ codes s

abbrev pub newline : ℕ
newline = 10

abbrev pub carriage_return : ℕ
carriage_return = 13

-- `str.isspace` of one code point, by Python's table.
unfoldable pub is_space : ℕ → Bool
is_space c =
    (leb 9 c && leb c 13)
    || (leb 28 c && leb c 32)
    || c == 0x85
    || c == 0xa0
    || c == 0x1680
    || (leb 0x2000 c && leb c 0x200a)
    || c == 0x2028
    || c == 0x2029
    || c == 0x202f
    || c == 0x205f
    || c == 0x3000

unfoldable pub lstrip : Text → Text
lstrip [] = []
lstrip (c ∷ cs) = if is_space c then lstrip cs else c ∷ cs

unfoldable pub rstrip : Text → Text
rstrip [] = []
rstrip (c ∷ cs) = let rest = rstrip cs in if is_space c && is_empty rest then [] else c ∷ rest

unfoldable pub strip : Text → Text
unfolding lstrip rstrip
strip s = rstrip (lstrip s)

-- A character put in front of the first line.
abbrev pub onto_first : ℕ → List Text → List Text
onto_first c [] = (c ∷ []) ∷ []
onto_first c (l ∷ ls) = (c ∷ l) ∷ ls

-- `s.split('\n')`: never the empty list.
unfoldable pub split_lines : Text → List Text
split_lines [] = [] ∷ []
split_lines (c ∷ cs) =
    let rest = split_lines cs in if c == newline then [] ∷ rest else onto_first c rest

-- `s.startswith(prefix)`
unfoldable pub starts_with : Text → Text → Bool
starts_with s [] = true
starts_with [] (p ∷ ps) = false
starts_with (c ∷ s) (p ∷ ps) = c == p && starts_with s ps

-- `needle in s`
unfoldable pub contains : Text → Text → Bool
unfolding starts_with
contains [] needle = is_empty needle
contains (c ∷ s) needle = starts_with (c ∷ s) needle || contains s needle

-- `str.upper` of ASCII text.
unfoldable pub upper : Text → Text
upper = map λ c. if leb b'a' c && leb c b'z' then c - 32 else c

unfoldable pub text_eq : Text → Text → Bool
text_eq [] [] = true
text_eq (a ∷ s) (b ∷ t) = a == b && text_eq s t
text_eq _ _ = false

-- Reading a file in text mode: `\r\n` and a lone `\r` are read as `\n`.
unfoldable pub universal_newlines : Text → Text
universal_newlines [] = []
universal_newlines (c ∷ []) = (if c == carriage_return then newline else c) ∷ []
universal_newlines (c ∷ d ∷ s) =
    let rest = universal_newlines (d ∷ s) in
    if c == carriage_return then (if d == newline then rest else newline ∷ rest) else c ∷ rest
