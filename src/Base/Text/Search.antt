-- ===== src/Base/Text/Search.antt =====
-- `startswith`, `in` and `upper`.
use mathlib.Core.Path.{◌≡◌, refl}
use mathlib.Core.Bool.{true}
use mathlib.Core.List.{[], ◌∷◌}
use native.Mathlib.Omega.{arith}
use space_project.Base.Text.{Text, starts_with, contains}

starts_with_refl : (s : Text) → starts_with s s ≡ true
unfolding starts_with
starts_with_refl [] = refl
starts_with_refl (c ∷ s) = ground (arith, starts_with_refl s)

-- Every text is in itself.
pub contains_refl : (s : Text) → contains s s ≡ true
unfolding contains
contains_refl [] = refl
contains_refl (c ∷ s) = ground (arith, starts_with_refl s)
