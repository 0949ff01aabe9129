-- ===== src/Tle/Parse/IsCache.antt =====
-- The caches that a download builds: every entry is stored under its own name, its fields are
-- trimmed single lines, and each is what the loop tests for.
use space_project.Base.{◌≡◌, true, false, All, is_empty}
use space_project.Base.Text.{Text}
use space_project.Base.Text.Equality.{text_eq_iff}
use space_project.Base.Text.Strip.{IsStripped}
use space_project.Base.Text.Split.{HasNoNewline}
use space_project.Base.Dict.{Dict, insert, HasDistinctKeys}
use space_project.Tle.{TleData, Cache}
use space_project.Tle.Parse.{starts_line}
use space_project.Base.{[], ◌∷◌, Bool-cases, inl, inr, sym}
use mathlib.Core.Path.{subst}
use space_project.Base.Text.{text_eq}

-- A trimmed single line.
pub record IsField (s : Text) : Type 0 where
  pub stripped : IsStripped s
  pub no_newline : HasNoNewline s

pub record IsEntry (tle : TleData) : Type 0 where
  pub name_field : IsField tle.name
  pub name_some : is_empty tle.name ≡ false
  pub name_no_comment : starts_line tle.name "#" ≡ false
  pub name_not_line1 : starts_line tle.name "1 " ≡ false
  pub name_not_line2 : starts_line tle.name "2 " ≡ false
  pub line1_field : IsField tle.line1
  pub line1_mark : starts_line tle.line1 "1 " ≡ true
  pub line2_field : IsField tle.line2
  pub line2_mark : starts_line tle.line2 "2 " ≡ true

abbrev pub IsFiled : Text × TleData → Type 0
IsFiled (key, tle) = (key ≡ tle.name) × IsEntry tle

pub record IsCache (cache : Cache) : Type 0 where
  pub filed : All IsFiled cache
  pub distinct : HasDistinctKeys cache

-- Setting a key keeps what holds of every entry.
pub insert-All {ℓ κ} :
    {V : Type ℓ} (P : Text × V → Type κ) (k : Text) (v : V) (d : Dict V)
    → All P d
    → P (k, v)
    → All P (insert k v d)
unfolding insert
insert-All P k v [] h p = (p, tt)
insert-All P k v ((j, w) ∷ d) h p = elim (Bool-cases (text_eq j k)) [
  | inl e ↦ rw e (subst (λ i. P (i, v)) (sym ((text_eq_iff j k).0 e)) p, h.1)
  | inr e ↦ rw e (h.0, insert-All P k v d h.1 p)
]
