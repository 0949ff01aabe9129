-- ===== src/Base/Dict.antt =====
-- A Python `dict` with text keys: the entries in the order in which their keys were first set.
use space_project.Base.Tests.{if◌then◌else◌}
use space_project.Base.Text.{Text, text_eq}
use space_project.Base.Text.Equality.{text_eq_iff}
use mathlib.Core.Path.{◌≡◌, refl}
use mathlib.Core.Bool.{false}
use mathlib.Core.Option.{Option, none, some}
use mathlib.Core.List.{List, [], ◌∷◌, ◌++◌}
use native.Mathlib.Omega.{arith}

abbrev pub Dict {ℓ} : Type ℓ → Type ℓ
Dict V = List (Text × V)

module _ {ℓ} {V : Type ℓ} where
  -- `d.get(k)`
  unfoldable pub lookup : Text → Dict V → Option V
  lookup k [] = none
  lookup k ((j, v) ∷ d) = if text_eq j k then some v else lookup k d

  -- `d[k] = v`: an old key keeps its place.
  unfoldable pub insert : Text → V → Dict V → Dict V
  insert k v [] = (k, v) ∷ []
  insert k v ((j, w) ∷ d) = if text_eq j k then (j, v) ∷ d else (j, w) ∷ insert k v d

  -- No key is listed twice.
  abbrev pub HasDistinctKeys : Dict V → Type ℓ
  HasDistinctKeys [] = Unit
  HasDistinctKeys ((k, v) ∷ d) = (lookup k d ≡ none) × HasDistinctKeys d

  pub lookup-insert :
      (k j : Text) (v : V) (d : Dict V)
      → lookup j (insert k v d) ≡ (if text_eq k j then some v else lookup j d)
  unfolding lookup insert
  lookup-insert k j v [] = refl
  lookup-insert k j v ((i, w) ∷ d) = ground (
    arith,
    text_eq_iff k j,
    text_eq_iff i k,
    text_eq_iff i j,
    text_eq_iff j k,
    lookup-insert k j v d,
  )

  pub insert-HasDistinctKeys :
      (k : Text) (v : V) (d : Dict V) → HasDistinctKeys d → HasDistinctKeys (insert k v d)
  unfolding lookup insert
  insert-HasDistinctKeys k v [] h = (refl, tt)
  insert-HasDistinctKeys k v ((j, w) ∷ d) h = ground (
    arith,
    insert-HasDistinctKeys k v d h.1,
    lookup-insert k j v d,
    text_eq_iff k j,
    text_eq_iff j k,
  )

  -- A new key goes to the end.
  pub insert_fresh :
      (k : Text) (v : V) (d : Dict V) → lookup k d ≡ none → insert k v d ≡ d ++ (k, v) ∷ []
  unfolding lookup insert
  insert_fresh k v [] h = refl
  insert_fresh k v ((j, w) ∷ d) h = ground (arith, insert_fresh k v d)

  absent-append_ne :
      (j k : Text) (v : V) (d e : Dict V) → lookup j (d ++ (k, v) ∷ e) ≡ none → text_eq j k ≡ false
  unfolding lookup
  absent-append_ne j k v [] e h = ground (arith, text_eq_iff j k, text_eq_iff k j)
  absent-append_ne j k v ((i, w) ∷ d) e h = ground (arith, absent-append_ne j k v d e)

  -- In a dict with distinct keys, no entry in front of another has its key.
  pub lookup-append_fresh :
      (k : Text) (v : V) (d e : Dict V) → HasDistinctKeys (d ++ (k, v) ∷ e) → lookup k d ≡ none
  unfolding lookup
  lookup-append_fresh k v [] e h = refl
  lookup-append_fresh k v ((j, w) ∷ d) e h =
      ground (arith, absent-append_ne j k v d e h.0, lookup-append_fresh k v d e h.1)
