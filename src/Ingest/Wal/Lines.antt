-- ===== src/Ingest/Wal/Lines.antt =====
-- Whole lines: the bytes of a log that holds given records.
use space_project.Base.{
  ◌≡◌, refl, sym, ap, ◌∙◌, false, some, List, [], ◌∷◌, ◌++◌, arith, is_empty, ◌==◌,
}
use mathlib.Core.Path.{subst}
use mathlib.Core.List.{append_assoc, append-nil}
use space_project.Base.Text.{newline}
use space_project.Base.Text.Split.{HasNoNewline}
use space_project.Ingest.Wal.{Bytes, Json, lines_from, split_lines, parse_lines}

-- What is documented of the two functions: what is written is read back; it is some text, which has
-- no newline.
pub record IsJson {R : Type 0} (json : Json R) : Type 0 where
  pub unmarshal-marshal : (r : R) (b : Bytes) → json.marshal r ≡ some b → json.unmarshal b ≡ some r
  pub no_newline : (r : R) (b : Bytes) → json.marshal r ≡ some b → HasNoNewline b
  pub some_text : (r : R) (b : Bytes) → json.marshal r ≡ some b → is_empty b ≡ false

-- The content is one line for each of the records, in their order.
pub data Encodes {R : Type 0} (json : Json R) : Bytes → List R → Type 0 where
  nil : Encodes json [] []
  one_line :
      {content : Bytes} {rs : List R} (r : R) (b : Bytes)
      → json.marshal r ≡ some b
      → Encodes json content rs
      → Encodes json (b ++ newline ∷ content) (r ∷ rs)

lines_from-newline :
    (line b rest : Bytes)
    → HasNoNewline b
    → lines_from line (b ++ newline ∷ rest) ≡ (line ++ b) ∷ lines_from [] rest
unfolding lines_from
lines_from-newline line [] rest h = rw (append-nil line)
lines_from-newline line (c ∷ b) rest h =
    let e : (c == newline) ≡ false = ground arith in
    rw e (
      lines_from-newline (line ++ c ∷ []) b rest h.1
      ∙ ap (λ l. l ∷ lines_from [] rest) (append_assoc line (c ∷ []) b))

module _ {R : Type 0} (json : Json R) (laws : IsJson json) where
  -- The records of a log are what its lines are parsed to.
  pub parse_lines-Encodes :
      {content : Bytes} {rs : List R}
      → Encodes json content rs
      → parse_lines json (split_lines content) ≡ rs
  unfolding split_lines parse_lines lines_from
  parse_lines-Encodes nil = refl
  parse_lines-Encodes (one_line {content} {rs} r b e rest) =
      rw
        (
          lines_from-newline [] b content (laws.no_newline r b e),
          laws.some_text r b e,
          laws.unmarshal-marshal r b e,
        )
        (ap (λ l. r ∷ l) (parse_lines-Encodes rest))

  pub Encodes-append :
      {content : Bytes} {rs : List R} (r : R) (b : Bytes)
      → json.marshal r ≡ some b
      → Encodes json content rs
      → Encodes json (content ++ (b ++ newline ∷ [])) (rs ++ r ∷ [])
  Encodes-append r b e nil = one_line r b e nil
  Encodes-append r b e (one_line {content} {rs} q c d rest) =
      subst (λ bytes. Encodes json bytes (q ∷ (rs ++ r ∷ [])))
        (sym (append_assoc c (newline ∷ content) (b ++ newline ∷ [])))
        (one_line q c d (Encodes-append r b e rest))
