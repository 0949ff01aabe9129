-- ===== src/Tle/Parse/Download.antt =====
-- `_download_tle_data`: what its loop builds.
use space_project.Base.{
  ℕ, zero, suc, ◌-◌, ◌≡◌, refl, inl, inr, false, ◌&&◌, ◌||◌, not, List, [], ◌∷◌, arith, All,
  is_empty, Bool-cases,
}
use space_project.Base.Text.{Text, strip, split_lines}
use space_project.Base.Text.Strip.{strip-IsStripped, strip-All}
use space_project.Base.Text.Split.{HasNoNewline, split_lines-HasNoNewline}
use space_project.Base.Dict.{insert, insert-HasDistinctKeys}
use space_project.Tle.{TleData, Cache}
use space_project.Tle.Parse.{Visit, scan, starts_line, visit_name, visit_download, parse_download}
use space_project.Tle.Parse.IsCache.{IsField, IsEntry, IsFiled, IsCache, insert-All}

-- An invariant of the loop's body is an invariant of the loop.
pub scan_inv {κ ι} :
    (P : Cache → Type κ) (Q : Text → Type ι) (visit : Visit)
    → ((l : Text) (ls : List Text) (c : Cache) → Q l → All Q ls → P c → P (visit l ls c).1)
    → (skip : ℕ) (ls : List Text) (c : Cache) → All Q ls
    → P c
    → P (scan visit skip ls c)
unfolding scan
scan_inv P Q visit step zero [] c q p = p
scan_inv P Q visit step (suc skip) [] c q p = p
scan_inv P Q visit step (suc skip) (l ∷ ls) c q p = scan_inv P Q visit step skip ls c q.1 p
scan_inv P Q visit step zero (l ∷ ls) c q p =
    scan_inv P Q visit step ((visit l ls c).0 - 1) ls (visit l ls c).1 q.1 (step l ls c q.0 q.1 p)

strip-IsField : (s : Text) → HasNoNewline s → IsField (strip s)
strip-IsField s h = record { stripped = strip-IsStripped s; no_newline = strip-All _ s h }

insert-IsCache :
    (tle : TleData) (c : Cache) → IsEntry tle → IsCache c → IsCache (insert tle.name tle c)
insert-IsCache tle c e h = record {
  filed = insert-All IsFiled tle.name tle c h.filed (refl, e);
  distinct = insert-HasDistinctKeys tle.name tle c h.distinct;
}

-- A line that the loop takes for a name.
abbrev IsName : Text → Type 0
IsName line =
    (is_empty line ≡ false)
    × (starts_line line "#" ≡ false)
    × (starts_line line "1 " ≡ false)
    × (starts_line line "2 " ≡ false)

visit_name-IsCache :
    (name : Text) (rest : List Text) (c : Cache)
    → IsField name
    → IsName name
    → All HasNoNewline rest
    → IsCache c
    → IsCache (visit_name name rest c).1
unfolding visit_name
visit_name-IsCache name [] c f n q h = h
visit_name-IsCache name (a ∷ []) c f n q h = h
visit_name-IsCache name (a ∷ b ∷ rest) c f n q h =
    elim (Bool-cases (starts_line (strip a) "1 " && starts_line (strip b) "2 ")) [
      | inl e ↦ rw e (
          insert-IsCache (record { name = name; line1 = strip a; line2 = strip b }) c
            (record {
              name_field = f;
              name_some = n.0;
              name_no_comment = n.1;
              name_not_line1 = n.2;
              name_not_line2 = n.3;
              line1_field = strip-IsField a q.0;
              line1_mark = ground arith;
              line2_field = strip-IsField b q.1.0;
              line2_mark = ground arith;
            })
            h)
      | inr e ↦ rw e h
    ]

visit_download-IsCache :
    (raw : Text) (rest : List Text) (c : Cache)
    → HasNoNewline raw
    → All HasNoNewline rest
    → IsCache c
    → IsCache (visit_download raw rest c).1
unfolding visit_download
visit_download-IsCache raw rest c q qs h =
    let line = strip raw in
    elim (Bool-cases (is_empty line || starts_line line "#")) [
      | inl e ↦ rw e h
      | inr e ↦ elim (Bool-cases (not (starts_line line "1 ") && not (starts_line line "2 "))) [
        | inl m ↦
            rw (e, m) (visit_name-IsCache line rest c (strip-IsField raw q) (ground arith) qs h)
        | inr m ↦ rw (e, m) h
      ]
    ]

-- Whatever text a response has, the dict that the download builds has no key twice, and each entry
-- is filed under its own name, has three trimmed single lines, a name that is not empty and no
-- comment or element line, and element lines that begin with '1 ' and '2 '.
pub parse_download-IsCache : (content : Text) → IsCache (parse_download content)
unfolding parse_download
parse_download-IsCache content =
    scan_inv IsCache HasNoNewline visit_download visit_download-IsCache 0
      (split_lines (strip content)) [] (split_lines-HasNoNewline (strip content))
      (record { filed = tt; distinct = tt })
