-- ===== src/Tle/Parse/RoundTrip.antt =====
-- `_save_to_cache` and then `_load_from_cache`: the dict that comes back.
use mathlib.Core.Path.{subst}
use mathlib.Core.List.{append-nil, append_assoc}
use space_project.Base.{
  ℕ, ◌≡◌, refl, sym, ap, ◌∙◌, true, false, List, [], ◌∷◌, ◌++◌, arith, All, All-append, is_empty,
}
use space_project.Base.Text.{
  Text, newline, lstrip, rstrip, strip, is_space, split_lines, starts_with,
}
use space_project.Base.Text.Strip.{
  IsStripped, IsStripped-IsBare, IsStripped-rstrip, rstrip-append, rstrip-append_space, HasNoCr,
}
use space_project.Base.Text.Split.{
  HasNoNewline, split_lines-newline, split_lines_single, universal_newlines_id,
}
use space_project.Base.Dict.{insert, insert_fresh, HasDistinctKeys, lookup-append_fresh}
use space_project.Tle.{TleData, Cache}
use space_project.Tle.Parse.{scan, visit_cache, parse_cache, render}
use space_project.Tle.Parse.IsCache.{IsField, IsEntry, IsFiled, IsCache}

-- A text that has a first character, which is no white space.
abbrev StartsBare : Text → Type 0
StartsBare [] = ⊥
StartsBare (c ∷ s) = is_space c ≡ false

IsField-StartsBare : (s : Text) → IsStripped s → is_empty s ≡ false → StartsBare s
IsField-StartsBare [] h n = cc
IsField-StartsBare (c ∷ s) h n = IsStripped-IsBare (c ∷ s) h

StartsBare-append : (s t : Text) → StartsBare s → StartsBare (s ++ t)
StartsBare-append [] t h = absurd h
StartsBare-append (c ∷ s) t h = h

rstrip_bare : (s : Text) → StartsBare s → is_empty (rstrip s) ≡ false
unfolding rstrip
rstrip_bare [] h = absurd h
rstrip_bare (c ∷ s) h = rw h

lstrip_bare : (s : Text) → StartsBare s → lstrip s ≡ s
unfolding lstrip
lstrip_bare [] h = absurd h
lstrip_bare (c ∷ s) h = rw h

rstrip_after_newline : (t : Text) → StartsBare t → rstrip (newline ∷ t) ≡ newline ∷ rstrip t
unfolding rstrip
rstrip_after_newline t h = ground (arith, rstrip_bare t h)

-- White space at the right end is taken off the part behind a newline.
rstrip-newline : (s t : Text) → StartsBare t → rstrip (s ++ newline ∷ t) ≡ s ++ newline ∷ rstrip t
rstrip-newline s t h =
    rstrip-append s (newline ∷ t) (ap is_empty (rstrip_after_newline t h))
    ∙ ap (λ r. s ++ r) (rstrip_after_newline t h)

-- What the round trip asks of an entry: it is filed under its name, and has three trimmed single
-- lines that are not empty.
record IsWritable (key : Text) (tle : TleData) : Type 0 where
  key_name : key ≡ tle.name
  name_field : IsField tle.name
  name_bare : StartsBare tle.name
  line1_field : IsField tle.line1
  line1_bare : StartsBare tle.line1
  line2_field : IsField tle.line2
  line2_bare : StartsBare tle.line2

abbrev AllWritable : Cache → Type 0
AllWritable = All λ (key, tle). IsWritable key tle

marked_nonempty :
    (s : Text) (mark : ℕ) (more : Text) → starts_with s (mark ∷ more) ≡ true → is_empty s ≡ false
unfolding starts_with
marked_nonempty [] mark more h = cc
marked_nonempty (c ∷ s) mark more h = refl

IsEntry-IsWritable :
    (key : Text) (tle : TleData) → key ≡ tle.name → IsEntry tle → IsWritable key tle
IsEntry-IsWritable key tle k e = record {
  key_name = k;
  name_field = e.name_field;
  name_bare = IsField-StartsBare tle.name e.name_field.stripped e.name_some;
  line1_field = e.line1_field;
  line1_bare =
      IsField-StartsBare tle.line1 e.line1_field.stripped (marked_nonempty _ _ _ e.line1_mark);
  line2_field = e.line2_field;
  line2_bare =
      IsField-StartsBare tle.line2 e.line2_field.stripped (marked_nonempty _ _ _ e.line2_mark);
}

filed-AllWritable : (c : Cache) → All IsFiled c → AllWritable c
filed-AllWritable [] h = tt
filed-AllWritable ((key, tle) ∷ c) h =
    (IsEntry-IsWritable key tle h.0.0 h.0.1, filed-AllWritable c h.1)

split_lines_record :
    (n a r : Text)
    → HasNoNewline n
    → HasNoNewline a
    → StartsBare a
    → StartsBare r
    → split_lines (rstrip (n ++ newline ∷ (a ++ newline ∷ r))) ≡ n ∷ a ∷ split_lines (rstrip r)
split_lines_record n a r hn ha ba br =
    ap split_lines (rstrip-newline n (a ++ newline ∷ r) (StartsBare-append a _ ba))
    ∙ split_lines-newline n _ hn
    ∙ ap (λ ls. n ∷ ls) (ap split_lines (rstrip-newline a r br) ∙ split_lines-newline a _ ha)

-- The lines of the file, record by record.
lines : Cache → List Text
lines [] = []
lines ((_, tle) ∷ c) = tle.name ∷ tle.line1 ∷ tle.line2 ∷ lines c

render-cons :
    (key : Text) (tle : TleData) (c : Cache)
    → render ((key, tle) ∷ c)
      ≡ tle.name ++ newline ∷ (tle.line1 ++ newline ∷ (tle.line2 ++ newline ∷ render c))
unfolding render
render-cons key tle c = simp append_assoc

render_bare : (e : Text × TleData) (c : Cache) → AllWritable (e ∷ c) → StartsBare (render (e ∷ c))
render_bare (key, tle) c w = rw render-cons (StartsBare-append tle.name _ w.0.name_bare)

split_lines_last :
    (line2 : Text) (c : Cache)
    → IsField line2
    → AllWritable c
    → split_lines (rstrip (line2 ++ newline ∷ render c)) ≡ line2 ∷ lines c
unfolding lines render is_space
split_lines_last line2 [] f w =
    ap split_lines (rstrip-append_space line2 newline refl ∙ IsStripped-rstrip line2 f.stripped)
    ∙ split_lines_single line2 f.no_newline
split_lines_last line2 ((key, tle) ∷ c) f w =
    ap split_lines (rstrip-newline line2 (render ((key, tle) ∷ c)) (render_bare (key, tle) c w))
    ∙ split_lines-newline line2 _ f.no_newline
    ∙ ap (λ ls. line2 ∷ ls)
        (ap (λ r. split_lines (rstrip r)) (render-cons key tle c)
          ∙ split_lines_record tle.name tle.line1 _ w.0.name_field.no_newline
              w.0.line1_field.no_newline w.0.line1_bare
              (StartsBare-append tle.line2 _ w.0.line2_bare)
          ∙ ap (λ ls. tle.name ∷ tle.line1 ∷ ls) (split_lines_last tle.line2 c w.0.line2_field w.1))

insert_read :
    (key : Text) (tle : TleData) (d c : Cache)
    → IsWritable key tle
    → HasDistinctKeys (d ++ (key, tle) ∷ c)
    → insert
        (strip tle.name)
        (record { name = strip tle.name; line1 = strip tle.line1; line2 = strip tle.line2 })
        d
      ≡ d ++ (key, tle) ∷ []
insert_read key tle d c f h =
    rw (f.name_field.stripped, f.line1_field.stripped, f.line2_field.stripped)
      (subst (λ n. insert n tle d ≡ d ++ (key, tle) ∷ []) f.key_name
        (insert_fresh key tle d (lookup-append_fresh key tle d c h)))

scan-lines :
    (c d : Cache)
    → AllWritable c
    → HasDistinctKeys (d ++ c)
    → scan visit_cache 0 (lines c) d ≡ d ++ c
unfolding scan visit_cache lines
scan-lines [] d w h = sym (append-nil d)
scan-lines ((key, tle) ∷ c) d w h =
    ap (λ e. scan visit_cache 0 (lines c) e) (insert_read key tle d c w.0 h)
    ∙ scan-lines c (d ++ (key, tle) ∷ []) w.1 (rw append_assoc h)
    ∙ append_assoc d _ c

split_lines-render :
    (e : Text × TleData) (c : Cache)
    → AllWritable (e ∷ c)
    → split_lines (strip (render (e ∷ c))) ≡ lines (e ∷ c)
unfolding strip lines
split_lines-render (key, tle) c w =
    ap (λ s. split_lines (rstrip s))
      (lstrip_bare _ (render_bare (key, tle) c w) ∙ render-cons key tle c)
    ∙ split_lines_record tle.name tle.line1 _ w.0.name_field.no_newline w.0.line1_field.no_newline
        w.0.line1_bare (StartsBare-append tle.line2 _ w.0.line2_bare)
    ∙ ap (λ ls. tle.name ∷ tle.line1 ∷ ls) (split_lines_last tle.line2 c w.0.line2_field w.1)

-- No field holds a carriage return, which reading in text mode would turn into a newline.
abbrev pub IsCrFree : TleData → Type 0
IsCrFree tle = HasNoCr tle.name × HasNoCr tle.line1 × HasNoCr tle.line2

abbrev pub AllCrFree : Cache → Type 0
AllCrFree = All λ (_, tle). IsCrFree tle

render-HasNoCr : (c : Cache) → AllCrFree c → HasNoCr (render c)
unfolding render
render-HasNoCr [] h = tt
render-HasNoCr ((_, tle) ∷ c) h =
    All-append _ (tle.name ++ newline ∷ (tle.line1 ++ newline ∷ tle.line2)) (newline ∷ render c)
      (All-append _ tle.name _ h.0.0
        (omega arith, All-append _ tle.line1 _ h.0.1 (omega arith, h.0.2)))
      (omega arith, render-HasNoCr c h.1)

-- A cache as a download builds it is read back from the file to which it was saved, entry for
-- entry and in the same order, if no field holds a carriage return.
pub parse_cache-render : (c : Cache) → IsCache c → AllCrFree c → parse_cache (render c) ≡ c
unfolding parse_cache render
parse_cache-render [] h n = refl
parse_cache-render (e ∷ c) h n =
    let w : AllWritable (e ∷ c) = filed-AllWritable (e ∷ c) h.filed in
    ap (λ s. scan visit_cache 0 (split_lines (strip s)) [])
      (universal_newlines_id _ (render-HasNoCr (e ∷ c) n))
    ∙ ap (λ ls. scan visit_cache 0 ls []) (split_lines-render e c w)
    ∙ scan-lines (e ∷ c) [] w h.distinct
