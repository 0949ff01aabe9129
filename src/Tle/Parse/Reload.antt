-- ===== src/Tle/Parse/Reload.antt =====
-- A download that is saved and read back, from the text of the response on.
use space_project.Base.{◌≡◌, inl, inr, List, [], ◌∷◌, ◌&&◌, ◌||◌, not, All, is_empty, Bool-cases}
use space_project.Base.Text.{Text, strip, split_lines}
use space_project.Base.Text.Strip.{IsCrLast, strip-HasNoCr}
use space_project.Base.Text.Split.{HasNoLoneCr, split_lines-IsCrLast, strip-HasNoLoneCr}
use space_project.Tle.{Cache}
use space_project.Tle.Parse.{
  starts_line, visit_name, visit_download, parse_download, parse_cache, render,
}
use space_project.Tle.Parse.IsCache.{insert-All}
use space_project.Tle.Parse.Download.{scan_inv, parse_download-IsCache}
use space_project.Tle.Parse.RoundTrip.{IsCrFree, AllCrFree, parse_cache-render}

visit_name-AllCrFree :
    (raw : Text) (rest : List Text) (c : Cache)
    → IsCrLast raw
    → All IsCrLast rest
    → AllCrFree c
    → AllCrFree (visit_name (strip raw) rest c).1
unfolding visit_name
visit_name-AllCrFree raw [] c q qs h = h
visit_name-AllCrFree raw (a ∷ []) c q qs h = h
visit_name-AllCrFree raw (a ∷ b ∷ rest) c q qs h =
    elim (Bool-cases (starts_line (strip a) "1 " && starts_line (strip b) "2 ")) [
      | inl e ↦ rw e (
          insert-All (λ (_, tle). IsCrFree tle) (strip raw) _ c h
            (strip-HasNoCr raw q, strip-HasNoCr a qs.0, strip-HasNoCr b qs.1.0))
      | inr e ↦ rw e h
    ]

visit_download-AllCrFree :
    (raw : Text) (rest : List Text) (c : Cache)
    → IsCrLast raw
    → All IsCrLast rest
    → AllCrFree c
    → AllCrFree (visit_download raw rest c).1
unfolding visit_download
visit_download-AllCrFree raw rest c q qs h =
    let line = strip raw in
    elim (Bool-cases (is_empty line || starts_line line "#")) [
      | inl e ↦ rw e h
      | inr e ↦ elim (Bool-cases (not (starts_line line "1 ") && not (starts_line line "2 "))) [
        | inl m ↦ rw (e, m) (visit_name-AllCrFree raw rest c q qs h)
        | inr m ↦ rw (e, m) h
      ]
    ]

parse_download-AllCrFree :
    (content : Text) → HasNoLoneCr content → AllCrFree (parse_download content)
unfolding parse_download
parse_download-AllCrFree content h =
    scan_inv AllCrFree IsCrLast visit_download visit_download-AllCrFree 0
      (split_lines (strip content)) []
      (split_lines-IsCrLast (strip content) (strip-HasNoLoneCr content h)) tt

-- Whatever text a response has, if every carriage return of it stands before a newline, then the
-- dict that the download builds is read back unchanged from the file that saves it.
pub parse_cache-render-parse_download :
    (content : Text)
    → HasNoLoneCr content
    → parse_cache (render (parse_download content)) ≡ parse_download content
parse_cache-render-parse_download content h =
    parse_cache-render (parse_download content) (parse_download-IsCache content)
      (parse_download-AllCrFree content h)
