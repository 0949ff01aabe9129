-- ===== src/Chaos/Stats.antt =====
-- `get_telemetry_stats` of chaos_monkey.py. What Python's `int` makes of a text is a parameter.
use space_project.Base.{
  ℕ, ◌≡◌, refl, ap, ◌∙◌, false, Option, none, some, List, [], ◌∷◌, ◌++◌, ◌==◌, if◌then◌else◌, All,
}
use space_project.Base.Int.{ℤ}
use space_project.Base.Text.{Text, strip}

-- `exec_run` raised, or there are an exit code and the output, stripped and decoded; `none` if it
-- cannot be decoded.
data StatsAnswer : Type 0 where
  exec_failed : StatsAnswer
  exited : (exit_code : ℕ) (output : Option Text) → StatsAnswer

record TelemetryStats : Type 0 where
  total_records : ℤ
  unique_satellites : ℤ
  earliest_time : Text
  latest_time : Text

abbrev bar : ℕ
bar = 124

abbrev onto_first : ℕ → List Text → List Text
onto_first c [] = (c ∷ []) ∷ []
onto_first c (part ∷ parts) = (c ∷ part) ∷ parts

-- `output.split('|')`
unfoldable split_bars : Text → List Text
split_bars [] = [] ∷ []
split_bars (c ∷ t) = let parts = split_bars t in if c == bar then [] ∷ parts else onto_first c parts

module _ (int : Text → Option ℤ) where
  -- A part that is no number raises, and the exception is caught.
  abbrev stats_of : Option ℤ → Option ℤ → Text → Text → Option TelemetryStats
  stats_of (some total) (some unique) earliest latest = some (record {
    total_records = total;
    unique_satellites = unique;
    earliest_time = strip earliest;
    latest_time = strip latest;
  })
  stats_of _ _ earliest latest = none

  abbrev stats_of_parts : List Text → Option TelemetryStats
  stats_of_parts (total ∷ unique ∷ earliest ∷ latest ∷ []) =
      stats_of (int total) (int unique) earliest latest
  stats_of_parts _ = none

  -- The dict; `none` is the empty one.
  unfoldable get_telemetry_stats : StatsAnswer → Option TelemetryStats
  get_telemetry_stats exec_failed = none
  get_telemetry_stats (exited exit_code none) = none
  get_telemetry_stats (exited exit_code (some output)) =
      if exit_code == 0 then stats_of_parts (split_bars output) else none

abbrev HasNoBar : Text → Type 0
HasNoBar = All λ c. (c == bar) ≡ false

split_bars-append :
    (part t : Text) → HasNoBar part → split_bars (part ++ bar ∷ t) ≡ part ∷ split_bars t
unfolding split_bars
split_bars-append [] t h = refl
split_bars-append (c ∷ part) t h = rw (h.0, split_bars-append part t h.1) refl

split_bars-last : (part : Text) → HasNoBar part → split_bars part ≡ part ∷ []
unfolding split_bars
split_bars-last [] h = refl
split_bars-last (c ∷ part) h = rw (h.0, split_bars-last part h.1) refl

-- The row that `psql` prints, with two numbers and two times, gives the four values, the times
-- stripped of the blanks around them.
get_telemetry_stats-row :
    (int : Text → Option ℤ) (total unique earliest latest : Text) (m n : ℤ)
    → HasNoBar total
    → HasNoBar unique
    → HasNoBar earliest
    → HasNoBar latest
    → int total ≡ some m
    → int unique ≡ some n
    → get_telemetry_stats int
        (exited 0 (some (total ++ bar ∷ (unique ++ bar ∷ (earliest ++ bar ∷ latest)))))
      ≡ some (record {
        total_records = m;
        unique_satellites = n;
        earliest_time = strip earliest;
        latest_time = strip latest;
      })
unfolding get_telemetry_stats
get_telemetry_stats-row int total unique earliest latest m n a b c d e e' =
    let parts : split_bars (total ++ bar ∷ (unique ++ bar ∷ (earliest ++ bar ∷ latest)))
        ≡ total ∷ unique ∷ earliest ∷ latest ∷ [] =
      split_bars-append total (unique ++ bar ∷ (earliest ++ bar ∷ latest)) a
      ∙ ap (λ rest. total ∷ rest)
          (split_bars-append unique (earliest ++ bar ∷ latest) b
            ∙ ap (λ rest. unique ∷ rest)
                (split_bars-append earliest latest c
                  ∙ ap (λ rest. earliest ∷ rest) (split_bars-last latest d))) in
    ap (stats_of_parts int) parts ∙ rw (e, e', stats_of_parts) refl
