-- ===== src/Tests/JsonLines.antt =====
-- A `Json` for records of cents and numbered times: a line is a list of numbers, each with 11
-- added, so that none is a newline.
use mathlib.Core.Path.{subst}
use space_project.Base.{
  ℕ, zero, suc, ◌+◌, ◌-◌, ◌≡◌, refl, sym, ap, ◌∙◌, Bool, true, false, Option, none, some, List, [],
  ◌∷◌, arith, is_empty,
}
use space_project.Base.Int.{pos, negsuc}
use space_project.Base.Text.{Text}
use space_project.Base.Text.Split.{HasNoNewline}
use space_project.Float.Cents.{Cents}
use space_project.Ingest.{WalRecord}
use space_project.Ingest.Wal.{Bytes, Json}
use space_project.Ingest.Wal.Lines.{IsJson}

-- A value as a tag and a number.
abbrev tag : Option Cents → ℕ
tag none = 0
tag (some none) = 1
tag (some (some (pos n))) = 2
tag (some (some (negsuc n))) = 3

abbrev amount : Option Cents → ℕ
amount none = 0
amount (some none) = 0
amount (some (some (pos n))) = n
amount (some (some (negsuc n))) = n

abbrev value : ℕ → ℕ → Option Cents
value zero n = none
value (suc zero) n = some none
value (suc (suc zero)) n = some (some (pos n))
value (suc (suc (suc _))) n = some (some (negsuc n))

value-tag : (c : Option Cents) → value (tag c) (amount c) ≡ c
value-tag none = refl
value-tag (some none) = refl
value-tag (some (some (pos n))) = refl
value-tag (some (some (negsuc n))) = refl

abbrev known : Option Cents → Cents
known none = none
known (some c) = c

abbrev timestamp_tag : Option ℕ → ℕ
timestamp_tag none = 0
timestamp_tag (some t) = 1

abbrev timestamp_amount : Option ℕ → ℕ
timestamp_amount none = 0
timestamp_amount (some t) = t

abbrev time_value : ℕ → ℕ → Option ℕ
time_value zero t = none
time_value (suc _) t = some t

time_value-tag : (t : Option ℕ) → time_value (timestamp_tag t) (timestamp_amount t) ≡ t
time_value-tag none = refl
time_value-tag (some t) = refl

abbrev flag : Bool → ℕ
flag false = 0
flag true = 1

abbrev flag_value : ℕ → Bool
flag_value zero = false
flag_value (suc _) = true

flag_value-flag : (b : Bool) → flag_value (flag b) ≡ b
flag_value-flag false = refl
flag_value-flag true = refl

abbrev numbers : WalRecord Cents ℕ → List ℕ
numbers r =
    timestamp_tag r.timestamp
    ∷ timestamp_amount r.timestamp
    ∷ flag r.is_anomaly
    ∷ tag (some r.battery_charge_percent)
    ∷ amount (some r.battery_charge_percent)
    ∷ tag (some r.storage_usage_mb)
    ∷ amount (some r.storage_usage_mb)
    ∷ tag (some r.signal_strength_dbm)
    ∷ amount (some r.signal_strength_dbm)
    ∷ tag r.latitude
    ∷ amount r.latitude
    ∷ tag r.longitude
    ∷ amount r.longitude
    ∷ tag r.altitude_km
    ∷ amount r.altitude_km
    ∷ tag r.velocity_kmph
    ∷ amount r.velocity_kmph
    ∷ r.satellite_id

abbrev record_from : List ℕ → Option (WalRecord Cents ℕ)
record_from
      (t ∷ u ∷ a ∷ c0 ∷ n0 ∷ c1 ∷ n1 ∷ c2 ∷ n2 ∷ c3 ∷ n3 ∷ c4 ∷ n4 ∷ c5 ∷ n5 ∷ c6 ∷ n6
        ∷ satellite_id) =
    some (record {
      timestamp = time_value t u;
      satellite_id = satellite_id;
      battery_charge_percent = known (value c0 n0);
      storage_usage_mb = known (value c1 n1);
      signal_strength_dbm = known (value c2 n2);
      is_anomaly = flag_value a;
      latitude = value c3 n3;
      longitude = value c4 n4;
      altitude_km = value c5 n5;
      velocity_kmph = value c6 n6;
    })
record_from _ = none

record_from-numbers : (r : WalRecord Cents ℕ) → record_from (numbers r) ≡ some r
record_from-numbers r =
    rw
      (
        time_value-tag r.timestamp,
        flag_value-flag r.is_anomaly,
        value-tag (some r.battery_charge_percent),
        value-tag (some r.storage_usage_mb),
        value-tag (some r.signal_strength_dbm),
        value-tag r.latitude,
        value-tag r.longitude,
        value-tag r.altitude_km,
        value-tag r.velocity_kmph,
      )
      refl

abbrev shifted : Text → Bytes
shifted [] = []
shifted (c ∷ text) = (11 + c) ∷ shifted text

abbrev unshifted : Bytes → Text
unshifted [] = []
unshifted (b ∷ bytes) = (b - 11) ∷ unshifted bytes

unshifted-shifted : (text : Text) → unshifted (shifted text) ≡ text
unshifted-shifted [] = refl
unshifted-shifted (c ∷ text) =
    let e : (11 + c) - 11 ≡ c = omega arith in
    ap (λ k. k ∷ unshifted (shifted text)) e ∙ ap (λ t. c ∷ t) (unshifted-shifted text)

shifted-HasNoNewline : (text : Text) → HasNoNewline (shifted text)
shifted-HasNoNewline [] = tt
shifted-HasNoNewline (c ∷ text) = ((λ e. absurd (omega (arith, e))), shifted-HasNoNewline text)

abbrev pub line_of : WalRecord Cents ℕ → Bytes
line_of r = shifted (numbers r)

abbrev pub lines_json : Json (WalRecord Cents ℕ)
lines_json = record { marshal = λ r. some (line_of r); unmarshal = λ b. record_from (unshifted b) }

pub lines_json-marshals : (r : WalRecord Cents ℕ) → (b : Bytes) × (lines_json.marshal r ≡ some b)
lines_json-marshals r = (line_of r, refl)

pub lines_json-IsJson : IsJson lines_json
lines_json-IsJson = record {
  unmarshal-marshal = λ r b e.
      let same : line_of r ≡ b = cc in
      ap lines_json.unmarshal (sym same)
      ∙ ap record_from (unshifted-shifted (numbers r))
      ∙ record_from-numbers r;
  no_newline = λ r b e.
      let same : line_of r ≡ b = cc in subst HasNoNewline same (shifted-HasNoNewline (numbers r));
  some_text = λ r b e. let same : line_of r ≡ b = cc in ap is_empty (sym same);
}
