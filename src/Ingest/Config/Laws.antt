-- ===== src/Ingest/Config/Laws.antt =====
-- What the variables of the environment do to the configuration.
use space_project.Base.{
  ℕ, zero, suc, ◌+◌, ◌-◌, ◌*◌, ◌/◌, ◌%◌, ◌≤◌, ◌<◌, ◌≡◌, ◌↔◌, refl, sym, ap, ◌∙◌, Bool, true, false,
  ◌&&◌, Option, none, some, [], ◌∷◌, ◌++◌, arith, if◌then◌else◌, leb, ltb, ◌==◌, ◌⊎◌, inl, inr,
  Bool-cases, Option-cases,
}
use space_project.Float.{Float}
use space_project.Base.Int.{ℤ, pos, negsuc, ◌≤ℤ◌}
use space_project.Base.Text.{Text, codes}
use space_project.Base.Decimal.{digits}
use space_project.Ingest.Batch.Backoff.{two_63}
use space_project.Ingest.Config.{
  minus, plus, digits_value, parse_unsigned, nonnegative, negative, atoi, nonempty, parsed,
  get_env_int, get_env_duration, load_config, start_processor, Config, is_bad_capacity, is_positive,
}

abbrev is_digit : ℕ → Bool
is_digit c = leb 48 c && leb c 57

digits_value_nil : (acc : ℕ) → digits_value acc [] ≡ some acc
unfolding digits_value
digits_value_nil acc = refl

digits_value_digit :
    (acc d : ℕ) (t : Text)
    → is_digit d ≡ true
    → digits_value acc (d ∷ t) ≡ digits_value (10 * acc + (d - 48)) t
unfolding digits_value
digits_value_digit acc d t h = rw h refl

digits_value_other : (acc d : ℕ) (t : Text) → is_digit d ≡ false → digits_value acc (d ∷ t) ≡ none
unfolding digits_value
digits_value_other acc d t h = rw h refl

digits_value-append :
    (acc v c : ℕ) (t : Text)
    → digits_value acc t ≡ some v
    → is_digit c ≡ true
    → digits_value acc (t ++ c ∷ []) ≡ some (10 * v + (c - 48))
digits_value-append acc v c [] e h =
    let none_read : some acc ≡ some v = sym (digits_value_nil acc) ∙ e in
    let same : acc ≡ v = cc in
    digits_value_digit acc c [] h
    ∙ digits_value_nil (10 * acc + (c - 48))
    ∙ ap (λ n. some (10 * n + (c - 48))) same
digits_value-append acc v c (d ∷ t) e h = elim (Bool-cases (is_digit d)) [
  | inl e' ↦
      let here = digits_value_digit acc d t e' in
      let rest : digits_value (10 * acc + (d - 48)) t ≡ some v = sym here ∙ e in
      digits_value_digit acc d (t ++ c ∷ []) e'
      ∙ digits_value-append (10 * acc + (d - 48)) v c t rest h
  | inr e' ↦ let here = digits_value_other acc d t e' in absurd cc
]

digit-is : (n : ℕ) → n ≤ 9 → is_digit (48 + n) ≡ true
digit-is n h = ground arith

digits_value-digit : (n : ℕ) → n ≤ 9 → digits_value 0 ((48 + n) ∷ []) ≡ some n
unfolding digits_value
digits_value-digit n h = digits_value_digit 0 (48 + n) [] (digit-is n h) ∙ ap some (omega arith)

digits_value-digits : (fuel n : ℕ) → n ≤ fuel → digits_value 0 (digits fuel n) ≡ some n
unfolding digits
digits_value-digits zero n h = digits_value-digit n (omega arith)
digits_value-digits (suc fuel) n h = elim (Bool-cases (ltb n 10)) [
  | inl e ↦ rw e (digits_value-digit n (ground arith))
  | inr e ↦ rw e (
      digits_value-append 0 (n / 10) (48 + n % 10) (digits fuel (n / 10))
        (digits_value-digits fuel (n / 10) (omega arith)) (digit-is (n % 10) (omega arith))
      ∙ ap some (omega arith))
]

-- Digits start with a digit.
first_digit : (fuel n : ℕ) → n ≤ fuel → (c : ℕ) × (t : Text) × (digits fuel n ≡ c ∷ t) × (48 ≤ c)
unfolding digits
first_digit zero n h = (48 + n, [], refl, omega arith)
first_digit (suc fuel) n h = elim (Bool-cases (ltb n 10)) [
  | inl e ↦ rw e (48 + n, [], refl, omega arith)
  | inr e ↦
      let (c, t, is, large) = first_digit fuel (n / 10) (omega arith) in
      rw (e, is) (c, t ++ (48 + n % 10) ∷ [], refl, large)
]

parse_unsigned-digits : (n : ℕ) → parse_unsigned (digits n n) ≡ some n
unfolding parse_unsigned
parse_unsigned-digits n =
    let (c, t, is, large) = first_digit n n (omega arith) in
    let read = digits_value-digits n n (omega arith) in rw is (ap (digits_value 0) (sym is) ∙ read)

-- A number in decimal notation.
unfoldable decimal : ℤ → Text
decimal (pos n) = digits n n
decimal (negsuc n) = minus ∷ digits (suc n) (suc n)

-- Whether 64 bits hold a number.
abbrev fits : ℤ → Bool
fits (pos n) = ltb n two_63
fits (negsuc n) = ltb n two_63

atoi-decimal : (z : ℤ) → atoi (decimal z) ≡ (if fits z then some z else none)
unfolding atoi decimal nonnegative negative
atoi-decimal (pos n) =
    let (c, t, is, large) = first_digit n n (omega arith) in
    let read : parse_unsigned (c ∷ t) ≡ some n =
      ap parse_unsigned (sym is) ∙ parse_unsigned-digits n in
    let not_minus : (c == minus) ≡ false = ground arith in
    let not_plus : (c == plus) ≡ false = ground arith in rw (is, not_minus, not_plus, read) refl
atoi-decimal (negsuc n) = rw (parse_unsigned-digits (suc n)) refl

nonempty-decimal : (z : ℤ) → nonempty (decimal z) ≡ some (decimal z)
unfolding decimal
nonempty-decimal (pos n) = let (c, t, is, large) = first_digit n n (omega arith) in rw is refl
nonempty-decimal (negsuc n) = refl

-- A variable that is set to a number in decimal notation gives that number, if 64 bits hold it; a
-- number that they do not hold gives the default.
get_env_int-decimal :
    (env : Text → Text) (key : Text) (default z : ℤ)
    → env key ≡ decimal z
    → get_env_int env key default ≡ (if fits z then z else default)
unfolding get_env_int
get_env_int-decimal env key default z e = elim (Bool-cases (fits z)) [
  | inl h ↦ rw (e, nonempty-decimal z, parsed, atoi-decimal z, h) refl
  | inr h ↦ rw (e, nonempty-decimal z, parsed, atoi-decimal z, h) refl
]

-- A parse that refuses the empty text settles the common part.
parsed_lem :
    {A : Type 0} (parse : Text → Option A) (default : A) (value : Text)
    → parse [] ≡ none
    → ((parse value ≡ none) × (parsed parse default (nonempty value) ≡ default))
      ⊎ ((a : A) × (parse value ≡ some a) × (parsed parse default (nonempty value) ≡ a))
parsed_lem parse default [] e = inl (e, refl)
parsed_lem parse default (c ∷ t) e = elim (Option-cases (parse (c ∷ t))) [
  | inl h ↦ inl (h, rw (parsed, h) refl)
  | inr (a, h) ↦ inr (a, h, rw (parsed, h) refl)
]

atoi_empty : atoi [] ≡ none
unfolding atoi
atoi_empty = refl

-- A capacity that `make` refuses is below 0 or larger than the largest.
abbrev pub IsBadSize : (max_capacity : ℕ) → ℤ → Type 0
IsBadSize max_capacity z = (z ≤ℤ negsuc 0) ⊎ (pos (suc max_capacity) ≤ℤ z)

is_bad_capacity_iff :
    (max_capacity : ℕ) (z : ℤ) → (is_bad_capacity max_capacity z ≡ true) ↔ IsBadSize max_capacity z
is_bad_capacity_iff max_capacity (pos n) = (
  λ e. inr (ground (arith, e)),
  λ h. elim h [ inl l ↦ absurd (omega (arith, l)) | inr l ↦ ground (arith, l) ],
)
is_bad_capacity_iff max_capacity (negsuc n) = (λ e. inl (omega arith), λ h. refl)

is_positive_iff : (z : ℤ) → (is_positive z ≡ false) ↔ (z ≤ℤ pos 0)
is_positive_iff (pos n) = (λ e. ground (arith, e), λ l. ground (arith, l))
is_positive_iff (negsuc n) = (λ e. omega arith, λ l. refl)

start_processor_iff :
    {F : Type 0} (max_capacity : ℕ) (config : Config F)
    → (start_processor max_capacity config ≡ none) ↔ (
        (is_bad_capacity max_capacity config.batch_size ≡ true)
        ⊎ (is_positive config.batch_timeout ≡ false))
unfolding start_processor
start_processor_iff max_capacity config =
    elim (Bool-cases (is_bad_capacity max_capacity config.batch_size)) [
      | inl e ↦ (λ h. inl e, λ h. rw e refl)
      | inr e ↦ elim (Bool-cases (is_positive config.batch_timeout)) [
        | inl e' ↦ (rw (e, e') (λ h. absurd cc), λ h. absurd (elim h [ inl h' ↦ cc | inr h' ↦ cc ]))
        | inr e' ↦ (λ h. inr e', λ h. rw (e, e') refl)
      ]
    ]

module _ (env : Text → Text) (key : Text) where
  get_env_int_bad :
      (max_capacity default : ℕ)
      → default ≤ max_capacity
      → (is_bad_capacity max_capacity (get_env_int env key (pos default)) ≡ true)
        ↔ ((z : ℤ) × (atoi (env key) ≡ some z) × IsBadSize max_capacity z)
  unfolding get_env_int
  get_env_int_bad max_capacity default l =
      elim (parsed_lem atoi (pos default) (env key) atoi_empty) [
        | inl (e, is) ↦ (
          λ h. absurd (ground (arith, ap (is_bad_capacity max_capacity) (sym is) ∙ h, l)),
          λ (z, h, bad). absurd cc,
        )
        | inr (z, e, is) ↦ (
          λ h. (
            z,
            e,
            (is_bad_capacity_iff max_capacity z).0 (ap (is_bad_capacity max_capacity) (sym is) ∙ h),
          ),
          λ (y, h, bad).
              let same : y ≡ z = cc in
              ap (is_bad_capacity max_capacity) (is ∙ sym same)
              ∙ (is_bad_capacity_iff max_capacity y).1 bad,
        )
      ]

  get_env_duration_positive :
      (parse_duration : Text → Option ℤ) (default : ℕ)
      → parse_duration [] ≡ none
      → 0 < default
      → (is_positive (get_env_duration env parse_duration key (pos default)) ≡ false)
        ↔ ((d : ℤ) × (parse_duration (env key) ≡ some d) × (d ≤ℤ pos 0))
  unfolding get_env_duration
  get_env_duration_positive parse_duration default refuses l =
      elim (parsed_lem parse_duration (pos default) (env key) refuses) [
        | inl (e, is) ↦ (
          λ h. absurd (ground (arith, ap is_positive (sym is) ∙ h, l)),
          λ (d, h, small). absurd cc,
        )
        | inr (z, e, is) ↦ (
          λ h. (z, e, (is_positive_iff z).0 (ap is_positive (sym is) ∙ h)),
          λ (d, h, small).
              let same : d ≡ z = cc in ap is_positive (is ∙ sym same) ∙ (is_positive_iff d).1 small,
        )
      ]

module _ {F : Type 0} ⦃f : Float F⦄ (env : Text → Text) (parse_float : Text → Option F)
    (parse_duration : Text → Option ℤ) (max_capacity : ℕ) where
  -- For a parser of durations that refuses the empty text, a machine on which `make` takes a capacity
  -- of 1000, a database that answers, and with the memory that the buffer needs, the start of the
  -- batch processor panics for exactly the environments in which `BATCH_SIZE` is a number below 0 or
  -- above the largest capacity that `make` takes, or `BATCH_TIMEOUT` is a duration that is not
  -- positive: no variable that is not set, or that cannot be parsed, makes it panic.
  pub start_processor-load_config :
      parse_duration [] ≡ none
      → 1000 ≤ max_capacity
      → (start_processor max_capacity (load_config env parse_float parse_duration) ≡ none) ↔ (
          ((z : ℤ) × (atoi (env (codes "BATCH_SIZE")) ≡ some z) × IsBadSize max_capacity z)
          ⊎ ((d : ℤ) × (parse_duration (env (codes "BATCH_TIMEOUT")) ≡ some d) × (d ≤ℤ pos 0)))
  unfolding start_processor load_config get_env_int get_env_duration
  start_processor-load_config refuses large =
      let size = get_env_int_bad env (codes "BATCH_SIZE") max_capacity 1000 large in
      let timeout =
        get_env_duration_positive env (codes "BATCH_TIMEOUT") parse_duration 1_000_000_000 refuses
          (omega arith) in
      let either = start_processor_iff max_capacity (load_config env parse_float parse_duration) in
      (
        λ h. elim (either.0 h) [ inl h' ↦ inl (size.0 h') | inr h' ↦ inr (timeout.0 h') ],
        λ h. either.1 (elim h [ inl h' ↦ inl (size.1 h') | inr h' ↦ inr (timeout.1 h') ]),
      )
