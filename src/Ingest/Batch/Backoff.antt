-- ===== src/Ingest/Batch/Backoff.antt =====
-- go-service/db/batch.go: the pauses of `flushWithRetry` between its attempts. A `time.Duration` is
-- an `int64` of nanoseconds, and is kept here as its 64 bits. The jitter, which is a product of
-- floats, is a parameter.
use Prim.Native.Nat.{◌^◌}
use native.Mathlib.Nat.{two-pow-succ, pow-le-pow_right}
use space_project.Base.{
  ℕ, zero, suc, ◌+◌, ◌-◌, ◌*◌, ◌%◌, ◌≤◌, ◌<◌, ◌≡◌, refl, arith, true, false, ltb, if◌then◌else◌,
}
use space_project.Base.Int.{ℤ, pos, negsuc}

abbrev pub two_52 : ℕ
two_52 = 4_503_599_627_370_496

abbrev pub two_63 : ℕ
two_63 = 9_223_372_036_854_775_808

abbrev pub two_64 : ℕ
two_64 = 18_446_744_073_709_551_616

-- The bits of a number.
abbrev pub bits_of : ℤ → ℕ
bits_of (pos n) = n % two_64
bits_of (negsuc n) = two_64 - 1 - n % two_64

-- `retryDelay * time.Duration(1<<uint(attempt))`, which wraps twice.
unfoldable pub delay : (retry_delay attempt : ℕ) → ℕ
delay retry_delay attempt = (retry_delay * (2 ^ attempt % two_64)) % two_64

-- What `time.Sleep` waits for.
abbrev slept : ℕ → ℕ
slept bits = if ltb bits two_63 then bits else 0

-- The pause after an attempt that failed.
unfoldable pub pause : (max_retries retry_delay : ℕ) (jitter : ℤ) (attempt : ℕ) → ℕ
pause max_retries retry_delay jitter attempt =
    if ltb attempt (max_retries - 1)
    then slept ((delay retry_delay attempt + bits_of jitter) % two_64)
    else 0

-- All the pauses of a flush whose first `attempts` attempts fail.
unfoldable pub pauses : (max_retries retry_delay : ℕ) (jitter : ℕ → ℤ) (attempts : ℕ) → ℕ
pauses max_retries retry_delay jitter zero = 0
pauses max_retries retry_delay jitter (suc n) =
    pauses max_retries retry_delay jitter n + pause max_retries retry_delay (jitter n) n

abbrev pub magnitude : ℤ → ℕ
magnitude (pos n) = n
magnitude (negsuc n) = suc n

wrap_exact : (r x : ℕ) → r * x ≤ two_52 → (r * (x % two_64)) % two_64 ≡ r * x
wrap_exact zero x h = omega arith
wrap_exact (suc k) x h =
    let small : x ≤ two_52 = grind arith in
    let same : x % two_64 ≡ x = omega arith in rw same (omega arith)

delay_exact : (r n : ℕ) → r * 2 ^ n ≤ two_52 → delay r n ≡ r * 2 ^ n
unfolding delay
delay_exact r n h = wrap_exact r (2 ^ n) h

slept_near :
    (d : ℕ) (jitter : ℤ)
    → d ≤ two_52
    → 5 * magnitude jitter ≤ d
    → (4 * d ≤ 5 * slept ((d + bits_of jitter) % two_64))
      × (5 * slept ((d + bits_of jitter) % two_64) ≤ 6 * d)
slept_near d (pos n) h l = ground arith
slept_near d (negsuc n) h l = ground arith

-- There is no pause after the last attempt.
last_pause :
    (max_retries retry_delay : ℕ) (jitter : ℕ → ℤ)
    → pauses max_retries retry_delay jitter max_retries
      ≡ pauses max_retries retry_delay jitter (max_retries - 1)
unfolding pauses pause
last_pause zero retry_delay jitter = refl
last_pause (suc k) retry_delay jitter =
    let before : suc k - 1 ≡ k = omega arith in
    let last : ltb k k ≡ false = ground arith in rw (before, last) (omega arith)

wrap_zero : (r y : ℕ) → (r * (two_64 * y % two_64)) % two_64 ≡ 0
wrap_zero r y = let none_left : two_64 * y % two_64 ≡ 0 = omega arith in rw none_left (omega arith)

shifted_out : (k n : ℕ) → n ≡ 64 + k → 2 ^ n ≡ two_64 * 2 ^ k
shifted_out zero n e = let same : n ≡ 64 = omega (arith, e) in rw same refl
shifted_out (suc k) n e =
    let same : n ≡ suc (64 + k) = omega (arith, e) in
    rw (same, two-pow-succ (64 + k), two-pow-succ k, shifted_out k (64 + k) refl) (omega arith)

delay_zero : (r n : ℕ) → 64 ≤ n → delay r n ≡ 0
unfolding delay
delay_zero r n l =
    let split : 2 ^ n ≡ two_64 * 2 ^ (n - 64) = shifted_out (n - 64) n (omega (arith, l)) in
    rw split (wrap_zero r (2 ^ (n - 64)))

-- From the 65th attempt on the shift of the delay leaves no bit, so that, with a jitter of at most
-- a fifth of the delay, there is no pause.
pause_overflows :
    (max_retries retry_delay : ℕ) (jitter : ℤ) (attempt : ℕ)
    → 64 ≤ attempt
    → 5 * magnitude jitter ≤ delay retry_delay attempt
    → pause max_retries retry_delay jitter attempt ≡ 0
unfolding pause
pause_overflows max_retries retry_delay (pos n) attempt l law =
    let none_left = delay_zero retry_delay attempt l in
    let no_jitter : n ≡ 0 = omega (arith, law, none_left) in
    rw (none_left, no_jitter) (ground arith)
pause_overflows max_retries retry_delay (negsuc n) attempt l law =
    let none_left = delay_zero retry_delay attempt l in absurd (omega (arith, law, none_left))

module _ (max_retries retry_delay : ℕ) (jitter : ℕ → ℤ) where
  pause_near :
      (n : ℕ)
      → retry_delay * 2 ^ n ≤ two_52
      → 5 * magnitude (jitter n) ≤ delay retry_delay n
      → n < max_retries - 1
      → let w = pause max_retries retry_delay (jitter n) n in
        (4 * (retry_delay * 2 ^ n) ≤ 5 * w) × (5 * w ≤ 6 * (retry_delay * 2 ^ n))
  unfolding pause
  pause_near n small law l =
      let exact = delay_exact retry_delay n small in
      let before : ltb n (max_retries - 1) ≡ true = ground arith in
      rw (before, exact)
        (slept_near (retry_delay * 2 ^ n) (jitter n) small (omega (arith, law, exact)))

  product_le :
      (n : ℕ) → n ≤ max_retries - 1 → retry_delay * 2 ^ n ≤ retry_delay * 2 ^ (max_retries - 1)
  product_le n l =
      let powers : 2 ^ n ≤ 2 ^ (max_retries - 1) = pow-le-pow_right (omega arith) l in grind arith

  module _ (small : retry_delay * 2 ^ (max_retries - 1) ≤ two_52)
      (law : (n : ℕ) → n < max_retries - 1 → 5 * magnitude (jitter n) ≤ delay retry_delay n) where
    pauses_near :
        (n : ℕ)
        → n ≤ max_retries - 1
        → let w = pauses max_retries retry_delay jitter n in
          (4 * (retry_delay * 2 ^ n) ≤ 5 * w + 4 * retry_delay)
          × (5 * w + 6 * retry_delay ≤ 6 * (retry_delay * 2 ^ n))
    unfolding pauses
    pauses_near zero l = omega arith
    pauses_near (suc n) l =
        let twice : retry_delay * 2 ^ suc n ≡ 2 * (retry_delay * 2 ^ n) =
          rw (two-pow-succ n) (omega arith) in
        let one = pause_near n (omega (arith, product_le n (omega arith))) (law n l) l in
        let before = pauses_near n (omega arith) in
        (omega (arith, twice, one.0, before.0), omega (arith, twice, one.1, before.1))

    -- The pauses of a flush of which every attempt fails, where the first delay times 2^(attempts -
    -- 1) is at most 2^52 nanoseconds and the jitter of each pause is at most a fifth of its delay:
    -- together they are, up to a fifth more or less, the first delay times one less than that power
    -- of 2.
    pub pauses_bounds :
        let w = pauses max_retries retry_delay jitter max_retries in
        (4 * (retry_delay * 2 ^ (max_retries - 1)) ≤ 5 * w + 4 * retry_delay)
        × (5 * w + 6 * retry_delay ≤ 6 * (retry_delay * 2 ^ (max_retries - 1)))
    pauses_bounds =
        rw (last_pause max_retries retry_delay jitter) (pauses_near (max_retries - 1) (omega arith))
