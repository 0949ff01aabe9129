-- ===== src/Ingest/System/Rows.antt =====
-- Where the rows of the accepted points are, counted by any test of a row.
use space_project.Base.{
  ℕ, zero, suc, ◌+◌, ◌≤◌, ◌≡◌, refl, sym, ap, ◌∙◌, Bool, Option, none, some, List, [], ◌∷◌, ◌++◌,
  map, arith, if◌then◌else◌, count_where, take, drop, take-drop,
}
use mathlib.Core.List.{append_assoc}
use space_project.Ingest.{TelemetryPoint, WalRecord, Row, row_of_point, row_of_record}
use space_project.Ingest.Breaker.{CircuitBreaker}
use space_project.Ingest.Batch.Flush.{
  InsertOutcome, failed, committed, committed_unheard, Flush, waiting, trying, inserting, spilling,
  finished, lost, take_batch, begin_attempt, end_attempt,
}
use space_project.Ingest.System.{IsDone}
use space_project.Ingest.Monitor.{
  Place, idle, to_read, replaying, next_replay, replay_batch, replay_batch_size,
}

module _ {F T : Type 0} where
  -- The points that a flush has in its hands.
  abbrev pub held : Flush F T → List (TelemetryPoint F T)
  held waiting = []
  held (trying _ batch) = batch
  held (inserting _ batch) = batch
  held (spilling left) = left
  held finished = []
  held (lost _) = []

  pub IsDone-held : (flush : Flush F T) → IsDone flush → held flush ≡ []
  IsDone-held waiting h = absurd h
  IsDone-held (trying _ _) h = absurd h
  IsDone-held (inserting _ _) h = absurd h
  IsDone-held (spilling _) h = absurd h
  IsDone-held finished h = refl
  IsDone-held (lost _) h = refl

  -- The records of the current replay that the database has.
  abbrev pub replayed : Place (WalRecord F T) → List (WalRecord F T)
  replayed (replaying _ before _) = before
  replayed idle = []
  replayed (to_read _) = []

  -- A replay works on the records of the log.
  abbrev pub ReplaysLog : Place (WalRecord F T) → List (WalRecord F T) → Type 0
  ReplaysLog (replaying _ before left) records = records ≡ before ++ left
  ReplaysLog idle records = Unit
  ReplaysLog (to_read _) records = Unit

  pub next_replay-ReplaysLog :
      (n : ℕ) (records : List (WalRecord F T)) → ReplaysLog (next_replay n) records
  next_replay-ReplaysLog zero records = tt
  next_replay-ReplaysLog (suc n) records = tt

module _ {F T : Type 0} (test : Row F T → Bool) where
  abbrev pub in_points : List (TelemetryPoint F T) → ℕ
  in_points [] = 0
  in_points (point ∷ points) = (if test (row_of_point point) then 1 else 0) + in_points points

  abbrev pub in_flushes : List (Flush F T) → ℕ
  in_flushes [] = 0
  in_flushes (flush ∷ flushes) = in_points (held flush) + in_flushes flushes

  abbrev pub in_records : List (WalRecord F T) → ℕ
  in_records [] = 0
  in_records (r ∷ records) = (if test (row_of_record r) then 1 else 0) + in_records records

  pub in_points-append :
      (xs ys : List (TelemetryPoint F T)) → in_points (xs ++ ys) ≡ in_points xs + in_points ys
  in_points-append [] ys = omega arith
  in_points-append (x ∷ xs) ys = omega (arith, in_points-append xs ys)

  pub in_records-append :
      (xs ys : List (WalRecord F T)) → in_records (xs ++ ys) ≡ in_records xs + in_records ys
  in_records-append [] ys = omega arith
  in_records-append (x ∷ xs) ys = omega (arith, in_records-append xs ys)

  take-drop-records :
      (n : ℕ) (xs : List (WalRecord F T))
      → in_records (take n xs) + in_records (drop n xs) ≡ in_records xs
  take-drop-records n xs =
      sym (in_records-append (take n xs) (drop n xs)) ∙ ap in_records (take-drop n xs)

  pub next_replay-records : (n : ℕ) → in_records (replayed (next_replay n)) ≡ 0
  next_replay-records zero = refl
  next_replay-records (suc n) = refl

  in_points-rows :
      (xs : List (TelemetryPoint F T)) → count_where test (map row_of_point xs) ≡ in_points xs
  in_points-rows [] = refl
  in_points-rows (x ∷ xs) = omega (arith, in_points-rows xs)

  pub in_records-rows :
      (xs : List (WalRecord F T)) → count_where test (map row_of_record xs) ≡ in_records xs
  in_records-rows [] = refl
  in_records-rows (x ∷ xs) = omega (arith, in_records-rows xs)

  in_flushes-turn :
      (before behind : List (Flush F T)) (flush : Flush F T)
      → in_flushes (before ++ flush ∷ behind)
        ≡ in_points (held flush) + (in_flushes before + in_flushes behind)
  in_flushes-turn [] behind flush = omega arith
  in_flushes-turn (f ∷ before) behind flush = omega (arith, in_flushes-turn before behind flush)

  pub in_flushes-at :
      (flushes before behind : List (Flush F T)) (flush : Flush F T)
      → flushes ≡ before ++ flush ∷ behind
      → in_flushes flushes ≡ in_points (held flush) + (in_flushes before + in_flushes behind)
  in_flushes-at flushes before behind flush e =
      ap in_flushes e ∙ in_flushes-turn before behind flush

  -- A swap of the buffer moves its points.
  pub take_batch-points :
      (buffer : List (TelemetryPoint F T))
      → in_points (held (take_batch buffer).0) + in_points (take_batch buffer).1 ≡ in_points buffer
  unfolding take_batch
  take_batch-points [] = omega arith
  take_batch-points (point ∷ buffer) = omega arith

  pub end_attempt-points :
      (outcome : InsertOutcome) (now attempt : ℕ) (batch : List (TelemetryPoint F T))
      (breaker : Option CircuitBreaker)
      → let (flush, _, rows) = end_attempt outcome now attempt batch breaker in
        (in_points batch ≤ in_points (held flush) + count_where test rows)
        × (in_points batch ≡ 0 → in_points (held flush) + count_where test rows ≡ 0)
  unfolding end_attempt
  end_attempt-points failed now attempt batch breaker = (omega arith, λ e. omega arith)
  end_attempt-points committed now attempt batch breaker =
      (omega (arith, in_points-rows batch), λ e. omega (arith, in_points-rows batch))
  end_attempt-points committed_unheard now attempt batch breaker =
      (omega (arith, in_points-rows batch), λ e. omega (arith, in_points-rows batch))

pub begin_attempt-held :
    {F T : Type 0} (max_retries now attempt : ℕ) (batch : List (TelemetryPoint F T))
    (breaker : Option CircuitBreaker)
    → held (begin_attempt max_retries now attempt batch breaker).0 ≡ batch
unfolding begin_attempt
begin_attempt-held max_retries now attempt batch none = ground arith
begin_attempt-held max_retries now attempt batch (some cb) = ground arith

module _ {F T : Type 0} (replays : ℕ) (before left : List (WalRecord F T)) where
  -- A batch of a replay is a part of the log.
  pub replay_batch-ReplaysLog :
      (records : List (WalRecord F T)) (outcome : InsertOutcome)
      → records ≡ before ++ left
      → ReplaysLog (replay_batch outcome replays before left).0 records
  unfolding replay_batch
  replay_batch-ReplaysLog records failed e = next_replay-ReplaysLog replays records
  replay_batch-ReplaysLog records committed_unheard e = next_replay-ReplaysLog replays records
  replay_batch-ReplaysLog records committed e =
      e
      ∙ ap (λ l. before ++ l) (sym (take-drop replay_batch_size left))
      ∙ sym (append_assoc before (take replay_batch_size left) (drop replay_batch_size left))

  pub replay_batch-records :
      (test : Row F T → Bool) (outcome : InsertOutcome)
      → let (place, rows) = replay_batch outcome replays before left in
        (in_records test (replayed place) ≤ in_records test before + count_where test rows)
        × (count_where test rows ≤ in_records test left)
  unfolding replay_batch
  replay_batch-records test failed = (omega (arith, next_replay-records test replays), omega arith)
  replay_batch-records test committed_unheard = (
    omega (arith, next_replay-records test replays),
    omega (
      arith,
      take-drop-records test replay_batch_size left,
      in_records-rows test (take replay_batch_size left),
    ),
  )
  replay_batch-records test committed =
      let batch = take replay_batch_size left in
      (
        omega (arith, in_records-append test before batch, in_records-rows test batch),
        omega (arith, take-drop-records test replay_batch_size left, in_records-rows test batch),
      )
