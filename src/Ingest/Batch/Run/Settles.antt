-- ===== src/Ingest/Batch/Run/Settles.antt =====
-- How a flush ends.
use space_project.Base.{
  ℕ, zero, suc, ◌+◌, ◌-◌, ◌*◌, ◌≤◌, ◌<◌, ◌≡◌, refl, sym, ap, ◌∙◌, Option, some, List, [], ◌∷◌, ◌++◌,
  map, arith, length, ◌⊎◌, inl, inr, map-append,
}
use mathlib.Core.Path.{subst}
use mathlib.Core.List.{append-nil, append_assoc}
use space_project.Ingest.{TelemetryPoint, WalRecord, Row, record_of, row_of_point}
use space_project.Ingest.Breaker.{CircuitBreaker}
use space_project.Ingest.Wal.{Bytes, Json, Wal, written, write}
use space_project.Ingest.Wal.Lines.{IsJson}
use space_project.Ingest.Wal.Laws.{Represents, write-Represents}
use space_project.Ingest.Batch.Flush.{
  InsertOutcome, failed, committed, committed_unheard, Flush, waiting, trying, inserting, spilling,
  finished, lost, begin_attempt, end_attempt, spill, spill_written, begin_attempt_next,
}
use space_project.Ingest.Batch.Run.{Progress, progress, turn_of, turns, flush_with_retry}

module _ {F T : Type 0} (json : Json (WalRecord F T)) (max_retries : ℕ) (begun ended : ℕ → ℕ)
    (outcome : ℕ → InsertOutcome) where
  -- How many turns are left at most.
  abbrev turns_left : Flush F T → ℕ
  turns_left waiting = 0
  turns_left (trying attempt batch) = 2 + length batch + 2 * (max_retries - attempt)
  turns_left (inserting attempt batch) = 1 + length batch + 2 * (max_retries - attempt)
  turns_left (spilling left) = 1 + length left
  turns_left finished = 0
  turns_left (lost _) = 0

  -- A flush of `batch` on its way, on a log that held `rs`: the log has the points that were
  -- spilled; at the end it has them all, or the database does.
  data Stage (rs : List (WalRecord F T)) (batch : List (TelemetryPoint F T))
      : Progress F T → Type 0 where
    attempts :
        (attempt : ℕ) (breaker : Option CircuitBreaker) (w : Wal) (rows : List (Row F T))
        → Represents json w rs
        → Stage rs batch (progress (trying attempt batch) breaker (some w) rows)
    inserts :
        (attempt : ℕ) (breaker : Option CircuitBreaker) (w : Wal) (rows : List (Row F T))
        → attempt < max_retries
        → Represents json w rs
        → Stage rs batch (progress (inserting attempt batch) breaker (some w) rows)
    spills :
        (done left : List (TelemetryPoint F T)) (breaker : Option CircuitBreaker) (w : Wal)
        (rows : List (Row F T))
        → done ++ left ≡ batch
        → Represents json w (rs ++ map record_of done)
        → Stage rs batch (progress (spilling left) breaker (some w) rows)
    spilled :
        (breaker : Option CircuitBreaker) (w : Wal) (rows : List (Row F T))
        → Represents json w (rs ++ map record_of batch)
        → Stage rs batch (progress finished breaker (some w) rows)
    inserted :
        (breaker : Option CircuitBreaker) (w : Wal) (rows : List (Row F T))
        → Represents json w rs
        → Stage rs batch (progress finished breaker (some w) (rows ++ map row_of_point batch))

  begin_attempt-Stage :
      (rs : List (WalRecord F T)) (batch : List (TelemetryPoint F T)) (attempt time : ℕ)
      (breaker : Option CircuitBreaker)
      → (w : Wal) (rows : List (Row F T)) → Represents json w rs
      → let (flush, breaker') = begin_attempt max_retries time attempt batch breaker in
        Stage rs batch (progress flush breaker' (some w) rows)
        × (turns_left flush < turns_left (trying attempt batch))
  begin_attempt-Stage rs batch attempt time breaker w rows h =
      let breaker' = (begin_attempt max_retries time attempt batch breaker).1 in
      let IsNext : Flush F T → Type 0 = λ flush.
        Stage rs batch (progress flush breaker' (some w) rows)
        × (turns_left flush < turns_left (trying attempt batch)) in
      elim (begin_attempt_next max_retries batch attempt time breaker) [
        | inl (e, l) ↦ subst IsNext (sym e) (inserts attempt breaker' w rows l h, omega arith)
        | inr e ↦ subst IsNext (sym e) (
          spills [] batch breaker' w rows refl (subst (Represents json w) (sym (append-nil rs)) h),
          omega arith,
        )
      ]

  end_attempt-Stage :
      (rs : List (WalRecord F T)) (batch : List (TelemetryPoint F T)) (o : InsertOutcome)
      (attempt time : ℕ)
      → (breaker : Option CircuitBreaker) (w : Wal) (rows : List (Row F T)) → attempt < max_retries
      → Represents json w rs
      → let (flush, breaker', more) = end_attempt o time attempt batch breaker in
        Stage rs batch (progress flush breaker' (some w) (rows ++ more))
        × (turns_left flush < turns_left (inserting attempt batch))
  unfolding end_attempt
  end_attempt-Stage rs batch failed attempt time breaker w rows l h =
      (attempts (suc attempt) _ w _ h, omega arith)
  end_attempt-Stage rs batch committed attempt time breaker w rows l h =
      (inserted _ w rows h, omega arith)
  end_attempt-Stage rs batch committed_unheard attempt time breaker w rows l h =
      (attempts (suc attempt) _ w _ h, omega arith)

  -- The end of a flush.
  pub record Settles (rs : List (WalRecord F T)) (batch : List (TelemetryPoint F T))
      (p : Progress F T) : Type 0 where
    pub is_finished : p.flush ≡ finished
    pub log : Wal
    pub has_log : p.log ≡ some log
    pub kept :
        Represents json log (rs ++ map record_of batch)
        ⊎ (Represents json log rs
            × (rows : List (Row F T)) × (p.rows ≡ rows ++ map row_of_point batch))

  module _ (laws : IsJson json)
      (marshals : (r : WalRecord F T) → (b : Bytes) × (json.marshal r ≡ some b)) where
    spill-Stage :
        (rs : List (WalRecord F T)) (batch done left : List (TelemetryPoint F T))
        → (breaker : Option CircuitBreaker) (w : Wal) (rows : List (Row F T)) → done ++ left ≡ batch
        → Represents json w (rs ++ map record_of done)
        → let (flush, log) = spill json written left (some w) in
          Stage rs batch (progress flush breaker log rows)
          × (turns_left flush < turns_left (spilling left))
    unfolding spill
    spill-Stage rs batch done [] breaker w rows e h =
        let all : done ≡ batch = sym (append-nil done) ∙ e in
        (
          spilled breaker w rows (subst (λ ps. Represents json w (rs ++ map record_of ps)) all h),
          omega arith,
        )
    spill-Stage rs batch done (point ∷ left) breaker w rows e h =
        let (b, m) = marshals (record_of point) in
        let wrote =
          write-Represents json laws w (rs ++ map record_of done) (record_of point) b m h in
        let w' = (write json written (record_of point) w).1 in
        let same : (rs ++ map record_of done) ++ record_of point ∷ []
            ≡ rs ++ map record_of (done ++ point ∷ []) =
          append_assoc rs (map record_of done) (record_of point ∷ [])
          ∙ ap (λ l. rs ++ l) (sym (map-append record_of done (point ∷ []))) in
        let IsNext : Flush F T × Option Wal → Type 0 = λ t.
          Stage rs batch (progress t.0 breaker t.1 rows)
          × (turns_left t.0 < turns_left (spilling (point ∷ left))) in
        subst IsNext (sym (spill_written json written point left w w' (ap (λ r. (r, w')) wrote.0)))
          (
            spills (done ++ point ∷ []) left breaker w' rows
                (append_assoc done (point ∷ []) left ∙ e) (subst (Represents json w') same wrote.1),
            omega arith,
          )

    turn-Stage :
        (rs : List (WalRecord F T)) (batch : List (TelemetryPoint F T)) (p : Progress F T)
        → Stage rs batch p
        → let p' = turn_of json max_retries begun ended outcome p.flush p.breaker p.log p.rows in
          Stage rs batch p' × (turns_left p'.flush ≤ turns_left p.flush - 1)
    turn-Stage rs batch p (attempts attempt breaker w rows h) =
        let next = begin_attempt-Stage rs batch attempt (begun attempt) breaker w rows h in
        (next.0, omega (arith, next.1))
    turn-Stage rs batch p (inserts attempt breaker w rows l h) =
        let next =
          end_attempt-Stage rs batch (outcome attempt) attempt (ended attempt) breaker w rows l h in
        (next.0, omega (arith, next.1))
    turn-Stage rs batch p (spills done left breaker w rows e h) =
        let next = spill-Stage rs batch done left breaker w rows e h in
        (next.0, omega (arith, next.1))
    turn-Stage rs batch p (spilled breaker w rows h) = (spilled breaker w rows h, omega arith)
    turn-Stage rs batch p (inserted breaker w rows h) = (inserted breaker w rows h, omega arith)

    turns-Settles :
        (rs : List (WalRecord F T)) (batch : List (TelemetryPoint F T)) (fuel : ℕ)
        (p : Progress F T)
        → Stage rs batch p
        → turns_left p.flush ≤ fuel
        → Settles rs batch (turns json max_retries begun ended outcome fuel p)
    unfolding turns
    turns-Settles rs batch zero p (attempts attempt breaker w rows h) l = absurd (omega arith)
    turns-Settles rs batch zero p (inserts attempt breaker w rows b h) l = absurd (omega arith)
    turns-Settles rs batch zero p (spills done left breaker w rows e h) l = absurd (omega arith)
    turns-Settles rs batch zero p (spilled breaker w rows h) l = record {
      is_finished = refl;
      log = w;
      has_log = refl;
      kept = inl h;
    }
    turns-Settles rs batch zero p (inserted breaker w rows h) l = record {
      is_finished = refl;
      log = w;
      has_log = refl;
      kept = inr (h, rows, refl);
    }
    turns-Settles rs batch (suc fuel) p stage l =
        let next = turn-Stage rs batch p stage in
        turns-Settles rs batch fuel _ next.0 (omega (arith, next.1))

    -- Every flush on a log of given records, with records that can be marshalled and a file system
    -- that does what it is told, ends after at most two turns for each attempt and one for each
    -- point, and two more, whatever the inserts and the breaker answer: the log has the records of
    -- the whole batch behind the old ones, or it is as it was and the last rows that the database
    -- got are those of the batch.
    pub flush_with_retry-Settles :
        (rs : List (WalRecord F T)) (batch : List (TelemetryPoint F T))
        (breaker : Option CircuitBreaker) (w : Wal) (fuel : ℕ)
        → Represents json w rs
        → 2 + length batch + 2 * max_retries ≤ fuel
        → Settles rs batch
            (flush_with_retry json max_retries begun ended outcome fuel batch breaker (some w))
    flush_with_retry-Settles rs batch breaker w fuel h l =
        turns-Settles rs batch fuel _ (attempts 0 breaker w [] h) (omega arith)
