-- ===== src/Ingest/Monitor/Laws.antt =====
-- What a replay brings to the database, and what it leaves in the log.
use mathlib.Core.Path.{subst}
use space_project.Base.{
  ℕ, zero, suc, ◌+◌, ◌*◌, ◌≤◌, ◌<◌, ◌≡◌, refl, sym, ap, ◌∙◌, true, false, some, List, [], ◌∷◌, ◌++◌,
  map, arith, take, drop, length, length-drop, take-drop, length-drop, map-append,
}
use space_project.Ingest.{WalRecord, row_of_record}
use space_project.Ingest.Batch.Flush.{InsertOutcome, failed, committed}
use space_project.Ingest.Wal.{Json, Wal, reopened, read_all}
use space_project.Ingest.Wal.Lines.{IsJson}
use space_project.Ingest.Wal.Laws.{Represents, read_all-Represents, clear-Represents}
use space_project.Ingest.Monitor.{replay_batch_size, replay_loop, replay_records, replay_wal}

take_nil : {A : Type 0} (n : ℕ) → take {A = A} n [] ≡ []
take_nil zero = refl
take_nil (suc n) = refl

take-add : {A : Type 0} (m n : ℕ) (xs : List A) → take (m + n) xs ≡ take m xs ++ take n (drop m xs)
take-add zero n xs = let e : 0 + n ≡ n = omega arith in ap (λ k. take k xs) e
take-add (suc m) n [] = take_nil (suc m + n) ∙ sym (take_nil n)
take-add (suc m) n (x ∷ xs) =
    let e : suc m + n ≡ suc (m + n) = omega arith in
    ap (λ k. take k (x ∷ xs)) e ∙ ap (λ l. x ∷ l) (take-add m n xs)

first_failure :
    (outcome : ℕ → InsertOutcome) (k : ℕ) → outcome k ≡ failed → outcome (0 + k) ≡ failed
first_failure outcome k e = let same : 0 + k ≡ k = omega arith in ap outcome same ∙ e

module _ {F T : Type 0} where
  -- The loop brings the batches up to the first that fails.
  replay_loop_all :
      (outcome : ℕ → InsertOutcome) (fuel i : ℕ) (left : List (WalRecord F T))
      → length left ≤ fuel
      → ((j : ℕ) → outcome j ≡ committed)
      → replay_loop outcome fuel i left ≡ (true, map row_of_record left)
  unfolding replay_loop
  replay_loop_all outcome zero i [] h c = refl
  replay_loop_all outcome zero i (r ∷ rs) h c = absurd (omega arith)
  replay_loop_all outcome (suc fuel) i [] h c = refl
  replay_loop_all outcome (suc fuel) i (r ∷ rs) h c =
      let batch = take replay_batch_size (r ∷ rs) in
      let rest = drop replay_batch_size (r ∷ rs) in
      let ih =
        replay_loop_all outcome fuel (suc i) rest
          (omega (arith, length-drop replay_batch_size (r ∷ rs))) c in
      rw (c i, ih, replay_loop)
        (ap (λ l. (true, l))
          (sym (map-append row_of_record batch rest)
            ∙ ap (map row_of_record) (take-drop replay_batch_size (r ∷ rs))))

  replay_loop_part :
      (outcome : ℕ → InsertOutcome) (fuel i k : ℕ) (left : List (WalRecord F T))
      → length left ≤ fuel
      → k * replay_batch_size < length left
      → ((j : ℕ) → j < i + k → outcome j ≡ committed)
      → outcome (i + k) ≡ failed
      → replay_loop outcome fuel i left
        ≡ (false, map row_of_record (take (k * replay_batch_size) left))
  unfolding replay_loop
  replay_loop_part outcome zero i k left h l c e = absurd (omega arith)
  replay_loop_part outcome (suc fuel) i k [] h l c e = absurd (omega arith)
  replay_loop_part outcome (suc fuel) i zero (r ∷ rs) h l c e =
      let now : i + 0 ≡ i = omega arith in
      let e₀ : outcome i ≡ failed = ap outcome (sym now) ∙ e in rw (e₀, replay_loop) refl
  replay_loop_part outcome (suc fuel) i (suc k) (r ∷ rs) h l c e =
      let batch = take replay_batch_size (r ∷ rs) in
      let rest = drop replay_batch_size (r ∷ rs) in
      let long = length-drop replay_batch_size (r ∷ rs) in
      let shift : i + suc k ≡ suc i + k = omega arith in
      let more : suc k * replay_batch_size ≡ replay_batch_size + k * replay_batch_size =
        omega arith in
      let ih =
        replay_loop_part outcome fuel (suc i) k rest (omega (arith, long)) (omega (arith, long))
          (λ j b. c j (omega arith)) (ap outcome (sym shift) ∙ e) in
      rw (c i (omega arith), ih, replay_loop)
        (ap (λ l. (false, l))
          (sym (map-append row_of_record batch (take (k * replay_batch_size) rest))
            ∙ ap (map row_of_record) (
                sym (take-add replay_batch_size (k * replay_batch_size) (r ∷ rs))
                ∙ ap (λ n. take n (r ∷ rs)) (sym more))))

module _ {F T : Type 0} (json : Json (WalRecord F T)) (laws : IsJson json) where
  delivered :
      (outcome : ℕ → InsertOutcome) (w : Wal) (rs : List (WalRecord F T))
      → Represents json w rs
      → ((j : ℕ) → outcome j ≡ committed)
      → ((replay_records outcome reopened (some rs, w)).1 ≡ map row_of_record rs)
        × Represents json (replay_records outcome reopened (some rs, w)).0 []
  unfolding replay_loop
  delivered outcome w [] h c = (refl, h)
  delivered outcome w (r ∷ rs) h c =
      rw (replay_loop_all {F = F} {T = T} outcome (length (r ∷ rs)) 0 (r ∷ rs) (omega arith) c)
        (refl, (clear-Represents json laws w (r ∷ rs) h).1)

  -- If every insert commits, one replay of a log brings a row for each of its records to the
  -- database, in their order, and empties the log.
  pub replay_wal_delivers :
      (outcome : ℕ → InsertOutcome) (w : Wal) (rs : List (WalRecord F T))
      → Represents json w rs
      → ((j : ℕ) → outcome j ≡ committed)
      → ((replay_wal json reopened reopened outcome w).1 ≡ map row_of_record rs)
        × Represents json (replay_wal json reopened reopened outcome w).0 []
  unfolding replay_wal
  replay_wal_delivers outcome w rs h c =
      let r = read_all-Represents json laws w rs h in
      subst
        (λ p.
          ((replay_records outcome reopened p).1 ≡ map row_of_record rs)
          × Represents json (replay_records outcome reopened p).0 [])
        (ap (λ o. (o, (read_all json reopened w).1)) (sym r.0))
        (delivered outcome (read_all json reopened w).1 rs r.1 c)

  -- If the insert of batch `k` fails, after those before it committed, the database has the rows of
  -- the first `k` batches, and the log still has all its records, those that it brought included.
  pub replay_wal_interrupted :
      (outcome : ℕ → InsertOutcome) (k : ℕ) (w : Wal) (rs : List (WalRecord F T))
      → Represents json w rs
      → k * replay_batch_size < length rs
      → ((j : ℕ) → j < k → outcome j ≡ committed)
      → outcome k ≡ failed
      → ((replay_wal json reopened reopened outcome w).1
          ≡ map row_of_record (take (k * replay_batch_size) rs))
        × Represents json (replay_wal json reopened reopened outcome w).0 rs
  unfolding replay_wal
  replay_wal_interrupted outcome k w rs h l c e =
      let r = read_all-Represents json laws w rs h in
      subst
        (λ p.
          ((replay_records outcome reopened p).1
            ≡ map row_of_record (take (k * replay_batch_size) rs))
          × Represents json (replay_records outcome reopened p).0 rs)
        (ap (λ o. (o, (read_all json reopened w).1)) (sym r.0))
        (rw
          (replay_loop_part {F = F} {T = T} outcome (length rs) 0 k rs (omega arith) l
            (λ j b. c j (omega arith)) (first_failure outcome k e))
          (refl, r.1))
