-- ===== src/Ingest/Wal/Closed.antt =====
-- A read that does not reopen the file.
use space_project.Base.{
  Option-cases, inl, inr, ◌≢◌, ap, ◌∙◌, ◌≡◌, refl, false, none, some, List, [], ◌∷◌, All,
}
use space_project.Ingest.Wal.{
  Json, Wal, WriteOutcome, WriteResult, ok, ReopenOutcome, write, read_all,
}

module _ {R : Type 0} (json : Json R) where
  -- Writes, each with what the file system does.
  pub write_all : List (WriteOutcome × R) → Wal → List WriteResult × Wal
  write_all [] w = ([], w)
  write_all ((outcome, r) ∷ writes) w =
      let (result, w') = write json outcome r w in
      let (results, w'') = write_all writes w' in (result ∷ results, w'')

  closed_write :
      (outcome : WriteOutcome) (r : R) (w : Wal)
      → w.is_open ≡ false
      → ((write json outcome r w).0 ≢ ok) × ((write json outcome r w).1 ≡ w)
  unfolding write
  closed_write outcome r w h = elim (Option-cases (json.marshal r)) [
    | inl e ↦ rw (e, write) ((λ n. cc), refl)
    | inr (b, e) ↦ rw (e, h, write) ((λ n. cc), refl)
  ]

  closed_write_all :
      (writes : List (WriteOutcome × R)) (w : Wal)
      → w.is_open ≡ false
      → All (λ result. result ≢ ok) (write_all writes w).0 × ((write_all writes w).1 ≡ w)
  unfolding write_all
  closed_write_all [] w h = (tt, refl)
  closed_write_all ((outcome, r) ∷ writes) w h =
      let one = closed_write outcome r w h in
      let rest =
        closed_write_all writes (write json outcome r w).1 (ap (λ v. v.is_open) one.1 ∙ h) in
      ((one.0, rest.0), rest.1 ∙ one.1)

  -- A read of a log whose file is gone reports no records and no error, but leaves the log closed:
  -- no later write succeeds, and the file is not made again.
  pub read_all_missing :
      (outcome : ReopenOutcome) (w : Wal) (writes : List (WriteOutcome × R))
      → w.file ≡ none
      → ((read_all json outcome w).0 ≡ some [])
        × All (λ result. result ≢ ok) (write_all writes (read_all json outcome w).1).0
        × ((write_all writes (read_all json outcome w).1).1.file ≡ none)
  unfolding read_all
  read_all_missing outcome w writes e =
      let closed : Wal = record w { is_open = false } in
      let all = closed_write_all writes closed refl in
      rw (e, read_all) (refl, all.0, ap (λ v. v.file) all.1 ∙ e)
