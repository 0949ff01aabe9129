-- ===== src/Ingest/System/Race.antt =====
-- A write to the log while a replay is on its way.
use space_project.Base.{Option-cases, inl, inr, ℕ, ◌≡◌, ap, some, List, [], ◌∷◌, ◌++◌}
use space_project.Ingest.{TelemetryPoint, WalRecord, record_of}
use space_project.Ingest.Wal.{
  WriteOutcome, close, Bytes, Json, Wal, written, reopened, write, read_all,
}
use space_project.Ingest.Wal.Lines.{IsJson}
use space_project.Ingest.Wal.Laws.{
  Represents, write-Represents, read_all-Represents, clear-Represents,
}
use space_project.Ingest.Batch.Flush.{spilling, spill, spill_written, lost}
use space_project.Ingest.Monitor.{replaying, after_read, begin_replay, end_replay}

module _ {F T : Type 0} (json : Json (WalRecord F T)) (laws : IsJson json) where
  -- A record that a flush writes to the log after a replay has read it is lost: the replay goes on
  -- with the records that it read, the write succeeds and the flush goes on to its next point, and
  -- the clear at the end of the replay leaves none.
  pub spill_in_replay_lost :
      (replays : ℕ) (w : Wal) (r : WalRecord F T) (rs : List (WalRecord F T))
      (point : TelemetryPoint F T)
      → (left : List (TelemetryPoint F T)) (b : Bytes) → Represents json w (r ∷ rs)
      → json.marshal (record_of point) ≡ some b
      → let (place, w₁) = begin_replay json reopened replays w in
        let (flush, log) = spill json written (point ∷ left) (some w₁) in
        (place ≡ replaying replays [] (r ∷ rs))
        × (flush ≡ spilling left)
        × ((w₂ : Wal) × (log ≡ some w₂)
            × Represents json w₂ (r ∷ rs ++ record_of point ∷ [])
            × Represents json (end_replay {F = F} {T = T} reopened replays w₂).1 [])
  unfolding begin_replay end_replay
  spill_in_replay_lost replays w r rs point left b h e =
      let read = read_all-Represents json laws w (r ∷ rs) h in
      let w₁ = (read_all json reopened w).1 in
      let done = write-Represents json laws w₁ (r ∷ rs) (record_of point) b e read.1 in
      let w₂ = (write json written (record_of point) w₁).1 in
      let spilt = spill_written json written point left w₁ w₂ (ap (λ a. (a, w₂)) done.0) in
      (
        ap (after_read replays) read.0,
        ap (λ t. t.0) spilt,
        (w₂, ap (λ t. t.1) spilt, done.1, (clear-Represents json laws w₂ _ done.1).1),
      )

module _ {F T : Type 0} (json : Json (WalRecord F T)) where
  -- A flush that comes to the log after `Close`, which `main` calls while the final flush may be on
  -- its way, loses all the points that it has left.
  spill_closed :
      (outcome : WriteOutcome) (point : TelemetryPoint F T) (left : List (TelemetryPoint F T))
      (w : Wal)
      → (spill json outcome (point ∷ left) (some (close w))).0 ≡ lost (point ∷ left)
  unfolding spill write close
  spill_closed outcome point left w = elim (Option-cases (json.marshal (record_of point))) [
    | inl e ↦ cc
    | inr (b, e) ↦ cc
  ]
