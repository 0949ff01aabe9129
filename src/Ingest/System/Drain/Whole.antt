-- ===== src/Ingest/System/Drain/Whole.antt =====
-- All turns together, and the rows that they deliver.
use mathlib.Core.Path.{subst}
use space_project.Base.{
  ℕ, zero, suc, ◌≤◌, ◌≡◌, refl, sym, ◌∙◌, Bool, true, some, List, [], arith, All, length, inl, inr,
  Bool-cases, map, if◌then◌else◌,
}
use space_project.Float.{Float}
use space_project.Ingest.{WalRecord, Row, row_of_record}
use space_project.Ingest.Wal.{Bytes, Json}
use space_project.Ingest.Wal.Lines.{IsJson}
use space_project.Ingest.Batch.{BatchConfig}
use space_project.Ingest.Monitor.{Place, idle, to_read, replaying, next_replay, check_health}
use space_project.Ingest.System.{Service, IsReplaying, checks, Reaches}
use space_project.Ingest.System.Conserves.{Conserves}
use space_project.Ingest.System.Rows.{held}
use space_project.Ingest.System.Delivery.{IsDrained}
use space_project.Base.{count_where, not, ◌<◌}
use space_project.Ingest.System.{new_service}
use space_project.Ingest.Wal.Lines.{Encodes}
use space_project.Ingest.System.Delivery.{rows_conserved, rows_delivered}
use space_project.Ingest.System.Drain.Buffer.{
  AreDone, AreDone-held, HasFlush, Reaches-HasFlush, empty_flushes, empty_buffer,
}
use space_project.Ingest.System.Drain.{Goes, here, go_on, Goes-Reaches, Goes-refused}
use space_project.Ingest.System.Drain.Log.{Replayed, finish_replay, replay_all}

next_replay_quiet : (R : Type 0) (n : ℕ) → ¬ (IsReplaying (next_replay {R = R} n))
next_replay_quiet R zero h = h
next_replay_quiet R (suc n) h = h

module _ {F T : Type 0} ⦃f : Float F⦄ (config : BatchConfig F) (json : Json (WalRecord F T))
    (laws : IsJson json) (marshals : (r : WalRecord F T) → (b : Bytes) × (json.marshal r ≡ some b))
    (takes : Row F T → Bool) (origin : Service F T) (accepted : List (Row F T))
    (conserved : Conserves json accepted origin)
    (taken : count_where (λ row. not (takes row)) accepted ≡ 0) where
  -- A state that is reached from `s` with no replay on its way.
  to_quiet :
      (s : Service F T)
      → Goes config json takes origin s
      → (s' : Service F T) × Goes config json takes origin s' × ¬ (IsReplaying s'.monitor.place)
  to_quiet s reach = go s.monitor.place refl
    where
      go :
          (place : Place (WalRecord F T))
          → s.monitor.place ≡ place
          → (s' : Service F T) × Goes config json takes origin s' × ¬ (IsReplaying s'.monitor.place)
      go idle p = (s, reach, subst (λ q. ¬ (IsReplaying q)) (sym p) (λ h. h))
      go (to_read n) p = (s, reach, subst (λ q. ¬ (IsReplaying q)) (sym p) (λ h. h))
      go (replaying n before left) p =
          let done =
            finish_replay config json laws marshals takes origin accepted conserved taken
              (length left) n before left s reach p (omega arith) in
          (
            done.state,
            done.reach,
            subst (λ q. ¬ (IsReplaying q)) (sym done.place) (next_replay_quiet (WalRecord F T) n),
          )

  after_log :
      (s : Service F T) (n : ℕ)
      → AreDone s.flushes
      → s.buffer ≡ []
      → Replayed config json laws marshals takes origin accepted conserved taken s n
      → (s' : Service F T) × Goes config json takes origin s' × IsDrained json s'
  after_log s n a b done = (
    done.state,
    done.reach,
    record {
      log = done.log;
      buffer = done.buffer ∙ b;
      flushes =
          subst (All (λ flush. held flush ≡ [])) (sym done.flushes) (AreDone-held s.flushes a);
      has_log = done.has_log;
      represents = done.represents;
    },
  )

  -- With empty flushes and an empty buffer.
  drain_log :
      (s : Service F T)
      → Goes config json takes origin s
      → AreDone s.flushes
      → s.buffer ≡ []
      → ¬ (IsReplaying s.monitor.place)
      → (s' : Service F T) × Goes config json takes origin s' × IsDrained json s'
  unfolding check_health
  drain_log s reach a b q = go s.monitor.place refl
    where
      go :
          (place : Place (WalRecord F T))
          → s.monitor.place ≡ place
          → (s' : Service F T) × Goes config json takes origin s' × IsDrained json s'
      go idle p =
          let s' : Service F T = record s { monitor = check_health true s.monitor } in
          let n : ℕ = if s.monitor.is_healthy then 0 else 1 in
          let first : s'.monitor.place ≡ to_read n = elim (Bool-cases s.monitor.is_healthy) [
            | inl e ↦ rw (e, check_health) refl
            | inr e ↦ rw (e, check_health) refl
          ] in
          after_log s' n a b (
            replay_all config json laws marshals takes origin accepted conserved taken n s'
              (go_on config json laws marshals takes origin accepted conserved taken reach
                (checks true p))
              first)
      go (to_read n) p =
          after_log s n a b
            (replay_all config json laws marshals takes origin accepted conserved taken n s reach p)
      go (replaying n before left) p = absurd (q (subst IsReplaying (sym p) tt))

  drain :
      (s : Service F T)
      → Goes config json takes origin s
      → HasFlush origin.flushes
      → (s' : Service F T) × Goes config json takes origin s' × IsDrained json s'
  drain s reach f₀ =
      let (s₁, r₁, q₁) = to_quiet s reach in
      let flushed =
        empty_flushes config json laws marshals takes origin accepted conserved taken s₁.flushes []
          s₁ r₁ refl tt q₁ in
      let q₂ = subst (λ m. ¬ (IsReplaying m.place)) (sym flushed.monitor) q₁ in
      let (s₃, r₃, a, b, same) =
        empty_buffer config json laws marshals takes origin accepted conserved taken flushed.state
          flushed.reach f₀ flushed.empty q₂ in
      drain_log s₃ r₃ a b (subst (λ m. ¬ (IsReplaying m.place)) (sym same) q₂)

module _ {F T : Type 0} ⦃f : Float F⦄ (config : BatchConfig F) (json : Json (WalRecord F T))
    (laws : IsJson json) where
  -- A service that `main` starts on a log of given records, with records that can be marshalled, a
  -- file system that does what it is told, and no write to the log while a replay reads and clears
  -- it, can always get rid of all that it has, where the schema of the database takes every accepted
  -- row: from every state that it reaches it has turns, none of which brings a row into the database
  -- that the schema does not take, to a state in which nothing is left in the buffer, in a flush or
  -- in the log, and the database has each accepted row as often as it was accepted or more.
  pub rows_deliverable :
      {s : Service F T} {accepted : List (Row F T)}
      → (marshals : (r : WalRecord F T) → (b : Bytes) × (json.marshal r ≡ some b))
        (threshold timeout : ℕ) (content : Bytes)
      → (rs : List (WalRecord F T)) → Encodes json content rs
      → Reaches config json
          (new_service threshold timeout (some content))
          (map row_of_record rs)
          s
          accepted
      → (takes : Row F T → Bool) → count_where (λ row. not (takes row)) accepted ≡ 0
      → (s' : Service F T) × Goes config json takes s s'
        × IsDrained json s'
        × ((test : Row F T → Bool) → count_where test accepted ≤ count_where test s'.database)
  rows_deliverable {s} {accepted} marshals threshold timeout content rs h reach takes taken =
      let conserved =
        rows_conserved config json laws marshals threshold timeout content rs h reach in
      let (s', way, d) =
        drain config json laws marshals takes s accepted conserved taken s here
          (Reaches-HasFlush config json tt reach) in
      (
        s',
        way,
        d,
        λ test.
            (rows_delivered config json laws marshals threshold timeout content rs h
              (Goes-Reaches config json takes reach way) d test).0,
      )

  -- After an accepted row that the schema of the database does not take, and with no such row in
  -- the database, no turns without a row that the schema does not take lead to a state in which
  -- nothing is left.
  refused_rests :
      {s s' : Service F T} {accepted : List (Row F T)}
      → (marshals : (r : WalRecord F T) → (b : Bytes) × (json.marshal r ≡ some b))
        (threshold timeout : ℕ) (content : Bytes)
      → (rs : List (WalRecord F T)) → Encodes json content rs
      → Reaches config json
          (new_service threshold timeout (some content))
          (map row_of_record rs)
          s
          accepted
      → (takes : Row F T → Bool) → 0 < count_where (λ row. not (takes row)) accepted
      → count_where (λ row. not (takes row)) s.database ≡ 0
      → Goes config json takes s s'
      → ¬ (IsDrained json s')
  refused_rests marshals threshold timeout content rs h reach takes refused unwritten way d =
      let delivered =
        (rows_delivered config json laws marshals threshold timeout content rs h
          (Goes-Reaches config json takes reach way) d (λ row. not (takes row))).0 in
      omega (arith, delivered, Goes-refused config json takes way, refused, unwritten)
