-- ===== src/Ingest/Shutdown/Ends.antt =====
-- The end of the process: what `main` comes to, and what it may leave behind.
use space_project.Base.{
  ℕ, ◌≡◌, ◌≢◌, refl, sym, ap, ◌∙◌, true, false, Option, none, some, List, map, Bool-cases, inl, inr,
  arith,
}
use mathlib.Core.Path.{subst}
use space_project.Float.{Float}
use space_project.Ingest.{WalRecord, Row, row_of_record}
use space_project.Ingest.Wal.{Bytes, Json, Wal, close}
use space_project.Ingest.Wal.Lines.{IsJson, Encodes}
use space_project.Ingest.Batch.{BatchConfig}
use space_project.Ingest.Monitor.{idle}
use space_project.Ingest.System.{Service, new_service, Reaches, starts, posts, turns, ticks}
use space_project.Ingest.System.Conserves.{Conserves}
use space_project.Ingest.System.Delivery.{Reaches-Conserves, rows_conserved}
use space_project.Ingest.Shutdown.{
  Main, at_signal, at_monitor_stop, at_monitor_wait, at_processor_stop, at_log_close,
  at_server_shutdown, exited, panicked, Process, process_of, main_turn, Step, main_turns,
  service_turns, accepts, monitor_returns, processor_returns, Runs, signalled, steps, is_some,
}
use space_project.Ingest.Shutdown.Laws.{IsIn, Runs-IsIn, Runs-Rests}

-- The places before the log is closed.
abbrev IsBeforeClose : Main → Type 0
IsBeforeClose at_server_shutdown = ⊥
IsBeforeClose (at_monitor_stop is_deferred) = is_deferred ≡ false
IsBeforeClose (at_monitor_wait is_deferred) = is_deferred ≡ false
IsBeforeClose exited = ⊥
IsBeforeClose panicked = ⊥
IsBeforeClose _ = Unit

is_some-none : (log : Option Wal) → is_some log ≡ false → log ≡ none
is_some-none none e = refl
is_some-none (some w) e = absurd cc

module _ {F T : Type 0} where
  main_turn-has_log : (m : Main) (p : Process F T) → (main_turn m p).1.has_log ≡ p.has_log
  unfolding main_turn
  main_turn-has_log at_signal p = refl
  main_turn-has_log (at_monitor_stop is_deferred) p = ground arith
  main_turn-has_log (at_monitor_wait is_deferred) p = refl
  main_turn-has_log at_processor_stop p = ground arith
  main_turn-has_log at_log_close p = refl
  main_turn-has_log at_server_shutdown p = refl
  main_turn-has_log exited p = refl
  main_turn-has_log panicked p = refl

  -- Up to there no turn of `main` touches the service.
  main_turn-before :
      (m : Main) (p : Process F T)
      → IsBeforeClose (main_turn m p).0
      → IsBeforeClose m × ((main_turn m p).1.service ≡ p.service)
  unfolding main_turn
  main_turn-before at_signal p = λ h. (tt, refl)
  main_turn-before (at_monitor_stop is_deferred) p = elim (Bool-cases p.stop_closed) [
    | inl e ↦ rw e (λ h. absurd h)
    | inr e ↦ rw e (λ h. (h, refl))
  ]
  main_turn-before (at_monitor_wait false) p = λ h. (refl, refl)
  main_turn-before (at_monitor_wait true) p = elim (Bool-cases p.monitor_returned) [
    | inl e ↦ rw e (λ h. absurd h)
    | inr e ↦ rw e (λ h. cc)
  ]
  main_turn-before at_processor_stop p = λ h. (tt, ground arith)
  main_turn-before at_log_close p = λ h. absurd h
  main_turn-before at_server_shutdown p = elim (Bool-cases p.has_log) [
    | inl e ↦ rw e (λ h. cc)
    | inr e ↦ rw e (λ h. absurd h)
  ]
  main_turn-before exited p = λ h. absurd h
  main_turn-before panicked p = λ h. absurd h

module _ {F T : Type 0} ⦃f : Float F⦄ (config : BatchConfig F) (json : Json (WalRecord F T)) where
  Step-has_log :
      {m : Main} {p : Process F T} {rows : List (Row F T)} {m' : Main} {p' : Process F T}
      {rows' : List (Row F T)}
      → Step config json m p rows m' p' rows'
      → p'.has_log ≡ p.has_log
  Step-has_log (main_turns {m} {p}) = main_turn-has_log m p
  Step-has_log (service_turns runs turn same no_tick) = refl
  Step-has_log (accepts point buffer flushes runs e) = refl
  Step-has_log (monitor_returns runs stop rests) = refl
  Step-has_log (processor_returns before last runs done e e' d) = refl

  module _ {start : Service F T} {rows : List (Row F T)} where
    Runs-has_log :
        {m : Main} {p : Process F T} {accepted : List (Row F T)}
        → Runs config json start rows m p accepted
        → p.has_log ≡ is_some start.log
    Runs-has_log signalled = refl
    Runs-has_log (steps run step) = Step-has_log step ∙ Runs-has_log run

    -- However the goroutines take their turns after the signal, a process that has a log never
    -- comes to the return of `main`, and a process that ends with a panic has a log.
    pub Runs-ends :
        {m : Main} {p : Process F T} {accepted : List (Row F T)}
        → Runs config json start rows m p accepted
        → (m ≡ exited → start.log ≡ none) × (m ≡ panicked → start.log ≢ none)
    Runs-ends {m} {p} run =
        let at = Runs-IsIn config json run in
        let same = Runs-has_log run in
        (
          λ e. is_some-none start.log (sym same ∙ subst (λ k. IsIn k p) e at),
          λ e none_yet. let has = subst (λ k. IsIn k p) e at in let no = ap is_some none_yet in cc,
        )

    Step-Reaches :
        {m : Main} {p : Process F T} {accepted : List (Row F T)} {m' : Main} {p' : Process F T}
        {accepted' : List (Row F T)}
        → Step config json m p accepted m' p' accepted'
        → IsBeforeClose m'
        → IsBeforeClose m
          × (Reaches config json start rows p.service accepted
              → Reaches config json start rows p'.service accepted')
    Step-Reaches (main_turns {m} {p} {rows = accepted}) h =
        let (before, same) = main_turn-before m p h in
        (before, λ reach. subst (λ s. Reaches config json start rows s accepted) (sym same) reach)
    Step-Reaches (service_turns runs turn same no_tick) h = (h, λ reach. turns reach turn)
    Step-Reaches (accepts point buffer flushes runs e) h =
        (h, λ reach. posts point buffer flushes reach e)
    Step-Reaches (monitor_returns runs stop rests) h = (h, λ reach. reach)
    Step-Reaches (processor_returns {p} before last runs done e e' d) h =
        (h, λ reach. turns reach (ticks {s = p.service} before last e' d))

    Runs-Reaches :
        {m : Main} {p : Process F T} {accepted : List (Row F T)}
        → Runs config json start rows m p accepted
        → IsBeforeClose m
        → Reaches config json start rows p.service accepted
    Runs-Reaches signalled h = starts
    Runs-Reaches (steps run step) h =
        let (before, go) = Step-Reaches step h in go (Runs-Reaches run before)

  -- An end with the service as it was at the signal, but for the log, which is closed.
  abbrev pub Drops : (start : Service F T) (rows : List (Row F T)) → Wal → Type 0
  Drops start rows w =
      (p : Process F T) × Runs config json start rows panicked p rows
      × (p.service ≡ record start { log = some (close w) })

  log-Drops :
      (start : Service F T) (rows : List (Row F T)) (w : Wal)
      → start.monitor.place ≡ idle
      → Drops (record start { log = some w }) rows w
  unfolding main_turn
  log-Drops start rows w idle_now =
      let p₀ : Process F T = process_of (record start { log = some w }) in
      let p₁ : Process F T = record p₀ { stop_closed = true } in
      let p₂ : Process F T = record p₁ { monitor_returned = true } in
      let p₃ : Process F T = record p₂ { done_closed = true } in
      let p₄ : Process F T = record p₃ { service = record start { log = some (close w) } } in
      let waits =
        steps (steps signalled (main_turns {m = at_signal} {p = p₀}))
          (main_turns {m = at_monitor_stop false} {p = p₀}) in
      let stops =
        steps (steps waits (monitor_returns {p = p₁} tt refl idle_now))
          (main_turns {m = at_monitor_wait false} {p = p₂}) in
      let closes =
        steps (steps stops (main_turns {m = at_processor_stop} {p = p₂}))
          (main_turns {m = at_log_close} {p = p₃}) in
      (
        p₄,
        steps (steps closes (main_turns {m = at_server_shutdown} {p = p₄}))
            (main_turns {m = at_monitor_stop true} {p = p₄}),
        refl,
      )

  -- A point that was accepted may be lost: when a service with a log and an idle monitor gets the
  -- signal, the process can come to its end with the buffer, the flushes, the database and the
  -- file as they are, and the log closed, so that what is in the buffer is nowhere else.
  pub Runs-Drops :
      (start : Service F T) (rows : List (Row F T)) (w : Wal)
      → start.log ≡ some w
      → start.monitor.place ≡ idle
      → Drops start rows w
  Runs-Drops start rows w e idle_now =
      subst (λ log. Drops (record start { log = log }) rows w) (sym e)
        (log-Drops start rows w idle_now)

  module _ (laws : IsJson json)
      (marshals : (r : WalRecord F T) → (b : Bytes) × (json.marshal r ≡ some b)) where
    -- In every process that `main` starts on a log of given records and that gets the signal at
    -- once or at any time, with records that can be marshalled, a file system that does what it is
    -- told, and no write to the log while a replay reads and clears it: when `main` is about to
    -- close the log, no check and no replay is on its way, and each row, of the old records and of
    -- the accepted points, is in the buffer, in a flush, in the log or in the database, as often as
    -- it was accepted or more.
    pub close_after_replay :
        {p : Process F T} {accepted accepted' : List (Row F T)} {s : Service F T}
        → (threshold timeout : ℕ) (content : Bytes) (rs : List (WalRecord F T))
        → Encodes json content rs
        → Reaches config json
            (new_service threshold timeout (some content))
            (map row_of_record rs)
            s
            accepted
        → Runs config json s accepted at_log_close p accepted'
        → (p.service.monitor.place ≡ idle) × Conserves json accepted' p.service
    close_after_replay threshold timeout content rs h reach run =
        let at = Runs-IsIn config json run in
        (
          Runs-Rests config json run at.2,
          Reaches-Conserves config json laws marshals
              (rows_conserved config json laws marshals threshold timeout content rs h reach)
              (Runs-Reaches run tt),
        )
