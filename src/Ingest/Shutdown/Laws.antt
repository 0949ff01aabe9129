-- ===== src/Ingest/Shutdown/Laws.antt =====
-- How a process that was told to stop ends.
use space_project.Base.{◌≡◌, refl, sym, ap, ◌∙◌, Bool, true, false, List, Bool-cases, inl, inr}
use space_project.Float.{Float}
use space_project.Ingest.{WalRecord, Row}
use space_project.Ingest.Wal.{Json}
use space_project.Ingest.Batch.{BatchConfig}
use space_project.Ingest.Monitor.{idle}
use space_project.Ingest.System.{Service}
use space_project.Ingest.Shutdown.{
  Main, at_signal, at_monitor_stop, at_monitor_wait, at_processor_stop, at_log_close,
  at_server_shutdown, exited, panicked, Process, main_turn, Step, main_turns, service_turns,
  accepts, monitor_returns, processor_returns, Runs, signalled, steps,
}

-- What `main` knows at each place of its variables, its channels and the loop of the monitor.
abbrev pub IsAt : Main → (has_log stop_closed done_closed monitor_returned : Bool) → Type 0
IsAt at_signal has_log stop done returned = (stop ≡ false) × (done ≡ false)
IsAt (at_monitor_stop false) has_log stop done returned =
    (has_log ≡ true) × (stop ≡ false) × (done ≡ false)
IsAt (at_monitor_wait false) has_log stop done returned =
    (has_log ≡ true) × (stop ≡ true) × (done ≡ false)
IsAt at_processor_stop has_log stop done returned =
    (done ≡ false) × (stop ≡ has_log) × (has_log ≡ true → returned ≡ true)
IsAt at_log_close has_log stop done returned = (has_log ≡ true) × (stop ≡ true) × (returned ≡ true)
IsAt at_server_shutdown has_log stop done returned = stop ≡ has_log
IsAt (at_monitor_stop true) has_log stop done returned = (has_log ≡ true) × (stop ≡ true)
IsAt (at_monitor_wait true) has_log stop done returned = ⊥
IsAt exited has_log stop done returned = has_log ≡ false
IsAt panicked has_log stop done returned = has_log ≡ true

module _ {F T : Type 0} where
  abbrev pub IsIn : Main → Process F T → Type 0
  IsIn m p = IsAt m p.has_log p.stop_closed p.done_closed p.monitor_returned

  main_turn-IsIn :
      (m : Main) (p : Process F T) → IsIn m p → IsIn (main_turn m p).0 (main_turn m p).1
  unfolding main_turn
  main_turn-IsIn at_signal p h = elim (Bool-cases p.has_log) [
    | inl e ↦ rw e (refl, h.0, h.1)
    | inr e ↦ rw e (h.1, h.0, λ e'. cc)
  ]
  main_turn-IsIn (at_monitor_stop false) p h = rw (h.1) (h.0, refl, h.2)
  main_turn-IsIn (at_monitor_stop true) p h = rw (h.1) h.0
  main_turn-IsIn (at_monitor_wait false) p h = elim (Bool-cases p.monitor_returned) [
    | inl e ↦ let known = h.1 in rw e (h.2, known ∙ sym h.0, λ e'. refl)
    | inr e ↦ rw e h
  ]
  main_turn-IsIn (at_monitor_wait true) p h = absurd h
  main_turn-IsIn at_processor_stop p h = elim (Bool-cases p.has_log) [
    | inl e ↦ rw (h.0, e) (refl, h.1 ∙ e, h.2 e)
    | inr e ↦ rw (h.0, e) (h.1 ∙ e)
  ]
  main_turn-IsIn at_log_close p h = h.1 ∙ sym h.0
  main_turn-IsIn at_server_shutdown p h = elim (Bool-cases p.has_log) [
    | inl e ↦ rw e (refl, h ∙ e)
    | inr e ↦ rw e refl
  ]
  main_turn-IsIn exited p h = h
  main_turn-IsIn panicked p h = h

returned-IsAt :
    (m : Main) (has_log stop done returned : Bool)
    → IsAt m has_log stop done returned
    → IsAt m has_log stop done true
returned-IsAt at_signal has_log stop done returned h = h
returned-IsAt (at_monitor_stop false) has_log stop done returned h = h
returned-IsAt (at_monitor_stop true) has_log stop done returned h = h
returned-IsAt (at_monitor_wait false) has_log stop done returned h = h
returned-IsAt (at_monitor_wait true) has_log stop done returned h = h
returned-IsAt at_processor_stop has_log stop done returned h = (h.0, h.1, λ e. refl)
returned-IsAt at_log_close has_log stop done returned h = (h.0, h.1, refl)
returned-IsAt at_server_shutdown has_log stop done returned h = h
returned-IsAt exited has_log stop done returned h = h
returned-IsAt panicked has_log stop done returned h = h

module _ {F T : Type 0} ⦃f : Float F⦄ (config : BatchConfig F) (json : Json (WalRecord F T)) where
  Step-IsIn :
      {m : Main} {p : Process F T} {rows : List (Row F T)} {m' : Main} {p' : Process F T}
      {rows' : List (Row F T)}
      → Step config json m p rows m' p' rows'
      → IsIn m p
      → IsIn m' p'
  Step-IsIn (main_turns {m} {p}) h = main_turn-IsIn m p h
  Step-IsIn (service_turns runs turn same no_tick) h = h
  Step-IsIn (accepts point buffer flushes runs e) h = h
  Step-IsIn (monitor_returns {m} {p} runs stop rests) h =
      returned-IsAt m p.has_log p.stop_closed p.done_closed p.monitor_returned h
  Step-IsIn (processor_returns before last runs done e e' d) h = h

  -- When `monitorLoop` has returned, no check and no replay is on its way.
  abbrev pub Rests : Process F T → Type 0
  Rests p = p.monitor_returned ≡ true → p.service.monitor.place ≡ idle

  main_turn-Rests : (m : Main) (p : Process F T) → Rests p → Rests (main_turn m p).1
  unfolding main_turn
  main_turn-Rests at_signal p h = h
  main_turn-Rests (at_monitor_stop is_deferred) p h = elim (Bool-cases p.stop_closed) [
    | inl e ↦ rw e h
    | inr e ↦ rw e h
  ]
  main_turn-Rests (at_monitor_wait is_deferred) p h = h
  main_turn-Rests at_processor_stop p h = elim (Bool-cases p.done_closed) [
    | inl e ↦ rw e h
    | inr e ↦ rw e h
  ]
  main_turn-Rests at_log_close p h = h
  main_turn-Rests at_server_shutdown p h = h
  main_turn-Rests exited p h = h
  main_turn-Rests panicked p h = h

  Step-Rests :
      {m : Main} {p : Process F T} {rows : List (Row F T)} {m' : Main} {p' : Process F T}
      {rows' : List (Row F T)}
      → Step config json m p rows m' p' rows'
      → Rests p
      → Rests p'
  Step-Rests (main_turns {m} {p}) h = main_turn-Rests m p h
  Step-Rests (service_turns runs turn same no_tick) h =
      λ e. ap (λ monitor. monitor.place) (same e) ∙ h e
  Step-Rests (accepts point buffer flushes runs e) h = h
  Step-Rests (monitor_returns runs stop rests) h = λ e. rests
  Step-Rests (processor_returns before last runs done e e' d) h = h

  module _ {start : Service F T} {rows : List (Row F T)} where
    pub Runs-IsIn :
        {m : Main} {p : Process F T} {accepted : List (Row F T)}
        → Runs config json start rows m p accepted
        → IsIn m p
    Runs-IsIn signalled = (refl, refl)
    Runs-IsIn (steps run step) = Step-IsIn step (Runs-IsIn run)

    pub Runs-Rests :
        {m : Main} {p : Process F T} {accepted : List (Row F T)}
        → Runs config json start rows m p accepted
        → Rests p
    Runs-Rests signalled = λ e. cc
    Runs-Rests (steps run step) = Step-Rests step (Runs-Rests run)
