-- ===== src/Ingest/Shutdown.antt =====
-- go-service/main.go from the signal to the end of the process, and what it waits for: `Stop` of
-- the health monitor and of the batch processor, and the loops that they end.
pub mod Laws
pub mod Ends
pub mod Durable
pub mod Kept
use space_project.Base.{
  ◌≡◌, Bool, true, false, Option, none, some, List, [], ◌∷◌, ◌++◌, if◌then◌else◌,
}
use space_project.Float.{Float}
use space_project.Ingest.{TelemetryPoint, WalRecord, Row, row_of_point}
use space_project.Ingest.Wal.{Json, Wal, close}
use space_project.Ingest.Batch.{BatchConfig, kept, marked, add}
use space_project.Ingest.Batch.Flush.{Flush, waiting}
use space_project.Ingest.Monitor.{idle}
use space_project.Ingest.System.{Service, IsDone, with_flush, Turn, ticks}

-- Where `main` is. It calls `healthMonitor.Stop` twice, the second time deferred, and each call
-- first closes `stopCh` and then waits. A panic ends the process, as the return of `main` does.
pub data Main : Type 0 where
  at_signal : Main
  at_monitor_stop at_monitor_wait : (is_deferred : Bool) → Main
  at_processor_stop at_log_close at_server_shutdown : Main
  exited panicked : Main

-- The process: the local variables of `main`, the two channels, and the two loops.
pub record Process (F T : Type 0) : Type 0 where
  pub service : Service F T
  pub has_log : Bool
  pub stop_closed : Bool
  pub done_closed : Bool
  pub monitor_returned : Bool
  pub processor_returned : Bool

abbrev pub is_some : Option Wal → Bool
is_some none = false
is_some (some w) = true

abbrev closed_log : Option Wal → Option Wal
closed_log none = none
closed_log (some w) = some (close w)

module _ {F T : Type 0} where
  -- The process when `main` waits for a signal.
  abbrev pub process_of : Service F T → Process F T
  process_of s = record {
    service = s;
    has_log = is_some s.log;
    stop_closed = false;
    done_closed = false;
    monitor_returned = false;
    processor_returned = false;
  }

  -- A turn of `main`; the signal has come, and `Shutdown` of the server returns, when its last
  -- request is answered or after 30 seconds.
  unfoldable pub main_turn : Main → Process F T → Main × Process F T
  main_turn at_signal p = (if p.has_log then at_monitor_stop false else at_processor_stop, p)
  main_turn (at_monitor_stop is_deferred) p =
      if p.stop_closed
      then (panicked, p)
      else (at_monitor_wait is_deferred, record p { stop_closed = true })
  main_turn (at_monitor_wait is_deferred) p = (
    if p.monitor_returned
        then if is_deferred then exited else at_processor_stop
        else at_monitor_wait is_deferred,
    p,
  )
  main_turn at_processor_stop p =
      if p.done_closed
      then (panicked, p)
      else (if p.has_log then at_log_close else at_server_shutdown, record p { done_closed = true })
  main_turn at_log_close p = (
    at_server_shutdown,
    record p { service = record (p.service) { log = closed_log p.service.log } },
  )
  main_turn at_server_shutdown p = (if p.has_log then at_monitor_stop true else exited, p)
  main_turn exited p = (exited, p)
  main_turn panicked p = (panicked, p)

abbrev pub IsRunning : Main → Type 0
IsRunning exited = ⊥
IsRunning panicked = ⊥
IsRunning _ = Unit

module _ {F T : Type 0} ⦃f : Float F⦄ (config : BatchConfig F) (json : Json (WalRecord F T)) where
  -- The ticker starts a flush in the loop of `Start`.
  abbrev pub IsTick : {s s' : Service F T} → Turn config json s s' → Type 0
  IsTick (ticks _ _ _ _) = Unit
  IsTick _ = ⊥

  -- A step of the process, with the rows of the points that it has taken. `monitorLoop` returns
  -- between two checks, and then there are none; the loop of `Start` returns after its last flush
  -- has begun, and then there are no ticks.
  pub data Step
      : Main → Process F T → List (Row F T) → Main → Process F T → List (Row F T) → Type 0 where
    main_turns :
        {m : Main} {p : Process F T} {rows : List (Row F T)}
        → Step m p rows (main_turn m p).0 (main_turn m p).1 rows
    service_turns :
        {m : Main} {p : Process F T} {rows : List (Row F T)} {s' : Service F T}
        → IsRunning m
        → (turn : Turn config json p.service s')
        → (p.monitor_returned ≡ true → s'.monitor ≡ p.service.monitor)
        → (p.processor_returned ≡ true → ¬ (IsTick turn))
        → Step m p rows m (record p { service = s' }) rows
    accepts :
        {m : Main} {p : Process F T} {rows : List (Row F T)} (point : TelemetryPoint F T)
        → (buffer : List (TelemetryPoint F T)) (flushes : Bool) → IsRunning m
        → add config point p.service.buffer ≡ kept buffer flushes
        → Step m p rows m
            (record p {
              service = record (p.service) {
                buffer = buffer;
                flushes = with_flush flushes p.service.flushes;
              };
            })
            (row_of_point (marked config point) ∷ rows)
    monitor_returns :
        {m : Main} {p : Process F T} {rows : List (Row F T)}
        → IsRunning m
        → p.stop_closed ≡ true
        → p.service.monitor.place ≡ idle
        → Step m p rows m (record p { monitor_returned = true }) rows
    processor_returns :
        {m : Main} {p : Process F T} {rows : List (Row F T)} (before : List (Flush F T))
        → (last : Flush F T) → IsRunning m
        → p.done_closed ≡ true
        → p.processor_returned ≡ false
        → p.service.flushes ≡ before ++ last ∷ []
        → IsDone last
        → Step m p rows m
            (record p {
              service = record (p.service) { flushes = before ++ waiting ∷ [] };
              processor_returned = true;
            })
            rows

  -- What a process reaches from the signal.
  pub data Runs (start : Service F T) (rows : List (Row F T))
      : Main → Process F T → List (Row F T) → Type 0 where
    signalled : Runs start rows at_signal (process_of start) rows
    steps :
        {m m' : Main} {p p' : Process F T} {accepted accepted' : List (Row F T)}
        → Runs start rows m p accepted
        → Step m p accepted m' p' accepted'
        → Runs start rows m' p' accepted'
