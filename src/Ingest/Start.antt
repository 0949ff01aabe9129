-- ===== src/Ingest/Start.antt =====
-- go-service/main.go up to the server: from the environment to the service that takes requests.
use space_project.Base.{
  ℕ, ◌≡◌, sym, ap, ◌∙◌, Bool, Bool-cases, Option, none, some, [], Option-cases, inl, inr, false,
  ◌∷◌,
}
use space_project.Ingest.Wal.{Wal}
use space_project.Ingest.Batch.Flush.{finished}
use space_project.Ingest.Monitor.{idle}
use space_project.Ingest.Config.{
  is_bad_capacity, is_positive, Config, Setup, start_processor, batch_setup,
}
use space_project.Ingest.Config.Pool.{
  Pgx, PoolResult, failed, closed_again, connected, new_connection_pool,
}
use space_project.Ingest.System.{Service}

-- How `main` comes to its server: with `log.Fatalf`, with a panic, or with a service.
data Began (F T : Type 0) : Type 0 where
  fatal panicked : Began F T
  serving : (setup : Setup F) (service : Service F T) → Began F T

start_processor-some :
    {F : Type 0} (max_capacity : ℕ) (config : Config F) (setup : Setup F)
    → start_processor max_capacity config ≡ some setup
    → setup ≡ batch_setup config
unfolding start_processor
start_processor-some max_capacity config setup =
    elim (Bool-cases (is_bad_capacity max_capacity config.batch_size)) [
      | inl e ↦ rw (e, start_processor) (λ h. absurd cc)
      | inr e ↦ elim (Bool-cases (is_positive config.batch_timeout)) [
        | inl e' ↦ rw (e, e', start_processor) (λ h. cc)
        | inr e' ↦ rw (e, e', start_processor) (λ h. absurd cc)
      ]
    ]

module _ {F T : Type 0} where
  -- The service, with a log if `NewWAL` made one.
  abbrev service_of : Option Wal → Setup F → Service F T
  service_of wal setup = record {
    buffer = [];
    flushes = finished ∷ [];
    breaker = some setup.circuit_breaker;
    log = wal;
    monitor = record { is_healthy = false; place = idle };
    database = [];
  }

  abbrev serves : Option Wal → Option (Setup F) → Began F T
  serves wal none = panicked
  serves wal (some setup) = serving setup (service_of wal setup)

  abbrev serves_on :
      {P : Type 0} → (max_capacity : ℕ) → Option Wal → Config F → PoolResult P → Began F T
  serves_on max_capacity wal config failed = fatal
  serves_on max_capacity wal config (closed_again pool) = fatal
  serves_on max_capacity wal config (connected pool) =
      serves wal (start_processor max_capacity config)

  unfoldable begin_service :
      {C P : Type 0}
      → Pgx C P
      → (ping : P → Bool) → (max_capacity : ℕ) → Option Wal
      → Config F
      → Began F T
  begin_service pgx ping max_capacity wal config =
      serves_on max_capacity wal config
        (new_connection_pool pgx ping config.db_url config.max_connections)

  serves-setup :
      (max_capacity : ℕ) (wal : Option Wal) (config : Config F) (setup : Setup F)
      (service : Service F T)
      → serves wal (start_processor max_capacity config) ≡ serving setup service
      → (setup ≡ batch_setup config) × (service ≡ service_of wal setup)
  serves-setup max_capacity wal config setup service =
      elim (Option-cases (start_processor max_capacity config)) [
        | inl e ↦ rw (e, serves) (λ h. absurd cc)
        | inr (some_setup, e) ↦
            rw (e, serves)
              (λ h.
                let same : some_setup ≡ setup = cc in
                let same' : service_of wal some_setup ≡ service = cc in
                (
                  sym same ∙ start_processor-some max_capacity config some_setup e,
                  sym same' ∙ ap (service_of wal) same,
                ))
      ]

  serves_on-setup :
      {P : Type 0} (pool : PoolResult P) (max_capacity : ℕ) (wal : Option Wal) (config : Config F)
      (setup : Setup F)
      → (service : Service F T) → serves_on max_capacity wal config pool ≡ serving setup service
      → (setup ≡ batch_setup config) × (service ≡ service_of wal setup)
  serves_on-setup failed max_capacity wal config setup service e = absurd cc
  serves_on-setup (closed_again pool) max_capacity wal config setup service e = absurd cc
  serves_on-setup (connected pool) max_capacity wal config setup service e =
      serves-setup max_capacity wal config setup service e

  -- The service that `main` begins has the settings of its configuration, an empty buffer and no
  -- flush.
  begin_service_lem :
      {C P : Type 0} (pgx : Pgx C P) (ping : P → Bool) (max_capacity : ℕ) (wal : Option Wal)
      (config : Config F)
      → (setup : Setup F) (service : Service F T)
      → begin_service pgx ping max_capacity wal config ≡ serving setup service
      → (setup ≡ batch_setup config) × (service ≡ service_of wal setup)
  unfolding begin_service
  begin_service_lem pgx ping max_capacity wal config setup service e =
      serves_on-setup (new_connection_pool pgx ping config.db_url config.max_connections)
        max_capacity wal config setup service e
