-- ===== src/Ingest/Config/Pool.antt =====
-- go-service/db/connection.go. The package pgxpool is a parameter.
use mathlib.Core.Path.{subst}
use space_project.Base.{
  ℕ, ◌-◌, ◌%◌, ◌≡◌, ap, ◌∙◌, Bool, Option, none, some, if◌then◌else◌, ltb, arith, Bool-cases,
  Option-cases, inl, inr,
}
use space_project.Base.Int.{ℤ, pos, negsuc, ◌≤ℤ◌}
use space_project.Base.Text.{Text}
use space_project.Ingest.Batch.Backoff.{bits_of}

abbrev two_31 : ℕ
two_31 = 2_147_483_648

abbrev two_32 : ℕ
two_32 = 4_294_967_296

-- `int32(n)` of an `int`.
unfoldable pub int32 : ℤ → ℤ
int32 n =
    let bits = bits_of n % two_32 in
    if ltb bits two_31 then pos bits else negsuc (two_32 - bits - 1)

-- The fields that the code sets, on what `ParseConfig` gave. Durations are in nanoseconds.
pub record PoolConfig (C : Type 0) : Type 0 where
  pub parsed_config : C
  pub max_conns : ℤ
  pub min_conns : ℤ
  pub max_conn_lifetime : ℕ
  pub max_conn_idle_time : ℕ
  pub health_check_period : ℕ

pub record Pgx (C P : Type 0) : Type 0 where
  pub parse_config : Text → Option C
  pub new_with_config : PoolConfig C → Option P

-- An error, before there was a pool or with a pool that was closed again, or a pool.
pub data PoolResult (P : Type 0) : Type 0 where
  failed : PoolResult P
  closed_again connected : (pool : P) → PoolResult P

abbrev pub pool_config : {C : Type 0} → C → ℤ → PoolConfig C
pool_config parsed_config max_connections = record {
  parsed_config = parsed_config;
  max_conns = int32 max_connections;
  min_conns = pos 5;
  max_conn_lifetime = 3_600_000_000_000;
  max_conn_idle_time = 600_000_000_000;
  health_check_period = 60_000_000_000;
}

module _ {C P : Type 0} (pgx : Pgx C P) (ping : P → Bool) where
  unfoldable pub new_connection_pool : (db_url : Text) (max_connections : ℤ) → PoolResult P
  new_connection_pool db_url max_connections = elim (pgx.parse_config db_url) [
    | none ↦ failed
    | some parsed_config ↦ elim (pgx.new_with_config (pool_config parsed_config max_connections)) [
      | none ↦ failed
      | some pool ↦ if ping pool then connected pool else closed_again pool
    ]
  ]

-- A number that 32 bits hold is kept.
int32-exact : (n : ℤ) → n ≤ℤ pos 2_147_483_647 → negsuc 2_147_483_647 ≤ℤ n → int32 n ≡ n
unfolding int32
int32-exact (pos n) l l' = ground (arith, l, l')
int32-exact (negsuc n) l l' = ground (arith, l, l')

connected_made :
    {C P : Type 0} (pgx : Pgx C P) (ping : P → Bool) (db_url : Text) (n : ℤ) (pool : P)
    → new_connection_pool pgx ping db_url n ≡ connected pool
    → (c : C) × (pgx.new_with_config (pool_config c n) ≡ some pool)
unfolding new_connection_pool
connected_made pgx ping db_url n pool = elim (Option-cases (pgx.parse_config db_url)) [
  | inl e ↦ rw (e, new_connection_pool) (λ h. absurd cc)
  | inr (c, e) ↦ elim (Option-cases (pgx.new_with_config (pool_config c n))) [
    | inl e' ↦ rw (e, e', new_connection_pool) (λ h. absurd cc)
    | inr (p, e') ↦ elim (Bool-cases (ping p)) [
      | inl up ↦
          rw (e, e', up, new_connection_pool)
            (λ h. let same : p ≡ pool = cc in (c, e' ∙ ap some same))
      | inr down ↦ rw (e, e', down, new_connection_pool) (λ h. absurd cc)
    ]
  ]
]

-- Where pgxpool refuses a configuration with less than one connection, a pool that is connected was
-- asked for at least one, and for the configured number if 32 bits hold that.
connected-bounds :
    {C P : Type 0} (pgx : Pgx C P) (ping : P → Bool) (db_url : Text) (n : ℤ) (pool : P)
    → ((c : PoolConfig C) (p : P) → pgx.new_with_config c ≡ some p → pos 1 ≤ℤ c.max_conns)
    → new_connection_pool pgx ping db_url n ≡ connected pool
    → (pos 1 ≤ℤ int32 n) × (n ≤ℤ pos 2_147_483_647 → negsuc 2_147_483_647 ≤ℤ n → pos 1 ≤ℤ n)
connected-bounds pgx ping db_url n pool law e =
    let (c, made) = connected_made pgx ping db_url n pool e in
    let some_asked = law (pool_config c n) pool made in
    (some_asked, λ l l'. subst (λ k. pos 1 ≤ℤ k) (int32-exact n l l') some_asked)
