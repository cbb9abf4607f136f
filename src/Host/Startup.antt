-- ===== src/Host/Startup.antt =====
-- main.rs: `run_host`, from the address to the event loop, and the `start` command.
use Prim.Native.String.{String}
use nexus_core_devops_engine.Base.{ℕ, Bool, ◌&&◌, if◌then◌else◌, List, [], ◌∷◌, Option, none, some}
use nexus_core_devops_engine.Base.Text.{Text, lit, codes, starts_with}
use nexus_core_devops_engine.Host.Effects.{
  spawn_metrics, tcp_connect, query, spawn_gauge, spawn_heartbeat, sleep, World, Result, ok, err,
  Action, pure, raise, attempt, map_err, ◌>>=◌, ◌>>◌, tell, perform,
}
use nexus_core_devops_engine.Host.Pool.{new_pool, get}
use nexus_core_devops_engine.Host.Url.{
  Urls, normalize_surreal_url, surreal_tcp_target, should_fallback_to_mem,
}
use nexus_core_devops_engine.Host.Tenant.{run_event_loop}

pub record StartArgs : Type 0 where
  pub surreal_url : String
  pub ns : String
  pub db : String
  pub pool_size : ℕ

abbrev pub mem_url : String
mem_url = "mem://"

abbrev pub schema_statements : List String
schema_statements =
    "DEFINE TABLE IF NOT EXISTS tenant SCHEMAFULL;"
    ∷ "DEFINE FIELD IF NOT EXISTS name ON tenant TYPE string;"
    ∷ "DEFINE FIELD IF NOT EXISTS plan ON tenant TYPE string;"
    ∷ "DEFINE FIELD IF NOT EXISTS created_at ON tenant TYPE datetime DEFAULT time::now();"
    ∷ "DEFINE TABLE IF NOT EXISTS user SCHEMAFULL;"
    ∷ "DEFINE FIELD IF NOT EXISTS email ON user TYPE string;"
    ∷ "DEFINE FIELD IF NOT EXISTS tenant_id ON user TYPE record<tenant>;"
    ∷ "DEFINE INDEX IF NOT EXISTS user_email ON user FIELDS email UNIQUE;"
    ∷ "DEFINE TABLE IF NOT EXISTS accessed SCHEMALESS TYPE RELATION;"
    ∷ "DEFINE TABLE IF NOT EXISTS purchased SCHEMALESS TYPE RELATION;"
    ∷ "DEFINE ANALYZER IF NOT EXISTS full_text TOKENIZERS class FILTERS ascii, lowercase, snowball(english);"
    ∷ "DEFINE INDEX IF NOT EXISTS user_email_search ON user FIELDS email SEARCH ANALYZER full_text BM25;"
    ∷ []

-- The texts that are put before an error.
abbrev pub pool_failed : String → Text
pool_failed url = lit "Failed to initialize SurrealDB connection pool — url=" ∷ lit url ∷ []

abbrev pub fallback_failed : Text
fallback_failed = lit "Fallback to embedded mem:// SurrealDB failed" ∷ []

abbrev pub warmup_failed : Text
warmup_failed = lit "SurrealDB warmup connection failed" ∷ []

abbrev pub fallback_warmup_failed : Text
fallback_warmup_failed = lit "SurrealDB warmup failed even after mem:// fallback" ∷ []

abbrev pub schema_error : String → Text
schema_error stmt = lit "Schema error on '" ∷ lit stmt ∷ lit "': " ∷ []

module _ (w : World) where
  open w use {Error, context, quoting, message}

  -- The loop over the statements; the first error ends it.
  unfoldable pub run_statements : List String → Action Error (Unit {0})
  run_statements [] = pure tt
  run_statements (stmt ∷ stmts) = do
    map_err (quoting (schema_error stmt)) (perform w (query stmt))
    run_statements stmts

  unfoldable pub bootstrap_schema : String → Action Error (Unit {0})
  bootstrap_schema url = do get w url; run_statements schema_statements

  -- The test of both fallbacks.
  unfoldable pub falls_back : String → Error → Bool
  falls_back url e = starts_with (codes url) (codes "ws://") && should_fallback_to_mem (message e)

  module _ (args : StartArgs) where
    open args use {ns, db, pool_size}

    -- `ConnectionPool::new` with the context of its error.
    unfoldable pub new_pool_for : Text → String → Action Error (Unit {0})
    new_pool_for text url = map_err (context text) (new_pool w url ns db pool_size)

    -- The first pool, or the embedded one; the result is the address in use.
    unfoldable pub first_pool_result : String → Result Error (Unit {0}) → Action Error String
    unfolding new_pool_for falls_back
    first_pool_result url (ok _) = pure url
    first_pool_result url (err e) =
        if falls_back url e
        then (do new_pool_for fallback_failed mem_url; pure mem_url)
        else raise e

    unfoldable pub first_pool : String → Action Error String
    unfolding first_pool_result
    first_pool url = do r ← attempt (new_pool_for (pool_failed url) url); first_pool_result url r

    -- The connection that is forced at once, with the second chance to fall back.
    unfoldable pub warmup_result : String → Result Error (Unit {0}) → Action Error String
    unfolding new_pool_for falls_back
    warmup_result label (ok _) = pure label
    warmup_result label (err e0) =
        let e = context warmup_failed e0 in
        if falls_back label e
        then (do
          new_pool_for fallback_failed mem_url
          map_err (context fallback_warmup_failed) (get w mem_url)
          pure mem_url)
        else raise e

    unfoldable pub warmup : String → Action Error String
    unfolding warmup_result
    warmup label = do r ← attempt (get w label); warmup_result label r

    -- The connection that only the log tells of.
    unfoldable pub preflight : Option Text → Action Error (Unit {0})
    preflight none = pure tt
    preflight (some target) = do attempt (perform w (tcp_connect target)); pure tt

    -- `run_host` once it has an address that answers.
    unfoldable pub serve : String → Action Error (Unit {0})
    serve label = do
      bootstrap_schema label
      tell spawn_gauge
      tell spawn_heartbeat
      run_event_loop w label

    unfoldable pub run_host : Urls → Action Error (Unit {0})
    run_host u =
        let url = normalize_surreal_url u args.surreal_url in
        do
          tell (spawn_metrics 9090)
          preflight (surreal_tcp_target u url)
          label ← first_pool url
          label' ← warmup label
          serve label'

    -- `Command::Start`: after a failure the dashboard stays up for ten minutes.
    unfoldable pub start_result : Result Error (Unit {0}) → Action Error (Unit {0})
    start_result (ok _) = pure tt
    start_result (err e) = do tell (sleep 600); raise e

    unfoldable pub start : Urls → Action Error (Unit {0})
    start u = do r ← attempt (run_host u); start_result r
