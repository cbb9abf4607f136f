-- ===== src/Host/Serves.antt =====
-- What the host does with a connection: the schema first, in order and up to its first error, and
-- only then the event loop.
use mathlib.Core.List.{append_assoc, append-nil}
use Prim.Native.String.{String}
use nexus_core_devops_engine.Base.{
  ℕ, suc, ◌<◌, ◌≡◌, refl, sym, ap, ◌∙◌, ◌⊎◌, inl, inr, List, [], ◌∷◌, ◌++◌, map, length, get_or,
  take, Option, none, some, Option-cases, arith,
}
use nexus_core_devops_engine.Base.Text.{Text}
use nexus_core_devops_engine.Host.Effects.{
  Call, spawn_metrics, query, spawn_gauge, spawn_heartbeat, World, Result, ok, err, ◌>>=◌, continue,
  continue_assoc,
}
use nexus_core_devops_engine.Host.Url.{Urls, normalize_surreal_url, surreal_tcp_target}
use nexus_core_devops_engine.Host.Pool.{pool_error}
use nexus_core_devops_engine.Host.Tenant.{run_event_loop}
use nexus_core_devops_engine.Host.Startup.{
  StartArgs, schema_statements, schema_error, run_statements, bootstrap_schema, first_pool, warmup,
  preflight, serve, run_host,
}
use nexus_core_devops_engine.Host.Connects.{
  logged, takes, taken_ok, taken_err, Connects, Grows, connection, connection_cases,
}

module _ (w : World) where
  open w use {Error, quoting, fails}

  -- Each statement is sent and none fails.
  abbrev pub AllSucceed : List String → List Call → Type 0
  AllSucceed [] log = Unit
  AllSucceed (s ∷ ss) log = (fails log (query s) ≡ none) × AllSucceed ss (logged log (query s))

  -- The statement number `k` failed, after the ones before it succeeded, and was the last that was sent.
  pub record StatementFailed (stmts : List String) (log : List Call)
      (result : Result Error (Unit {0}) × List Call) : Type 0 where
    pub k : ℕ
    pub within : k < length stmts
    pub error : Error
    pub earlier : AllSucceed (take k stmts) log
    pub failed : fails (log ++ map query (take k stmts)) (query (get_or stmts k "")) ≡ some error
    pub made : result ≡ (
      err (quoting (schema_error (get_or stmts k "")) error),
      log ++ map query (take (suc k) stmts),
    )

  pub run_statements_cases :
      (stmts : List String) (log : List Call)
      → (AllSucceed stmts log × (run_statements w stmts log ≡ (ok tt, log ++ map query stmts)))
        ⊎ StatementFailed stmts log (run_statements w stmts log)
  unfolding run_statements
  run_statements_cases [] log = inl (tt, ap (λ l. (ok tt, l)) (sym (append-nil log)))
  run_statements_cases (s ∷ ss) log = elim (Option-cases (fails log (query s))) [
    | inr (e, f) ↦ inr (record {
      k = 0;
      within = omega arith;
      error = e;
      earlier = tt;
      failed = rw append-nil f;
      made = rw f;
    })
    | inl f ↦ elim (run_statements_cases ss (logged log (query s))) [
      | inl (succeed, done) ↦ inl (
        (f, succeed),
        rw f (done ∙ ap (λ l. (ok tt, l)) (append_assoc log (query s ∷ []) (map query ss))),
      )
      | inr at ↦ inr (record {
        k = suc at.k;
        within = omega (arith, at.within);
        error = at.error;
        earlier = (f, at.earlier);
        failed = rw (sym (append_assoc log (query s ∷ []) (map query (take at.k ss)))) at.failed;
        made = rw f (
            at.made
            ∙ ap (λ l. (err (quoting (schema_error (get_or ss at.k "")) at.error), l))
                (append_assoc log (query s ∷ []) (map query (take (suc at.k) ss))));
      })
    ]
  ]

  -- The log when the schema is there.
  abbrev pub with_schema : String → List Call → List Call
  with_schema label log =
      logged (logged (logged log (takes label) ++ map query schema_statements) spawn_gauge)
        spawn_heartbeat

  -- What is served at an address, from the log of the connection: nothing without a connection for the
  -- schema, the statements up to the first that fails, or all of them, none failing, and then the event loop.
  pub data Serves (label : String) (log : List Call)
      : Result Error (Unit {0}) × List Call → Type 0 where
    no_connection :
        (e : Error)
        → fails log (takes label) ≡ some e
        → Serves label log (err (quoting pool_error e), logged log (takes label))
    schema_failed :
        {result : Result Error (Unit {0}) × List Call}
        → fails log (takes label) ≡ none
        → StatementFailed schema_statements (logged log (takes label)) result
        → Serves label log result
    served :
        fails log (takes label) ≡ none
        → AllSucceed schema_statements (logged log (takes label))
        → Serves label log (run_event_loop w label (with_schema label log))

  serve_cases :
      (args : StartArgs) (label : String) (log : List Call)
      → Serves label log (serve w args label log)
  unfolding serve bootstrap_schema
  serve_cases args label log = elim (Option-cases (fails log (takes label))) [
    | inr (e, f) ↦ rw (taken_err w label log f) (no_connection e f)
    | inl f ↦
        rw (taken_ok w label log f)
          (elim (run_statements_cases schema_statements (logged log (takes label))) [
            | inl (succeed, done) ↦ rw done (served f succeed)
            | inr at ↦ rw at.made (
                schema_failed f (record {
                  k = at.k;
                  within = at.within;
                  error = at.error;
                  earlier = at.earlier;
                  failed = at.failed;
                  made = refl;
                }))
          ])
  ]

  preflight_lem :
      (args : StartArgs) (target : Option Text) (log : List Call)
      → preflight w args target log ≡ (ok tt, (preflight w args target log).1)
  unfolding preflight
  preflight_lem args none log = refl
  preflight_lem args (some target) log = refl

  -- The calls before the pool: the dashboard, and the connection that only the log tells of.
  abbrev pub before_pool : StartArgs → Urls → List Call → List Call
  before_pool args u log =
      let url = normalize_surreal_url u args.surreal_url in
      (preflight w args (surreal_tcp_target u url) (logged log (spawn_metrics 9090))).1

  -- A start that fails after calls for a connection only, or that has got a connection in one of the
  -- three ways and serves at its address.
  pub data Starts (args : StartArgs) (url : String) (log : List Call)
      : Result Error (Unit {0}) × List Call → Type 0 where
    refused :
        (e : Error) {log' : List Call}
        → Grows w args url log log'
        → Starts args url log (err e, log')
    connected :
        (label : String) {log' : List Call} {result : Result Error (Unit {0}) × List Call}
        → Connects w args url log label log'
        → Serves label log' result
        → Starts args url log result

  -- In every world the start of the host fails after calls for a connection only, or it has got a
  -- connection, from the configured address or, after an error that looks like one of the name
  -- resolution or a time-out, from the embedded engine, and serves at that address: the schema in order
  -- up to its first error, and after all of it the event loop.
  pub run_host-Starts :
      (args : StartArgs) (u : Urls) (log : List Call)
      → Starts args
          (normalize_surreal_url u args.surreal_url)
          (before_pool args u log)
          (run_host w args u log)
  unfolding run_host
  run_host-Starts args u log =
      let url = normalize_surreal_url u args.surreal_url in
      let log₀ = before_pool args u log in
      let run : run_host w args u log ≡ continue (serve w args) (connection w args url log₀) =
        ap (continue (λ _. first_pool w args url >>= λ l. warmup w args l >>= serve w args))
          (preflight_lem args (surreal_tcp_target u url) (logged log (spawn_metrics 9090)))
        ∙ continue_assoc (warmup w args) (serve w args) (first_pool w args url log₀) in
      elim (connection_cases w args url log₀) [
        | inl (label, log', e, c) ↦
            rw (run ∙ ap (continue (serve w args)) e)
              (connected label c (serve_cases args label log'))
        | inr (e, log', q, g) ↦ rw (run ∙ ap (continue (serve w args)) q) (refused e g)
      ]
