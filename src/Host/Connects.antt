-- ===== src/Host/Connects.antt =====
-- How the host gets a connection: from the pool of its address or, after an error of the name
-- resolution, from the embedded engine, and in no other way.

use Prim.Native.String.{String}
use nexus_core_devops_engine.Base.{
  ◌≡◌, ◌⊎◌, inl, inr, true, List, [], ◌∷◌, ◌++◌, none, some, Option-cases, Bool-cases,
}
use nexus_core_devops_engine.Base.Text.{Text, starts_with}
use nexus_core_devops_engine.Host.Effects.{
  Call, build_pool, get_connection, World, Result, ok, err, Action, ◌>>=◌,
}
use nexus_core_devops_engine.Host.Pool.{pool_error, pool_config, new_pool, get}
use nexus_core_devops_engine.Host.Startup.{
  StartArgs, mem_url, pool_failed, fallback_failed, warmup_failed, fallback_warmup_failed,
  falls_back, new_pool_for, first_pool, first_pool_result, warmup, warmup_result,
}

abbrev pub logged : List Call → Call → List Call
logged log c = log ++ c ∷ []

-- The call that takes a connection from the pool at an address.
abbrev pub takes : String → Call
takes url = get_connection url

module _ (w : World) where
  open w use {Error, quoting, fails}

  pub taken_ok :
      (url : String) (log : List Call)
      → fails log (takes url) ≡ none
      → get w url log ≡ (ok tt, logged log (takes url))
  unfolding get
  taken_ok url log e = rw e

  pub taken_err :
      (url : String) (log : List Call) {e : Error}
      → fails log (takes url) ≡ some e
      → get w url log ≡ (err (quoting pool_error e), logged log (takes url))
  unfolding get
  taken_err url log e = rw e

module _ (w : World) (args : StartArgs) where
  open w use {Error, context, quoting, fails}

  -- The call that builds a pool at an address.
  abbrev pub builds : String → Call
  builds url = build_pool (pool_config url args.ns args.db args.pool_size)

  -- The three ways to a connection, from the log before to the log behind: the address in use and
  -- what was answered.
  pub data Connects (url : String) (log : List Call) : String → List Call → Type 0 where
    direct :
        fails log (builds url) ≡ none
        → fails (logged log (builds url)) (takes url) ≡ none
        → Connects url log url (logged (logged log (builds url)) (takes url))
    without_pool :
        (e : Error)
        → fails log (builds url) ≡ some e
        → falls_back w url (context (pool_failed url) e) ≡ true
        → fails (logged log (builds url)) (builds mem_url) ≡ none
        → fails (logged (logged log (builds url)) (builds mem_url)) (takes mem_url) ≡ none
        → Connects url log mem_url
            (logged (logged (logged log (builds url)) (builds mem_url)) (takes mem_url))
    without_connection :
        (e : Error)
        → fails log (builds url) ≡ none
        → fails (logged log (builds url)) (takes url) ≡ some e
        → falls_back w url (context warmup_failed (quoting pool_error e)) ≡ true
        → fails (logged (logged log (builds url)) (takes url)) (builds mem_url) ≡ none
        → fails
            (logged (logged (logged log (builds url)) (takes url)) (builds mem_url))
            (takes mem_url)
          ≡ none
        → Connects url log mem_url (
            logged
              (logged (logged (logged log (builds url)) (takes url)) (builds mem_url))
              (takes mem_url))

  -- A call for a connection at one of the two addresses.
  pub data IsConnection (url : String) : Call → Type 0 where
    built : IsConnection url (builds url)
    taken : IsConnection url (takes url)
    built_mem : IsConnection url (builds mem_url)
    taken_mem : IsConnection url (takes mem_url)

  abbrev pub connection : String → Action Error String
  connection url = first_pool w args url >>= warmup w args

  -- A log that grew by calls for a connection only.
  pub data Grows (url : String) (log : List Call) : List Call → Type 0 where
    same : Grows url log log
    more :
        {log' : List Call} {c : Call}
        → Grows url log log'
        → IsConnection url c
        → Grows url log (logged log' c)

  built_ok :
      (text : Text) (url : String) (log : List Call)
      → fails log (builds url) ≡ none
      → new_pool_for w args text url log ≡ (ok tt, logged log (builds url))
  unfolding new_pool_for new_pool
  built_ok text url log e = rw e

  built_err :
      (text : Text) (url : String) (log : List Call) {e : Error}
      → fails log (builds url) ≡ some e
      → new_pool_for w args text url log ≡ (err (context text e), logged log (builds url))
  unfolding new_pool_for new_pool
  built_err text url log e = rw e

  abbrev pub Outcome : String → List Call → Result Error String × List Call → Type 0
  Outcome url log result =
      ((label : String) × (log' : List Call) × (result ≡ (ok label, log'))
        × Connects url log label log')
      ⊎ ((e : Error) × (log' : List Call) × (result ≡ (err e, log')) × Grows url log log')

  -- The first pool is there: its connection, or the second chance.
  warmup_cases :
      (url : String) (log : List Call)
      → fails log (builds url) ≡ none
      → Outcome url log (warmup w args url (logged log (builds url)))
  unfolding warmup warmup_result
  warmup_cases url log b =
      let log₁ = logged log (builds url) in
      let log₂ = logged log₁ (takes url) in
      let log₃ = logged log₂ (builds mem_url) in
      let log₄ = logged log₃ (takes mem_url) in
      let grown : Grows url log log₂ = more (more same built) taken in
      elim (Option-cases (fails log₁ (takes url))) [
        | inl t ↦ inl (url, log₂, rw (taken_ok w url log₁ t), direct b t)
        | inr (e, t) ↦
            let e' = context warmup_failed (quoting pool_error e) in
            elim (Bool-cases (falls_back w url e')) [
              | inr no_chance ↦ inr (e', log₂, rw (taken_err w url log₁ t, no_chance), grown)
              | inl chance ↦ elim (Option-cases (fails log₂ (builds mem_url))) [
                | inr (e₂, b₂) ↦ inr (
                  context fallback_failed e₂,
                  log₃,
                  rw (taken_err w url log₁ t, chance, built_err fallback_failed mem_url log₂ b₂),
                  more grown built_mem,
                )
                | inl b₂ ↦ elim (Option-cases (fails log₃ (takes mem_url))) [
                  | inr (e₃, t₃) ↦ inr (
                    context fallback_warmup_failed (quoting pool_error e₃),
                    log₄,
                    rw (
                      taken_err w url log₁ t,
                      chance,
                      built_ok fallback_failed mem_url log₂ b₂,
                      taken_err w mem_url log₃ t₃,
                    ),
                    more (more grown built_mem) taken_mem,
                  )
                  | inl t₃ ↦ inl (
                    mem_url,
                    log₄,
                    rw (
                      taken_err w url log₁ t,
                      chance,
                      built_ok fallback_failed mem_url log₂ b₂,
                      taken_ok w mem_url log₃ t₃,
                    ),
                    without_connection e b t chance b₂ t₃,
                  )
                ]
              ]
            ]
      ]

  -- The first pool failed and the embedded one is there: its connection, without a second chance.
  warmup_mem_cases :
      (url : String) (log : List Call) {e : Error}
      → fails log (builds url) ≡ some e
      → falls_back w url (context (pool_failed url) e) ≡ true
      → let log₁ = logged log (builds url) in
        fails log₁ (builds mem_url) ≡ none
        → Outcome url log (warmup w args mem_url (logged log₁ (builds mem_url)))
  unfolding warmup warmup_result falls_back starts_with
  warmup_mem_cases url log {e} b chance b₂ =
      let log₂ = logged (logged log (builds url)) (builds mem_url) in
      elim (Option-cases (fails log₂ (takes mem_url))) [
        | inl t ↦ inl (
          mem_url,
          logged log₂ (takes mem_url),
          rw (taken_ok w mem_url log₂ t),
          without_pool e b chance b₂ t,
        )
        | inr (e', t) ↦ inr (
          context warmup_failed (quoting pool_error e'),
          logged log₂ (takes mem_url),
          rw (taken_err w mem_url log₂ t),
          more (more (more same built) built_mem) taken_mem,
        )
      ]

  -- Every attempt at a connection ends with one of the three ways to one, or fails after calls for a
  -- connection only.
  pub connection_cases : (url : String) (log : List Call) → Outcome url log (connection url log)
  unfolding first_pool first_pool_result
  connection_cases url log = elim (Option-cases (fails log (builds url))) [
    | inl b ↦ rw (built_ok (pool_failed url) url log b) (warmup_cases url log b)
    | inr (e, b) ↦
        let log₁ = logged log (builds url) in
        let e' = context (pool_failed url) e in
        elim (Bool-cases (falls_back w url e')) [
          | inr no_chance ↦
              inr (e', log₁, rw (built_err (pool_failed url) url log b, no_chance), more same built)
          | inl chance ↦ elim (Option-cases (fails log₁ (builds mem_url))) [
            | inr (e₂, b₂) ↦ inr (
              context fallback_failed e₂,
              logged log₁ (builds mem_url),
              rw (
                built_err (pool_failed url) url log b,
                chance,
                built_err fallback_failed mem_url log₁ b₂,
              ),
              more (more same built) built_mem,
            )
            | inl b₂ ↦
                rw
                  (
                    built_err (pool_failed url) url log b,
                    chance,
                    built_ok fallback_failed mem_url log₁ b₂,
                  )
                  (warmup_mem_cases url log b chance b₂)
          ]
        ]
  ]
