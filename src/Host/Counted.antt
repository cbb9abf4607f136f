-- ===== src/Host/Counted.antt =====
-- What the counters of the metrics say of the queries of the adapter.
use Prim.Native.String.{String}
use text.Mathlib.Text.{◌==◌ as str_eq}
use nexus_core_devops_engine.Base.{
  ℕ, ◌+◌, ◌≡◌, refl, ap, ◌∙◌, Bool, true, false, List, [], ◌∷◌, ◌++◌, arith,
}
use nexus_core_devops_engine.Host.Effects.{
  Call, metric, query, query_with, get_connection, World, Result, ok, err, Action, continue, or_err,
  map_err, perform,
}
use nexus_core_devops_engine.Host.Pool.{get, pool_error}
use nexus_core_devops_engine.Host.Adapter.{
  Values, exec, relate, payload, or_none, encoded, cbor_decode_error, query_error, cbor_error,
  relate_query,
}

-- What a tenant asks of the adapter.
pub data Request : Type 0 where
  exec_query : String → String → String → String → Request
  relate_nodes : String → String → String → String → List ℕ → Request

abbrev one_if : Bool → ℕ
one_if true = 1
one_if false = 0

-- What a call adds to the counter of a tenant and a status, over all operations.
abbrev counts : String → Call → Bool → ℕ
counts who (metric tenant op true) true = one_if (str_eq tenant who)
counts who (metric tenant op false) false = one_if (str_eq tenant who)
counts who call status = 0

abbrev pub recorded : String → Bool → List Call → ℕ
recorded who status [] = 0
recorded who status (c ∷ cs) = counts who c status + recorded who status cs

recorded-append :
    (who : String) (status : Bool) (cs ds : List Call)
    → recorded who status (cs ++ ds) ≡ recorded who status cs + recorded who status ds
recorded-append who status [] ds = omega arith
recorded-append who status (c ∷ cs) ds = omega (arith, recorded-append who status cs ds)

-- An action that records nothing before the rest.
quiet_then :
    {E A B : Type 0} (who : String) (status : Bool) (log : List Call) (s : Result E A × List Call)
    (f : A → Action E B) (k : Result E B → ℕ)
    → ((e : E) → k (err e) ≡ 0)
    → recorded who status s.1 ≡ recorded who status log
    → ((a : A) (log' : List Call)
        → recorded who status (f a log').1 ≡ recorded who status log' + k (f a log').0)
    → recorded who status (continue f s).1 ≡ recorded who status log + k (continue f s).0
quiet_then who status log (ok a, log') f k none_of same rest = omega (arith, rest a log', same)
quiet_then who status log (err e, log') f k none_of same rest = omega (arith, none_of e, same)

or_err_log : {E A : Type 0} (f : E → E) (s : Result E A × List Call) → (or_err f s).1 ≡ s.1
or_err_log f (ok a, log) = refl
or_err_log f (err e, log) = refl

module _ (w : World) (v : Values w.Error) where
  abbrev serve_request : String → Request → Action w.Error (List ℕ)
  serve_request url (exec_query tenant ns db surql) = exec w v url tenant ns db surql
  serve_request url (relate_nodes tenant src edge tgt bytes) =
      relate w v url tenant src edge tgt bytes

  -- A call of `exec` for the tenant that returns bytes.
  abbrev is_answered : String → Request → Result w.Error (List ℕ) → ℕ
  is_answered who (exec_query tenant ns db surql) (ok bytes) = one_if (str_eq tenant who)
  is_answered who request result = 0

  -- The requests one after the other, with all calls.
  abbrev pub serve_all : String → List Request → List Call → List Call
  serve_all url [] log = log
  serve_all url (r ∷ rs) log = serve_all url rs (serve_request url r log).1

  -- How many calls of `exec` for a tenant return bytes.
  abbrev pub answered : String → String → List Request → List Call → ℕ
  answered who url [] log = 0
  answered who url (r ∷ rs) log =
      let (result, log') = serve_request url r log in
      is_answered who r result + answered who url rs log'

  -- How many of these a counter of the status takes up.
  abbrev share : String → Bool → Request → Result w.Error (List ℕ) → ℕ
  share who true request result = is_answered who request result
  share who false request result = 0

  share-err :
      (who : String) (status : Bool) (r : Request) (e : w.Error) → share who status r (err e) ≡ 0
  share-err who true (exec_query tenant ns db surql) e = refl
  share-err who true (relate_nodes tenant src edge tgt bytes) e = refl
  share-err who false r e = refl

  quiet_call :
      (who : String) (status : Bool) (f : w.Error → w.Error) (c : Call) (log : List Call)
      → counts who c status ≡ 0
      → recorded who status (map_err f (perform w c) log).1 ≡ recorded who status log
  quiet_call who status f c log quiet =
      ap (recorded who status) (or_err_log f (perform w c log))
      ∙ omega (arith, recorded-append who status log (c ∷ []), quiet)

  get_quiet :
      (who : String) (status : Bool) (url : String) (log : List Call)
      → recorded who status (get w url log).1 ≡ recorded who status log
  unfolding get
  get_quiet who status url log =
      quiet_call who status (w.quoting pool_error) (get_connection url) log refl

  payload_quiet :
      (who : String) (status : Bool) (bytes : List ℕ) (log : List Call)
      → recorded who status (payload w v bytes log).1 ≡ recorded who status log
  payload_quiet who status [] log = refl
  payload_quiet who status (b ∷ bs) log =
      ap (recorded who status) (or_err_log (w.quoting cbor_decode_error) (v.decode (b ∷ bs), log))

  metric_counted :
      (who : String) (status : Bool) (tenant ns db surql : String) (bytes : List ℕ)
      → counts who (metric tenant "exec" true) status
        ≡ share who status (exec_query tenant ns db surql) (ok bytes)
  metric_counted who true tenant ns db surql bytes = refl
  metric_counted who false tenant ns db surql bytes = refl

  exec_counted :
      (who : String) (status : Bool) (url tenant ns db surql : String) (log : List Call)
      → recorded who status (exec w v url tenant ns db surql log).1
        ≡ recorded who status log
          + share who status (exec_query tenant ns db surql) (exec w v url tenant ns db surql log).0
  unfolding exec
  exec_counted who status url tenant ns db surql log =
      let k = share who status (exec_query tenant ns db surql) in
      let no = share-err who status (exec_query tenant ns db surql) in
      let quote = w.quoting cbor_error in
      quiet_then who status log (get w url log) _ k no (get_quiet who status url log) (λ _ log'.
        quiet_then who status log' (map_err (w.quoting query_error) (perform w (query surql)) log')
          _ k no (quiet_call who status (w.quoting query_error) (query surql) log' refl)
          (λ _ log''.
            let value = or_none w v (v.first_answer log'') in
            quiet_then who status log'' (map_err quote (encoded w v value) log'') _ k no
              (ap (recorded who status) (or_err_log quote (v.encode value, log'')))
              (λ buf log3. omega (
                arith,
                recorded-append who status log3 (metric tenant "exec" true ∷ []),
                metric_counted who status tenant ns db surql buf,
              ))))

  relate_counted :
      (who : String) (status : Bool) (url tenant src edge tgt : String) (bytes : List ℕ)
      (log : List Call)
      → recorded who status (relate w v url tenant src edge tgt bytes log).1
        ≡ recorded who status log + 0
  unfolding relate
  relate_counted who status url tenant src edge tgt bytes log =
      quiet_then who status log (get w url log) _ (λ r. 0) (λ e. refl)
        (get_quiet who status url log)
        (λ _ log'.
          quiet_then who status log' (payload w v bytes log') _ (λ r. 0) (λ e. refl)
            (payload_quiet who status bytes log')
            (λ value log''.
              quiet_then who status log''
                (perform w (query_with (relate_query src edge tgt) bytes) log'') _ (λ r. 0)
                (λ e. refl)
                (omega (
                  arith,
                  recorded-append who status log''
                      (query_with (relate_query src edge tgt) bytes ∷ []),
                ))
                (λ _ log3. omega arith)))

  share-relate :
      (who : String) (status : Bool) (tenant src edge tgt : String) (bytes : List ℕ)
      (result : Result w.Error (List ℕ))
      → share who status (relate_nodes tenant src edge tgt bytes) result ≡ 0
  share-relate who true tenant src edge tgt bytes result = refl
  share-relate who false tenant src edge tgt bytes result = refl

  request_counted :
      (who : String) (status : Bool) (url : String) (r : Request) (log : List Call)
      → recorded who status (serve_request url r log).1
        ≡ recorded who status log + share who status r (serve_request url r log).0
  request_counted who status url (exec_query tenant ns db surql) log =
      exec_counted who status url tenant ns db surql log
  request_counted who status url (relate_nodes tenant src edge tgt bytes) log = omega (
    arith,
    relate_counted who status url tenant src edge tgt bytes log,
    share-relate who status tenant src edge tgt bytes
        (relate w v url tenant src edge tgt bytes log).0,
  )

  -- In every world and for every sequence of requests to the adapter, the successes that are recorded
  -- for a tenant grow by the number of its calls of `exec` that return bytes, and no failure is recorded: a
  -- call of `exec` that returns an error, and every relate, leaves no trace in the metrics. (A statement
  -- whose own answer is an error is among the successes: `exec` returns the bytes of a null for it.)
  pub serve_all-counts :
      (who url : String) (rs : List Request) (log : List Call)
      → (recorded who true (serve_all url rs log) ≡ recorded who true log + answered who url rs log)
        × (recorded who false (serve_all url rs log) ≡ recorded who false log)
  serve_all-counts who url [] log = (omega arith, refl)
  serve_all-counts who url (r ∷ rs) log =
      let log' = (serve_request url r log).1 in
      let (answers, failures) = serve_all-counts who url rs log' in
      (
        omega (arith, answers, request_counted who true url r log),
        omega (arith, failures, request_counted who false url r log),
      )
