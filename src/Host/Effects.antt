-- ===== src/Host/Effects.antt =====
-- What the host of lesson 1 asks of SurrealDB, its pool, the network and the runtime, and the actions
-- over the log of these calls.
--
-- `query_with` is a query with the payload that its parameter is decoded from; `metric` is a call of
-- `record_query`, less the latency. `World` is the outside: whether a call fails may depend on all calls before it. Text that is only
-- logged is left out.
use Prim.Native.String.{String}
use nexus_core_devops_engine.Base.{ℕ, Bool, ◌≡◌, refl, List, [], ◌∷◌, ◌++◌, Option, none, some}
use nexus_core_devops_engine.Base.Text.{Text}

pub record PoolConfig : Type 0 where
  pub url : String
  pub ns : String
  pub db : String
  pub max_size : ℕ
  pub min_idle : ℕ
  pub connection_timeout : ℕ
  pub idle_timeout : ℕ

pub data Call : Type 0 where
  spawn_metrics : ℕ → Call
  tcp_connect : Text → Call
  build_pool : PoolConfig → Call
  get_connection : String → Call
  query : String → Call
  query_with : Text → List ℕ → Call
  spawn_gauge : Call
  spawn_heartbeat : Call
  ctrl_c : Call
  sleep : ℕ → Call
  metric : String → String → Bool → Call
  bind : ℕ → Call
  http_serve : Call

-- The errors of the libraries, with `context`, a new error that quotes another, the text of
-- `format!("{err:#}")`, and the answers to the calls.
pub record World : Type 1 where
  pub Error : Type 0
  pub context : Text → Error → Error
  pub quoting : Text → Error → Error
  pub message : Error → List ℕ
  pub fails : List Call → Call → Option Error

pub data Result (E A : Type 0) : Type 0 where
  ok : A → Result E A
  err : E → Result E A

-- An action takes the calls made so far, and returns its result with all calls.
abbrev pub Action : Type 0 → Type 0 → Type 0
Action E A = List Call → Result E A × List Call

module _ {E A : Type 0} where
  abbrev pub pure : A → Action E A
  pure a log = (ok a, log)

  abbrev pub raise : E → Action E A
  raise e log = (err e, log)

  abbrev pub caught : Result E A × List Call → Result E (Result E A) × List Call
  caught (r, log) = (ok r, log)

  -- The result as a value: what a `match` on it sees.
  abbrev pub attempt : Action E A → Action E (Result E A)
  attempt m log = caught (m log)

  abbrev pub or_err : (E → E) → Result E A × List Call → Result E A × List Call
  or_err f (ok a, log) = (ok a, log)
  or_err f (err e, log) = (err (f e), log)

  abbrev pub map_err : (E → E) → Action E A → Action E A
  map_err f m log = or_err f (m log)

  abbrev pub continue :
      {B : Type 0} → (A → Action E B) → Result E A × List Call → Result E B × List Call
  continue f (ok a, log) = f a log
  continue f (err e, log) = (err e, log)

infixl 5 ◌>>=◌ ◌>>◌
abbrev pub ◌>>=◌ : {E A B : Type 0} → Action E A → (A → Action E B) → Action E B
◌>>=◌ m f log = continue f (m log)

abbrev pub ◌>>◌ : {E A B : Type 0} → Action E A → Action E B → Action E B
m >> k = m >>= λ _. k

pub continue_assoc :
    {E A B C : Type 0} (f : A → Action E B) (g : B → Action E C) (s : Result E A × List Call)
    → continue (λ a. f a >>= g) s ≡ continue g (continue f s)
continue_assoc f g (ok a, log) = refl
continue_assoc f g (err e, log) = refl

-- A call that cannot fail.
abbrev pub tell : {E : Type 0} → Call → Action E (Unit {0})
tell c log = (ok tt, log ++ c ∷ [])

module _ (w : World) where
  abbrev pub answer : Option w.Error → Result w.Error (Unit {0})
  answer none = ok tt
  answer (some e) = err e

  abbrev pub perform : Call → Action w.Error (Unit {0})
  perform c log = (answer (w.fails log c), log ++ c ∷ [])
