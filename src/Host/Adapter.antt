-- ===== src/Host/Adapter.antt =====
-- adapter.rs: the queries of the tenants over the one pool. Latencies and what is logged are left out.
use Prim.Native.String.{String}
use nexus_core_devops_engine.Base.{ℕ, true, List, [], ◌∷◌, Option, none, some}
use nexus_core_devops_engine.Base.Text.{Text, lit}
use nexus_core_devops_engine.Host.Effects.{
  Call, query, query_with, metric, World, Result, ok, Action, pure, map_err, ◌>>=◌, ◌>>◌, tell,
  perform,
}
use nexus_core_devops_engine.Host.Pool.{get}

-- The values of the database with their CBOR encoding; `first_answer` is `take(0)` on the response to
-- the last call of a log.
pub record Values (E : Type 0) : Type 1 where
  pub Value : Type 0
  pub none_value : Value
  pub empty_object : Value
  pub first_answer : List Call → Option Value
  pub encode : Value → Result E (List ℕ)
  pub decode : List ℕ → Result E Value

abbrev pub query_error : Text
query_error = lit "query error: " ∷ []

abbrev pub cbor_error : Text
cbor_error = lit "cbor error: " ∷ []

abbrev pub cbor_decode_error : Text
cbor_decode_error = lit "cbor decode: " ∷ []

abbrev pub relate_query : String → String → String → Text
relate_query src edge tgt =
    lit "RELATE " ∷ lit src ∷ lit "->" ∷ lit edge ∷ lit "->" ∷ lit tgt ∷ lit "  CONTENT $data;" ∷ []

module _ (w : World) (v : Values w.Error) where
  abbrev pub or_none : Option v.Value → v.Value
  or_none none = v.none_value
  or_none (some value) = value

  -- `take(0).unwrap_or_else(…)`
  abbrev pub taken : Action w.Error v.Value
  taken log = (ok (or_none (v.first_answer log)), log)

  abbrev pub encoded : v.Value → Action w.Error (List ℕ)
  encoded value log = (v.encode value, log)

  abbrev pub payload : List ℕ → Action w.Error v.Value
  payload [] = pure v.empty_object
  payload (b ∷ bs) = map_err (w.quoting cbor_decode_error) (λ log. (v.decode (b ∷ bs), log))

  -- The arguments `ns` and `db` are not used.
  unfoldable pub exec : String → String → String → String → String → Action w.Error (List ℕ)
  unfolding get
  exec url tenant_id ns db surql = do
    get w url
    map_err (w.quoting query_error) (perform w (query surql))
    value ← taken
    buf ← map_err (w.quoting cbor_error) (encoded value)
    tell (metric tenant_id "exec" true)
    pure buf

  unfoldable pub relate :
      String → String → String → String → String → List ℕ → Action w.Error (List ℕ)
  unfolding get
  relate url tenant_id src edge tgt bytes = do
    get w url
    data_val ← payload bytes
    perform w (query_with (relate_query src edge tgt) bytes)
    result ← taken
    encoded result
