-- ===== src/Guest/Component.antt =====
-- lesson1/nexuscore-day1/guest-component/src/lib.rs: the dispatch of a tenant event to a query, the
-- response, and the packed return value of `run`.
--
-- CBOR and JSON are libraries: `Codec` is what the component uses of them. A formatted string is the
-- list of its pieces. `usize` has 32 bits, as on wasm32.
use text.Mathlib.Text.{◌==◌ as str_eq}
use Prim.Native.String.{String}
use nexus_core_devops_engine.Base.Text.{Text, lit, num}
use nexus_core_devops_engine.Base.{
  ℕ, ◌+◌, ◌*◌, ◌%◌, ◌^◌, List, [], ◌∷◌, length, Option, none, some, if◌then◌else◌, u64_mod,
}

pub record TenantEvent (Value : Type 0) : Type 0 where
  pub tenant_id : String
  pub operation : String
  pub payload : Value

-- The data of a response: the message of an error, or the query and its model (beside
-- them the source has a fixed note, which is left out).
pub data ResponseData (Message : Type 0) : Type 0 where
  message : Message → ResponseData Message
  query : Text → String → ResponseData Message

pub data Status : Type 0 where
  ok error : Status

pub record TenantResponse (Message : Type 0) : Type 0 where
  pub tenant_id : String
  pub status : Status
  pub body : ResponseData Message
  pub model : String

-- A failure of `process_event`: a message of the codec, or an operation that is not known.
pub data Failure (Error : Type 0) : Type 0 where
  decode_failed : Error → Failure Error
  unknown_operation : String → Failure Error
  encode_failed : Error → Failure Error

pub data Result (E A : Type 0) : Type 0 where
  success : A → Result E A
  failure : E → Result E A

-- The libraries: decoding an event, encoding a response, and looking up a member of a JSON object
-- as a string or as a u64.
pub record Codec : Type 1 where
  pub Value : Type 0
  pub Error : Type 0
  pub decode : List ℕ → Result Error (TenantEvent Value)
  pub encode : TenantResponse (Failure Error) → Result Error (List ℕ)
  pub as_str : Value → String → Option String
  pub as_u64 : Value → String → Option ℕ

abbrev pub unwrap_or {ℓ} : {A : Type ℓ} → A → Option A → A
unwrap_or d none = d
unwrap_or d (some a) = a

module _ (c : Codec) where
  open c use {Value, Error, decode, encode, as_str, as_u64}

  -- The query and its model, by the operation.
  unfoldable pub choose : TenantEvent Value → Result (Failure Error) (Text × String)
  choose event =
      let p = event.payload in
      let src = unwrap_or "user:alice" (as_str p "src") in
      let edge = unwrap_or "accessed" (as_str p "edge") in
      let tgt = unwrap_or "page:home" (as_str p "tgt") in
      if str_eq event.operation "select"
      then success (
        lit "SELECT * FROM "
            ∷ lit (unwrap_or "user" (as_str p "table"))
            ∷ lit " LIMIT "
            ∷ num (unwrap_or 10 (as_u64 p "limit"))
            ∷ lit ";"
            ∷ [],
        "relational",
      )
      else if str_eq event.operation "relate"
      then success (
        lit "RELATE "
            ∷ lit src
            ∷ lit "->"
            ∷ lit edge
            ∷ lit "->"
            ∷ lit tgt
            ∷ lit "; SELECT ->"
            ∷ lit edge
            ∷ lit "->* FROM "
            ∷ lit src
            ∷ lit ";"
            ∷ [],
        "graph",
      )
      else if str_eq event.operation "fulltext"
      then success (
        lit "SELECT * FROM user WHERE email @@ '"
            ∷ lit (unwrap_or "" (as_str p "term"))
            ∷ lit "';"
            ∷ [],
        "fulltext",
      )
      else if str_eq event.operation "live"
      then success (lit "LIVE SELECT * FROM user;" ∷ [], "cdc")
      else failure (unknown_operation event.operation)

  unfoldable pub answer :
      TenantEvent Value → Result (Failure Error) (Text × String) → Result (Failure Error) (List ℕ)
  answer event (failure e) = failure e
  answer event (success (surql, model)) =
      elim (encode (record {
        tenant_id = event.tenant_id;
        status = ok;
        body = query surql model;
        model = model;
      })) [ success bytes ↦ success bytes | failure e ↦ failure (encode_failed e) ]

  unfoldable pub process_event : List ℕ → Result (Failure Error) (List ℕ)
  unfolding choose answer
  process_event bytes = elim (decode bytes) [
    | success event ↦ answer event (choose event)
    | failure e ↦ failure (decode_failed e)
  ]

  -- The response of `run`; where even the error does not encode, it is empty.
  unfoldable pub response_bytes : List ℕ → List ℕ
  unfolding process_event
  response_bytes bytes = elim (process_event bytes) [
    | success b ↦ b
    | failure e ↦
        elim (encode
          (record { tenant_id = "unknown"; status = error; body = message e; model = "none" })) [
            | success b ↦ b
            | failure _ ↦ []
          ]
  ]

-- `(result_ptr << 32) | result_len`: the low half of the shifted pointer is zero.
unfoldable pub pack : ℕ → ℕ → ℕ
pack result_ptr result_len = (result_ptr * 2 ^ 32) % u64_mod + result_len

-- `run`: the address that the allocator gave to the response is an argument.
unfoldable pub run : Codec → ℕ → List ℕ → ℕ
unfolding pack response_bytes
run c result_ptr bytes = pack result_ptr (length (response_bytes c bytes))
