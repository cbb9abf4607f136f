-- ===== src/Tenant/Component.antt =====
-- lib.rs of the wasi-component: the schema and the counters are static variables of the component,
-- here the record `Component`, which each exported function takes and returns.
--
-- A byte is a number below 256. The raw descriptor is packed, and is read in the little-endian
-- order of Wasm. A `FieldValue` of type f64 keeps the 64 bits that were read. A function that
-- indexes one of the 64-element arrays out of range panics: `none`.
use nexus_core_devops_engine.Base.{
  ℕ, zero, suc, ◌+◌, ◌%◌, Bool, List, [], ◌∷◌, Option, none, some, length, get_or, take, drop,
  slice, replicate, ltb, leb, ◌==◌, not, if◌then◌else◌, u64_mod, from_le, from_be, words,
}
use nexus_core_devops_engine.Tenant.Utf8.{from_utf8}

pub record RawSchemaDescriptor : Type 0 where
  pub version : ℕ
  pub field_count : ℕ
  pub field_offsets : List ℕ
  pub field_types : List ℕ

pub record Component : Type 0 where
  pub schema : RawSchemaDescriptor
  pub processed : ℕ
  pub errors : ℕ
  pub schema_updates : ℕ

pub data SchemaResult : Type 0 where
  ok stale_update invalid_descriptor : SchemaResult

pub data FieldValue : Type 0 where
  u64_val : ℕ → FieldValue
  f64_val : ℕ → FieldValue
  bytes_val : List ℕ → FieldValue
  str_val : List ℕ → FieldValue
  unknown : FieldValue

abbrev pub max_fields : ℕ
max_fields = 64

-- `size_of::<RawSchemaDescriptor>()`: 8 + 2 + 64 * 2 + 64 bytes.
abbrev pub descriptor_size : ℕ
descriptor_size = 202

abbrev pub initial : Component
initial = record {
  schema = record {
    version = 0;
    field_count = 0;
    field_offsets = replicate max_fields 0;
    field_types = replicate max_fields 0;
  };
  processed = 0;
  errors = 0;
  schema_updates = 0;
}

unfoldable pub read_unaligned : List ℕ → RawSchemaDescriptor
read_unaligned raw = record {
  version = from_le (take 8 raw);
  field_count = from_le (take 2 (drop 8 raw));
  field_offsets = words 2 max_fields (drop 10 raw);
  field_types = take max_fields (drop 138 raw);
}

unfoldable pub apply_schema_update : List ℕ → Component → Component × SchemaResult
apply_schema_update raw c =
    let new_schema = read_unaligned raw in
    if ltb (length raw) descriptor_size
    then (c, invalid_descriptor)
    else if leb new_schema.version c.schema.version
    then (c, stale_update)
    else (record c { schema = new_schema; schema_updates = (c.schema_updates + 1) % u64_mod }, ok)

-- The two length bytes of the field types 2 and 3, and the payload behind them.
unfoldable pub payload_length : List ℕ → ℕ → ℕ
payload_length frame offset = from_be (slice frame offset (offset + 2))

abbrev pub payload : List ℕ → ℕ → List ℕ
payload frame offset = slice frame (offset + 2) (offset + 2 + payload_length frame offset)

-- The payload ends within the frame.
abbrev payload_fits : List ℕ → ℕ → Bool
payload_fits frame offset = leb (offset + 2 + payload_length frame offset) (length frame)

-- One round of the loop: `match ftype`, with its guards.
unfoldable pub field_value : List ℕ → ℕ → ℕ → FieldValue
field_value frame offset ftype =
    if ftype == 0
    then (if leb (offset + 8) (length frame)
        then u64_val (from_be (slice frame offset (offset + 8)))
        else unknown)
    else if ftype == 1
    then (if leb (offset + 8) (length frame)
        then f64_val (from_be (slice frame offset (offset + 8)))
        else unknown)
    else if ftype == 2
    then (if leb (offset + 2) (length frame)
        then (if payload_fits frame offset then bytes_val (payload frame offset) else unknown)
        else unknown)
    else if ftype == 3
    then (if leb (offset + 2) (length frame)
        then (if payload_fits frame offset
            then (if from_utf8 (payload frame offset)
                then str_val (payload frame offset)
                else unknown)
            else unknown)
        else unknown)
    else unknown

-- `for i in 0..field_count`, with `rounds` fields left.
unfoldable pub fields_from : RawSchemaDescriptor → List ℕ → ℕ → ℕ → Option (List FieldValue)
fields_from schema frame zero i = some []
fields_from schema frame (suc rounds) i =
    let rest = fields_from schema frame rounds (i + 1) in
    let value =
      field_value frame (get_or schema.field_offsets i 0) (get_or schema.field_types i 0) in
    if ltb i max_fields
    then elim rest [ none ↦ none | some values ↦ some (value ∷ values) ]
    else none

unfoldable pub process_frame : List ℕ → ℕ → Component → Option (Component × List FieldValue)
process_frame frame schema_version c =
    if not (schema_version == c.schema.version)
    then some (record c { errors = (c.errors + 1) % u64_mod }, [])
    else elim (fields_from c.schema frame c.schema.field_count 0) [
      | none ↦ none
      | some fields ↦ some (record c { processed = (c.processed + 1) % u64_mod }, fields)
    ]

unfoldable pub current_schema_version : Component → ℕ
current_schema_version c = c.schema.version

unfoldable pub stats : Component → ℕ × ℕ × ℕ
stats c = (c.processed, c.errors, c.schema_updates)
