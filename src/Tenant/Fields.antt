-- ===== src/Tenant/Fields.antt =====
-- Reading one field of a frame, and all fields of a frame.
use mathlib.Core.List.{append_assoc}
use nexus_core_devops_engine.Base.{
  ℕ, zero, suc, ◌+◌, ◌-◌, ◌%◌, ◌^◌, ◌≤◌, ◌<◌, ◌≡◌, refl, ap, ◌∙◌, subst, List, [], ◌∷◌, ◌++◌,
  length, get_or, slice, take, to_be, length-to_be, from_be, from_be-to_be, length-append,
  take-append, drop-append, le→leb, leb→le, leb→lt, ltb, leb, ◌==◌, ==_iff, u64_mod, arith, lt→ltb,
  none, some, true, ◌↔◌, Bool-cases, inl, inr,
}
use nexus_core_devops_engine.Tenant.Utf8.{from_utf8}
use nexus_core_devops_engine.Tenant.Component.{
  RawSchemaDescriptor, Component, FieldValue, u64_val, f64_val, bytes_val, str_val, unknown,
  max_fields, payload_length, payload, field_value, fields_from, process_frame,
}

-- The type byte of a value, and its bytes in a frame.
pub type_byte : FieldValue → ℕ
type_byte (u64_val n) = 0
type_byte (f64_val n) = 1
type_byte (bytes_val bs) = 2
type_byte (str_val bs) = 3
type_byte unknown = 4

pub encode_value : FieldValue → List ℕ
encode_value (u64_val n) = to_be 8 n
encode_value (f64_val n) = to_be 8 n
encode_value (bytes_val bs) = to_be 2 (length bs) ++ bs
encode_value (str_val bs) = to_be 2 (length bs) ++ bs
encode_value unknown = []

-- The values that a frame can carry.
abbrev Encodable : FieldValue → Type 0
Encodable (u64_val n) = n < 256 ^ 8
Encodable (f64_val n) = n < 256 ^ 8
Encodable (bytes_val bs) = length bs < 256 ^ 2
Encodable (str_val bs) = (length bs < 256 ^ 2) × (from_utf8 bs ≡ true)
Encodable unknown = Unit

-- A part of a list, at the length of what stands before it.
slice-middle :
    (xs ys zs : List ℕ) (i j : ℕ)
    → length xs ≡ i
    → i + length ys ≡ j
    → slice (xs ++ (ys ++ zs)) i j ≡ ys
slice-middle xs ys zs i j e f =
    let size : length ys ≡ j - i = omega arith in
    subst (λ n. slice (xs ++ (ys ++ zs)) n j ≡ ys) e
      (let here = drop-append xs (ys ++ zs) in
        ap (take (j - length xs)) here
        ∙ subst (λ n. take n (ys ++ zs) ≡ ys) (omega arith) (take-append ys zs))

module _ (xs ys zs : List ℕ) where
  abbrev framed : List ℕ
  framed = xs ++ (ys ++ zs)

  framed_long : length framed ≡ length xs + (length ys + length zs)
  framed_long = length-append xs (ys ++ zs) ∙ omega (arith, length-append ys zs)

-- The length bytes and the payload of a value of variable size.
module _ (xs bs zs : List ℕ) (small : length bs < 256 ^ 2) where
  abbrev frame : List ℕ
  frame = xs ++ ((to_be 2 (length bs) ++ bs) ++ zs)

  payload_length-frame : payload_length frame (length xs) ≡ length bs
  unfolding payload_length
  payload_length-frame =
      let flat : frame ≡ xs ++ (to_be 2 (length bs) ++ (bs ++ zs)) = simp append_assoc in
      ap (λ f. from_be (slice f (length xs) (length xs + 2))) flat
      ∙ (ap from_be (
            slice-middle xs (to_be 2 (length bs)) (bs ++ zs) _ _ refl
              (omega (arith, length-to_be 2 (length bs))))
          ∙ from_be-to_be 2 (length bs) small)

  payload-frame : payload frame (length xs) ≡ bs
  payload-frame =
      let head = to_be 2 (length bs) in
      let flat : frame ≡ (xs ++ head) ++ (bs ++ zs) = simp append_assoc in
      let long : length (xs ++ head) ≡ length xs + 2 =
        length-append xs head ∙ omega (arith, length-to_be 2 (length bs)) in
      ap (λ n. slice frame (length xs + 2) (length xs + 2 + n)) payload_length-frame
      ∙ (ap (λ f. slice f (length xs + 2) (length xs + 2 + length bs)) flat
          ∙ slice-middle (xs ++ head) bs zs _ _ long refl)

  frame_long : length frame ≡ length xs + 2 + length bs + length zs
  frame_long =
      framed_long xs (to_be 2 (length bs) ++ bs) zs
      ∙ omega (arith, length-append (to_be 2 (length bs)) bs, length-to_be 2 (length bs))

module _ (n : ℕ) (xs zs : List ℕ) where
  fixed_fits : length xs + 8 ≤ length (xs ++ (to_be 8 n ++ zs))
  fixed_fits = omega (arith, framed_long xs (to_be 8 n) zs, length-to_be 8 n)

  fixed_read :
      n < 256 ^ 8 → from_be (slice (xs ++ (to_be 8 n ++ zs)) (length xs) (length xs + 8)) ≡ n
  fixed_read h =
      ap from_be (slice-middle xs (to_be 8 n) zs _ _ refl (omega (arith, length-to_be 8 n)))
      ∙ from_be-to_be 8 n h

-- A value that stands in a frame at an offset is read back by its type byte, whatever stands
-- before and behind it; `unknown` stands for the type byte 4, which is that of no value.
pub field_value-encode :
    (v : FieldValue) (xs zs : List ℕ)
    → Encodable v
    → field_value (xs ++ (encode_value v ++ zs)) (length xs) (type_byte v) ≡ v
unfolding field_value encode_value type_byte
field_value-encode (u64_val n) xs zs h = rw (le→leb _ _ (fixed_fits n xs zs), fixed_read n xs zs h)
field_value-encode (f64_val n) xs zs h = rw (le→leb _ _ (fixed_fits n xs zs), fixed_read n xs zs h)
field_value-encode (bytes_val bs) xs zs h =
    let long = frame_long xs bs zs h in
    let size = payload_length-frame xs bs zs h in
    let f = frame xs bs zs h in
    rw (
      le→leb (length xs + 2) (length f) (omega (arith, long)),
      le→leb (length xs + 2 + payload_length f (length xs)) (length f) (omega (arith, long, size)),
      payload-frame xs bs zs h,
    )
field_value-encode (str_val bs) xs zs h =
    let long = frame_long xs bs zs h.0 in
    let size = payload_length-frame xs bs zs h.0 in
    let f = frame xs bs zs h.0 in
    rw (
      le→leb (length xs + 2) (length f) (omega (arith, long)),
      le→leb (length xs + 2 + payload_length f (length xs)) (length f) (omega (arith, long, size)),
      payload-frame xs bs zs h.0,
      h.1,
    )
field_value-encode unknown xs zs h = refl

-- What the fields of a frame are: one value for each field of the schema, read by its offset and type.
pub record FieldsOf (schema : RawSchemaDescriptor) (frame : List ℕ) (first count : ℕ)
    (values : List FieldValue) : Type 0 where
  pub long : length values ≡ count
  pub each :
      (i : ℕ)
      → i < count
      → get_or values i unknown
        ≡ field_value frame
            (get_or schema.field_offsets (first + i) 0)
            (get_or schema.field_types (first + i) 0)

each_of :
    (schema : RawSchemaDescriptor) (frame : List ℕ) (first count : ℕ) (values : List FieldValue)
    → FieldsOf schema frame (first + 1) count values
    → (i : ℕ) → i < suc count
    → get_or
        (field_value frame (get_or schema.field_offsets first 0) (get_or schema.field_types first 0)
          ∷ values)
        i
        unknown
      ≡ field_value frame
          (get_or schema.field_offsets (first + i) 0)
          (get_or schema.field_types (first + i) 0)
each_of schema frame first count values f zero lt = let e : first + 0 ≡ first = omega arith in rw e
each_of schema frame first count values f (suc i) lt =
    let e : first + suc i ≡ (first + 1) + i = omega arith in rw e (f.each i (omega arith))

fields_from_lem :
    (schema : RawSchemaDescriptor) (frame : List ℕ) (rounds i : ℕ)
    → i + rounds ≤ max_fields
    → (values : List FieldValue) × (fields_from schema frame rounds i ≡ some values)
      × FieldsOf schema frame i rounds values
unfolding fields_from
fields_from_lem schema frame zero i fit =
    ([], refl, record { long = refl; each = λ k lt. absurd (omega arith) })
fields_from_lem schema frame (suc rounds) i fit =
    let (values, e, f) = fields_from_lem schema frame rounds (i + 1) (omega arith) in
    let value =
      field_value frame (get_or schema.field_offsets i 0) (get_or schema.field_types i 0) in
    (
      value ∷ values,
      rw (e, lt→ltb i max_fields (omega arith)),
      record { long = ap suc f.long; each = each_of schema frame i rounds values f },
    )

-- With more fields left than the arrays have, the loop runs into the panic.
fields_from_panics :
    (schema : RawSchemaDescriptor) (frame : List ℕ) (rounds i : ℕ)
    → max_fields < i + rounds
    → i ≤ max_fields
    → fields_from schema frame rounds i ≡ none
unfolding fields_from
fields_from_panics schema frame zero i over le = absurd (omega arith)
fields_from_panics schema frame (suc rounds) i over le = elim (Bool-cases (ltb i max_fields)) [
  | inl inside ↦
      rw (inside, fields_from_panics schema frame rounds (i + 1) (omega arith) (ground arith))
  | inr outside ↦ rw outside
]

-- A frame of the current version, under a schema of at most 64 fields, gives one value for each
-- field, read at its offset and by its type, and is counted.
pub process_frame_fields :
    (frame : List ℕ) (c : Component)
    → c.schema.field_count ≤ max_fields
    → (values : List FieldValue) × (process_frame frame c.schema.version c
        ≡ some (record c { processed = (c.processed + 1) % u64_mod }, values))
      × FieldsOf c.schema frame 0 c.schema.field_count values
unfolding process_frame
process_frame_fields frame c fit =
    let (values, e, f) = fields_from_lem c.schema frame c.schema.field_count 0 (omega arith) in
    (values, rw ((==_iff c.schema.version c.schema.version).1 refl, e), f)

-- `process_frame` panics exactly on a frame of the current version under a schema that announces
-- more than 64 fields.
pub process_frame_panics :
    (frame : List ℕ) (version : ℕ) (c : Component)
    → (process_frame frame version c ≡ none)
      ↔ ((version ≡ c.schema.version) × (max_fields < c.schema.field_count))
unfolding process_frame
process_frame_panics frame version c = (
  λ h. elim (Bool-cases (version == c.schema.version)) [
    | inl same ↦ elim (Bool-cases (leb c.schema.field_count max_fields)) [
      | inl few ↦
          let (values, e, f) =
            fields_from_lem c.schema frame c.schema.field_count 0 (omega (arith, leb→le _ _ few)) in
          absurd (ground arith)
      | inr many ↦ ((==_iff version c.schema.version).0 same, leb→lt _ _ many)
    ]
    | inr other ↦ absurd (ground arith)
  ],
  λ (e, many). rw (
    (==_iff version c.schema.version).1 e,
    fields_from_panics c.schema frame c.schema.field_count 0 (omega arith) (omega arith),
  ),
)
