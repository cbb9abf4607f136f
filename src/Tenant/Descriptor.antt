-- ===== src/Tenant/Descriptor.antt =====
-- The packed descriptor: what a host writes is what the component reads, and a schema is replaced
-- only by a newer one.
use mathlib.Core.List.{append_assoc}
use nexus_core_devops_engine.Base.{
  drop_add, ℕ, ◌+◌, ◌%◌, ◌^◌, ◌<◌, ◌≡◌, refl, ap, ◌∙◌, subst, List, ◌++◌, length, take, drop, to_le,
  to_words, length-to_le, length-to_words, take-to_le, drop-to_le, from_le-to_le, words-to_words,
  length-append, take-append, drop-append, All, ltb, leb, u64_mod, arith, le→ltb, if◌then◌else◌,
  from_le, words, ◌⊎◌, inl, inr, Bool-cases, ltb→lt,
}
use nexus_core_devops_engine.Tenant.Component.{
  RawSchemaDescriptor, Component, ok, stale_update, invalid_descriptor, max_fields, descriptor_size,
  read_unaligned, apply_schema_update,
}

-- The bytes of a descriptor, as the packed struct lays them out.
pub encode : RawSchemaDescriptor → List ℕ
encode d =
    to_le 8 d.version ++ (to_le 2 d.field_count ++ (to_words 2 d.field_offsets ++ d.field_types))

-- The fields fit their types and arrays.
pub record IsSized (d : RawSchemaDescriptor) : Type 0 where
  pub version_fits : d.version < 256 ^ 8
  pub count_fits : d.field_count < 256 ^ 2
  pub offsets_long : length d.field_offsets ≡ max_fields
  pub offsets_fit : All (λ x. x < 256 ^ 2) d.field_offsets
  pub types_long : length d.field_types ≡ max_fields

length-encode : (d : RawSchemaDescriptor) → IsSized d → length (encode d) ≡ descriptor_size
unfolding encode
length-encode d s = omega (
  arith,
  length-append (to_le 8 d.version)
      (to_le 2 d.field_count ++ (to_words 2 d.field_offsets ++ d.field_types)),
  length-append (to_le 2 d.field_count) (to_words 2 d.field_offsets ++ d.field_types),
  length-append (to_words 2 d.field_offsets) d.field_types,
  length-to_le 8 d.version,
  length-to_le 2 d.field_count,
  length-to_words 2 d.field_offsets,
  s.offsets_long,
  s.types_long,
)

-- Reading the bytes of a descriptor gives it back, also when more bytes follow.
read_unaligned-encode :
    (d : RawSchemaDescriptor) (more : List ℕ) → IsSized d → read_unaligned (encode d ++ more) ≡ d
unfolding read_unaligned encode
read_unaligned-encode d more s =
    let w = encode d ++ more in
    let types = d.field_types ++ more in
    let offsets = to_words 2 d.field_offsets ++ types in
    let flat : w ≡ to_le 8 d.version ++ (to_le 2 d.field_count ++ offsets) = simp append_assoc in
    let d8 : drop 8 w ≡ to_le 2 d.field_count ++ offsets =
      ap (drop 8) flat ∙ drop-to_le 8 d.version _ in
    let d10 : drop 10 w ≡ offsets =
      drop_add 8 2 w ∙ (ap (drop 2) d8 ∙ drop-to_le 2 d.field_count offsets) in
    let wide : length (to_words 2 d.field_offsets) ≡ 128 =
      length-to_words 2 d.field_offsets ∙ omega (arith, s.offsets_long) in
    let d138 : drop 138 w ≡ types =
      drop_add 10 128 w
      ∙ (ap (drop 128) d10
          ∙ subst (λ n. drop n offsets ≡ types) wide
              (drop-append (to_words 2 d.field_offsets) types)) in
    let version : from_le (take 8 w) ≡ d.version =
      ap (λ x. from_le (take 8 x)) flat
      ∙ (ap from_le (take-to_le 8 d.version _) ∙ from_le-to_le 8 d.version s.version_fits) in
    let count : from_le (take 2 (drop 8 w)) ≡ d.field_count =
      ap (λ x. from_le (take 2 x)) d8
      ∙ (ap from_le (take-to_le 2 d.field_count _) ∙ from_le-to_le 2 d.field_count s.count_fits) in
    let read : words 2 64 (drop 10 w) ≡ d.field_offsets =
      ap (words 2 64) d10
      ∙ subst (λ n. words 2 n offsets ≡ d.field_offsets) s.offsets_long
          (words-to_words 2 d.field_offsets types s.offsets_fit) in
    let tail : take 64 (drop 138 w) ≡ d.field_types =
      ap (take 64) d138
      ∙ subst (λ n. take n types ≡ d.field_types) s.types_long (take-append d.field_types more) in
    λ i. record {
      version = version i;
      field_count = count i;
      field_offsets = read i;
      field_types = tail i;
    }

-- An update with the bytes of a descriptor, whatever follows them, installs exactly this descriptor
-- and counts the update if its version is newer than that of the schema in use; otherwise it is
-- stale and changes nothing.
pub apply_schema_update-encode :
    (d : RawSchemaDescriptor) (more : List ℕ) (c : Component)
    → IsSized d
    → apply_schema_update (encode d ++ more) c ≡ (
        if leb d.version c.schema.version
        then (c, stale_update)
        else (record c { schema = d; schema_updates = (c.schema_updates + 1) % u64_mod }, ok))
unfolding apply_schema_update
apply_schema_update-encode d more c s =
    let long =
      le→ltb (length (encode d ++ more)) descriptor_size
        (omega (arith, length-append (encode d) more, length-encode d s)) in
    rw (long, read_unaligned-encode d more s)

-- An update of any bytes is refused without a change, or brings a version that is greater.
apply_schema_update_cases :
    (raw : List ℕ) (c : Component)
    → ((apply_schema_update raw c ≡ (c, invalid_descriptor)) × (length raw < descriptor_size))
      ⊎ (apply_schema_update raw c ≡ (c, stale_update))
      ⊎ ((c' : Component) × (apply_schema_update raw c ≡ (c', ok))
          × (c.schema.version < c'.schema.version)
          × (c'.processed ≡ c.processed)
          × (c'.errors ≡ c.errors)
          × (c'.schema_updates ≡ (c.schema_updates + 1) % u64_mod))
unfolding apply_schema_update
apply_schema_update_cases raw c = elim (Bool-cases (ltb (length raw) descriptor_size)) [
  | inl short ↦ inl (rw short, ltb→lt _ _ short)
  | inr long ↦ elim (Bool-cases (leb (read_unaligned raw).version c.schema.version)) [
    | inl stale ↦ inr (inl (rw (long, stale)))
    | inr newer ↦ inr (
        inr (
          record c {
            schema = read_unaligned raw;
            schema_updates = (c.schema_updates + 1) % u64_mod;
          },
          rw (long, newer),
          ground arith,
          refl,
          refl,
          refl,
        ))
  ]
]
