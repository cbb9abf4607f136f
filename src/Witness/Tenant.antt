-- ===== src/Witness/Tenant.antt =====
-- A schema of two fields, sent to the component and used on a frame.
use nexus_core_devops_engine.Base.{
  ℕ, ◌+◌, ◌≤◌, ◌<◌, ◌≡◌, refl, ◌↔◌, List, [], ◌∷◌, ◌++◌, length, replicate, none, some, arith,
}
use nexus_core_devops_engine.Tenant.Component.{
  RawSchemaDescriptor, Component, ok, FieldValue, str_val, max_fields, initial, apply_schema_update,
  field_value, process_frame,
}
use nexus_core_devops_engine.Tenant.Utf8.{from_utf8}
use nexus_core_devops_engine.Tenant.Descriptor.{encode, IsSized, apply_schema_update-encode}
use nexus_core_devops_engine.Tenant.Fields.{
  type_byte, encode_value, FieldsOf, field_value-encode, process_frame_fields, process_frame_panics,
}
use nexus_core_devops_engine.Tenant.History.{Run, here, updated, framed, Run-version, Run-stats}

abbrev sensor : RawSchemaDescriptor
sensor = record {
  version = 7;
  field_count = 2;
  field_offsets = 0 ∷ 8 ∷ replicate 62 0;
  field_types = 0 ∷ 3 ∷ replicate 62 0;
}

sensor-IsSized : IsSized sensor
sensor-IsSized = record {
  version_fits = omega arith;
  count_fits = omega arith;
  offsets_long = refl;
  offsets_fit = ground arith;
  types_long = refl;
}

abbrev with_sensor : Component
with_sensor = record initial { schema = sensor; schema_updates = 1 }

apply_schema_update-encode_example :
    apply_schema_update (encode sensor ++ (1 ∷ 2 ∷ [])) initial ≡ (with_sensor, ok)
apply_schema_update-encode_example =
    apply_schema_update-encode sensor (1 ∷ 2 ∷ []) initial sensor-IsSized

abbrev frame : List ℕ
frame = 1 ∷ 0 ∷ 0 ∷ 0 ∷ 0 ∷ 0 ∷ 0 ∷ 0 ∷ 0 ∷ 2 ∷ 104 ∷ 105 ∷ []

process_frame_fields_example :
    (values : List FieldValue) × (process_frame frame 7 with_sensor
      ≡ some (record with_sensor { processed = 1 }, values))
    × FieldsOf sensor frame 0 2 values
process_frame_fields_example = process_frame_fields frame with_sensor (omega arith)

process_frame_panics_example :
    (process_frame frame 8 with_sensor ≡ none)
    ↔ (◌≡◌ {A = ℕ} 8 7) × (max_fields < with_sensor.schema.field_count)
process_frame_panics_example = process_frame_panics frame 8 with_sensor

abbrev hi : FieldValue
hi = str_val (104 ∷ 105 ∷ [])

field_value-encode_example :
    field_value (frame ++ (encode_value hi ++ frame)) (length frame) (type_byte hi) ≡ hi
unfolding from_utf8
field_value-encode_example = field_value-encode hi frame frame (omega arith, refl)

abbrev after : Component
after = record with_sensor { processed = 1 }

history : Run initial 1 1 after
history =
    let update = apply_schema_update-encode sensor [] initial sensor-IsSized in
    let (values, e, f) = process_frame_fields frame with_sensor (omega arith) in
    framed (updated here (encode sensor ++ []) update) frame 7 values e

Run-version_example : initial.schema.version + 1 ≤ after.schema.version
Run-version_example = Run-version initial history

Run-stats_example :
    (after.processed + after.errors ≡ initial.processed + initial.errors + 1)
    × (after.schema_updates ≡ initial.schema_updates + 1)
Run-stats_example = Run-stats initial history (omega arith) (omega arith)
