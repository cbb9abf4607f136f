-- ===== src/Witness/Guest.antt =====
-- A guest whose decoder knows one event, and whose encoder writes one byte.

use nexus_core_devops_engine.Base.{ℕ, [], ◌∷◌, none, some}
use nexus_core_devops_engine.Guest.Component.{TenantEvent, success, Codec}

abbrev event : TenantEvent ℕ
event = record { tenant_id = "acme"; operation = "select"; payload = 5 }

abbrev one_event : Codec
one_event = record {
  Value = ℕ;
  Error = ℕ;
  decode = λ bytes. success event;
  encode = λ response. success (160 ∷ []);
  as_str = λ value key. none;
  as_u64 = λ value key. some value;
}
