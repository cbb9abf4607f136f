-- ===== src/Tenant.antt =====
-- The tenant component of lesson 4, lesson4/nexuscore-day4/wasi-component/src/lib.rs: schema
-- updates and frames. `Component` is the model, `Utf8` the validation of text; the others are proofs.
pub mod Utf8
pub mod Component
pub mod Descriptor
pub mod Fields
pub mod History
