-- ===== src/Guest.antt =====
-- The guest component of lesson 1: `Component` is the model and `Responses` the proofs.
pub mod Component
pub mod Responses
