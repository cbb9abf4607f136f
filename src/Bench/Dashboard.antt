-- ===== src/Bench/Dashboard.antt =====
-- The web dashboard of lesson 5: `State` is the model and `Ingest` the proofs.
pub mod State
pub mod Ingest
