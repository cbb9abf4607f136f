-- ===== src/Bench.antt =====
-- The benchmark of lesson 5: the orchestrator component (`Orchestrator`), the terminal dashboard
-- (`Terminal`, `Head`, `Render`), the web dashboard (`Dashboard`) and the load generator (`LoadGen`).
-- `Estimates`, `Lines` and `Rows` are proofs.
pub mod Orchestrator
pub mod Estimates
pub mod Dashboard
pub mod Terminal
pub mod Lines
pub mod LoadGen
pub mod Head
pub mod Render
pub mod Rows
