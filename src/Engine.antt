-- ===== src/Engine.antt =====
-- The graph engine of lesson 3, lesson3/nexuscore-day3/src/nexuscore_graph/src/lib.rs: the packed
-- blob (`Blob`), and the breadth-first search over documents (`Bfs`), with the proofs `Work`, `Ends`,
-- `Walks`, `Complete` and `Panics`; and its host, lesson3/nexuscore-day3/src/host/src/main.rs (`Agg`,
-- `Config`, `Service`, `Http`), with the proofs `Samples`, `Worker`, `Servable`, `Runs` and `Halts`.
pub mod Blob
pub mod Bfs
pub mod Work
pub mod Ends
pub mod Walks
pub mod Complete
pub mod Panics
pub mod Agg
pub mod Samples
pub mod Worker
pub mod Config
pub mod Service
pub mod Http
pub mod Servable
pub mod Runs
pub mod Halts
