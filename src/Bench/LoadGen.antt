-- ===== src/Bench/LoadGen.antt =====
-- The load generator, lesson5/nexuscore-day5/load-gen/src/main.rs. `Request` holds the arguments,
-- the queries and one request, `Worker` the loop of a worker, `Report` what `main` prints, `Counts` all
-- workers together, `Asked` what they send, and `Main` the whole program; the other children are
-- proofs.
pub mod Request
pub mod Worker
pub mod Report
pub mod Pace
pub mod Turns
pub mod Rounds
pub mod Counts
pub mod Asked
pub mod Main
