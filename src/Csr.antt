-- ===== src/Csr.antt =====
-- The CSR graph engine of lesson 2, lesson2/nexuscore-graph/src/csr_graph.rs, and the part of
-- main.rs beside it that works with the graph. `Graph` holds the state, `Insert` the batch insertion
-- and `Query` the reads; the other children are the proofs.
pub mod Graph
pub mod Sort
pub mod Insert
pub mod Query
pub mod Counts
pub mod Rows
pub mod Repr
pub mod Rebuild
pub mod Refine
pub mod Search
pub mod Reads
pub mod Followers
pub mod Bulk
pub mod Benchmark
pub mod History
pub mod Order
pub mod Inserted
pub mod Batches
pub mod Hot
pub mod Draws
pub mod Top
pub mod Finish
