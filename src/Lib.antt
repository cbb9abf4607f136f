-- ===== src/Lib.antt =====
-- A model of the Rust core of NexusCore, with the theorems that make it correct.
--
-- The repository is a course of five lessons, each a small system of its own. What they share is the
-- path of a tenant's request: a Wasm guest decides what to do (lesson 1), a graph engine keeps edges
-- in linear memory (lesson 2), a second engine searches documents over a packed graph and a host
-- counts the queries (lesson 3), a component reads binary frames by a schema that can be replaced at
-- run time (lesson 4), and a benchmark compares the stacks and shows its histograms (lesson 5).
--
-- Csr: lesson2/nexuscore-graph/src/csr_graph.rs and main.rs beside it. `Graph` holds
--   the header, the memory, `init` and the accessors; `Insert` is `add_edge_batch` in its steps
--   (collect, sort, count, prefix sums, scatter); `Query` holds `get_following`, `edge_exists` and
--   `get_followers`; `Bulk` the insertion loop and the hot-node scan of `run_benchmark`, and `Benchmark`
--   the program from the allocation to the report. `Repr` says when a graph in memory stands for a
--   sorted list of edges, the abstract graph of all theorems.
-- Tenant: lesson4/nexuscore-day4/wasi-component/src/lib.rs. `Component` has the static variables as a
--   record and the exported functions; `Utf8` is the validation that `from_utf8` documents.
-- Engine: lesson3/nexuscore-day3/src/nexuscore_graph/src/lib.rs (`Blob`, `Bfs`) and the aggregate, the
--   worker and the metrics of lesson3/nexuscore-day3/src/host/src/main.rs (`Agg`). The worker calls
--   `bfs_posts`, and records what it returned. `Config` is what it reads from the environment, `Service`
--   the running host with the channel between its producer and its worker, `Http` its answers, `Runs`
--   its histories, and `Halts` those after a panic.
-- Bench: lesson5/nexuscore-day5/orchestrator/src/lib.rs (`Orchestrator`), the state and the handlers of
--   lesson5/nexuscore-day5/dashboard/src/web.rs with the data of lib.rs (`Dashboard`), the line loop of
--   main.rs beside them (`Terminal`), the head and the rows that it prints (`Head`, `Render`), and the
--   load generator, lesson5/nexuscore-day5/load-gen/src/main.rs (`LoadGen`).
-- Guest: lesson1/nexuscore-day1/guest-component/src/lib.rs.
-- Host: lesson1/nexuscore-day1/host/src, the start of the host (main.rs, pool.rs, tenant.rs), the
--   adapter of the tenants (adapter.rs), its stress test, its metrics (metrics.rs) and
--   its demo (visualizer.rs).
-- Base: lists, slices, bytes and Boolean tests over the native numbers, and the interface of floats.
-- Witness: runs of the theorems on concrete inputs.
--
-- Numbers are natural numbers; u16, u32 and u64 arithmetic wraps where it is written out, as in a
-- release build, and `usize` has 64 bits (32 in the Wasm guest). Panics and errors are values. A
-- mutex or a lock is held through each function that takes it, so each function is one step on the
-- state, and interleavings are sequences of such steps. All loops are structural, but for the binary
-- search, which has fuel for the length of the slice, and the search of `bfs_posts`, which has fuel
-- for one round for the root and one for each column of each row.
--
-- Code that is not in the repository is an argument: floats (`Base.Float`), CBOR and JSON
-- (`Guest.Component.Codec`, the parser of `Bench.Terminal`), clocks, random generators, the unstable sort of
-- the benchmark (`Csr.Benchmark`), the probe of a
-- connection, the histogram library of the load generator, and for the host of lesson 1 all that it asks
-- of the database and its pool (`Host.Effects.World`: whether a call fails may depend on all calls
-- before it; `Host.Adapter.Values`: what a query answers). The routes of the HTTP servers and their
-- answers are modelled, the libraries that serve them are not. Not modelled either: the start of the logs, the
-- parsing of the command line in lesson 1, the colours and the layout of what is printed,
-- lesson5/nexuscore-day5/dashboard-embed (a copy of the files under dashboard), the integration test of
-- lesson 2, and the programs in other languages.
pub mod Base
pub mod Csr
pub mod Tenant
pub mod Engine
pub mod Bench
pub mod Guest
pub mod Host
pub mod Witness
