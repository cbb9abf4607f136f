-- ===== src/Host.antt =====
-- The host of lesson 1, lesson1/nexuscore-day1/host/src: `Effects` is what it asks of the libraries,
-- `Pool`, `Url`, `Tenant` and `Startup` are the parts of pool.rs, tenant.rs and main.rs;
-- `Connects` and `Serves` are proofs about the start. `Adapter` is adapter.rs, and `Counted` a proof
-- about it. `Metrics` and `Server` are metrics.rs, `Stress` the stress test of main.rs and `Demo` the
-- demo of visualizer.rs, with the proofs `Registered`, `Soak`, `Ticks` and `Shown`; `Commands` is the choice of
-- the command.
pub mod Effects
pub mod Pool
pub mod Url
pub mod Tenant
pub mod Startup
pub mod Connects
pub mod Serves
pub mod Adapter
pub mod Counted
pub mod Metrics
pub mod Registered
pub mod Server
pub mod Stress
pub mod Soak
pub mod Demo
pub mod Ticks
pub mod Shown
pub mod Commands
