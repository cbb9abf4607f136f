-- ===== src/Witness.antt =====
-- Runs of the theorems on small concrete inputs, by part of the program.
mod Numbers
mod Csr
mod Benchmark
mod Tenant
mod Engine
mod Service
mod Bench
mod Guest
mod Host
mod Metrics
mod LoadGen
