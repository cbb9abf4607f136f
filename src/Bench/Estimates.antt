-- ===== src/Bench/Estimates.antt =====
-- What `run` reports: ordered latencies and exact counts. Its request total, though, is a product of
-- two u32.
use Prim.Native.String.{String}
use native.Mathlib.Nat.{mod-eq_of_lt, mul-le-mul}
use nexus_core_devops_engine.Base.{ℕ, ◌+◌, ◌*◌, ◌/◌, ◌≤◌, ◌<◌, ◌≡◌, true, u32_mod, arith}
use nexus_core_devops_engine.Base.Float.{Float}
use nexus_core_devops_engine.Bench.Orchestrator.{
  ScenarioConfig, validate, base_ns, hops, estimated_p50, p99_adjusted, p999_adjusted,
  total_requests, run,
}

-- The ranges that `validate` lets through.
pub record InLimits (cfg : ScenarioConfig) : Type 0 where
  pub tenants_some : 0 < cfg.tenant_count
  pub tenants_few : cfg.tenant_count ≤ 10_000
  pub requests_some : 0 < cfg.requests_per_tenant
  pub requests_few : cfg.requests_per_tenant ≤ 1_000_000
  pub payload_some : 16 ≤ cfg.payload_bytes
  pub payload_few : cfg.payload_bytes ≤ 1_048_576

validate_limits : (cfg : ScenarioConfig) → validate cfg ≡ true → InLimits cfg
unfolding validate
validate_limits cfg h = record {
  tenants_some = ground arith;
  tenants_few = ground arith;
  requests_some = ground arith;
  requests_few = ground arith;
  payload_some = ground arith;
  payload_few = ground arith;
}

hops_bounds : (target : String) → (1 ≤ hops target) × (hops target ≤ 3)
unfolding hops
hops_bounds target = ground arith

base_ns_bounds : (target : String) → base_ns target ≤ 5_000
unfolding base_ns
base_ns_bounds target = ground arith

-- Without a wrap the estimates are the formulas of the source.
estimates_exact :
    (cfg : ScenarioConfig)
    → InLimits cfg
    → (estimated_p50 cfg ≡ base_ns cfg.target + hops cfg.target * 8_000)
      × (p99_adjusted cfg
          ≡ base_ns cfg.target + hops cfg.target * 35_000 + cfg.payload_bytes / 4096 * 12_000)
      × (p999_adjusted cfg
          ≡ (base_ns cfg.target + hops cfg.target * 35_000) * 4
            + cfg.payload_bytes / 4096 * 12_000 * 6)
unfolding estimated_p50 p99_adjusted p999_adjusted
estimates_exact cfg l =
    let h = hops_bounds cfg.target in
    let b = base_ns_bounds cfg.target in
    let p = l.payload_few in (omega arith, omega arith, omega arith)

mul_bound : (a b c d : ℕ) → a ≤ b → c ≤ d → a * c ≤ b * d
mul_bound a b c d h k = mul-le-mul h k

counts_small :
    (h t r : ℕ)
    → h ≤ 3
    → t ≤ 10_000
    → r ≤ 1_000_000
    → (h * t ≤ 30_000) × (h * r * t ≤ 30_000_000_000)
counts_small h t r a b c = (
  mul_bound h 3 t 10_000 a b,
  mul_bound (h * r) 3_000_000 t 10_000 (mul_bound h 3 r 1_000_000 a c) b,
)

-- What a report of a valid scenario holds.
pub record Sound (fl : Float) (cfg : ScenarioConfig) : Type 0 where
  pub p50_le_p99 : (run fl cfg).p50_ns ≤ (run fl cfg).p99_ns
  pub p99_le_p999 : (run fl cfg).p99_ns ≤ (run fl cfg).p999_ns
  pub switches : (run fl cfg).context_switches ≡ hops cfg.target * cfg.tenant_count * 2
  pub syscalls :
      (run fl cfg).syscall_count ≡ hops cfg.target * cfg.requests_per_tenant * cfg.tenant_count

-- For every scenario that `validate` accepts, the reported percentiles are in order, and the
-- context switches and syscalls are the exact products: neither wraps.
pub run-Sound : (fl : Float) (cfg : ScenarioConfig) → validate cfg ≡ true → Sound fl cfg
unfolding run
run-Sound fl cfg v =
    let l = validate_limits cfg v in
    let e = estimates_exact cfg l in
    let h = hops_bounds cfg.target in
    let small =
      counts_small (hops cfg.target) cfg.tenant_count cfg.requests_per_tenant h.1 l.tenants_few
        l.requests_few in
    record {
      p50_le_p99 = rw v (omega (arith, e.0, e.1));
      p99_le_p999 = rw v (omega (arith, e.1, e.2));
      switches = rw v (omega (arith, small.0));
      syscalls = rw v (mod-eq_of_lt (omega (arith, small.1)));
    }

-- The total that the histogram is scaled by is smaller than the requests of the scenario as soon
-- as these reach 2^32.
pub total_requests_wraps :
    (cfg : ScenarioConfig)
    → u32_mod ≤ cfg.requests_per_tenant * cfg.tenant_count
    → total_requests cfg < cfg.requests_per_tenant * cfg.tenant_count
unfolding total_requests
total_requests_wraps cfg h = omega arith
