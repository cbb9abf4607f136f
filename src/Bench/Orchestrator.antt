-- ===== src/Bench/Orchestrator.antt =====
-- lesson5/nexuscore-day5/orchestrator/src/lib.rs: `validate`, `run` and the synthetic histogram. u32
-- and u64 arithmetic wraps, as in a release build; floats come by `Float`.
use text.Mathlib.Text.{◌==◌ as str_eq}
use Prim.Native.String.{String}
use nexus_core_devops_engine.Base.{
  ℕ, zero, suc, ◌+◌, ◌-◌, ◌*◌, ◌/◌, ◌%◌, ◌^◌, Bool, false, not, ◌&&◌, ◌||◌, List, [], ◌∷◌, ltb, leb,
  ◌==◌, if◌then◌else◌, u32_mod, u64_mod,
}
use nexus_core_devops_engine.Base.Float.{Float}

pub record ScenarioConfig : Type 0 where
  pub target : String
  pub operation : String
  pub tenant_count : ℕ
  pub requests_per_tenant : ℕ
  pub payload_bytes : ℕ

pub record LatencyBucket : Type 0 where
  pub slot : ℕ
  pub count : ℕ

pub record BenchResult (F : Type 0) : Type 0 where
  pub target : String
  pub p50_ns : ℕ
  pub p99_ns : ℕ
  pub p999_ns : ℕ
  pub throughput_rps : F
  pub context_switches : ℕ
  pub syscall_count : ℕ
  pub histogram : List LatencyBucket

unfoldable pub validate : ScenarioConfig → Bool
validate cfg =
    if cfg.tenant_count == 0 || ltb 10_000 cfg.tenant_count
    then false
    else if cfg.requests_per_tenant == 0 || ltb 1_000_000 cfg.requests_per_tenant
    then false
    else if ltb cfg.payload_bytes 16 || ltb 1_048_576 cfg.payload_bytes
    then false
    else (str_eq cfg.target "surrealdb" || str_eq cfg.target "polyglot")
      && (str_eq cfg.operation "read"
          || str_eq cfg.operation "write"
          || str_eq cfg.operation "mixed")

-- The base latency and the hops of a target.
unfoldable pub base_ns : String → ℕ
base_ns target =
    if str_eq target "surrealdb" then 2_500 else if str_eq target "polyglot" then 1_800 else 5_000

unfoldable pub hops : String → ℕ
hops target = if str_eq target "surrealdb" then 1 else if str_eq target "polyglot" then 3 else 2

abbrev hop_cost_ns : ℕ
hop_cost_ns = 35_000

unfoldable pub estimated_p50 : ScenarioConfig → ℕ
estimated_p50 cfg = (base_ns cfg.target + hops cfg.target * 8_000) % u64_mod

unfoldable estimated_p99 : ScenarioConfig → ℕ
estimated_p99 cfg = (base_ns cfg.target + hops cfg.target * hop_cost_ns) % u64_mod

unfoldable payload_penalty : ScenarioConfig → ℕ
payload_penalty cfg = (cfg.payload_bytes / 4096 * 12_000) % u64_mod

unfoldable pub p99_adjusted : ScenarioConfig → ℕ
unfolding estimated_p99 payload_penalty
p99_adjusted cfg = (estimated_p99 cfg + payload_penalty cfg) % u64_mod

-- `estimated_p99 * 4 + payload_penalty * 6`
unfoldable pub p999_adjusted : ScenarioConfig → ℕ
unfolding estimated_p99 payload_penalty
p999_adjusted cfg =
    ((estimated_p99 cfg * 4) % u64_mod + (payload_penalty cfg * 6) % u64_mod) % u64_mod

-- The third argument of `build_log2_histogram`, a product of two u32.
unfoldable pub total_requests : ScenarioConfig → ℕ
total_requests cfg = (cfg.requests_per_tenant * cfg.tenant_count) % u32_mod

module _ (fl : Float) where
  open fl use {F, of_u64, ratio, fadd, fsub, fmul, fdiv, fmin, to_u64}

  unfoldable pub throughput : ScenarioConfig → F
  throughput cfg =
      let one = ratio 1 1 in
      let serial_fraction = fmul (ratio 5 100) (of_u64 (hops cfg.target)) in
      let max_speedup =
        fdiv one
          (fadd serial_fraction (fdiv (fsub one serial_fraction) (of_u64 cfg.tenant_count))) in
      fmin (fmul (ratio 45_000 1) max_speedup) (ratio 250_000 1)

  -- The count of the bucket from `bucket_start` to `bucket_start << 1`, where the shift of the last
  -- slot falls out of the u64.
  unfoldable pub bucket_count : ℕ → ℕ → ℕ → ℕ → ℕ
  bucket_count p50 p99 total slot =
      let bucket_start = 2 ^ slot in
      let bucket_end = (bucket_start * 2) % u64_mod in
      let position =
        fdiv (of_u64 ((bucket_start + u64_mod - p50) % u64_mod))
          (of_u64 ((p99 + u64_mod - p50) % u64_mod)) in
      if ltb bucket_end p50
      then 0
      else if leb ((p99 * 4) % u64_mod) bucket_start
      then 0
      else if ltb bucket_start p50
      then to_u64 (fmul (of_u64 total) (ratio 2 100))
      else if ltb bucket_start p99
      then to_u64 (fmul (fmul (of_u64 total) (fsub (ratio 1 1) position)) (ratio 15 100))
      else to_u64 (fmul (of_u64 total) (ratio 5 1000))

  -- `for slot in 0u32..64`, with `rounds` slots left.
  unfoldable pub buckets_from : ℕ → ℕ → ℕ → ℕ → ℕ → List LatencyBucket
  buckets_from p50 p99 total zero slot = []
  buckets_from p50 p99 total (suc rounds) slot =
      let rest = buckets_from p50 p99 total rounds (slot + 1) in
      let count = bucket_count p50 p99 total slot in
      if ltb 0 count then record { slot = slot; count = count } ∷ rest else rest

  unfoldable pub build_log2_histogram : ℕ → ℕ → ℕ → List LatencyBucket
  build_log2_histogram p50 p99 total = buckets_from p50 p99 total 64 0

  unfoldable pub run : ScenarioConfig → BenchResult F
  run cfg =
      if not (validate cfg)
      then record {
        target = cfg.target;
        p50_ns = 0;
        p99_ns = 0;
        p999_ns = 0;
        throughput_rps = ratio 0 1;
        context_switches = 0;
        syscall_count = 0;
        histogram = [];
      }
      else record {
        target = cfg.target;
        p50_ns = estimated_p50 cfg;
        p99_ns = p99_adjusted cfg;
        p999_ns = p999_adjusted cfg;
        throughput_rps = throughput cfg;
        context_switches = (hops cfg.target * cfg.tenant_count * 2) % u64_mod;
        syscall_count = (hops cfg.target * cfg.requests_per_tenant * cfg.tenant_count) % u64_mod;
        histogram =
            build_log2_histogram (estimated_p50 cfg) (p99_adjusted cfg) (total_requests cfg);
      }
