-- ===== src/Engine/Config.antt =====
-- lesson3/nexuscore-day3/src/host/src/main.rs: the configuration from the environment, and the clock of
-- the producer. A variable that is not set or is no Unicode is `none`.
use native.Mathlib.Nat.{le-div_iff_mul-le, div-lt_iff_lt-mul}
use nexus_core_devops_engine.Base.{
  ℕ, ◌+◌, ◌*◌, ◌/◌, max, ◌≤◌, ◌<◌, ◌≡◌, ◌∙◌, ◌⊎◌, inl, inr, List, Option, none, some, ltb, ltb→lt,
  ltb→le, Bool-cases, u16_mod, u64_mod, arith, subst, sym, ap,
}
use nexus_core_devops_engine.Base.Text.{codes, number_or, path_or, number_or-lt}

pub record HostEnv : Type 0 where
  pub rps_var : Option (List ℕ)
  pub port_var : Option (List ℕ)
  pub blob_var : Option (List ℕ)

pub record HostConfig : Type 0 where
  pub rps : ℕ
  pub port : ℕ
  pub blob_path : List ℕ

unfoldable pub host_config : HostEnv → HostConfig
host_config env = record {
  rps = number_or u64_mod 50_000 env.rps_var;
  port = number_or u16_mod 9847 env.port_var;
  blob_path = path_or (codes "data/graph.blob") env.blob_var;
}

-- The nanoseconds between two ticks of the producer.
unfoldable pub ingest_period : ℕ → ℕ
ingest_period rps = 1_000_000_000 / max rps 1

-- `tokio::time::interval`, which is documented to panic on a period of zero.
pub record Timer : Type 1 where
  pub Interval : Type 0
  pub period : Interval → ℕ
  pub interval : ℕ → Option Interval
  pub interval_zero : interval 0 ≡ none
  pub interval_some : (p : ℕ) → 0 < p → (i : Interval) × (interval p ≡ some i) × (period i ≡ p)

-- The start of the producer's task: its clock, or its panic.
unfoldable pub producer : (timer : Timer) → HostEnv → Option timer.Interval
unfolding ingest_period
producer timer env = timer.interval (ingest_period (host_config env).rps)

-- How the producer starts: not at all for a rate above 10^9, and otherwise with the longest period that
-- keeps the rate.
pub record Ticks (timer : Timer) (env : HostEnv) : Type 0 where
  pub clock : timer.Interval
  pub started : producer timer env ≡ some clock
  pub kept : timer.period clock * max (host_config env).rps 1 ≤ 1_000_000_000
  pub longest : 1_000_000_000 < (timer.period clock + 1) * max (host_config env).rps 1

-- Whatever the environment says, the rate fits a u64 and the port a u16, and the producer panics at its
-- start exactly if the rate is above 10^9, and otherwise ticks with the longest period in whole
-- nanoseconds that keeps the rate.
pub producer_cases :
    (timer : Timer) (env : HostEnv)
    → ((host_config env).rps < u64_mod)
      × ((host_config env).port < u16_mod)
      × (((1_000_000_000 < (host_config env).rps) × (producer timer env ≡ none))
          ⊎ (((host_config env).rps ≤ 1_000_000_000) × Ticks timer env))
unfolding host_config producer ingest_period
producer_cases timer env =
    let rps = (host_config env).rps in
    let m = max rps 1 in
    let p = ingest_period rps in
    let some_rate : 0 < m = omega arith in
    let under : p * m ≤ 1_000_000_000 =
      (le-div_iff_mul-le {k = m} {x = p} {y = 1_000_000_000} some_rate).0 (omega arith) in
    let over : 1_000_000_000 < (p + 1) * m =
      (div-lt_iff_lt-mul {k = m} {x = 1_000_000_000} {y = p + 1} some_rate).0 (omega arith) in
    (
      number_or-lt u64_mod 50_000 env.rps_var (omega arith),
      number_or-lt u16_mod 9847 env.port_var (omega arith),
      elim (Bool-cases (ltb 1_000_000_000 rps)) [
        | inl fast ↦
            let none_left : p < 1 =
              (div-lt_iff_lt-mul {k = m} {x = 1_000_000_000} {y = 1} some_rate).1
                (omega (arith, ltb→lt _ _ fast)) in
            let zero_period : p ≡ 0 = omega arith in
            inl (ltb→lt _ _ fast, ap timer.interval zero_period ∙ timer.interval_zero)
        | inr slow ↦
            let one : 1 ≤ p =
              (le-div_iff_mul-le {k = m} {x = 1} {y = 1_000_000_000} some_rate).1
                (omega (arith, ltb→le _ _ slow)) in
            let (i, e, same) = timer.interval_some p (omega arith) in
            inr (
              ltb→le _ _ slow,
              record {
                clock = i;
                started = e;
                kept = subst (λ q. q * m ≤ 1_000_000_000) (sym same) under;
                longest = subst (λ q. 1_000_000_000 < (q + 1) * m) (sym same) over;
              },
            )
      ],
    )
