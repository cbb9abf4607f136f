-- ===== src/Bench/LoadGen/Report.antt =====
-- load-gen/src/main.rs: the report that `main` prints when the workers have ended.
use nexus_core_devops_engine.Base.{ℕ, ◌/◌, List, [], ◌∷◌, Option, none, some}
use nexus_core_devops_engine.Base.Float.{Float}
use nexus_core_devops_engine.Bench.LoadGen.Request.{Args}
use nexus_core_devops_engine.Bench.LoadGen.Worker.{Histogram, Counters}

pub record MetricsReport (F : Type 0) : Type 0 where
  pub elapsed_secs : F
  pub target_rps : ℕ
  pub actual_rps : F
  pub total_requests : ℕ
  pub errors : ℕ
  pub p50_us : ℕ
  pub p99_us : ℕ
  pub p999_us : ℕ
  pub max_us : ℕ

-- The histograms of the workers that can be joined; one that panicked has none.
unfoldable pub combine : (h : Histogram) → List (Option h.H) → h.H → h.H
combine h [] combined = combined
combine h (none ∷ rest) combined = combine h rest combined
combine h (some hist ∷ rest) combined =
    combine h rest (elim (h.add hist combined) [ none ↦ combined | some sum ↦ sum ])

unfoldable pub report :
    (fl : Float) (h : Histogram) → Args → fl.F → Counters → List (Option h.H) → MetricsReport fl.F
unfolding combine
report fl h args elapsed c hists =
    let combined_hist = combine h hists h.new in
    record {
      elapsed_secs = elapsed;
      target_rps = args.rps;
      actual_rps = fl.fdiv (fl.of_u64 c.total_requests) elapsed;
      total_requests = c.total_requests;
      errors = c.total_errors;
      p50_us = h.value_at_percentile 50 1 combined_hist / 1000;
      p99_us = h.value_at_percentile 99 1 combined_hist / 1000;
      p999_us = h.value_at_percentile 999 10 combined_hist / 1000;
      max_us = h.max_value combined_hist / 1000;
    }
