-- ===== src/Witness/Metrics.antt =====
-- A history of the metrics with two starts, and three readings of the clock of the demo.
use nexus_core_devops_engine.Base.{ℕ, ◌≡◌, ◌⊎◌, true, false, List, [], ◌∷◌, All}
use nexus_core_devops_engine.Base.Text.{lit}
use nexus_core_devops_engine.Witness.Numbers.{whole_numbers}
use nexus_core_devops_engine.Host.Metrics.{
  MetricEvent, started, recorded, pool_changed, heartbeat, at_load, run_events,
}
use nexus_core_devops_engine.Host.Registered.{IsStart, Registered, run_events-Registered}
use nexus_core_devops_engine.Host.Demo.{run_demo}
use nexus_core_devops_engine.Host.Shown.{Shown, run_demo-Shown}

-- A query before the start, which is made twice.
abbrev metric_events : List (MetricEvent ℕ)
metric_events =
    recorded (lit "tenant-1" ∷ []) "exec" 4 true
    ∷ started
    ∷ heartbeat
    ∷ started
    ∷ recorded (lit "tenant-2" ∷ []) "exec" 5 false
    ∷ pool_changed 3
    ∷ []

run_events-Registered_example :
    (All (λ e. ¬ IsStart e) metric_events × (run_events 0 1 metric_events at_load ≡ ([], at_load)))
    ⊎ Registered 0 1 metric_events
run_events-Registered_example = run_events-Registered 0 1 metric_events

-- Two turns of the demo for 14 tenants, of which 12 are shown.
run_demo-Shown_example :
    Shown whole_numbers 12 100 2 0 1
      (run_demo whole_numbers 14 100 (0 ∷ 15_000_000_000 ∷ 31_000_000_000 ∷ []))
run_demo-Shown_example =
    run_demo-Shown whole_numbers 14 100 (0 ∷ 15_000_000_000 ∷ 31_000_000_000 ∷ []) 0 1
