-- ===== src/Host/Metrics.antt =====
-- metrics.rs: the three metrics behind their `OnceLock`s, and the calls of the Prometheus library that
-- `init`, `record_query`, `set_pool_used` and the heartbeat make. `F` stands for f64.
use Prim.Native.String.{String}
use nexus_core_devops_engine.Base.{Bool, true, false, List, [], ◌∷◌, ◌++◌, if◌then◌else◌}
use nexus_core_devops_engine.Base.Text.{Text, lit}

pub data Metric : Type 0 where
  query_latency query_total pool_used : Metric

-- A registration, a look-up that only makes the labels known, a sample of the histogram, a step of the
-- counter, a new value of the gauge.
pub data MetricCall (F : Type 0) : Type 0 where
  register : Metric → String → List String → MetricCall F
  prime : Metric → List String → MetricCall F
  observe : Text → String → F → MetricCall F
  increment : Text → String → String → MetricCall F
  set_gauge : F → MetricCall F

-- The statics: whether each metric is there.
pub record Statics : Type 0 where
  pub latency_set : Bool
  pub total_set : Bool
  pub pool_set : Bool

abbrev pub at_load : Statics
at_load = record { latency_set = false; total_set = false; pool_set = false }

-- The calls of the functions, from any thread, one after the other. The heartbeat of
-- `spawn_background` records a thousandth of a second.
pub data MetricEvent (F : Type 0) : Type 0 where
  started : MetricEvent F
  recorded : Text → String → F → Bool → MetricEvent F
  pool_changed : F → MetricEvent F
  heartbeat : MetricEvent F

module _ {F : Type 0} where
  -- `get_or_init`
  unfoldable pub get_or_init : Bool → MetricCall F → List (MetricCall F)
  get_or_init true call = []
  get_or_init false call = call ∷ []

  abbrev pub register_latency : MetricCall F
  register_latency = register query_latency "surreal_query_latency_seconds" ("tenant" ∷ "op" ∷ [])

  abbrev pub register_total : MetricCall F
  register_total = register query_total "surreal_query_total" ("tenant" ∷ "op" ∷ "status" ∷ [])

  abbrev pub register_pool : MetricCall F
  register_pool = register pool_used "surreal_pool_connections_used" []

  -- `nought` is the value 0.0.
  unfoldable pub init : F → Statics → List (MetricCall F) × Statics
  unfolding get_or_init
  init nought s = (
    get_or_init s.latency_set register_latency
        ++ get_or_init s.total_set register_total
        ++ get_or_init s.pool_set register_pool
        ++ prime query_latency ("__system__" ∷ "heartbeat" ∷ [])
          ∷ prime query_total ("__system__" ∷ "heartbeat" ∷ "ok" ∷ [])
          ∷ set_gauge nought
          ∷ [],
    record { latency_set = true; total_set = true; pool_set = true },
  )

  unfoldable pub record_query : Text → String → F → Bool → Statics → List (MetricCall F)
  record_query tenant op latency_secs ok s =
      (if s.latency_set then observe tenant op latency_secs ∷ [] else [])
      ++ (if s.total_set then increment tenant op (if ok then "ok" else "err") ∷ [] else [])

  unfoldable pub set_pool_used : F → Statics → List (MetricCall F)
  set_pool_used n s = if s.pool_set then set_gauge n ∷ [] else []

  module _ (nought millisecond : F) where
    unfoldable pub on_event : MetricEvent F → Statics → List (MetricCall F) × Statics
    unfolding init record_query set_pool_used
    on_event started s = init nought s
    on_event (recorded tenant op latency_secs ok) s = (record_query tenant op latency_secs ok s, s)
    on_event (pool_changed n) s = (set_pool_used n s, s)
    on_event heartbeat s = (record_query (lit "__system__" ∷ []) "heartbeat" millisecond true s, s)

    unfoldable pub run_events : List (MetricEvent F) → Statics → List (MetricCall F) × Statics
    unfolding on_event
    run_events [] s = ([], s)
    run_events (e ∷ es) s =
        let (calls, s') = on_event e s in let (more, s'') = run_events es s' in (calls ++ more, s'')
