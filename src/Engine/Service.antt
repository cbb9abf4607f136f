-- ===== src/Engine/Service.antt =====
-- lesson3/nexuscore-day3/src/host/src/main.rs: the running host. A producer draws tasks and sends them
-- over a bounded channel, a worker receives them, and the dashboard asks for the metrics.
--
-- An action that cannot happen yet, because the channel is full or empty, is `none`: its task waits.
use nexus_core_devops_engine.Base.{
  ℕ, Bool, true, false, Option, none, some, List, [], ◌∷◌, ◌++◌, length, leb, if◌then◌else◌,
}
use nexus_core_devops_engine.Base.Float.{Float}
use nexus_core_devops_engine.Engine.Blob.{
  GraphEngine, BlobResult, ok, too_short, truncated, from_blob,
}
use nexus_core_devops_engine.Engine.Agg.{
  Agg, QueryTask, DashboardMetrics, default_agg, work_on, metrics_json,
}

abbrev pub channel_capacity : ℕ
channel_capacity = 8192

abbrev graph_of : BlobResult → Option GraphEngine
graph_of (ok g) = some g
graph_of too_short = none
graph_of truncated = none

-- The graph that `main` loads, from the bytes of the file, if it can be read.
unfoldable pub load_graph : Option (List ℕ) → Option GraphEngine
load_graph none = none
load_graph (some bytes) = graph_of (from_blob bytes)

-- `AppState` less what never changes, the channel, and the worker: the task that it works on, and
-- whether it still runs.
pub record Service (F : Type 0) : Type 0 where
  pub agg : Agg F
  pub avg_qps_smoothed : F
  pub channel : List QueryTask
  pub current : Option QueryTask
  pub running : Bool

module _ (fl : Float) where
  open fl use {F, ratio}

  unfoldable pub start : ℕ → Service F
  unfolding default_agg
  start now = record {
    agg = default_agg fl now;
    avg_qps_smoothed = ratio 0 1;
    channel = [];
    current = none;
    running = true;
  }

  -- `let _ = tx.send(task).await`: after the end of the worker it returns an error, which is ignored.
  unfoldable pub send : QueryTask → Service F → Option (Service F)
  send task s =
      if s.running
      then if leb channel_capacity (length s.channel)
        then none
        else some (record s { channel = s.channel ++ task ∷ [] })
      else some s

  -- `rx.recv().await` of a worker that has no task.
  unfoldable pub receive : Service F → Option (Service F)
  receive s = elim s.current [
    | some task ↦ none
    | none ↦ elim s.channel [
      | [] ↦ none
      | task ∷ rest ↦ some (record s { channel = rest; current = some task })
    ]
  ]

  module _ (graph : Option GraphEngine) where
    -- A worker that panics takes the receiver with it.
    abbrev pub after_work : Service F → Option (Agg F) → Service F
    after_work s none = record s { channel = []; current = none; running = false }
    after_work s (some a) = record s { agg = a; current = none }

    -- The body of the worker's loop for its task, with the times before and behind the search and that of
    -- the update. The search reads the graph only, so others may act while it runs.
    unfoldable pub finish : ℕ → ℕ → ℕ → Service F → Option (Service F)
    finish t0 t1 now s = elim s.current [
      | none ↦ none
      | some task ↦ some (after_work s (work_on fl graph t0 t1 now task s.agg))
    ]

    -- A request for the metrics.
    unfoldable pub show_metrics : ℕ → ℕ → Service F → Service F × DashboardMetrics fl
    show_metrics now started s =
        let (agg, smooth, metrics) = metrics_json fl now started graph s.avg_qps_smoothed s.agg in
        (record s { agg = agg; avg_qps_smoothed = smooth }, metrics)
