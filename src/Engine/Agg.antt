-- ===== src/Engine/Agg.antt =====
-- lesson3/nexuscore-day3/src/host/src/main.rs: the aggregate of query statistics, the worker that
-- feeds it, and the metrics of the dashboard.
--
-- An `Instant` is a number of nanoseconds, read by the caller and passed in. A lock is held through
-- each function, so each is one step on the state. The map of slots is a list of pairs with distinct
-- keys. Floats come by `Float`.
use mathlib.Core.List.{map}
use nexus_core_devops_engine.Base.{
  ℕ, ◌+◌, ◌-◌, ◌/◌, ◌%◌, min, max, Bool, true, false, List, [], ◌∷◌, ◌++◌, length, get_or, drop,
  ltb, leb, ◌==◌, if◌then◌else◌, Option, none, some, u32_mod, u64_mod,
}
use nexus_core_devops_engine.Base.Float.{Float}
use nexus_core_devops_engine.Engine.Blob.{GraphEngine, n_nodes, nnz, arena_len}
use nexus_core_devops_engine.Engine.Bfs.{done, panic, out_of_fuel, doc_len, bfs_posts}

abbrev pub tenant_pool : ℕ
tenant_pool = 256

abbrev pub lat_samples_cap : ℕ
lat_samples_cap = 12_288

abbrev pub max_results_per_query : ℕ
max_results_per_query = 64

abbrev pub second : ℕ
second = 1_000_000_000

pub record QueryTask : Type 0 where
  pub tenant_id : ℕ
  pub root_node_id : ℕ
  pub max_depth : ℕ

pub record Agg (F : Type 0) : Type 0 where
  pub lat_ns : List ℕ
  pub slot_last : List (ℕ × ℕ)
  pub queries_total : ℕ
  pub qps_window_start : ℕ
  pub qps_window_count : ℕ
  pub last_mean_docs : F

-- `slot_last.insert(slot, now)`
unfoldable pub touch : ℕ → ℕ → List (ℕ × ℕ) → List (ℕ × ℕ)
touch slot now [] = (slot, now) ∷ []
touch slot now ((s, t) ∷ rest) =
    let others = touch slot now rest in if s == slot then (slot, now) ∷ rest else (s, t) ∷ others

-- `slot_last.retain(|_, t| *t > cutoff)`, where the cutoff is one second before `now`.
unfoldable pub retain : ℕ → List (ℕ × ℕ) → List (ℕ × ℕ)
retain now [] = []
retain now ((s, t) ∷ rest) =
    let others = retain now rest in if ltb now (t + second) then (s, t) ∷ others else others

-- `v.sort_unstable()` on u64.
unfoldable pub insert : ℕ → List ℕ → List ℕ
insert x [] = x ∷ []
insert x (y ∷ ys) = if leb x y then x ∷ y ∷ ys else y ∷ insert x ys

unfoldable pub sort : List ℕ → List ℕ
unfolding insert
sort [] = []
sort (x ∷ xs) = insert x (sort xs)

unfoldable pub sum : List ℕ → ℕ
sum [] = 0
sum (x ∷ xs) = x + sum xs

-- The samples after a new one: a full buffer first loses its oldest quarter.
unfoldable pub push_sample : ℕ → List ℕ → List ℕ
push_sample lat samples =
    (if leb lat_samples_cap (length samples) then drop (length samples / 4) samples else samples)
    ++ lat ∷ []

module _ (fl : Float) where
  open fl use {F, of_u64, ratio, fadd, fsub, fmul, fdiv, fmax, fle, to_u64}

  -- `Agg::default()`, made at the time `now`.
  unfoldable pub default_agg : ℕ → Agg F
  default_agg now = record {
    lat_ns = [];
    slot_last = [];
    queries_total = 0;
    qps_window_start = now;
    qps_window_count = 0;
    last_mean_docs = ratio 0 1;
  }

  unfoldable pub record_query : ℕ → ℕ → ℕ → ℕ → Agg F → Agg F
  unfolding push_sample touch
  record_query now tenant_id lat_ns docs_returned a =
      let alpha = ratio 5 100 in
      record {
        lat_ns = push_sample lat_ns a.lat_ns;
        slot_last = touch (tenant_id % tenant_pool % 256) now a.slot_last;
        queries_total = (a.queries_total + 1) % u64_mod;
        qps_window_start = a.qps_window_start;
        qps_window_count = (a.qps_window_count + 1) % u64_mod;
        last_mean_docs =
            fadd (fmul a.last_mean_docs (fsub (ratio 1 1) alpha))
              (fmul (of_u64 docs_returned) alpha);
      }

  unfoldable pub prune_slots : ℕ → Agg F → Agg F
  unfolding retain
  prune_slots now a = record a { slot_last = retain now a.slot_last }

  -- The index of the 99th percentile.
  unfoldable pub p99_index : ℕ → ℕ
  p99_index len = min (to_u64 (fmul (of_u64 len) (ratio 99 100))) (len - 1)

  unfoldable pub p99_latency_us : Agg F → F
  unfolding p99_index
  p99_latency_us a =
      if length a.lat_ns == 0
      then ratio 0 1
      else fdiv (of_u64 (get_or (sort a.lat_ns) (p99_index (length a.lat_ns)) 0)) (ratio 1000 1)

  unfoldable pub mean_latency_us : Agg F → F
  unfolding sum
  mean_latency_us a =
      if length a.lat_ns == 0
      then ratio 0 1
      else fdiv (fdiv (of_u64 (sum a.lat_ns % u64_mod)) (of_u64 (length a.lat_ns))) (ratio 1000 1)

  -- The window is closed after a second; the rate is that of the window before.
  unfoldable pub roll_qps_window : ℕ → Agg F → Agg F × F
  roll_qps_window now a =
      let elapsed =
        fmax (fdiv (of_u64 (now - a.qps_window_start)) (of_u64 second)) (ratio 1 1000) in
      let qps = fdiv (of_u64 a.qps_window_count) elapsed in
      if fle (ratio 1 1) elapsed
      then (record a { qps_window_start = now; qps_window_count = 0 }, qps)
      else (a, qps)

  -- `arena_fragmentation_pct` of the graph: the share of the arena that no document length covers.
  unfoldable pub arena_fragmentation_pct : GraphEngine → F
  unfolding sum arena_len
  arena_fragmentation_pct g =
      let arena = of_u64 (arena_len g) in
      let used = sum (map doc_len g.doc_offsets) % u64_mod in
      if fle arena (ratio 0 1)
      then ratio 0 1
      else fdiv (fmul (ratio 100 1) (of_u64 (arena_len g - used))) arena

  -- The worker's step for one task: `t0` and `t1` are the times before and behind the search, `now`
  -- that of the update. A panic of the search ends the worker.
  unfoldable pub work_on : Option GraphEngine → ℕ → ℕ → ℕ → QueryTask → Agg F → Option (Agg F)
  unfolding record_query
  work_on none t0 t1 now task a = some (record_query now task.tenant_id 0 0 a)
  work_on (some eng) t0 t1 now task a =
      elim (bfs_posts eng task.root_node_id (min task.max_depth 8) max_results_per_query) [
        | done docs ↦ some (record_query now task.tenant_id ((t1 - t0) % u64_mod) (length docs) a)
        | panic ↦ none
        | out_of_fuel ↦ none
      ]

  pub record DashboardMetrics : Type 0 where
    pub queries_per_sec : F
    pub p99_bfs_latency_us : F
    pub mean_bfs_latency_us : F
    pub active_tenant_slots : ℕ
    pub tenant_pool_size : ℕ
    pub avg_docs_per_query : F
    pub tlb_miss_pct : Option F
    pub xdp_redirect_mps : Option F
    pub arena_fragmentation_pct : F
    pub io_uring_batch_avg : Option F
    pub graph_nodes : ℕ
    pub graph_edges : ℕ
    pub arena_bytes : ℕ
    pub queries_total : ℕ
    pub graph_loaded : Bool
    pub uptime_secs : F

  -- `metrics_json`: the aggregate is pruned and rolled before it is read. The arguments are the
  -- time, that of the start, the graph, and the smoothed rate of the state; the result has both parts
  -- of the state that change.
  unfoldable pub metrics_json :
      ℕ → ℕ → Option GraphEngine → F → Agg F → Agg F × F × DashboardMetrics
  unfolding prune_slots roll_qps_window p99_latency_us mean_latency_us arena_fragmentation_pct
  metrics_json now started graph smooth a =
      let (a', raw_qps) = roll_qps_window now (prune_slots now a) in
      let smooth' = fadd (fmul smooth (ratio 7 10)) (fmul raw_qps (ratio 3 10)) in
      (
        a',
        smooth',
        record {
          queries_per_sec = smooth';
          p99_bfs_latency_us = p99_latency_us a';
          mean_bfs_latency_us = mean_latency_us a';
          active_tenant_slots = length a'.slot_last % u32_mod;
          tenant_pool_size = tenant_pool;
          avg_docs_per_query = a'.last_mean_docs;
          tlb_miss_pct = none;
          xdp_redirect_mps = none;
          arena_fragmentation_pct = elim graph [
            | none ↦ ratio 0 1
            | some g ↦ arena_fragmentation_pct g
          ];
          io_uring_batch_avg = none;
          graph_nodes = elim graph [ none ↦ 0 | some g ↦ n_nodes g ];
          graph_edges = elim graph [ none ↦ 0 | some g ↦ nnz g ];
          arena_bytes = elim graph [ none ↦ 0 | some g ↦ arena_len g ];
          queries_total = a'.queries_total;
          graph_loaded = elim graph [ none ↦ false | some g ↦ true ];
          uptime_secs = fdiv (of_u64 (now - started)) (of_u64 second);
        },
      )

-- The task that is sent, from the numbers that the generator drew: a tenant below 50,000, a root of at
-- most `max_root`, and a depth from 1 to 4.
unfoldable pub max_root : Option GraphEngine → ℕ
max_root none = 0
max_root (some g) = max (n_nodes g) 1 - 1

abbrev pub next_task : ℕ → ℕ → ℕ → QueryTask
next_task tenant root depth = record { tenant_id = tenant; root_node_id = root; max_depth = depth }
