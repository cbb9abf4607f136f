-- ===== src/Witness/Service.antt =====
-- An aggregate of three queries, a host that answers one task, and its configuration.
use nexus_core_devops_engine.Base.{
  ◌⊎◌, ◌==◌, if◌then◌else◌, u16_mod, u64_mod, some, none, true, ℕ, ◌<◌, ◌≤◌, ◌≡◌, refl, [], ◌∷◌,
  arith,
}
use nexus_core_devops_engine.Witness.Numbers.{whole_numbers}
use nexus_core_devops_engine.Engine.Blob.{n_nodes}
use nexus_core_devops_engine.Engine.Bfs.{
  bfs_posts, bfs_loop, enough_fuel, total_len, visit, contains, scan_row, push_doc,
}
use nexus_core_devops_engine.Base.Text.{codes, number_or, parse_uint, parse_digits}
use nexus_core_devops_engine.Engine.Config.{
  HostEnv, host_config, Timer, producer, Ticks, producer_cases,
}
use nexus_core_devops_engine.Engine.Agg.{
  default_agg, work_on, record_query, touch, push_sample, Agg, QueryTask, max_root,
}
use nexus_core_devops_engine.Engine.Service.{Service, start, send, receive, finish}
use nexus_core_devops_engine.Engine.Servable.{IsServable}
use nexus_core_devops_engine.Engine.Runs.{Sound, begun, sent, received, finished, Run-Sound}
use nexus_core_devops_engine.Engine.Worker.{ActiveSlots, metrics_json-ActiveSlots}
use nexus_core_devops_engine.Witness.Engine.{triangle, triangle-IsWellFormed}

abbrev agg : Agg ℕ
agg = record {
  lat_ns = 5000 ∷ 900 ∷ 7000 ∷ [];
  slot_last = (3, 10) ∷ (250, 20) ∷ [];
  queries_total = 3;
  qps_window_start = 0;
  qps_window_count = 3;
  last_mean_docs = 0;
}

metrics_json-ActiveSlots_example : ActiveSlots whole_numbers 1_000_000_015 0 (some triangle) 5 agg
metrics_json-ActiveSlots_example =
    metrics_json-ActiveSlots whole_numbers 1_000_000_015 0 (some triangle) 5 agg

-- A host on the triangle that was started at 5, and one task.
abbrev first_task : QueryTask
first_task = record { tenant_id = 300; root_node_id = 2; max_depth = 3 }

abbrev waiting : Service ℕ
waiting = record {
  agg = record {
    lat_ns = [];
    slot_last = [];
    queries_total = 0;
    qps_window_start = 5;
    qps_window_count = 0;
    last_mean_docs = 0;
  };
  avg_qps_smoothed = 0;
  channel = first_task ∷ [];
  current = none;
  running = true;
}

abbrev busy : Service ℕ
busy = record waiting { channel = []; current = some first_task }

abbrev counted : Service ℕ
counted = record busy {
  agg = record {
    lat_ns = 80 ∷ [];
    slot_last = (44, 100) ∷ [];
    queries_total = 1;
    qps_window_start = 5;
    qps_window_count = 1;
    last_mean_docs = 0;
  };
  current = none;
}

first_sent : send whole_numbers first_task (start whole_numbers 5) ≡ some waiting
unfolding send start default_agg
first_sent = refl

first_received : receive whole_numbers waiting ≡ some busy
unfolding receive
first_received = refl

first_finished : finish whole_numbers (some triangle) 10 90 100 busy ≡ some counted
unfolding finish work_on record_query touch push_sample bfs_posts bfs_loop enough_fuel total_len
    visit contains scan_row push_doc
first_finished = refl

triangle-IsServable : IsServable triangle
triangle-IsServable = record {
  well_formed = triangle-IsWellFormed;
  nodes = omega arith;
  small = omega arith;
}

Run-Sound_example :
    Sound whole_numbers (some triangle) 5 (first_task ∷ []) (first_task ∷ []) counted
unfolding max_root n_nodes
Run-Sound_example =
    Run-Sound whole_numbers (some triangle) 5 (first_task ∷ []) (first_task ∷ []) counted
      triangle-IsServable
      (finished 10 90 100 first_task
        (received (sent 300 2 3 begun (omega arith) (omega arith) first_sent) first_received) refl
        first_finished)

-- A clock that is its period.
above_zero : (p : ℕ) → 0 < p → (if p == 0 then none else some p) ≡ some p
above_zero p pos = ground arith

abbrev whole_timer : Timer
whole_timer = record {
  Interval = ℕ;
  period = λ p. p;
  interval = λ p. if p == 0 then none else some p;
  interval_zero = refl;
  interval_some = λ p pos. (p, above_zero p pos, refl);
}

abbrev too_fast : HostEnv
too_fast = record {
  rps_var = some (codes "+2000000000");
  port_var = some (codes "99999");
  blob_var = none;
}

producer_cases_example :
    ((host_config too_fast).rps < u64_mod)
    × ((host_config too_fast).port < u16_mod)
    × (((1_000_000_000 < (host_config too_fast).rps) × (producer whole_timer too_fast ≡ none))
        ⊎ (((host_config too_fast).rps ≤ 1_000_000_000) × Ticks whole_timer too_fast))
producer_cases_example = producer_cases whole_timer too_fast

too_fast_rps : (host_config too_fast).rps ≡ 2_000_000_000
unfolding host_config number_or parse_uint parse_digits
too_fast_rps = refl

too_fast_port : (host_config too_fast).port ≡ 9847
unfolding host_config number_or parse_uint parse_digits
too_fast_port = refl
