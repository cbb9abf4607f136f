-- ===== src/Engine/Servable.antt =====
-- The graphs that the host can serve, the tasks on them, and what the worker records of one.
use nexus_core_devops_engine.Base.{
  ℕ, ◌+◌, ◌-◌, ◌%◌, ◌≤◌, ◌<◌, ◌≡◌, refl, Option, none, some, [], ◌∷◌, length, u32_mod, u64_mod,
}
use nexus_core_devops_engine.Base.Float.{Float}
use nexus_core_devops_engine.Engine.Blob.{GraphEngine}
use nexus_core_devops_engine.Engine.Ends.{IsWellFormed}
use nexus_core_devops_engine.Engine.Agg.{
  Agg, QueryTask, lat_samples_cap, next_task, max_root, record_query, work_on,
}
use nexus_core_devops_engine.Engine.Samples.{Query, IsSlotMap, record_all, record_all-Recorded}
use nexus_core_devops_engine.Engine.Worker.{work_on-Worked, next_task_lem}

-- A graph that the host can serve: well-formed, with at least one node, and with no more row pointers
-- than a u32 counts.
pub record IsServable (g : GraphEngine) : Type 0 where
  pub well_formed : IsWellFormed g
  pub nodes : 1 < length g.row_ptr
  pub small : length g.row_ptr ≤ u32_mod

abbrev pub Servable : Option GraphEngine → Type 0
Servable none = Unit
Servable (some g) = IsServable g

-- A task starts at a node of the graph.
abbrev pub Starts : Option GraphEngine → QueryTask → Type 0
Starts none task = Unit
Starts (some g) task = task.root_node_id + 1 < length g.row_ptr

pub drawn :
    (graph : Option GraphEngine) (tenant root depth : ℕ)
    → Servable graph
    → root ≤ max_root graph
    → depth ≤ 4
    → Starts graph (next_task tenant root depth)
drawn none tenant root depth h low shallow = tt
drawn (some g) tenant root depth h low shallow =
    (next_task_lem g tenant root depth h.nodes h.small low shallow).0

-- The worker records each task, with a graph and without one.
pub worked :
    (fl : Float) (graph : Option GraphEngine) (t0 t1 now : ℕ) (task : QueryTask) (a : Agg fl.F)
    → Servable graph
    → (lat : ℕ) × (docs : ℕ) × (work_on fl graph t0 t1 now task a
        ≡ some (record_query fl now task.tenant_id lat docs a))
unfolding work_on
worked fl none t0 t1 now task a h = (0, 0, refl)
worked fl (some g) t0 t1 now task a h =
    let (docs, w) = work_on-Worked fl g t0 t1 now task a h.well_formed in
    ((t1 - t0) % u64_mod, length docs, w.recorded)

pub recorded_one :
    (fl : Float) (now tenant lat docs : ℕ) (a : Agg fl.F)
    → length a.lat_ns ≤ lat_samples_cap
    → IsSlotMap a.slot_last
    → (length (record_query fl now tenant lat docs a).lat_ns ≤ lat_samples_cap)
      × IsSlotMap (record_query fl now tenant lat docs a).slot_last
      × ((record_query fl now tenant lat docs a).queries_total ≡ (a.queries_total + 1) % u64_mod)
unfolding record_all record_query
recorded_one fl now tenant lat docs a few slots =
    let q : Query = record { now = now; tenant_id = tenant; lat_ns = lat; docs = docs } in
    let r = record_all-Recorded fl (q ∷ []) a few slots in (r.window.bounded, r.slots, refl)
