-- ===== src/Engine/Worker.antt =====
-- main.rs of the host: the worker's step, and the slots that the metrics count as active.
use nexus_core_devops_engine.Base.{
  ℕ, ◌+◌, ◌-◌, ◌%◌, min, ◌≤◌, ◌<◌, ◌≡◌, refl, ap, ◌↔◌, inl, inr, List, [], ◌∷◌, length, Memᴰ,
  Memᴰ-cons, Memᴰ-not-nil, ltb, ltb→lt, ltb→le, Bool-cases, some, Option, u32_mod, u64_mod, arith,
}
use nexus_core_devops_engine.Base.Float.{Float}
use nexus_core_devops_engine.Engine.Blob.{GraphEngine, n_nodes}
use nexus_core_devops_engine.Engine.Ends.{IsWellFormed}
use nexus_core_devops_engine.Engine.Walks.{Answer, bfs_posts_sound}
use nexus_core_devops_engine.Engine.Agg.{
  next_task, max_root, Agg, QueryTask, second, max_results_per_query, retain, record_query,
  metrics_json, prune_slots, roll_qps_window, work_on,
}

-- What the worker's step does for a task: the search answers it, with at most 64 documents, and
-- exactly its time and the number of its documents are recorded.
pub record Worked (fl : Float) (g : GraphEngine) (t0 t1 now : ℕ) (task : QueryTask) (a : Agg fl.F)
    (docs : List (List ℕ)) : Type 0 where
  pub answer : Answer g task.root_node_id (min task.max_depth 8) max_results_per_query docs
  pub few : length docs ≤ max_results_per_query
  pub recorded :
      work_on fl (some g) t0 t1 now task a
      ≡ some (record_query fl now task.tenant_id ((t1 - t0) % u64_mod) (length docs) a)

-- On a well-formed graph the worker survives every task: the search returns an answer of at most 64
-- documents, and its time and their number are recorded.
pub work_on-Worked :
    (fl : Float) (g : GraphEngine) (t0 t1 now : ℕ) (task : QueryTask) (a : Agg fl.F)
    → IsWellFormed g
    → (docs : List (List ℕ)) × Worked fl g t0 t1 now task a docs
unfolding work_on
work_on-Worked fl g t0 t1 now task a w =
    let (docs, answer) =
      bfs_posts_sound g task.root_node_id (min task.max_depth 8) max_results_per_query w
        (omega arith) (omega arith) in
    (
      docs,
      record { answer = answer; few = answer.few; recorded = rw (work_on, answer.returns) refl },
    )

-- Pruning keeps the slots whose last query is less than a second old.
retain_iff :
    (now slot t : ℕ) (ps : List (ℕ × ℕ))
    → Memᴰ (slot, t) (retain now ps) ↔ (Memᴰ (slot, t) ps × (now < t + second))
unfolding retain
retain_iff now slot t [] = (λ m. absurd (Memᴰ-not-nil _ m), λ (m, lt). absurd (Memᴰ-not-nil _ m))
retain_iff now slot t ((p, u) ∷ ps) =
    let ih = retain_iff now slot t ps in
    let before = Memᴰ-cons (slot, t) (p, u) ps in
    let behind = Memᴰ-cons (slot, t) (p, u) (retain now ps) in
    elim (Bool-cases (ltb now (u + second))) [
      | inl young ↦ rw young (
        λ m. elim (behind.0 m) [
          | inl e ↦
              let same : t ≡ u = ap (λ q. q.1) e in
              (before.1 (inl e), omega (arith, same, ltb→lt _ _ young))
          | inr n ↦ (before.1 (inr (ih.0 n).0), (ih.0 n).1)
        ],
        λ (m, lt). elim (before.0 m) [
          | inl e ↦ behind.1 (inl e)
          | inr n ↦ behind.1 (inr (ih.1 (n, lt)))
        ],
      )
      | inr old ↦ rw old (
        λ m. (before.1 (inr (ih.0 m).0), (ih.0 m).1),
        λ (m, lt). elim (before.0 m) [
          | inl e ↦
              let same : t ≡ u = ap (λ q. q.1) e in absurd (omega (arith, same, ltb→le _ _ old))
          | inr n ↦ ih.1 (n, lt)
        ],
      )
    ]

-- What the metrics say of the slots: the number of those that are kept, which are the slots seen less
-- than a second ago.
pub record ActiveSlots (fl : Float) (now started : ℕ) (graph : Option GraphEngine) (smooth : fl.F)
    (a : Agg fl.F) : Type 0 where
  pub kept :
      (slot t : ℕ)
      → Memᴰ (slot, t) (metrics_json fl now started graph smooth a).0.slot_last
        ↔ (Memᴰ (slot, t) a.slot_last × (now < t + second))
  pub active :
      (metrics_json fl now started graph smooth a).2.active_tenant_slots
      ≡ length (metrics_json fl now started graph smooth a).0.slot_last % u32_mod
  pub same_samples : (metrics_json fl now started graph smooth a).0.lat_ns ≡ a.lat_ns
  pub same_total : (metrics_json fl now started graph smooth a).0.queries_total ≡ a.queries_total

roll_keeps :
    (fl : Float) (now : ℕ) (a : Agg fl.F)
    → ((roll_qps_window fl now a).0.slot_last ≡ a.slot_last)
      × ((roll_qps_window fl now a).0.lat_ns ≡ a.lat_ns)
      × ((roll_qps_window fl now a).0.queries_total ≡ a.queries_total)
unfolding roll_qps_window
roll_keeps fl now a =
    let elapsed =
      fl.fmax (fl.fdiv (fl.of_u64 (now - a.qps_window_start)) (fl.of_u64 second))
        (fl.ratio 1 1000) in
    elim (Bool-cases (fl.fle (fl.ratio 1 1) elapsed)) [
      | inl over ↦ rw over (refl, refl, refl)
      | inr within ↦ rw within (refl, refl, refl)
    ]

pub metrics_json-retain :
    (fl : Float) (now started : ℕ) (graph : Option GraphEngine) (smooth : fl.F) (a : Agg fl.F)
    → (metrics_json fl now started graph smooth a).0.slot_last ≡ retain now a.slot_last
unfolding metrics_json prune_slots
metrics_json-retain fl now started graph smooth a = (roll_keeps fl now (prune_slots fl now a)).0

-- A call for the metrics drops exactly the slots that were not seen in the last second, reports how
-- many are left, and loses no sample and no count of queries.
pub metrics_json-ActiveSlots :
    (fl : Float) (now started : ℕ) (graph : Option GraphEngine) (smooth : fl.F) (a : Agg fl.F)
    → ActiveSlots fl now started graph smooth a
unfolding metrics_json prune_slots
metrics_json-ActiveSlots fl now started graph smooth a =
    let (slots, samples, total) = roll_keeps fl now (prune_slots fl now a) in
    record {
      kept = λ slot t. rw slots (retain_iff now slot t a.slot_last);
      active = refl;
      same_samples = samples;
      same_total = total;
    }

-- A task that is drawn for a loaded graph of at least one node starts at a node of the graph, and its
-- depth is not cut off by the worker.
pub next_task_lem :
    (g : GraphEngine) (tenant root depth : ℕ)
    → 1 < length g.row_ptr
    → length g.row_ptr ≤ u32_mod
    → root ≤ max_root (some g)
    → depth ≤ 4
    → ((next_task tenant root depth).root_node_id + 1 < length g.row_ptr)
      × (min (next_task tenant root depth).max_depth 8 ≡ depth)
unfolding max_root n_nodes
next_task_lem g tenant root depth nodes small drawn shallow = (omega arith, omega arith)
