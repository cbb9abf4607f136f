-- ===== src/Csr/Finish.antt =====
-- The benchmark of main.rs from the allocation to the report.
use nexus_core_devops_engine.Base.{
  ℕ, ◌+◌, ◌*◌, ◌/◌, ◌≤◌, ◌<◌, ◌≡◌, refl, ap, sym, ◌∙◌, subst, List, [], length, take, map, arith,
  u32_mod, length-replicate, u64_mod, ◌%◌,
}
use nexus_core_devops_engine.Csr.Graph.{
  Edge, CsrGraph, ok, required_bytes, init_header, init, generation, watermark,
}
use nexus_core_devops_engine.Csr.Sort.{sort_edges}
use nexus_core_devops_engine.Csr.Repr.{Repr, Repr-init, hdr-init}
use nexus_core_devops_engine.Csr.Bulk.{without_loops}
use nexus_core_devops_engine.Csr.History.{add_all, add_all-refines, add_all-watermark, AllInRange}
use nexus_core_devops_engine.Csr.Inserted.{
  grown_batches, drawn_edges, HoldsEdges, bulk_insert_counts,
}
use nexus_core_devops_engine.Csr.Batches.{apply_all-sorted, sort_none}
use nexus_core_devops_engine.Csr.Hot.{hot_nodes-IsHotList}
use nexus_core_devops_engine.Csr.Benchmark.{
  node_capacity, edge_capacity, bench_edges, batch_size, Rng, DegreeSort, draw_batches, Report,
  run_benchmark, zeroed, main,
}
use nexus_core_devops_engine.Csr.Top.{TopHot, take-TopHot}
use nexus_core_devops_engine.Csr.Draws.{
  inserted_edges, length-inserted_edges, inserted-AllInRange, draw_batches-AllInRange,
  drawn_edges-draw_batches,
}

length-zeroed : (n e : ℕ) → 4 * length (zeroed (required_bytes n e)) ≡ required_bytes n e
unfolding zeroed required_bytes
length-zeroed n e =
    let cells = (64 + (n + 1) * 4 + e * 4) / 4 in omega (arith, length-replicate {A = ℕ} cells 0)

-- The graph that the benchmark starts with.
record Allocated (n e : ℕ) (g : CsrGraph) : Type 0 where
  returns : init (zeroed (required_bytes n e)) (required_bytes n e) n e ≡ ok g
  repr : Repr g []
  nodes : g.hdr.node_capacity ≡ n
  edges : g.hdr.edge_capacity ≡ e
  mark : watermark g ≡ required_bytes n e
  fresh : generation g ≡ 0

init-Allocated : (n e : ℕ) → required_bytes n e < u32_mod → (g : CsrGraph) × Allocated n e g
unfolding init_header watermark generation required_bytes
init-Allocated n e small =
    let size = required_bytes n e in
    let memory = zeroed size in
    let long : 4 * length memory ≡ size = length-zeroed n e in
    let (g, done, r) = Repr-init memory n e (omega (arith, long)) small in
    let same = hdr-init memory (4 * length memory) n e g done in
    (
      g,
      record {
        returns = subst (λ k. init memory k n e ≡ ok g) long done;
        repr = r;
        nodes = ap (λ h. h.node_capacity) same;
        edges = ap (λ h. h.edge_capacity) same;
        mark = ap (λ h. h.bump_watermark) same ∙ omega arith;
        fresh = ap (λ h. h.generation) same;
      },
    )

required_bytes-benchmark : required_bytes node_capacity edge_capacity < u32_mod
unfolding required_bytes
required_bytes-benchmark = omega arith

-- How the benchmark ends: with the graph `g` and the report.
pub record Finished (drawn : List (List Edge)) (g : CsrGraph) (report : Report) : Type 0 where
  pub graph : Repr g (sort_edges (inserted_edges drawn))
  pub inserted : report.inserted ≡ length (inserted_edges drawn)
  pub bounded : report.inserted ≤ bench_edges
  pub aged : report.generation % u64_mod ≡ grown_batches (map without_loops drawn) % u64_mod
  pub mark : report.watermark ≡ required_bytes node_capacity edge_capacity
  pub top : TopHot (sort_edges (inserted_edges drawn)) report.top

module _ (by_degree : DegreeSort) where
  abbrev reported : CsrGraph → List (ℕ × ℕ) → ℕ → Report
  reported g hot total = record {
    inserted = total;
    generation = generation g;
    watermark = watermark g;
    top = take 5 (by_degree.sort hot);
  }

  run_benchmark-Finished :
      (drawn : List (List Edge)) (g : CsrGraph)
      → Allocated node_capacity edge_capacity g
      → AllInRange node_capacity drawn
      → drawn_edges drawn ≤ bench_edges
      → (g' : CsrGraph) × (report : Report) × (run_benchmark by_degree drawn g ≡ (g', ok report))
        × Finished drawn g' report
  unfolding run_benchmark
  run_benchmark-Finished drawn g a valid few =
      let es = inserted_edges drawn in
      let valid' = subst (λ n. AllInRange n drawn) (sym a.nodes) valid in
      let start : HoldsEdges g 0 = record { edges = []; repr = a.repr; counted = refl } in
      let (done, held, aged) =
        bulk_insert_counts drawn g 0 0 start (omega arith) (omega (arith, a.edges)) valid' in
      let g' = add_all g (map without_loops drawn) in
      let merged =
        apply_all-sorted g.hdr.node_capacity g.hdr.edge_capacity [] (map without_loops drawn)
          sort_none (inserted-AllInRange g.hdr.node_capacity drawn valid')
          (omega (arith, a.edges, length-inserted_edges drawn)) in
      let r : Repr g' (sort_edges es) =
        subst (Repr g') merged (add_all-refines (map without_loops drawn) g [] a.repr) in
      let none_before : 0 + drawn_edges drawn ≡ drawn_edges drawn = omega arith in
      let (hot, h) = hot_nodes-IsHotList g' (sort_edges es) r in
      (
        g',
        reported g' hot (drawn_edges drawn),
        rw (done, h.returns) (ap (λ n. (g', ok (reported g' hot n))) none_before),
        record {
          graph = r;
          inserted = sym (length-inserted_edges drawn);
          bounded = few;
          aged = omega (arith, aged, a.fresh);
          mark = add_all-watermark (map without_loops drawn) g [] a.repr ∙ a.mark;
          top = take-TopHot by_degree g' (sort_edges es) r hot h;
        },
      )

  -- The whole benchmark, for every generator with its documented range and every sort by degree:
  -- the allocation succeeds and no insertion fails. The graph stands for the sorted edges drawn that
  -- are not loops; the report counts these, at most `bench_edges`, its generation is the number of
  -- batches with such an edge, its watermark all of the memory, and it lists the hottest nodes, each
  -- once and at most five, in descending order, of which none is left out but for five at least as hot.
  pub main-Finished :
      (rng : Rng) (seeded : rng.State)
      → (g : CsrGraph) × (report : Report) × (main by_degree rng seeded ≡ ok (g, ok report))
        × Finished (draw_batches rng (bench_edges / batch_size) seeded) g report
  unfolding main
  main-Finished rng seeded =
      let drawn = draw_batches rng (bench_edges / batch_size) seeded in
      let small : required_bytes node_capacity edge_capacity < u32_mod = required_bytes-benchmark in
      let (g₀, a) = init-Allocated node_capacity edge_capacity small in
      let (g, report, done, finished) =
        run_benchmark-Finished drawn g₀ a (draw_batches-AllInRange rng _ seeded)
          (drawn_edges-draw_batches rng _ seeded) in
      (g, report, rw a.returns (ap ok done), finished)
