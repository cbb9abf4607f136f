-- ===== src/Csr/Benchmark.antt =====
-- main.rs: the whole benchmark. The random generator and the unstable sort by degree are libraries and
-- arguments, with what they document; the progress output and the times are left out.
use mathlib.Core.List.{Permᴰ}
use nexus_core_devops_engine.Base.{
  ℕ, zero, suc, ◌/◌, ◌≤◌, ◌<◌, Bool, List, [], ◌∷◌, replicate, take, All, if◌then◌else◌,
}
use nexus_core_devops_engine.Csr.Graph.{
  Edge, CsrGraph, Outcome, ok, err, panic, required_bytes, init, generation, watermark,
}
use nexus_core_devops_engine.Csr.Bulk.{bulk_insert, hot_nodes}

abbrev pub node_capacity : ℕ
node_capacity = 1_000_000

abbrev pub edge_capacity : ℕ
edge_capacity = 50_000_000

abbrev pub bench_edges : ℕ
bench_edges = 5_000_000

abbrev pub batch_size : ℕ
batch_size = 10_000

-- The generator: `gen_bool(0.20)`, and `gen_range(0..n)`, which is documented for `0 < n`.
pub record Rng : Type 1 where
  pub State : Type 0
  pub gen_bool : State → Bool × State
  pub gen_range : ℕ → State → ℕ × State
  pub gen_range-lt : (n : ℕ) (s : State) → 0 < n → (gen_range n s).0 < n

-- No degree is above an earlier one.
abbrev pub Descending : List (ℕ × ℕ) → Type 0
Descending [] = Unit
Descending (p ∷ ps) = All (λ q. q.1 ≤ p.1) ps × Descending ps

-- `sort_unstable_by_key` with the degree reversed: the order of pairs of one degree is not said.
pub record DegreeSort : Type 0 where
  pub sort : List (ℕ × ℕ) → List (ℕ × ℕ)
  pub sort-perm : (ps : List (ℕ × ℕ)) → Permᴰ (sort ps) ps
  pub sort-Descending : (ps : List (ℕ × ℕ)) → Descending (sort ps)

module _ (rng : Rng) where
  open rng use {State, gen_bool, gen_range}

  unfoldable pub draw_src : State → ℕ × State
  draw_src s =
      let (wide, s') = gen_bool s in
      gen_range (if wide then node_capacity else node_capacity / 100) s'

  -- The edges that are drawn for a batch, loops among them.
  unfoldable pub draw_batch : ℕ → State → List Edge × State
  unfolding draw_src
  draw_batch zero s = ([], s)
  draw_batch (suc rounds) s =
      let (src, s₁) = draw_src s in
      let (dst, s₂) = gen_range node_capacity s₁ in
      let (rest, s₃) = draw_batch rounds s₂ in ((src, dst) ∷ rest, s₃)

  -- The graph has no say in what is drawn, so all batches are drawn beforehand.
  unfoldable pub draw_batches : ℕ → State → List (List Edge)
  unfolding draw_batch
  draw_batches zero s = []
  draw_batches (suc n) s = let (batch, s') = draw_batch batch_size s in batch ∷ draw_batches n s'

-- What the benchmark prints: the edges inserted, the generation, the watermark and the hottest nodes.
pub record Report : Type 0 where
  pub inserted : ℕ
  pub generation : ℕ
  pub watermark : ℕ
  pub top : List (ℕ × ℕ)

-- `vec![0u8; mem_size]` as cells.
unfoldable pub zeroed : ℕ → List ℕ
zeroed mem_size = replicate (mem_size / 4) 0

module _ (by_degree : DegreeSort) where
  -- `hot_nodes.iter().take(5)` of the sorted pairs.
  abbrev pub report_hot : CsrGraph → ℕ → Outcome (List (ℕ × ℕ)) → CsrGraph × Outcome Report
  report_hot g total (ok hot) = (
    g,
    ok (record {
      inserted = total;
      generation = generation g;
      watermark = watermark g;
      top = take 5 (by_degree.sort hot);
    }),
  )
  report_hot g total (err e) = (g, err e)
  report_hot g total panic = (g, panic)

  abbrev pub scan_inserted : CsrGraph × Outcome ℕ → CsrGraph × Outcome Report
  scan_inserted (g, ok total) = report_hot g total (hot_nodes g)
  scan_inserted (g, err e) = (g, err e)
  scan_inserted (g, panic) = (g, panic)

  unfoldable pub run_benchmark : List (List Edge) → CsrGraph → CsrGraph × Outcome Report
  run_benchmark drawn g = scan_inserted (bulk_insert drawn g 0)

  -- The error of `init`, or the graph and the outcome of the benchmark.
  abbrev pub run_on : List (List Edge) → Outcome CsrGraph → Outcome (CsrGraph × Outcome Report)
  run_on drawn (ok g) = ok (run_benchmark drawn g)
  run_on drawn (err e) = err e
  run_on drawn panic = panic

  unfoldable pub main : (rng : Rng) → rng.State → Outcome (CsrGraph × Outcome Report)
  main rng seeded =
      let mem_size = required_bytes node_capacity edge_capacity in
      run_on (draw_batches rng (bench_edges / batch_size) seeded)
        (init (zeroed mem_size) mem_size node_capacity edge_capacity)
