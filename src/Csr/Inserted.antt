-- ===== src/Csr/Inserted.antt =====
-- The bulk insertion of main.rs on batches that fit: it returns the number of its edges, and the graph has
-- them all.
use nexus_core_devops_engine.Base.{
  ℕ, ◌+◌, ◌%◌, ◌≤◌, ◌<◌, ◌≡◌, refl, ap, ◌∙◌, inl, inr, true, false, List, [], ◌∷◌, ◌++◌, length,
  ◌==◌, arith, u32_mod, u64_mod, length-append, subst, sym, map,
}
use nexus_core_devops_engine.Csr.Graph.{Edge, CsrGraph, ok, generation}
use nexus_core_devops_engine.Csr.Sort.{sort_edges, length-sort}
use nexus_core_devops_engine.Csr.Insert.{all_in_range, add_edge_batch}
use nexus_core_devops_engine.Csr.Repr.{Repr}
use nexus_core_devops_engine.Csr.Refine.{add_edge_batch_atomic}
use nexus_core_devops_engine.Csr.Bulk.{without_loops, continue_with, bulk_insert}
use nexus_core_devops_engine.Csr.History.{add_all, AllInRange}

-- The edges of the batches that are not loops.
abbrev pub drawn_edges : List (List Edge) → ℕ
drawn_edges [] = 0
drawn_edges (batch ∷ rest) = length (without_loops batch) + drawn_edges rest

pub in_range-without_loops :
    (n : ℕ) (es : List Edge) → all_in_range n es ≡ true → all_in_range n (without_loops es) ≡ true
unfolding all_in_range without_loops
in_range-without_loops n [] h = refl
in_range-without_loops n ((a, b) ∷ es) h = ground (arith, in_range-without_loops n es)

-- The batches that hold an edge.
abbrev pub growing : List Edge → ℕ
growing [] = 0
growing (e ∷ es) = 1

abbrev pub grown_batches : List (List Edge) → ℕ
grown_batches [] = 0
grown_batches (batch ∷ rest) = growing batch + grown_batches rest

growing-none : (batch : List Edge) → length batch ≡ 0 → growing batch ≡ 0
growing-none [] h = refl
growing-none (e ∷ es) h = absurd (omega arith)

growing-some : (batch : List Edge) → (length batch == 0) ≡ false → growing batch ≡ 1
growing-some [] h = absurd cc
growing-some (e ∷ es) h = refl

-- A graph that stands for `count` edges.
pub record HoldsEdges (g : CsrGraph) (count : ℕ) : Type 0 where
  pub edges : List Edge
  pub repr : Repr g edges
  pub counted : length edges ≡ count

-- One batch of a bulk insertion that fits: the call returns the number of its edges.
record Added (g g' : CsrGraph) (batch : List Edge) (count : ℕ) : Type 0 where
  returns : add_edge_batch g batch ≡ (g', ok (length batch))
  holds : HoldsEdges g' (count + length batch)
  same_nodes : g'.hdr.node_capacity ≡ g.hdr.node_capacity
  same_edges : g'.hdr.edge_capacity ≡ g.hdr.edge_capacity
  aged : generation g' % u64_mod ≡ (generation g + growing batch) % u64_mod

add_batch :
    (g : CsrGraph) (count : ℕ) (batch : List Edge)
    → HoldsEdges g count
    → count + length batch ≤ g.hdr.edge_capacity
    → all_in_range g.hdr.node_capacity batch ≡ true
    → (g' : CsrGraph) × Added g g' batch count
add_batch g count batch h fit valid = elim (add_edge_batch_atomic g h.edges batch h.repr) [
  | inl (empty, e) ↦ (
    g,
    record {
      returns = e ∙ ap (λ n. (g, ok n)) (sym empty);
      holds = record { edges = h.edges; repr = h.repr; counted = omega (arith, h.counted) };
      same_nodes = refl;
      same_edges = refl;
      aged = omega (arith, growing-none batch empty);
    },
  )
  | inr (inl (over, e)) ↦ absurd (omega (arith, h.counted))
  | inr (inr (inl (ok_fit, invalid, e))) ↦ absurd (ground arith)
  | inr (inr (inr (g', m))) ↦ (
    g',
    record {
      returns = m.returns;
      holds = record {
        edges = sort_edges (h.edges ++ batch);
        repr = m.repr;
        counted =
            omega (arith, length-sort (h.edges ++ batch), length-append h.edges batch, h.counted);
      };
      same_nodes = m.same_nodes;
      same_edges = m.same_edges;
      aged = omega (arith, m.next_generation, growing-some batch m.some);
    },
  )
]

-- A bulk insertion whose batches name only nodes of the graph, and whose edges other than loops
-- fit the capacity, ends with `Ok`: the total grows by the number of those edges, the graph
-- holds that many more, it is the graph after the calls for all batches, and its generation, as a
-- u64, grew by the number of the batches with such an edge. (The total must not exceed the edges
-- held, as at the start, where it is 0.)
pub bulk_insert_counts :
    (batches : List (List Edge)) (g : CsrGraph) (count total : ℕ)
    → HoldsEdges g count
    → total ≤ count
    → count + drawn_edges batches ≤ g.hdr.edge_capacity
    → AllInRange g.hdr.node_capacity batches
    → (bulk_insert batches g total
        ≡ (add_all g (map without_loops batches), ok (total + drawn_edges batches)))
      × HoldsEdges (add_all g (map without_loops batches)) (count + drawn_edges batches)
      × (generation (add_all g (map without_loops batches)) % u64_mod
          ≡ (generation g + grown_batches (map without_loops batches)) % u64_mod)
unfolding bulk_insert continue_with add_all
bulk_insert_counts [] g count total h small fit valid =
    let e : total + 0 ≡ total = omega arith in
    let e' : count + 0 ≡ count = omega arith in
    (ap (λ n. (g, ok n)) (sym e), subst (HoldsEdges g) (sym e') h, omega arith)
bulk_insert_counts (drawn ∷ rest) g count total h small fit valid =
    let batch = without_loops drawn in
    let n = length batch in
    let (g₁, a) =
      add_batch g count batch h (omega arith) (in_range-without_loops _ drawn valid.0) in
    let cap : g.hdr.edge_capacity < u32_mod = omega (arith, h.repr.layout.fits) in
    let (e, r, aged) =
      bulk_insert_counts rest g₁ (count + n) (total + n) a.holds (omega arith)
        (omega (arith, a.same_edges)) (subst (λ k. AllInRange k rest) (sym a.same_nodes) valid.1) in
    let end = add_all g₁ (map without_loops rest) in
    let small_sum : (total + n) % u32_mod ≡ total + n = omega arith in
    let sum : (total + n) + drawn_edges rest ≡ total + (n + drawn_edges rest) = omega arith in
    let sum' : (count + n) + drawn_edges rest ≡ count + (n + drawn_edges rest) = omega arith in
    let next : add_all g (map without_loops (drawn ∷ rest)) ≡ end =
      ap (λ p. add_all p.0 (map without_loops rest)) a.returns in
    let all = total + (n + drawn_edges rest) in
    (
      ap (continue_with (bulk_insert rest) total) a.returns
          ∙ ap (bulk_insert rest g₁) small_sum
          ∙ e
          ∙ ap (λ k. (end, ok k)) sum
          ∙ ap (λ x. (x, ok all)) (sym next),
      subst (λ x. HoldsEdges x (count + (n + drawn_edges rest))) (sym next)
          (subst (HoldsEdges end) sum' r),
      ap (λ x. generation x % u64_mod) next ∙ omega (arith, aged, a.aged),
    )
