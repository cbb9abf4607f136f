-- ===== src/Csr/History.antt =====
-- Runs of many calls, against the sorted list of all accepted edges.
use nexus_core_devops_engine.Base.{
  ℕ, ◌+◌, ◌≤◌, ◌<◌, ◌≡◌, refl, ◌∙◌, inl, inr, true, false, List, [], ◌∷◌, ◌++◌, length, ltb, ◌==◌,
  ==_iff, if◌then◌else◌, Bool-cases, arith, le→ltb, lt→ltb, All, subst, sym,
}
use nexus_core_devops_engine.Csr.Graph.{Edge, CsrGraph, watermark}
use nexus_core_devops_engine.Csr.Sort.{sort_edges}
use nexus_core_devops_engine.Csr.Insert.{all_in_range, add_edge_batch}
use nexus_core_devops_engine.Csr.Repr.{Repr}
use nexus_core_devops_engine.Csr.Refine.{add_edge_batch_atomic}

-- The abstract graph: a batch is merged whole if it fits and names only nodes of the graph, and dropped
-- otherwise. (wit/edges.wit speaks of a part of the batch at capacity, which the code never inserts.)
pub apply_batch : ℕ → ℕ → List Edge → List Edge → List Edge
apply_batch nodes capacity es batch =
    if length batch == 0
    then es
    else if ltb capacity (length es + length batch)
    then es
    else if all_in_range nodes batch
    then sort_edges (es ++ batch)
    else es

unfoldable pub apply_all : ℕ → ℕ → List Edge → List (List Edge) → List Edge
apply_all nodes capacity es [] = es
apply_all nodes capacity es (batch ∷ rest) =
    apply_all nodes capacity (apply_batch nodes capacity es batch) rest

-- The calls one after the other, whatever they return.
unfoldable pub add_all : CsrGraph → List (List Edge) → CsrGraph
add_all g [] = g
add_all g (batch ∷ rest) = add_all (add_edge_batch g batch).0 rest

module _ (nodes capacity : ℕ) (es batch : List Edge) where
  pub apply_empty : length batch ≡ 0 → apply_batch nodes capacity es batch ≡ es
  unfolding apply_batch
  apply_empty h = rw ((==_iff _ 0).1 h)

  apply_over : capacity < length es + length batch → apply_batch nodes capacity es batch ≡ es
  unfolding apply_batch
  apply_over h =
      rw (lt→ltb _ _ h) (elim (Bool-cases (length batch == 0)) [ inl e ↦ rw e | inr e ↦ rw e ])

  apply_invalid : all_in_range nodes batch ≡ false → apply_batch nodes capacity es batch ≡ es
  unfolding apply_batch
  apply_invalid h = rw h (ground arith)

  pub apply_merge :
      (length batch == 0) ≡ false
      → length es + length batch ≤ capacity
      → all_in_range nodes batch ≡ true
      → apply_batch nodes capacity es batch ≡ sort_edges (es ++ batch)
  unfolding apply_batch
  apply_merge some fit valid = rw (some, le→ltb _ _ fit, valid)

-- One call refines one step of the abstract graph.
pub record Stepped (g g' : CsrGraph) (es batch : List Edge) : Type 0 where
  pub repr : Repr g' (apply_batch g.hdr.node_capacity g.hdr.edge_capacity es batch)
  same_nodes : g'.hdr.node_capacity ≡ g.hdr.node_capacity
  same_edges : g'.hdr.edge_capacity ≡ g.hdr.edge_capacity
  same_watermark : watermark g' ≡ watermark g

pub add_edge_batch-steps :
    (g : CsrGraph) (es batch : List Edge)
    → Repr g es
    → Stepped g (add_edge_batch g batch).0 es batch
add_edge_batch-steps g es batch r = elim (add_edge_batch_atomic g es batch r) [
  | inl (empty, e) ↦ rw e (unchanged (apply_empty _ _ es batch empty))
  | inr (inl (over, e)) ↦ rw e (unchanged (apply_over _ _ es batch over))
  | inr (inr (inl (fit, invalid, e))) ↦ rw e (unchanged (apply_invalid _ _ es batch invalid))
  | inr (inr (inr (g', m))) ↦
      let merged =
        apply_merge g.hdr.node_capacity g.hdr.edge_capacity es batch m.some m.fit m.valid in
      rw m.returns (record {
        repr = subst (Repr g') (sym merged) m.repr;
        same_nodes = m.same_nodes;
        same_edges = m.same_edges;
        same_watermark = m.same_watermark;
      })
]
  where
    unchanged :
        apply_batch g.hdr.node_capacity g.hdr.edge_capacity es batch ≡ es → Stepped g g es batch
    unchanged e = record {
      repr = subst (Repr g) (sym e) r;
      same_nodes = refl;
      same_edges = refl;
      same_watermark = refl;
    }

-- After any sequence of calls the graph stands for the edges that the abstract graph has after
-- the same batches: a refused batch leaves no trace.
pub add_all-refines :
    (batches : List (List Edge)) (g : CsrGraph) (es : List Edge)
    → Repr g es
    → Repr (add_all g batches) (apply_all g.hdr.node_capacity g.hdr.edge_capacity es batches)
unfolding add_all apply_all
add_all-refines [] g es r = r
add_all-refines (batch ∷ rest) g es r =
    let s = add_edge_batch-steps g es batch r in
    let ih = add_all-refines rest (add_edge_batch g batch).0 _ s.repr in
    subst
      (λ n. Repr (add_all (add_edge_batch g batch).0 rest) (
        apply_all n g.hdr.edge_capacity
          (apply_batch g.hdr.node_capacity g.hdr.edge_capacity es batch) rest))
      s.same_nodes
      (subst
        (λ c. Repr (add_all (add_edge_batch g batch).0 rest) (
          apply_all (add_edge_batch g batch).0.hdr.node_capacity c
            (apply_batch g.hdr.node_capacity g.hdr.edge_capacity es batch) rest))
        s.same_edges ih)

-- No call moves the watermark.
pub add_all-watermark :
    (batches : List (List Edge)) (g : CsrGraph) (es : List Edge)
    → Repr g es
    → watermark (add_all g batches) ≡ watermark g
unfolding add_all
add_all-watermark [] g es r = refl
add_all-watermark (batch ∷ rest) g es r =
    let s = add_edge_batch-steps g es batch r in
    add_all-watermark rest (add_edge_batch g batch).0 _ s.repr ∙ s.same_watermark

abbrev pub AllInRange : ℕ → List (List Edge) → Type 0
AllInRange n = All (λ b. all_in_range n b ≡ true)
