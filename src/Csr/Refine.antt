-- ===== src/Csr/Refine.antt =====
-- `add_edge_batch` on a well-formed graph: it merges the batch into the sorted edges, or refuses the
-- batch and leaves the graph as it was. (wit/edges.wit says otherwise: that at capacity fewer edges than
-- the batch may be inserted, and that every successful call raises the generation, also that of an empty
-- batch.)
use nexus_core_devops_engine.Base.{
  ℕ, ◌+◌, ◌%◌, ◌≤◌, ◌<◌, ◌≡◌, refl, ap, ◌∙◌, true, false, List, [], ◌∷◌, ◌++◌, length, ltb, ◌==◌,
  ==_iff, u32_mod, u64_mod, arith, le→ltb, lt→ltb, ltb→le, ltb→lt, length-append, Bool-cases, ◌⊎◌,
  inl, inr,
}
use nexus_core_devops_engine.Csr.Graph.{
  Edge, CsrGraph, ok, err, header_magic, row_ptr_slice, col_idx_slice, edge_capacity_exhausted,
  node_id_exceeds_capacity, generation, watermark,
}
use nexus_core_devops_engine.Csr.Sort.{sort_edges, sort-IsSorted, length-sort}
use nexus_core_devops_engine.Csr.Insert.{
  all_in_range, collect_existing, write_back, final_header, merge_batch, add_edge_batch,
}
use nexus_core_devops_engine.Csr.Rows.{collect_from_all}
use nexus_core_devops_engine.Csr.Rebuild.{
  all_in_range_sound, InRange, InRange-merge, new_graph, rebuild_lem, Repr-new_graph,
}
use nexus_core_devops_engine.Csr.Repr.{Repr}

not_empty : (cap : ℕ) (es : List Edge) → all_in_range cap es ≡ false → (length es == 0) ≡ false
unfolding all_in_range
not_empty cap [] h = cc
not_empty cap (e ∷ es) h = ground arith

module _ (g : CsrGraph) (es batch : List Edge) (r : Repr g es) where
  collect_existing_lem : collect_existing g ≡ ok es
  unfolding collect_existing
  collect_existing_lem =
      collect_from_all g.hdr.node_capacity es (row_ptr_slice g) (col_idx_slice g) r.holds

  -- What an accepted batch leaves.
  pub record Merged (g' : CsrGraph) : Type 0 where
    pub some : (length batch == 0) ≡ false
    pub fit : length es + length batch ≤ g.hdr.edge_capacity
    pub valid : all_in_range g.hdr.node_capacity batch ≡ true
    pub returns : add_edge_batch g batch ≡ (g', ok (length batch))
    pub repr : Repr g' (sort_edges (es ++ batch))
    pub next_generation : generation g' ≡ (generation g + 1) % u64_mod
    pub same_nodes : g'.hdr.node_capacity ≡ g.hdr.node_capacity
    pub same_edges : g'.hdr.edge_capacity ≡ g.hdr.edge_capacity
    pub same_watermark : watermark g' ≡ watermark g
    pub built : g' ≡ new_graph g (sort_edges (es ++ batch)) r.layout

  -- A batch of at least one edge that fits the capacity and names existing nodes is merged: the
  -- call returns the number of its edges, the graph stands for the sorted union, and the
  -- generation goes up by one.
  pub add_edge_batch-merges :
      0 < length batch
      → length es + length batch ≤ g.hdr.edge_capacity
      → all_in_range g.hdr.node_capacity batch ≡ true
      → (g' : CsrGraph) × Merged g'
  unfolding add_edge_batch merge_batch generation watermark write_back final_header
  add_edge_batch-merges some fit valid =
      let all = sort_edges (es ++ batch) in
      let sorted = sort-IsSorted (es ++ batch) in
      let mine : InRange g.hdr.node_capacity es = record {
        sources = r.holds.in_range;
        dsts = r.targets_in_range;
      } in
      let nodes = InRange-merge _ es batch mine (all_in_range_sound _ batch valid) in
      let size : length all ≡ length es + length batch =
        length-sort (es ++ batch) ∙ length-append es batch in
      let fits : length all ≤ g.hdr.edge_capacity = omega arith in
      let more : 0 < length all = omega arith in
      let g1 : (length batch == 0) ≡ false = ground arith in
      let g2 : (g.hdr.magic == header_magic) ≡ true =
        (==_iff g.hdr.magic header_magic).1 r.layout.magic in
      let g3 =
        le→ltb g.hdr.edge_capacity (g.hdr.edge_count + length batch) (omega (arith, r.count)) in
      let few : length batch % u32_mod ≡ length batch = omega (arith, r.layout.fits) in
      let whole = rebuild_lem g all r.layout sorted nodes fits (length batch) in
      (
        new_graph g all r.layout,
        record {
          some = g1;
          fit = fit;
          valid = valid;
          returns =
              rw (g1, g2, g3, valid, collect_existing_lem)
                (whole ∙ ap (λ n. (new_graph g all r.layout, ok n)) few);
          repr = Repr-new_graph g all r.layout sorted nodes fits more;
          next_generation = refl;
          same_nodes = refl;
          same_edges = refl;
          same_watermark = refl;
          built = refl;
        },
      )

  exhausted :
      g.hdr.edge_capacity < length es + length batch
      → (length batch == 0) ≡ false
      → add_edge_batch g batch ≡ (g, err edge_capacity_exhausted)
  unfolding add_edge_batch
  exhausted over some =
      let magic = (==_iff g.hdr.magic header_magic).1 r.layout.magic in
      let full =
        lt→ltb g.hdr.edge_capacity (g.hdr.edge_count + length batch) (omega (arith, r.count)) in
      rw (some, magic, full)

  exceeds :
      length es + length batch ≤ g.hdr.edge_capacity
      → all_in_range g.hdr.node_capacity batch ≡ false
      → add_edge_batch g batch ≡ (g, err node_id_exceeds_capacity)
  unfolding add_edge_batch
  exceeds fit invalid =
      let magic = (==_iff g.hdr.magic header_magic).1 r.layout.magic in
      let room =
        le→ltb g.hdr.edge_capacity (g.hdr.edge_count + length batch) (omega (arith, r.count)) in
      rw (not_empty g.hdr.node_capacity batch invalid, magic, room, invalid)

  -- On a graph that stands for the edges `es` every call does one of four things: an empty batch
  -- returns 0 and changes nothing; a batch over the edge capacity, or one within it that names a node
  -- out of range, is refused with the error for it and changes nothing; any other batch is merged
  -- whole. There is no partial insertion, no panic, and no error for a corrupted CSR.
  pub add_edge_batch_atomic :
      ((length batch ≡ 0) × (add_edge_batch g batch ≡ (g, ok 0)))
      ⊎ ((g.hdr.edge_capacity < length es + length batch)
          × (add_edge_batch g batch ≡ (g, err edge_capacity_exhausted)))
      ⊎ ((length es + length batch ≤ g.hdr.edge_capacity)
          × (all_in_range g.hdr.node_capacity batch ≡ false)
          × (add_edge_batch g batch ≡ (g, err node_id_exceeds_capacity)))
      ⊎ ((g' : CsrGraph) × Merged g')
  unfolding add_edge_batch
  add_edge_batch_atomic = elim (Bool-cases (length batch == 0)) [
    | inl empty ↦ inl ((==_iff _ 0).0 empty, rw empty)
    | inr some ↦ elim (Bool-cases (ltb g.hdr.edge_capacity (length es + length batch))) [
      | inl over ↦ inr (inl (ltb→lt _ _ over, exhausted (ltb→lt _ _ over) some))
      | inr fit ↦
          let le = ltb→le _ _ fit in
          elim (Bool-cases (all_in_range g.hdr.node_capacity batch)) [
            | inl valid ↦ inr (inr (inr (add_edge_batch-merges (ground arith) le valid)))
            | inr invalid ↦ inr (inr (inl (le, invalid, exceeds le invalid)))
          ]
    ]
  ]
