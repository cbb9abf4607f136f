-- ===== src/Csr/Rebuild.antt =====
-- The rebuild of `add_edge_batch`: on sorted edges of a laid out graph it succeeds, and the graph that it
-- leaves stands for these edges.
use nexus_core_devops_engine.Base.{
  ℕ, ◌/◌, ◌%◌, ◌≤◌, ◌<◌, ◌≡◌, refl, ap, ◌∙◌, true, List, [], ◌∷◌, ◌++◌, length, take, drop,
  overwrite, ltb, All, All-append, length-overwrite, get_or-take, u32_mod, arith, ltb→lt,
  length-take, length-drop, length-map, take_all, take-overwrite,
}
use nexus_core_devops_engine.Csr.Graph.{
  Edge, CsrGraph, ok, row_ptr_slice, col_idx_slice, col_idx_slice_mut,
}
use nexus_core_devops_engine.Csr.Sort.{IsSorted, sort_edges, All-sort}
use nexus_core_devops_engine.Csr.Insert.{
  all_in_range, max_src, built_row_ptr, write_back, counted_header, final_header, rebuild,
}
use nexus_core_devops_engine.Csr.Counts.{
  SourcesBelow, get_or-built_row_ptr, length-built_row_ptr, IsCursors, scatter_lem,
}
use nexus_core_devops_engine.Csr.Rows.{targets}
use nexus_core_devops_engine.Csr.Repr.{
  IsLaidOut, Repr, IsLaidOut-write_back, row_ptr-write_back, col_idx-write_back,
}

-- What a batch of edges brings: sources and targets are nodes of the graph.
pub record InRange (cap : ℕ) (es : List Edge) : Type 0 where
  pub sources : SourcesBelow cap es
  pub dsts : All (λ e. e.1 < cap) es

pub all_in_range_sound : (cap : ℕ) (es : List Edge) → all_in_range cap es ≡ true → InRange cap es
unfolding all_in_range
all_in_range_sound cap [] h = record { sources = tt; dsts = tt }
all_in_range_sound cap ((a, d) ∷ es) h =
    let parts : (ltb a cap ≡ true) × (ltb d cap ≡ true) × (all_in_range cap es ≡ true) =
      ground arith in
    let rest = all_in_range_sound cap es parts.2 in
    record {
      sources = (ltb→lt a cap parts.0, rest.sources);
      dsts = (ltb→lt d cap parts.1, rest.dsts);
    }

max_src-lt : (cap : ℕ) (es : List Edge) → 0 < cap → SourcesBelow cap es → max_src es < cap
unfolding max_src
max_src-lt cap [] pos h = pos
max_src-lt cap ((a, d) ∷ es) pos h = omega (arith, h.0, max_src-lt cap es pos h.1)

SourcesBelow-max_src : (m : ℕ) (es : List Edge) → max_src es < m → SourcesBelow m es
unfolding max_src
SourcesBelow-max_src m [] h = tt
SourcesBelow-max_src m ((a, d) ∷ es) h = (omega arith, SourcesBelow-max_src m es (omega arith))

nodes_exist : (n : ℕ) (es : List Edge) → 0 < length es → SourcesBelow n es → 0 < n
nodes_exist n [] pos h = absurd (omega arith)
nodes_exist n (e ∷ es) pos h = omega (arith, h.0)

pub InRange-merge :
    (cap : ℕ) (es fs : List Edge)
    → InRange cap es
    → InRange cap fs
    → InRange cap (sort_edges (es ++ fs))
InRange-merge cap es fs h k = record {
  sources = All-sort _ (es ++ fs) (All-append _ es fs h.sources k.sources);
  dsts = All-sort _ (es ++ fs) (All-append _ es fs h.dsts k.dsts);
}

module _ (g : CsrGraph) (es : List Edge) (layout : IsLaidOut g) where
  abbrev pub cap : ℕ
  cap = g.hdr.node_capacity

  abbrev pub old_cols : List ℕ
  old_cols = col_idx_slice_mut (write_back g (counted_header g.hdr es) (built_row_ptr cap es) [])

  abbrev pub new_graph : CsrGraph
  new_graph =
      write_back g (final_header g.hdr es) (built_row_ptr cap es)
        (overwrite 0 (targets es) old_cols)

  length-old_cols : length old_cols ≡ g.hdr.edge_capacity
  unfolding col_idx_slice_mut counted_header write_back
  length-old_cols =
      let hdr = counted_header g.hdr es in
      let rows = overwrite (hdr.row_ptr_offset / 4) (built_row_ptr cap es) g.mem in
      let mem = overwrite (hdr.col_idx_offset / 4) [] rows in
      let same : length mem ≡ length g.mem =
        length-overwrite _ [] rows ∙ length-overwrite _ (built_row_ptr cap es) g.mem in
      omega (
        arith,
        length-take g.hdr.edge_capacity (drop (hdr.col_idx_offset / 4) mem),
        length-drop (hdr.col_idx_offset / 4) mem,
        same,
        layout.room,
        layout.col_offset,
      )

  module _ (sorted : IsSorted es) (nodes : InRange cap es)
      (fit : length es ≤ g.hdr.edge_capacity) where
    cursors : IsCursors cap 0 es (take cap (built_row_ptr cap es))
    cursors = record {
      long = omega (arith, length-take cap (built_row_ptr cap es), length-built_row_ptr cap es);
      starts = λ s lt some.
          get_or-take cap s (built_row_ptr cap es) 0 lt
          ∙ omega (
            arith,
            get_or-built_row_ptr cap s es (omega arith) nodes.sources (omega (arith, layout.fits)),
          );
    }

    pub rebuild_lem : (added : ℕ) → rebuild g es added ≡ (new_graph, ok (added % u32_mod))
    unfolding rebuild
    rebuild_lem added = rw (
        scatter_lem g.hdr.edge_capacity cap 0 es (take cap (built_row_ptr cap es)) old_cols sorted
          nodes.sources (omega arith) (omega (arith, layout.fits)) cursors)

    pub Repr-new_graph : 0 < length es → Repr new_graph es
    unfolding final_header counted_header write_back
    Repr-new_graph pos =
        let hdr = final_header g.hdr es in
        let rows = built_row_ptr cap es in
        let cols = overwrite 0 (targets es) old_cols in
        let l : IsLaidOut new_graph =
          IsLaidOut-write_back g hdr rows cols layout refl refl refl refl refl in
        let wide = length-built_row_ptr cap es in
        let ts : length (targets es) ≡ length es = length-map (λ (e : Edge). e.1) es in
        let cl : length cols ≡ g.hdr.edge_capacity =
          length-overwrite 0 (targets es) old_cols ∙ length-old_cols in
        let few : length es % u32_mod ≡ length es = omega (arith, layout.fits) in
        let read : row_ptr_slice new_graph ≡ rows = row_ptr-write_back g hdr rows cols l wide in
        let same : col_idx_slice new_graph ≡ targets es =
          col_idx-write_back g hdr rows cols l wide cl (omega arith)
          ∙ (ap (λ n. take n cols) few
              ∙ (take-overwrite (length es) 0 (targets es) old_cols (omega arith)
                    (omega (arith, length-old_cols))
                  ∙ take_all (length es) (targets es) (omega arith))) in
        let some_node : 0 < cap = nodes_exist cap es pos nodes.sources in
        let top = max_src-lt cap es some_node nodes.sources in
        record {
          layout = l;
          targets_in_range = nodes.dsts;
          count = few;
          capacity = fit;
          holds = record {
            sorted = sorted;
            in_range = nodes.sources;
            rows = λ i le.
                rw read
                  (get_or-built_row_ptr cap i es le nodes.sources (omega (arith, layout.fits)));
            cols = same;
          };
          nodes = SourcesBelow-max_src _ es (omega (arith, top, layout.fits));
          node_bound = omega arith;
        }
