-- ===== src/Csr/Insert.antt =====
-- csr_graph.rs: `add_edge_batch`, which collects the stored edges, appends the batch, sorts, and
-- rebuilds both arrays: degree counts, prefix sums, and a scatter through one cursor for each row.
--
-- An index of the two arrays that the code reads or writes is in range on every path that gets there
-- with a well-formed graph (`Refine`), so the defaults of `get_or` are not seen.
use nexus_core_devops_engine.Base.{
  ℕ, zero, suc, ◌+◌, ◌-◌, ◌/◌, ◌%◌, min, max, Bool, true, false, not, ◌&&◌, List, [], ◌∷◌, ◌++◌,
  map, length, get_or, set, take, replicate, slice, overwrite, ltb, ◌==◌, if◌then◌else◌, u32_mod,
  u64_mod,
}
use nexus_core_devops_engine.Csr.Graph.{
  Edge, corrupted_header, edge_capacity_exhausted, node_id_exceeds_capacity, row_ptr_out_of_range,
  scatter_out_of_capacity, Outcome, ok, err, panic, header_magic, CsrHeader, CsrGraph,
  row_ptr_slice, col_idx_slice, col_idx_slice_mut,
}
use nexus_core_devops_engine.Csr.Sort.{sort_edges}

-- The loop that looks for a node ID out of range.
unfoldable pub all_in_range : ℕ → List Edge → Bool
all_in_range cap [] = true
all_in_range cap ((src, dst) ∷ es) = ltb src cap && ltb dst cap && all_in_range cap es

abbrev pub tag_row : ℕ → List ℕ → List Edge
tag_row src = map (λ dst. (src, dst))

unfoldable prepend : List Edge → Outcome (List Edge) → Outcome (List Edge)
prepend es (ok fs) = ok (es ++ fs)
prepend es (err e) = err e
prepend es panic = panic

-- `for src in 0..node_cap`, with `rounds` sources left. The slice panics if `start > end`.
unfoldable pub collect_from : ℕ → ℕ → List ℕ → List ℕ → Outcome (List Edge)
unfolding prepend
collect_from zero src row_ptr col_idx = ok []
collect_from (suc rounds) src row_ptr col_idx =
    let start = get_or row_ptr src 0 in
    let end = get_or row_ptr (src + 1) 0 in
    let rest = collect_from rounds (src + 1) row_ptr col_idx in
    if ltb (length col_idx) end
    then err row_ptr_out_of_range
    else if ltb end start
    then panic
    else prepend (tag_row src (slice col_idx start end)) rest

unfoldable pub collect_existing : CsrGraph → Outcome (List Edge)
collect_existing g = collect_from g.hdr.node_capacity 0 (row_ptr_slice g) (col_idx_slice g)

unfoldable pub max_src : List Edge → ℕ
max_src [] = 0
max_src ((src, dst) ∷ es) = max src (max_src es)

-- `row_ptr[src as usize] += 1`, for each edge.
unfoldable pub count_degrees : List Edge → List ℕ → List ℕ
count_degrees [] row_ptr = row_ptr
count_degrees ((src, dst) ∷ es) row_ptr =
    count_degrees es (set row_ptr src ((get_or row_ptr src 0 + 1) % u32_mod))

abbrev pub saturating_add : ℕ → ℕ → ℕ
saturating_add a b = min (a + b) (u32_mod - 1)

-- The cells `0..node_cap`, and the last cell, which gets the final prefix.
unfoldable pub prefix_sums : ℕ → List ℕ → List ℕ
prefix_sums prefix [] = []
prefix_sums prefix (deg ∷ degs) = prefix ∷ prefix_sums (saturating_add prefix deg) degs

-- `row_ptr` as it is rebuilt from the sorted edges.
unfoldable pub built_row_ptr : ℕ → List Edge → List ℕ
unfolding count_degrees prefix_sums
built_row_ptr cap es = prefix_sums 0 (count_degrees es (replicate (cap + 1) 0))

-- The columns as far as they are written, and whether each position was within the capacity.
unfoldable pub scatter : ℕ → List Edge → List ℕ → List ℕ → List ℕ × Bool
scatter cap [] cursors col_idx = (col_idx, true)
scatter cap ((src, dst) ∷ es) cursors col_idx =
    let pos = get_or cursors src 0 in
    let rest = scatter cap es (set cursors src ((pos + 1) % u32_mod)) (set col_idx pos dst) in
    if ltb pos cap then rest else (col_idx, false)

-- The arrays are written back to the memory, at their offsets.
unfoldable pub write_back : CsrGraph → CsrHeader → List ℕ → List ℕ → CsrGraph
write_back g hdr row_ptr col_idx = record g {
  hdr = hdr;
  mem =
      overwrite (hdr.col_idx_offset / 4) col_idx (overwrite (hdr.row_ptr_offset / 4) row_ptr g.mem);
}

-- The header with the new node count, and the one with the counts of the finished batch.
unfoldable pub counted_header : CsrHeader → List Edge → CsrHeader
counted_header hdr all_edges = record hdr {
  node_count = min ((max_src all_edges + 1) % u32_mod) hdr.node_capacity;
}

unfoldable pub final_header : CsrHeader → List Edge → CsrHeader
unfolding counted_header
final_header hdr all_edges = record (counted_header hdr all_edges) {
  edge_count = length all_edges % u32_mod;
  generation = (hdr.generation + 1) % u64_mod;
}

-- From `node_count` to the end; `added` is the length of the batch. The columns are scattered into
-- the memory that already has the new row pointers.
unfoldable pub rebuild : CsrGraph → List Edge → ℕ → CsrGraph × Outcome ℕ
unfolding write_back counted_header final_header
rebuild g all_edges added =
    let cap = g.hdr.node_capacity in
    let counted = counted_header g.hdr all_edges in
    let row_ptr = built_row_ptr cap all_edges in
    let with_rows = write_back g counted row_ptr [] in
    let (col_idx, done) =
      scatter g.hdr.edge_capacity all_edges (take cap row_ptr) (col_idx_slice_mut with_rows) in
    if done
    then (write_back g (final_header g.hdr all_edges) row_ptr col_idx, ok (added % u32_mod))
    else (write_back g counted row_ptr col_idx, err scatter_out_of_capacity)

-- What follows the collection of the stored edges.
unfoldable pub merge_batch : CsrGraph → List Edge → Outcome (List Edge) → CsrGraph × Outcome ℕ
merge_batch g edges (ok existing) = rebuild g (sort_edges (existing ++ edges)) (length edges)
merge_batch g edges (err e) = (g, err e)
merge_batch g edges panic = (g, panic)

unfoldable pub add_edge_batch : CsrGraph → List Edge → CsrGraph × Outcome ℕ
add_edge_batch g edges =
    if length edges == 0
    then (g, ok 0)
    else if not (g.hdr.magic == header_magic)
    then (g, err corrupted_header)
    else if ltb g.hdr.edge_capacity (g.hdr.edge_count + length edges)
    then (g, err edge_capacity_exhausted)
    else if not (all_in_range g.hdr.node_capacity edges)
    then (g, err node_id_exceeds_capacity)
    else merge_batch g edges (collect_existing g)
