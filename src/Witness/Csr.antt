-- ===== src/Witness/Csr.antt =====
-- A graph of four nodes and six edges in 160 bytes of memory, and what the theorems on csr_graph.rs
-- and on the loops of main.rs say of it.
use mathlib.Core.List.Perm
use nexus_core_devops_engine.Base.{
  u32_mod, ℕ, ◌+◌, ◌*◌, ◌≤◌, ◌<◌, ◌≡◌, refl, ap, sym, ◌∙◌, subst, true, false, ◌⊎◌, ◌↔◌, List, [],
  ◌∷◌, length, replicate, overwrite, Memᴰ, Bool, arith,
}
use nexus_core_devops_engine.Csr.Graph.{
  CsrGraph, Edge, ok, err, required_bytes, init_header, init, edge_capacity_exhausted,
  node_id_exceeds_capacity,
}
use nexus_core_devops_engine.Csr.Sort.{sort_edges}
use nexus_core_devops_engine.Csr.Insert.{all_in_range, add_edge_batch}
use nexus_core_devops_engine.Csr.Query.{get_following, edge_exists}
use nexus_core_devops_engine.Csr.Rows.{row}
use nexus_core_devops_engine.Csr.Repr.{Repr, Repr-init, init_offset_wraps}
use nexus_core_devops_engine.Csr.Refine.{Merged, add_edge_batch-merges, add_edge_batch_atomic}
use nexus_core_devops_engine.Csr.Reads.{get_following-row, edge_exists_decides}
use nexus_core_devops_engine.Csr.Followers.{FollowersOf, get_followers-FollowersOf}
use nexus_core_devops_engine.Csr.History.{apply_all, add_all, add_all-refines, AllInRange}
use nexus_core_devops_engine.Csr.Batches.{add_all-order}

abbrev memory : List ℕ
memory = replicate 40 0

abbrev fresh : CsrGraph
fresh = record { hdr = init_header 4 6; mem = overwrite 16 (replicate 5 0) memory; mem_len = 160 }

fresh-Repr : Repr fresh []
unfolding init required_bytes
fresh-Repr =
    let (g, e, r) = Repr-init memory 4 6 (omega arith) (omega arith) in
    let there : init memory 160 4 6 ≡ ok fresh = refl in
    let same : g ≡ fresh = cc in subst (λ h. Repr h []) same r

abbrev batch : List Edge
batch = (2, 0) ∷ (0, 1) ∷ (0, 3) ∷ []

abbrev drawn : CsrGraph
drawn = (add_edge_batch fresh batch).0

drawn-Merged : (g : CsrGraph) × Merged fresh [] batch fresh-Repr g
unfolding init_header all_in_range
drawn-Merged = add_edge_batch-merges fresh [] batch fresh-Repr (omega arith) (omega arith) refl

drawn-Repr : Repr drawn (sort_edges batch)
drawn-Repr =
    let (g, m) = drawn-Merged in
    subst (λ h. Repr h (sort_edges batch)) (sym (ap (λ p. p.0) m.returns)) m.repr

drawn_nodes : drawn.hdr.node_capacity ≡ 4
unfolding init_header
drawn_nodes = let (g, m) = drawn-Merged in ap (λ p. p.0.hdr.node_capacity) m.returns ∙ m.same_nodes

add_edge_batch_atomic_example :
    ((length batch ≡ 0) × (add_edge_batch drawn batch ≡ (drawn, ok 0)))
    ⊎ ((drawn.hdr.edge_capacity < length (sort_edges batch) + length batch)
        × (add_edge_batch drawn batch ≡ (drawn, err edge_capacity_exhausted)))
    ⊎ ((length (sort_edges batch) + length batch ≤ drawn.hdr.edge_capacity)
        × (all_in_range drawn.hdr.node_capacity batch ≡ false)
        × (add_edge_batch drawn batch ≡ (drawn, err node_id_exceeds_capacity)))
    ⊎ ((g : CsrGraph) × Merged drawn (sort_edges batch) batch drawn-Repr g)
add_edge_batch_atomic_example = add_edge_batch_atomic drawn (sort_edges batch) batch drawn-Repr

abbrev batches : List (List Edge)
batches = batch ∷ ((7, 0) ∷ []) ∷ [] ∷ ((0, 1) ∷ (3, 3) ∷ []) ∷ batch ∷ []

add_all-refines_example : Repr (add_all fresh batches) (apply_all 4 6 [] batches)
unfolding init_header
add_all-refines_example = add_all-refines batches fresh [] fresh-Repr

-- The same two edges in one batch and, the other way round, in two.
abbrev at_once : List (List Edge)
at_once = ((0, 1) ∷ (2, 3) ∷ []) ∷ []

abbrev one_by_one : List (List Edge)
one_by_one = ((2, 3) ∷ []) ∷ ((0, 1) ∷ []) ∷ []

at_once-in_range : AllInRange 4 at_once
unfolding all_in_range
at_once-in_range = (refl, tt)

one_by_one-in_range : AllInRange 4 one_by_one
unfolding all_in_range
one_by_one-in_range = (refl, (refl, tt))

add_all-order_example :
    Repr (add_all fresh at_once) (sort_edges ((0, 1) ∷ (2, 3) ∷ []))
    × Repr (add_all fresh one_by_one) (sort_edges ((0, 1) ∷ (2, 3) ∷ []))
unfolding init_header
add_all-order_example =
    add_all-order fresh at_once one_by_one fresh-Repr at_once-in_range one_by_one-in_range
      (Perm.swap (2, 3) (0, 1) []) (omega arith)

get_followers-FollowersOf_example :
    (fs : List ℕ) × FollowersOf drawn (sort_edges batch) drawn-Repr 3 fs
get_followers-FollowersOf_example =
    get_followers-FollowersOf drawn (sort_edges batch) drawn-Repr 3 (omega (arith, drawn_nodes))

edge_exists_decides_example :
    (b : Bool) × (edge_exists drawn 0 3 ≡ ok b) × ((b ≡ true) ↔ Memᴰ (0, 3) (sort_edges batch))
edge_exists_decides_example = edge_exists_decides drawn (sort_edges batch) drawn-Repr 0 3

get_following-row_example : get_following drawn 0 ≡ ok (row 0 (sort_edges batch))
get_following-row_example =
    get_following-row drawn (sort_edges batch) drawn-Repr 0 (omega (arith, drawn_nodes))

init_offset_wraps_example :
    (g : CsrGraph) × (init [] 4_294_967_368 1_073_741_824 0 ≡ ok g)
    × (g.hdr.col_idx_offset + u32_mod ≤ g.hdr.row_ptr_offset + 1_073_741_825 * 4)
unfolding required_bytes
init_offset_wraps_example =
    init_offset_wraps [] 4_294_967_368 1_073_741_824 0 (omega arith) (omega arith)
