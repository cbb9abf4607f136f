-- ===== src/Csr/Bulk.antt =====
-- main.rs: the bulk insertion of `run_benchmark` and its scan for hot nodes. The edges that the
-- random generator draws for a batch are an argument; the progress output is left out.
use nexus_core_devops_engine.Base.{
  ℕ, zero, suc, ◌+◌, ◌%◌, List, [], ◌∷◌, length, leb, ◌==◌, if◌then◌else◌, u32_mod,
}
use nexus_core_devops_engine.Csr.Graph.{Edge, CsrGraph, Outcome, ok, err, panic, node_count}
use nexus_core_devops_engine.Csr.Insert.{add_edge_batch}
use nexus_core_devops_engine.Csr.Query.{get_following}

-- `if src != dst { batch.push((src, dst)); }`
unfoldable pub without_loops : List Edge → List Edge
without_loops [] = []
without_loops ((src, dst) ∷ es) =
    let rest = without_loops es in if src == dst then rest else (src, dst) ∷ rest

-- The first error ends the insertion; otherwise the graph and the total.
unfoldable pub continue_with :
    (CsrGraph → ℕ → CsrGraph × Outcome ℕ) → ℕ → CsrGraph × Outcome ℕ → CsrGraph × Outcome ℕ
continue_with next total (g, ok inserted) = next g ((total + inserted) % u32_mod)
continue_with next total (g, err e) = (g, err e)
continue_with next total (g, panic) = (g, panic)

unfoldable pub bulk_insert : List (List Edge) → CsrGraph → ℕ → CsrGraph × Outcome ℕ
bulk_insert [] g total = (g, ok total)
bulk_insert (drawn ∷ batches) g total =
    continue_with (bulk_insert batches) total (add_edge_batch g (without_loops drawn))

abbrev pub hot_threshold : ℕ
hot_threshold = 1000

-- `get_following(node).unwrap_or(&[])`; a panic is passed on by `keep_hot`.
unfoldable pub or_empty : Outcome (List ℕ) → Outcome (List ℕ)
or_empty (ok xs) = ok xs
or_empty (err e) = ok []
or_empty panic = panic

unfoldable pub keep_hot : ℕ → Outcome (List ℕ) → Outcome (List (ℕ × ℕ)) → Outcome (List (ℕ × ℕ))
keep_hot node (ok following) (ok rest) =
    if leb hot_threshold (length following) then ok ((node, length following) ∷ rest) else ok rest
keep_hot node (ok following) (err e) = err e
keep_hot node (ok following) panic = panic
keep_hot node (err e) rest = err e
keep_hot node panic rest = panic

unfoldable pub hot_from : CsrGraph → ℕ → ℕ → Outcome (List (ℕ × ℕ))
hot_from g zero node = ok []
hot_from g (suc rounds) node =
    keep_hot node (or_empty (get_following g node)) (hot_from g rounds (node + 1))

-- The hot nodes with their out-degrees, before they are sorted for the output.
unfoldable pub hot_nodes : CsrGraph → Outcome (List (ℕ × ℕ))
hot_nodes g = hot_from g (node_count g) 0
