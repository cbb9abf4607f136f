-- ===== src/Csr/Batches.antt =====
-- However the edges are cut into batches, and in whatever order they come, the graph is the same.
use mathlib.Core.List.{Perm, append-nil, append_assoc}
use mathlib.Core.List.Perm
use nexus_core_devops_engine.Base.{
  ℕ, ◌+◌, ◌≤◌, ◌≡◌, ◌==◌, ==_iff, refl, ap, sym, subst, ◌∙◌, inl, inr, List, [], ◌∷◌, ◌++◌, length,
  length-append, List-cases, Bool-cases, arith,
}
use nexus_core_devops_engine.Csr.Graph.{Edge, CsrGraph}
use nexus_core_devops_engine.Csr.Sort.{sort_edges, sort-perm, length-sort}
use nexus_core_devops_engine.Csr.Order.{sort-same}
use nexus_core_devops_engine.Csr.Repr.{Repr}
use nexus_core_devops_engine.Csr.History.{
  apply_all, apply_empty, apply_merge, add_all, add_all-refines, AllInRange,
}

abbrev pub all_edges : List (List Edge) → List Edge
all_edges [] = []
all_edges (batch ∷ rest) = batch ++ all_edges rest

pub sort_none : sort_edges [] ≡ []
unfolding sort_edges
sort_none = refl

sort-sort : (es : List Edge) → sort_edges (sort_edges es) ≡ sort_edges es
sort-sort es = sort-same (sort_edges es) es (sort-perm es)

sort-append : (es fs : List Edge) → sort_edges (sort_edges es ++ fs) ≡ sort_edges (es ++ fs)
sort-append es fs = sort-same (sort_edges es ++ fs) (es ++ fs) (Perm.append_right fs (sort-perm es))

length-none : (es : List Edge) → length es ≡ 0 → es ≡ []
length-none es h = elim (List-cases es) [
  | inl e ↦ e
  | inr (x, rest, e) ↦ absurd (omega (arith, ap length e))
]

-- Batches in range that fit are sorted into the edges, all at once.
pub apply_all-sorted :
    (nodes capacity : ℕ) (es : List Edge) (batches : List (List Edge))
    → sort_edges es ≡ es
    → AllInRange nodes batches
    → length es + length (all_edges batches) ≤ capacity
    → apply_all nodes capacity es batches ≡ sort_edges (es ++ all_edges batches)
unfolding apply_all
apply_all-sorted nodes capacity es [] sorted valid fit =
    sym (ap sort_edges (append-nil es) ∙ sorted)
apply_all-sorted nodes capacity es (batch ∷ rest) sorted valid fit =
    let all = all_edges rest in
    let size = length-append batch all in
    elim (Bool-cases (length batch == 0)) [
      | inl none ↦
          let empty : length batch ≡ 0 = (==_iff (length batch) 0).0 none in
          let no_batch : batch ≡ [] = length-none batch empty in
          ap (λ xs. apply_all nodes capacity xs rest) (apply_empty nodes capacity es batch empty)
          ∙ apply_all-sorted nodes capacity es rest sorted valid.1 (omega arith)
          ∙ ap (λ xs. sort_edges (es ++ (xs ++ all))) (sym no_batch)
      | inr some ↦
          let merged = sort_edges (es ++ batch) in
          let long : length merged ≡ length es + length batch =
            length-sort (es ++ batch) ∙ length-append es batch in
          ap (λ xs. apply_all nodes capacity xs rest)
            (apply_merge nodes capacity es batch some (omega arith) valid.0)
          ∙ apply_all-sorted nodes capacity merged rest (sort-sort (es ++ batch)) valid.1
              (omega arith)
          ∙ sort-append (es ++ batch) all
          ∙ ap sort_edges (append_assoc es batch all)
    ]

-- Two sequences of batches that name only nodes of a graph without edges and together hold the same
-- edges, as often and in whatever order, leave graphs that stand for the same sorted edges, if these
-- fit the capacity.
pub add_all-order :
    (g : CsrGraph) (batches others : List (List Edge))
    → Repr g []
    → AllInRange g.hdr.node_capacity batches
    → AllInRange g.hdr.node_capacity others
    → Perm (all_edges batches) (all_edges others)
    → length (all_edges batches) ≤ g.hdr.edge_capacity
    → Repr (add_all g batches) (sort_edges (all_edges batches))
      × Repr (add_all g others) (sort_edges (all_edges batches))
add_all-order g batches others r valid valid' same fit =
    let n = g.hdr.node_capacity in
    let c = g.hdr.edge_capacity in
    let sorted : sort_edges (all_edges batches) ≡ sort_edges (all_edges others) =
      sort-same (all_edges batches) (all_edges others) same in
    let size =
      sym (length-sort (all_edges batches)) ∙ ap length sorted ∙ length-sort (all_edges others) in
    (
      subst (Repr (add_all g batches))
          (apply_all-sorted n c [] batches sort_none valid (omega arith))
          (add_all-refines batches g [] r),
      subst (Repr (add_all g others))
          (apply_all-sorted n c [] others sort_none valid' (omega (arith, size)) ∙ sym sorted)
          (add_all-refines others g [] r),
    )
