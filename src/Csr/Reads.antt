-- ===== src/Csr/Reads.antt =====
-- The reads on a graph that stands for a list of edges: `get_following`, `edge_exists` and
-- `get_followers` answer as the list does.
use nexus_core_devops_engine.Base.{
  ℕ, suc, ◌+◌, ◌≤◌, ◌<◌, ◌≡◌, refl, ap, ◌∙◌, ◌↔◌, inl, inr, Bool, true, false, List, [], ◌∷◌,
  length, get_or, slice, ltb, leb, ◌==◌, ==_iff, All, Bool-cases, ltb→lt, ltb→le, arith, Memᴰ,
  Memᴰ-not-nil, Memᴰ-cons, length-map, le→ltb, subst, slice_empty, sym, ◌∙◌, ltb→lt,
}
use nexus_core_devops_engine.Csr.Graph.{
  Edge, CsrGraph, ok, err, header_magic, row_ptr_slice, invalid_node_id,
}
use nexus_core_devops_engine.Csr.Sort.{IsSorted, EdgeLe}
use nexus_core_devops_engine.Csr.Query.{get_following, found_in, edge_exists, binary_search}
use nexus_core_devops_engine.Csr.Counts.{below, SourcesBelow, below-suc, below-le-length}
use nexus_core_devops_engine.Csr.Rows.{row, targets, slice-row}
use nexus_core_devops_engine.Csr.Repr.{Repr}
use nexus_core_devops_engine.Csr.Search.{IsAscending, binary_search_iff}

-- The row of a source holds exactly the targets of its edges, in ascending order.
pub mem-row : (s d : ℕ) (es : List Edge) → Memᴰ d (row s es) ↔ Memᴰ (s, d) es
mem-row s d [] = (λ m. absurd (Memᴰ-not-nil d m), λ m. absurd (Memᴰ-not-nil (s, d) m))
mem-row s d ((a, b) ∷ es) =
    ground (arith, mem-row s d es, Memᴰ-cons d b (row s es), Memᴰ-cons (s, d) (a, b) es)

All-row : (s d : ℕ) (es : List Edge) → All (EdgeLe (s, d)) es → All (λ y. d ≤ y) (row s es)
All-row s d [] h = tt
All-row s d ((a, b) ∷ es) h = elim (Bool-cases (a == s)) [
  | inl e ↦ rw e (ground (arith, h.0), All-row s d es h.1)
  | inr ne ↦ rw ne (All-row s d es h.1)
]

pub row-IsAscending : (s : ℕ) (es : List Edge) → IsSorted es → IsAscending (row s es)
row-IsAscending s [] h = tt
row-IsAscending s ((a, b) ∷ es) h = elim (Bool-cases (a == s)) [
  | inl e ↦
      let same = (==_iff a s).0 e in
      rw e (
        subst (λ t. All (λ y. b ≤ y) (row t es)) same (All-row a b es h.0),
        row-IsAscending s es h.1,
      )
  | inr ne ↦ rw ne (row-IsAscending s es h.1)
]

pub row_none : (s n : ℕ) (es : List Edge) → SourcesBelow n es → n ≤ s → row s es ≡ []
row_none s n [] h le = refl
row_none s n ((a, b) ∷ es) h le = ground (arith, h.0, row_none s n es h.1 le)

module _ (g : CsrGraph) (es : List Edge) (r : Repr g es) where
  -- For a node below the capacity `get_following` returns the targets of its edges, in the order of
  -- the sorted edges.
  pub get_following-row : (v : ℕ) → v < g.hdr.node_capacity → get_following g v ≡ ok (row v es)
  unfolding get_following
  get_following-row v lt =
      let magic = (==_iff g.hdr.magic header_magic).1 r.layout.magic in
      let valid : leb g.hdr.node_capacity v ≡ false = ground arith in
      let plus : v + 1 ≡ suc v = omega arith in
      let start = r.holds.rows v (omega arith) in
      let end : get_or (row_ptr_slice g) (v + 1) 0 ≡ below (suc v) es =
        rw plus (r.holds.rows (suc v) lt) in
      let long : length (targets es) ≡ length es = length-map (λ (e : Edge). e.1) es in
      let cut =
        le→ltb (length (targets es)) (below (suc v) es)
          (omega (arith, long, below-le-length (suc v) es)) in
      let ordered = le→ltb (below (suc v) es) (below v es) (omega (arith, below-suc v es)) in
      let cols = r.holds.cols in
      let found = slice-row v es r.holds.sorted in
      elim (Bool-cases (below v es == below (suc v) es)) [
        | inl same ↦
            let e = (==_iff (below v es) (below (suc v) es)).0 same in
            let empty : row v es ≡ [] =
              sym found
              ∙ (ap (λ n. slice (targets es) n (below (suc v) es)) e
                  ∙ slice_empty (targets es) (below (suc v) es)) in
            rw (magic, valid, start, end, same, empty)
        | inr some ↦ rw (magic, valid, start, end, some, ordered, cols, cut, found)
      ]

  pub get_following_invalid :
      (v : ℕ) → g.hdr.node_capacity ≤ v → get_following g v ≡ err invalid_node_id
  unfolding get_following
  get_following_invalid v le =
      let magic = (==_iff g.hdr.magic header_magic).1 r.layout.magic in
      let invalid : leb g.hdr.node_capacity v ≡ true = ground arith in rw (magic, invalid)

  pub edge_exists-row : (s d : ℕ) → edge_exists g s d ≡ ok (binary_search (row s es) d)
  unfolding edge_exists found_in
  edge_exists-row s d = elim (Bool-cases (ltb s g.hdr.node_capacity)) [
    | inl lt ↦ rw (get_following-row s (ltb→lt _ _ lt))
    | inr ge ↦
        let le = ltb→le _ _ ge in
        rw (get_following_invalid s le, row_none s _ es r.holds.in_range le) refl
  ]

  -- `edge_exists` decides whether the edge is in the graph, for any two numbers, and never panics.
  pub edge_exists_decides :
      (s d : ℕ) → (b : Bool) × (edge_exists g s d ≡ ok b) × ((b ≡ true) ↔ Memᴰ (s, d) es)
  edge_exists_decides s d = (
    binary_search (row s es) d,
    edge_exists-row s d,
    (
      λ h.
          (mem-row s d es).0
            ((binary_search_iff (row s es) d (row-IsAscending s es r.holds.sorted)).0 h),
      λ m.
          (binary_search_iff (row s es) d (row-IsAscending s es r.holds.sorted)).1
            ((mem-row s d es).1 m),
    ),
  )
