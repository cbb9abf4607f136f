-- ===== src/Csr/Hot.antt =====
-- The scan for hot nodes finds every node with at least `hot_threshold` outgoing edges.
use nexus_core_devops_engine.Base.{
  ℕ, zero, suc, ◌+◌, ◌≤◌, ◌<◌, ◌≡◌, refl, ◌≢◌, All, All-imp, ◌↔◌, inl, inr, List, [], ◌∷◌, length,
  leb, if◌then◌else◌, Bool-cases, arith, Memᴰ, Memᴰ-not-nil, Memᴰ-cons,
}
use nexus_core_devops_engine.Csr.Graph.{Edge, CsrGraph, ok, node_count}
use nexus_core_devops_engine.Csr.Rows.{row}
use nexus_core_devops_engine.Csr.Repr.{Repr}
use nexus_core_devops_engine.Csr.Reads.{get_following-row, row_none}
use nexus_core_devops_engine.Csr.Bulk.{hot_threshold, or_empty, keep_hot, hot_from, hot_nodes}

-- The number of edges from a node.
abbrev pub out_degree : ℕ → List Edge → ℕ
out_degree v es = length (row v es)

hot_list : ℕ → ℕ → List Edge → List (ℕ × ℕ)
hot_list zero v es = []
hot_list (suc rounds) v es =
    let rest = hot_list rounds (v + 1) es in
    if leb hot_threshold (out_degree v es) then (v, out_degree v es) ∷ rest else rest

-- No two of the pairs are of one node.
abbrev pub DistinctNodes : List (ℕ × ℕ) → Type 0
DistinctNodes [] = Unit
DistinctNodes (p ∷ ps) = All (λ q. q.0 ≢ p.0) ps × DistinctNodes ps

hot_list-from :
    (rounds v : ℕ) (es : List Edge)
    → All (λ q. v ≤ q.0) (hot_list rounds v es) × DistinctNodes (hot_list rounds v es)
unfolding hot_list
hot_list-from zero v es = (tt, tt)
hot_list-from (suc rounds) v es =
    let rest = hot_list rounds (v + 1) es in
    let (from, distinct) = hot_list-from rounds (v + 1) es in
    let later : All (λ q. v ≤ q.0) rest =
      All-imp (λ q. (v + 1) ≤ q.0) (λ q. v ≤ q.0) rest (λ q le. omega (arith, le)) from in
    let other : All (λ q. q.0 ≢ v) rest =
      All-imp (λ q. (v + 1) ≤ q.0) (λ q. q.0 ≢ v) rest (λ q le e. omega (arith, le, e)) from in
    elim (Bool-cases (leb hot_threshold (out_degree v es))) [
      | inl hot ↦ rw hot ((omega arith, later), (other, distinct))
      | inr cold ↦ rw cold (later, distinct)
    ]

mem-hot_list :
    (rounds v w n : ℕ) (es : List Edge)
    → Memᴰ (w, n) (hot_list rounds v es)
      ↔ ((v ≤ w) × (w < v + rounds) × (n ≡ out_degree w es) × (hot_threshold ≤ n))
unfolding hot_list
mem-hot_list zero v w n es =
    (λ m. absurd (Memᴰ-not-nil (w, n) m), λ h. absurd (omega (arith, h.0, h.1)))
mem-hot_list (suc rounds) v w n es =
    let ih = mem-hot_list rounds (v + 1) w n es in
    let step = Memᴰ-cons (w, n) (v, out_degree v es) (hot_list rounds (v + 1) es) in
    ground (arith, ih, step)

module _ (g : CsrGraph) (es : List Edge) (r : Repr g es) where
  hot_from_lem :
      (rounds v : ℕ)
      → v + rounds ≤ g.hdr.node_capacity
      → hot_from g rounds v ≡ ok (hot_list rounds v es)
  unfolding hot_from hot_list or_empty keep_hot
  hot_from_lem zero v fit = refl
  hot_from_lem (suc rounds) v fit =
      rw (get_following-row g es r v (omega arith), hot_from_lem rounds (v + 1) (omega arith))
        (elim (Bool-cases (leb hot_threshold (out_degree v es))) [
          | inl e ↦ rw (or_empty, keep_hot, e)
          | inr e ↦ rw (or_empty, keep_hot, e)
        ])

  -- What the scan promises: the pairs of a node and its out-degree, for the nodes at the threshold.
  pub record IsHotList (hot : List (ℕ × ℕ)) : Type 0 where
    pub returns : hot_nodes g ≡ ok hot
    pub distinct : DistinctNodes hot
    pub exact : (v n : ℕ) → Memᴰ (v, n) hot ↔ ((n ≡ out_degree v es) × (hot_threshold ≤ n))

  -- The scan does not panic, and lists a node with its number of outgoing edges exactly if this
  -- number is at least the threshold: no hot node lies at or above the node count.
  pub hot_nodes-IsHotList : (hot : List (ℕ × ℕ)) × IsHotList hot
  unfolding hot_nodes node_count
  hot_nodes-IsHotList = (
    hot_list g.hdr.node_count 0 es,
    record {
      returns = hot_from_lem g.hdr.node_count 0 (omega (arith, r.node_bound));
      distinct = (hot_list-from g.hdr.node_count 0 es).1;
      exact = λ v n.
          let mem = mem-hot_list g.hdr.node_count 0 v n es in
          (
            λ m. ((mem.0 m).2, (mem.0 m).3),
            λ (degree, hot).
                let below : v < g.hdr.node_count = below_count v n degree hot in
                mem.1 (omega arith, omega arith, degree, hot),
          );
    },
  )
    where
      below_count : (v n : ℕ) → n ≡ out_degree v es → hot_threshold ≤ n → v < g.hdr.node_count
      below_count v n degree hot =
          ground (arith, row_none v g.hdr.node_count es r.nodes, degree, hot)
