-- ===== src/Csr/Draws.antt =====
-- What the benchmark draws: as many edges as it says, between nodes of its graph.
use nexus_core_devops_engine.Base.{
  ℕ, zero, suc, ◌*◌, ◌≤◌, ◌<◌, ◌≡◌, refl, ap, true, inl, inr, List, [], ◌∷◌, length, map, arith,
  Bool-cases, length-append, lt→ltb,
}
use nexus_core_devops_engine.Csr.Graph.{Edge}
use nexus_core_devops_engine.Csr.Insert.{all_in_range}
use nexus_core_devops_engine.Csr.Bulk.{without_loops}
use nexus_core_devops_engine.Csr.History.{AllInRange}
use nexus_core_devops_engine.Csr.Inserted.{drawn_edges, in_range-without_loops}
use nexus_core_devops_engine.Csr.Batches.{all_edges}
use nexus_core_devops_engine.Csr.Benchmark.{
  node_capacity, batch_size, Rng, draw_src, draw_batch, draw_batches,
}

all_in_range-cons :
    (n a b : ℕ) (es : List Edge)
    → a < n
    → b < n
    → all_in_range n es ≡ true
    → all_in_range n ((a, b) ∷ es) ≡ true
unfolding all_in_range
all_in_range-cons n a b es ha hb h = rw (lt→ltb a n ha, lt→ltb b n hb) h

length-without_loops : (es : List Edge) → length (without_loops es) ≤ length es
unfolding without_loops
length-without_loops [] = omega arith
length-without_loops ((a, b) ∷ es) = ground (arith, length-without_loops es)

-- The edges that are inserted.
abbrev pub inserted_edges : List (List Edge) → List Edge
inserted_edges drawn = all_edges (map without_loops drawn)

pub length-inserted_edges :
    (drawn : List (List Edge)) → length (inserted_edges drawn) ≡ drawn_edges drawn
length-inserted_edges [] = refl
length-inserted_edges (batch ∷ rest) =
    omega
      (arith, length-append (without_loops batch) (inserted_edges rest), length-inserted_edges rest)

pub inserted-AllInRange :
    (n : ℕ) (drawn : List (List Edge)) → AllInRange n drawn → AllInRange n (map without_loops drawn)
inserted-AllInRange n [] h = tt
inserted-AllInRange n (batch ∷ rest) h =
    (in_range-without_loops n batch h.0, inserted-AllInRange n rest h.1)

module _ (rng : Rng) where
  open rng use {State, gen_bool, gen_range, gen_range-lt}

  draw_src-lt : (s : State) → (draw_src rng s).0 < node_capacity
  unfolding draw_src
  draw_src-lt s =
      let s' = (gen_bool s).1 in
      elim (Bool-cases (gen_bool s).0) [
        | inl wide ↦ rw (draw_src, wide) (gen_range-lt node_capacity s' (omega arith))
        | inr narrow ↦
            let few = gen_range-lt 10_000 s' (omega arith) in
            rw (draw_src, narrow) (omega (arith, few))
      ]

  draw_batch-in_range :
      (rounds : ℕ) (s : State) → all_in_range node_capacity (draw_batch rng rounds s).0 ≡ true
  unfolding draw_batch all_in_range
  draw_batch-in_range zero s = refl
  draw_batch-in_range (suc rounds) s =
      let (src, s₁) = draw_src rng s in
      let (dst, s₂) = gen_range node_capacity s₁ in
      all_in_range-cons node_capacity (draw_src rng s).0 dst (draw_batch rng rounds s₂).0
        (draw_src-lt s) (gen_range-lt node_capacity s₁ (omega arith))
        (draw_batch-in_range rounds s₂)

  length-draw_batch : (rounds : ℕ) (s : State) → length (draw_batch rng rounds s).0 ≡ rounds
  unfolding draw_batch
  length-draw_batch zero s = refl
  length-draw_batch (suc rounds) s =
      let (src, s₁) = draw_src rng s in
      let (dst, s₂) = gen_range node_capacity s₁ in ap suc (length-draw_batch rounds s₂)

  pub draw_batches-AllInRange :
      (n : ℕ) (s : State) → AllInRange node_capacity (draw_batches rng n s)
  unfolding draw_batches
  draw_batches-AllInRange zero s = tt
  draw_batches-AllInRange (suc n) s =
      (draw_batch-in_range batch_size s, draw_batches-AllInRange n (draw_batch rng batch_size s).1)

  pub drawn_edges-draw_batches :
      (n : ℕ) (s : State) → drawn_edges (draw_batches rng n s) ≤ n * batch_size
  unfolding draw_batches
  drawn_edges-draw_batches zero s = omega arith
  drawn_edges-draw_batches (suc n) s =
      let (batch, s') = draw_batch rng batch_size s in
      omega (
        arith,
        length-without_loops (draw_batch rng batch_size s).0,
        length-draw_batch batch_size s,
        drawn_edges-draw_batches n s',
      )
