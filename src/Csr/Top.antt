-- ===== src/Csr/Top.antt =====
-- The five hottest nodes that the benchmark shows, from any sort of the hot nodes by degree.
use mathlib.Core.List.Permᴰ
use nexus_core_devops_engine.Base.{
  ℕ, zero, suc, ◌≤◌, ◌<◌, ◌≡◌, refl, ap, sym, ◌∙◌, subst, ◌⊎◌, ◌↔◌, inl, inr, List, [], ◌∷◌, length,
  take, Memᴰ, All, arith, Bool-cases, leb, leb→le, leb→lt, length-take, Memᴰ-Permᴰ, All-Permᴰ, ◌≢◌,
  All-Memᴰ, All-intro, All-take, Memᴰ-cons, Memᴰ-not-nil,
}
use nexus_core_devops_engine.Csr.Graph.{Edge, CsrGraph}
use nexus_core_devops_engine.Csr.Repr.{Repr}
use nexus_core_devops_engine.Csr.Bulk.{hot_threshold}
use nexus_core_devops_engine.Csr.Hot.{out_degree, DistinctNodes, IsHotList}
use nexus_core_devops_engine.Csr.Benchmark.{Descending, DegreeSort}

Descending-take : (n : ℕ) (ps : List (ℕ × ℕ)) → Descending ps → Descending (take n ps)
Descending-take zero ps d = tt
Descending-take (suc n) [] d = tt
Descending-take (suc n) (p ∷ ps) d = (All-take (λ q. q.1 ≤ p.1) n ps d.0, Descending-take n ps d.1)

DistinctNodes-take : (n : ℕ) (ps : List (ℕ × ℕ)) → DistinctNodes ps → DistinctNodes (take n ps)
DistinctNodes-take zero ps d = tt
DistinctNodes-take (suc n) [] d = tt
DistinctNodes-take (suc n) (p ∷ ps) d =
    (All-take (λ q. q.0 ≢ p.0) n ps d.0, DistinctNodes-take n ps d.1)

DistinctNodes-Permᴰ :
    (ps qs : List (ℕ × ℕ)) → Permᴰ.Permᴰ ps qs → DistinctNodes ps → DistinctNodes qs
DistinctNodes-Permᴰ ps qs Permᴰ.nil h = h
DistinctNodes-Permᴰ ps qs (Permᴰ.cons {a = a} {b = b} {l₁ = xs} {l₂ = ys} e d) h = (
  subst (λ p. All (λ q. q.0 ≢ p.0) ys) e (All-Permᴰ (λ q. q.0 ≢ a.0) xs ys d h.0),
  DistinctNodes-Permᴰ xs ys d h.1,
)
DistinctNodes-Permᴰ ps qs (Permᴰ.swap {a = a} {b = b} {a' = c} {b' = d} {l = xs} e₁ e₂) h = (
  (
    λ same. h.0.0 (ap (λ p. p.0) e₂ ∙ sym same ∙ sym (ap (λ p. p.0) e₁)),
    subst (λ p. All (λ q. q.0 ≢ p.0) xs) e₂ h.1.0,
  ),
  (subst (λ p. All (λ q. q.0 ≢ p.0) xs) e₁ h.0.1, h.1.1),
)
DistinctNodes-Permᴰ ps rs (Permᴰ.trans {l₂ = qs} d₁ d₂) h =
    DistinctNodes-Permᴰ qs rs d₂ (DistinctNodes-Permᴰ ps qs d₁ h)

-- What is not among the first `n` pairs of a descending list has a degree of at most theirs.
take-best :
    (n : ℕ) (p : ℕ × ℕ) (ps : List (ℕ × ℕ))
    → Descending ps
    → Memᴰ p ps
    → Memᴰ p (take n ps) ⊎ ((length (take n ps) ≡ n) × All (λ q. p.1 ≤ q.1) (take n ps))
take-best zero p ps d m = inr (refl, tt)
take-best (suc n) p [] d m = absurd (Memᴰ-not-nil p m)
take-best (suc n) p (q ∷ ps) d m = elim ((Memᴰ-cons p q ps).0 m) [
  | inl here ↦ inl ((Memᴰ-cons p q (take n ps)).1 (inl here))
  | inr there ↦ elim (take-best n p ps d.1 there) [
    | inl kept ↦ inl ((Memᴰ-cons p q (take n ps)).1 (inr kept))
    | inr (long, best) ↦ inr (ap suc long, (All-Memᴰ (λ x. x.1 ≤ q.1) p ps there d.0, best))
  ]
]

-- What the benchmark reports of a graph with the edges `es`: at most five hot nodes with their
-- out-degrees, each node once, no degree above an earlier one; a node is missing only if it is not hot,
-- or if there are five with out-degrees of at least its own.
pub record TopHot (es : List Edge) (top : List (ℕ × ℕ)) : Type 0 where
  pub few : length top ≤ 5
  pub order : Descending top
  pub distinct : DistinctNodes top
  pub degrees : All (λ p. (p.1 ≡ out_degree p.0 es) × (hot_threshold ≤ p.1)) top
  pub complete :
      (v : ℕ)
      → (out_degree v es < hot_threshold)
        ⊎ Memᴰ (v, out_degree v es) top
        ⊎ ((length top ≡ 5) × All (λ p. out_degree v es ≤ p.1) top)

pub take-TopHot :
    (by_degree : DegreeSort) (g : CsrGraph) (es : List Edge) (r : Repr g es) (hot : List (ℕ × ℕ))
    → IsHotList g es r hot
    → TopHot es (take 5 (by_degree.sort hot))
take-TopHot by_degree g es r hot h =
    let sorted = by_degree.sort hot in
    let order = by_degree.sort-Descending hot in
    let same_pairs = by_degree.sort-perm hot in
    let same : (p : ℕ × ℕ) → Memᴰ p sorted ↔ Memᴰ p hot =
      λ p. (Memᴰ-Permᴰ p sorted hot same_pairs, Memᴰ-Permᴰ p hot sorted (Permᴰ.symm same_pairs)) in
    record {
      few = omega (arith, length-take 5 sorted);
      order = Descending-take 5 sorted order;
      distinct =
          DistinctNodes-take 5 sorted
            (DistinctNodes-Permᴰ hot sorted (Permᴰ.symm same_pairs) h.distinct);
      degrees =
          All-take _ 5 sorted (All-intro _ sorted (λ p m. (h.exact p.0 p.1).0 ((same p).0 m)));
      complete = λ v. elim (Bool-cases (leb hot_threshold (out_degree v es))) [
        | inl hot_v ↦
            let listed = (h.exact v (out_degree v es)).1 (refl, leb→le _ _ hot_v) in
            inr
              (take-best 5 (v, out_degree v es) sorted order ((same (v, out_degree v es)).1 listed))
        | inr cold ↦ inl (leb→lt _ _ cold)
      ];
    }
