-- ===== src/Witness/Benchmark.antt =====
-- A generator that counts, an insertion sort by degree, and the benchmark of main.rs with them.
use mathlib.Core.List.Permᴰ
use native.Mathlib.Nat.{mod-lt}
use nexus_core_devops_engine.Base.{
  ℕ, ◌+◌, ◌*◌, ◌/◌, ◌%◌, ◌==◌, ◌≤◌, ◌≡◌, refl, inl, inr, List, [], ◌∷◌, All, leb, leb→le, leb→lt,
  if◌then◌else◌, Bool-cases, arith,
}
use nexus_core_devops_engine.Csr.Graph.{CsrGraph, ok}
use nexus_core_devops_engine.Csr.Benchmark.{
  bench_edges, batch_size, Rng, Descending, DegreeSort, Report, draw_batches, main,
}
use nexus_core_devops_engine.Csr.Finish.{Finished, main-Finished}

-- Every fifth draw is wide.
abbrev counting : Rng
counting = record {
  State = ℕ;
  gen_bool = λ s. (s % 5 == 0, s + 1);
  gen_range = λ n s. ((s * 7919) % n, s + 1);
  gen_range-lt = λ n s some. mod-lt (s * 7919) some;
}

abbrev insert_degree : ℕ × ℕ → List (ℕ × ℕ) → List (ℕ × ℕ)
insert_degree p [] = p ∷ []
insert_degree p (q ∷ qs) =
    let rest = insert_degree p qs in if leb q.1 p.1 then p ∷ q ∷ qs else q ∷ rest

abbrev sort_degrees : List (ℕ × ℕ) → List (ℕ × ℕ)
sort_degrees [] = []
sort_degrees (p ∷ ps) = insert_degree p (sort_degrees ps)

insert_degree-perm : (p : ℕ × ℕ) (qs : List (ℕ × ℕ)) → Permᴰ.Permᴰ (insert_degree p qs) (p ∷ qs)
insert_degree-perm p [] = Permᴰ.refl (p ∷ [])
insert_degree-perm p (q ∷ qs) = elim (Bool-cases (leb q.1 p.1)) [
  | inl low ↦ rw low (Permᴰ.refl (p ∷ q ∷ qs))
  | inr high ↦
      rw high (Permᴰ.trans (Permᴰ.cons refl (insert_degree-perm p qs)) (Permᴰ.swap refl refl))
]

sort_degrees-perm : (ps : List (ℕ × ℕ)) → Permᴰ.Permᴰ (sort_degrees ps) ps
sort_degrees-perm [] = Permᴰ.refl []
sort_degrees-perm (p ∷ ps) =
    Permᴰ.trans (insert_degree-perm p (sort_degrees ps)) (Permᴰ.cons refl (sort_degrees-perm ps))

All-weaken : (a b : ℕ) (qs : List (ℕ × ℕ)) → a ≤ b → All (λ q. q.1 ≤ a) qs → All (λ q. q.1 ≤ b) qs
All-weaken a b [] le h = tt
All-weaken a b (q ∷ qs) le h = (omega (arith, h.0), All-weaken a b qs le h.1)

All-insert_degree :
    (b : ℕ) (p : ℕ × ℕ) (qs : List (ℕ × ℕ))
    → p.1 ≤ b
    → All (λ q. q.1 ≤ b) qs
    → All (λ q. q.1 ≤ b) (insert_degree p qs)
All-insert_degree b p [] le h = (le, tt)
All-insert_degree b p (q ∷ qs) le h = elim (Bool-cases (leb q.1 p.1)) [
  | inl low ↦ rw low (le, h)
  | inr high ↦ rw high (h.0, All-insert_degree b p qs le h.1)
]

insert_degree-Descending :
    (p : ℕ × ℕ) (qs : List (ℕ × ℕ)) → Descending qs → Descending (insert_degree p qs)
insert_degree-Descending p [] d = (tt, tt)
insert_degree-Descending p (q ∷ qs) d = elim (Bool-cases (leb q.1 p.1)) [
  | inl low ↦ let le = leb→le q.1 p.1 low in rw low ((le, All-weaken q.1 p.1 qs le d.0), d)
  | inr high ↦
      let lt = leb→lt q.1 p.1 high in
      rw high (All-insert_degree q.1 p qs (omega arith) d.0, insert_degree-Descending p qs d.1)
]

sort_degrees-Descending : (ps : List (ℕ × ℕ)) → Descending (sort_degrees ps)
sort_degrees-Descending [] = tt
sort_degrees-Descending (p ∷ ps) =
    insert_degree-Descending p (sort_degrees ps) (sort_degrees-Descending ps)

abbrev by_insertion : DegreeSort
by_insertion = record {
  sort = sort_degrees;
  sort-perm = sort_degrees-perm;
  sort-Descending = sort_degrees-Descending;
}

main-Finished_example :
    (g : CsrGraph) × (report : Report) × (main by_insertion counting 3 ≡ ok (g, ok report))
    × Finished (draw_batches counting (bench_edges / batch_size) 3) g report
main-Finished_example = main-Finished by_insertion counting 3
