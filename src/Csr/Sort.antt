-- ===== src/Csr/Sort.antt =====
-- `all_edges.sort_unstable()`: the order of pairs of u32, and the one ascending permutation.
use mathlib.Core.List.{Perm}
use mathlib.Core.List.Perm
use nexus_core_devops_engine.Base.{
  suc, ◌≤◌, ◌<◌, ◌≡◌, refl, ap, ◌⊎◌, inl, inr, Bool, true, false, ◌&&◌, ◌||◌, List, [], ◌∷◌, length,
  ltb, leb, ◌==◌, if◌then◌else◌, Bool-cases, All, arith,
}
use nexus_core_devops_engine.Csr.Graph.{Edge}

-- The derived order of tuples: by source, then by target.
abbrev pub edge_le : Edge → Edge → Bool
edge_le (a, b) (c, d) = ltb a c || (a == c) && leb b d

unfoldable pub insert : Edge → List Edge → List Edge
insert e [] = e ∷ []
insert e (f ∷ fs) = if edge_le e f then e ∷ f ∷ fs else f ∷ insert e fs

unfoldable pub sort_edges : List Edge → List Edge
unfolding insert
sort_edges [] = []
sort_edges (e ∷ es) = insert e (sort_edges es)

abbrev pub EdgeLe : Edge → Edge → Type 0
EdgeLe e f = (e.0 < f.0) ⊎ ((e.0 ≡ f.0) × (e.1 ≤ f.1))

-- Each edge is at most every later one.
abbrev pub IsSorted : List Edge → Type 0
IsSorted [] = Unit
IsSorted (e ∷ es) = All (EdgeLe e) es × IsSorted es

EdgeLe-trans : (e f g : Edge) → EdgeLe e f → EdgeLe f g → EdgeLe e g
EdgeLe-trans (a, b) (c, d) (x, y) h k = ground arith

All-EdgeLe-trans :
    (e f : Edge) (es : List Edge) → EdgeLe e f → All (EdgeLe f) es → All (EdgeLe e) es
All-EdgeLe-trans e f [] h a = tt
All-EdgeLe-trans e f (g ∷ es) h a = (EdgeLe-trans e f g h a.0, All-EdgeLe-trans e f es h a.1)

edge_le-true : (e f : Edge) → edge_le e f ≡ true → EdgeLe e f
edge_le-true (a, b) (c, d) h = ground arith

edge_le-false : (e f : Edge) → edge_le e f ≡ false → EdgeLe f e
edge_le-false (a, b) (c, d) h = ground arith

pub All-insert {ℓ} :
    (P : Edge → Type ℓ) (e : Edge) (es : List Edge) → P e → All P es → All P (insert e es)
unfolding insert
All-insert P e [] p a = (p, a)
All-insert P e (f ∷ es) p a = elim (Bool-cases (edge_le e f)) [
  | inl le ↦ rw le (p, a)
  | inr gt ↦ rw gt (a.0, All-insert P e es p a.1)
]

pub All-sort {ℓ} : (P : Edge → Type ℓ) (es : List Edge) → All P es → All P (sort_edges es)
unfolding sort_edges
All-sort P [] a = a
All-sort P (e ∷ es) a = All-insert P e (sort_edges es) a.0 (All-sort P es a.1)

insert-IsSorted : (e : Edge) (es : List Edge) → IsSorted es → IsSorted (insert e es)
unfolding insert
insert-IsSorted e [] s = (tt, tt)
insert-IsSorted e (f ∷ es) s = elim (Bool-cases (edge_le e f)) [
  | inl le ↦
      let below = edge_le-true e f le in rw le ((below, All-EdgeLe-trans e f es below s.0), s)
  | inr gt ↦ rw gt (All-insert (EdgeLe f) e es (edge_le-false e f gt) s.0, insert-IsSorted e es s.1)
]

pub sort-IsSorted : (es : List Edge) → IsSorted (sort_edges es)
unfolding sort_edges
sort-IsSorted [] = tt
sort-IsSorted (e ∷ es) = insert-IsSorted e (sort_edges es) (sort-IsSorted es)

insert-perm : (e : Edge) (es : List Edge) → Perm (insert e es) (e ∷ es)
unfolding insert
insert-perm e [] = Perm.rfl
insert-perm e (f ∷ es) = elim (Bool-cases (edge_le e f)) [
  | inl le ↦ rw le Perm.rfl
  | inr gt ↦ rw gt (Perm.trans (Perm.cons f (insert-perm e es)) (Perm.swap e f es))
]

pub sort-perm : (es : List Edge) → Perm (sort_edges es) es
unfolding sort_edges
sort-perm [] = Perm.rfl
sort-perm (e ∷ es) = Perm.trans (insert-perm e (sort_edges es)) (Perm.cons e (sort-perm es))

length-insert : (e : Edge) (es : List Edge) → length (insert e es) ≡ suc (length es)
unfolding insert
length-insert e [] = refl
length-insert e (f ∷ es) = elim (Bool-cases (edge_le e f)) [
  | inl le ↦ rw le refl
  | inr gt ↦ rw gt (ap suc (length-insert e es))
]

pub length-sort : (es : List Edge) → length (sort_edges es) ≡ length es
unfolding sort_edges
length-sort [] = refl
length-sort (e ∷ es) = omega (arith, length-insert e (sort_edges es), length-sort es)
