-- ===== src/Csr/Counts.antt =====
-- How many edges lie before a source and at it, and that the degree counts, their prefix sums and
-- the scatter of `add_edge_batch` compute with these numbers.
use nexus_core_devops_engine.Base.{
  ℕ, zero, suc, ◌+◌, ◌%◌, ◌≤◌, ◌<◌, ◌≡◌, refl, ap, inl, inr, List, [], ◌∷◌, true, map, replicate,
  overwrite, get_or-replicate, length-replicate, sym, ◌≢◌, overwrite-set, overwrite-nil, length,
  get_or, set, ltb, ◌==◌, if◌then◌else◌, All, Bool-cases, ==_iff, get_or-set_self, get_or-set_ne,
  length-set, u32_mod, arith, ◌∙◌, lt→ltb,
}
use nexus_core_devops_engine.Csr.Graph.{Edge}
use nexus_core_devops_engine.Csr.Sort.{EdgeLe, IsSorted}
use nexus_core_devops_engine.Csr.Insert.{
  count_degrees, prefix_sums, saturating_add, scatter, built_row_ptr,
}

-- The number of edges whose source is less than `s`.
abbrev pub below : ℕ → List Edge → ℕ
below s [] = 0
below s ((a, d) ∷ es) = if ltb a s then suc (below s es) else below s es

-- The number of edges whose source is `s`.
abbrev at_src : ℕ → List Edge → ℕ
at_src s [] = 0
at_src s ((a, d) ∷ es) = if a == s then suc (at_src s es) else at_src s es

-- The sources lie below `n`.
abbrev pub SourcesBelow : ℕ → List Edge → Type 0
SourcesBelow n = All (λ e. e.0 < n)

All-mono : (n m : ℕ) (es : List Edge) → n ≤ m → SourcesBelow n es → SourcesBelow m es
All-mono n m [] le h = tt
All-mono n m (e ∷ es) le h = (omega (arith, h.0), All-mono n m es le h.1)

pub below-suc : (s : ℕ) (es : List Edge) → below (suc s) es ≡ below s es + at_src s es
below-suc s [] = omega arith
below-suc s ((a, d) ∷ es) = ground (arith, below-suc s es)

pub below-le-length : (s : ℕ) (es : List Edge) → below s es ≤ length es
below-le-length s [] = omega arith
below-le-length s ((a, d) ∷ es) = ground (arith, below-le-length s es)

below-zero : (es : List Edge) → below 0 es ≡ 0
below-zero [] = refl
below-zero ((a, d) ∷ es) = ground (arith, below-zero es)

below_all : (n : ℕ) (es : List Edge) → SourcesBelow n es → below n es ≡ length es
below_all n [] h = refl
below_all n ((a, d) ∷ es) h = rw (lt→ltb a n h.0) (ap suc (below_all n es h.1))

-- Nothing lies below the source of the first edge of a sorted list.
pub below_head : (a d s : ℕ) (es : List Edge) → All (EdgeLe (a, d)) es → s ≤ a → below s es ≡ 0
below_head a d s [] h le = refl
below_head a d s ((b, c) ∷ es) h le = ground (arith, h.0, below_head a d s es h.1 le)

le_of_at_src : (a d s : ℕ) (es : List Edge) → All (EdgeLe (a, d)) es → 0 < at_src s es → a ≤ s
le_of_at_src a d s [] h k = absurd (omega arith)
le_of_at_src a d s ((b, c) ∷ es) h k = ground (arith, h.0, le_of_at_src a d s es h.1)

-- One more edge at `src`, where the count does not wrap.
get_or-bump :
    (rp : List ℕ) (src s : ℕ)
    → src < length rp
    → get_or rp src 0 + 1 < u32_mod
    → get_or (set rp src ((get_or rp src 0 + 1) % u32_mod)) s 0
      ≡ (if src == s then suc (get_or rp s 0) else get_or rp s 0)
get_or-bump rp src s h k = elim (Bool-cases (src == s)) [
  | inl same ↦
      let e = (==_iff src s).0 same in
      rw same (rw (← e) (get_or-set_self rp src _ 0 h ∙ omega arith))
  | inr other ↦ rw other (get_or-set_ne rp src s _ 0 (λ e. ground (arith, (==_iff src s).1 e)))
]

abbrev Fits : List ℕ → List Edge → Type 0
Fits rp es = (s : ℕ) → get_or rp s 0 + length es < u32_mod

-- `count_degrees` adds to each cell the number of edges with that source.
get_or-count_degrees :
    (es : List Edge) (rp : List ℕ) (s : ℕ)
    → SourcesBelow (length rp) es
    → Fits rp es
    → get_or (count_degrees es rp) s 0 ≡ get_or rp s 0 + at_src s es
unfolding count_degrees
get_or-count_degrees [] rp s h fit = omega arith
get_or-count_degrees ((a, d) ∷ es) rp s h fit =
    let rp' = set rp a ((get_or rp a 0 + 1) % u32_mod) in
    let bumped = λ (t : ℕ). get_or-bump rp a t h.0 (omega (arith, fit a)) in
    let long : length rp' ≡ length rp = length-set rp a _ in
    let ih =
      get_or-count_degrees es rp' s (rw long h.1) (λ t. ground (arith, bumped t, fit t, fit a)) in
    ground (arith, ih, bumped s)

abbrev sum_to : ℕ → List ℕ → ℕ
sum_to zero ds = 0
sum_to (suc i) [] = 0
sum_to (suc i) (d ∷ ds) = d + sum_to i ds

sum_to-suc : (i : ℕ) (ds : List ℕ) → sum_to (suc i) ds ≡ sum_to i ds + get_or ds i 0
sum_to-suc zero [] = omega arith
sum_to-suc zero (d ∷ ds) = omega arith
sum_to-suc (suc i) [] = omega arith
sum_to-suc (suc i) (d ∷ ds) = omega (arith, sum_to-suc i ds)

get_or-prefix_sums :
    (p : ℕ) (ds : List ℕ) (i : ℕ)
    → i < length ds
    → p + sum_to i ds < u32_mod
    → get_or (prefix_sums p ds) i 0 ≡ p + sum_to i ds
unfolding prefix_sums
get_or-prefix_sums p [] i h k = absurd (omega arith)
get_or-prefix_sums p (d ∷ ds) zero h k = omega arith
get_or-prefix_sums p (d ∷ ds) (suc i) h k = ground (arith, get_or-prefix_sums (p + d) ds i)

sum_to-built :
    (n i : ℕ) (es : List Edge)
    → i ≤ n
    → SourcesBelow n es
    → length es < u32_mod
    → sum_to i (count_degrees es (replicate (n + 1) 0)) ≡ below i es
sum_to-built n zero es le h fit = sym (below-zero es)
sum_to-built n (suc i) es le h fit =
    let zeros : List ℕ = replicate (n + 1) 0 in
    let blank = λ (s : ℕ). get_or-replicate {A = ℕ} (n + 1) s 0 in
    let wide = All-mono n (n + 1) es (omega arith) h in
    let counted =
      get_or-count_degrees es zeros i (rw (length-replicate {A = ℕ} (n + 1) 0) wide)
        (λ s. omega (arith, blank s)) in
    omega (
      arith,
      sum_to-suc i (count_degrees es zeros),
      counted,
      blank i,
      sum_to-built n i es (omega arith) h fit,
      below-suc i es,
    )

length-count_degrees : (es : List Edge) (rp : List ℕ) → length (count_degrees es rp) ≡ length rp
unfolding count_degrees
length-count_degrees [] rp = refl
length-count_degrees ((a, d) ∷ es) rp = length-count_degrees es (set rp a _) ∙ length-set rp a _

length-prefix_sums : (p : ℕ) (ds : List ℕ) → length (prefix_sums p ds) ≡ length ds
unfolding prefix_sums
length-prefix_sums p [] = refl
length-prefix_sums p (d ∷ ds) = ap suc (length-prefix_sums (saturating_add p d) ds)

-- Cell `i` of the rebuilt row pointers is the number of edges whose source is less than `i`.
pub get_or-built_row_ptr :
    (n i : ℕ) (es : List Edge)
    → i ≤ n
    → SourcesBelow n es
    → length es < u32_mod
    → get_or (built_row_ptr n es) i 0 ≡ below i es
unfolding built_row_ptr
get_or-built_row_ptr n i es le h fit =
    let zeros : List ℕ = replicate (n + 1) 0 in
    let ds = count_degrees es zeros in
    let long : length ds ≡ n + 1 = length-count_degrees es zeros ∙ length-replicate (n + 1) 0 in
    let sums = sum_to-built n i es le h fit in
    get_or-prefix_sums 0 ds i (omega arith) (omega (arith, sums, below-le-length i es))
    ∙ omega (arith, sums)

pub length-built_row_ptr : (n : ℕ) (es : List Edge) → length (built_row_ptr n es) ≡ n + 1
unfolding built_row_ptr
length-built_row_ptr n es =
    length-prefix_sums 0 (count_degrees es (replicate (n + 1) 0))
    ∙ (length-count_degrees es (replicate (n + 1) 0) ∙ length-replicate (n + 1) 0)

-- The cursors, after `k` edges are scattered and `es` are left.
pub record IsCursors (n k : ℕ) (es : List Edge) (cursors : List ℕ) : Type 0 where
  pub long : length cursors ≡ n
  pub starts : (s : ℕ) → s < n → 0 < at_src s es → get_or cursors s 0 ≡ k + below s es

-- One edge is scattered: its own cursor moves on, and the later rows see one edge less before them.
IsCursors-next :
    (n k a d : ℕ) (es : List Edge) (cursors : List ℕ)
    → IsSorted ((a, d) ∷ es)
    → SourcesBelow n ((a, d) ∷ es)
    → k + suc (length es) < u32_mod
    → IsCursors n k ((a, d) ∷ es) cursors
    → IsCursors n (suc k) es (set cursors a ((k + 1) % u32_mod))
IsCursors-next n k a d es cursors s h fit c = record {
  long = length-set cursors a _ ∙ c.long;
  starts = λ t lt some. elim (Bool-cases (a == t)) [
    | inl same ↦
        let e = (==_iff a t).0 same in
        let empty : below a es ≡ 0 = below_head a d a es s.0 (omega arith) in
        rw (← e) (get_or-set_self cursors a _ 0 (omega (arith, c.long, h.0)) ∙ omega (arith, empty))
    | inr other ↦
        let ne : a ≢ t = λ e. ground (arith, (==_iff a t).1 e) in
        let after = le_of_at_src a d t es s.0 some in
        get_or-set_ne cursors a t _ 0 ne ∙ ground (arith, c.starts t lt, other)
  ];
}

-- `scatter` puts the edges in their sorted order, one behind the other.
pub scatter_lem :
    (cap n k : ℕ) (es : List Edge) (cursors col : List ℕ)
    → IsSorted es
    → SourcesBelow n es
    → k + length es ≤ cap
    → cap < u32_mod
    → IsCursors n k es cursors
    → scatter cap es cursors col ≡ (overwrite k (map (λ e. e.1) es) col, true)
unfolding scatter
scatter_lem cap n k [] cursors col s h fit small c = rw (overwrite-nil k col)
scatter_lem cap n k ((a, d) ∷ es) cursors col s h fit small c =
    let first = below_head a d a es s.0 (omega arith) in
    let here : get_or cursors a 0 ≡ k = ground (arith, c.starts a, first) in
    let cursors' = set cursors a ((k + 1) % u32_mod) in
    let next : IsCursors n (suc k) es cursors' =
      IsCursors-next n k a d es cursors s h (omega arith) c in
    rw (here, lt→ltb k cap (omega arith))
      (scatter_lem cap n (suc k) es cursors' (set col k d) s.1 h.1 (omega arith) small next
        ∙ ap (λ m. (m, true)) (overwrite-set k d (map (λ e. e.1) es) col))
