-- ===== src/Csr/Rows.antt =====
-- The row of a source, as a slice of the columns between two row pointers, and that collecting all
-- rows gives the sorted edges back.

use nexus_core_devops_engine.Base.{
  ℕ, zero, suc, ◌+◌, ◌≤◌, ◌<◌, ◌≡◌, refl, ap, ◌∙◌, inl, inr, false, List, [], ◌∷◌, ◌++◌, map,
  length, get_or, slice, ltb, ◌==◌, if◌then◌else◌, All, Bool-cases, ==_iff, length-map, arith, sym,
  lt→ltb, le→ltb, ltb→lt, subst, ap₂, slice-suc, slice-zero_suc, slice_empty,
}
use nexus_core_devops_engine.Csr.Graph.{Edge, ok}
use nexus_core_devops_engine.Csr.Sort.{EdgeLe, IsSorted}
use nexus_core_devops_engine.Csr.Insert.{tag_row, collect_from}
use nexus_core_devops_engine.Csr.Counts.{
  below, SourcesBelow, below-suc, below-le-length, below_head,
}

-- The targets of the edges from `s`, in the order of the list.
abbrev pub row : ℕ → List Edge → List ℕ
row s [] = []
row s ((a, d) ∷ es) = if a == s then d ∷ row s es else row s es

-- The edges whose source is at least `s`.
abbrev from_src : ℕ → List Edge → List Edge
from_src s [] = []
from_src s ((a, d) ∷ es) = if ltb a s then from_src s es else (a, d) ∷ from_src s es

abbrev pub targets : List Edge → List ℕ
targets = map (λ e. e.1)

row_none : (a d s : ℕ) (es : List Edge) → All (EdgeLe (a, d)) es → s < a → row s es ≡ []
row_none a d s [] h lt = refl
row_none a d s ((b, c) ∷ es) h lt = ground (arith, h.0, row_none a d s es h.1 lt)

from_src-All : (a d s : ℕ) (es : List Edge) → All (EdgeLe (a, d)) es → s ≤ a → from_src s es ≡ es
from_src-All a d s [] h le = refl
from_src-All a d s ((b, c) ∷ es) h le =
    let more : s ≤ b = ground (arith, h.0) in
    rw (le→ltb b s more) (ap (◌∷◌ (b, c)) (from_src-All a d s es h.1 le))

lt→ne : (a s : ℕ) → a < s → (a == s) ≡ false
lt→ne a s h = ground arith

gt_of_tests : (a s : ℕ) → ltb a s ≡ false → (a == s) ≡ false → s < a
gt_of_tests a s h k = ground arith

-- In the columns of sorted edges the row of `s` lies between the counts for `s` and for `s + 1`.
pub slice-row :
    (s : ℕ) (es : List Edge)
    → IsSorted es
    → slice (targets es) (below s es) (below (suc s) es) ≡ row s es
slice-row s [] h = refl
slice-row s ((a, d) ∷ es) h = elim (Bool-cases (ltb a s)) [
  | inl lt ↦
      let less = ltb→lt a s lt in
      rw (lt, lt→ltb a (suc s) (omega arith), lt→ne a s less)
        (slice-suc d (targets es) (below s es) (below (suc s) es) ∙ slice-row s es h.1)
  | inr ge ↦ elim (Bool-cases (a == s)) [
    | inl e ↦
        let same = (==_iff a s).0 e in
        let empty = below_head a d s es h.0 (omega arith) in
        rw (ge, e, lt→ltb a (suc s) (omega arith), empty)
          (slice-zero_suc d (targets es) (below (suc s) es)
            ∙ ap (◌∷◌ d) (
                subst (λ n. slice (targets es) n (below (suc s) es) ≡ row s es) empty
                  (slice-row s es h.1)))
    | inr ne ↦
        let more = gt_of_tests a s ge ne in
        rw
          (
            ge,
            ne,
            le→ltb a (suc s) more,
            below_head a d s es h.0 (omega arith),
            below_head a d (suc s) es h.0 more,
            row_none a d s es h.0 more,
          )
          (slice_empty (d ∷ targets es) 0)
  ]
]

-- The rows from `s` on are that of `s` and those from `s + 1` on.
tag_row-append-from_src :
    (s : ℕ) (es : List Edge)
    → IsSorted es
    → tag_row s (row s es) ++ from_src (suc s) es ≡ from_src s es
tag_row-append-from_src s [] h = refl
tag_row-append-from_src s ((a, d) ∷ es) h = elim (Bool-cases (ltb a s)) [
  | inl lt ↦
      let less = ltb→lt a s lt in
      rw (lt, lt→ltb a (suc s) (omega arith), lt→ne a s less) (tag_row-append-from_src s es h.1)
  | inr ge ↦ elim (Bool-cases (a == s)) [
    | inl e ↦
        let same = (==_iff a s).0 e in
        rw (ge, e, lt→ltb a (suc s) (omega arith))
          (ap₂ (λ x xs. (x, d) ∷ xs) (sym same) (tag_row-append-from_src s es h.1))
    | inr ne ↦
        let more = gt_of_tests a s ge ne in
        rw (ge, ne, le→ltb a (suc s) more, row_none a d s es h.0 more)
          (ap (◌∷◌ (a, d))
            (from_src-All a d (suc s) es h.0 more ∙ sym (from_src-All a d s es h.0 (omega arith))))
  ]
]

from_src_zero : (es : List Edge) → from_src 0 es ≡ es
from_src_zero [] = refl
from_src_zero ((a, d) ∷ es) = rw (le→ltb a 0 (omega arith)) (ap (◌∷◌ (a, d)) (from_src_zero es))

from_src_none : (n : ℕ) (es : List Edge) → SourcesBelow n es → from_src n es ≡ []
from_src_none n [] h = refl
from_src_none n ((a, d) ∷ es) h = rw (lt→ltb a n h.0) (from_src_none n es h.1)

-- The row pointers and the columns hold the sorted edges `es`, for sources up to `n`.
pub record Holds (n : ℕ) (es : List Edge) (row_ptr col_idx : List ℕ) : Type 0 where
  pub sorted : IsSorted es
  pub in_range : SourcesBelow n es
  pub rows : (i : ℕ) → i ≤ n → get_or row_ptr i 0 ≡ below i es
  pub cols : col_idx ≡ targets es

-- Collecting reads the edges back from the arrays.
collect_from_lem :
    (n rounds s : ℕ) (es : List Edge) (row_ptr col_idx : List ℕ)
    → Holds n es row_ptr col_idx
    → s + rounds ≡ n
    → collect_from rounds s row_ptr col_idx ≡ ok (from_src s es)
unfolding collect_from
collect_from_lem n zero s es rp col h e =
    let e' : s ≡ n = omega arith in rw e' (ap ok (sym (from_src_none n es h.in_range)))
collect_from_lem n (suc rounds) s es rp col h e =
    let plus : s + 1 ≡ suc s = omega arith in
    let first = h.rows s (omega arith) in
    let next : get_or rp (s + 1) 0 ≡ below (suc s) es = rw plus (h.rows (suc s) (omega arith)) in
    let long : length (targets es) ≡ length es = length-map (λ (f : Edge). f.1) es in
    let cut =
      le→ltb (length (targets es)) (below (suc s) es)
        (omega (arith, long, below-le-length (suc s) es)) in
    let ordered = le→ltb (below (suc s) es) (below s es) (omega (arith, below-suc s es)) in
    let rest : collect_from rounds (s + 1) rp (targets es) ≡ ok (from_src (suc s) es) = rw plus (
      subst (λ c. collect_from rounds (suc s) rp c ≡ ok (from_src (suc s) es)) h.cols
        (collect_from_lem n rounds (suc s) es rp col h (omega arith))) in
    rw (h.cols, next, first, cut, ordered, rest, slice-row s es h.sorted)
      (ap ok (tag_row-append-from_src s es h.sorted))

pub collect_from_all :
    (n : ℕ) (es : List Edge) (row_ptr col_idx : List ℕ)
    → Holds n es row_ptr col_idx
    → collect_from n 0 row_ptr col_idx ≡ ok es
collect_from_all n es rp col h =
    collect_from_lem n n 0 es rp col h (omega arith) ∙ ap ok (from_src_zero es)
