-- ===== src/Engine/Panics.antt =====
-- What `from_blob` lets through: a row that ends after the last column makes the search panic.
use nexus_core_devops_engine.Base.{
  ℕ, zero, suc, ◌+◌, ◌-◌, ◌%◌, ◌≤◌, ◌<◌, ◌≡◌, ◌*◌, ◌∙◌, refl, subst, sym, leb→lt, false, from_le,
  take, drop, List, [], ◌∷◌, length, get_or, leb, arith, Bool-cases, inl, inr, u32_mod, lt→leb,
  length-append, length-words, ltb,
}
use nexus_core_devops_engine.Engine.Blob.{
  GraphEngine, from_blob, ok, too_short, truncated, BlobResult,
}
use nexus_core_devops_engine.Engine.Bfs.{
  Search, panic, contains, fail, push_doc, scan_row, doc_offset, doc_len, doc_bytes, row_len,
  row_start, visit, bfs_loop, total_len, enough_fuel, limit_of, bfs_posts,
}

length-push_doc :
    (g : GraphEngine) (packed : ℕ) (rs : List (List ℕ))
    → length (push_doc g packed rs) ≤ length rs + 1
unfolding push_doc
length-push_doc g packed rs =
    elim (Bool-cases (leb (doc_offset packed + doc_len packed) (length g.arena))) [
      | inl fits ↦ rw fits (omega (arith, length-append rs (doc_bytes g packed ∷ [])))
      | inr out ↦ rw out (omega arith)
    ]

-- A row that goes on after the last column is not left before it, if the limit is not reached there.
scan_row_fails :
    (g : GraphEngine) (limit depth rounds i : ℕ) (s : Search)
    → length g.doc_offsets ≡ length g.col_idx
    → limit < u32_mod
    → 0 < rounds
    → length g.col_idx < i + rounds
    → length s.results + (length g.col_idx - i) < limit
    → scan_row g limit depth rounds i s ≡ fail
unfolding scan_row
scan_row_fails g limit depth zero i s docs small some past room = absurd (omega arith)
scan_row_fails g limit depth (suc rounds) i s docs small some past room =
    let results = push_doc g (get_or g.doc_offsets i 0) s.results in
    elim (Bool-cases (leb (length g.col_idx) i)) [
      | inl out ↦ rw out refl
      | inr col ↦
          let in_col : i < length g.col_idx = leb→lt _ _ col in
          let few : length results < limit =
            omega (arith, length-push_doc g (get_or g.doc_offsets i 0) s.results) in
          let doc : leb (length g.doc_offsets) i ≡ false = lt→leb _ i (omega (arith, docs)) in
          let more : leb limit (length results % u32_mod) ≡ false = lt→leb _ _ (omega arith) in
          rw (col, doc, more)
            (scan_row_fails g limit depth rounds (i + 1) _ docs small (omega arith) (omega arith)
              (omega (arith, length-push_doc g (get_or g.doc_offsets i 0) s.results)))
    ]

visit_fails :
    (g : GraphEngine) (root max_depth limit : ℕ)
    → 0 < max_depth
    → root + 1 < length g.row_ptr
    → scan_row g limit 0
        (row_len g root)
        (row_start g root)
        (record { visited = root ∷ []; queue = []; results = [] })
      ≡ fail
    → visit g max_depth limit root 0 (record { visited = []; queue = []; results = [] }) ≡ fail
unfolding visit contains
visit_fails g root max_depth limit deep inside row =
    rw (visit, lt→leb max_depth 0 deep, lt→leb (length g.row_ptr) (root + 1) inside) row

loop_fails :
    (g : GraphEngine) (root max_depth limit fuel : ℕ)
    → 0 < max_depth
    → root + 1 < length g.row_ptr
    → scan_row g limit 0
        (row_len g root)
        (row_start g root)
        (record { visited = root ∷ []; queue = []; results = [] })
      ≡ fail
    → bfs_loop g max_depth limit
        (suc fuel)
        (record { visited = []; queue = (root, 0) ∷ []; results = [] })
      ≡ panic
unfolding bfs_loop
loop_fails g root max_depth limit fuel deep inside row =
    rw (bfs_loop, visit_fails g root max_depth limit deep inside row) refl

-- A blob that is accepted has as many document offsets as columns.
abbrev SameColumns : BlobResult → Type 0
SameColumns (ok g) = length g.doc_offsets ≡ length g.col_idx
SameColumns too_short = Unit
SameColumns truncated = Unit

from_blob-SameColumns : (blob : List ℕ) → SameColumns (from_blob blob)
unfolding from_blob
from_blob-SameColumns blob =
    let n = from_le (take 4 blob) in
    let nnz = from_le (take 4 (drop 4 blob)) in
    let size = 8 + (n + 1) * 4 + nnz * 4 + nnz * 8 in
    elim (Bool-cases (ltb (length blob) 8)) [
      | inl short ↦ rw short tt
      | inr long ↦ elim (Bool-cases (ltb (length blob) size)) [
        | inl short ↦ rw (long, short) tt
        | inr all ↦
            rw (long, all)
              (length-words 8 nnz (drop (8 + (n + 1) * 4 + nnz * 4) blob)
                ∙ sym (length-words 4 nnz (drop (8 + (n + 1) * 4) blob)))
      ]
    ]

-- `from_blob` does not look at the row pointers: if the row of the root in a graph that it accepts goes
-- on after the last column, every search from there of depth 1 or more panics, provided its limit is
-- above the number of columns.
pub bfs_posts_panics :
    (blob : List ℕ) (g : GraphEngine) (root max_depth max_results : ℕ)
    → from_blob blob ≡ ok g
    → root + 1 < length g.row_ptr
    → 0 < row_len g root
    → length g.col_idx < row_start g root + row_len g root
    → 0 < max_depth
    → max_results < u32_mod
    → length g.col_idx < limit_of max_results
    → bfs_posts g root max_depth max_results ≡ panic
unfolding bfs_posts enough_fuel
bfs_posts_panics blob g root max_depth max_results parsed inside some past deep fits room =
    let limit = limit_of max_results in
    let docs : length g.doc_offsets ≡ length g.col_idx =
      subst SameColumns parsed (from_blob-SameColumns blob) in
    let small : limit < u32_mod = ground arith in
    let seen : Search = record { visited = root ∷ []; queue = []; results = [] } in
    let row : scan_row g limit 0 (row_len g root) (row_start g root) seen ≡ fail =
      scan_row_fails g limit 0 (row_len g root) (row_start g root) seen docs small some past
        (omega arith) in
    let fuel : suc (total_len g (length g.row_ptr - 1)) ≡ 1 + total_len g (length g.row_ptr - 1) =
      omega arith in
    let start : Search = record { visited = []; queue = (root, 0) ∷ []; results = [] } in
    subst (λ n. bfs_loop g max_depth limit n start ≡ panic) fuel
      (loop_fails g root max_depth limit _ deep inside row)
