-- ===== src/Engine/Blob.antt =====
-- `GraphEngine::from_blob` and the accessors. A byte is a number below 256; `usize` has 64 bits, so
-- the sizes computed from two u32 do not overflow.
use nexus_core_devops_engine.Base.{
  ℕ, ◌+◌, ◌-◌, ◌*◌, ◌%◌, ◌^◌, ◌≤◌, ◌<◌, ◌≡◌, refl, ap, ◌∙◌, subst, sym, List, ◌++◌, length, take,
  drop, ltb, if◌then◌else◌, All, arith, from_le, to_le, words, to_words, length-to_le,
  length-to_words, take-to_le, drop-to_le, from_le-to_le, words-to_words, length-append,
  drop-append, drop_add, le→ltb, u32_mod,
}

pub record GraphEngine : Type 0 where
  pub row_ptr : List ℕ
  pub col_idx : List ℕ
  pub doc_offsets : List ℕ
  pub arena : List ℕ

pub data BlobResult : Type 0 where
  ok : GraphEngine → BlobResult
  too_short truncated : BlobResult

unfoldable pub from_blob : List ℕ → BlobResult
from_blob blob =
    let n_nodes = from_le (take 4 blob) in
    let nnz = from_le (take 4 (drop 4 blob)) in
    let row_ptr_bytes = (n_nodes + 1) * 4 in
    let col_idx_bytes = nnz * 4 in
    let doc_off_bytes = nnz * 8 in
    if ltb (length blob) 8
    then too_short
    else if ltb (length blob) (8 + row_ptr_bytes + col_idx_bytes + doc_off_bytes)
    then truncated
    else ok (record {
      row_ptr = words 4 (n_nodes + 1) (drop 8 blob);
      col_idx = words 4 nnz (drop (8 + row_ptr_bytes) blob);
      doc_offsets = words 8 nnz (drop (8 + row_ptr_bytes + col_idx_bytes) blob);
      arena = drop (8 + row_ptr_bytes + col_idx_bytes + doc_off_bytes) blob;
    })

-- `self.row_ptr.len().saturating_sub(1) as u32`
unfoldable pub n_nodes : GraphEngine → ℕ
n_nodes g = (length g.row_ptr - 1) % u32_mod

unfoldable pub nnz : GraphEngine → ℕ
nnz g = length g.col_idx % u32_mod

unfoldable pub arena_len : GraphEngine → ℕ
arena_len g = length g.arena

-- The packed blob of the documented format.
pub to_blob : GraphEngine → List ℕ
to_blob g =
    to_le 4 (length g.row_ptr - 1)
    ++ (to_le 4 (length g.col_idx)
        ++ (to_words 4 g.row_ptr
            ++ (to_words 4 g.col_idx ++ (to_words 8 g.doc_offsets ++ g.arena))))

-- The arrays fit the format: a row pointer for each node and one more, and as many document
-- offsets as columns.
pub record IsPackable (g : GraphEngine) : Type 0 where
  pub rows_some : 0 < length g.row_ptr
  pub rows_count : length g.row_ptr ≤ u32_mod
  pub cols_count : length g.col_idx < u32_mod
  pub docs_count : length g.doc_offsets ≡ length g.col_idx
  pub rows_fit : All (λ x. x < 256 ^ 4) g.row_ptr
  pub cols_fit : All (λ x. x < 256 ^ 4) g.col_idx
  pub docs_fit : All (λ x. x < 256 ^ 8) g.doc_offsets

drop-to_words : (k n : ℕ) (xs bs : List ℕ) → length xs * k ≡ n → drop n (to_words k xs ++ bs) ≡ bs
drop-to_words k n xs bs e =
    subst (λ m. drop m (to_words k xs ++ bs) ≡ bs) (length-to_words k xs ∙ e)
      (drop-append (to_words k xs) bs)

length-to_blob :
    (g : GraphEngine)
    → IsPackable g
    → length (to_blob g)
      ≡ 8
        + (length g.row_ptr - 1 + 1) * 4
        + length g.col_idx * 4
        + length g.col_idx * 8
        + length g.arena
unfolding to_blob
length-to_blob g p =
    let docs = to_words 8 g.doc_offsets ++ g.arena in
    let cols = to_words 4 g.col_idx ++ docs in
    let rows = to_words 4 g.row_ptr ++ cols in
    let rest = to_le 4 (length g.col_idx) ++ rows in
    omega (
      arith,
      p.rows_some,
      p.docs_count,
      length-append (to_le 4 (length g.row_ptr - 1)) rest,
      length-append (to_le 4 (length g.col_idx)) rows,
      length-append (to_words 4 g.row_ptr) cols,
      length-append (to_words 4 g.col_idx) docs,
      length-append (to_words 8 g.doc_offsets) g.arena,
      length-to_le 4 (length g.row_ptr - 1),
      length-to_le 4 (length g.col_idx),
      length-to_words 4 g.row_ptr,
      length-to_words 4 g.col_idx,
      length-to_words 8 g.doc_offsets,
    )

-- Parsing the packed blob of a graph gives the graph back.
pub from_blob-to_blob : (g : GraphEngine) → IsPackable g → from_blob (to_blob g) ≡ ok g
unfolding from_blob to_blob
from_blob-to_blob g p =
    let b = to_blob g in
    let docs = to_words 8 g.doc_offsets ++ g.arena in
    let cols = to_words 4 g.col_idx ++ docs in
    let rows = to_words 4 g.row_ptr ++ cols in
    let n = length g.row_ptr - 1 in
    let m = length g.col_idx in
    let rest = to_le 4 m ++ rows in
    let size_r : length g.row_ptr * 4 ≡ (n + 1) * 4 = omega (arith, p.rows_some) in
    let size_d : length g.doc_offsets * 8 ≡ m * 8 = omega (arith, p.docs_count) in
    let d4 : drop 4 b ≡ rest = drop-to_le 4 n rest in
    let d8 : drop 8 b ≡ rows = drop_add 4 4 b ∙ (ap (drop 4) d4 ∙ drop-to_le 4 m rows) in
    let d_cols : drop (8 + (n + 1) * 4) b ≡ cols =
      drop_add 8 ((n + 1) * 4) b
      ∙ (ap (drop ((n + 1) * 4)) d8 ∙ drop-to_words 4 _ g.row_ptr cols size_r) in
    let d_docs : drop (8 + (n + 1) * 4 + m * 4) b ≡ docs =
      drop_add (8 + (n + 1) * 4) (m * 4) b
      ∙ (ap (drop (m * 4)) d_cols ∙ drop-to_words 4 _ g.col_idx docs refl) in
    let d_arena : drop (8 + (n + 1) * 4 + m * 4 + m * 8) b ≡ g.arena =
      drop_add (8 + (n + 1) * 4 + m * 4) (m * 8) b
      ∙ (ap (drop (m * 8)) d_docs ∙ drop-to_words 8 _ g.doc_offsets g.arena size_d) in
    let nodes : from_le (take 4 b) ≡ n =
      ap from_le (take-to_le 4 n rest)
      ∙ from_le-to_le 4 n (omega (arith, p.rows_some, p.rows_count)) in
    let edges : from_le (take 4 (drop 4 b)) ≡ m =
      ap (λ x. from_le (take 4 x)) d4
      ∙ (ap from_le (take-to_le 4 m rows) ∙ from_le-to_le 4 m p.cols_count) in
    let long : length b ≡ 8 + (n + 1) * 4 + m * 4 + m * 8 + length g.arena = length-to_blob g p in
    let rows_some : n + 1 ≡ length g.row_ptr = omega (arith, p.rows_some) in
    let e_rows : words 4 (n + 1) (drop 8 b) ≡ g.row_ptr =
      ap (words 4 (n + 1)) d8
      ∙ subst (λ k. words 4 k rows ≡ g.row_ptr) (sym rows_some)
          (words-to_words 4 g.row_ptr cols p.rows_fit) in
    let e_cols : words 4 m (drop (8 + (n + 1) * 4) b) ≡ g.col_idx =
      ap (words 4 m) d_cols ∙ words-to_words 4 g.col_idx docs p.cols_fit in
    let e_docs : words 8 m (drop (8 + (n + 1) * 4 + m * 4) b) ≡ g.doc_offsets =
      ap (words 8 m) d_docs
      ∙ subst (λ k. words 8 k docs ≡ g.doc_offsets) p.docs_count
          (words-to_words 8 g.doc_offsets g.arena p.docs_fit) in
    rw
      (
        nodes,
        edges,
        le→ltb (length b) 8 (omega arith),
        le→ltb (length b) (8 + (n + 1) * 4 + m * 4 + m * 8) (omega arith),
      )
      λ i. ok (record {
        row_ptr = e_rows i;
        col_idx = e_cols i;
        doc_offsets = e_docs i;
        arena = d_arena i;
      })
