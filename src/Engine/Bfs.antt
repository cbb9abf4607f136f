-- ===== src/Engine/Bfs.antt =====
-- `bfs_posts`: the queue of (node, depth) pairs, the set of visited nodes and the documents found.
-- The set is a list with the newest node first; only membership is asked of it.
--
-- The `while` loop takes fuel; `Ends` shows that `enough_fuel` is enough. An index out of range of
-- `col_idx` or `doc_offsets` panics. The guard `node + 1 >= row_ptr.len()` keeps the reads of `row_ptr`
-- in range.
use nexus_core_devops_engine.Base.{
  ℕ, zero, suc, ◌+◌, ◌-◌, ◌/◌, ◌%◌, ◌^◌, Bool, false, ◌||◌, List, [], ◌∷◌, ◌++◌, length, get_or,
  slice, leb, ◌==◌, if◌then◌else◌, u32_mod,
}
use nexus_core_devops_engine.Engine.Blob.{GraphEngine}

pub record Search : Type 0 where
  pub visited : List ℕ
  pub queue : List (ℕ × ℕ)
  pub results : List (List ℕ)

pub data Outcome : Type 0 where
  done : List (List ℕ) → Outcome
  panic out_of_fuel : Outcome

unfoldable pub contains : List ℕ → ℕ → Bool
contains [] v = false
contains (x ∷ xs) v = v == x || contains xs v

-- The packed offset and length of a document: 44 and 20 bits.
abbrev pub doc_offset : ℕ → ℕ
doc_offset packed = packed / 2 ^ 20

abbrev pub doc_len : ℕ → ℕ
doc_len packed = packed % 2 ^ 20

abbrev pub doc_bytes : GraphEngine → ℕ → List ℕ
doc_bytes g packed = slice g.arena (doc_offset packed) (doc_offset packed + doc_len packed)

-- A document that does not lie in the arena is left out.
unfoldable pub push_doc : GraphEngine → ℕ → List (List ℕ) → List (List ℕ)
push_doc g packed results =
    if leb (doc_offset packed + doc_len packed) (length g.arena)
    then results ++ doc_bytes g packed ∷ []
    else results

-- One round of a loop: go on, return the results, or panic.
pub data Round : Type 0 where
  next : Search → Round
  return : List (List ℕ) → Round
  fail : Round

-- `for i in start..end`, with `rounds` columns left.
unfoldable pub scan_row : GraphEngine → ℕ → ℕ → ℕ → ℕ → Search → Round
unfolding push_doc
scan_row g limit depth zero i s = next s
scan_row g limit depth (suc rounds) i s =
    let results = push_doc g (get_or g.doc_offsets i 0) s.results in
    let queue = s.queue ++ (get_or g.col_idx i 0, (depth + 1) % 256) ∷ [] in
    let rest =
      scan_row g limit depth rounds (i + 1) (record s { queue = queue; results = results }) in
    if leb (length g.col_idx) i
    then fail
    else if leb (length g.doc_offsets) i
    then fail
    else if leb limit (length results % u32_mod)
    then return results
    else rest

abbrev pub row_start : GraphEngine → ℕ → ℕ
row_start g v = get_or g.row_ptr v 0

-- The number of columns in the row of a node.
abbrev pub row_len : GraphEngine → ℕ → ℕ
row_len g v = get_or g.row_ptr (v + 1) 0 - row_start g v

-- One round of the `while` loop, after the pair left the head of the queue.
unfoldable pub visit : GraphEngine → ℕ → ℕ → ℕ → ℕ → Search → Round
unfolding contains
visit g max_depth limit node depth s =
    let seen = record s { visited = node ∷ s.visited } in
    if leb max_depth depth || contains s.visited node
    then next s
    else if leb (length g.row_ptr) (node + 1)
    then next seen
    else scan_row g limit depth (row_len g node) (row_start g node) seen

unfoldable pub bfs_loop : GraphEngine → ℕ → ℕ → ℕ → Search → Outcome
bfs_loop g max_depth limit zero s = elim s.queue [ [] ↦ done s.results | _ ∷ _ ↦ out_of_fuel ]
bfs_loop g max_depth limit (suc fuel) s = elim s.queue [
  | [] ↦ done s.results
  | (node, depth) ∷ rest ↦ elim (visit g max_depth limit node depth (record s { queue = rest })) [
    | next t ↦ bfs_loop g max_depth limit fuel t
    | return results ↦ done results
    | fail ↦ panic
  ]
]

-- The columns in the rows of the first `k` nodes.
unfoldable pub total_len : GraphEngine → ℕ → ℕ
total_len g zero = 0
total_len g (suc k) = row_len g k + total_len g k

-- One round for the root, and one for each column.
unfoldable pub enough_fuel : GraphEngine → ℕ
enough_fuel g = 1 + total_len g (length g.row_ptr - 1)

abbrev pub limit_of : ℕ → ℕ
limit_of max_results = if max_results == 0 then u32_mod - 1 else max_results

unfoldable pub bfs_posts : GraphEngine → ℕ → ℕ → ℕ → Outcome
bfs_posts g root max_depth max_results =
    bfs_loop g max_depth (limit_of max_results) (enough_fuel g)
      (record { visited = []; queue = (root, 0) ∷ []; results = [] })
