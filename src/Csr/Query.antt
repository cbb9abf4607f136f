-- ===== src/Csr/Query.antt =====
-- csr_graph.rs: `get_following`, `edge_exists`, `get_followers`; main.rs: the scan for hot nodes.
--
-- `binary_search` is the search of the standard library on slices: `size` cells from `base` on are
-- left, and each round halves them.
use nexus_core_devops_engine.Base.{
  ℕ, zero, suc, ◌+◌, ◌-◌, ◌/◌, Bool, true, false, not, ◌||◌, List, [], ◌∷◌, length, get_or, slice,
  ltb, leb, ◌==◌, if◌then◌else◌,
}
use nexus_core_devops_engine.Csr.Graph.{
  corrupted_header, invalid_node_id, Outcome, ok, err, panic, header_magic, CsrGraph, row_ptr_slice,
  col_idx_slice,
}

-- The slice panics if `start > end`, or if `end` is past the end of the columns.
unfoldable pub get_following : CsrGraph → ℕ → Outcome (List ℕ)
get_following g node_id =
    let row_ptr = row_ptr_slice g in
    let col_idx = col_idx_slice g in
    let start = get_or row_ptr node_id 0 in
    let end = get_or row_ptr (node_id + 1) 0 in
    if not (g.hdr.magic == header_magic)
    then err corrupted_header
    else if leb g.hdr.node_capacity node_id
    then err invalid_node_id
    else if start == end
    then ok []
    else if ltb end start || ltb (length col_idx) end
    then panic
    else ok (slice col_idx start end)

-- The rounds of the search, with fuel; at size 1 the cell at `base` is compared.
unfoldable pub search_loop : ℕ → List ℕ → ℕ → ℕ → ℕ → Bool
search_loop zero xs x base size = false
search_loop (suc fuel) xs x base size =
    let half = size / 2 in
    let mid = base + half in
    let rest =
      search_loop fuel xs x (if ltb x (get_or xs mid 0) then base else mid) (size - half) in
    if leb size 1 then get_or xs base 0 == x else rest

-- Whether the search ends in `Ok`; an empty slice is refused at once.
unfoldable pub binary_search : List ℕ → ℕ → Bool
unfolding search_loop
binary_search [] x = false
binary_search (y ∷ ys) x = search_loop (length (y ∷ ys)) (y ∷ ys) x 0 (length (y ∷ ys))

-- `match self.get_following(src)`: an error counts as no edge, a panic goes on.
unfoldable pub found_in : ℕ → Outcome (List ℕ) → Outcome Bool
unfolding binary_search
found_in dst (ok neighbors) = ok (binary_search neighbors dst)
found_in dst (err e) = ok false
found_in dst panic = panic

unfoldable pub edge_exists : CsrGraph → ℕ → ℕ → Outcome Bool
unfolding get_following found_in
edge_exists g src dst = found_in dst (get_following g src)

unfoldable pub push_if : ℕ → Outcome Bool → Outcome (List ℕ) → Outcome (List ℕ)
push_if src (ok true) (ok rest) = ok (src ∷ rest)
push_if src (ok false) (ok rest) = ok rest
push_if src (ok found) (err e) = err e
push_if src (ok found) panic = panic
push_if src (err e) rest = err e
push_if src panic rest = panic

-- `for src in 0..node_count`, with `rounds` sources left.
unfoldable pub followers_from : CsrGraph → ℕ → ℕ → ℕ → Outcome (List ℕ)
unfolding edge_exists push_if
followers_from g zero src node_id = ok []
followers_from g (suc rounds) src node_id =
    push_if src (edge_exists g src node_id) (followers_from g rounds (src + 1) node_id)

unfoldable pub get_followers : CsrGraph → ℕ → Outcome (List ℕ)
unfolding followers_from
get_followers g node_id =
    if leb g.hdr.node_capacity node_id
    then err invalid_node_id
    else followers_from g g.hdr.node_count 0 node_id
