-- ===== src/Engine/Walks.antt =====
-- What `bfs_posts` finds: documents on the edges of nodes within reach, and no more than the limit.
use nexus_core_devops_engine.Base.{
  ℕ, zero, suc, ◌+◌, ◌%◌, ◌≤◌, ◌<◌, ◌≡◌, refl, ◌||◌, List, [], ◌∷◌, length, get_or, leb, arith,
  Bool-cases, inl, inr, List-cases, u32_mod, leb→lt, leb→le, length-append, All, All-append, subst,
  sym,
}
use nexus_core_devops_engine.Engine.Blob.{GraphEngine}
use nexus_core_devops_engine.Engine.Bfs.{
  Search, Outcome, done, panic, out_of_fuel, contains, Round, next, return, fail, push_doc,
  scan_row, doc_offset, doc_len, doc_bytes, row_len, row_start, visit, bfs_loop, enough_fuel,
  limit_of, bfs_posts,
}
use nexus_core_devops_engine.Engine.Ends.{Round-cases, IsWellFormed, bfs_posts_returns}

-- Column `i` is in the row of node `v`.
pub record InRow (g : GraphEngine) (v i : ℕ) : Type 0 where
  pub node : v + 1 < length g.row_ptr
  pub from : row_start g v ≤ i
  pub to : i < row_start g v + row_len g v

-- The walks from the root, with their number of edges.
pub data Walk (g : GraphEngine) (root : ℕ) : ℕ → ℕ → Type 0 where
  here : Walk g root root zero
  step :
      {v d : ℕ} (i : ℕ) → Walk g root v d → InRow g v i → Walk g root (get_or g.col_idx i 0) (suc d)

module _ (g : GraphEngine) (root max_depth limit : ℕ) where
  -- A document on an edge of a node that is fewer than `max_depth` edges away from the root.
  pub record Found (doc : List ℕ) : Type 0 where
    pub node : ℕ
    pub depth : ℕ
    pub column : ℕ
    pub walk : Walk g root node depth
    pub near : depth < max_depth
    pub in_row : InRow g node column
    pub in_arena :
        doc_offset (get_or g.doc_offsets column 0) + doc_len (get_or g.doc_offsets column 0)
        ≤ length g.arena
    pub bytes : doc ≡ doc_bytes g (get_or g.doc_offsets column 0)

  record Inv (s : Search) : Type 0 where
    pairs : All (λ p. Walk g root p.0 p.1) s.queue
    docs : All Found s.results
    room : length s.results < limit

  record Post (rs : List (List ℕ)) : Type 0 where
    docs : All Found rs
    few : length rs ≤ limit

  abbrev Good : Round → Type 0
  Good (next t) = Inv t
  Good (return rs) = Post rs
  Good fail = Unit

  push_doc-Found :
      (node depth i : ℕ) (rs : List (List ℕ))
      → Walk g root node depth
      → depth < max_depth
      → InRow g node i
      → All Found rs
      → length rs < limit
      → Post (push_doc g (get_or g.doc_offsets i 0) rs)
  unfolding push_doc
  push_doc-Found node depth i rs walk near inside docs room =
      let packed = get_or g.doc_offsets i 0 in
      elim (Bool-cases (leb (doc_offset packed + doc_len packed) (length g.arena))) [
        | inl fits ↦
            let found : Found (doc_bytes g packed) = record {
              node = node;
              depth = depth;
              column = i;
              walk = walk;
              near = near;
              in_row = inside;
              in_arena = leb→le _ _ fits;
              bytes = refl;
            } in
            rw fits (record {
              docs = All-append Found rs (doc_bytes g packed ∷ []) docs (found, tt);
              few = omega (arith, length-append rs (doc_bytes g packed ∷ []));
            })
        | inr out ↦ rw out (record { docs = docs; few = omega arith })
      ]

  scan_row-Good :
      (node depth rounds i : ℕ) (s : Search)
      → limit < u32_mod
      → max_depth ≤ 255
      → Walk g root node depth
      → depth < max_depth
      → node + 1 < length g.row_ptr
      → row_start g node ≤ i
      → i + rounds ≤ row_start g node + row_len g node
      → Inv s
      → Good (scan_row g limit depth rounds i s)
  unfolding scan_row
  scan_row-Good node depth zero i s lim md walk near nd from to inv = inv
  scan_row-Good node depth (suc rounds) i s lim md walk near nd from to inv =
      let results = push_doc g (get_or g.doc_offsets i 0) s.results in
      let neighbor = get_or g.col_idx i 0 in
      let inside : InRow g node i = record { node = nd; from = from; to = omega arith } in
      let post = push_doc-Found node depth i s.results walk near inside inv.docs inv.room in
      let same : (depth + 1) % 256 ≡ suc depth = omega arith in
      elim (Bool-cases (leb (length g.col_idx) i)) [
        | inl out ↦ rw out tt
        | inr col ↦ elim (Bool-cases (leb (length g.doc_offsets) i)) [
          | inl out ↦ rw (col, out) tt
          | inr doc ↦ elim (Bool-cases (leb limit (length results % u32_mod))) [
            | inl full ↦ rw (col, doc, full) post
            | inr more ↦
                rw (col, doc, more)
                  (scan_row-Good node depth rounds (i + 1) _ lim md walk near nd (omega arith)
                    (omega arith)
                    (record {
                      pairs =
                          All-append _ s.queue ((neighbor, (depth + 1) % 256) ∷ []) inv.pairs
                            (subst (Walk g root neighbor) (sym same) (step i walk inside), tt);
                      docs = post.docs;
                      room = omega (arith, leb→lt _ _ more, post.few);
                    }))
          ]
        ]
      ]

  visit-Good :
      (node depth : ℕ) (s : Search)
      → limit < u32_mod
      → max_depth ≤ 255
      → Walk g root node depth
      → Inv s
      → Good (visit g max_depth limit node depth s)
  unfolding visit
  visit-Good node depth s lim md walk inv =
      let seen = record s { visited = node ∷ s.visited } in
      let kept : Inv seen = record { pairs = inv.pairs; docs = inv.docs; room = inv.room } in
      elim (Bool-cases (leb max_depth depth || contains s.visited node)) [
        | inl skip ↦ rw skip inv
        | inr fresh ↦ elim (Bool-cases (leb (length g.row_ptr) (node + 1))) [
          | inl outside ↦ rw (fresh, outside) kept
          | inr inside ↦
              let near : depth < max_depth = ground arith in
              rw (fresh, inside)
                (scan_row-Good node depth (row_len g node) (row_start g node) seen lim md walk near
                  (leb→lt _ _ inside) (omega arith) (omega arith) kept)
        ]
      ]

  abbrev Ends : Outcome → Type 0
  Ends (done rs) = Post rs
  Ends panic = Unit
  Ends out_of_fuel = Unit

  Inv-Post : (s : Search) → Inv s → Post s.results
  Inv-Post s inv = record { docs = inv.docs; few = omega (arith, inv.room) }

  Good-of : (r r' : Round) → r ≡ r' → Good r → Good r'
  Good-of r r' e h = subst Good e h

  loop_good :
      (fuel : ℕ) (s : Search)
      → limit < u32_mod
      → max_depth ≤ 255
      → Inv s
      → Ends (bfs_loop g max_depth limit fuel s)
  unfolding bfs_loop
  loop_good zero s lim md inv = elim (List-cases s.queue) [
    | inl empty ↦ rw (empty, bfs_loop) (Inv-Post s inv)
    | inr (x, rest, e) ↦ rw (e, bfs_loop) tt
  ]
  loop_good (suc fuel) s lim md inv = elim (List-cases s.queue) [
    | inl empty ↦ rw (empty, bfs_loop) (Inv-Post s inv)
    | inr ((node, depth), rest, e) ↦
        let popped = record s { queue = rest } in
        let pairs = subst (All (λ p. Walk g root p.0 p.1)) e inv.pairs in
        let good =
          visit-Good node depth popped lim md pairs.0
            (record { pairs = pairs.1; docs = inv.docs; room = inv.room }) in
        elim (Round-cases (visit g max_depth limit node depth popped)) [
          | inl (t, v) ↦ rw (e, bfs_loop, v) (loop_good fuel t lim md (Good-of _ _ v good))
          | inr (inl (rs, v)) ↦ rw (e, bfs_loop, v) (Good-of _ _ v good)
          | inr (inr v) ↦ rw (e, bfs_loop, v) tt
        ]
  ]

limit_of_bounds : (n : ℕ) → n < u32_mod → (0 < limit_of n) × (limit_of n < u32_mod)
limit_of_bounds n h = ground arith

-- What the search promises: it returns, each document that it returns lies on an edge of a node
-- fewer than `max_depth` edges away from the root, and there are no more of them than the limit.
pub record Answer (g : GraphEngine) (root max_depth max_results : ℕ) (rs : List (List ℕ))
    : Type 0 where
  pub returns : bfs_posts g root max_depth max_results ≡ done rs
  pub found : All (Found g root max_depth (limit_of max_results)) rs
  pub few : length rs ≤ limit_of max_results

-- On a well-formed graph a query of a u8 depth and a u32 limit returns documents, each of which
-- lies in the arena and on an edge of a node fewer than `max_depth` edges away from the root, and no
-- more of them than the limit (where 0 stands for the greatest u32).
pub bfs_posts_sound :
    (g : GraphEngine) (root max_depth max_results : ℕ)
    → IsWellFormed g
    → max_depth ≤ 255
    → max_results < u32_mod
    → (rs : List (List ℕ)) × Answer g root max_depth max_results rs
unfolding bfs_posts
bfs_posts_sound g root max_depth max_results w md lim =
    let limit = limit_of max_results in
    let (pos, small) = limit_of_bounds max_results lim in
    let (rs, e) = bfs_posts_returns g root max_depth max_results w in
    let start : Search = record { visited = []; queue = (root, 0) ∷ []; results = [] } in
    let post : Post g root max_depth limit rs = subst (Ends g root max_depth limit) e (
      loop_good g root max_depth limit (enough_fuel g) start small md
        (record { pairs = (here, tt); docs = tt; room = pos })) in
    (rs, record { returns = e; found = post.docs; few = post.few })
