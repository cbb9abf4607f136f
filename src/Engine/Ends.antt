-- ===== src/Engine/Ends.antt =====
-- `bfs_posts` ends: the fuel is enough on every graph, and on a well-formed graph it does not panic.
use nexus_core_devops_engine.Base.{
  ℕ, zero, suc, ◌+◌, ◌-◌, ◌%◌, ◌≤◌, ◌<◌, ◌≡◌, ◌≢◌, ◌⊎◌, ==_iff, refl, ap, ◌||◌, List, ◌∷◌, length,
  get_or, leb, ◌==◌, arith, Bool-cases, inl, inr, List-cases, u32_mod, lt→leb, leb→lt,
}
use nexus_core_devops_engine.Engine.Blob.{GraphEngine}
use nexus_core_devops_engine.Engine.Bfs.{
  Search, Outcome, done, panic, out_of_fuel, contains, Round, next, return, fail, push_doc,
  scan_row, row_len, row_start, visit, total_len, bfs_loop, enough_fuel, limit_of, bfs_posts,
}
use nexus_core_devops_engine.Engine.Work.{nodes, work, unseen_len-nil, visit-work}

pub Round-cases :
    (r : Round)
    → ((t : Search) × (r ≡ next t)) ⊎ ((rs : List (List ℕ)) × (r ≡ return rs)) ⊎ (r ≡ fail)
Round-cases (next t) = inl (t, refl)
Round-cases (return rs) = inr (inl (rs, refl))
Round-cases fail = inr (inr refl)

module _ (g : GraphEngine) (max_depth limit : ℕ) where
  -- With fuel for the work that is left, the loop ends.
  loop_ends :
      (fuel : ℕ) (s : Search) → work g s ≤ fuel → bfs_loop g max_depth limit fuel s ≢ out_of_fuel
  unfolding bfs_loop
  loop_ends zero s h = elim (List-cases s.queue) [
    | inl empty ↦ rw (empty, bfs_loop) (λ e. cc)
    | inr (x, rest, e) ↦ absurd (omega (arith, ap length e))
  ]
  loop_ends (suc fuel) s h = elim (List-cases s.queue) [
    | inl empty ↦ rw (empty, bfs_loop) (λ e. cc)
    | inr ((node, depth), rest, e) ↦
        let popped = record s { queue = rest } in
        elim (Round-cases (visit g max_depth limit node depth popped)) [
          | inl (t, v) ↦
              let less = visit-work g max_depth limit node depth popped t v in
              rw (e, bfs_loop, v) (loop_ends fuel t (omega (arith, less, ap length e)))
          | inr (inl (rs, v)) ↦ rw (e, bfs_loop, v) (λ x. cc)
          | inr (inr v) ↦ rw (e, bfs_loop, v) (λ x. cc)
        ]
  ]

-- On every graph, also a malformed one, the search ends within one round for the root and one for
-- each column: a node is expanded at most once, and the guard on the visited set ends cycles.
pub bfs_posts_ends :
    (g : GraphEngine) (root max_depth max_results : ℕ)
    → bfs_posts g root max_depth max_results ≢ out_of_fuel
unfolding bfs_posts enough_fuel
bfs_posts_ends g root max_depth max_results =
    loop_ends g max_depth (limit_of max_results) (1 + total_len g (length g.row_ptr - 1)) _
      (omega (arith, unseen_len-nil g (nodes g)))

-- The row pointers stay within the columns, and each column has a document offset.
pub record IsWellFormed (g : GraphEngine) : Type 0 where
  pub rows : (v : ℕ) → v + 1 < length g.row_ptr → get_or g.row_ptr (v + 1) 0 ≤ length g.col_idx
  pub docs : length g.doc_offsets ≡ length g.col_idx

scan_row_safe :
    (g : GraphEngine) (limit depth rounds i : ℕ) (s : Search)
    → IsWellFormed g
    → i + rounds ≤ length g.col_idx
    → scan_row g limit depth rounds i s ≢ fail
unfolding scan_row
scan_row_safe g limit depth zero i s w h = λ e. cc
scan_row_safe g limit depth (suc rounds) i s w h =
    let results = push_doc g (get_or g.doc_offsets i 0) s.results in
    elim (Bool-cases (leb limit (length results % u32_mod))) [
      | inl full ↦
          rw
            (
              lt→leb (length g.col_idx) i (omega arith),
              lt→leb (length g.doc_offsets) i (omega (arith, w.docs)),
              full,
            )
            (λ e. cc)
      | inr more ↦
          rw
            (
              lt→leb (length g.col_idx) i (omega arith),
              lt→leb (length g.doc_offsets) i (omega (arith, w.docs)),
              more,
            )
            (scan_row_safe g limit depth rounds (i + 1) _ w (omega arith))
    ]

scan_none : (g : GraphEngine) (limit depth i : ℕ) (s : Search) → scan_row g limit depth 0 i s ≢ fail
unfolding scan_row
scan_none g limit depth i s = λ e. cc

row_safe :
    (g : GraphEngine) (limit node depth : ℕ) (s : Search)
    → IsWellFormed g
    → node + 1 < length g.row_ptr
    → scan_row g limit depth (row_len g node) (row_start g node) s ≢ fail
row_safe g limit node depth s w inside = elim (Bool-cases (row_len g node == 0)) [
  | inl empty ↦ rw ((==_iff _ 0).0 empty) (scan_none g limit depth (row_start g node) s)
  | inr some ↦
      let more : row_len g node ≢ 0 = λ e. ground arith in
      scan_row_safe g limit depth (row_len g node) (row_start g node) s w
        (omega (arith, w.rows node inside))
]

visit_safe :
    (g : GraphEngine) (max_depth limit node depth : ℕ) (s : Search)
    → IsWellFormed g
    → visit g max_depth limit node depth s ≢ fail
unfolding visit
visit_safe g max_depth limit node depth s w =
    elim (Bool-cases (leb max_depth depth || contains s.visited node)) [
      | inl skip ↦ rw skip (λ e. cc)
      | inr fresh ↦ elim (Bool-cases (leb (length g.row_ptr) (node + 1))) [
        | inl outside ↦ rw (fresh, outside) (λ e. cc)
        | inr inside ↦
            rw (fresh, inside)
              (row_safe g limit node depth (record s { visited = node ∷ s.visited }) w
                (leb→lt _ _ inside))
      ]
    ]

module _ (g : GraphEngine) (max_depth limit : ℕ) (w : IsWellFormed g) where
  loop_safe : (fuel : ℕ) (s : Search) → bfs_loop g max_depth limit fuel s ≢ panic
  unfolding bfs_loop
  loop_safe zero s = elim (List-cases s.queue) [
    | inl empty ↦ rw (empty, bfs_loop) (λ e. cc)
    | inr (x, rest, e) ↦ rw (e, bfs_loop) (λ e. cc)
  ]
  loop_safe (suc fuel) s = elim (List-cases s.queue) [
    | inl empty ↦ rw (empty, bfs_loop) (λ e. cc)
    | inr ((node, depth), rest, e) ↦
        let popped = record s { queue = rest } in
        elim (Round-cases (visit g max_depth limit node depth popped)) [
          | inl (t, v) ↦ rw (e, bfs_loop, v) (loop_safe fuel t)
          | inr (inl (rs, v)) ↦ rw (e, bfs_loop, v) (λ x. cc)
          | inr (inr v) ↦ absurd (visit_safe g max_depth limit node depth popped w v)
        ]
  ]

Outcome-cases : (o : Outcome) → o ≢ panic → o ≢ out_of_fuel → (rs : List (List ℕ)) × (o ≡ done rs)
Outcome-cases (done rs) h k = (rs, refl)
Outcome-cases panic h k = absurd (h refl)
Outcome-cases out_of_fuel h k = absurd (k refl)

-- On a well-formed graph every query returns its documents.
pub bfs_posts_returns :
    (g : GraphEngine) (root max_depth max_results : ℕ)
    → IsWellFormed g
    → (rs : List (List ℕ)) × (bfs_posts g root max_depth max_results ≡ done rs)
unfolding bfs_posts
bfs_posts_returns g root max_depth max_results w =
    Outcome-cases _ (loop_safe g max_depth (limit_of max_results) w (enough_fuel g) _)
      (bfs_posts_ends g root max_depth max_results)
