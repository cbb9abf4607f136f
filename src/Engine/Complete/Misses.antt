-- ===== src/Engine/Complete/Misses.antt =====
-- The `while` loop keeps `Cover`, so it ends with every document within reach or with enough of them.
use nexus_core_devops_engine.Base.{
  ℕ, zero, suc, ◌+◌, ◌≤◌, ◌<◌, ◌≡◌, ◌⊎◌, refl, subst, inl, inr, true, false, List, [], ◌∷◌, length,
  leb, Memᴰ, Bool-cases, List-cases, leb→le, leb→lt, arith,
}
use nexus_core_devops_engine.Engine.Blob.{GraphEngine}
use nexus_core_devops_engine.Engine.Bfs.{
  Search, Round, Outcome, next, return, fail, done, panic, out_of_fuel, contains, visit, row_len,
  row_start, bfs_loop, bfs_posts, limit_of, enough_fuel,
}
use nexus_core_devops_engine.Engine.Ends.{Round-cases}
use nexus_core_devops_engine.Engine.Walks.{InRow, Walk, here, step}
use nexus_core_devops_engine.Engine.Complete.Scan.{
  InArena, doc_at, Scan, whole, full, broken, Scanned-none, scan_row-Scan,
}
use nexus_core_devops_engine.Engine.Complete.Cover.{Reached, Cover, noted, Cover-skip, Cover-expand}

start_covers :
    (g : GraphEngine) (root max_depth : ℕ)
    → Cover g root max_depth
        (λ v. 0)
        0
        (record { visited = []; queue = (root, 0) ∷ []; results = [] })
unfolding contains
start_covers g root max_depth = record {
  rising = (omega arith, omega arith, tt);
  seen = λ v h. cc;
  start = inr (inl (Memᴰ.head refl));
  edges = λ v i h inside. cc;
  docs = λ v i h inside fits. cc;
}

-- Every document on an edge of a node within reach is there.
abbrev MissesNone : GraphEngine → ℕ → ℕ → List (List ℕ) → Type 0
MissesNone g root max_depth rs =
    (v k i : ℕ) → Walk g root v k → k < max_depth → InRow g v i → InArena g i → Memᴰ (doc_at g i) rs

module _ (g : GraphEngine) (root max_depth limit : ℕ) where
  abbrev Covers : ℕ → Round → Type 0
  Covers depth (next t) = (depths : (ℕ → ℕ)) × Cover g root max_depth depths depth t
  Covers depth (return rs) = limit ≤ length rs
  Covers depth fail = Unit

  abbrev EndsFull : Outcome → Type 0
  EndsFull (done rs) = (limit ≤ length rs) ⊎ MissesNone g root max_depth rs
  EndsFull panic = Unit
  EndsFull out_of_fuel = Unit

  module _ (depths : ℕ → ℕ) (least : ℕ) (s : Search) (node depth : ℕ) (rest : List (ℕ × ℕ))
      (e : s.queue ≡ (node, depth) ∷ rest) (c : Cover g root max_depth depths least s)
      (md : max_depth ≤ 255) where
    expanded :
        (rounds i : ℕ) (r : Round)
        → contains s.visited node ≡ false
        → ((j : ℕ) → InRow g node j → (i ≤ j) × (j < i + rounds))
        → Scan g limit depth rounds i (record s { visited = node ∷ s.visited; queue = rest }) r
        → Covers depth r
    expanded rounds i r fresh row (whole {t} sc) = (
      noted depths node depth,
      Cover-expand g root max_depth depths least s node depth rest e c rounds i t fresh row sc,
    )
    expanded rounds i r fresh row (full enough) = enough
    expanded rounds i r fresh row broken = tt

    visit-Covers : Covers depth (visit g max_depth limit node depth (record s { queue = rest }))
    unfolding visit
    visit-Covers =
        let seen : Search = record s { visited = node ∷ s.visited; queue = rest } in
        let skip = Cover-skip g root max_depth depths least s node depth rest e c in
        elim (Bool-cases (leb max_depth depth)) [
          | inl far ↦ rw far (depths, skip (inl (leb→le _ _ far)))
          | inr near ↦ elim (Bool-cases (contains s.visited node)) [
            | inl before ↦ rw (near, before) (depths, skip (inr before))
            | inr fresh ↦ elim (Bool-cases (leb (length g.row_ptr) (node + 1))) [
              | inl outside ↦
                  let none : (j : ℕ) → InRow g node j → (0 ≤ j) × (j < 0 + 0) =
                    λ j inside. absurd (omega (arith, leb→le _ _ outside, inside.node)) in
                  rw (near, fresh, outside)
                    (expanded 0 0 (next seen) fresh none (whole (Scanned-none g depth 0 seen)))
              | inr inside ↦
                  let start = row_start g node in
                  let small : depth < 255 = omega (arith, leb→lt _ _ near) in
                  rw (near, fresh, inside)
                    (expanded (row_len g node) start _ fresh (λ j h. (h.from, h.to))
                      (scan_row-Scan g limit depth (row_len g node) start seen small))
            ]
          ]
        ]

  settled :
      (depths : ℕ → ℕ) (s : Search) (u k : ℕ)
      → s.queue ≡ []
      → k < max_depth
      → Reached g root max_depth depths s u k
      → (contains s.visited u ≡ true) × (depths u ≤ k)
  settled depths s u k empty near (inl expanded) = expanded
  settled depths s u k empty near (inr (inl waits)) = elim (subst (Memᴰ (u, k)) empty waits) [ ]
  settled depths s u k empty near (inr (inr far)) = absurd (omega arith)

  -- With no pair left, each node within reach is expanded.
  expanded_all :
      (depths : ℕ → ℕ) (least : ℕ) (s : Search) (v k : ℕ)
      → Cover g root max_depth depths least s
      → s.queue ≡ []
      → Walk g root v k
      → k < max_depth
      → (contains s.visited v ≡ true) × (depths v ≤ k)
  expanded_all depths least s v k c empty here near = settled depths s v 0 empty near c.start
  expanded_all depths least s v k c empty (step {v = u} {d} i walk inside) near =
      let before = expanded_all depths least s u d c empty walk (omega arith) in
      let at = c.edges u i before.0 inside in
      let there = settled depths s v (suc (depths u)) empty (omega (arith, before.1)) at in
      (there.0, omega (arith, there.1, before.1))

  Cover-MissesNone :
      (depths : ℕ → ℕ) (least : ℕ) (s : Search)
      → Cover g root max_depth depths least s
      → s.queue ≡ []
      → MissesNone g root max_depth s.results
  Cover-MissesNone depths least s c empty v k i walk near inside fits =
      c.docs v i (expanded_all depths least s v k c empty walk near).0 inside fits

  loop_complete :
      (fuel : ℕ) (depths : ℕ → ℕ) (least : ℕ) (s : Search)
      → max_depth ≤ 255
      → Cover g root max_depth depths least s
      → EndsFull (bfs_loop g max_depth limit fuel s)
  unfolding bfs_loop
  loop_complete zero depths least s md c = elim (List-cases s.queue) [
    | inl empty ↦ rw (empty, bfs_loop) (inr (Cover-MissesNone depths least s c empty))
    | inr (x, rest, e) ↦ rw (e, bfs_loop) tt
  ]
  loop_complete (suc fuel) depths least s md c = elim (List-cases s.queue) [
    | inl empty ↦ rw (empty, bfs_loop) (inr (Cover-MissesNone depths least s c empty))
    | inr ((node, depth), rest, e) ↦
        let popped : Search = record s { queue = rest } in
        let covers = visit-Covers depths least s node depth rest e c md in
        elim (Round-cases (visit g max_depth limit node depth popped)) [
          | inl (t, v) ↦
              let (depths', kept) = subst (Covers depth) v covers in
              rw (e, bfs_loop, v) (loop_complete fuel depths' depth t md kept)
          | inr (inl (rs, v)) ↦ rw (e, bfs_loop, v) (inl (subst (Covers depth) v covers))
          | inr (inr v) ↦ rw (e, bfs_loop, v) tt
        ]
  ]

-- A search of a u8 depth that returns fewer documents than its limit returns every document of the
-- arena on an edge of a node fewer than `max_depth` edges away from the root.
pub bfs_posts_complete :
    (g : GraphEngine) (root max_depth max_results : ℕ) (rs : List (List ℕ)) (v k i : ℕ)
    → max_depth ≤ 255
    → bfs_posts g root max_depth max_results ≡ done rs
    → length rs < limit_of max_results
    → Walk g root v k
    → k < max_depth
    → InRow g v i
    → InArena g i
    → Memᴰ (doc_at g i) rs
unfolding bfs_posts
bfs_posts_complete g root max_depth max_results rs v k i md e few walk near inside fits =
    let limit = limit_of max_results in
    let start : Search = record { visited = []; queue = (root, 0) ∷ []; results = [] } in
    let full =
      loop_complete g root max_depth limit (enough_fuel g) (λ v. 0) 0 start md
        (start_covers g root max_depth) in
    let ends : (limit ≤ length rs) ⊎ MissesNone g root max_depth rs =
      subst (EndsFull g root max_depth limit) e full in
    elim ends [ inl enough ↦ absurd (omega arith) | inr all ↦ all v k i walk near inside fits ]
