-- ===== src/Engine/Complete/Cover.antt =====
-- The search covers the graph: what an expanded node has next to it was found, and its neighbors are
-- expanded or wait in the queue, in the order of their depth.
use nexus_core_devops_engine.Base.{
  ℕ, suc, ◌+◌, ◌≤◌, ◌<◌, ◌≡◌, ◌⊎◌, refl, ap, subst, sym, inl, inr, true, false, ◌||◌, List, ◌∷◌,
  get_or, Memᴰ, ==_iff, ◌==◌, Bool-cases, if◌then◌else◌, arith,
}
use nexus_core_devops_engine.Engine.Blob.{GraphEngine}
use nexus_core_devops_engine.Engine.Bfs.{Search, contains}
use nexus_core_devops_engine.Engine.Walks.{InRow}
use nexus_core_devops_engine.Engine.Complete.Scan.{Rising, Rising-wider, InArena, doc_at, Scanned}

-- The depths of the expanded nodes, with one more of them.
abbrev pub noted : (ℕ → ℕ) → ℕ → ℕ → ℕ → ℕ
noted depths node depth u = if u == node then depth else depths u

noted_here : (depths : ℕ → ℕ) (node depth : ℕ) → noted depths node depth node ≡ depth
noted_here depths node depth = rw ((==_iff node node).1 refl) refl

noted_there :
    (depths : ℕ → ℕ) (node depth u : ℕ) → (u == node) ≡ false → noted depths node depth u ≡ depths u
noted_there depths node depth u other = rw other refl

module _ (g : GraphEngine) (root max_depth : ℕ) where
  -- Node `u` was expanded at depth `k` at the latest, waits for it, or is too far away.
  abbrev pub Reached : (ℕ → ℕ) → Search → ℕ → ℕ → Type 0
  Reached depths s u k =
      ((contains s.visited u ≡ true) × (depths u ≤ k)) ⊎ Memᴰ (u, k) s.queue ⊎ (max_depth ≤ k)

  pub record Cover (depths : ℕ → ℕ) (least : ℕ) (s : Search) : Type 0 where
    pub rising : Rising least (least + 1) s.queue
    pub seen : (v : ℕ) → contains s.visited v ≡ true → depths v ≤ least
    pub start : Reached depths s root 0
    pub edges :
        (v i : ℕ)
        → contains s.visited v ≡ true
        → InRow g v i
        → Reached depths s (get_or g.col_idx i 0) (suc (depths v))
    pub docs :
        (v i : ℕ)
        → contains s.visited v ≡ true
        → InRow g v i
        → InArena g i
        → Memᴰ (doc_at g i) s.results

  -- A pair leaves the head of the queue: what was reached stays so, if the pair itself does.
  Reached-pop :
      (depths depths' : ℕ → ℕ) (s t : Search) (node depth : ℕ) (rest : List (ℕ × ℕ))
      → s.queue ≡ (node, depth) ∷ rest
      → ((v : ℕ)
          → contains s.visited v ≡ true
          → (contains t.visited v ≡ true) × (depths' v ≡ depths v))
      → ((p : ℕ × ℕ) → Memᴰ p rest → Memᴰ p t.queue)
      → Reached depths' t node depth
      → (u k : ℕ) → Reached depths s u k
      → Reached depths' t u k
  Reached-pop depths depths' s t node depth rest e old queued head u k (inl (v, le)) =
      inl ((old u v).0, omega (arith, (old u v).1))
  Reached-pop depths depths' s t node depth rest e old queued head u k (inr (inr far)) =
      inr (inr far)
  Reached-pop depths depths' s t node depth rest e old queued head u k (inr (inl m)) =
      elim (subst (Memᴰ (u, k)) e m) [
        | Memᴰ.head same ↦ subst (λ p. Reached depths' t p.0 p.1) (sym same) head
        | Memᴰ.tail later ↦ inr (inl (queued (u, k) later))
      ]

  module _ (depths : ℕ → ℕ) (least : ℕ) (s : Search) (node depth : ℕ) (rest : List (ℕ × ℕ))
      (e : s.queue ≡ (node, depth) ∷ rest) (c : Cover depths least s) where
    Rising-head : Rising least (least + 1) ((node, depth) ∷ rest)
    Rising-head = subst (Rising least (least + 1)) e c.rising

    Rising-rest : Rising depth (depth + 1) rest
    Rising-rest =
        Rising-wider depth (least + 1) (depth + 1) rest (omega (arith, Rising-head.0)) Rising-head.2

    noted_at : (v : ℕ) → v ≡ node → noted depths node depth v ≡ depth
    noted_at v h = rw h (noted_here depths node depth)

    visited-cases :
        (t : Search) (v : ℕ)
        → t.visited ≡ node ∷ s.visited
        → contains t.visited v ≡ true
        → (v ≡ node) ⊎ (contains s.visited v ≡ true)
    unfolding contains
    visited-cases t v all h =
        let split : (v == node || contains s.visited v) ≡ true =
          subst (λ vs. contains vs v ≡ true) all h in
        elim (Bool-cases (v == node)) [
          | inl here ↦ inl ((==_iff v node).0 here)
          | inr other ↦ inr (subst (λ b. (b || contains s.visited v) ≡ true) other split)
        ]

    still :
        (t : Search) (v : ℕ)
        → contains s.visited node ≡ false
        → t.visited ≡ node ∷ s.visited
        → contains s.visited v ≡ true
        → (contains t.visited v ≡ true) × (noted depths node depth v ≡ depths v)
    unfolding contains
    still t v fresh all h = elim (Bool-cases (v == node)) [
      | inl here ↦ absurd (cc ((==_iff v node).0 here))
      | inr other ↦ (rw (all, other) h, noted_there depths node depth v other)
    ]

    -- The pair is skipped: it is too far away, or its node was expanded before.
    pub Cover-skip :
        (max_depth ≤ depth) ⊎ (contains s.visited node ≡ true)
        → Cover depths depth (record s { queue = rest })
    Cover-skip skip =
        let t : Search = record s { queue = rest } in
        let head : Reached depths t node depth = elim skip [
          | inl far ↦ inr (inr far)
          | inr v ↦ inl (v, omega (arith, c.seen node v, Rising-head.0))
        ] in
        let moved =
          Reached-pop depths depths s t node depth rest e (λ v h. (h, refl)) (λ p m. m) head in
        record {
          rising = Rising-rest;
          seen = λ v h. omega (arith, c.seen v h, Rising-head.0);
          start = moved root 0 c.start;
          edges = λ v i h inside. moved _ _ (c.edges v i h inside);
          docs = c.docs;
        }

    -- The pair is expanded: its node was not visited, and the row was scanned from `i` on.
    pub Cover-expand :
        (rounds i : ℕ) (t : Search)
        → contains s.visited node ≡ false
        → ((j : ℕ) → InRow g node j → (i ≤ j) × (j < i + rounds))
        → Scanned g depth rounds i (record s { visited = node ∷ s.visited; queue = rest }) t
        → Cover (noted depths node depth) depth t
    unfolding contains
    Cover-expand rounds i t fresh row sc =
        let depths' = noted depths node depth in
        let now : contains t.visited node ≡ true =
          rw (sc.visited, (==_iff node node).1 refl) refl in
        let head : Reached depths' t node depth =
          inl (now, omega (arith, noted_here depths node depth)) in
        let old : (v : ℕ)
            → contains s.visited v ≡ true
            → (contains t.visited v ≡ true) × (depths' v ≡ depths v) =
          λ v h. still t v fresh sc.visited h in
        let moved = Reached-pop depths depths' s t node depth rest e old sc.queued head in
        record {
          rising = sc.rising Rising-rest;
          seen = λ v h. elim (visited-cases t v sc.visited h) [
            | inl here ↦ omega (arith, noted_at v here)
            | inr before ↦ omega (arith, c.seen v before, (old v before).1, Rising-head.0)
          ];
          start = moved root 0 c.start;
          edges = λ v j h inside. elim (visited-cases t v sc.visited h) [
            | inl here ↦
                let at = row j (subst (λ x. InRow g x j) here inside) in
                let k : depth + 1 ≡ suc (depths' v) = omega (arith, noted_at v here) in
                subst (Reached depths' t (get_or g.col_idx j 0)) k
                  (inr (inl (sc.pushed j at.0 at.1)))
            | inr before ↦
                let k : suc (depths v) ≡ suc (depths' v) = ap suc (sym (old v before).1) in
                subst (Reached depths' t (get_or g.col_idx j 0)) k
                  (moved _ _ (c.edges v j before inside))
          ];
          docs = λ v j h inside fits. elim (visited-cases t v sc.visited h) [
            | inl here ↦
                let at = row j (subst (λ x. InRow g x j) here inside) in sc.found j at.0 at.1 fits
            | inr before ↦ sc.kept _ (c.docs v j before inside fits)
          ];
        }
