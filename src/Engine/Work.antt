-- ===== src/Engine/Work.antt =====
-- The work that is left: the pairs in the queue, and the columns in the rows of nodes not visited.
-- It falls with each round.
use nexus_core_devops_engine.Base.{
  ℕ, zero, suc, ◌+◌, ◌-◌, ◌%◌, ◌≤◌, ◌<◌, ◌≡◌, refl, ap, subst, false, ◌||◌, List, [], ◌∷◌, ◌++◌,
  length, get_or, leb, ◌==◌, ==_iff, if◌then◌else◌, arith, Bool-cases, inl, inr, length-append,
  leb→lt, leb→le,
}
use nexus_core_devops_engine.Engine.Blob.{GraphEngine}
use nexus_core_devops_engine.Engine.Bfs.{
  Search, contains, Round, next, return, fail, push_doc, scan_row, row_len, row_start, visit,
  total_len,
}

-- The columns in the rows of the first `k` nodes, those of the visited nodes left out.
pub unseen_len : GraphEngine → List ℕ → ℕ → ℕ
unseen_len g visited zero = 0
unseen_len g visited (suc k) =
    (if contains visited k then 0 else row_len g k) + unseen_len g visited k

pub unseen_len-nil : (g : GraphEngine) (k : ℕ) → unseen_len g [] k ≡ total_len g k
unfolding unseen_len total_len contains
unseen_len-nil g zero = refl
unseen_len-nil g (suc k) = omega (arith, unseen_len-nil g k)

unseen_len-above :
    (g : GraphEngine) (visited : List ℕ) (v k : ℕ)
    → k ≤ v
    → unseen_len g (v ∷ visited) k ≡ unseen_len g visited k
unfolding unseen_len contains
unseen_len-above g visited v zero h = refl
unseen_len-above g visited v (suc k) h =
    let other : (k == v) ≡ false = ground arith in
    rw (other, unseen_len-above g visited v k (omega arith))

unseen_len-visit :
    (g : GraphEngine) (visited : List ℕ) (v k : ℕ)
    → contains visited v ≡ false
    → v < k
    → unseen_len g (v ∷ visited) k + row_len g v ≡ unseen_len g visited k
unfolding unseen_len contains
unseen_len-visit g visited v zero h lt = absurd (omega arith)
unseen_len-visit g visited v (suc k) h lt = elim (Bool-cases (k == v)) [
  | inl e ↦
      let same = (==_iff k v).0 e in
      rw (same, h, (==_iff v v).1 refl)
        (omega (arith, unseen_len-above g visited v v (omega arith)))
  | inr e ↦
      let less : v < k = ground arith in rw e (omega (arith, unseen_len-visit g visited v k h less))
]

abbrev pub nodes : GraphEngine → ℕ
nodes g = length g.row_ptr - 1

abbrev pub work : GraphEngine → Search → ℕ
work g s = length s.queue + unseen_len g s.visited (nodes g)

-- A row adds one pair for each column.
scan_row-queue :
    (g : GraphEngine) (limit depth rounds i : ℕ) (s t : Search)
    → scan_row g limit depth rounds i s ≡ next t
    → (length t.queue ≡ length s.queue + rounds) × (t.visited ≡ s.visited)
unfolding scan_row
scan_row-queue g limit depth zero i s t h = ground arith
scan_row-queue g limit depth (suc rounds) i s t h =
    let entry : ℕ × ℕ = (get_or g.col_idx i 0, (depth + 1) % 256) in
    let s' = record s {
      queue = s.queue ++ entry ∷ [];
      results = push_doc g (get_or g.doc_offsets i 0) s.results;
    } in
    ground
      (arith, scan_row-queue g limit depth rounds (i + 1) s' t, length-append s.queue (entry ∷ []))

state_of : Round → Search → Search
state_of (next s) d = s
state_of (return r) d = d
state_of fail d = d

next-injective : {s t : Search} → next s ≡ next t → s ≡ t
unfolding state_of
next-injective {s} h = ap (λ r. state_of r s) h

-- After the head left the queue, a round leaves no more work than there is.
pub visit-work :
    (g : GraphEngine) (max_depth limit node depth : ℕ) (s t : Search)
    → visit g max_depth limit node depth s ≡ next t
    → work g t ≤ work g s
unfolding visit
visit-work g max_depth limit node depth s t h =
    elim (Bool-cases (leb max_depth depth || contains s.visited node)) [
      | inl skip ↦
          let e : s ≡ t = next-injective (rw skip at h) in
          subst (λ (x : Search). work g x ≤ work g s) e (omega arith)
      | inr fresh ↦
          let new : contains s.visited node ≡ false = ground arith in
          let seen = record s { visited = node ∷ s.visited } in
          elim (Bool-cases (leb (length g.row_ptr) (node + 1))) [
            | inl outside ↦
                let e : seen ≡ t = next-injective (rw (fresh, outside) at h) in
                let same =
                  unseen_len-above g s.visited node (nodes g) (omega (arith, leb→le _ _ outside)) in
                subst (λ (x : Search). work g x ≤ work g s) e (omega (arith, same))
            | inr inside ↦
                let (queue, visited) =
                  scan_row-queue g limit depth (row_len g node) (row_start g node) seen t
                    (rw (fresh, inside) at h) in
                let less =
                  unseen_len-visit g s.visited node (nodes g) new
                    (omega (arith, leb→lt _ _ inside)) in
                rw visited (omega (arith, less, queue))
          ]
    ]
