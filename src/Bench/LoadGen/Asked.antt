-- ===== src/Bench/LoadGen/Asked.antt =====
-- What the workers send: each request goes to the address that was resolved and has a query of its worker.
use nexus_core_devops_engine.Base.{
  ℕ, zero, suc, ◌%◌, ◌<◌, ◌≡◌, refl, ap, ◌∙◌, List, [], ◌∷◌, length, get_or, All, Option, none,
  some, ◌==◌, false, Memᴰ, arith,
}
use native.Mathlib.Nat.{mod-lt}
use Prim.Native.String.{String}
use nexus_core_devops_engine.Base.Text.{Text}
use nexus_core_devops_engine.Bench.LoadGen.Request.{Args, queries}
use nexus_core_devops_engine.Bench.LoadGen.Rounds.{length-queries}
use nexus_core_devops_engine.Bench.LoadGen.Worker.{Histogram, Worker, next_query}
use nexus_core_devops_engine.Bench.LoadGen.Counts.{Done, advance, requests_made-advance}

-- A request on its way. Without queries the remainder panics and there is no query.
pub record Asked : Type 0 where
  pub worker : ℕ
  pub addr : String
  pub query : Option Text

module _ (h : Histogram) (args : Args) where
  abbrev pub queries_of : ℕ → List Text
  queries_of worker_id = queries worker_id args.payload_bytes args.operation args.tenants

  -- The query that a worker sends next, by its own count.
  unfoldable pub query_at : ℕ → ℕ → List (Worker h.H) → Option Text
  query_at worker_id i [] = none
  query_at worker_id zero (w ∷ ws) = next_query (queries_of worker_id) w.req_count
  query_at worker_id (suc i) (w ∷ ws) = query_at worker_id i ws

  -- All requests in the order in which they end.
  unfoldable pub asked : ℕ → String → List Done → List (Worker h.H) → List Asked
  unfolding query_at
  asked interval addr [] ws = []
  asked interval addr (d ∷ ds) ws =
      record { worker = d.worker; addr = addr; query = query_at d.worker d.worker ws }
      ∷ asked interval addr ds (advance h interval d.worker d.t0 d.t1 ws)

  -- A request to the address with a query of its worker.
  abbrev pub IsOwn : String → Asked → Type 0
  IsOwn addr a = (a.addr ≡ addr) × (q : Text) × (a.query ≡ some q) × Memᴰ q (queries_of a.worker)

  get_or-Memᴰ : (qs : List Text) (i : ℕ) → i < length qs → Memᴰ (get_or qs i []) qs
  get_or-Memᴰ [] i lt = absurd (omega arith)
  get_or-Memᴰ (q ∷ qs) zero lt = Memᴰ.head refl
  get_or-Memᴰ (q ∷ qs) (suc i) lt = Memᴰ.tail (get_or-Memᴰ qs i (omega arith))

  query_at-Memᴰ :
      (worker_id i : ℕ) (ws : List (Worker h.H))
      → 0 < args.tenants
      → i < length ws
      → (q : Text) × (query_at worker_id i ws ≡ some q) × Memᴰ q (queries_of worker_id)
  unfolding query_at next_query
  query_at-Memᴰ worker_id i [] pos lt = absurd (omega arith)
  query_at-Memᴰ worker_id zero (w ∷ ws) pos lt =
      let qs = queries_of worker_id in
      let long = length-queries worker_id args.payload_bytes args.operation args.tenants in
      let busy : (length qs == 0) ≡ false = ground (arith, long) in
      let at : w.req_count % length qs < length qs = mod-lt w.req_count (omega (arith, long)) in
      (get_or qs (w.req_count % length qs) [], rw busy, get_or-Memᴰ qs _ at)
  query_at-Memᴰ worker_id (suc i) (w ∷ ws) pos lt = query_at-Memᴰ worker_id i ws pos (omega arith)

  pub asked-IsOwn :
      (interval n : ℕ) (addr : String) (ds : List Done) (ws : List (Worker h.H))
      → 0 < args.tenants
      → All (λ (d : Done). d.worker < n) ds
      → length ws ≡ n
      → All (IsOwn addr) (asked interval addr ds ws)
  unfolding asked
  asked-IsOwn interval n addr [] ws pos within long = tt
  asked-IsOwn interval n addr (d ∷ ds) ws pos within long =
      let here : d.worker < length ws = omega (arith, within.0) in
      let (_, same) = requests_made-advance h interval d.worker d.t0 d.t1 ws here in
      let (query, asks, own) = query_at-Memᴰ d.worker d.worker ws pos here in
      (
        (refl, query, asks, own),
        asked-IsOwn interval n addr ds (advance h interval d.worker d.t0 d.t1 ws) pos within.1
            (same ∙ long),
      )

  pub length-asked :
      (interval : ℕ) (addr : String) (ds : List Done) (ws : List (Worker h.H))
      → length (asked interval addr ds ws) ≡ length ds
  unfolding asked
  length-asked interval addr [] ws = refl
  length-asked interval addr (d ∷ ds) ws =
      ap suc (length-asked interval addr ds (advance h interval d.worker d.t0 d.t1 ws))
