-- ===== src/Bench/LoadGen/Counts.antt =====
-- All workers together: requests of several workers end in any order, and each counts itself.
use nexus_core_devops_engine.Base.{
  ℕ, zero, suc, ◌+◌, ◌%◌, ◌<◌, ◌≡◌, refl, ap, Bool, true, false, List, [], ◌∷◌, length, All, Option,
  if◌then◌else◌, u64_mod, arith,
}
use nexus_core_devops_engine.Base.Float.{Float}
use nexus_core_devops_engine.Bench.LoadGen.Request.{Args, Connection, simulate_query}
use nexus_core_devops_engine.Bench.LoadGen.Worker.{
  Histogram, Counters, no_requests, count_outcome, Worker, start_worker, after_request,
}
use nexus_core_devops_engine.Bench.LoadGen.Report.{report}

-- A turn of a worker's loop, by the readings of the clock around its request and by what the connection
-- of the request did.
pub record Done : Type 0 where
  pub worker : ℕ
  pub t0 : ℕ
  pub t1 : ℕ
  pub connection : Connection

abbrev pub success : Done → Bool
success d = simulate_query d.connection

abbrev pub successes : List Done → ℕ
successes [] = 0
successes (d ∷ ds) = (if success d then 1 else 0) + successes ds

abbrev pub failures : List Done → ℕ
failures [] = 0
failures (d ∷ ds) = (if success d then 0 else 1) + failures ds

count_outcome_lem :
    (b : Bool) (c : Counters)
    → c.total_requests < u64_mod
    → c.total_errors < u64_mod
    → ((count_outcome b c).total_requests ≡ (c.total_requests + (if b then 1 else 0)) % u64_mod)
      × ((count_outcome b c).total_errors ≡ (c.total_errors + (if b then 0 else 1)) % u64_mod)
unfolding count_outcome
count_outcome_lem true c p q = omega arith
count_outcome_lem false c p q = omega arith

module _ (h : Histogram) (interval : ℕ) where
  -- The workers after one of them has made a request.
  pub advance : ℕ → ℕ → ℕ → List (Worker h.H) → List (Worker h.H)
  advance i t0 t1 [] = []
  advance zero t0 t1 (w ∷ ws) = after_request h interval t0 t1 w ∷ ws
  advance (suc i) t0 t1 (w ∷ ws) = w ∷ advance i t0 t1 ws

  -- All requests in the order in which they end.
  pub serve : List Done → List (Worker h.H) × Counters → List (Worker h.H) × Counters
  unfolding advance
  serve [] s = s
  serve (d ∷ ds) (ws, c) = serve ds (advance d.worker d.t0 d.t1 ws, count_outcome (success d) c)

  abbrev pub requests_made : List (Worker h.H) → ℕ
  requests_made [] = 0
  requests_made (w ∷ ws) = w.req_count + requests_made ws

  pub requests_made-advance :
      (i t0 t1 : ℕ) (ws : List (Worker h.H))
      → i < length ws
      → (requests_made (advance i t0 t1 ws) ≡ requests_made ws + 1)
        × (length (advance i t0 t1 ws) ≡ length ws)
  unfolding advance after_request
  requests_made-advance i t0 t1 [] lt = absurd (omega arith)
  requests_made-advance zero t0 t1 (w ∷ ws) lt = omega arith
  requests_made-advance (suc i) t0 t1 (w ∷ ws) lt =
      omega (arith, requests_made-advance i t0 t1 ws (omega arith))

  -- Each counter grows by the outcomes of its kind, and the workers by the requests made.
  serve_counts :
      (n : ℕ) (ds : List Done) (ws : List (Worker h.H)) (c : Counters)
      → All (λ (d : Done). d.worker < n) ds
      → length ws ≡ n
      → c.total_requests < u64_mod
      → c.total_errors < u64_mod
      → ((serve ds (ws, c)).1.total_requests ≡ (c.total_requests + successes ds) % u64_mod)
        × ((serve ds (ws, c)).1.total_errors ≡ (c.total_errors + failures ds) % u64_mod)
        × (requests_made (serve ds (ws, c)).0 ≡ requests_made ws + length ds)
  unfolding serve
  serve_counts n [] ws c h len p q = omega arith
  serve_counts n (d ∷ ds) ws c h len p q =
      let (more, same) = requests_made-advance d.worker d.t0 d.t1 ws (omega (arith, h.0)) in
      let (r, e) = count_outcome_lem (success d) c p q in
      let ih =
        serve_counts n ds (advance d.worker d.t0 d.t1 ws) (count_outcome (success d) c) h.1
          (omega arith) (omega arith) (omega arith) in
      (omega (arith, ih.0), omega (arith, ih.1), omega (arith, ih.2))

successes-failures : (ds : List Done) → successes ds + failures ds ≡ length ds
successes-failures [] = refl
successes-failures (d ∷ ds) = ground (arith, successes-failures ds)

-- The workers `first..first + n`, each with its own reading of the clock.
unfoldable pub start_all : (h : Histogram) → (ℕ → ℕ) → ℕ → ℕ → List (Worker h.H)
start_all h clock first zero = []
start_all h clock first (suc n) = start_worker h (clock first) ∷ start_all h clock (first + 1) n

pub start_all_lem :
    (h : Histogram) (interval : ℕ) (clock : ℕ → ℕ) (first n : ℕ)
    → (requests_made h interval (start_all h clock first n) ≡ 0)
      × (length (start_all h clock first n) ≡ n)
unfolding start_all
start_all_lem h interval clock first zero = (refl, refl)
start_all_lem h interval clock first (suc n) =
    let (none_made, long) = start_all_lem h interval clock (first + 1) n in
    (omega (arith, none_made), ap suc long)

-- In whatever order the requests of `n` workers end, the report counts each of them once, as a request
-- or as an error by its outcome, and the workers have made exactly as many.
pub serve-report :
    (fl : Float) (h : Histogram) (args : Args) (interval n : ℕ) (clock : ℕ → ℕ) (elapsed : fl.F)
    (hists : List (Option h.H)) (ds : List Done)
    → All (λ (d : Done). d.worker < n) ds
    → length ds < u64_mod
    → let end = serve h interval ds (start_all h clock 0 n, no_requests) in
      ((report fl h args elapsed end.1 hists).total_requests ≡ successes ds)
      × ((report fl h args elapsed end.1 hists).errors ≡ failures ds)
      × (successes ds + failures ds ≡ length ds)
      × (requests_made h interval end.0 ≡ length ds)
unfolding report
serve-report fl h args interval n clock elapsed hists ds within small =
    let start = start_all h clock 0 n in
    let (none_made, long) = start_all_lem h interval clock 0 n in
    let (r, e, m) =
      serve_counts h interval n ds start no_requests within long (omega arith) (omega arith) in
    let all = successes-failures ds in
    (omega (arith, r, all), omega (arith, e, all), all, omega (arith, m, none_made))
