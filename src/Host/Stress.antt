-- ===== src/Host/Stress.antt =====
-- main.rs: the stress test. The readings of the clock, in whole seconds, are arguments.
use nexus_core_devops_engine.Base.{
  ℕ, ◌+◌, ◌-◌, ◌*◌, ◌/◌, ◌%◌, List, [], ◌∷◌, length, Option, none, some, ltb, if◌then◌else◌,
  u64_mod,
}

-- The loop of one tenant: a query for each reading before the end.
unfoldable pub count_queries : ℕ → List ℕ → ℕ
count_queries duration_secs [] = 0
count_queries duration_secs (elapsed ∷ later) =
    let rest = count_queries duration_secs later in
    if ltb elapsed duration_secs then rest + 1 else 0

-- The two parts of the progress bar. A remainder below 0 wraps, and `repeat` panics on its length.
unfoldable pub progress_bar : ℕ → ℕ → Option (ℕ × ℕ)
progress_bar secs duration_secs =
    let pct = (secs * 100 % u64_mod) / duration_secs in
    if ltb 50 (pct / 2) then none else some (pct / 2, 50 - pct / 2)

-- The loop that draws the bar: each turn reads the clock for the test, and again for the bar.
unfoldable pub draw_progress : ℕ → List (ℕ × ℕ) → Option (List (ℕ × ℕ))
unfolding progress_bar
draw_progress duration_secs [] = some []
draw_progress duration_secs ((elapsed, secs) ∷ later) =
    let rest = draw_progress duration_secs later in
    if ltb elapsed duration_secs
    then elim (progress_bar secs duration_secs) [
      | none ↦ none
      | some bar ↦ elim rest [ none ↦ none | some bars ↦ some (bar ∷ bars) ]
    ]
    else some []

-- `h.await.unwrap()` on each tenant: one that panicked has no result.
unfoldable pub total_queries : List (Option (ℕ × ℕ)) → Option ℕ
total_queries [] = some 0
total_queries (none ∷ rest) = none
total_queries (some (tid, queries) ∷ rest) = elim (total_queries rest) [
  | none ↦ none
  | some total ↦ some ((queries + total) % u64_mod)
]

-- What the tenants return, in their order; each reads the clock on its own. There are as many permits as
-- tenants, so none of them waits for one.
unfoldable pub spawn_tenants : ℕ → ℕ → List (List ℕ) → List (Option (ℕ × ℕ))
unfolding count_queries
spawn_tenants duration_secs tid [] = []
spawn_tenants duration_secs tid (readings ∷ rest) =
    some (tid, count_queries duration_secs readings) ∷ spawn_tenants duration_secs (tid + 1) rest

-- What the test prints at its end, but for the average.
pub record StressReport : Type 0 where
  pub bars : List (ℕ × ℕ)
  pub tenants : ℕ
  pub duration_secs : ℕ
  pub total : ℕ

abbrev pub stress_report : ℕ → ℕ → List (ℕ × ℕ) → Option ℕ → Option StressReport
stress_report tenants duration_secs bars none = none
stress_report tenants duration_secs bars (some total) =
    some (record { bars = bars; tenants = tenants; duration_secs = duration_secs; total = total })

-- `run_stress`, from the readings of each tenant and those of the progress loop.
unfoldable pub run_stress : ℕ → List (List ℕ) → List (ℕ × ℕ) → Option StressReport
unfolding draw_progress total_queries spawn_tenants
run_stress duration_secs tenants progress = elim (draw_progress duration_secs progress) [
  | none ↦ none
  | some bars ↦
      stress_report (length tenants) duration_secs bars
        (total_queries (spawn_tenants duration_secs 0 tenants))
]
