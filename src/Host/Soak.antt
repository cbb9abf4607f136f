-- ===== src/Host/Soak.antt =====
-- The stress test: its progress bar may panic, and otherwise it reports the sum of all queries.
use native.Mathlib.Nat.{le-div_iff_mul-le, div-lt_iff_lt-mul}
use nexus_core_devops_engine.Base.{
  ℕ, ◌+◌, ◌-◌, ◌*◌, ◌/◌, ◌%◌, ◌≤◌, ◌<◌, ◌≡◌, refl, ap, ◌⊎◌, inl, inr, List, [], ◌∷◌, length, none,
  some, ltb, u64_mod, arith, Bool-cases, ltb→lt, ltb→le, All, Memᴰ,
}
use nexus_core_devops_engine.Host.Stress.{
  count_queries, progress_bar, draw_progress, total_queries, spawn_tenants, StressReport,
  stress_report, run_stress,
}

-- Where the reading times 100 does not wrap, the bar panics exactly if the reading for it is at least
-- 1.02 times the duration, and otherwise its two parts make 50 cells.
progress_bar_cases :
    (secs duration_secs : ℕ)
    → 0 < duration_secs
    → secs * 100 < u64_mod
    → ((progress_bar secs duration_secs ≡ none) × (102 * duration_secs ≤ secs * 100))
      ⊎ ((secs * 100 < 102 * duration_secs)
          × ((filled : ℕ) × (progress_bar secs duration_secs ≡ some (filled, 50 - filled))
              × (filled ≤ 50)))
unfolding progress_bar
progress_bar_cases secs d pos small =
    let pct = (secs * 100) / d in
    let whole : secs * 100 % u64_mod ≡ secs * 100 = omega arith in
    elim (Bool-cases (ltb 50 (pct / 2))) [
      | inl over ↦
          let over' : 102 ≤ pct = omega (arith, ltb→lt 50 (pct / 2) over) in
          inl (rw (whole, over), (le-div_iff_mul-le {k = d} {x = 102} {y = secs * 100} pos).0 over')
      | inr within ↦
          let half : pct / 2 ≤ 50 = ltb→le 50 (pct / 2) within in
          let under : pct < 102 = omega arith in
          inr (
            (div-lt_iff_lt-mul {k = d} {x = secs * 100} {y = 102} pos).0 under,
            (pct / 2, rw (whole, within), half),
          )
    ]

-- A reading for the bar that comes too late, after one that is in time.
pub record Late (duration_secs : ℕ) (progress : List (ℕ × ℕ)) : Type 0 where
  pub reading : ℕ × ℕ
  pub read : Memᴰ reading progress
  pub in_time : reading.0 < duration_secs
  pub late : 102 * duration_secs ≤ reading.1 * 100

abbrev IsFull : ℕ × ℕ → Type 0
IsFull bar = bar.0 + bar.1 ≡ 50

later_Late : (d : ℕ) (p : ℕ × ℕ) (progress : List (ℕ × ℕ)) → Late d progress → Late d (p ∷ progress)
later_Late d p progress l = record {
  reading = l.reading;
  read = Memᴰ.tail l.read;
  in_time = l.in_time;
  late = l.late;
}

draw_progress_cases :
    (d : ℕ) (progress : List (ℕ × ℕ))
    → 0 < d
    → All (λ p. p.1 * 100 < u64_mod) progress
    → ((draw_progress d progress ≡ none) × Late d progress)
      ⊎ ((bars : List (ℕ × ℕ)) × (draw_progress d progress ≡ some bars) × All IsFull bars)
unfolding draw_progress
draw_progress_cases d [] pos small = inr ([], refl, tt)
draw_progress_cases d ((elapsed, secs) ∷ progress) pos small = elim (Bool-cases (ltb elapsed d)) [
  | inr over ↦ inr ([], rw over refl, tt)
  | inl on ↦ elim (progress_bar_cases secs d pos small.0) [
    | inl (panics, late) ↦ inl (
      rw (on, panics) refl,
      record {
        reading = (elapsed, secs);
        read = Memᴰ.head refl;
        in_time = ltb→lt elapsed d on;
        late = late;
      },
    )
    | inr (early, (filled, drawn, few)) ↦ elim (draw_progress_cases d progress pos small.1) [
      | inl (panics, late) ↦
          inl (rw (on, drawn, panics) refl, later_Late d (elapsed, secs) progress late)
      | inr (bars, e, full) ↦
          inr ((filled, 50 - filled) ∷ bars, rw (on, drawn, e) refl, (omega (arith, few), full))
    ]
  ]
]

-- The queries of all tenants: for each the readings before the end of the test.
abbrev all_queries : ℕ → List (List ℕ) → ℕ
all_queries d [] = 0
all_queries d (readings ∷ rest) = count_queries d readings + all_queries d rest

total_queries-spawn_tenants :
    (d tid : ℕ) (tenants : List (List ℕ))
    → total_queries (spawn_tenants d tid tenants) ≡ some (all_queries d tenants % u64_mod)
unfolding total_queries spawn_tenants
total_queries-spawn_tenants d tid [] = refl
total_queries-spawn_tenants d tid (readings ∷ rest) =
    let n = count_queries d readings in
    let sum : (n + all_queries d rest % u64_mod) % u64_mod ≡ (n + all_queries d rest) % u64_mod =
      omega arith in
    rw (total_queries-spawn_tenants d (tid + 1) rest) (ap some sum)

-- What is reported of the tenants.
pub record Reported (d : ℕ) (tenants : List (List ℕ)) (report : StressReport) : Type 0 where
  pub simulated : report.tenants ≡ length tenants
  pub lasted : report.duration_secs ≡ d
  pub summed : report.total ≡ all_queries d tenants % u64_mod
  pub drawn : All IsFull report.bars

-- For a duration above 0 and readings that times 100 fit a u64, the stress test panics only if the
-- clock, read again after a reading in time, is at 1.02 times the duration or more; otherwise it
-- reports, as a u64, the sum of the queries of all tenants, and each of its bars has 50 cells.
pub run_stress-Reported :
    (d : ℕ) (tenants : List (List ℕ)) (progress : List (ℕ × ℕ))
    → 0 < d
    → All (λ p. p.1 * 100 < u64_mod) progress
    → ((run_stress d tenants progress ≡ none) × Late d progress)
      ⊎ ((report : StressReport) × (run_stress d tenants progress ≡ some report)
          × Reported d tenants report)
unfolding run_stress
run_stress-Reported d tenants progress pos small = elim (draw_progress_cases d progress pos small) [
  | inl (panics, late) ↦ inl (rw (run_stress, panics) refl, late)
  | inr (bars, e, full) ↦
      let report : StressReport = record {
        bars = bars;
        tenants = length tenants;
        duration_secs = d;
        total = all_queries d tenants % u64_mod;
      } in
      inr (
        report,
        rw (run_stress, e)
            (ap (stress_report (length tenants) d bars) (total_queries-spawn_tenants d 0 tenants)),
        record { simulated = refl; lasted = refl; summed = refl; drawn = full },
      )
]
