-- ===== src/Host/Shown.antt =====
-- visualizer.rs: how many queries the demo shows, and how many it records.

use nexus_core_devops_engine.Base.{
  ℕ, zero, suc, ◌+◌, ◌*◌, ◌≡◌, refl, ap, ◌∙◌, subst, List, [], ◌∷◌, length, arith,
}
use nexus_core_devops_engine.Base.Float.{Float}
use nexus_core_devops_engine.Host.Metrics.{at_load, run_events, on_event, init, get_or_init}
use nexus_core_devops_engine.Host.Registered.{increments, run_ready}
use nexus_core_devops_engine.Host.Demo.{Demo, shown_tenants, first_stats, run_ticks, run_demo}
use nexus_core_devops_engine.Host.Ticks.{
  turns, new_queries, HaveQueries, ids_of, Drawn, run_ticks-Looped,
}

-- The numbers `first..first + n`.
abbrev pub numbered : ℕ → ℕ → List ℕ
numbered first zero = []
numbered first (suc n) = first ∷ numbered (first + 1) n

module _ (fl : Float) where
  open fl use {F}

  length-first_stats : (first n : ℕ) → length (first_stats fl first n) ≡ n
  unfolding first_stats
  length-first_stats first zero = refl
  length-first_stats first (suc n) = ap suc (length-first_stats (first + 1) n)

  first_stats-ids : (first n : ℕ) → ids_of fl (first_stats fl first n) ≡ numbered first n
  unfolding first_stats
  first_stats-ids first zero = refl
  first_stats-ids first (suc n) = ap (λ ids. first ∷ ids) (first_stats-ids (first + 1) n)

  first_stats-HaveQueries : (first n : ℕ) → HaveQueries fl 0 (first_stats fl first n)
  unfolding first_stats
  first_stats-HaveQueries first zero = tt
  first_stats-HaveQueries first (suc n) = (refl, first_stats-HaveQueries (first + 1) n)

  -- What the demo shows and records of `n` tenants in `k` turns.
  pub record Shown (n rps k : ℕ) (nought millisecond : F) (demo : Demo fl) : Type 0 where
    pub screens : length demo.screens ≡ k
    pub drawn : Drawn fl (numbered 0 n) (new_queries n rps) 0 demo.screens
    pub tenants : length demo.stats ≡ n
    pub shown : HaveQueries fl (k * new_queries n rps) demo.stats
    pub counted : increments (run_events nought millisecond demo.events at_load).0 ≡ k * n

  -- The demo of `n` shown tenants draws one screen for each turn of its loop. The screen of turn `i` has
  -- a line for each of them from 0 on, each with `i` times the rate through `n`, but at least `i`, as its
  -- queries, as a u64, while the metrics counted one query for each tenant and turn.
  pub run_demo-Shown :
      (tenants rps : ℕ) (readings : List ℕ) (nought millisecond : F)
      → Shown
          (shown_tenants tenants)
          rps
          (turns readings)
          nought
          millisecond
          (run_demo fl tenants rps readings)
  unfolding run_demo run_events on_event init get_or_init
  run_demo-Shown tenants rps readings nought millisecond =
      let n = shown_tenants tenants in
      let stats = first_stats fl 0 n in
      let size = length-first_stats 0 n in
      let l = run_ticks-Looped fl n tenants rps 0 0 stats readings (first_stats-HaveQueries 0 n) in
      let demo = run_ticks fl n tenants rps 0 stats readings in
      let none_before : 0 + turns readings * new_queries n rps
          ≡ turns readings * new_queries n rps =
        omega arith in
      record {
        screens = l.screens;
        drawn =
            subst (λ ids. Drawn fl ids (new_queries n rps) 0 demo.screens) (first_stats-ids 0 n)
              l.drawn;
        tenants = l.long ∙ size;
        shown = subst (λ k. HaveQueries fl k demo.stats) none_before l.have;
        counted =
            (run_ready nought millisecond demo.events).1.counted
            ∙ l.recorded_all
            ∙ ap (λ m. turns readings * m) size;
      }
