-- ===== src/Host/Ticks.antt =====
-- visualizer.rs: the turns of the demo's loop, what each draws and what it records.
use native.Mathlib.Nat.{suc-mul}
use nexus_core_devops_engine.Base.{
  ℕ, suc, ◌+◌, ◌*◌, ◌/◌, ◌%◌, max, ◌≡◌, refl, ap, ◌∙◌, subst, inl, inr, List, [], ◌∷◌, ◌++◌, length,
  map, All, All-map, leb, if◌then◌else◌, Bool-cases, u64_mod, arith,
}
use nexus_core_devops_engine.Base.Float.{Float}
use nexus_core_devops_engine.Host.Metrics.{MetricEvent, started, recorded, pool_changed, heartbeat}
use nexus_core_devops_engine.Host.Registered.{queries}
use nexus_core_devops_engine.Host.Demo.{
  TenantStats, Demo, demo_end, tick_stats, tick_event, tick_all, run_ticks, Screen, line_of,
  screen_of,
}

-- The turns of the loop: the readings of the clock before the first of 30 seconds.
abbrev pub turns : List ℕ → ℕ
turns [] = 0
turns (elapsed ∷ later) = let rest = turns later in if leb demo_end elapsed then 0 else suc rest

queries-append :
    {F : Type 0} (es fs : List (MetricEvent F)) → queries (es ++ fs) ≡ queries es + queries fs
queries-append [] fs = omega arith
queries-append (started ∷ es) fs = queries-append es fs
queries-append (recorded tenant op x ok ∷ es) fs = omega (arith, queries-append es fs)
queries-append (pool_changed x ∷ es) fs = queries-append es fs
queries-append (heartbeat ∷ es) fs = omega (arith, queries-append es fs)

-- The queries that a turn adds to each tenant.
abbrev pub new_queries : ℕ → ℕ → ℕ
new_queries n rps = max (rps / n) 1

module _ (fl : Float) where
  open fl use {F}

  -- Every tenant has `q` queries, as a u64.
  abbrev pub HaveQueries : ℕ → List (TenantStats F) → Type 0
  HaveQueries q = All (λ s. s.queries ≡ q % u64_mod)

  abbrev pub ids_of : List (TenantStats F) → List ℕ
  ids_of stats = map (λ s. s.id) stats

  -- The screens from `q` queries on: each has a line for each of the tenants `ids`, with `d` queries more
  -- than on the screen before, as a u64.
  abbrev pub Drawn : List ℕ → ℕ → ℕ → List (Screen fl) → Type 0
  Drawn ids d q [] = Unit
  Drawn ids d q (screen ∷ screens) =
      (map (λ line. line.id) screen.lines ≡ ids)
      × All (λ line. line.queries ≡ (q + d) % u64_mod) screen.lines
      × Drawn ids d (q + d) screens

  line_of-ids :
      (n rps tick : ℕ) (stats : List (TenantStats F))
      → map (λ line. line.id) (map (line_of fl n rps tick) stats) ≡ ids_of stats
  unfolding line_of
  line_of-ids n rps tick [] = refl
  line_of-ids n rps tick (s ∷ stats) = ap (λ ids. s.id ∷ ids) (line_of-ids n rps tick stats)

  screen_of-lines :
      (n tenants rps tick q : ℕ) (stats : List (TenantStats F))
      → HaveQueries q stats
      → (map (λ line. line.id) (screen_of fl n tenants rps tick stats).lines ≡ ids_of stats)
        × All (λ line. line.queries ≡ q % u64_mod) (screen_of fl n tenants rps tick stats).lines
  unfolding screen_of line_of
  screen_of-lines n tenants rps tick q stats h = (
    line_of-ids n rps tick stats,
    All-map (λ line. line.queries ≡ q % u64_mod) (line_of fl n rps tick) stats h,
  )

  -- One turn of the loop.
  record Turned (n rps tick q : ℕ) (stats : List (TenantStats F)) : Type 0 where
    long : length (tick_all fl n rps tick stats).0 ≡ length stats
    same_ids : ids_of (tick_all fl n rps tick stats).0 ≡ ids_of stats
    have : HaveQueries (q + new_queries n rps) (tick_all fl n rps tick stats).0
    recorded_each : queries (tick_all fl n rps tick stats).1 ≡ length stats

  tick_all-Turned :
      (n rps tick q : ℕ) (stats : List (TenantStats F))
      → HaveQueries q stats
      → Turned n rps tick q stats
  unfolding tick_all tick_stats tick_event
  tick_all-Turned n rps tick q [] h = record {
    long = refl;
    same_ids = refl;
    have = tt;
    recorded_each = refl;
  }
  tick_all-Turned n rps tick q (s ∷ stats) h =
      let t = tick_all-Turned n rps tick q stats h.1 in
      record {
        long = ap suc t.long;
        same_ids = ap (λ ids. s.id ∷ ids) t.same_ids;
        have = (omega (arith, h.0), t.have);
        recorded_each = ap suc t.recorded_each;
      }

  -- What `k` turns of the loop do for `n` tenants with `q` queries each, `d` of them new in a turn.
  pub record Looped (n : ℕ) (ids : List ℕ) (d q k : ℕ) (demo : Demo fl) : Type 0 where
    pub screens : length demo.screens ≡ k
    pub drawn : Drawn ids d q demo.screens
    pub long : length demo.stats ≡ n
    pub have : HaveQueries (q + k * d) demo.stats
    pub recorded_all : queries demo.events ≡ k * n

  no_turn :
      (d q : ℕ) (stats : List (TenantStats F))
      → HaveQueries q stats
      → Looped
          (length stats)
          (ids_of stats)
          d
          q
          0
          (record { stats = stats; events = []; screens = [] })
  no_turn d q stats h =
      let still : q ≡ q + 0 * d = omega arith in
      record {
        screens = refl;
        drawn = tt;
        long = refl;
        have = subst (λ k. HaveQueries k stats) still h;
        recorded_all = omega arith;
      }

  pub run_ticks-Looped :
      (n tenants rps tick q : ℕ) (stats : List (TenantStats F)) (readings : List ℕ)
      → HaveQueries q stats
      → Looped
          (length stats)
          (ids_of stats)
          (new_queries n rps)
          q
          (turns readings)
          (run_ticks fl n tenants rps tick stats readings)
  unfolding run_ticks
  run_ticks-Looped n tenants rps tick q stats [] h = no_turn (new_queries n rps) q stats h
  run_ticks-Looped n tenants rps tick q stats (elapsed ∷ later) h =
      let d = new_queries n rps in
      let tick' = (tick + 1) % u64_mod in
      let t = tick_all-Turned n rps tick' q stats h in
      let (stats', events) = tick_all fl n rps tick' stats in
      let rest = run_ticks-Looped n tenants rps tick' (q + d) stats' later t.have in
      let more = run_ticks fl n tenants rps tick' stats' later in
      let (lines, shows) = screen_of-lines n tenants rps tick' (q + d) stats' t.have in
      elim (Bool-cases (leb demo_end elapsed)) [
        | inl end ↦ rw (run_ticks, end) (no_turn d q stats h)
        | inr on ↦
            let sum : (q + d) + turns later * d ≡ q + suc (turns later) * d =
              omega (arith, suc-mul (turns later) d) in
            rw (run_ticks, on)
              (record {
                screens = ap suc rest.screens;
                drawn = (
                  lines ∙ t.same_ids,
                  shows,
                  subst (λ ids. Drawn ids d (q + d) more.screens) t.same_ids rest.drawn,
                );
                long = rest.long ∙ t.long;
                have = subst (λ k. HaveQueries k more.stats) sum rest.have;
                recorded_all =
                    queries-append events more.events
                    ∙ omega (
                      arith,
                      t.recorded_each,
                      rest.recorded_all ∙ ap (λ l. turns later * l) t.long,
                      suc-mul (turns later) (length stats),
                    );
              })
      ]
