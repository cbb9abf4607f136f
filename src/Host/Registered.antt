-- ===== src/Host/Registered.antt =====
-- metrics.rs over time: each metric is registered once, before it is used, and each later query counts.

use nexus_core_devops_engine.Base.{
  ℕ, suc, ◌≡◌, refl, ap, ◌∙◌, ◌⊎◌, inl, inr, Bool, true, false, List, [], ◌∷◌, ◌++◌, All,
}
use nexus_core_devops_engine.Host.Metrics.{
  MetricCall, query_latency, query_total, register, prime, observe, increment, set_gauge, Statics,
  at_load, MetricEvent, started, recorded, pool_changed, heartbeat, register_latency,
  register_total, register_pool, get_or_init, init, record_query, set_pool_used, on_event,
  run_events,
}

abbrev pub ready : Statics
ready = record { latency_set = true; total_set = true; pool_set = true }

module _ {F : Type 0} where
  abbrev pub is_register : MetricCall F → Bool
  is_register (register m name labels) = true
  is_register (prime m labels) = false
  is_register (observe tenant op x) = false
  is_register (increment tenant op status) = false
  is_register (set_gauge x) = false

  abbrev pub Unregistering : List (MetricCall F) → Type 0
  Unregistering = All (λ c. is_register c ≡ false)

  -- The steps of the counter, and the samples of the histogram.
  abbrev pub increments : List (MetricCall F) → ℕ
  increments [] = 0
  increments (register m name labels ∷ cs) = increments cs
  increments (prime m labels ∷ cs) = increments cs
  increments (observe tenant op x ∷ cs) = increments cs
  increments (increment tenant op status ∷ cs) = suc (increments cs)
  increments (set_gauge x ∷ cs) = increments cs

  abbrev pub samples : List (MetricCall F) → ℕ
  samples [] = 0
  samples (register m name labels ∷ cs) = samples cs
  samples (prime m labels ∷ cs) = samples cs
  samples (observe tenant op x ∷ cs) = suc (samples cs)
  samples (increment tenant op status ∷ cs) = samples cs
  samples (set_gauge x ∷ cs) = samples cs

  -- The queries of a history, heartbeats among them.
  abbrev pub queries : List (MetricEvent F) → ℕ
  queries [] = 0
  queries (started ∷ es) = queries es
  queries (recorded tenant op x ok ∷ es) = suc (queries es)
  queries (pool_changed x ∷ es) = queries es
  queries (heartbeat ∷ es) = suc (queries es)

  abbrev pub IsStart : MetricEvent F → Type 0
  IsStart started = Unit
  IsStart (recorded tenant op x ok) = ⊥
  IsStart (pool_changed x) = ⊥
  IsStart heartbeat = ⊥

  abbrev pub registrations : List (MetricCall F)
  registrations = register_latency ∷ register_total ∷ register_pool ∷ []

  module _ (nought millisecond : F) where
    -- What the calls of a history do once the metrics are there.
    pub record Counting (es : List (MetricEvent F)) (calls : List (MetricCall F)) : Type 0 where
      pub unregistering : Unregistering calls
      pub counted : increments calls ≡ queries es
      pub sampled : samples calls ≡ queries es

    pub run_ready :
        (es : List (MetricEvent F))
        → ((run_events nought millisecond es ready).1 ≡ ready)
          × Counting es (run_events nought millisecond es ready).0
    unfolding run_events on_event init get_or_init record_query set_pool_used
    run_ready [] = (refl, record { unregistering = tt; counted = refl; sampled = refl })
    run_ready (started ∷ es) =
        let (e, c) = run_ready es in
        (
          e,
          record {
            unregistering = (refl, (refl, (refl, c.unregistering)));
            counted = c.counted;
            sampled = c.sampled;
          },
        )
    run_ready (recorded tenant op x ok ∷ es) =
        let (e, c) = run_ready es in
        (
          e,
          record {
            unregistering = (refl, (refl, c.unregistering));
            counted = ap suc c.counted;
            sampled = ap suc c.sampled;
          },
        )
    run_ready (pool_changed x ∷ es) =
        let (e, c) = run_ready es in
        (
          e,
          record {
            unregistering = (refl, c.unregistering);
            counted = c.counted;
            sampled = c.sampled;
          },
        )
    run_ready (heartbeat ∷ es) =
        let (e, c) = run_ready es in
        (
          e,
          record {
            unregistering = (refl, (refl, c.unregistering));
            counted = ap suc c.counted;
            sampled = ap suc c.sampled;
          },
        )

    -- A history in which the metrics start: the calls are the three registrations and then no other, and
    -- exactly the queries behind the start are counted and sampled.
    pub record Registered (es : List (MetricEvent F)) : Type 0 where
      pub before : List (MetricEvent F)
      pub behind : List (MetricEvent F)
      pub split : es ≡ before ++ started ∷ behind
      pub none_before : All (λ e. ¬ IsStart e) before
      pub calls : List (MetricCall F)
      pub made : run_events nought millisecond es at_load ≡ (registrations ++ calls, ready)
      pub counting : Counting behind calls

    -- The calls of a start behind the registrations.
    abbrev primed : List (MetricCall F)
    primed =
        prime query_latency ("__system__" ∷ "heartbeat" ∷ [])
        ∷ prime query_total ("__system__" ∷ "heartbeat" ∷ "ok" ∷ [])
        ∷ set_gauge nought
        ∷ []

    -- A call that comes before the metrics are there does nothing.
    skipped :
        (event : MetricEvent F) (es : List (MetricEvent F))
        → ¬ IsStart event
        → run_events nought millisecond (event ∷ es) at_load
          ≡ run_events nought millisecond es at_load
        → (All (λ e. ¬ IsStart e) es × (run_events nought millisecond es at_load ≡ ([], at_load)))
          ⊎ Registered es
        → (All (λ e. ¬ IsStart e) (event ∷ es)
            × (run_events nought millisecond (event ∷ es) at_load ≡ ([], at_load)))
          ⊎ Registered (event ∷ es)
    skipped event es other same (inl (quiet, e)) = inl ((other, quiet), same ∙ e)
    skipped event es other same (inr r) = inr (record {
      before = event ∷ r.before;
      behind = r.behind;
      split = ap (λ xs. event ∷ xs) r.split;
      none_before = (other, r.none_before);
      calls = r.calls;
      made = same ∙ r.made;
      counting = r.counting;
    })

    -- Whatever the order of the calls: without a start no metric is touched. With one each metric is
    -- registered exactly once, before anything else is asked of the library, although the start may be
    -- repeated; the queries before it are lost, and each later one, heartbeats included, is counted
    -- once and sampled once.
    pub run_events-Registered :
        (es : List (MetricEvent F))
        → (All (λ e. ¬ IsStart e) es × (run_events nought millisecond es at_load ≡ ([], at_load)))
          ⊎ Registered es
    unfolding run_events on_event init get_or_init record_query set_pool_used
    run_events-Registered [] = inl (tt, refl)
    run_events-Registered (started ∷ es) =
        let (e, c) = run_ready es in
        inr (record {
          before = [];
          behind = es;
          split = refl;
          none_before = tt;
          calls = primed ++ (run_events nought millisecond es ready).0;
          made =
              ap (λ s. (registrations ++ (primed ++ (run_events nought millisecond es ready).0), s))
                e;
          counting = record {
            unregistering = (refl, (refl, (refl, c.unregistering)));
            counted = c.counted;
            sampled = c.sampled;
          };
        })
    run_events-Registered (recorded tenant op x ok ∷ es) =
        skipped (recorded tenant op x ok) es (λ s. s) refl (run_events-Registered es)
    run_events-Registered (pool_changed x ∷ es) =
        skipped (pool_changed x) es (λ s. s) refl (run_events-Registered es)
    run_events-Registered (heartbeat ∷ es) =
        skipped heartbeat es (λ s. s) refl (run_events-Registered es)
