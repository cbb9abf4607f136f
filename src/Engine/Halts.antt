-- ===== src/Engine/Halts.antt =====
-- The running host after a search that panics: the worker is gone, and nothing is counted any more.
use Prim.Native.String.{String}
use nexus_core_devops_engine.Base.{
  ℕ, min, ◌≡◌, refl, sym, ◌∙◌, subst, false, Option, none, some, [], inl, inr,
}
use nexus_core_devops_engine.Base.Float.{Float}
use nexus_core_devops_engine.Engine.Blob.{GraphEngine}
use nexus_core_devops_engine.Engine.Bfs.{panic, bfs_posts}
use nexus_core_devops_engine.Engine.Agg.{Agg, QueryTask, max_results_per_query, work_on}
use nexus_core_devops_engine.Engine.Worker.{metrics_json-ActiveSlots}
use nexus_core_devops_engine.Engine.Http.{respond, respond_state}
use nexus_core_devops_engine.Engine.Service.{
  Service, send, receive, finish, show_metrics, after_work,
}

module _ (fl : Float) where
  open fl use {F}

  -- No worker, and the statistics of `a`, but for the slots and the window of the rate; a task that is
  -- sent is lost.
  pub record Halted (a : Agg F) (s : Service F) : Type 0 where
    pub running : s.running ≡ false
    pub channel : s.channel ≡ []
    pub current : s.current ≡ none
    pub total : s.agg.queries_total ≡ a.queries_total
    pub samples : s.agg.lat_ns ≡ a.lat_ns
    pub lost : (task : QueryTask) → send fl task s ≡ some s

  send_ended : (task : QueryTask) (s : Service F) → s.running ≡ false → send fl task s ≡ some s
  unfolding send
  send_ended task s ended = rw ended refl

  receive_ended : (s : Service F) → s.channel ≡ [] → s.current ≡ none → receive fl s ≡ none
  unfolding receive
  receive_ended s empty idle = rw (receive, idle, empty) refl

  module _ (graph : Option GraphEngine) (started : ℕ) where
    -- The states that the host can reach from `s`, by whatever actions.
    pub data Later (s : Service F) : Service F → Type 0 where
      here : Later s s
      sent : {t u : Service F} (task : QueryTask) → Later s t → send fl task t ≡ some u → Later s u
      received : {t u : Service F} → Later s t → receive fl t ≡ some u → Later s u
      finished :
          {t u : Service F} (t0 t1 now : ℕ)
          → Later s t
          → finish fl graph t0 t1 now t ≡ some u
          → Later s u
      asked :
          {t : Service F} (now : ℕ) (page : Option String) (path : String)
          → Later s t
          → Later s (respond fl graph now started page path t).0

    finish_ended :
        (t0 t1 now : ℕ) (s : Service F) → s.current ≡ none → finish fl graph t0 t1 now s ≡ none
    unfolding finish
    finish_ended t0 t1 now s idle = rw (finish, idle) refl

    show_metrics-Halted :
        (now : ℕ) (a : Agg F) (s : Service F)
        → Halted a s
        → Halted a (show_metrics fl graph now started s).0
    unfolding show_metrics
    show_metrics-Halted now a s h =
        let shown = metrics_json-ActiveSlots fl now started graph s.avg_qps_smoothed s.agg in
        record {
          running = h.running;
          channel = h.channel;
          current = h.current;
          total = shown.same_total ∙ h.total;
          samples = shown.same_samples ∙ h.samples;
          lost = λ task. send_ended task _ h.running;
        }

    Later-Halted : (a : Agg F) (s t : Service F) → Halted a s → Later s t → Halted a t
    Later-Halted a s t h here = h
    Later-Halted a s t h (sent {t = u} task later e) =
        let k = Later-Halted a s u h later in
        let same : some u ≡ some t = sym (k.lost task) ∙ e in
        let one : u ≡ t = cc in subst (Halted a) one k
    Later-Halted a s t h (received {t = u} later e) =
        let k = Later-Halted a s u h later in absurd (cc (e, receive_ended u k.channel k.current))
    Later-Halted a s t h (finished {t = u} t0 t1 now later e) =
        let k = Later-Halted a s u h later in absurd (cc (e, finish_ended t0 t1 now u k.current))
    Later-Halted a s t h (asked {t = u} now page path later) =
        let k = Later-Halted a s u h later in
        elim (respond_state fl graph now started page path u) [
          | inl same ↦ subst (Halted a) (sym same) k
          | inr shown ↦ subst (Halted a) (sym shown) (show_metrics-Halted now a u k)
        ]

-- A task whose search panics ends the worker: the tasks in the channel are lost with it. In every state
-- that the host reaches from there the worker is gone, a task that is sent is lost without an
-- error, and the total and the samples are those from before the panic.
pub panic-Halted :
    (fl : Float) (g : GraphEngine) (started t0 t1 now : ℕ) (task : QueryTask) (s u : Service fl.F)
    → s.current ≡ some task
    → bfs_posts g task.root_node_id (min task.max_depth 8) max_results_per_query ≡ panic
    → Later fl (some g) started (after_work fl (some g) s none) u
    → (finish fl (some g) t0 t1 now s ≡ some (after_work fl (some g) s none)) × Halted fl s.agg u
unfolding finish work_on
panic-Halted fl g started t0 t1 now task s u c p later =
    let ended : Halted fl s.agg (after_work fl (some g) s none) = record {
      running = refl;
      channel = refl;
      current = refl;
      total = refl;
      samples = refl;
      lost = λ other. send_ended fl other (after_work fl (some g) s none) refl;
    } in
    (rw (finish, c, work_on, p) refl, Later-Halted fl (some g) started s.agg _ u ended later)
