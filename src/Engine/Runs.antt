-- ===== src/Engine/Runs.antt =====
-- The running host over time: whatever the order of its actions, no task is lost and the worker lives.
use mathlib.Core.List.{append_assoc}
use Prim.Native.String.{String}
use nexus_core_devops_engine.Base.{
  ℕ, ◌%◌, ◌≤◌, ◌≡◌, refl, ap, sym, ◌∙◌, inl, inr, true, Option, none, some, List, [], ◌∷◌, ◌++◌,
  length, leb, leb→lt, Bool-cases, Option-cases, List-cases, All, All-append, length-append,
  u64_mod, subst, arith,
}
use nexus_core_devops_engine.Base.Float.{Float}
use nexus_core_devops_engine.Engine.Blob.{GraphEngine}
use nexus_core_devops_engine.Engine.Agg.{
  QueryTask, lat_samples_cap, next_task, max_root, default_agg,
}
use nexus_core_devops_engine.Engine.Samples.{IsSlotMap, retain-IsSlotMap}
use nexus_core_devops_engine.Engine.Worker.{metrics_json-ActiveSlots, metrics_json-retain}
use nexus_core_devops_engine.Engine.Servable.{Servable, Starts, drawn, worked, recorded_one}
use nexus_core_devops_engine.Engine.Http.{respond, respond_state}
use nexus_core_devops_engine.Engine.Service.{
  Service, channel_capacity, start, send, receive, finish, show_metrics,
}

abbrev in_hand : Option QueryTask → List QueryTask
in_hand none = []
in_hand (some task) = task ∷ []

-- What holds after an action, if it happens.
abbrev Allowed : {A : Type 0} → (A → Type 0) → Option A → Type 0
Allowed P none = Unit
Allowed P (some a) = P a

module _ (fl : Float) (graph : Option GraphEngine) (started : ℕ) where
  open fl use {F}

  -- The states of the host, with the tasks that were sent and those that were worked on.
  pub data Run : List QueryTask → List QueryTask → Service F → Type 0 where
    begun : Run [] [] (start fl started)
    sent :
        {ts ws : List QueryTask} {s t : Service F} (tenant root depth : ℕ)
        → Run ts ws s
        → root ≤ max_root graph
        → depth ≤ 4
        → send fl (next_task tenant root depth) s ≡ some t
        → Run (ts ++ next_task tenant root depth ∷ []) ws t
    received :
        {ts ws : List QueryTask} {s t : Service F}
        → Run ts ws s
        → receive fl s ≡ some t
        → Run ts ws t
    finished :
        {ts ws : List QueryTask} {s t : Service F} (t0 t1 now : ℕ) (task : QueryTask)
        → Run ts ws s
        → s.current ≡ some task
        → finish fl graph t0 t1 now s ≡ some t
        → Run ts (ws ++ task ∷ []) t
    asked :
        {ts ws : List QueryTask} {s : Service F} (now : ℕ) (page : Option String) (path : String)
        → Run ts ws s
        → Run ts ws (respond fl graph now started page path s).0

  -- Of the tasks that were sent, those that were worked on come first, then the one in hand and those in
  -- the channel; the statistics count the former.
  pub record Sound (ts ws : List QueryTask) (s : Service F) : Type 0 where
    pub running : s.running ≡ true
    pub order : ts ≡ ws ++ (in_hand s.current ++ s.channel)
    pub room : length s.channel ≤ channel_capacity
    pub tasks : All (Starts graph) ts
    pub total : s.agg.queries_total ≡ length ws % u64_mod
    pub samples : length s.agg.lat_ns ≤ lat_samples_cap
    pub slots : IsSlotMap s.agg.slot_last

  start-Sound : Sound [] [] (start fl started)
  unfolding start default_agg
  start-Sound = record {
    running = refl;
    order = refl;
    room = omega arith;
    tasks = tt;
    total = refl;
    samples = omega arith;
    slots = tt;
  }

  show_metrics-Sound :
      (now : ℕ) (ts ws : List QueryTask) (s : Service F)
      → Sound ts ws s
      → Sound ts ws (show_metrics fl graph now started s).0
  unfolding show_metrics
  show_metrics-Sound now ts ws s h =
      let shown = metrics_json-ActiveSlots fl now started graph s.avg_qps_smoothed s.agg in
      let kept = metrics_json-retain fl now started graph s.avg_qps_smoothed s.agg in
      record {
        running = h.running;
        order = h.order;
        room = h.room;
        tasks = h.tasks;
        total = shown.same_total ∙ h.total;
        samples = subst (λ xs. length xs ≤ lat_samples_cap) (sym shown.same_samples) h.samples;
        slots = subst IsSlotMap (sym kept) (retain-IsSlotMap now s.agg.slot_last h.slots);
      }

  respond-Sound :
      (now : ℕ) (page : Option String) (path : String) (ts ws : List QueryTask) (s : Service F)
      → Sound ts ws s
      → Sound ts ws (respond fl graph now started page path s).0
  respond-Sound now page path ts ws s h = elim (respond_state fl graph now started page path s) [
    | inl same ↦ subst (Sound ts ws) (sym same) h
    | inr shown ↦ subst (Sound ts ws) (sym shown) (show_metrics-Sound now ts ws s h)
  ]

  send-Sound :
      (task : QueryTask) (ts ws : List QueryTask) (s : Service F)
      → Starts graph task
      → Sound ts ws s
      → Allowed (Sound (ts ++ task ∷ []) ws) (send fl task s)
  unfolding send
  send-Sound task ts ws s inside h = elim (Bool-cases (leb channel_capacity (length s.channel))) [
    | inl full ↦ rw (h.running, full) tt
    | inr more ↦
        let last = task ∷ [] in
        rw (h.running, more)
          (record {
            running = refl;
            order =
                ap (λ xs. xs ++ last) h.order
                ∙ append_assoc ws (in_hand s.current ++ s.channel) last
                ∙ ap (λ xs. ws ++ xs) (append_assoc (in_hand s.current) s.channel last);
            room = omega (arith, leb→lt _ _ more, length-append s.channel last);
            tasks = All-append (Starts graph) ts last h.tasks (inside, tt);
            total = h.total;
            samples = h.samples;
            slots = h.slots;
          })
  ]

  receive-Sound :
      (ts ws : List QueryTask) (s : Service F)
      → Sound ts ws s
      → Allowed (Sound ts ws) (receive fl s)
  unfolding receive
  receive-Sound ts ws s h = elim (Option-cases s.current) [
    | inr (task, e) ↦ rw (e, receive) tt
    | inl idle ↦ elim (List-cases s.channel) [
      | inl empty ↦ rw (idle, empty, receive) tt
      | inr (task, rest, e) ↦
          rw (idle, e, receive)
            (record {
              running = h.running;
              order = h.order ∙ ap (λ xs. ws ++ xs) (rw (idle, e) refl);
              room = omega (arith, h.room, ap length e);
              tasks = h.tasks;
              total = h.total;
              samples = h.samples;
              slots = h.slots;
            })
    ]
  ]

  finish-Sound :
      (t0 t1 now : ℕ) (task : QueryTask) (ts ws : List QueryTask) (s : Service F)
      → Servable graph
      → s.current ≡ some task
      → Sound ts ws s
      → Allowed (Sound ts (ws ++ task ∷ [])) (finish fl graph t0 t1 now s)
  unfolding finish
  finish-Sound t0 t1 now task ts ws s servable c h =
      let (lat, docs, e) = worked fl graph t0 t1 now task s.agg servable in
      let (few, slots, total) =
        recorded_one fl now task.tenant_id lat docs s.agg h.samples h.slots in
      rw (c, finish, e)
        (record {
          running = h.running;
          order =
              h.order
              ∙ ap (λ o. ws ++ (in_hand o ++ s.channel)) c
              ∙ sym (append_assoc ws (task ∷ []) s.channel);
          room = h.room;
          tasks = h.tasks;
          total = total ∙ omega (arith, h.total, length-append ws (task ∷ []));
          samples = few;
          slots = slots;
        })

  -- Whatever the order in which tasks are sent, received and worked on and GET requests are answered:
  -- on a well-formed graph of at least one node whose row pointers a u32 counts, or without a graph, the
  -- worker lives; the tasks that were worked on, the one in hand and those in the channel are those that
  -- were sent, in their order, each at a node of the graph; the channel keeps its capacity and the
  -- statistics their bounds; and the total is the number of tasks worked on, as a u64.
  pub Run-Sound :
      (ts ws : List QueryTask) (s : Service F) → Servable graph → Run ts ws s → Sound ts ws s
  Run-Sound ts ws s servable begun = start-Sound
  Run-Sound ts ws s servable (sent {ts = ts'} {s = s'} tenant root depth run low shallow e) =
      let task = next_task tenant root depth in
      subst (Allowed (Sound ts ws)) e (
        send-Sound task ts' ws s' (drawn graph tenant root depth servable low shallow)
          (Run-Sound ts' ws s' servable run))
  Run-Sound ts ws s servable (received {s = s'} run e) =
      subst (Allowed (Sound ts ws)) e (receive-Sound ts ws s' (Run-Sound ts ws s' servable run))
  Run-Sound ts ws s servable (finished {ws = ws'} {s = s'} t0 t1 now task run c e) =
      subst (Allowed (Sound ts ws)) e
        (finish-Sound t0 t1 now task ts ws' s' servable c (Run-Sound ts ws' s' servable run))
  Run-Sound ts ws s servable (asked {s = s'} now page path run) =
      respond-Sound now page path ts ws s' (Run-Sound ts ws s' servable run)
