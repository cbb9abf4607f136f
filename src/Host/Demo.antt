-- ===== src/Host/Demo.antt =====
-- visualizer.rs: the demo, with its statistics, what it draws of them and what it records. Floats come
-- by `Float`, and the readings of the clock for the test of the loop, in nanoseconds since the start, are
-- an argument. The seconds, colours and fixed lines that it prints are left out.
use Prim.Native.String.{String}
use nexus_core_devops_engine.Base.{
  ℕ, zero, suc, ◌+◌, ◌-◌, ◌/◌, ◌%◌, min, max, true, List, [], ◌∷◌, ◌++◌, ◌==◌, map, ltb, leb,
  Option, none, some, if◌then◌else◌, u64_mod,
}
use nexus_core_devops_engine.Base.Float.{Float}
use nexus_core_devops_engine.Base.Text.{lit, num}
use nexus_core_devops_engine.Host.Metrics.{MetricEvent, started, recorded, pool_changed}

pub record TenantStats (F : Type 0) : Type 0 where
  pub id : ℕ
  pub queries : ℕ
  pub latency : F
  pub model : String

abbrev pub shown_tenants : ℕ → ℕ
shown_tenants tenants = min tenants 12

unfoldable model_of : ℕ → String
model_of i = if i % 3 == 0 then "document" else if i % 3 == 1 then "relational" else "graph"

-- The operation that is recorded, of three.
unfoldable op_of : ℕ → String
op_of k = if k % 3 == 0 then "select" else if k % 3 == 1 then "relate" else "exec"

-- The operation that is shown, of five.
unfoldable shown_op : ℕ → String
shown_op k =
    if k % 5 == 0
    then "SELECT *"
    else if k % 5 == 1
    then "RELATE->"
    else if k % 5 == 2
    then "CREATE  "
    else if k % 5 == 3
    then "UPDATE  "
    else "LIVE SEL"

-- 30 seconds.
abbrev pub demo_end : ℕ
demo_end = 30_000_000_000

-- The milliseconds between two ticks.
unfoldable interval_ms : ℕ → ℕ
interval_ms rps = 1000 / max rps 1

module _ (fl : Float) where
  open fl use {F, of_u64, ratio, fadd, fmul, fdiv, fmax, to_u64}

  -- `(first..first + n).map(…)`
  unfoldable pub first_stats : ℕ → ℕ → List (TenantStats F)
  unfolding model_of
  first_stats first zero = []
  first_stats first (suc n) =
      record {
        id = first;
        queries = 0;
        latency = fadd (ratio 8 10) (fmul (of_u64 first) (ratio 1 10));
        model = model_of first;
      }
      ∷ first_stats (first + 1) n

  unfoldable pub tick_stats : ℕ → ℕ → ℕ → TenantStats F → TenantStats F
  tick_stats n rps tick s =
      let new_q = max (rps / n) 1 in
      let jitter = fmul (of_u64 (((tick + s.id) % u64_mod) % 7)) (ratio 5 100) in
      record s {
        queries = (s.queries + new_q) % u64_mod;
        latency =
            fadd (fadd (ratio 8 10) jitter) (if tick % 20 == 0 then ratio 25 10 else ratio 0 1);
      }

  -- What a tick records of a tenant.
  unfoldable pub tick_event : ℕ → TenantStats F → MetricEvent F
  unfolding op_of
  tick_event tick s =
      recorded (lit "tenant-" ∷ num s.id ∷ []) (op_of ((tick + s.id) % u64_mod))
        (fmax (fdiv s.latency (ratio 1000 1)) (ratio 1 1_000_000_000)) true

  -- The loop over the tenants: the new statistics, and what they record.
  unfoldable pub tick_all :
      ℕ → ℕ → ℕ → List (TenantStats F) → List (TenantStats F) × List (MetricEvent F)
  unfolding tick_stats tick_event
  tick_all n rps tick [] =
      ([], pool_changed (fmax (fmul (of_u64 n) (ratio 25 100)) (ratio 1 1)) ∷ [])
  tick_all n rps tick (s ∷ stats) =
      let s' = tick_stats n rps tick s in
      let (rest, events) = tick_all n rps tick stats in (s' ∷ rest, tick_event tick s' ∷ events)

  -- The activity bar: filled and empty cells.
  unfoldable pub activity_bar : ℕ → ℕ → TenantStats F → ℕ × ℕ
  activity_bar n rps s =
      let full = fdiv (fmul (of_u64 rps) (ratio 30 1)) (of_u64 n) in
      let bar_len = min (to_u64 (fmul (fdiv (of_u64 s.queries) full) (ratio 20 1))) 20 in
      (bar_len, 20 - bar_len)

  -- The line of a tenant.
  pub record Line : Type 0 where
    pub id : ℕ
    pub model : String
    pub op : String
    pub queries : ℕ
    pub latency : F
    pub cells : ℕ × ℕ

  -- What a turn of the loop draws; `hidden` is the number of tenants that are not shown.
  pub record Screen : Type 0 where
    pub tick : ℕ
    pub tenants : ℕ
    pub target_rps : ℕ
    pub lines : List Line
    pub hidden : Option ℕ

  unfoldable pub line_of : ℕ → ℕ → ℕ → TenantStats F → Line
  unfolding activity_bar shown_op
  line_of n rps tick s = record {
    id = s.id;
    model = s.model;
    op = shown_op ((tick + s.id) % u64_mod);
    queries = s.queries;
    latency = s.latency;
    cells = activity_bar n rps s;
  }

  unfoldable pub screen_of : ℕ → ℕ → ℕ → ℕ → List (TenantStats F) → Screen
  unfolding line_of
  screen_of n tenants rps tick stats = record {
    tick = tick;
    tenants = tenants;
    target_rps = rps;
    lines = map (line_of n rps tick) stats;
    hidden = if ltb n tenants then some (tenants - n) else none;
  }

  -- What the demo has done when the clock was read as often as it was.
  pub record Demo : Type 0 where
    pub stats : List (TenantStats F)
    pub events : List (MetricEvent F)
    pub screens : List Screen

  -- The loop, from the statistics after `tick` turns; it ends with the first reading of 30 seconds.
  unfoldable pub run_ticks : ℕ → ℕ → ℕ → ℕ → List (TenantStats F) → List ℕ → Demo
  unfolding tick_all screen_of
  run_ticks n tenants rps tick stats [] = record { stats = stats; events = []; screens = [] }
  run_ticks n tenants rps tick stats (elapsed ∷ later) =
      let tick' = (tick + 1) % u64_mod in
      let (stats', events) = tick_all n rps tick' stats in
      let rest = run_ticks n tenants rps tick' stats' later in
      if leb demo_end elapsed then record { stats = stats; events = []; screens = [] } else record {
        stats = rest.stats;
        events = events ++ rest.events;
        screens = screen_of n tenants rps tick' stats' ∷ rest.screens;
      }

  -- `run_demo_visualizer` on the readings of the clock.
  unfoldable pub run_demo : ℕ → ℕ → List ℕ → Demo
  unfolding first_stats run_ticks
  run_demo tenants rps readings =
      let n = shown_tenants tenants in
      let demo = run_ticks n tenants rps 0 (first_stats 0 n) readings in
      record demo { events = started ∷ demo.events }
