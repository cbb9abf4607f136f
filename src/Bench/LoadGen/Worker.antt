-- ===== src/Bench/LoadGen/Worker.antt =====
-- load-gen/src/main.rs: the loop of a worker. An `Instant` is a number of nanoseconds. The histogram
-- is a library: `Histogram` is what the program uses of it.
use nexus_core_devops_engine.Base.{
  ℕ, ◌+◌, ◌-◌, ◌/◌, ◌%◌, Bool, List, [], Option, none, some, length, get_or, ltb, ◌==◌,
  if◌then◌else◌, u64_mod,
}
use nexus_core_devops_engine.Base.Text.{Text}

pub record Histogram : Type 1 where
  pub H : Type 0
  pub new : H
  pub record_value : ℕ → H → Option H
  pub add : H → H → Option H
  pub value_at_percentile : ℕ → ℕ → H → ℕ
  pub max_value : H → ℕ

-- The two atomic counters that all workers share.
pub record Counters : Type 0 where
  pub total_requests : ℕ
  pub total_errors : ℕ

abbrev pub no_requests : Counters
no_requests = record { total_requests = 0; total_errors = 0 }

-- `fetch_add` on the counter of the outcome.
unfoldable pub count_outcome : Bool → Counters → Counters
count_outcome success c =
    if success
    then record c { total_requests = (c.total_requests + 1) % u64_mod }
    else record c { total_errors = (c.total_errors + 1) % u64_mod }

-- The local variables of the loop.
pub record Worker (H : Type 0) : Type 0 where
  pub hist : H
  pub req_count : ℕ
  pub next_tick : ℕ

abbrev pub start_worker : (h : Histogram) → ℕ → Worker h.H
start_worker h now = record { hist = h.new; req_count = 0; next_tick = now }

-- The nanoseconds between two requests; a rate of 0 panics.
unfoldable pub interval_of : ℕ → Option ℕ
interval_of rps = if rps == 0 then none else some (1_000_000_000 / rps)

-- The query that is sent next; without queries the remainder panics.
unfoldable pub next_query : List Text → ℕ → Option Text
next_query queries req_count =
    if length queries == 0 then none else some (get_or queries (req_count % length queries) [])

-- The body of the loop up to the pause: the request was sent at `t0` and answered at `t1`.
unfoldable pub after_request : (h : Histogram) → ℕ → ℕ → ℕ → Worker h.H → Worker h.H
after_request h interval t0 t1 w =
    let latency_ns = (t1 - t0) % u64_mod in
    record {
      hist = elim (h.record_value latency_ns w.hist) [ none ↦ w.hist | some hist ↦ hist ];
      req_count = w.req_count + 1;
      next_tick = w.next_tick + interval;
    }

-- The call of `sleep` before the busy wait, if there is one.
unfoldable sleep_time : ℕ → ℕ → Option ℕ
sleep_time next_tick now =
    let sleep_ns = (next_tick - now) % u64_mod in
    if ltb now next_tick
    then (if ltb 100_000 sleep_ns then some (sleep_ns - 50_000) else none)
    else none
