-- ===== src/Bench/LoadGen/Pace.antt =====
-- The loop of a worker as turns of the clock, and how many requests it can send in its time.
use nexus_core_devops_engine.Base.{ℕ, zero, suc, ◌+◌, ◌-◌, ◌*◌, ◌≤◌, ◌<◌, ◌≡◌, ◌⊎◌, inl, inr, arith}
use nexus_core_devops_engine.Bench.LoadGen.Worker.{Histogram, Worker, start_worker, after_request}

module _ (h : Histogram) (interval deadline : ℕ) where
  -- One turn of the loop, from one reading of the clock to the reading at its end. The worker that is
  -- early waits until the next tick; the one that is late goes on.
  pub data Turn (clock : ℕ) (w : Worker h.H) : ℕ → Worker h.H → Type 0 where
    early :
        (began t0 t1 now left : ℕ)
        → clock ≤ began
        → began < deadline
        → began ≤ t0
        → t0 ≤ t1
        → t1 ≤ now
        → now < (after_request h interval t0 t1 w).next_tick
        → (after_request h interval t0 t1 w).next_tick ≤ left
        → Turn clock w left (after_request h interval t0 t1 w)
    late :
        (began t0 t1 now : ℕ)
        → clock ≤ began
        → began < deadline
        → began ≤ t0
        → t0 ≤ t1
        → t1 ≤ now
        → (after_request h interval t0 t1 w).next_tick ≤ now
        → Turn clock w now (after_request h interval t0 t1 w)

  -- Some turns of the loop, counted.
  pub data Turns (clock : ℕ) (w : Worker h.H) : ℕ → ℕ → Worker h.H → Type 0 where
    here : Turns clock w zero clock w
    next :
        {n c d : ℕ} {v u : Worker h.H}
        → Turns clock w n c v
        → Turn c v d u
        → Turns clock w (suc n) d u

  -- What a turn does: it began in time, the tick is one interval later, and is not ahead of the clock.
  record Ticked (clock c : ℕ) (w v : Worker h.H) : Type 0 where
    in_time : clock < deadline
    tick : v.next_tick ≡ w.next_tick + interval
    reached : v.next_tick ≤ c
    count : v.req_count ≡ w.req_count + 1

  Turn-Ticked : {clock c : ℕ} {w v : Worker h.H} → Turn clock w c v → Ticked clock c w v
  unfolding after_request
  Turn-Ticked (early began t0 t1 now left a b p q r s t) = record {
    in_time = omega arith;
    tick = omega arith;
    reached = t;
    count = omega arith;
  }
  Turn-Ticked (late began t0 t1 now a b p q r s) = record {
    in_time = omega arith;
    tick = omega arith;
    reached = s;
    count = omega arith;
  }

  -- What some turns do.
  pub record Paced (w : Worker h.H) (n c : ℕ) (v : Worker h.H) : Type 0 where
    pub tick : v.next_tick ≡ w.next_tick + n * interval
    pub reached : v.next_tick ≤ c
    pub count : v.req_count ≡ w.req_count + n
    pub in_time : (n ≡ 0) ⊎ (w.next_tick + (n - 1) * interval < deadline)

  pub Turns-Paced :
      {c : ℕ} {w : Worker h.H} {n d : ℕ} {v : Worker h.H}
      → w.next_tick ≤ c
      → Turns c w n d v
      → Paced w n d v
  Turns-Paced le here = record {
    tick = omega arith;
    reached = le;
    count = omega arith;
    in_time = inl (omega arith);
  }
  Turns-Paced {w} le (next {n} {c} ts t) =
      let p = Turns-Paced le ts in
      let k = Turn-Ticked t in
      record {
        tick = grind (arith, p.tick, k.tick);
        reached = k.reached;
        count = omega (arith, p.count, k.count);
        in_time = inr (
            let e : suc n - 1 ≡ n = omega arith in
            rw e (omega (arith, p.tick, p.reached, k.in_time)));
      }

-- However fast the answers come, a worker that runs for `duration` and has sent `n` requests has spent
-- the intervals between them inside that time: it never sends faster than its rate. (The deadline is
-- computed from a reading `t`, the first tick is the reading `start` after it.)
pub Turns-rate :
    (h : Histogram) (interval duration t start : ℕ) {n clock : ℕ} {w : Worker h.H}
    → t ≤ start
    → Turns h interval (t + duration) start (start_worker h start) n clock w
    → 0 < n
    → ((n - 1) * interval < duration) × (w.req_count ≡ n) × (w.next_tick ≤ clock)
Turns-rate h interval duration t start le ts some =
    let p = Turns-Paced h interval (t + duration) (omega arith) ts in
    (ground (arith, p.in_time), omega (arith, p.count), p.reached)
