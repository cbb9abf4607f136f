-- ===== src/Witness/LoadGen.antt =====
-- Two turns of a worker, a round of three tenants, and three requests of two workers.
use nexus_core_devops_engine.Base.{
  ℕ, ◌+◌, ◌-◌, ◌*◌, ◌≤◌, ◌<◌, ◌≡◌, true, List, [], ◌∷◌, ◌++◌, some, Option, arith,
}
use Prim.Native.String.{String}
use nexus_core_devops_engine.Bench.LoadGen.Request.{Args, Connection}
use nexus_core_devops_engine.Bench.LoadGen.Worker.{Histogram, Worker, start_worker, after_request}
use nexus_core_devops_engine.Bench.LoadGen.Pace.{Turns, here, next, early, late, Turns-rate}
use nexus_core_devops_engine.Bench.LoadGen.Rounds.{Served, sent-Served}
use nexus_core_devops_engine.Base.Text.{codes}
use nexus_core_devops_engine.Bench.LoadGen.Counts.{Done}

abbrev samples : Histogram
samples = record {
  H = List ℕ;
  new = [];
  record_value = λ v hist. some (v ∷ hist);
  add = λ hist combined. some (hist ++ combined);
  value_at_percentile = λ a b hist. 0;
  max_value = λ hist. 0;
}

abbrev worker : Worker (List ℕ)
worker =
    after_request samples 1000 1006 2500 (after_request samples 1000 11 50 (start_worker samples 5))

two-Turns : Turns samples 1000 (0 + 1500) 5 (start_worker samples 5) 2 2600 worker
unfolding after_request
two-Turns =
    next
      (next here (
        early 10 11 50 60 1005 (omega arith) (omega arith) (omega arith) (omega arith) (omega arith)
          (omega arith) (omega arith)))
      (late 1005 1006 2500 2600 (omega arith) (omega arith) (omega arith) (omega arith)
        (omega arith) (omega arith))

Turns-rate_example : ((2 - 1) * 1000 < 1500) × (worker.req_count ≡ 2) × (worker.next_tick ≤ 2600)
Turns-rate_example = Turns-rate samples 1000 1500 0 5 (omega arith) two-Turns (omega arith)

sent-Served_example : Served 2 512 "read" 3 7 0
sent-Served_example = sent-Served 2 512 "read" 3 7 0 (omega arith)

abbrev args : Args
args = record {
  target = "127.0.0.1:8000";
  rps = 100;
  tenants = 2;
  duration = 1;
  payload_bytes = 512;
  operation = "read";
}

abbrev answering : Connection
answering = record { connects = true; takes_head = true; takes_query = true; reads = some 200 }

abbrev silent : Connection
silent = record { connects = true; takes_head = true; takes_query = true; reads = some 0 }

abbrev addresses : Option (List String)
addresses = some ("127.0.0.1:8000" ∷ [])

abbrev requests : List Done
requests =
    record { worker = 1; t0 = 5; t1 = 9; connection = answering }
    ∷ record { worker = 0; t0 = 4; t1 = 12; connection = silent }
    ∷ record { worker = 1; t0 = 10; t1 = 13; connection = answering }
    ∷ []

-- Two processors.
abbrev cpuinfo : Option (List (List ℕ))
cpuinfo = some (codes "processor : 0" ∷ codes "flags" ∷ codes "processor : 1" ∷ [])
