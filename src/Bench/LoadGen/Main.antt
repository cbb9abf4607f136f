-- ===== src/Bench/LoadGen/Main.antt =====
-- load-gen/src/main.rs: the whole program, from its arguments to the report.
use nexus_core_devops_engine.Base.{
  ℕ, ◌+◌, ◌<◌, ◌≡◌, List, map, length, All, Option, none, some, [], ◌∷◌,
}
use nexus_core_devops_engine.Base.Float.{Float}
use nexus_core_devops_engine.Bench.LoadGen.Request.{Args, worker_plan, num_cpus}
use nexus_core_devops_engine.Bench.LoadGen.Worker.{
  Histogram, Counters, no_requests, Worker, interval_of,
}
use nexus_core_devops_engine.Bench.LoadGen.Report.{MetricsReport, report}
use nexus_core_devops_engine.Bench.LoadGen.Counts.{Done, start_all, serve, successes, failures}
use nexus_core_devops_engine.Bench.LoadGen.Asked.{Asked, asked, IsOwn}
use Prim.Native.String.{String}

-- `to_socket_addrs().unwrap().next().expect(…)`, on what the resolution of the target gave.
abbrev pub first_addr : Option (List String) → Option String
first_addr none = none
first_addr (some []) = none
first_addr (some (addr ∷ addrs)) = some addr

module _ (fl : Float) (h : Histogram) where
  -- The workers and the counters when the requests have been made, in the order in which they end.
  abbrev pub workers_end : ℕ → ℕ → (ℕ → ℕ) → List Done → List (Worker h.H) × Counters
  workers_end workers interval clock ds =
      serve h interval ds (start_all h clock 0 workers, no_requests)

  abbrev pub final_report : Args → fl.F → List (Worker h.H) × Counters → MetricsReport fl.F
  final_report args elapsed (ws, c) = report fl h args elapsed c (map (λ w. some w.hist) ws)

  -- What the program prints at its end, and the requests that it has sent.
  pub record Outcome : Type 0 where
    pub printed : MetricsReport fl.F
    pub sends : List Asked

  abbrev pub run_workers :
      Args → (ℕ → ℕ) → fl.F → List Done → ℕ → String → Option ℕ → Option Outcome
  run_workers args clock elapsed ds workers addr none = none
  run_workers args clock elapsed ds workers addr (some interval) = some (record {
    printed = final_report args elapsed (workers_end workers interval clock ds);
    sends = asked h args interval addr ds (start_all h clock 0 workers);
  })

  abbrev pub run_to : Args → (ℕ → ℕ) → fl.F → List Done → ℕ × ℕ → Option String → Option Outcome
  run_to args clock elapsed ds plan none = none
  run_to args clock elapsed ds (workers, rate) (some addr) =
      run_workers args clock elapsed ds workers addr (interval_of rate)

  abbrev pub run_plan :
      Option (List String) → Args → (ℕ → ℕ) → fl.F → List Done → Option (ℕ × ℕ) → Option Outcome
  run_plan resolved args clock elapsed ds none = none
  run_plan resolved args clock elapsed ds (some plan) =
      run_to args clock elapsed ds plan (first_addr resolved)

  -- `main`, on the lines of /proc/cpuinfo, the addresses that the target resolves to (`none` for an error),
  -- the clock at the start of each worker, the time at the end, and what the turns of the loops read from
  -- the clock and met at their connections (`Pace` says which turns end before the deadline). A panic is
  -- `none`.
  unfoldable pub main :
      Option (List (List ℕ))
      → Option (List String)
      → Args
      → (ℕ → ℕ)
      → fl.F
      → List Done
      → Option Outcome
  main cpuinfo resolved args clock elapsed ds =
      run_plan resolved args clock elapsed ds (worker_plan (num_cpus cpuinfo) args)

  -- The report of a run to an address with the turns `ds`, and its requests.
  pub record CountsAll (cpuinfo : Option (List (List ℕ))) (resolved : Option (List String))
      (args : Args) (clock : ℕ → ℕ) (elapsed : fl.F) (ds : List Done) : Type 0 where
    pub addr : String
    pub resolves : first_addr resolved ≡ some addr
    pub result : Outcome
    pub returns : main cpuinfo resolved args clock elapsed ds ≡ some result
    pub requests : result.printed.total_requests ≡ successes ds
    pub errors : result.printed.errors ≡ failures ds
    pub each_once : successes ds + failures ds ≡ length ds
    pub sent_each : length result.sends ≡ length ds
    pub own : All (IsOwn h args addr) result.sends

  -- The ends of a run: a panic for no tenants, a panic for a target that resolves to nothing, a report.
  pub data Ends (cpuinfo : Option (List (List ℕ))) (resolved : Option (List String)) (args : Args)
      (clock : ℕ → ℕ) (elapsed : fl.F) (ds : List Done) : Type 0 where
    no_tenants :
        args.tenants ≡ 0
        → main cpuinfo resolved args clock elapsed ds ≡ none
        → Ends cpuinfo resolved args clock elapsed ds
    no_address :
        0 < args.tenants
        → first_addr resolved ≡ none
        → main cpuinfo resolved args clock elapsed ds ≡ none
        → Ends cpuinfo resolved args clock elapsed ds
    reported :
        0 < args.tenants
        → CountsAll cpuinfo resolved args clock elapsed ds
        → Ends cpuinfo resolved args clock elapsed ds
