-- ===== src/Witness/Host.antt =====
-- A world in which the pool of the configured address times out, so that the host falls back to the
-- embedded engine; a world in which one query fails, and three requests of two tenants; and a progress
-- bar after 15 of 30 seconds.
use text.Mathlib.Text.{◌==◌ as str_eq}
use Prim.Native.String.{String}
use nexus_core_devops_engine.Base.{
  ℕ, ◌≡◌, ◌⊎◌, List, [], ◌∷◌, ◌+◌, true, false, refl, Option, none, some, if◌then◌else◌, arith,
}
use nexus_core_devops_engine.Base.Text.{codes}
use nexus_core_devops_engine.Host.Effects.{Call, build_pool, query, ok, World}
use nexus_core_devops_engine.Host.Url.{Urls, normalize_surreal_url}
use nexus_core_devops_engine.Host.Startup.{StartArgs, run_host}
use nexus_core_devops_engine.Host.Serves.{before_pool, Starts, run_host-Starts}
use nexus_core_devops_engine.Host.Pool.{get}
use nexus_core_devops_engine.Host.Adapter.{Values, exec, relate}
use nexus_core_devops_engine.Host.Counted.{
  Request, exec_query, relate_nodes, recorded, answered, serve_all, serve_all-counts,
}
use nexus_core_devops_engine.Host.Stress.{StressReport, run_stress, draw_progress, progress_bar}
use nexus_core_devops_engine.Host.Soak.{Late, Reported, run_stress-Reported}

abbrev time_out : Call → Option (List ℕ)
time_out (build_pool config) =
    if str_eq config.url "ws://db:8000" then some (codes "Timed out in bb8") else none
time_out _ = none

abbrev no_database : World
no_database = record {
  Error = List ℕ;
  context = λ text e. e;
  quoting = λ text e. e;
  message = λ e. e;
  fails = λ log c. time_out c;
}

abbrev plain_urls : Urls
plain_urls = record {
  Url = String;
  parse = λ s. none;
  host_str = λ url. none;
  set_host = λ url host. none;
  port_or_known_default = λ url. none;
  into = λ url. url;
}

abbrev args : StartArgs
args = record { surreal_url = "ws://db:8000"; ns = "nexuscore"; db = "tenants"; pool_size = 64 }

run_host-Starts_example :
    Starts no_database args
      (normalize_surreal_url plain_urls "ws://db:8000")
      (before_pool no_database args plain_urls [])
      (run_host no_database args plain_urls [])
run_host-Starts_example = run_host-Starts no_database args plain_urls []

abbrev no_syntax : Call → Option (List ℕ)
no_syntax (query surql) = if str_eq surql "SELEC" then some (codes "Parse error") else none
no_syntax _ = none

abbrev picky_database : World
picky_database = record {
  Error = List ℕ;
  context = λ text e. e;
  quoting = λ text e. e;
  message = λ e. e;
  fails = λ log c. no_syntax c;
}

abbrev byte_values : Values (List ℕ)
byte_values = record {
  Value = List ℕ;
  none_value = 246 ∷ [];
  empty_object = 160 ∷ [];
  first_answer = λ log. some (1 ∷ []);
  encode = λ value. ok value;
  decode = λ bytes. ok bytes;
}

abbrev requests : List Request
requests =
    exec_query "alice" "ns" "db" "SELECT * FROM post;"
    ∷ relate_nodes "bob" "user:a" "follows" "user:b" []
    ∷ exec_query "alice" "ns" "db" "SELEC"
    ∷ []

-- Of the two queries of this tenant one is answered.
answered_once : answered picky_database byte_values "alice" "ws://db:8000" requests [] ≡ 1
unfolding exec relate get
answered_once = refl

serve_all-counts_example :
    (recorded "alice" true (serve_all picky_database byte_values "ws://db:8000" requests [])
      ≡ 0 + answered picky_database byte_values "alice" "ws://db:8000" requests [])
    × (recorded "alice" false (serve_all picky_database byte_values "ws://db:8000" requests []) ≡ 0)
serve_all-counts_example =
    serve_all-counts picky_database byte_values "alice" "ws://db:8000" requests []

-- Two tenants, and a clock of the progress loop that is late once.
abbrev tenant_clocks : List (List ℕ)
tenant_clocks = (0 ∷ 1 ∷ 2 ∷ []) ∷ (0 ∷ 2 ∷ []) ∷ []

abbrev late_clock : List (ℕ × ℕ)
late_clock = (0, 0) ∷ (1, 3) ∷ (2, 2) ∷ []

run_stress-Reported_example :
    ((run_stress 2 tenant_clocks late_clock ≡ none) × Late 2 late_clock)
    ⊎ ((report : StressReport) × (run_stress 2 tenant_clocks late_clock ≡ some report)
        × Reported 2 tenant_clocks report)
run_stress-Reported_example =
    run_stress-Reported 2 tenant_clocks late_clock (omega arith)
      (omega arith, (omega arith, (omega arith, tt)))

late_clock_panics : run_stress 2 tenant_clocks late_clock ≡ none
unfolding run_stress draw_progress progress_bar
late_clock_panics = refl
