-- ===== src/Bench/Dashboard/State.antt =====
-- lesson5/nexuscore-day5/dashboard/src/web.rs, with the models and the sample data of lib.rs beside
-- it. The copies under dashboard-embed are the same text.
--
-- Each handler holds the lock that it writes through to its end, so it is one step on the state. The
-- time stamps and the result of the TCP probe are arguments, and f64 fields are of a type `F`. A hash
-- map of buckets is a list of pairs.
use text.Mathlib.Text.{◌==◌ as str_eq}
use Prim.Native.String.{String}
use nexus_core_devops_engine.Base.{
  ℕ, suc, Bool, false, ◌&&◌, List, [], ◌∷◌, ◌++◌, Option, none, some, set, if◌then◌else◌, u16_mod,
}
use nexus_core_devops_engine.Base.Text.{codes, path_or, number_or}

pub record HistogramReport : Type 0 where
  pub ts : String
  pub stack : String
  pub op : String
  pub p50_ns : ℕ
  pub p99_ns : ℕ
  pub p999_ns : ℕ
  pub total_count : ℕ
  pub buckets : List (String × ℕ)

pub record LoadClientMetrics (F : Type 0) : Type 0 where
  pub elapsed_secs : F
  pub target_rps : ℕ
  pub actual_rps : F
  pub total_requests : ℕ
  pub errors : ℕ
  pub p50_us : ℕ
  pub p99_us : ℕ
  pub p999_us : ℕ
  pub max_us : ℕ

pub record MetricsPayload (F : Type 0) : Type 0 where
  pub updated_rfc3339 : String
  pub surrealdb_reachable : Bool
  pub histograms : List HistogramReport
  pub load_client : Option (LoadClientMetrics F)

pub record AppState (F : Type 0) : Type 0 where
  pub histograms : List HistogramReport
  pub load_client : Option (LoadClientMetrics F)
  pub surreal_reachable : Bool

unfoldable pub lesson_default_histograms : String → List HistogramReport
lesson_default_histograms now =
    record {
      ts = now;
      stack = "surrealdb";
      op = "vfs_read";
      p50_ns = 18_432;
      p99_ns = 72_800;
      p999_ns = 215_000;
      total_count = 50_000;
      buckets =
          ("14", 120)
          ∷ ("15", 8200)
          ∷ ("16", 22000)
          ∷ ("17", 12000)
          ∷ ("18", 5000)
          ∷ ("19", 2000)
          ∷ ("20", 680)
          ∷ [];
    }
    ∷ record {
      ts = now;
      stack = "polyglot";
      op = "vfs_read";
      p50_ns = 22_100;
      p99_ns = 91_000;
      p999_ns = 280_000;
      total_count = 42_000;
      buckets =
          ("15", 400)
          ∷ ("16", 6000)
          ∷ ("17", 18000)
          ∷ ("18", 9000)
          ∷ ("19", 6000)
          ∷ ("20", 2800)
          ∷ [];
    }
    ∷ record {
      ts = now;
      stack = "combined";
      op = "tcp_sendmsg";
      p50_ns = 9_500;
      p99_ns = 45_200;
      p999_ns = 132_000;
      total_count = 31_000;
      buckets =
          ("13", 200)
          ∷ ("14", 5000)
          ∷ ("15", 12000)
          ∷ ("16", 8000)
          ∷ ("17", 3500)
          ∷ ("18", 2300)
          ∷ [];
    }
    ∷ []

-- `iter().position(p)`
unfoldable pub position {ℓ} : {A : Type ℓ} → (A → Bool) → List A → Option ℕ
position p [] = none
position p (x ∷ xs) =
    if p x then some 0 else elim (position p xs) [ none ↦ none | some i ↦ some (suc i) ]

unfoldable pub has_key : String → String → HistogramReport → Bool
has_key stack op r = str_eq r.stack stack && str_eq r.op op

-- The body of `ingest_histogram` on the list.
unfoldable pub upsert : HistogramReport → List HistogramReport → List HistogramReport
unfolding position has_key
upsert report list = elim (position (has_key report.stack report.op) list) [
  | some i ↦ set list i report
  | none ↦ list ++ report ∷ []
]

module _ {F : Type 0} where
  -- The state that `main` starts with.
  unfoldable pub start : String → AppState F
  start now = record {
    histograms = lesson_default_histograms now;
    load_client = none;
    surreal_reachable = false;
  }

  -- The background task, after one connection attempt.
  unfoldable pub probe : Bool → AppState F → AppState F
  probe ok s = record s { surreal_reachable = ok }

  unfoldable pub api_metrics : String → AppState F → MetricsPayload F
  api_metrics now s = record {
    updated_rfc3339 = now;
    surrealdb_reachable = s.surreal_reachable;
    histograms = s.histograms;
    load_client = s.load_client;
  }

  unfoldable pub ingest_load : LoadClientMetrics F → AppState F → AppState F
  ingest_load body s = record s { load_client = some body }

  unfoldable pub ingest_histogram : HistogramReport → AppState F → AppState F
  unfolding upsert
  ingest_histogram report s = record s { histograms = upsert report s.histograms }

-- The host and the port to listen at, from the environment.
unfoldable web_address : Option (List ℕ) → Option (List ℕ) → List ℕ × ℕ
web_address port_var host_var =
    (path_or (codes "0.0.0.0") host_var, number_or u16_mod 3030 port_var)

-- The page: the file, if it can be read, and otherwise the one of the build.
unfoldable pub index : Option String → String → String
index (some page) built_in = page
index none built_in = built_in
