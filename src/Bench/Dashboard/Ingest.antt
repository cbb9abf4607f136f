-- ===== src/Bench/Dashboard/Ingest.antt =====
-- Ingesting reports: the dashboard shows one report for each pair of stack and operation, the
-- latest.

use text.Mathlib.TextEquality.{eq_iff}
use Prim.Native.String.{String}
use mathlib.Core.Path.{subst₂}
use nexus_core_devops_engine.Base.{
  ◌≡◌, refl, ap, ◌∙◌, inl, inr, Bool, true, List, [], ◌∷◌, Option, none, some, if◌then◌else◌, arith,
  Bool-cases, ◌↔◌,
}
use nexus_core_devops_engine.Bench.Dashboard.State.{
  HistogramReport, AppState, LoadClientMetrics, position, has_key, upsert, probe, api_metrics,
  ingest_load, ingest_histogram,
}

-- The first report of a pair of stack and operation.
unfoldable pub find : String → String → List HistogramReport → Option HistogramReport
find stack op [] = none
find stack op (r ∷ rs) = if has_key stack op r then some r else find stack op rs

-- `upsert` by one pass over the list.
put : HistogramReport → List HistogramReport → List HistogramReport
put report [] = report ∷ []
put report (r ∷ rs) = if has_key report.stack report.op r then report ∷ rs else r ∷ put report rs

upsert-put :
    (report : HistogramReport) (list : List HistogramReport) → upsert report list ≡ put report list
unfolding upsert put position
upsert-put report [] = refl
upsert-put report (r ∷ rs) = ground (arith, upsert-put report rs)

has_key_iff :
    (stack op : String) (r : HistogramReport)
    → (has_key stack op r ≡ true) ↔ ((r.stack ≡ stack) × (r.op ≡ op))
unfolding has_key
has_key_iff stack op r = ground (arith, eq_iff r.stack stack, eq_iff r.op op)

-- After a report, its own pair shows the report, and every other pair what it showed before.
find-put :
    (stack op : String) (report : HistogramReport) (list : List HistogramReport)
    → find stack op (put report list)
      ≡ (if has_key stack op report then some report else find stack op list)
unfolding find put
find-put stack op report [] = refl
find-put stack op report (r ∷ rs) = ground (
  arith,
  find-put stack op report rs,
  has_key_iff stack op r,
  has_key_iff stack op report,
  has_key_iff report.stack report.op r,
)

-- No two reports have the same pair.
abbrev HasDistinctKeys : List HistogramReport → Type 0
HasDistinctKeys [] = Unit
HasDistinctKeys (r ∷ rs) = (find r.stack r.op rs ≡ none) × HasDistinctKeys rs

put-HasDistinctKeys :
    (report : HistogramReport) (list : List HistogramReport)
    → HasDistinctKeys list
    → HasDistinctKeys (put report list)
unfolding put find
put-HasDistinctKeys report [] h = (refl, tt)
put-HasDistinctKeys report (r ∷ rs) h = elim (Bool-cases (has_key report.stack report.op r)) [
  | inl same ↦
      let (stack, op) = (has_key_iff report.stack report.op r).0 same in
      rw same (subst₂ (λ a b. find a b rs ≡ none) stack op h.0, h.1)
  | inr other ↦
      let there = find-put r.stack r.op report rs in
      rw other (
        ground (
          arith,
          there,
          h.0,
          has_key_iff r.stack r.op report,
          has_key_iff report.stack report.op r,
        ),
        put-HasDistinctKeys report rs h.1,
      )
]

module _ {F : Type 0} where
  -- After `ingest_histogram` the API shows the new report for its pair of stack and operation and
  -- what it showed before for every other pair, and the rest of the state is as it was.
  pub ingest_histogram-shows :
      (now stack op : String) (report : HistogramReport) (s : AppState F)
      → (find stack op (api_metrics now (ingest_histogram report s)).histograms
          ≡ (if has_key stack op report then some report else find stack op s.histograms))
        × ((ingest_histogram report s).load_client ≡ s.load_client)
        × ((ingest_histogram report s).surreal_reachable ≡ s.surreal_reachable)
  unfolding api_metrics ingest_histogram
  ingest_histogram-shows now stack op report s =
      (rw (upsert-put report s.histograms) (find-put stack op report s.histograms), refl, refl)

-- What reaches the server, in the order in which the locks are taken.
pub data Event (F : Type 0) : Type 0 where
  load : LoadClientMetrics F → Event F
  histogram : HistogramReport → Event F
  probed : Bool → Event F

pub handle : {F : Type 0} → Event F → AppState F → AppState F
handle (load body) s = ingest_load body s
handle (histogram report) s = ingest_histogram report s
handle (probed ok) s = probe ok s

pub handle_all : {F : Type 0} → List (Event F) → AppState F → AppState F
handle_all [] s = s
handle_all (e ∷ es) s = handle_all es (handle e s)

-- The last load report and the last probe of a sequence.
pub last_load :
    {F : Type 0} → Option (LoadClientMetrics F) → List (Event F) → Option (LoadClientMetrics F)
last_load m [] = m
last_load m (load body ∷ es) = last_load (some body) es
last_load m (histogram report ∷ es) = last_load m es
last_load m (probed ok ∷ es) = last_load m es

pub last_probe : {F : Type 0} → Bool → List (Event F) → Bool
last_probe b [] = b
last_probe b (load body ∷ es) = last_probe b es
last_probe b (histogram report ∷ es) = last_probe b es
last_probe b (probed ok ∷ es) = last_probe ok es

-- The last report of a pair in a sequence.
pub last_report :
    {F : Type 0}
    → String
    → String
    → Option HistogramReport
    → List (Event F)
    → Option HistogramReport
last_report stack op r [] = r
last_report stack op r (load body ∷ es) = last_report stack op r es
last_report stack op r (histogram report ∷ es) =
    last_report stack op (if has_key stack op report then some report else r) es
last_report stack op r (probed ok ∷ es) = last_report stack op r es

-- What the dashboard shows after a sequence of events.
pub record Shows {F : Type 0} (s : AppState F) (es : List (Event F)) : Type 0 where
  pub distinct : HasDistinctKeys (handle_all es s).histograms
  pub reports :
      (stack op : String)
      → find stack op (handle_all es s).histograms
        ≡ last_report stack op (find stack op s.histograms) es
  pub client : (handle_all es s).load_client ≡ last_load s.load_client es
  pub reachable : (handle_all es s).surreal_reachable ≡ last_probe s.surreal_reachable es

-- From a state with distinct pairs, after any sequence of requests and probes: the pairs are still
-- distinct, each pair shows its last report, and the load report and the reachability are the last
-- ones received.
pub handle_all-Shows :
    {F : Type 0} (es : List (Event F)) (s : AppState F) → HasDistinctKeys s.histograms → Shows s es
unfolding handle_all handle last_load last_probe last_report ingest_load ingest_histogram probe
handle_all-Shows [] s h = record {
  distinct = h;
  reports = λ a b. refl;
  client = refl;
  reachable = refl;
}
handle_all-Shows (load body ∷ es) s h =
    let ih = handle_all-Shows es (ingest_load body s) h in
    record {
      distinct = ih.distinct;
      reports = ih.reports;
      client = ih.client;
      reachable = ih.reachable;
    }
handle_all-Shows (histogram report ∷ es) s h =
    let same = upsert-put report s.histograms in
    let ih =
      handle_all-Shows es (ingest_histogram report s)
        (rw same (put-HasDistinctKeys report s.histograms h)) in
    record {
      distinct = ih.distinct;
      reports = λ stack op.
          ih.reports stack op
          ∙ ap (λ r. last_report stack op r es)
              (ap (find stack op) same ∙ find-put stack op report s.histograms);
      client = ih.client;
      reachable = ih.reachable;
    }
handle_all-Shows (probed ok ∷ es) s h =
    let ih = handle_all-Shows es (probe ok s) h in
    record {
      distinct = ih.distinct;
      reports = ih.reports;
      client = ih.client;
      reachable = ih.reachable;
    }
