-- ===== src/Witness/Bench.antt =====
-- A scenario of ten tenants, one of 2 ^ 33 requests, some lines of output, and a dashboard that gets
-- three events.

use nexus_core_devops_engine.Base.{
  some, ◌⊎◌, Memᴰ, ℕ, ◌≡◌, refl, List, [], ◌∷◌, ◌++◌, none, true, false,
}
use nexus_core_devops_engine.Witness.Numbers.{whole_numbers}
use nexus_core_devops_engine.Bench.Orchestrator.{ScenarioConfig, validate}
use nexus_core_devops_engine.Bench.Estimates.{Sound, run-Sound}
use nexus_core_devops_engine.Bench.Terminal.{
  is_whitespace, trim_start, trim_end, trim, starts_brace, ends_brace, is_brace, is_object,
  read_lines,
}
use nexus_core_devops_engine.Bench.Lines.{
  first, whole_lines, read_lines-blocked, joined, read_lines-report,
}
use nexus_core_devops_engine.Bench.Dashboard.State.{
  HistogramReport, AppState, has_key, lesson_default_histograms,
}
use nexus_core_devops_engine.Bench.Head.{
  len_utf8, cut_at, Head, head_of, Across, Cut, head_of_cases,
}
use nexus_core_devops_engine.Bench.Render.{parsed_buckets}
use nexus_core_devops_engine.Base.Text.{codes, parse_uint, parse_digits}
use nexus_core_devops_engine.Bench.Dashboard.Ingest.{
  find, histogram, probed, Shows, handle_all-Shows,
}

abbrev ten_tenants : ScenarioConfig
ten_tenants = record {
  target = "surrealdb";
  operation = "read";
  tenant_count = 10;
  requests_per_tenant = 1000;
  payload_bytes = 1024;
}

run-Sound_example : Sound whole_numbers ten_tenants
unfolding validate
run-Sound_example = run-Sound whole_numbers ten_tenants refl

abbrev large : ScenarioConfig
large = record ten_tenants { tenant_count = 10_000; requests_per_tenant = 1_000_000 }

-- `validate` accepts it.
large_validated : validate large ≡ true
unfolding validate
large_validated = refl

abbrev opening : List ℕ
opening = b'{' ∷ []

abbrev member : List ℕ
member = b'1' ∷ []

abbrev closing : List ℕ
closing = b'}' ∷ []

read_lines-report_example :
    read_lines (opening ∷ member ∷ closing ∷ []) (record { buf = []; parsed = [] }) ≡ record {
      buf = [];
      parsed = trim (joined (opening ∷ member ∷ []) ++ (b'}' ∷ b'\n' ∷ [])) ∷ [];
    }
unfolding trim trim_start trim_end is_whitespace is_object starts_brace ends_brace is_brace joined
read_lines-report_example =
    read_lines-report (opening ∷ member ∷ []) closing [] ((refl, refl), ((refl, refl), tt)) refl
      refl refl

read_lines-blocked_example :
    (read_lines (opening ∷ member ∷ closing ∷ []) (record { buf = member; parsed = [] })).parsed
    ≡ whole_lines (opening ∷ member ∷ closing ∷ [])
unfolding is_whitespace
read_lines-blocked_example =
    read_lines-blocked (opening ∷ member ∷ closing ∷ []) (record { buf = member; parsed = [] })
      (first refl refl)

abbrev report : HistogramReport
report = record {
  ts = "later";
  stack = "surrealdb";
  op = "vfs_read";
  p50_ns = 1;
  p99_ns = 2;
  p999_ns = 3;
  total_count = 1;
  buckets = ("0", 1) ∷ [];
}

abbrev state : AppState ℕ
state = record {
  histograms = lesson_default_histograms "now";
  load_client = none;
  surreal_reachable = false;
}

report_bucket : Memᴰ (0, 1) (parsed_buckets report.buckets)
unfolding parsed_buckets parse_uint parse_digits
report_bucket = Memᴰ.head refl

handle_all-Shows_example : Shows state (histogram report ∷ probed true ∷ histogram report ∷ [])
unfolding lesson_default_histograms find has_key
handle_all-Shows_example =
    handle_all-Shows (histogram report ∷ probed true ∷ histogram report ∷ []) state
      (refl, (refl, (refl, tt)))

-- The byte 19 of this time stamp is in its last character.
abbrev stamped : HistogramReport
stamped = record {
  ts = "2026-01-01T00:00:0é";
  stack = "surrealdb";
  op = "vfs_read";
  p50_ns = 900;
  p99_ns = 72_800;
  p999_ns = 2_150_000;
  total_count = 3;
  buckets = [];
}

head_of_cases_example :
    ((head_of whole_numbers (λ s. s) stamped ≡ none) × Across 19 (codes stamped.ts))
    ⊎ ((h : Head ℕ) × (head_of whole_numbers (λ s. s) stamped ≡ some h)
        × Cut 19 (codes stamped.ts) h.ts)
head_of_cases_example = head_of_cases whole_numbers (λ s. s) stamped

stamped_panics : head_of whole_numbers (λ s. s) stamped ≡ none
unfolding head_of cut_at len_utf8
stamped_panics = refl
