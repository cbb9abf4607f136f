-- ===== src/Bench/Render.antt =====
-- lesson5/nexuscore-day5/dashboard/src/main.rs: the rows that the terminal dashboard prints of a report,
-- and the bar of a row. The pairs of the hash map come in any order.
use Prim.Native.String.{String}
use nexus_core_devops_engine.Base.{
  ℕ, suc, ◌+◌, ◌-◌, ◌*◌, ◌%◌, ◌^◌, min, max, List, [], ◌∷◌, length, take, drop, Option, none, some,
  map, ltb, leb, ◌==◌, if◌then◌else◌, u32_mod, u64_mod,
}
use nexus_core_devops_engine.Base.Float.{Float}
use nexus_core_devops_engine.Base.Text.{codes, parse_uint}
use nexus_core_devops_engine.Bench.Dashboard.State.{HistogramReport}

-- The pairs whose keys are numbers.
unfoldable pub parsed_buckets : List (String × ℕ) → List (ℕ × ℕ)
parsed_buckets [] = []
parsed_buckets ((k, v) ∷ rest) = elim (parse_uint u32_mod (codes k)) [
  | none ↦ parsed_buckets rest
  | some slot ↦ (slot, v) ∷ parsed_buckets rest
]

-- `sort_by_key` on the slot, which is stable.
unfoldable pub insert_bucket : ℕ × ℕ → List (ℕ × ℕ) → List (ℕ × ℕ)
insert_bucket b [] = b ∷ []
insert_bucket b (c ∷ cs) = if leb (b.0) (c.0) then b ∷ c ∷ cs else c ∷ insert_bucket b cs

unfoldable pub sort_by_slot : List (ℕ × ℕ) → List (ℕ × ℕ)
unfolding insert_bucket
sort_by_slot [] = []
sort_by_slot (b ∷ bs) = insert_bucket b (sort_by_slot bs)

-- `max().unwrap_or(1)`
unfoldable pub max_count : List (ℕ × ℕ) → ℕ
max_count [] = 1
max_count (b ∷ []) = b.1
max_count (b ∷ c ∷ bs) = max (b.1) (max_count (c ∷ bs))

abbrev pub one_later : Option ℕ → Option ℕ
one_later none = none
one_later (some i) = some (suc i)

-- `position(|(_, v)| *v > 0).unwrap_or(0)`, and its two parts.
unfoldable pub first_filled : List (ℕ × ℕ) → Option ℕ
first_filled [] = none
first_filled (b ∷ bs) = let rest = first_filled bs in if ltb 0 (b.1) then some 0 else one_later rest

abbrev pub or_zero : Option ℕ → ℕ
or_zero none = 0
or_zero (some i) = i

-- `&sorted[lo..hi]`
unfoldable pub window : List (ℕ × ℕ) → List (ℕ × ℕ)
unfolding first_filled
window sorted =
    let lo = or_zero (first_filled sorted) in
    let hi = min (lo + 20) (length sorted) in take (hi - lo) (drop lo sorted)

module _ (fl : Float) where
  open fl use {of_u64, fmul, fdiv, to_u64}

  -- The filled and the empty cells; more filled cells than the width panic.
  unfoldable pub bar : ℕ → ℕ → ℕ → Option (ℕ × ℕ)
  bar count max width =
      let filled = to_u64 (fmul (fdiv (of_u64 count) (of_u64 max)) (of_u64 width)) in
      if max == 0
      then some (0, 0)
      else if ltb width filled
      then none
      else some (filled, width - filled)

  pub record Row : Type 0 where
    pub slot : ℕ
    pub start_ns : ℕ
    pub end_ns : ℕ
    pub count : ℕ
    pub cells : Option (ℕ × ℕ)

  -- A shift by 64 or more takes its remainder, as in a release build.
  unfoldable pub row_of : ℕ → ℕ × ℕ → Row
  unfolding bar
  row_of highest (slot, count) =
      let start_ns = 2 ^ (slot % 64) in
      record {
        slot = slot;
        start_ns = start_ns;
        end_ns = (start_ns * 2) % u64_mod;
        count = count;
        cells = bar count highest 30;
      }

  unfoldable pub rows : HistogramReport → List Row
  unfolding parsed_buckets sort_by_slot max_count window row_of
  rows r =
      let sorted = sort_by_slot (parsed_buckets r.buckets) in
      map (row_of (max_count sorted)) (window sorted)
