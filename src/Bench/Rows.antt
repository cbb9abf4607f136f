-- ===== src/Bench/Rows.antt =====
-- What the terminal dashboard prints of a report: its buckets by their slots, from the first with a
-- count on.
use mathlib.Core.List.Memᴰ
use nexus_core_devops_engine.Base.{ℕ, ◌≤◌, ◌≡◌, ◌⊎◌, List, [], ◌∷◌, length, All, Memᴰ}
use nexus_core_devops_engine.Base.Float.{Float}
use nexus_core_devops_engine.Bench.Dashboard.State.{HistogramReport}
use nexus_core_devops_engine.Bench.Render.{Row, parsed_buckets, rows}

-- The slots do not descend.
abbrev Ascending : List (ℕ × ℕ) → Type 0
Ascending [] = Unit
Ascending (b ∷ bs) = All (λ c. b.0 ≤ c.0) bs × Ascending bs

module _ (fl : Float) (r : HistogramReport) where
  -- A bucket has its row, or there are 20 rows, none of a later slot.
  abbrev pub IsShown : ℕ × ℕ → Type 0
  IsShown b =
      ((row : Row fl) × Memᴰ row (rows fl r) × (row.slot ≡ b.0) × (row.count ≡ b.1))
      ⊎ ((length (rows fl r) ≡ 20) × All (λ row. row.slot ≤ b.0) (rows fl r))

  -- What the rows say of the buckets of the report.
  pub record Printed : Type 0 where
    pub few : length (rows fl r) ≤ 20
    pub honest : All (λ row. Memᴰ (row.slot, row.count) (parsed_buckets r.buckets)) (rows fl r)
    pub shown : All (λ b. (b.1 ≡ 0) ⊎ IsShown b) (parsed_buckets r.buckets)
