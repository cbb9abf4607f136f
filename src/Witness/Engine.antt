-- ===== src/Witness/Engine.antt =====
-- A graph of three nodes on a cycle with a document for each edge, and a worker that panics.
use nexus_core_devops_engine.Base.{
  some, none, ℕ, zero, suc, ◌<◌, ◌≤◌, ◌+◌, ◌≡◌, refl, ◌≢◌, List, [], ◌∷◌, get_or, arith, Memᴰ,
}
use nexus_core_devops_engine.Witness.Numbers.{whole_numbers}
use nexus_core_devops_engine.Engine.Blob.{
  GraphEngine, ok, from_blob, to_blob, IsPackable, from_blob-to_blob,
}
use nexus_core_devops_engine.Engine.Bfs.{
  out_of_fuel, done, panic, bfs_posts, bfs_loop, enough_fuel, total_len, visit, contains, scan_row,
  push_doc,
}
use nexus_core_devops_engine.Engine.Ends.{IsWellFormed, bfs_posts_ends}
use nexus_core_devops_engine.Engine.Walks.{Answer, bfs_posts_sound, InRow, here, step}
use nexus_core_devops_engine.Engine.Complete.Scan.{doc_at}
use nexus_core_devops_engine.Engine.Complete.Misses.{bfs_posts_complete}
use nexus_core_devops_engine.Engine.Halts.{Halted, panic-Halted}
use nexus_core_devops_engine.Engine.Halts
use nexus_core_devops_engine.Engine.Http.{respond}
use nexus_core_devops_engine.Engine.Panics.{bfs_posts_panics}
use nexus_core_devops_engine.Engine.Agg.{next_task}
use nexus_core_devops_engine.Engine.Service.{Service, start, finish, after_work}

abbrev pub triangle : GraphEngine
triangle = record {
  row_ptr = 0 ∷ 1 ∷ 2 ∷ 3 ∷ [];
  col_idx = 1 ∷ 2 ∷ 0 ∷ [];
  doc_offsets = 2 ∷ 1_048_578 ∷ 3_145_730 ∷ [];
  arena = 1 ∷ 2 ∷ 3 ∷ 4 ∷ 5 ∷ [];
}

triangle-IsPackable : IsPackable triangle
triangle-IsPackable = record {
  rows_some = omega arith;
  rows_count = omega arith;
  cols_count = omega arith;
  docs_count = refl;
  rows_fit = ground arith;
  cols_fit = ground arith;
  docs_fit = ground arith;
}

triangle_rows : (v : ℕ) → v + 1 < 4 → get_or triangle.row_ptr (v + 1) 0 ≤ 3
triangle_rows zero h = omega arith
triangle_rows (suc zero) h = omega arith
triangle_rows (suc (suc zero)) h = omega arith
triangle_rows (suc (suc (suc v))) h = omega arith

pub triangle-IsWellFormed : IsWellFormed triangle
triangle-IsWellFormed = record { rows = triangle_rows; docs = refl }

from_blob-to_blob_example : from_blob (to_blob triangle) ≡ ok triangle
from_blob-to_blob_example = from_blob-to_blob triangle triangle-IsPackable

bfs_posts_ends_example : bfs_posts triangle 0 3 64 ≢ out_of_fuel
bfs_posts_ends_example = bfs_posts_ends triangle 0 3 64

-- One column, and a row of two.
abbrev overlong : GraphEngine
overlong = record { row_ptr = 0 ∷ 2 ∷ []; col_idx = 0 ∷ []; doc_offsets = 0 ∷ []; arena = [] }

overlong-IsPackable : IsPackable overlong
overlong-IsPackable = record {
  rows_some = omega arith;
  rows_count = omega arith;
  cols_count = omega arith;
  docs_count = refl;
  rows_fit = ground arith;
  cols_fit = ground arith;
  docs_fit = ground arith;
}

bfs_posts_panics_example : bfs_posts overlong 0 3 64 ≡ panic
bfs_posts_panics_example =
    bfs_posts_panics (to_blob overlong) overlong 0 3 64
      (from_blob-to_blob overlong overlong-IsPackable) (omega arith) (omega arith) (omega arith)
      (omega arith) (omega arith) (ground arith)

-- The task for the only node is in the worker's hands, another in the channel.
abbrev stuck : Service ℕ
stuck = record (start whole_numbers 0) {
  channel = next_task 7 0 1 ∷ [];
  current = some (next_task 5 0 3);
}

abbrev after_panic : Service ℕ
after_panic = after_work whole_numbers (some overlong) stuck none

panic-Halted_example :
    (finish whole_numbers (some overlong) 1 2 3 stuck ≡ some after_panic)
    × Halted whole_numbers stuck.agg
        (respond whole_numbers (some overlong) 9 0 none "/api/metrics" after_panic).0
panic-Halted_example =
    panic-Halted whole_numbers overlong 0 1 2 3 (next_task 5 0 3) stuck
      (respond whole_numbers (some overlong) 9 0 none "/api/metrics" after_panic).0 refl
      (bfs_posts_panics (to_blob overlong) overlong 0 3 64
        (from_blob-to_blob overlong overlong-IsPackable) (omega arith) (omega arith) (omega arith)
        (omega arith) (omega arith) (ground arith))
      (Halts.asked 9 none "/api/metrics" Halts.here)

bfs_posts_sound_example : (rs : List (List ℕ)) × Answer triangle 0 3 64 rs
bfs_posts_sound_example =
    bfs_posts_sound triangle 0 3 64 triangle-IsWellFormed (omega arith) (omega arith)

triangle_row : (v : ℕ) → v < 3 → InRow triangle v v
triangle_row zero h = record { node = omega arith; from = omega arith; to = omega arith }
triangle_row (suc zero) h = record { node = omega arith; from = omega arith; to = omega arith }
triangle_row (suc (suc zero)) h = record {
  node = omega arith;
  from = omega arith;
  to = omega arith;
}
triangle_row (suc (suc (suc v))) h = absurd (omega arith)

abbrev triangle_docs : List (List ℕ)
triangle_docs = (1 ∷ 2 ∷ []) ∷ (2 ∷ 3 ∷ []) ∷ (4 ∷ 5 ∷ []) ∷ []

triangle_posts : bfs_posts triangle 0 3 64 ≡ done triangle_docs
unfolding bfs_posts bfs_loop enough_fuel total_len visit contains scan_row push_doc
triangle_posts = refl

bfs_posts_complete_example : Memᴰ (doc_at triangle 2) triangle_docs
bfs_posts_complete_example =
    bfs_posts_complete triangle 0 3 64 triangle_docs 2 2 2 (omega arith) triangle_posts
      (ground arith)
      (step 1 (step 0 here (triangle_row 0 (omega arith))) (triangle_row 1 (omega arith)))
      (omega arith) (triangle_row 2 (omega arith)) (omega arith)
