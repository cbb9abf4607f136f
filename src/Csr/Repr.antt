-- ===== src/Csr/Repr.antt =====
-- When a graph in its linear memory stands for a sorted list of edges.
use nexus_core_devops_engine.Base.{
  ◌%◌, ℕ, ◌+◌, ◌*◌, ◌/◌, ◌≤◌, ◌<◌, ◌≡◌, refl, ◌∙◌, List, [], length, take, replicate, overwrite,
  All, length-overwrite, take-overwrite, take_all, take-overwrite_before, length-replicate,
  get_or-replicate, u32_mod, arith, le→ltb,
}
use nexus_core_devops_engine.Csr.Graph.{
  Edge, CsrGraph, CsrHeader, ok, header_magic, row_ptr_slice, col_idx_slice, init, init_header,
  required_bytes,
}
use nexus_core_devops_engine.Csr.Insert.{write_back}
use nexus_core_devops_engine.Csr.Counts.{SourcesBelow}
use nexus_core_devops_engine.Csr.Rows.{Holds}

-- The layout that `init` writes: the two arrays lie one behind the other, inside the memory, and
-- all offsets fit a u32.
pub record IsLaidOut (g : CsrGraph) : Type 0 where
  pub magic : g.hdr.magic ≡ header_magic
  pub row_offset : g.hdr.row_ptr_offset ≡ 64
  pub col_offset : g.hdr.col_idx_offset ≡ 64 + (g.hdr.node_capacity + 1) * 4
  pub fits : 64 + (g.hdr.node_capacity + 1) * 4 + g.hdr.edge_capacity * 4 < u32_mod
  pub room : 64 + (g.hdr.node_capacity + 1) * 4 + g.hdr.edge_capacity * 4 ≤ 4 * length g.mem

-- The graph stands for the edges `es`: sources and targets below the capacity, in ascending order,
-- row pointers that count the edges before each source, the targets as columns, and a node count
-- above every source.
pub record Repr (g : CsrGraph) (es : List Edge) : Type 0 where
  pub layout : IsLaidOut g
  pub targets_in_range : All (λ e. e.1 < g.hdr.node_capacity) es
  pub count : g.hdr.edge_count ≡ length es
  pub capacity : length es ≤ g.hdr.edge_capacity
  pub holds : Holds g.hdr.node_capacity es (row_ptr_slice g) (col_idx_slice g)
  pub nodes : SourcesBelow g.hdr.node_count es
  pub node_bound : g.hdr.node_count ≤ g.hdr.node_capacity

module _ (g : CsrGraph) (hdr : CsrHeader) (row_ptr col_idx : List ℕ) where
  -- The memory that a write back leaves is laid out as before.
  pub IsLaidOut-write_back :
      IsLaidOut g
      → hdr.magic ≡ g.hdr.magic
      → hdr.node_capacity ≡ g.hdr.node_capacity
      → hdr.edge_capacity ≡ g.hdr.edge_capacity
      → hdr.row_ptr_offset ≡ g.hdr.row_ptr_offset
      → hdr.col_idx_offset ≡ g.hdr.col_idx_offset
      → IsLaidOut (write_back g hdr row_ptr col_idx)
  unfolding write_back
  IsLaidOut-write_back l m n e r c =
      let long =
        length-overwrite (hdr.col_idx_offset / 4) col_idx
          (overwrite (hdr.row_ptr_offset / 4) row_ptr g.mem)
        ∙ length-overwrite (hdr.row_ptr_offset / 4) row_ptr g.mem in
      record {
        magic = m ∙ l.magic;
        row_offset = r ∙ l.row_offset;
        col_offset = omega (arith, l.col_offset, c, n);
        fits = omega (arith, l.fits, n, e);
        room = omega (arith, l.room, n, e, long);
      }

-- Rows and columns that are written back are read back: the columns lie behind the rows.
pub row_ptr-write_back :
    (g : CsrGraph) (hdr : CsrHeader) (row_ptr col_idx : List ℕ)
    → IsLaidOut (write_back g hdr row_ptr col_idx)
    → length row_ptr ≡ hdr.node_capacity + 1
    → row_ptr_slice (write_back g hdr row_ptr col_idx) ≡ row_ptr
unfolding write_back row_ptr_slice
row_ptr-write_back g hdr row_ptr col_idx l long =
    let rows = overwrite (hdr.row_ptr_offset / 4) row_ptr g.mem in
    let same : length (overwrite (hdr.col_idx_offset / 4) col_idx rows) ≡ length g.mem =
      length-overwrite _ col_idx rows ∙ length-overwrite _ row_ptr g.mem in
    take-overwrite_before (hdr.node_capacity + 1) (hdr.row_ptr_offset / 4) (hdr.col_idx_offset / 4)
      col_idx rows (omega (arith, l.row_offset, l.col_offset))
    ∙ (take-overwrite (hdr.node_capacity + 1) (hdr.row_ptr_offset / 4) row_ptr g.mem (omega arith)
          (omega (arith, l.row_offset, l.room, same))
        ∙ take_all (hdr.node_capacity + 1) row_ptr (omega arith))

pub col_idx-write_back :
    (g : CsrGraph) (hdr : CsrHeader) (row_ptr col_idx : List ℕ)
    → IsLaidOut (write_back g hdr row_ptr col_idx)
    → length row_ptr ≡ hdr.node_capacity + 1
    → length col_idx ≡ hdr.edge_capacity
    → hdr.edge_count ≤ hdr.edge_capacity
    → col_idx_slice (write_back g hdr row_ptr col_idx) ≡ take hdr.edge_count col_idx
unfolding write_back col_idx_slice
col_idx-write_back g hdr row_ptr col_idx l rl cl le =
    let rows = overwrite (hdr.row_ptr_offset / 4) row_ptr g.mem in
    let same = length-overwrite (hdr.col_idx_offset / 4) col_idx rows in
    take-overwrite hdr.edge_count (hdr.col_idx_offset / 4) col_idx rows (omega arith)
      (omega (arith, l.col_offset, l.room, same))

-- `init` on enough memory, for a size that fits a u32, gives a well-formed graph without edges.
pub Repr-init :
    (memory : List ℕ) (node_cap edge_cap : ℕ)
    → required_bytes node_cap edge_cap ≤ 4 * length memory
    → required_bytes node_cap edge_cap < u32_mod
    → (g : CsrGraph) × (init memory (4 * length memory) node_cap edge_cap ≡ ok g) × Repr g []
unfolding required_bytes init init_header row_ptr_slice col_idx_slice
Repr-init memory n e room fits =
    let zeros : List ℕ = replicate (n + 1) 0 in
    let whole : (n + 1) % u32_mod ≡ n + 1 = omega arith in
    let long : length zeros ≡ n + 1 = length-replicate (n + 1) 0 in
    let same = length-overwrite (64 / 4) zeros memory in
    let fresh : CsrGraph = record {
      hdr = init_header n e;
      mem = overwrite (64 / 4) zeros memory;
      mem_len = 4 * length memory;
    } in
    let read : row_ptr_slice fresh ≡ zeros =
      take-overwrite (n + 1) 16 zeros memory (omega arith) (omega arith)
      ∙ take_all (n + 1) zeros (omega arith) in
    (
      fresh,
      rw (le→ltb (4 * length memory) (64 + (n + 1) * 4 + e * 4) room, whole) refl,
      record {
        layout = record {
          magic = refl;
          row_offset = refl;
          col_offset = omega arith;
          fits = omega arith;
          room = omega (arith, same);
        };
        targets_in_range = tt;
        count = refl;
        capacity = omega arith;
        holds = record {
          sorted = tt;
          in_range = tt;
          rows = λ i le. rw read (get_or-replicate (n + 1) i 0);
          cols = refl;
        };
        nodes = tt;
        node_bound = omega arith;
      },
    )

-- What `init` leaves.
pub hdr-init :
    (memory : List ℕ) (mem_len n e : ℕ) (g : CsrGraph)
    → init memory mem_len n e ≡ ok g
    → g.hdr ≡ init_header n e
unfolding init
hdr-init memory mem_len n e g h = ground arith

-- The check of `init` is made with usize: it accepts a node capacity whose column offset does not
-- fit a u32. The offset that it stores is then at least 2^32 bytes below the end of the row pointers: the
-- columns start inside the row pointers or, just above a multiple of 2^32, inside the header.
pub init_offset_wraps :
    (memory : List ℕ) (mem_len node_cap edge_cap : ℕ)
    → required_bytes node_cap edge_cap ≤ mem_len
    → u32_mod ≤ 64 + (node_cap + 1) * 4
    → (g : CsrGraph) × (init memory mem_len node_cap edge_cap ≡ ok g)
      × (g.hdr.col_idx_offset + u32_mod ≤ g.hdr.row_ptr_offset + (node_cap + 1) * 4)
unfolding required_bytes init init_header
init_offset_wraps memory mem_len n e room big = (
  record {
    hdr = init_header n e;
    mem = overwrite (64 / 4) (replicate ((n + 1) % u32_mod) 0) memory;
    mem_len = mem_len;
  },
  rw (le→ltb mem_len (64 + (n + 1) * 4 + e * 4) room),
  omega arith,
)
