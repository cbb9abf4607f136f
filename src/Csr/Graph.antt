-- ===== src/Csr/Graph.antt =====
-- csr_graph.rs: the header, the graph over its linear memory, `init` and the accessors.
--
-- The linear memory is a list of u32 cells, cell `k` at byte `4 * k`; every offset in the header is
-- a multiple of four. The 64 bytes of the header are the record `hdr`, so the first 16 cells of `mem`
-- are not used. `usize` has 64 bits and does not overflow here; u32 arithmetic wraps, as in a release
-- build. A slice made by `from_raw_parts` outside the memory is undefined behaviour in Rust;
-- here it is cut off at the end of the memory, and the invariant of `Repr` excludes it.
use nexus_core_devops_engine.Base.{
  ℕ, ◌+◌, ◌*◌, ◌/◌, ◌%◌, List, take, drop, replicate, overwrite, ltb, if◌then◌else◌, u32_mod,
}

abbrev pub Edge : Type 0
Edge = ℕ × ℕ

-- The messages of the `Err` results.
pub data CsrError : Type 0 where
  insufficient_memory corrupted_header edge_capacity_exhausted node_id_exceeds_capacity : CsrError
  row_ptr_out_of_range scatter_out_of_capacity invalid_node_id : CsrError

-- A `Result`, or the panic of a slice index out of range.
pub data Outcome (A : Type 0) : Type 0 where
  ok : A → Outcome A
  err : CsrError → Outcome A
  panic : Outcome A

abbrev pub header_magic : ℕ
header_magic = 0xC5B0_4E58_5553_0001

pub record CsrHeader : Type 0 where
  pub magic : ℕ
  pub node_capacity : ℕ
  pub edge_capacity : ℕ
  pub node_count : ℕ
  pub edge_count : ℕ
  pub row_ptr_offset : ℕ
  pub col_idx_offset : ℕ
  pub bump_watermark : ℕ
  pub generation : ℕ

pub record CsrGraph : Type 0 where
  pub hdr : CsrHeader
  pub mem : List ℕ
  pub mem_len : ℕ

unfoldable pub required_bytes : ℕ → ℕ → ℕ
required_bytes node_cap edge_cap = 64 + (node_cap + 1) * 4 + edge_cap * 4

-- `required_bytes` is computed with usize, the offsets in the header with u32.
unfoldable pub init_header : ℕ → ℕ → CsrHeader
init_header node_cap edge_cap =
    let col = (64 + (node_cap + 1) * 4) % u32_mod in
    record {
      magic = header_magic;
      node_capacity = node_cap;
      edge_capacity = edge_cap;
      node_count = 0;
      edge_count = 0;
      row_ptr_offset = 64;
      col_idx_offset = col;
      bump_watermark = (col + edge_cap * 4) % u32_mod;
      generation = 0;
    }

unfoldable pub init : List ℕ → ℕ → ℕ → ℕ → Outcome CsrGraph
init memory mem_len node_cap edge_cap =
    if ltb mem_len (required_bytes node_cap edge_cap)
    then err insufficient_memory
    else ok (record {
      hdr = init_header node_cap edge_cap;
      mem = overwrite (64 / 4) (replicate ((node_cap + 1) % u32_mod) 0) memory;
      mem_len = mem_len;
    })

-- The slice of `len` cells at a byte offset.
abbrev cells_at : List ℕ → ℕ → ℕ → List ℕ
cells_at mem offset len = take len (drop (offset / 4) mem)

unfoldable pub row_ptr_slice : CsrGraph → List ℕ
row_ptr_slice g = cells_at g.mem g.hdr.row_ptr_offset (g.hdr.node_capacity + 1)

unfoldable pub col_idx_slice : CsrGraph → List ℕ
col_idx_slice g = cells_at g.mem g.hdr.col_idx_offset g.hdr.edge_count

unfoldable pub col_idx_slice_mut : CsrGraph → List ℕ
col_idx_slice_mut g = cells_at g.mem g.hdr.col_idx_offset g.hdr.edge_capacity

unfoldable pub generation : CsrGraph → ℕ
generation g = g.hdr.generation

unfoldable pub edge_count : CsrGraph → ℕ
edge_count g = g.hdr.edge_count

unfoldable pub node_count : CsrGraph → ℕ
node_count g = g.hdr.node_count

unfoldable pub watermark : CsrGraph → ℕ
watermark g = g.hdr.bump_watermark

unfoldable pub memory_len : CsrGraph → ℕ
memory_len g = g.mem_len
