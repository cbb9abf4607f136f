-- ===== src/Host/Pool.antt =====
-- pool.rs: the one pool of the host, and the numbers of its connections.
use Prim.Native.String.{String}
use nexus_core_devops_engine.Base.{
  ℕ, Bool, false, ◌+◌, ◌%◌, min, [], ◌∷◌, Option, none, some, u32_mod,
}
use nexus_core_devops_engine.Base.Text.{Text, lit}
use nexus_core_devops_engine.Host.Effects.{
  PoolConfig, build_pool, query, get_connection, World, Action, map_err, perform,
}

-- `ConnectionPool::new` builds a pool of this configuration; times are in seconds.
abbrev pub pool_config : String → String → String → ℕ → PoolConfig
pool_config url ns db max_size = record {
  url = url;
  ns = ns;
  db = db;
  max_size = max_size;
  min_idle = min 4 max_size;
  connection_timeout = 60;
  idle_timeout = 300;
}

abbrev pub pool_error : Text
pool_error = lit "pool error: " ∷ []

-- `has_broken`
abbrev pub has_broken : Bool
has_broken = false

module _ (w : World) where
  unfoldable pub new_pool : String → String → String → ℕ → Action w.Error (Unit {0})
  new_pool url ns db max_size = perform w (build_pool (pool_config url ns db max_size))

  -- `ConnectionPool::get` of the pool at an address.
  unfoldable pub get : String → Action w.Error (Unit {0})
  get url = map_err (w.quoting pool_error) (perform w (get_connection url))

  -- `ManageConnection::is_valid`, the health check of an idle connection.
  unfoldable pub is_valid : Action w.Error (Unit {0})
  is_valid = perform w (query "SELECT 1")

-- `ManageConnection::connect`: the answers to `connect` and to `use_ns` … `use_db`; a connection gets
-- the next number of the atomic counter, one that fails takes none.
unfoldable pub connect : {E : Type 0} → Option E → Option E → ℕ → Option ℕ × ℕ
connect none none slot_counter = (some slot_counter, (slot_counter + 1) % u32_mod)
connect none (some e) slot_counter = (none, slot_counter)
connect (some e) _ slot_counter = (none, slot_counter)
