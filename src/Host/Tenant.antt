-- ===== src/Host/Tenant.antt =====
-- tenant.rs: the event loop of the runtime.
use Prim.Native.String.{String}
use nexus_core_devops_engine.Host.Effects.{
  query, ctrl_c, World, Result, ok, err, Action, pure, attempt, ◌>>=◌, ◌>>◌, perform,
}
use nexus_core_devops_engine.Host.Pool.{get}

abbrev demo_tenant : String
demo_tenant = "INSERT INTO tenant { id: tenant:demo, name: 'Demo Corp', plan: 'enterprise' };"

abbrev demo_user : String
demo_user = "INSERT INTO user { id: user:alice, email: 'alice@demo.com', tenant_id: tenant:demo };"

module _ (w : World) where
  -- Demo data, if the connection answers; its failures are ignored.
  unfoldable pub seed : Result w.Error (Unit {0}) → Action w.Error (Unit {0})
  seed (err e) = pure tt
  seed (ok _) = do
    attempt (perform w (query demo_tenant))
    attempt (perform w (query demo_user))
    pure tt

  unfoldable pub try_connection : Result w.Error (Unit {0}) → Action w.Error (Unit {0})
  unfolding seed
  try_connection (err e) = pure tt
  try_connection (ok _) = do r ← attempt (perform w (query "SELECT VALUE 1;")); seed r

  unfoldable pub run_event_loop : String → Action w.Error (Unit {0})
  unfolding try_connection get
  run_event_loop url = do r ← attempt (get w url); try_connection r; perform w ctrl_c
