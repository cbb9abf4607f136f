-- ===== src/Host/Server.antt =====
-- metrics.rs: the background thread with its heartbeat, and what its server answers. The file of the page
-- is read for each request, and the text of the metrics is made by the library.
use text.Mathlib.Text.{◌==◌ as str_eq}
use Prim.Native.String.{String}
use nexus_core_devops_engine.Base.{ℕ, List, ◌∷◌, Option, none, some, replicate, if◌then◌else◌}
use nexus_core_devops_engine.Host.Effects.{
  bind, http_serve, World, Result, ok, err, Action, pure, attempt, ◌>>=◌, ◌>>◌, perform,
}
use nexus_core_devops_engine.Host.Metrics.{MetricEvent, started, heartbeat}

-- `spawn_background` after some beats: the start, and one beat each two seconds.
abbrev pub spawn_background : {F : Type 0} → ℕ → List (MetricEvent F)
spawn_background beats = started ∷ replicate beats heartbeat

abbrev no_page : String
no_page =
    "<!DOCTYPE html><html><head><meta charset=\"utf-8\"/><title>NexusCore</title></head>\n<body style=\"background:#0f1419;color:#e6edf3;font-family:system-ui;padding:1.5rem\">\n<h1>Dashboard</h1><p>Could not read <code>viz/index.html</code> from the current directory. Run the host from the workspace root (<code>nexuscore-day1/</code>).</p>\n<p><a href=\"/metrics\">/metrics</a></p></body></html>"

unfoldable pub dashboard_handler : Option String → String
dashboard_handler (some html) = html
dashboard_handler none = no_page

-- The answers to GET requests; the router answers any other path itself.
unfoldable pub route : Option String → String → String → Option String
unfolding dashboard_handler
route page metrics path =
    if str_eq path "/"
    then some (dashboard_handler page)
    else if str_eq path "/metrics"
    then some metrics
    else none

module _ (w : World) where
  -- A port that cannot be bound ends the server, as does an error of its own; both are only printed.
  unfoldable pub serve_on : Result w.Error (Unit {0}) → Action w.Error (Unit {0})
  serve_on (ok _) = do attempt (perform w http_serve); pure tt
  serve_on (err e) = pure tt

  unfoldable pub run_http_server : ℕ → Action w.Error (Unit {0})
  unfolding serve_on
  run_http_server port = do r ← attempt (perform w (bind port)); serve_on r
