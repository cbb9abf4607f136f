-- ===== src/Engine/Http.antt =====
-- lesson3/nexuscore-day3/src/host/src/main.rs: what the host answers to GET requests. The file of the
-- page is read for each request; the router answers any other path itself.
use text.Mathlib.Text.{◌==◌ as str_eq}
use Prim.Native.String.{String}
use nexus_core_devops_engine.Base.{
  ℕ, ◌≡◌, refl, ◌⊎◌, inl, inr, Option, none, some, if◌then◌else◌, Bool-cases,
}
use nexus_core_devops_engine.Base.Float.{Float}
use nexus_core_devops_engine.Engine.Blob.{GraphEngine}
use nexus_core_devops_engine.Engine.Agg.{DashboardMetrics}
use nexus_core_devops_engine.Engine.Service.{Service, show_metrics}

pub data Reply (fl : Float) : Type 0 where
  html : String → Reply fl
  plain : ℕ → String → Reply fl
  json : DashboardMetrics fl → Reply fl

module _ (fl : Float) where
  -- The page, from what was read of its file.
  unfoldable pub index_html : Option String → Reply fl
  index_html (some page) = html page
  index_html none = plain 404 "Missing data/visualizer.html (run from nexuscore-day3 root)"

  abbrev pub metrics_reply : Service fl.F × DashboardMetrics fl → Service fl.F × Option (Reply fl)
  metrics_reply (s, metrics) = (s, some (json metrics))

  unfoldable pub respond :
      Option GraphEngine
      → ℕ
      → ℕ
      → Option String
      → String
      → Service fl.F
      → Service fl.F × Option (Reply fl)
  unfolding index_html
  respond graph now started page path s =
      if str_eq path "/"
      then (s, some (index_html page))
      else if str_eq path "/api/metrics"
      then metrics_reply (show_metrics fl graph now started s)
      else if str_eq path "/healthz"
      then (s, some (plain 200 "ok"))
      else (s, none)

  -- A request leaves the state that it found, or the one that a call for the metrics leaves.
  pub respond_state :
      (graph : Option GraphEngine) (now started : ℕ) (page : Option String) (path : String)
      (s : Service fl.F)
      → ((respond graph now started page path s).0 ≡ s)
        ⊎ ((respond graph now started page path s).0 ≡ (show_metrics fl graph now started s).0)
  unfolding respond
  respond_state graph now started page path s = elim (Bool-cases (str_eq path "/")) [
    | inl index ↦ rw (respond, index) (inl refl)
    | inr other ↦ elim (Bool-cases (str_eq path "/api/metrics")) [
      | inl metrics ↦ rw (respond, other, metrics) (inr refl)
      | inr other' ↦ elim (Bool-cases (str_eq path "/healthz")) [
        | inl health ↦ rw (respond, other, other', health) (inl refl)
        | inr unknown ↦ rw (respond, other, other', unknown) (inl refl)
      ]
    ]
  ]
