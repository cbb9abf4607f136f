-- ===== src/Host/Commands.antt =====
-- main.rs: the commands, and the check command. What the checks find is an argument, as are the clocks;
-- the colours of the printed lines are left out.
use nexus_core_devops_engine.Base.{ℕ, zero, suc, ◌+◌, Bool, List, [], ◌∷◌, Option, none, some}
use nexus_core_devops_engine.Base.Float.{Float}
use nexus_core_devops_engine.Base.Text.{codes}
use nexus_core_devops_engine.Bench.Terminal.{trim}
use nexus_core_devops_engine.Host.Effects.{Call, World, Result}
use nexus_core_devops_engine.Host.Url.{Urls}
use nexus_core_devops_engine.Host.Startup.{StartArgs}
use nexus_core_devops_engine.Host.Startup
use nexus_core_devops_engine.Host.Stress.{StressReport, run_stress}
use nexus_core_devops_engine.Host.Demo.{Demo, run_demo}

-- The subcommands, with their arguments.
pub data Command : Type 0 where
  start : StartArgs → Command
  demo : (tenants rps : ℕ) → Command
  verify : Command
  stress : (tenants duration : ℕ) → Command

-- What `run_verify` finds: whether the database and the pinned map are there, and the output of the
-- program that counts the sockets, if it could be run.
pub record Findings : Type 0 where
  pub reachable : Bool
  pub map_exists : Bool
  pub sockets_output : Option (List ℕ)

pub record Verification : Type 0 where
  pub surreal_reachable : Bool
  pub map_pinned : Bool
  pub connections : List ℕ

unfoldable count_text : Option (List ℕ) → List ℕ
count_text none = codes "N/A"
count_text (some output) = trim output

unfoldable pub run_verify : Findings → Verification
unfolding count_text
run_verify found = record {
  surreal_reachable = found.reachable;
  map_pinned = found.map_exists;
  connections = count_text found.sockets_output;
}

-- The readings of the clocks: those of the demo, of each tenant of the stress test, and of its progress
-- loop.
pub record Clocks : Type 0 where
  pub demo_clock : List ℕ
  pub tenant_clock : ℕ → List ℕ
  pub progress_clock : List (ℕ × ℕ)

-- The readings of the tenants `0..tenants`.
unfoldable tenant_readings : Clocks → ℕ → ℕ → List (List ℕ)
tenant_readings clocks tid zero = []
tenant_readings clocks tid (suc n) = clocks.tenant_clock tid ∷ tenant_readings clocks (tid + 1) n

-- What the program has done when it ends; a panic of the stress test is `none`.
pub data Ran (w : World) (fl : Float) : Type 0 where
  hosted : Result w.Error (Unit {0}) × List Call → Ran w fl
  shown : Demo fl → Ran w fl
  verified : Verification → Ran w fl
  stressed : Option StressReport → Ran w fl

unfoldable pub main : (w : World) (fl : Float) → Urls → Findings → Clocks → Command → Ran w fl
unfolding tenant_readings
main w fl u found clocks (start args) = hosted (Startup.start w args u [])
main w fl u found clocks (demo tenants rps) = shown (run_demo fl tenants rps clocks.demo_clock)
main w fl u found clocks verify = verified (run_verify found)
main w fl u found clocks (stress tenants duration) =
    stressed (run_stress duration (tenant_readings clocks 0 tenants) clocks.progress_clock)
