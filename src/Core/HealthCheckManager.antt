-- ===== src/Core/HealthCheckManager.antt =====
-- core/health_check_manager.rs: registered checks and one round of them. A check acts on a world
-- with a clock; its outcome stands for that of `tokio::time::timeout`.
pub mod Rounds
use topdesk_mcp_rs.Core.ComponentRegistry.{
  ComponentRegistry, ComponentStatus, healthy, unhealthy, report,
}
use topdesk_mcp_rs.Core.ComponentRegistry
use topdesk_mcp_rs.Shared.{ℕ, zero, suc, String, Bool, Option, none, some, List, [], ◌∷◌, ◌++◌}

pub data CheckOutcome : Type 0 where
  passed : CheckOutcome
  failed : String → CheckOutcome
  timed_out : CheckOutcome

pub record RegisteredCheck (W : Type 0) : Type 0 where
  pub name : String
  pub check : W → W × CheckOutcome

-- The registry is shared; here it stands in the manager.
pub record HealthCheckManager (W : Type 0) : Type 0 where
  pub registry : ComponentRegistry
  pub checks : List (RegisteredCheck W)

-- Milliseconds.
abbrev pub default_interval : ℕ
default_interval = 30000

abbrev pub default_timeout : ℕ
default_timeout = 5000

-- The arm of the `match` on an outcome.
unfoldable pub report_outcome : String → CheckOutcome → ℕ → ComponentRegistry → ComponentRegistry
report_outcome name passed now r = report name healthy none now r
report_outcome name (failed error) now r = report name unhealthy (some error) now r
report_outcome name timed_out now r = report name unhealthy (some "timed out") now r

module _ {W : Type 0} where
  unfoldable pub new : ComponentRegistry → HealthCheckManager W
  new registry = record { registry = registry; checks = [] }

  unfoldable pub register :
      String → Bool → (W → W × CheckOutcome) → HealthCheckManager W → HealthCheckManager W
  register name critical check m = record {
    registry = ComponentRegistry.register name critical m.registry;
    checks = m.checks ++ record { name = name; check = check } ∷ [];
  }

  module _ (clock : W → ℕ) where
    unfoldable pub run_checks :
        List (RegisteredCheck W) → W → ComponentRegistry → W × ComponentRegistry
    run_checks [] w r = (w, r)
    run_checks (c ∷ cs) w r =
        let (w', outcome) = c.check w in
        run_checks cs w' (report_outcome c.name outcome (clock w') r)

    unfoldable pub run_once : HealthCheckManager W → W → W × HealthCheckManager W
    run_once m w =
        let (w', registry) = run_checks m.checks w m.registry in
        (w', record m { registry = registry })

    -- The first rounds of the periodic loop; `tick` waits for the interval.
    unfoldable pub run_ticks : (W → W) → ℕ → HealthCheckManager W → W → W × HealthCheckManager W
    unfolding run_once
    run_ticks tick zero m w = (w, m)
    run_ticks tick (suc n) m w = let (w', m') = run_ticks tick n m w in run_once m' (tick w')
