-- ===== src/Core/HealthCheckManager/Rounds.antt =====
-- core/health_check_manager.rs: what a round of checks leaves in the registry.
use topdesk_mcp_rs.Core.ComponentRegistry.{
  ComponentRegistry, ComponentStatus, healthy, unhealthy, critical_or_false,
}
use topdesk_mcp_rs.Core.ComponentRegistry.Severity.{get-report}
use topdesk_mcp_rs.Core.HealthCheckManager.{
  CheckOutcome, passed, failed, timed_out, RegisteredCheck, HealthCheckManager, report_outcome,
  run_checks, run_once,
}
use topdesk_mcp_rs.Shared.{
  ℕ, String, Bool, Option, none, some, List, [], ◌∷◌, ◌≡◌, refl, ◌∙◌, arith, str_eq, eq_iff,
  if◌then◌else◌,
}
use topdesk_mcp_rs.Shared.Dict
use topdesk_mcp_rs.Shared.Dict.{Dict}

abbrev pub status_of : CheckOutcome → ComponentStatus
status_of passed = healthy
status_of _ = unhealthy

-- The status that the registry has for a component, if it knows it.
abbrev pub status_in : String → ComponentRegistry → Option ComponentStatus
status_in name r = elim (Dict.get name r.components) [ none ↦ none | some c ↦ some c.status ]

abbrev pub critical_in : String → ComponentRegistry → Bool
critical_in name r = critical_or_false (Dict.get name r.components)

module _ {W : Type 0} (clock : W → ℕ) where
  -- The statuses that the checks of a round find, in order.
  unfoldable pub found : List (RegisteredCheck W) → W → Dict ComponentStatus
  found [] w = []
  found (c ∷ cs) w = let (w', outcome) = c.check w in (c.name, status_of outcome) ∷ found cs w'

  status_in-report_outcome :
      (name other : String) (outcome : CheckOutcome) (now : ℕ) (r : ComponentRegistry)
      → status_in other (report_outcome name outcome now r)
        ≡ (if str_eq name other then some (status_of outcome) else status_in other r)
  unfolding report_outcome
  status_in-report_outcome name other passed now r =
      ground (arith, get-report name other healthy none now r)
  status_in-report_outcome name other (failed e) now r =
      ground (arith, get-report name other unhealthy (some e) now r)
  status_in-report_outcome name other timed_out now r =
      ground (arith, get-report name other unhealthy (some "timed out") now r)

  critical_in-report_outcome :
      (name other : String) (outcome : CheckOutcome) (now : ℕ) (r : ComponentRegistry)
      → critical_in other (report_outcome name outcome now r) ≡ critical_in other r
  unfolding report_outcome
  critical_in-report_outcome name other passed now r =
      ground (arith, get-report name other healthy none now r, eq_iff name other)
  critical_in-report_outcome name other (failed e) now r =
      ground (arith, get-report name other unhealthy (some e) now r, eq_iff name other)
  critical_in-report_outcome name other timed_out now r =
      ground (arith, get-report name other unhealthy (some "timed out") now r, eq_iff name other)

  status_in-run_checks :
      (name : String) (cs : List (RegisteredCheck W)) (w : W) (r : ComponentRegistry)
      → status_in name (run_checks clock cs w r).1
        ≡ Dict.or_else (Dict.get_last name (found cs w)) (status_in name r)
  unfolding run_checks found
  status_in-run_checks name [] w r = refl
  status_in-run_checks name (c ∷ cs) w r = ground (
    arith,
    status_in-run_checks name cs (c.check w).0
        (report_outcome c.name (c.check w).1 (clock (c.check w).0) r),
    status_in-report_outcome c.name name (c.check w).1 (clock (c.check w).0) r,
  )

  -- After a round, the status of a component is what the last check of its name found: healthy
  -- if it passed, unhealthy if it failed or timed out; a component without a check keeps its
  -- status.
  pub status_in-run_once :
      (name : String) (m : HealthCheckManager W) (w : W)
      → status_in name (run_once clock m w).1.registry
        ≡ Dict.or_else (Dict.get_last name (found m.checks w)) (status_in name m.registry)
  unfolding run_once
  status_in-run_once name m w = status_in-run_checks name m.checks w m.registry

  critical_in-run_checks :
      (name : String) (cs : List (RegisteredCheck W)) (w : W) (r : ComponentRegistry)
      → critical_in name (run_checks clock cs w r).1 ≡ critical_in name r
  unfolding run_checks
  critical_in-run_checks name [] w r = refl
  critical_in-run_checks name (c ∷ cs) w r =
      critical_in-run_checks name cs (c.check w).0
        (report_outcome c.name (c.check w).1 (clock (c.check w).0) r)
      ∙ critical_in-report_outcome c.name name (c.check w).1 (clock (c.check w).0) r

  -- A round never changes whether a component is critical.
  pub critical_in-run_once :
      (name : String) (m : HealthCheckManager W) (w : W)
      → critical_in name (run_once clock m w).1.registry ≡ critical_in name m.registry
  unfolding run_once
  critical_in-run_once name m w = critical_in-run_checks name m.checks w m.registry
