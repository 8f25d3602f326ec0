-- ===== src/Core/ComponentRegistry/Severity.antt =====
-- core/component_registry.rs: the overall status as the worst severity, and what a report changes.
use Prim.Native.Nat.{max}
use topdesk_mcp_rs.Core.ComponentRegistry.{
  ComponentStatus, healthy, degraded, unhealthy, ComponentState, ComponentRegistry, report,
  critical_or_false, is_unhealthy, is_healthy, values, overall_status, snapshot,
}
use topdesk_mcp_rs.Shared.{
  ℕ, String, not, ◌&&◌, Option, some, List, [], ◌∷◌, ◌≡◌, refl, arith, if◌then◌else◌, any, str_eq,
}
use topdesk_mcp_rs.Shared.Dict
use topdesk_mcp_rs.Shared.Dict.{get-insert}

-- How bad a status of the whole is.
abbrev pub rank : ComponentStatus → ℕ
rank healthy = 0
rank degraded = 1
rank unhealthy = 2

-- How much a component weighs: an optional one can only degrade the whole.
abbrev pub severity : ComponentState → ℕ
severity c = if c.critical then rank c.status else (if is_healthy c.status then 0 else 1)

abbrev pub worst : List ComponentState → ℕ
worst [] = 0
worst (c ∷ cs) = max (severity c) (worst cs)

worst-cases :
    (cs : List ComponentState)
    → worst cs ≡ (
        if any (λ c. c.critical && is_unhealthy c.status) cs
        then 2
        else if any (λ c. not (is_healthy c.status)) cs
        then 1
        else 0)
worst-cases [] = refl
worst-cases (c ∷ cs) = ground (arith, worst-cases cs)

-- The overall status is the worst severity of the components, in whatever order the map lists
-- them: a critical component counts with its status, an optional one at most as degraded.
pub rank-overall_status : (r : ComponentRegistry) → rank (overall_status r) ≡ worst (snapshot r)
unfolding overall_status snapshot
rank-overall_status r = ground (arith, worst-cases (values r.components))

-- A report sets the status, the instant and the error of the named component, keeps whether it
-- is critical (an unknown one is not), and leaves every other component as it was.
pub get-report :
    (name other : String) (status : ComponentStatus) (error : Option String) (now : ℕ)
    (r : ComponentRegistry)
    → Dict.get other (report name status error now r).components ≡ (
        if str_eq name other
        then some (record {
          name = name;
          critical = critical_or_false (Dict.get name r.components);
          status = status;
          last_checked_at = some now;
          last_error = error;
        })
        else Dict.get other r.components)
unfolding report
get-report name other status error now r = get-insert name other _ r.components
