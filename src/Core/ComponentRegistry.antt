-- ===== src/Core/ComponentRegistry.antt =====
-- core/component_registry.rs: the health of every registered component.
pub mod Severity
use topdesk_mcp_rs.Shared.{
  ℕ, String, Bool, true, false, not, ◌&&◌, Option, none, some, List, [], ◌∷◌, map, if◌then◌else◌,
  any,
}
use topdesk_mcp_rs.Shared.Dict
use topdesk_mcp_rs.Shared.Dict.{Dict}

pub data ComponentStatus : Type 0 where
  healthy degraded unhealthy : ComponentStatus

pub record ComponentState : Type 0 where
  pub name : String
  pub critical : Bool
  pub status : ComponentStatus
  pub last_checked_at : Option ℕ
  pub last_error : Option String

pub record ComponentRegistry : Type 0 where
  pub components : Dict ComponentState

unfoldable pub new : ComponentRegistry
new = record { components = [] }

unfoldable pub register : String → Bool → ComponentRegistry → ComponentRegistry
register name critical r = record r {
  components =
      Dict.insert name
        (record {
          name = name;
          critical = critical;
          status = healthy;
          last_checked_at = none;
          last_error = none;
        })
        r.components;
}

-- `map(critical).unwrap_or(false)`
abbrev pub critical_or_false : Option ComponentState → Bool
critical_or_false none = false
critical_or_false (some existing) = existing.critical

unfoldable pub report :
    String → ComponentStatus → Option String → ℕ → ComponentRegistry → ComponentRegistry
report name status error now r = record r {
  components =
      Dict.insert name
        (record {
          name = name;
          critical = critical_or_false (Dict.get name r.components);
          status = status;
          last_checked_at = some now;
          last_error = error;
        })
        r.components;
}

abbrev pub is_unhealthy : ComponentStatus → Bool
is_unhealthy unhealthy = true
is_unhealthy _ = false

abbrev pub is_healthy : ComponentStatus → Bool
is_healthy healthy = true
is_healthy _ = false

-- `components.values()`
abbrev pub values : Dict ComponentState → List ComponentState
values [] = []
values ((k, c) ∷ m) = c ∷ values m

unfoldable pub overall_status : ComponentRegistry → ComponentStatus
overall_status r =
    if any (λ c. c.critical && is_unhealthy c.status) (values r.components)
    then unhealthy
    else if any (λ c. not (is_healthy c.status)) (values r.components)
    then degraded
    else healthy

unfoldable pub snapshot : ComponentRegistry → List ComponentState
snapshot r = values r.components
