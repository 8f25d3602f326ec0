-- ===== src/Http/Metrics.antt =====
-- http/metrics.rs: the process-wide counters. A counter is a u64, which wraps in a release build.
-- Sorting lines of text and printing a number are the standard library's, and are parameters.
use Prim.Native.String.{◌++◌}
use topdesk_mcp_rs.Core.Errors.{join}
use topdesk_mcp_rs.Shared.{
  ℕ, ◌+◌, ◌%◌, ◌^◌, String, Option, none, some, List, [], ◌∷◌, ◌≡◌, if◌then◌else◌, str_eq,
}
use topdesk_mcp_rs.Shared.{map}
use mathlib.Core.List
use topdesk_mcp_rs.Shared.Dict
use topdesk_mcp_rs.Shared.Dict.{Dict, get-insert}

abbrev pub value_or_zero : Option ℕ → ℕ
value_or_zero none = 0
value_or_zero (some n) = n

unfoldable pub increment : String → Dict ℕ → Dict ℕ
increment name counters =
    Dict.insert name ((value_or_zero (Dict.get name counters) + 1) % 2 ^ 64) counters

unfoldable pub render_metrics : (List String → List String) → (ℕ → String) → Dict ℕ → String
render_metrics sort show counters =
    join "\n" (List.◌++◌ (sort (map (λ c. c.0 ++ (" " ++ show c.1)) counters)) ("" ∷ []))

-- An increment adds one to the named counter, from zero if it is new and around at 2^64, and
-- leaves every other counter as it was.
pub get-increment :
    (name other : String) (counters : Dict ℕ)
    → Dict.get other (increment name counters) ≡ (
        if str_eq name other
        then some ((value_or_zero (Dict.get name counters) + 1) % 2 ^ 64)
        else Dict.get other counters)
unfolding increment
get-increment name other counters = get-insert name other _ counters
