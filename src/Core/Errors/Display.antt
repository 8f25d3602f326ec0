-- ===== src/Core/Errors/Display.antt =====
-- core/errors.rs: what a validation error shows to the caller.
use Prim.Native.String.{◌++◌}
use topdesk_mcp_rs.Json.{Value, string, array, to_items, items-to_items}
use topdesk_mcp_rs.Core.Errors.{validation, strings_of, join, format_validation_details, to_string}
use topdesk_mcp_rs.Shared.{String, some, List, [], ◌∷◌, map, ◌≡◌, refl, ap}

-- `json!(errors)` for a list of texts.
abbrev pub json_strings : List String → Value
json_strings errors = array (to_items (map string errors))

strings_of-map-string : (errors : List String) → strings_of (map string errors) ≡ errors
unfolding strings_of
strings_of-map-string [] = refl
strings_of-map-string (e ∷ errors) = ap (◌∷◌ e) (strings_of-map-string errors)

-- The text of a validation error with a non-empty list of violations is the message, ": " and
-- every violation in order, separated by "; ".
pub to_string-violations :
    (text e : String) (errors : List String)
    → to_string (validation text (some (json_strings (e ∷ errors))))
      ≡ text ++ (": " ++ join "; " (e ∷ errors))
unfolding to_string format_validation_details
to_string-violations text e errors =
    rw (items-to_items (map string errors), strings_of-map-string (e ∷ errors))
