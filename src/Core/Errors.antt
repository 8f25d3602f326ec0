-- ===== src/Core/Errors.antt =====
-- core/errors.rs and auth/errors.rs: the error types, and `anyhow::Error` as their sum.
pub mod Display
use topdesk_mcp_rs.Json.{Value, as_str, as_array}
use topdesk_mcp_rs.Shared.{String, Option, none, some, List, [], ◌∷◌}
use Prim.Native.String.{◌++◌}

pub data McpifyError : Type 0 where
  configuration : String → McpifyError
  authentication : String → McpifyError
  validation : String → Option Value → McpifyError
  not_found : String → McpifyError
  circuit_breaker_open : McpifyError
  rate_limit_exceeded : McpifyError

pub data AuthError : Type 0 where
  missing_credentials : String → AuthError
  token_expired : AuthError
  no_active_credentials : String → AuthError

-- What `anyhow::Error` holds here: one of the two, or a message (`bail!`, a library's error).
-- Two are no errors of the program: `stalled` marks a loop that ran out of the model's fuel, and
-- `panicked` a panic.
pub data AnyError : Type 0 where
  mcpify : McpifyError → AnyError
  auth : AuthError → AnyError
  message : String → AnyError
  -- An error under the message of `with_context`.
  context : String → AnyError → AnyError
  stalled : AnyError
  panicked : AnyError

-- The strings of a JSON array, in order: `filter_map(Value::as_str)`.
unfoldable pub strings_of : List Value → List String
strings_of [] = []
strings_of (v ∷ vs) =
    let rest = strings_of vs in elim (as_str v) [ some s ↦ s ∷ rest | none ↦ rest ]

-- `join(separator)`
unfoldable pub join : String → List String → String
join sep [] = ""
join sep (s ∷ []) = s
join sep (s ∷ t ∷ more) = s ++ (sep ++ join sep (t ∷ more))

joined_details : List Value → String
joined_details [] = ""
joined_details (v ∷ vs) = ": " ++ join "; " (strings_of (v ∷ vs))

unfoldable pub format_validation_details : Option Value → String
unfolding joined_details
format_validation_details none = ""
format_validation_details (some details) = elim (as_array details) [
  | none ↦ ""
  | some errors ↦ joined_details errors
]

unfoldable pub code : McpifyError → String
code (configuration _) = "CONFIGURATION_ERROR"
code (authentication _) = "AUTHENTICATION_ERROR"
code (validation _ _) = "VALIDATION_ERROR"
code (not_found _) = "NOT_FOUND"
code circuit_breaker_open = "CIRCUIT_BREAKER_OPEN"
code rate_limit_exceeded = "RATE_LIMIT_EXCEEDED"

unfoldable pub to_string : McpifyError → String
to_string (configuration s) = s
to_string (authentication s) = s
to_string (validation text details) = text ++ format_validation_details details
to_string (not_found s) = s
to_string circuit_breaker_open = "circuit breaker is open"
to_string rate_limit_exceeded = "rate limit exceeded"

unfoldable pub auth_to_string : AuthError → String
auth_to_string (missing_credentials s) = "missing required credential field(s): " ++ s
auth_to_string token_expired = "access token expired and could not be refreshed"
auth_to_string (no_active_credentials s) =
    "no valid credentials for auth method '" ++ (s ++ "'; run `topdesk-mcp setup`")

unfoldable pub any_to_string : AnyError → String
any_to_string (mcpify e) = to_string e
any_to_string (auth e) = auth_to_string e
any_to_string (message s) = s
any_to_string (context s e) = s
any_to_string stalled = ""
any_to_string panicked = ""
