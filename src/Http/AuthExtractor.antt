-- ===== src/Http/AuthExtractor.antt =====
-- http/auth_extractor.rs and http/localhost_detector.rs: credentials of one request, and which
-- addresses are local. A header value may fail to be text (`to_str`).
use topdesk_mcp_rs.Auth.AuthStrategy.{RequestCredentials}
use topdesk_mcp_rs.Shared.{
  ℕ, String, Bool, not, Option, none, some, Result, ok, err, if◌then◌else◌, str_eq, eqb,
}
use topdesk_mcp_rs.Shared.Dict
use topdesk_mcp_rs.Shared.Dict.{Dict}

pub data ExtractError : Type 0 where
  missing : ExtractError
  unsupported_location : String → ExtractError

-- A header map: names (in the map's normal form), each with its value if it is text. Looking up a
-- name ignores its case, so the normal form is a parameter.
abbrev pub HeaderMap : Type 0
HeaderMap = Dict (Option String)

-- An address: the octets of IPv4, or an IPv6 address as a number.
pub data IpAddr : Type 0 where
  v4 : ℕ → ℕ → ℕ → ℕ → IpAddr
  v6 : ℕ → IpAddr

-- `is_loopback`: 127.0.0.0/8, or ::1.
unfoldable pub is_localhost : IpAddr → Bool
is_localhost (v4 a b c d) = eqb a 127
is_localhost (v6 n) = eqb n 1

-- `and_then(to_str)` and `filter(non-empty)`
abbrev pub usable : Option (Option String) → Option String
usable none = none
usable (some none) = none
usable (some (some text)) = if str_eq text "" then none else some text

module _ (normal : String → String) where
  unfoldable pub extract_request_credentials :
      HeaderMap → String → String → Result ExtractError RequestCredentials
  extract_request_credentials headers header_location header_name =
      if not (str_eq header_location "header")
      then err (unsupported_location header_location)
      else elim (usable (Dict.get (normal header_name) headers)) [
        | none ↦ err missing
        | some value ↦ ok (record { header_name = header_name; value = value })
      ]
