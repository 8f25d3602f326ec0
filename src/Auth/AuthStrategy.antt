-- ===== src/Auth/AuthStrategy.antt =====
-- auth/auth_strategy.rs, auth/request_credentials.rs and auth/strategies/: credentials as maps, and
-- the strategies. Base64 is a library's, and is a parameter.
use Prim.Native.String.{◌++◌}
use topdesk_mcp_rs.Core.Errors.{AnyError, auth, message, missing_credentials}
use topdesk_mcp_rs.Shared.{
  String, Bool, true, false, not, ◌&&◌, ◌||◌, Option, none, some, [], Result, ok, err, ok_or, ◌>>=◌,
  str_eq,
}
use topdesk_mcp_rs.Shared.Dict
use topdesk_mcp_rs.Shared.Dict.{Dict}

abbrev pub Credentials : Type 0
Credentials = Dict String

abbrev pub AuthConfig : Type 0
AuthConfig = Dict String

-- The trait, as a record of its methods.
pub record AuthStrategy : Type 0 where
  pub authenticate : AuthConfig → Result AnyError Credentials
  pub refresh_token : Credentials → Result AnyError Credentials
  pub validate_credentials : Credentials → Bool

-- The trait's default.
unfoldable pub refresh_unsupported : Credentials → Result AnyError Credentials
refresh_unsupported credentials = err (message "this auth strategy does not support token refresh")

-- `is_some_and(|text| !text.is_empty())`
abbrev pub is_non_empty : Option String → Bool
is_non_empty none = false
is_non_empty (some text) = not (str_eq text "")

abbrev pub missing : AnyError
missing = auth (missing_credentials "username, password")

unfoldable pub basic_authenticate : (String → String) → AuthConfig → Result AnyError Credentials
basic_authenticate encode config = do
  username ← ok_or (Dict.get "username" config) missing
  password ← ok_or (Dict.get "password" config) missing
  let token = encode (username ++ (":" ++ password))
  ok (
      Dict.insert "authorization_header" ("Basic " ++ token)
        (Dict.insert "password" password (Dict.insert "username" username [])))

unfoldable pub basic_validate : Credentials → Bool
basic_validate credentials =
    Dict.contains_key "authorization_header" credentials
    || (is_non_empty (Dict.get "username" credentials)
        && is_non_empty (Dict.get "password" credentials))

abbrev pub basic_strategy : (String → String) → AuthStrategy
basic_strategy encode = record {
  authenticate = basic_authenticate encode;
  refresh_token = refresh_unsupported;
  validate_credentials = basic_validate;
}

abbrev pub stub_strategy : AuthStrategy
stub_strategy = record {
  authenticate = λ config. ok [];
  refresh_token = refresh_unsupported;
  validate_credentials = λ credentials. true;
}

-- What one HTTP request carried.
pub record RequestCredentials : Type 0 where
  pub header_name : String
  pub value : String

unfoldable pub into_credentials_map : RequestCredentials → Credentials
into_credentials_map r =
    Dict.insert "request_header_value" r.value (Dict.insert "request_header_name" r.header_name [])
