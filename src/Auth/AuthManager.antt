-- ===== src/Auth/AuthManager.antt =====
-- auth/auth_manager.rs: the credential cascade and the headers of an outgoing request. The
-- environment and the credential storage act on a world; JSON and base64 are libraries'.
pub mod Basics
pub mod Cascade
pub mod Headers
pub mod Stored
use Prim.Native.String.{◌++◌}
use topdesk_mcp_rs.Auth.AuthStrategy.{
  Credentials, AuthConfig, AuthStrategy, basic_strategy, RequestCredentials, into_credentials_map,
}
use topdesk_mcp_rs.Core.ConfigSchema.{AuthMethod, basic, Transport, stdio, http}
use topdesk_mcp_rs.Core.Errors.{AnyError, auth, message, no_active_credentials}
use topdesk_mcp_rs.Shared.{
  String, Bool, true, false, ◌&&◌, ◌||◌, Option, none, some, [], Result, ok, err, ◌>>=◌, ◌>>◌,
  if◌then◌else◌,
}
use topdesk_mcp_rs.Shared.Dict
use topdesk_mcp_rs.Shared.Dict.{Dict}

abbrev pub credential_account : String
credential_account = "active-credentials"

-- What the manager asks of its surroundings: environment variables, the credential storage
-- (core/credential_storage.rs), the JSON of a credentials map, and base64.
pub record Surroundings (W : Type 0) : Type 0 where
  pub env_var : W → String → Option String
  pub load_credential : String → W → Result AnyError (Option String)
  pub save_credential : String → String → W → W × Result AnyError (Unit {0})
  pub to_json : Credentials → Result AnyError String
  pub from_json : String → Result AnyError Credentials
  pub encode : String → String

pub record AuthManager : Type 0 where
  pub auth_method : AuthMethod
  pub strategy : AuthStrategy
  pub cached_credentials : Option Credentials

unfoldable pub header_location_for : AuthMethod → String × String
header_location_for basic = ("header", "Authorization")

-- `{:?}` of an auth method.
abbrev pub debug_name : AuthMethod → String
debug_name basic = "Basic"

unfoldable pub set_credentials : Credentials → AuthManager → AuthManager
set_credentials credentials m = record m { cached_credentials = some credentials }

unfoldable pub strategy_for : (String → String) → AuthMethod → AuthStrategy
strategy_for encode basic = basic_strategy encode

unfoldable pub new : (String → String) → AuthMethod → AuthManager
unfolding strategy_for
new encode auth_method = record {
  auth_method = auth_method;
  strategy = strategy_for encode auth_method;
  cached_credentials = none;
}

unfoldable pub normalize_credentials : AuthManager → Credentials → Result AnyError Credentials
normalize_credentials m credentials =
    if Dict.contains_key "authorization_header" credentials
      || (Dict.contains_key "api_key" credentials
          || Dict.contains_key "request_header_name" credentials)
    then ok credentials
    else elim (Dict.get "access_token" credentials) [
      | some access_token ↦
          ok (Dict.insert "authorization_header" ("Bearer " ++ access_token) credentials)
      | none ↦ m.strategy.authenticate credentials
    ]

-- The end of `apply_auth_headers`: the header for an authorization header or an API key.
decorate_own : Credentials → Dict String → Dict String
decorate_own credentials headers = elim (Dict.get "authorization_header" credentials) [
  | some header ↦ Dict.insert "Authorization" header headers
  | none ↦ elim (Dict.get "api_key" credentials) [
    | some api_key ↦
        let name : String = elim (Dict.get "request_header_name" credentials) [
          | some given ↦ given
          | none ↦ "X-Api-Key"
        ] in
        Dict.insert name api_key headers
    | none ↦ headers
  ]
]

-- A name and a value relayed from the request come first.
unfoldable pub decorate : Credentials → Dict String → Dict String
unfolding decorate_own
decorate credentials headers = elim (Dict.get "request_header_name" credentials) [
  | none ↦ decorate_own credentials headers
  | some name ↦ elim (Dict.get "request_header_value" credentials) [
    | none ↦ decorate_own credentials headers
    | some value ↦ Dict.insert name value headers
  ]
]

module _ {W : Type 0} (s : Surroundings W) where
  unfoldable pub credentials_from_env : AuthMethod → W → Option AuthConfig
  credentials_from_env basic w = elim (s.env_var w "TOPDESK_MCP_USERNAME") [
    | none ↦ none
    | some username ↦ elim (s.env_var w "TOPDESK_MCP_PASSWORD") [
      | none ↦ none
      | some password ↦ some (Dict.insert "password" password (Dict.insert "username" username []))
    ]
  ]

  -- Caches the credentials and saves them: the cache keeps them if saving fails.
  unfoldable pub remember :
      AuthManager → Credentials → W → AuthManager × W × Result AnyError Credentials
  remember m credentials w =
      let m' = set_credentials credentials m in
      elim (s.to_json credentials) [
        | err e ↦ (m', w, err e)
        | ok text ↦
            let (w', saved) = s.save_credential credential_account text w in
            (m', w', saved >> ok credentials)
      ]

  unfoldable pub login :
      AuthManager → AuthConfig → W → AuthManager × W × Result AnyError Credentials
  unfolding remember
  login m config w = elim (m.strategy.authenticate config) [
    | err e ↦ (m, w, err e)
    | ok credentials ↦ remember m credentials w
  ]

  -- Normalised and remembered; an error of normalising leaves all as it was.
  adopt : AuthManager → Credentials → W → AuthManager × W × Result AnyError Credentials
  unfolding remember normalize_credentials
  adopt m credentials w = elim (normalize_credentials m credentials) [
    | err e ↦ (m, w, err e)
    | ok normalized ↦ remember m normalized w
  ]

  no_active : AuthManager → W → AuthManager × W × Result AnyError Credentials
  no_active m w = (m, w, err (auth (no_active_credentials (debug_name m.auth_method))))

  -- `exchanged`: refreshed if there is a refresh token, authenticated anew otherwise.
  exchange : AuthManager → Credentials → Result AnyError Credentials
  exchange m parsed =
      if Dict.contains_key "refresh_token" parsed
      then m.strategy.refresh_token parsed
      else m.strategy.authenticate parsed

  -- The stored credentials, once parsed.
  from_parsed : AuthManager → Credentials → W → AuthManager × W × Result AnyError Credentials
  unfolding adopt exchange no_active
  from_parsed m parsed w =
      if m.strategy.validate_credentials parsed
      then adopt m parsed w
      else elim (exchange m parsed) [ ok exchanged ↦ adopt m exchanged w | err e ↦ no_active m w ]

  -- The third source: the credential storage.
  from_storage : AuthManager → W → AuthManager × W × Result AnyError Credentials
  unfolding from_parsed
  from_storage m w = elim (s.load_credential credential_account w) [
    | err e ↦ (m, w, err e)
    | ok none ↦ no_active m w
    | ok (some stored) ↦ elim (s.from_json stored) [
      | err e ↦ (m, w, err e)
      | ok parsed ↦ from_parsed m parsed w
    ]
  ]

  -- The credentials that the environment gives, if they authenticate and are valid.
  env_credentials : AuthManager → W → Option Credentials
  unfolding credentials_from_env
  env_credentials m w = elim (credentials_from_env m.auth_method w) [
    | none ↦ none
    | some config ↦ elim (m.strategy.authenticate config) [
      | err e ↦ none
      | ok from_env ↦ if m.strategy.validate_credentials from_env then some from_env else none
    ]
  ]

  -- The second and third sources.
  from_env_or_storage : AuthManager → W → AuthManager × W × Result AnyError Credentials
  unfolding env_credentials from_storage
  from_env_or_storage m w = elim (env_credentials m w) [
    | some from_env ↦ (set_credentials from_env m, w, ok from_env)
    | none ↦ from_storage m w
  ]

  unfoldable pub credentials : AuthManager → W → AuthManager × W × Result AnyError Credentials
  unfolding from_env_or_storage normalize_credentials
  credentials m w = elim m.cached_credentials [
    | none ↦ from_env_or_storage m w
    | some cached ↦
        if m.strategy.validate_credentials cached
        then (m, w, normalize_credentials m cached)
        else from_env_or_storage m w
  ]

  -- `method` and `url` are not read.
  unfoldable pub apply_auth_headers :
      AuthManager
      → Dict String
      → Transport
      → Option RequestCredentials
      → W
      → AuthManager × W × Result AnyError (Dict String)
  unfolding credentials decorate into_credentials_map
  apply_auth_headers m headers http (some override) w =
      (m, w, ok (decorate (into_credentials_map override) headers))
  apply_auth_headers m headers http none w = (
    m,
    w,
    err (
        message
          "no credentials were supplied on this HTTP request; local config/env/keychain is never used as a fallback over HTTP transport"),
  )
  apply_auth_headers m headers stdio override w =
      let (m', w', found) = credentials m w in (m', w', found >>= λ c. ok (decorate c headers))
