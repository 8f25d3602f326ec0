-- ===== src/Auth/AuthManager/Stored.antt =====
-- auth/auth_manager.rs: credentials that the storage has, on the way to a request's headers.
use Prim.Native.String.{◌++◌}
use topdesk_mcp_rs.Auth.AuthManager.{
  Surroundings, AuthManager, credential_account, apply_auth_headers, credentials,
  credentials_from_env, env_credentials, from_env_or_storage, from_storage, from_parsed, adopt,
  normalize_credentials, remember, decorate, decorate_own,
}
use topdesk_mcp_rs.Auth.AuthManager.Basics.{basic_manager, basic_credentials}
use topdesk_mcp_rs.Auth.AuthStrategy.{Credentials, basic_validate, basic_authenticate}
use topdesk_mcp_rs.Core.ConfigSchema.{stdio}
use topdesk_mcp_rs.Shared.{
  String, true, false, none, some, [], ◌∷◌, ok, str_eq, ◌≡◌, refl, ap, ◌∙◌, arith,
}
use topdesk_mcp_rs.Shared.Dict
use topdesk_mcp_rs.Shared.Dict.{Dict}

-- A user name and a password as the storage has them.
abbrev pub entered : String → String → Credentials
entered username password = ("username", username) ∷ ("password", password) ∷ []

module _ {W : Type 0} (s : Surroundings W) where
  validate-entered :
      (username password : String)
      → str_eq username "" ≡ false
      → str_eq password "" ≡ false
      → basic_validate (entered username password) ≡ true
  unfolding basic_validate
  validate-entered username password u p = rw (u, p) refl

  normalize-entered :
      (username password : String)
      → normalize_credentials (basic_manager s none) (entered username password)
        ≡ ok (basic_credentials s username password)
  unfolding normalize_credentials basic_authenticate
  normalize-entered username password = refl

  adopt-entered :
      (username password text : String) (w : W)
      → s.to_json (basic_credentials s username password) ≡ ok text
      → (s.save_credential credential_account text w).1 ≡ ok tt
      → (adopt s (basic_manager s none) (entered username password) w).2
        ≡ ok (basic_credentials s username password)
  unfolding adopt remember normalize_credentials basic_authenticate
  adopt-entered username password text w printed saved = ground arith

  credentials-stored :
      (username password stored text : String) (w : W)
      → s.env_var w "TOPDESK_MCP_USERNAME" ≡ none
      → s.load_credential credential_account w ≡ ok (some stored)
      → s.from_json stored ≡ ok (entered username password)
      → basic_validate (entered username password) ≡ true
      → credentials s (basic_manager s none) w
        ≡ adopt s (basic_manager s none) (entered username password) w
  unfolding credentials from_env_or_storage env_credentials credentials_from_env from_storage
      from_parsed
  credentials-stored username password stored text w unset loaded parsed valid = ground arith

  headers-found :
      (m : AuthManager) (c : Credentials) (headers : Dict String) (w : W)
      → (credentials s m w).2 ≡ ok c
      → (apply_auth_headers s m headers stdio none w).2 ≡ ok (decorate c headers)
  unfolding apply_auth_headers
  headers-found m c headers w e = rw e refl

  -- If the variable of the user name is not set, and the storage has a user name and a password,
  -- both not empty, and saving them with their header succeeds: a manager that has cached nothing
  -- puts their header on a request over stdio.
  pub apply_auth_headers_from_stored :
      (username password stored text : String) (headers : Dict String) (w : W)
      → s.env_var w "TOPDESK_MCP_USERNAME" ≡ none
      → s.load_credential credential_account w ≡ ok (some stored)
      → s.from_json stored ≡ ok (entered username password)
      → str_eq username "" ≡ false
      → str_eq password "" ≡ false
      → s.to_json (basic_credentials s username password) ≡ ok text
      → (s.save_credential credential_account text w).1 ≡ ok tt
      → (apply_auth_headers s (basic_manager s none) headers stdio none w).2
        ≡ ok (
            Dict.insert "Authorization"
              ("Basic " ++ s.encode (username ++ (":" ++ password)))
              headers)
  unfolding decorate decorate_own
  apply_auth_headers_from_stored username password stored text headers w unset loaded parsed u p
        printed saved =
      headers-found (basic_manager s none) (basic_credentials s username password) headers w (
        ap (λ r. r.2)
          (credentials-stored username password stored text w unset loaded parsed
            (validate-entered username password u p))
        ∙ adopt-entered username password text w printed saved)
