-- ===== src/Auth/AuthManager/Basics.antt =====
-- auth/auth_manager.rs: the manager of a deployment with basic authentication, and what normalising its
-- credentials gives.
use Prim.Native.String.{◌++◌}
use topdesk_mcp_rs.Auth.AuthStrategy.{
  Credentials, basic_strategy, basic_authenticate, basic_validate, missing,
}
use topdesk_mcp_rs.Auth.AuthManager.{Surroundings, AuthManager, normalize_credentials}
use topdesk_mcp_rs.Core.ConfigSchema.{basic}
use topdesk_mcp_rs.Shared.{
  String, true, ◌||◌, Option, some, [], ◌∷◌, ok, ◌≡◌, arith, Bool-cases, Option-cases, inl, inr,
  ◌⊎◌, ok_or, >>=-eq-ok,
}
use topdesk_mcp_rs.Shared.Dict
use topdesk_mcp_rs.Shared.Dict.{Dict, get-insert}

module _ {W : Type 0} (s : Surroundings W) where
  -- The manager of such a deployment, with what it has cached.
  abbrev pub basic_manager : Option Credentials → AuthManager
  basic_manager cached = record {
    auth_method = basic;
    strategy = basic_strategy s.encode;
    cached_credentials = cached;
  }

  -- What the basic strategy makes of a user name and a password.
  abbrev pub basic_credentials : String → String → Credentials
  basic_credentials username password =
      ("username", username)
      ∷ ("password", password)
      ∷ ("authorization_header", "Basic " ++ s.encode (username ++ (":" ++ password)))
      ∷ []

  pub authenticated :
      (config c : Credentials)
      → basic_authenticate s.encode config ≡ ok c
      → Dict.contains_key "authorization_header" c ≡ true
  unfolding basic_authenticate
  authenticated config c e =
      let (username, u, e₁) = >>=-eq-ok (ok_or (Dict.get "username" config) missing) _ e in
      let (password, p, e₂) = >>=-eq-ok (ok_or (Dict.get "password" config) missing) _ e₁ in
      ground arith

  -- What normalising gives is ready as it stands, or has an authorization header now.
  pub normalize_cases :
      (cached : Option Credentials) (x c : Credentials)
      → normalize_credentials (basic_manager cached) x ≡ ok c
      → (x ≡ c) ⊎ (Dict.contains_key "authorization_header" c ≡ true)
  unfolding normalize_credentials
  normalize_cases cached x c e =
      elim (Bool-cases (
        Dict.contains_key "authorization_header" x
        || (Dict.contains_key "api_key" x || Dict.contains_key "request_header_name" x))) [
          | inl ready ↦ inl (ground arith)
          | inr raw ↦ elim (Option-cases (Dict.get "access_token" x)) [
            | inl missing ↦ inr (authenticated x c (ground arith))
            | inr (token, given) ↦ inr (
                ground (
                  arith,
                  get-insert "authorization_header" "authorization_header" ("Bearer " ++ token) x,
                ))
          ]
        ]

  -- Normalising what was normalised changes nothing.
  pub normalize_again :
      (cached : Option Credentials) (x c : Credentials)
      → normalize_credentials (basic_manager cached) x ≡ ok c
      → normalize_credentials (basic_manager (some c)) c ≡ ok c
  unfolding normalize_credentials
  normalize_again cached x c e = ground (arith, normalize_cases cached x c e)

  pub normalize_valid :
      (cached : Option Credentials) (x c : Credentials)
      → basic_validate x ≡ true
      → normalize_credentials (basic_manager cached) x ≡ ok c
      → basic_validate c ≡ true
  unfolding normalize_credentials basic_validate
  normalize_valid cached x c v e = ground (arith, normalize_cases cached x c e)
