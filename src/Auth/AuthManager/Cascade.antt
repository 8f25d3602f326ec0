-- ===== src/Auth/AuthManager/Cascade.antt =====
-- auth/auth_manager.rs: where the credentials of a deployment with basic authentication come from.

use topdesk_mcp_rs.Auth.AuthStrategy.{
  Credentials, basic_authenticate, basic_validate, refresh_unsupported, missing,
}
use topdesk_mcp_rs.Auth.AuthManager.Basics.{
  basic_manager, basic_credentials, authenticated, normalize_again, normalize_valid,
}
use topdesk_mcp_rs.Auth.AuthManager.{
  Surroundings, AuthManager, set_credentials, normalize_credentials, credentials_from_env, remember,
  adopt, exchange, from_parsed, from_storage, env_credentials, from_env_or_storage, credentials,
}
use topdesk_mcp_rs.Shared.{
  String, true, Option, none, some, ok, ◌≡◌, arith, Bool-cases, Option-cases, inl, inr,
  Result-cases, subst, sym,
}
use topdesk_mcp_rs.Shared.Dict
use topdesk_mcp_rs.Shared.Dict.{Dict, get-insert}

module _ {W : Type 0} (s : Surroundings W) where
  -- Credentials that are in the cache for good: every later call returns them, and leaves the
  -- manager and the world as they are.
  abbrev pub IsSettled : AuthManager → Credentials → Type 0
  IsSettled m c = (w : W) → credentials s m w ≡ (m, w, ok c)

  IsSettled-cached :
      (c : Credentials)
      → basic_validate c ≡ true
      → normalize_credentials (basic_manager s (some c)) c ≡ ok c
      → IsSettled (basic_manager s (some c)) c
  unfolding credentials
  IsSettled-cached c v n w = ground arith

  remember_ok :
      (cached : Option Credentials) (x c : Credentials) (w w' : W) (m' : AuthManager)
      → remember s (basic_manager s cached) x w ≡ (m', w', ok c)
      → (m' ≡ basic_manager s (some c)) × (x ≡ c)
  unfolding remember set_credentials
  remember_ok cached x c w w' m' e = ground arith

  adopt_ok :
      (cached : Option Credentials) (x c : Credentials) (w w' : W) (m' : AuthManager)
      → basic_validate x ≡ true
      → adopt s (basic_manager s cached) x w ≡ (m', w', ok c)
      → IsSettled m' c
  unfolding adopt
  adopt_ok cached x c w w' m' v e =
      elim (Result-cases (normalize_credentials (basic_manager s cached) x)) [
        | inl (y, n) ↦
            let (same, yc) = remember_ok cached y c w w' m' (rw (n, adopt) at e) in
            let n' = rw yc at n in
            subst (λ m. IsSettled m c) (sym same)
              (IsSettled-cached c (normalize_valid s cached x c v n')
                (normalize_again s cached x c n'))
        | inr (error, n) ↦ absurd (ground arith)
      ]

  exchange_valid :
      (cached : Option Credentials) (parsed c : Credentials)
      → exchange s (basic_manager s cached) parsed ≡ ok c
      → basic_validate c ≡ true
  unfolding exchange refresh_unsupported basic_validate
  exchange_valid cached parsed c e = elim (Bool-cases (Dict.contains_key "refresh_token" parsed)) [
    | inl refresh ↦ absurd (ground arith)
    | inr anew ↦ ground (arith, authenticated s parsed c (ground arith))
  ]

  from_parsed_ok :
      (cached : Option Credentials) (parsed c : Credentials) (w w' : W) (m' : AuthManager)
      → from_parsed s (basic_manager s cached) parsed w ≡ (m', w', ok c)
      → IsSettled m' c
  unfolding from_parsed
  from_parsed_ok cached parsed c w w' m' e = elim (Bool-cases (basic_validate parsed)) [
    | inl valid ↦ adopt_ok cached parsed c w w' m' valid (rw (valid, from_parsed) at e)
    | inr invalid ↦ elim (Result-cases (exchange s (basic_manager s cached) parsed)) [
      | inl (exchanged, x) ↦
          adopt_ok cached exchanged c w w' m' (exchange_valid cached parsed exchanged x)
            (rw (invalid, x, from_parsed) at e)
      | inr (error, x) ↦ absurd (ground arith)
    ]
  ]

  from_storage_ok :
      (cached : Option Credentials) (c : Credentials) (w w' : W) (m' : AuthManager)
      → from_storage s (basic_manager s cached) w ≡ (m', w', ok c)
      → IsSettled m' c
  unfolding from_storage
  from_storage_ok cached c w w' m' e =
      elim (Result-cases (s.load_credential "active-credentials" w)) [
        | inl (some stored, l) ↦ elim (Result-cases (s.from_json stored)) [
          | inl (parsed, p) ↦ from_parsed_ok cached parsed c w w' m' (rw (l, p, from_storage) at e)
          | inr (error, p) ↦ absurd (ground arith)
        ]
        | inl (none, l) ↦ absurd (ground arith)
        | inr (error, l) ↦ absurd (ground arith)
      ]

  env_credentials_valid :
      (cached : Option Credentials) (c : Credentials) (w : W)
      → env_credentials s (basic_manager s cached) w ≡ some c
      → Dict.contains_key "authorization_header" c ≡ true
  unfolding env_credentials credentials_from_env basic_authenticate
  env_credentials_valid cached c w e = ground arith

  IsSettled-of_header :
      (c : Credentials)
      → Dict.contains_key "authorization_header" c ≡ true
      → IsSettled (basic_manager s (some c)) c
  unfolding normalize_credentials basic_validate
  IsSettled-of_header c h = IsSettled-cached c (ground arith) (ground arith)

  env_taken :
      (cached : Option Credentials) (d c : Credentials) (w w' : W) (m' : AuthManager)
      → env_credentials s (basic_manager s cached) w ≡ some d
      → from_env_or_storage s (basic_manager s cached) w ≡ (m', w', ok c)
      → (m' ≡ basic_manager s (some c)) × (d ≡ c)
  unfolding from_env_or_storage set_credentials
  env_taken cached d c w w' m' given e = ground arith

  from_env_or_storage_ok :
      (cached : Option Credentials) (c : Credentials) (w w' : W) (m' : AuthManager)
      → from_env_or_storage s (basic_manager s cached) w ≡ (m', w', ok c)
      → IsSettled m' c
  unfolding from_env_or_storage
  from_env_or_storage_ok cached c w w' m' e =
      elim (Option-cases (env_credentials s (basic_manager s cached) w)) [
        | inl missing ↦ from_storage_ok cached c w w' m' (rw (missing, from_env_or_storage) at e)
        | inr (d, given) ↦
            let (same, dc) = env_taken cached d c w w' m' given e in
            subst (λ m. IsSettled m c) (sym same)
              (subst (λ k. IsSettled (basic_manager s (some k)) k) dc
                (IsSettled-of_header d (env_credentials_valid cached d w given)))
      ]

  cached_taken :
      (x c : Credentials) (w w' : W) (m' : AuthManager)
      → basic_validate x ≡ true
      → credentials s (basic_manager s (some x)) w ≡ (m', w', ok c)
      → (m' ≡ basic_manager s (some x))
        × (normalize_credentials (basic_manager s (some x)) x ≡ ok c)
  unfolding credentials
  cached_taken x c w w' m' v e = ground arith

  -- With the basic method and anything cached: credentials that a call returns are settled.
  -- Whatever source they came from, the next call returns the same ones from the cache, without
  -- the environment and without the storage.
  pub credentials-IsSettled :
      (cached : Option Credentials) (c : Credentials) (w w' : W) (m' : AuthManager)
      → credentials s (basic_manager s cached) w ≡ (m', w', ok c)
      → IsSettled m' c
  unfolding credentials
  credentials-IsSettled none c w w' m' e = from_env_or_storage_ok none c w w' m' e
  credentials-IsSettled (some x) c w w' m' e = elim (Bool-cases (basic_validate x)) [
    | inl valid ↦
        let (same, n) = cached_taken x c w w' m' valid e in
        subst (λ m. IsSettled m c) (sym same) (λ w₂. rw (valid, credentials) (rw n))
    | inr invalid ↦ from_env_or_storage_ok (some x) c w w' m' (rw (invalid, credentials) at e)
  ]

  -- With the basic method, nothing cached and both variables set, the environment gives the
  -- credentials; the storage is neither read nor written.
  pub credentials_from_variables :
      (w : W) (username password : String)
      → s.env_var w "TOPDESK_MCP_USERNAME" ≡ some username
      → s.env_var w "TOPDESK_MCP_PASSWORD" ≡ some password
      → credentials s (basic_manager s none) w ≡ (
        basic_manager s (some (basic_credentials s username password)),
        w,
        ok (basic_credentials s username password),
      )
  unfolding credentials from_env_or_storage env_credentials credentials_from_env basic_authenticate
      basic_validate set_credentials
  credentials_from_variables w username password u p = ground arith
