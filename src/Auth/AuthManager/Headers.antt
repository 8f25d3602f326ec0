-- ===== src/Auth/AuthManager/Headers.antt =====
-- auth/auth_manager.rs: the headers of an outgoing request, on each transport.
use Prim.Native.String.{◌++◌}
use topdesk_mcp_rs.Auth.AuthStrategy.{RequestCredentials}
use topdesk_mcp_rs.Auth.AuthManager.{Surroundings, AuthManager, apply_auth_headers}
use topdesk_mcp_rs.Auth.AuthManager.Basics.{basic_manager, basic_credentials}
use topdesk_mcp_rs.Auth.AuthManager.Cascade.{credentials_from_variables}
use topdesk_mcp_rs.Core.ConfigSchema.{stdio, http}
use topdesk_mcp_rs.Shared.{String, Option, none, some, ok, ◌≡◌, refl, arith, is_ok}
use topdesk_mcp_rs.Shared.Dict
use topdesk_mcp_rs.Shared.Dict.{Dict}

module _ {W : Type 0} (s : Surroundings W) where
  -- On HTTP with credentials in the request, the answer is the headers with exactly that header
  -- set to that value. The cache, the environment and the storage have no part in it, and
  -- neither the manager nor the world changes.
  pub apply_auth_headers_relayed :
      (m : AuthManager) (headers : Dict String) (given : RequestCredentials) (w : W)
      → apply_auth_headers s m headers http (some given) w
        ≡ (m, w, ok (Dict.insert given.header_name given.value headers))
  unfolding apply_auth_headers
  apply_auth_headers_relayed m headers given w = ground arith

  -- On HTTP no call depends on the configured credentials: two managers in two worlds give the
  -- same answer to the same request, and a request without credentials is refused by both.
  pub apply_auth_headers_isolated :
      (m m' : AuthManager) (headers : Dict String) (given : Option RequestCredentials) (w w' : W)
      → ((apply_auth_headers s m headers http given w).2
          ≡ (apply_auth_headers s m' headers http given w').2)
        × ((apply_auth_headers s m headers http given w).0 ≡ m)
        × ((apply_auth_headers s m headers http given w).1 ≡ w)
        × (is_ok (apply_auth_headers s m headers http given w).2 ≡ Dict.is_some given)
  unfolding apply_auth_headers
  apply_auth_headers_isolated m m' headers none w w' = (refl, refl, refl, refl)
  apply_auth_headers_isolated m m' headers (some given) w w' = (refl, refl, refl, refl)

  -- On stdio with the basic method, nothing cached and both variables set, the request carries
  -- the basic authorization header of the two, whatever credentials came with the call.
  pub apply_auth_headers_from_variables :
      (headers : Dict String) (given : Option RequestCredentials) (w : W)
      (username password : String)
      → s.env_var w "TOPDESK_MCP_USERNAME" ≡ some username
      → s.env_var w "TOPDESK_MCP_PASSWORD" ≡ some password
      → apply_auth_headers s (basic_manager s none) headers stdio given w ≡ (
        basic_manager s (some (basic_credentials s username password)),
        w,
        ok (
            Dict.insert "Authorization"
              ("Basic " ++ s.encode (username ++ (":" ++ password)))
              headers),
      )
  unfolding apply_auth_headers
  apply_auth_headers_from_variables headers given w username password u p =
      rw (credentials_from_variables s w username password u p, apply_auth_headers) refl
