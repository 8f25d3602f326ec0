-- ===== src/Services/UrlBuilder.antt =====
-- core/api_url_builder.rs: a base URL, a path and a query joined to one URL. The `url` crate is a
-- parameter: parsing, joining, appending a query pair, and printing.
use Prim.Native.Char.{code}
use Prim.Native.String.{◌++◌}
use topdesk_mcp_rs.Shared.{
  String, Bool, false, List, [], ◌∷◌, Result, ok, ◌>>=◌, if◌then◌else◌, eqb,
}
use topdesk_mcp_rs.Core.Errors.{AnyError}

-- What the code uses of `url::Url`.
pub record UrlCrate : Type 1 where
  pub Url : Type 0
  pub parse : String → Result AnyError Url
  pub join : Url → String → Result AnyError Url
  pub append_pair : String → String → Url → Url
  pub to_string : Url → String

-- `ends_with('/')`
unfoldable pub ends_with_slash : String → Bool
ends_with_slash String.[] = false
ends_with_slash (String.◌∷◌ c String.[]) = eqb (code c) b'/'
ends_with_slash (String.◌∷◌ c (String.◌∷◌ d s)) = ends_with_slash (String.◌∷◌ d s)

-- `trim_start_matches('/')`
unfoldable pub trim_start_slashes : String → String
trim_start_slashes String.[] = ""
trim_start_slashes (String.◌∷◌ c s) =
    let rest = trim_start_slashes s in if eqb (code c) b'/' then rest else String.◌∷◌ c s

module _ (u : UrlCrate) where
  append_pairs : List (String × String) → u.Url → u.Url
  append_pairs [] url = url
  append_pairs ((key, value) ∷ query) url = append_pairs query (u.append_pair key value url)

  unfoldable pub build_api_url : String → String → List (String × String) → Result AnyError String
  unfolding append_pairs ends_with_slash trim_start_slashes
  build_api_url base_url path query = do
    base ← u.parse (if ends_with_slash base_url then base_url else base_url ++ "/")
    url ← u.join base (trim_start_slashes path)
    ok (u.to_string (append_pairs query url))
