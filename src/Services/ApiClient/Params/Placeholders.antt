-- ===== src/Services/ApiClient/Params/Placeholders.antt =====
-- services/api_client.rs: filling placeholders, and what it lets through.
use Prim.Native.Char.{code}
use Prim.Native.String.{◌++◌}
use text.Mathlib.TextLemmas.{cons-append, nil-append}
use topdesk_mcp_rs.Data.Endpoints.{EndpointRecord}
use topdesk_mcp_rs.Json.{Value}
use topdesk_mcp_rs.Services.ApiClient.Params.{push, scan, scan_name, fill_from, apply_path_params}
use topdesk_mcp_rs.Shared.{
  ℕ, suc, ◌+◌, String, Bool, false, ◌&&◌, ◌||◌, if◌then◌else◌, eqb, leb, ◌≡◌, refl, arith,
  Option-cases, inl, inr,
}
use topdesk_mcp_rs.Shared.Dict
use topdesk_mcp_rs.Shared.Dict.{Dict}

-- How often a character occurs.
abbrev pub occurrences : ℕ → String → ℕ
occurrences k String.[] = 0
occurrences k (String.◌∷◌ c s) =
    let rest = occurrences k s in if eqb (code c) k then suc rest else rest

occurrences-append :
    (k : ℕ) (s t : String) → occurrences k (s ++ t) ≡ occurrences k s + occurrences k t
occurrences-append k String.[] t = rw (nil-append t) (omega arith)
occurrences-append k (String.◌∷◌ c s) t =
    rw (cons-append c s t) (ground (arith, occurrences-append k s t))

-- The text of a path outside its placeholders.
mutual
  pub literal : String → String
  literal String.[] = ""
  literal (String.◌∷◌ c cs) =
      let inside = literal_after cs in
      let outside = String.◌∷◌ c (literal cs) in if eqb (code c) b'{' then inside else outside

  pub literal_after : String → String
  literal_after String.[] = ""
  literal_after (String.◌∷◌ c cs) =
      let closed = literal cs in
      let longer = literal_after cs in if eqb (code c) b'}' then closed else longer

module _ (fill : String → String) (k : ℕ)
    (absent : (name : String) → occurrences k (fill name) ≡ 0) where
  mutual
    unfolding scan literal

    occurrences-scan : (s : String) → occurrences k (scan fill s) ≡ occurrences k (literal s)
    occurrences-scan String.[] = refl
    occurrences-scan (String.◌∷◌ c cs) =
        ground (arith, occurrences-scan cs, occurrences-scan_name "" cs)

    occurrences-scan_name :
        (name s : String) → occurrences k (scan_name fill name s) ≡ occurrences k (literal_after s)
    occurrences-scan_name name String.[] = absent name
    occurrences-scan_name name (String.◌∷◌ c cs) = ground (
      arith,
      absent name,
      occurrences-append k (fill name) (scan fill cs),
      occurrences-scan cs,
      occurrences-scan_name (push name c) cs,
    )

-- Letters, digits and the percent sign.
abbrev pub is_unreserved : ℕ → Bool
is_unreserved k =
    (leb b'0' k && leb k b'9')
    || ((leb b'A' k && leb k b'Z') || ((leb b'a' k && leb k b'z') || eqb k b'%'))

module _ (print : Value → String) (percent_encode : String → String)
    (percent_encode_clean : (s : String) (k : ℕ)
      → is_unreserved k ≡ false
      → occurrences k (percent_encode s) ≡ 0) where
  -- If percent encoding gives letters, digits and "%" alone, every other character occurs in the
  -- request path as often as in the literal text of the endpoint's path: no argument adds a
  -- slash, a "?" or a "#".
  pub occurrences-apply_path_params :
      (endpoint : EndpointRecord) (args : Dict Value) (k : ℕ)
      → is_unreserved k ≡ false
      → occurrences k (apply_path_params print percent_encode endpoint args)
        ≡ occurrences k (literal endpoint.path)
  unfolding apply_path_params
  occurrences-apply_path_params endpoint args k h =
      occurrences-scan (fill_from print percent_encode args) k clean endpoint.path
    where
      clean : (name : String) → occurrences k (fill_from print percent_encode args name) ≡ 0
      clean name = elim (Option-cases (Dict.get name args)) [
        | inl missing ↦ rw (missing, fill_from) (percent_encode_clean "" k h)
        | inr (value, given) ↦ rw (given, fill_from) (percent_encode_clean _ k h)
      ]

module _ (print : Value → String) (percent_encode : String → String) where
  scan_plain : (fill : String → String) (s : String) → occurrences b'{' s ≡ 0 → scan fill s ≡ s
  unfolding scan
  scan_plain fill String.[] h = refl
  scan_plain fill (String.◌∷◌ c cs) h = ground (arith, scan_plain fill cs)

  -- A path without an opening brace is sent as it is, whatever the arguments.
  pub apply_path_params_plain :
      (endpoint : EndpointRecord) (args : Dict Value)
      → occurrences b'{' endpoint.path ≡ 0
      → apply_path_params print percent_encode endpoint args ≡ endpoint.path
  unfolding apply_path_params
  apply_path_params_plain endpoint args h =
      scan_plain (fill_from print percent_encode args) endpoint.path h
