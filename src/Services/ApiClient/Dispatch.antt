-- ===== src/Services/ApiClient/Dispatch.antt =====
-- services/api_client.rs, `ApiClient::dispatch`: one request, sent again after a transport error. The HTTP library is a
-- parameter: it parses a method, sends a request, and reads a response.
pub mod Retries
pub mod Requests
use topdesk_mcp_rs.Core.ConfigSchema.{Config}
use topdesk_mcp_rs.Core.Errors.{AnyError, stalled}
use topdesk_mcp_rs.Json.{Value, null}
use topdesk_mcp_rs.Shared.{
  ℕ, zero, suc, ◌+◌, ◌%◌, ◌^◌, String, Bool, true, false, not, Option, none, some, List, Result, ok,
  err, ◌>>=◌, if◌then◌else◌, ltb,
}
use topdesk_mcp_rs.Shared.Dict.{Dict}

pub data Body : Type 0 where
  json : Value → Body
  -- No body, with an explicit `Content-Length: 0`.
  empty : Body
  no_body : Body

-- What the builder is given.
pub record Request (M : Type 0) : Type 0 where
  pub method : M
  pub url : String
  pub timeout_ms : ℕ
  pub headers : Dict String
  pub body : Body

-- What the code uses of `reqwest`, acting on a world.
pub record HttpCrate (W : Type 0) : Type 1 where
  pub Method : Type 0
  pub Response : Type 0
  pub method_from_bytes : String → Result AnyError Method
  pub is_get_or_head : Method → Bool
  pub send : Request Method → W → W × Result AnyError Response
  pub error_for_status : Response → Result AnyError Response
  pub read_json : Response → W → W × Result AnyError Value

module _ {W : Type 0} (h : HttpCrate W) (config : Config) where
  unfoldable pub body_of : h.Method → Option Value → Body
  body_of method (some value) = json value
  body_of method none = if not (h.is_get_or_head method) then empty else no_body

  unfoldable pub prepare : h.Method → String → Option Value → Dict String → Request h.Method
  unfolding body_of
  prepare method url body headers = record {
    method = method;
    url = url;
    timeout_ms = config.timeout_ms;
    headers = headers;
    body = body_of method body;
  }

  -- The `Ok` arm: a bad status is an error at once, an unreadable body is null.
  unfoldable pub receive : h.Response → W → W × Result AnyError Value
  receive response w = elim (h.error_for_status response) [
    | err e ↦ (w, err e)
    | ok good ↦
        let (w', value) = h.read_json good w in (w', elim value [ ok v ↦ ok v | err e ↦ ok null ])
  ]

  -- The loop, on fuel. The counter is a u32, which wraps in a release build.
  pub attempt_loop : ℕ → ℕ → Request h.Method → W → W × Result AnyError Value
  unfolding receive
  attempt_loop zero attempt request w = (w, err stalled)
  attempt_loop (suc fuel) attempt request w =
      let (w', outcome) = h.send request w in
      elim outcome [
        | ok response ↦ receive response w'
        | err e ↦
            let next = (attempt + 1) % 2 ^ 32 in
            elim (ltb config.retry_attempts next) [
              | true ↦ (w', err e)
              | false ↦ attempt_loop fuel next request w'
            ]
      ]

  unfoldable pub dispatch :
      String → String → Option Value → Dict String → W → W × Result AnyError Value
  unfolding prepare attempt_loop
  dispatch method url body headers w = elim (h.method_from_bytes method) [
    | err e ↦ (w, err e)
    | ok parsed ↦ attempt_loop (config.retry_attempts + 1) 0 (prepare parsed url body headers) w
  ]
