-- ===== src/Services/ApiClient/Dispatch/Retries.antt =====
-- services/api_client.rs: the retry loop of `dispatch`.
use native.Mathlib.Numerals.{add-one}
use topdesk_mcp_rs.Core.ConfigSchema.{Config}
use topdesk_mcp_rs.Core.Errors.{AnyError, stalled}
use topdesk_mcp_rs.Json.{Value}
use topdesk_mcp_rs.Services.ApiClient.Dispatch.{
  Request, HttpCrate, prepare, receive, attempt_loop, dispatch,
}
use topdesk_mcp_rs.Shared.{
  ℕ, zero, suc, ◌+◌, ◌-◌, ◌%◌, ◌<◌, ◌^◌, false, ltb, refl, String, Option, Result, ok, err, ◌≡◌,
  arith,
}
use topdesk_mcp_rs.Shared.Dict.{Dict}

module _ {W : Type 0} (h : HttpCrate W) (config : Config) where
  -- The specification: send, and after a transport error send at most `more` times again; the
  -- first response decides, and after the last transport error that error does.
  unfoldable pub first_response : ℕ → Request h.Method → W → W × Result AnyError Value
  unfolding receive
  first_response zero request w =
      let (w', outcome) = h.send request w in
      elim outcome [ ok response ↦ receive h config response w' | err e ↦ (w', err e) ]
  first_response (suc more) request w =
      let (w', outcome) = h.send request w in
      elim outcome [
        | ok response ↦ receive h config response w'
        | err e ↦ first_response more request w'
      ]

  attempt_loop-first_response :
      (more attempt : ℕ) (request : Request h.Method) (w : W)
      → attempt + more ≡ config.retry_attempts
      → config.retry_attempts + 1 < 2 ^ 32
      → attempt_loop h config (suc more) attempt request w ≡ first_response more request w
  unfolding attempt_loop first_response
  attempt_loop-first_response zero attempt request w e fits = ground arith
  attempt_loop-first_response (suc more) attempt request w e fits =
      ground (arith, attempt_loop-first_response more (attempt + 1) request (h.send request w).0)

  -- With a retry count below the last u32, a parsed method and any request, the fuel is enough
  -- and `dispatch` is the specification: the request is sent once and, after transport errors
  -- alone, at most `retry_attempts` times more.
  pub dispatch-first_response :
      (method url : String) (body : Option Value) (headers : Dict String) (w : W)
      (parsed : h.Method)
      → h.method_from_bytes method ≡ ok parsed
      → config.retry_attempts + 1 < 2 ^ 32
      → dispatch h config method url body headers w
        ≡ first_response config.retry_attempts (prepare h config parsed url body headers) w
  unfolding dispatch
  dispatch-first_response method url body headers w parsed p fits =
      rw (p, dispatch)
        (rw add-one (
          attempt_loop-first_response config.retry_attempts 0
            (prepare h config parsed url body headers) w (omega arith) fits))

  -- Where the configuration allows the last u32 of retries, the counter wraps around and never
  -- passes it: if sending always fails, no number of rounds ends the loop.
  pub attempt_loop_never_ends :
      config.retry_attempts ≡ 2 ^ 32 - 1
      → (request : Request h.Method) → ((w : W) → (e : AnyError) × ((h.send request w).1 ≡ err e))
      → (rounds attempt : ℕ) (w : W)
      → (attempt_loop h config rounds attempt request w).1 ≡ err stalled
  unfolding attempt_loop
  attempt_loop_never_ends last request fails zero attempt w = refl
  attempt_loop_never_ends last request fails (suc rounds) attempt w =
      let (e, failed) = fails w in
      let next = (attempt + 1) % 2 ^ 32 in
      let goes_on : ltb config.retry_attempts next ≡ false = ground (arith) in
      rw (failed, goes_on, attempt_loop)
        (attempt_loop_never_ends last request fails rounds next (h.send request w).0)
