-- ===== src/Services/ApiClient/Dispatch/Requests.antt =====
-- services/api_client.rs, `ApiClient::dispatch`: which request is sent.
use topdesk_mcp_rs.Core.ConfigSchema.{Config}
use topdesk_mcp_rs.Core.Errors.{AnyError}
use topdesk_mcp_rs.Json.{Value}
use topdesk_mcp_rs.Services.ApiClient.Dispatch.{
  Request, HttpCrate, prepare, receive, attempt_loop, dispatch,
}
use topdesk_mcp_rs.Shared.{
  ℕ, zero, suc, ◌+◌, ◌%◌, ◌^◌, String, Option, Result, ok, err, ltb, Bool-cases, Result-cases, inl,
  inr, ◌≡◌, refl, ap, sym, ◌∙◌,
}
use topdesk_mcp_rs.Shared.Dict.{Dict}

-- The same library with another way to send.
abbrev pub sending_by :
    {W : Type 0} (h : HttpCrate W)
    → (Request h.Method → W → W × Result AnyError h.Response)
    → HttpCrate W
sending_by h send' = record h { send = send' }

module _ {W : Type 0} (h : HttpCrate W)
    (send' : Request h.Method → W → W × Result AnyError h.Response) (config : Config) where
  attempt_loop-sending_by :
      (request : Request h.Method)
      → ((w : W) → h.send request w ≡ send' request w)
      → (fuel attempt : ℕ) (w : W)
      → attempt_loop h config fuel attempt request w
        ≡ attempt_loop (sending_by h send') config fuel attempt request w
  unfolding attempt_loop receive
  attempt_loop-sending_by request same zero attempt w = refl
  attempt_loop-sending_by request same (suc fuel) attempt w =
      let world = ap (λ r. r.0) (same w) in
      let outcome = ap (λ r. r.1) (sym (same w)) in
      let next = (attempt + 1) % 2 ^ 32 in
      elim (Result-cases (h.send request w).1) [
        | inl (response, done) ↦
            rw (done, outcome ∙ done, attempt_loop) (ap (receive h config response) world)
        | inr (e, failed) ↦ elim (Bool-cases (ltb config.retry_attempts next)) [
          | inl last ↦
              rw (failed, outcome ∙ failed, last, attempt_loop) (ap (λ w'. (w', err e)) world)
          | inr more ↦
              rw (failed, outcome ∙ failed, more, attempt_loop)
                (ap (attempt_loop h config fuel next request) world
                  ∙ attempt_loop-sending_by request same fuel next (send' request w).0)
        ]
      ]

  -- The answer depends on the library only by how it sends the one request that is prepared.
  pub dispatch-sending_by :
      (method url : String) (body : Option Value) (headers : Dict String)
      → ((parsed : h.Method)
          → h.method_from_bytes method ≡ ok parsed
          → (w : W)
          → h.send (prepare h config parsed url body headers) w
            ≡ send' (prepare h config parsed url body headers) w)
      → (w : W)
      → dispatch h config method url body headers w
        ≡ dispatch (sending_by h send') config method url body headers w
  unfolding dispatch prepare
  dispatch-sending_by method url body headers same w =
      elim (Result-cases (h.method_from_bytes method)) [
        | inr (e, failed) ↦ rw (failed, dispatch) refl
        | inl (parsed, known) ↦
            rw (known, dispatch)
              (attempt_loop-sending_by (prepare h config parsed url body headers)
                (same parsed known) (config.retry_attempts + 1) 0 w)
      ]
