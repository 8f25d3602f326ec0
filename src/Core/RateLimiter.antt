-- ===== src/Core/RateLimiter.antt =====
-- core/rate_limiter.rs: the sliding-window rate limiter. Instants and durations are numbers of one
-- unit; `duration_since` stops at zero, as `-` does.
pub mod Refinement
pub mod Window
use topdesk_mcp_rs.Core.Errors.{McpifyError, rate_limit_exceeded}
use topdesk_mcp_rs.Shared.{ℕ, ◌-◌, Bool, List, [], ◌∷◌, ◌++◌, Result, ok, err}
use topdesk_mcp_rs.Shared.{ltb, leb, if◌then◌else◌, length, retain}

pub record RateLimiter : Type 0 where
  pub limit : ℕ
  pub window : ℕ
  pub timestamps : List ℕ

unfoldable pub new : ℕ → ℕ → RateLimiter
new limit window = record { limit = limit; window = window; timestamps = [] }

-- The test of `retain`.
abbrev pub is_live : ℕ → ℕ → ℕ → Bool
is_live window now t = ltb (now - t) window

unfoldable pub acquire : RateLimiter → ℕ → RateLimiter × Result McpifyError (Unit {0})
acquire r now =
    let kept = retain (is_live r.window now) r.timestamps in
    if leb r.limit (length kept)
    then (record r { timestamps = kept }, err rate_limit_exceeded)
    else (record r { timestamps = kept ++ now ∷ [] }, ok tt)
