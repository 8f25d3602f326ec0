-- ===== src/Core/CircuitBreaker.antt =====
-- core/circuit_breaker.rs: the circuit breaker. A locked block is one function; the wrapped call
-- is a function on a world that has a clock. In `execute` no other call uses the breaker meanwhile,
-- as the breaker is not in the world; the blocks of several calls in any order are in Interleavings.
pub mod States
pub mod Interleavings
use topdesk_mcp_rs.Shared.{
  ℕ, ◌+◌, ◌-◌, ◌%◌, ◌^◌, Bool, true, false, ◌||◌, Option, none, some, Result, ok, err,
}
use topdesk_mcp_rs.Shared.{String, ltb, leb, if◌then◌else◌}
use topdesk_mcp_rs.Core.Errors.{AnyError, any_to_string}

pub data State : Type 0 where
  closed opened half_open : State

pub record Inner : Type 0 where
  pub state : State
  pub failure_count : ℕ
  pub opened_at : Option ℕ

pub data CircuitBreakerError (E : Type 0) : Type 0 where
  breaker_open : CircuitBreakerError E
  inner : E → CircuitBreakerError E

pub record CircuitBreaker : Type 0 where
  pub failure_threshold : ℕ
  pub reset_timeout : ℕ
  pub inner : Inner

-- `Display`
unfoldable pub display : {E : Type 0} → (E → String) → CircuitBreakerError E → String
display show breaker_open = "circuit breaker is open"
display show (inner e) = show e

unfoldable pub new : ℕ → ℕ → CircuitBreaker
new failure_threshold reset_timeout = record {
  failure_threshold = failure_threshold;
  reset_timeout = reset_timeout;
  inner = record { state = closed; failure_count = 0; opened_at = none };
}

-- `at.elapsed()`, or the default of a duration.
abbrev pub elapsed : Option ℕ → ℕ → ℕ
elapsed none now = 0
elapsed (some at) now = now - at

admit_in : State → CircuitBreaker → ℕ → Option CircuitBreaker
admit_in opened b now =
    if ltb (elapsed b.inner.opened_at now) b.reset_timeout
    then none
    else some (record b { inner = record (b.inner) { state = half_open } })
admit_in closed b now = some b
admit_in half_open b now = some b

-- The first locked block of `execute`: none if the call is refused.
unfoldable pub admit : CircuitBreaker → ℕ → Option CircuitBreaker
unfolding admit_in
admit b now = admit_in b.inner.state b now

unfoldable pub on_success : CircuitBreaker → CircuitBreaker
on_success b = record b { inner = record (b.inner) { state = closed; failure_count = 0 } }

abbrev pub is_half_open : State → Bool
is_half_open half_open = true
is_half_open _ = false

-- The counter is a u32, which wraps in a release build.
unfoldable pub on_failure : CircuitBreaker → ℕ → CircuitBreaker
on_failure b now =
    let count = (b.inner.failure_count + 1) % 2 ^ 32 in
    record b {
      inner =
          if is_half_open b.inner.state || leb b.failure_threshold count
          then record { state = opened; failure_count = count; opened_at = some now }
          else record (b.inner) { failure_count = count };
    }

module _ {W T E : Type 0} (clock : W → ℕ) where
  -- What follows the wrapped call.
  unfoldable pub settle :
      CircuitBreaker → W × Result E T → CircuitBreaker × W × Result (CircuitBreakerError E) T
  settle b (w, ok value) = (on_success b, w, ok value)
  settle b (w, err e) = (on_failure b (clock w), w, err (inner e))

  unfoldable pub execute :
      (W → W × Result E T)
      → CircuitBreaker
      → W
      → CircuitBreaker × W × Result (CircuitBreakerError E) T
  execute f b w = elim (admit b (clock w)) [
    | none ↦ (b, w, err breaker_open)
    | some b' ↦ settle b' (f w)
  ]
