-- ===== src/Core/CircuitBreaker/Interleavings.antt =====
-- core/circuit_breaker.rs: the breaker shared by concurrent calls: the locked blocks of several calls in any order.
use topdesk_mcp_rs.Core.CircuitBreaker.{
  opened, half_open, CircuitBreaker, elapsed, admit, on_success, on_failure,
}
use topdesk_mcp_rs.Core.CircuitBreaker.States.{
  IsValid, admit-IsValid, on_success-IsValid, on_failure-IsValid,
}
use topdesk_mcp_rs.Shared.{ℕ, zero, suc, ◌≤◌, none, some, ◌≡◌, refl, arith}

-- The breaker, and how many calls have been let through and are not settled yet.
pub record Shared : Type 0 where
  pub breaker : CircuitBreaker
  pub in_flight : ℕ

-- One locked block of one of the calls.
pub data Step : Shared → Shared → Type 0 where
  begin :
      {b b' : CircuitBreaker} {n : ℕ} (now : ℕ)
      → admit b now ≡ some b'
      → Step (record { breaker = b; in_flight = n }) (record { breaker = b'; in_flight = suc n })
  refuse : {s : Shared} (now : ℕ) → admit s.breaker now ≡ none → Step s s
  succeed :
      {b : CircuitBreaker} {n : ℕ}
      → Step
          (record { breaker = b; in_flight = suc n })
          (record { breaker = on_success b; in_flight = n })
  fail :
      {b : CircuitBreaker} {n : ℕ} (now : ℕ)
      → Step
          (record { breaker = b; in_flight = suc n })
          (record { breaker = on_failure b now; in_flight = n })

pub data Reach (s : Shared) : Shared → Type 0 where
  here : Reach s s
  next : {t u : Shared} → Reach s t → Step t u → Reach s u

Step-IsValid : {s t : Shared} → Step s t → IsValid s.breaker → IsValid t.breaker
Step-IsValid (begin {b} now e) v = admit-IsValid b now v e
Step-IsValid (refuse now e) v = v
Step-IsValid (succeed {b}) v = on_success-IsValid b v
Step-IsValid (fail {b} now) v = on_failure-IsValid b now v

-- Every interleaving of concurrent calls keeps the invariant: the threshold is positive and fits
-- in 32 bits, the failure count of a closed breaker is below it, and an open one has an instant
-- stored, from which its timeout is counted.
pub Reach-IsValid : {s t : Shared} → Reach s t → IsValid s.breaker → IsValid t.breaker
Reach-IsValid here v = v
Reach-IsValid (next r st) v = Step-IsValid st (Reach-IsValid r v)

-- A half-open breaker lets every call through and stays half open.
admit_half_open : (b : CircuitBreaker) (now : ℕ) → b.inner.state ≡ half_open → admit b now ≡ some b
unfolding admit
admit_half_open b now h = ground arith

abbrev trial : CircuitBreaker → CircuitBreaker
trial b = record b { inner = record (b.inner) { state = half_open } }

admit_expired :
    (b : CircuitBreaker) (now : ℕ)
    → b.inner.state ≡ opened
    → b.reset_timeout ≤ elapsed b.inner.opened_at now
    → admit b now ≡ some (trial b)
unfolding admit
admit_expired b now s h = ground arith

-- When the timeout of an open breaker has passed, any number of calls, one or more, can be in
-- flight in the half-open state at once: nothing limits the trial to one call.
pub half_open_admits_many :
    (b : CircuitBreaker) (now n : ℕ)
    → b.inner.state ≡ opened
    → b.reset_timeout ≤ elapsed b.inner.opened_at now
    → Reach
        (record { breaker = b; in_flight = 0 })
        (record {
          breaker = record b { inner = record (b.inner) { state = half_open } };
          in_flight = suc n;
        })
half_open_admits_many b now zero s h = next here (begin now (admit_expired b now s h))
half_open_admits_many b now (suc n) s h =
    next (half_open_admits_many b now n s h) (begin now (admit_half_open (trial b) now refl))
