-- ===== src/Core/CircuitBreaker/States.antt =====
-- core/circuit_breaker.rs: the breaker used by one caller at a time: its invariant, and when it
-- opens, refuses and recovers.
use topdesk_mcp_rs.Core.CircuitBreaker.{
  closed, opened, CircuitBreaker, breaker_open, inner, new, elapsed, admit, on_success, on_failure,
  is_half_open, settle, execute,
}
use topdesk_mcp_rs.Shared.{
  ℕ, zero, suc, ◌+◌, ◌≤◌, ◌<◌, ◌%◌, ◌^◌, some, Result, ok, err, ◌≡◌, ◌↔◌, ◌∙◌, inl, inr, arith, ltb,
  leb, if◌then◌else◌, ◌||◌, Option-cases, Bool-cases, Result-cases, map_err, is_ok,
}

-- A closed breaker is below its threshold, and an open one knows since when.
pub record IsValid (b : CircuitBreaker) : Type 0 where
  pub positive : 0 < b.failure_threshold
  pub fits : b.failure_threshold < 2 ^ 32
  pub counted : b.inner.state ≡ closed → b.inner.failure_count < b.failure_threshold
  pub stamped : b.inner.state ≡ opened → (t : ℕ) × (b.inner.opened_at ≡ some t)

pub new-IsValid :
    (threshold timeout : ℕ) → 0 < threshold → threshold < 2 ^ 32 → IsValid (new threshold timeout)
unfolding new
new-IsValid threshold timeout h k = record {
  positive = h;
  fits = k;
  counted = λ e. h;
  stamped = λ e. cc;
}

pub admit-IsValid :
    (b : CircuitBreaker) (now : ℕ) {b' : CircuitBreaker}
    → IsValid b
    → admit b now ≡ some b'
    → IsValid b'
unfolding admit
admit-IsValid b now v e = record {
  positive = ground arith;
  fits = ground arith;
  counted = λ c. ground (arith, v.counted);
  stamped = λ o. absurd (ground arith);
}

pub on_success-IsValid : (b : CircuitBreaker) → IsValid b → IsValid (on_success b)
unfolding on_success
on_success-IsValid b v = record {
  positive = v.positive;
  fits = v.fits;
  counted = λ e. v.positive;
  stamped = λ e. cc;
}

stamped_failure :
    (b : CircuitBreaker) (now : ℕ)
    → IsValid b
    → (on_failure b now).inner.state ≡ opened
    → (t : ℕ) × ((on_failure b now).inner.opened_at ≡ some t)
unfolding on_failure
stamped_failure b now v o =
    elim (Bool-cases (
      is_half_open b.inner.state
      || leb b.failure_threshold ((b.inner.failure_count + 1) % 2 ^ 32))) [
        | inl opens ↦ (now, ground arith)
        | inr stays ↦ let (t, at) = v.stamped (ground arith) in (t, ground arith)
      ]

pub on_failure-IsValid : (b : CircuitBreaker) (now : ℕ) → IsValid b → IsValid (on_failure b now)
unfolding on_failure
on_failure-IsValid b now v = record {
  positive = v.positive;
  fits = v.fits;
  counted = λ c. ground (arith, v.counted);
  stamped = λ o. stamped_failure b now v o;
}

module _ {W T E : Type 0} (clock : W → ℕ) (f : W → W × Result E T) where
  settle-IsValid :
      (b : CircuitBreaker) (r : W × Result E T) → IsValid b → IsValid (settle clock b r).0
  unfolding settle
  settle-IsValid b (w, ok value) v = on_success-IsValid b v
  settle-IsValid b (w, err e) v = on_failure-IsValid b (clock w) v

  -- `execute` keeps the invariant, whatever the wrapped call does.
  pub execute-IsValid : (b : CircuitBreaker) (w : W) → IsValid b → IsValid (execute clock f b w).0
  unfolding execute
  execute-IsValid b w v = elim (Option-cases (admit b (clock w))) [
    | inl refused ↦ rw (refused, execute) v
    | inr (b', admitted) ↦
        rw (admitted, execute) (settle-IsValid b' (f w) (admit-IsValid b (clock w) v admitted))
  ]

  -- The call is refused exactly when the breaker is open and the timeout has not passed.
  pub execute-refused_iff :
      (b : CircuitBreaker) (w : W)
      → ((execute clock f b w).2 ≡ err breaker_open)
        ↔ ((b.inner.state ≡ opened) × (elapsed b.inner.opened_at (clock w) < b.reset_timeout))
  unfolding execute settle admit
  execute-refused_iff b w = ground arith

  -- A refused call changes neither the breaker nor the world: the wrapped call never ran.
  pub execute-refused :
      (b : CircuitBreaker) (w : W)
      → b.inner.state ≡ opened
      → elapsed b.inner.opened_at (clock w) < b.reset_timeout
      → execute clock f b w ≡ (b, w, err breaker_open)
  unfolding execute admit
  execute-refused b w e h = ground arith

  -- For an open breaker whose timeout has passed, the outcome of the next call decides: the call
  -- runs and its outcome is the answer; a success closes the breaker with no failures counted and
  -- keeps the instant, a failure opens it again with the instant of the end of that call.
  pub execute-trial :
      (b : CircuitBreaker) (w : W)
      → b.inner.state ≡ opened
      → b.reset_timeout ≤ elapsed b.inner.opened_at (clock w)
      → ((execute clock f b w).1 ≡ (f w).0)
        × ((execute clock f b w).2 ≡ map_err inner (f w).1)
        × ((execute clock f b w).0.inner.state ≡ (if is_ok (f w).1 then closed else opened))
        × ((execute clock f b w).0.inner.opened_at
            ≡ (if is_ok (f w).1 then b.inner.opened_at else some (clock (f w).0)))
        × ((execute clock f b w).0.inner.failure_count
            ≡ (if is_ok (f w).1 then 0 else (b.inner.failure_count + 1) % 2 ^ 32))
  unfolding execute settle admit on_success on_failure
  execute-trial b w s h = elim (Result-cases (f w).1) [
    | inl (value, e) ↦ ground arith
    | inr (e', e) ↦ ground arith
  ]

  -- `n` calls one after another.
  unfoldable pub repeat : ℕ → CircuitBreaker → W → CircuitBreaker × W
  repeat zero b w = (b, w)
  repeat (suc n) b w = let r = execute clock f b w in repeat n r.0 r.1

  module _ (failing : (w : W) → (e : E) × ((f w).1 ≡ err e)) where
    -- One more failure below the threshold is counted, and the breaker stays closed.
    execute-counts :
        (b : CircuitBreaker) (w : W)
        → b.inner.state ≡ closed
        → b.inner.failure_count + 1 < b.failure_threshold
        → b.failure_threshold < 2 ^ 32
        → ((execute clock f b w).0.inner.state ≡ closed)
          × ((execute clock f b w).0.inner.failure_count ≡ b.inner.failure_count + 1)
          × ((execute clock f b w).0.failure_threshold ≡ b.failure_threshold)
    unfolding execute settle admit on_failure
    execute-counts b w c h fits = ground (arith, failing w)

    -- The failure that reaches the threshold opens the breaker.
    execute-opens :
        (b : CircuitBreaker) (w : W)
        → b.inner.state ≡ closed
        → b.inner.failure_count + 1 ≡ b.failure_threshold
        → b.failure_threshold < 2 ^ 32
        → (execute clock f b w).0.inner.state ≡ opened
    unfolding execute settle admit on_failure
    execute-opens b w c h fits = ground (arith, failing w)

    repeat-state_from :
        (n : ℕ) (b : CircuitBreaker) (w : W)
        → b.inner.state ≡ closed
        → b.inner.failure_count < b.failure_threshold
        → b.inner.failure_count + n ≤ b.failure_threshold
        → b.failure_threshold < 2 ^ 32
        → (repeat n b w).0.inner.state
          ≡ (if ltb (b.inner.failure_count + n) b.failure_threshold then closed else opened)
    unfolding repeat
    repeat-state_from zero b w c lt h fits = ground arith
    repeat-state_from (suc zero) b w c lt h fits =
        ground (arith, execute-counts b w c, execute-opens b w c)
    repeat-state_from (suc (suc n)) b w c lt h fits =
        let (c', count, same) = execute-counts b w c (omega arith) fits in
        let r = execute clock f b w in
        repeat-state_from (suc n) r.0 r.1 c' (omega arith) (omega arith) (omega arith)
        ∙ ground arith

    -- A valid breaker that is closed with no failures counted, used for `n` calls one after
    -- another by a call that always fails, with `n` at most the threshold: it is closed while `n`
    -- is below the threshold, and open when `n` reaches it.
    pub repeat-state :
        (n : ℕ) (b : CircuitBreaker) (w : W)
        → b.inner.state ≡ closed
        → b.inner.failure_count ≡ 0
        → n ≤ b.failure_threshold
        → IsValid b
        → (repeat n b w).0.inner.state ≡ (if ltb n b.failure_threshold then closed else opened)
    repeat-state n b w c z h v =
        repeat-state_from n b w c (omega arith) (omega arith) v.fits ∙ ground arith
