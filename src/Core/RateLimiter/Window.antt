-- ===== src/Core/RateLimiter/Window.antt =====
-- core/rate_limiter.rs: what the limiter bounds: its memory, and the grants in every window.
use topdesk_mcp_rs.Core.RateLimiter.{RateLimiter, new, is_live, acquire}
use topdesk_mcp_rs.Core.RateLimiter.Refinement.{IsAscending}
use topdesk_mcp_rs.Shared.{
  ℕ, zero, suc, ◌+◌, ◌≤◌, ◌<◌, List, [], ◌∷◌, ◌++◌, ◌≡◌, refl, arith, is_ok, ltb, leb,
  if◌then◌else◌, length, retain, length-append, length-retain-le, Bool-cases, inl, inr, ltb→lt,
}

-- The instants at which a call is granted.
unfoldable pub grants : RateLimiter → List ℕ → List ℕ
grants r [] = []
grants r (now ∷ later) =
    let (r', answer) = acquire r now in
    let rest = grants r' later in if is_ok answer then now ∷ rest else rest

-- How many instants lie in the half-open window from `t`.
abbrev pub count_in : ℕ → ℕ → List ℕ → ℕ
count_in t window [] = 0
count_in t window (x ∷ xs) =
    let rest = count_in t window xs in
    if leb t x then (if ltb x (t + window) then suc rest else rest) else rest

abbrev count_from : ℕ → List ℕ → ℕ
count_from t [] = 0
count_from t (x ∷ xs) = let rest = count_from t xs in if leb t x then suc rest else rest

count_in-le : (t window : ℕ) (xs : List ℕ) → count_in t window xs ≤ count_from t xs
count_in-le t window [] = omega arith
count_in-le t window (x ∷ xs) = ground (arith, count_in-le t window xs)

count_from-le : (t : ℕ) (xs : List ℕ) → count_from t xs ≤ length xs
count_from-le t [] = omega arith
count_from-le t (x ∷ xs) = ground (arith, count_from-le t xs)

count_from-append :
    (t now : ℕ) (xs : List ℕ) → count_from t (xs ++ now ∷ []) ≡ count_from t (now ∷ xs)
count_from-append t now [] = refl
count_from-append t now (x ∷ xs) = ground (arith, count_from-append t now xs)

-- Within the window from `t` nothing that counts has been dropped.
count_from-retain :
    (t window now : ℕ) (xs : List ℕ)
    → 0 < window
    → now < t + window
    → count_from t (retain (is_live window now) xs) ≡ count_from t xs
count_from-retain t window now [] pos h = refl
count_from-retain t window now (x ∷ xs) pos h = elim (Bool-cases (is_live window now x)) [
  | inl live ↦ rw live (ground (arith, count_from-retain t window now xs pos h))
  | inr dropped ↦ rw dropped (ground (arith, count_from-retain t window now xs pos h))
]

count_in-zero : (t : ℕ) (xs : List ℕ) → count_in t 0 xs ≡ 0
count_in-zero t [] = refl
count_in-zero t (x ∷ xs) = ground (arith, count_in-zero t xs)

-- The state at instant `c` accounts for the grants `log` that matter to the window from `t`.
record Tracks (t c : ℕ) (r : RateLimiter) (log : List ℕ) : Type 0 where
  positive : 0 < r.window
  live : c < t + r.window → count_from t log ≤ count_from t r.timestamps
  bound : count_in t r.window log ≤ r.limit

module _ (t c now : ℕ) (r : RateLimiter) (log : List ℕ) (h : c ≤ now) (k : Tracks t c r log) where
  abbrev kept : List ℕ
  kept = retain (is_live r.window now) r.timestamps

  Tracks-denied : Tracks t now (record r { timestamps = kept }) log
  Tracks-denied = record {
    positive = k.positive;
    live = λ le.
        rw (count_from-retain t r.window now r.timestamps k.positive le) (k.live (omega arith));
    bound = k.bound;
  }

  live_granted : now < t + r.window → count_from t (now ∷ log) ≤ count_from t (kept ++ now ∷ [])
  live_granted le = rw (count_from-append t now kept) (ground (arith, Tracks-denied.live le))

  bound_granted : length kept < r.limit → count_in t r.window (now ∷ log) ≤ r.limit
  bound_granted room = elim (Bool-cases (ltb now (t + r.window))) [
    | inl inside ↦ ground (
      arith,
      k.bound,
      count_in-le t r.window log,
      Tracks-denied.live (ltb→lt _ _ inside),
      count_from-le t kept,
    )
    | inr outside ↦ rw outside (ground (arith, k.bound))
  ]

  Tracks-granted :
      length kept < r.limit → Tracks t now (record r { timestamps = kept ++ now ∷ [] }) (now ∷ log)
  Tracks-granted room = record {
    positive = k.positive;
    live = live_granted;
    bound = bound_granted room;
  }

grants-limit_from :
    (t c : ℕ) (r : RateLimiter) (log times : List ℕ)
    → Tracks t c r log
    → IsAscending c times
    → count_in t r.window (grants r times) + count_in t r.window log ≤ r.limit
unfolding grants acquire
grants-limit_from t c r log [] k h = omega (arith, k.bound)
grants-limit_from t c r log (now ∷ later) k (h, hs) = elim (Bool-cases (leb r.limit (length ts))) [
  | inl full ↦ rw full (grants-limit_from t now (record r { timestamps = ts }) log later denied hs)
  | inr room ↦ rw room (
      ground (
        arith,
        grants-limit_from t now (record r { timestamps = ts ++ now ∷ [] }) (now ∷ log) later
            (Tracks-granted t c now r log h k (ground arith)) hs,
      ))
]
  where
    ts : List ℕ
    ts = retain (is_live r.window now) r.timestamps

    denied : Tracks t now (record r { timestamps = ts }) log
    denied = Tracks-denied t c now r log h k

-- At instants that never go back, a new limiter grants at most `limit` calls in every half-open
-- window of its length, wherever the window starts.
pub grants-limit :
    (limit window : ℕ) (times : List ℕ) (t : ℕ)
    → IsAscending 0 times
    → count_in t window (grants (new limit window) times) ≤ limit
unfolding new
grants-limit limit zero times t h = rw (count_in-zero t (grants (new limit 0) times)) (omega arith)
grants-limit limit (suc w) times t h =
    omega (arith, grants-limit_from t 0 (new limit (suc w)) [] times Tracks-new h)
  where
    Tracks-new : Tracks t 0 (new limit (suc w)) []
    Tracks-new = record { positive = omega arith; live = λ le. omega arith; bound = omega arith }

-- A limiter never holds more timestamps than its limit.
pub acquire-length-le :
    (r : RateLimiter) (now : ℕ)
    → length r.timestamps ≤ r.limit
    → length (acquire r now).0.timestamps ≤ (acquire r now).0.limit
unfolding acquire
acquire-length-le r now h = ground (
  arith,
  length-retain-le (is_live r.window now) r.timestamps,
  length-append (retain (is_live r.window now) r.timestamps) (now ∷ []),
)
