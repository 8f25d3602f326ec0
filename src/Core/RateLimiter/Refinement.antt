-- ===== src/Core/RateLimiter/Refinement.antt =====
-- core/rate_limiter.rs against a specification: a log of all grants, of which the live ones count.
use topdesk_mcp_rs.Core.RateLimiter.{RateLimiter, new, is_live, acquire}
use topdesk_mcp_rs.Shared.{
  ℕ, ◌≤◌, Bool, List, [], ◌∷◌, ◌++◌, ◌≡◌, refl, arith, is_ok, ltb, if◌then◌else◌, length, retain,
}

-- Instants that never go back, from `c` on.
abbrev pub IsAscending : ℕ → List ℕ → Type 0
IsAscending c [] = Unit
IsAscending c (now ∷ later) = (c ≤ now) × IsAscending now later

-- The answers to a sequence of calls.
unfoldable pub answers : RateLimiter → List ℕ → List Bool
answers r [] = []
answers r (now ∷ later) = let (r', answer) = acquire r now in is_ok answer ∷ answers r' later

-- The specification keeps every grant for ever and counts those younger than the window.
unfoldable pub ideal_answers : ℕ → ℕ → List ℕ → List ℕ → List Bool
ideal_answers limit window log [] = []
ideal_answers limit window log (now ∷ later) =
    let granted = ltb (length (retain (is_live window now) log)) limit in
    granted ∷ ideal_answers limit window (if granted then log ++ now ∷ [] else log) later

retain-append : (p : ℕ → Bool) (xs ys : List ℕ) → retain p (xs ++ ys) ≡ retain p xs ++ retain p ys
retain-append p [] ys = refl
retain-append p (x ∷ xs) ys = ground (arith, retain-append p xs ys)

-- What was dropped earlier is dropped later anyway.
retain-retain :
    (window now now' : ℕ) (xs : List ℕ)
    → now ≤ now'
    → retain (is_live window now') (retain (is_live window now) xs)
      ≡ retain (is_live window now') xs
retain-retain window now now' [] h = refl
retain-retain window now now' (x ∷ xs) h = ground (arith, retain-retain window now now' xs h)

-- The two states agree on what is live from the instant `c` on.
abbrev Agrees : ℕ → ℕ → List ℕ → List ℕ → Type 0
Agrees window c ts log =
    (now : ℕ) → c ≤ now → retain (is_live window now) ts ≡ retain (is_live window now) log

module _ (window c now : ℕ) (ts log : List ℕ) (h : c ≤ now) (a : Agrees window c ts log) where
  Agrees-retain : Agrees window now (retain (is_live window now) ts) log
  Agrees-retain = λ now' le. rw (retain-retain window now now' ts le) (a now' (omega arith))

  Agrees-push : Agrees window now (retain (is_live window now) ts ++ now ∷ []) (log ++ now ∷ [])
  Agrees-push = λ now' le. rw (
    retain-append (is_live window now') (retain (is_live window now) ts) (now ∷ []),
    retain-append (is_live window now') log (now ∷ []),
    Agrees-retain now' le,
  )

answers-ideal_answers_from :
    (r : RateLimiter) (c : ℕ) (log times : List ℕ)
    → Agrees r.window c r.timestamps log
    → IsAscending c times
    → answers r times ≡ ideal_answers r.limit r.window log times
unfolding answers ideal_answers acquire
answers-ideal_answers_from r c log [] a h = refl
answers-ideal_answers_from r c log (now ∷ later) a (h, hs) = ground (
  arith,
  a now h,
  answers-ideal_answers_from (record r { timestamps = retain (is_live r.window now) r.timestamps })
      now log later (Agrees-retain r.window c now r.timestamps log h a) hs,
  answers-ideal_answers_from
      (record r { timestamps = retain (is_live r.window now) r.timestamps ++ now ∷ [] }) now
      (log ++ now ∷ []) later (Agrees-push r.window c now r.timestamps log h a) hs,
)

-- At instants that never go back, a new limiter answers every call as the specification does,
-- which grants a call exactly when fewer than `limit` of all earlier grants are younger than
-- the window: forgetting old timestamps changes no answer.
pub answers-ideal_answers :
    (limit window : ℕ) (times : List ℕ)
    → IsAscending 0 times
    → answers (new limit window) times ≡ ideal_answers limit window [] times
unfolding new
answers-ideal_answers limit window times h =
    answers-ideal_answers_from (new limit window) 0 [] times (λ now le. refl) h
