-- ===== src/Tests/Resilience.antt =====
-- The limiter, the breaker, the cache and the registry at concrete inputs.
use topdesk_mcp_rs.Core.CircuitBreaker.{
  CircuitBreaker, closed, opened, half_open, on_failure, admit, elapsed, execute, breaker_open,
  inner as inner_error, new as new_breaker,
}
use topdesk_mcp_rs.Core.CircuitBreaker.Interleavings.{
  Reach, here, next, begin, fail, Reach-IsValid, half_open_admits_many,
}
use topdesk_mcp_rs.Core.CircuitBreaker.States.{
  IsValid, new-IsValid, execute-trial, execute-refused_iff, repeat, repeat-state,
}
use topdesk_mcp_rs.Core.ComponentRegistry.{ComponentRegistry, healthy, unhealthy}
use topdesk_mcp_rs.Core.Errors.{AnyError, message}
use topdesk_mcp_rs.Core.HealthCheckManager.{HealthCheckManager, failed}
use topdesk_mcp_rs.Core.QueryCache.{QueryCache, CacheEntry}
use topdesk_mcp_rs.Core.RateLimiter.{new, acquire}
use topdesk_mcp_rs.Core.RateLimiter.Refinement.{
  IsAscending, answers, ideal_answers, answers-ideal_answers,
}
use topdesk_mcp_rs.Core.RateLimiter.Window.{grants, count_in, grants-limit}
use topdesk_mcp_rs.Shared.{
  ℕ, ◌+◌, ◌≤◌, ◌<◌, eq_iff, arith, String, true, false, Option, none, some, List, [], ◌∷◌, Result,
  err, ◌≡◌, refl, ◌↔◌,
}
use topdesk_mcp_rs.Shared.Dict
use topdesk_mcp_rs.Shared.Dict.{Dict}

-- Six calls in two windows of ten, two of them allowed in each.
abbrev times : List ℕ
times = 0 ∷ 1 ∷ 5 ∷ 10 ∷ 11 ∷ 12 ∷ []

times-IsAscending : IsAscending 0 times
times-IsAscending =
    (omega arith, (omega arith, (omega arith, (omega arith, (omega arith, (omega arith, tt))))))

grants-limit_example : count_in 3 10 (grants (new 2 10) times) ≤ 2
grants-limit_example = grants-limit 2 10 times 3 times-IsAscending

answers-ideal_answers_example : answers (new 2 10) times ≡ ideal_answers 2 10 [] times
answers-ideal_answers_example = answers-ideal_answers 2 10 times times-IsAscending

granted_times : answers (new 2 10) times ≡ true ∷ true ∷ false ∷ true ∷ true ∷ false ∷ []
unfolding answers new acquire
granted_times = refl

-- A breaker open since 100 with a timeout of 50.
abbrev open_breaker : CircuitBreaker
open_breaker = record {
  failure_threshold = 2;
  reset_timeout = 50;
  inner = record { state = opened; failure_count = 2; opened_at = some 100 };
}

-- A call that takes five units and fails.
abbrev failing_call : ℕ → ℕ × Result AnyError String
failing_call w = (w + 5, err (message "HTTP 500"))

execute-trial_example :
    ((execute (λ w. w) failing_call open_breaker 160).1 ≡ 165)
    × ((execute (λ w. w) failing_call open_breaker 160).2 ≡ err (inner_error (message "HTTP 500")))
    × ((execute (λ w. w) failing_call open_breaker 160).0.inner.state ≡ opened)
    × ((execute (λ w. w) failing_call open_breaker 160).0.inner.opened_at ≡ some 165)
    × ((execute (λ w. w) failing_call open_breaker 160).0.inner.failure_count ≡ 3)
execute-trial_example = execute-trial (λ w. w) failing_call open_breaker 160 refl (omega arith)

execute-refused_iff_example :
    ((execute (λ w. w) failing_call open_breaker 120).2 ≡ err breaker_open)
    ↔ ((opened ≡ opened) × (elapsed (some 100) 120 < 50))
execute-refused_iff_example = execute-refused_iff (λ w. w) failing_call open_breaker 120

abbrev fresh_breaker : CircuitBreaker
fresh_breaker = record {
  failure_threshold = 2;
  reset_timeout = 50;
  inner = record { state = closed; failure_count = 0; opened_at = none };
}

fresh_breaker-IsValid : IsValid fresh_breaker
unfolding new_breaker
fresh_breaker-IsValid = new-IsValid 2 50 (omega arith) (omega arith)

repeat-state_example : (repeat (λ w. w) failing_call 2 fresh_breaker 0).0.inner.state ≡ opened
repeat-state_example =
    repeat-state (λ w. w) failing_call (λ w. (message "HTTP 500", refl)) 2 fresh_breaker 0 refl refl
      (omega arith) fresh_breaker-IsValid

-- One call begins and fails.
one_failure :
    Reach
      (record { breaker = fresh_breaker; in_flight = 0 })
      (record { breaker = on_failure fresh_breaker 7; in_flight = 0 })
unfolding admit
one_failure = next (next here (begin 3 refl)) (fail 7)

Reach-IsValid_example : IsValid (on_failure fresh_breaker 7)
Reach-IsValid_example = Reach-IsValid one_failure fresh_breaker-IsValid

half_open_admits_many_example :
    Reach
      (record { breaker = open_breaker; in_flight = 0 })
      (record {
        breaker = record {
          failure_threshold = 2;
          reset_timeout = 50;
          inner = record { state = half_open; failure_count = 2; opened_at = some 100 };
        };
        in_flight = 3;
      })
half_open_admits_many_example = half_open_admits_many open_breaker 160 2 refl (omega arith)

abbrev registry : ComponentRegistry
registry = record {
  components =
      (
        "store",
        record {
          name = "store";
          critical = true;
          status = healthy;
          last_checked_at = none;
          last_error = none;
        },
      )
      ∷ (
        "telemetry",
        record {
          name = "telemetry";
          critical = false;
          status = unhealthy;
          last_checked_at = some 3;
          last_error = some "timed out";
        },
      )
      ∷ [];
}

abbrev health_checks : HealthCheckManager ℕ
health_checks = record {
  registry = registry;
  checks = record { name = "store"; check = λ w. (w + 5, failed "gone") } ∷ [];
}

-- The first key of the list.
abbrev first_key : {T : Type 0} → Dict (CacheEntry T) → Option String
first_key [] = none
first_key ((k, entry) ∷ m) = some k

first_key-present :
    (m : Dict (CacheEntry ℕ)) (k : String) → first_key m ≡ some k → Dict.contains_key k m ≡ true
first_key-present [] k e = cc
first_key-present ((j, entry) ∷ m) k e = ground (arith, eq_iff j k)

first_key-none : (m : Dict (CacheEntry ℕ)) → first_key m ≡ none → m ≡ []
first_key-none [] e = refl
first_key-none ((j, entry) ∷ m) e = cc

-- A cache of one entry, which is full.
abbrev full_cache : QueryCache ℕ
full_cache = record {
  max_size = 1;
  ttl = 10;
  store = ("a", record { value = 1; expires_at = 20 }) ∷ [];
}
