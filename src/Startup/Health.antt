-- ===== src/Startup/Health.antt =====
-- main.rs, core/health_check_manager.rs and http/server.rs: what `/healthz` says of a server.
use topdesk_mcp_rs.Core.ComponentRegistry as Registry
use topdesk_mcp_rs.Core.ComponentRegistry.{
  ComponentState, ComponentStatus, healthy, unhealthy, overall_status, report,
}
use topdesk_mcp_rs.Core.HealthCheckManager as Checks
use topdesk_mcp_rs.Core.HealthCheckManager.{
  HealthCheckManager, CheckOutcome, passed, failed, timed_out, register, report_outcome, run_checks,
  run_once, run_ticks,
}
use topdesk_mcp_rs.Http.Server.{healthz}
use topdesk_mcp_rs.Shared.{
  ℕ, zero, suc, String, true, Option, none, some, [], ◌∷◌, ◌≡◌, refl, ap, ◌∙◌,
}
use topdesk_mcp_rs.Startup.{HarnessCrate, health_checks_for}

module _ {W : Type 0} (h : HarnessCrate W) where
  abbrev pub status_for : CheckOutcome → ℕ
  status_for passed = 200
  status_for (failed error) = 503
  status_for timed_out = 503

  -- A registry that has the store as its one, critical component.
  abbrev pub store_only : ComponentState → Registry.ComponentRegistry
  store_only state = record { components = ("store", record state { critical = true }) ∷ [] }

  -- The checks of one store, with such a registry.
  abbrev watching : String → ComponentState → HealthCheckManager W
  watching db_path state = record {
    registry = store_only state;
    checks = (health_checks_for h db_path).checks;
  }

  -- What `/healthz` answers of a registry.
  abbrev pub healthz_status : String → String → Registry.ComponentRegistry → ℕ
  healthz_status location name registry =
      let response =
        healthz (record { registry = registry; header_location = location; header_name = name }) in
      response.status

  status_after :
      (outcome : CheckOutcome) (now : ℕ) (state : ComponentState) (location name : String)
      → healthz_status location name (report_outcome "store" outcome now (store_only state))
        ≡ status_for outcome
  unfolding healthz report_outcome report overall_status
  status_after passed now state location name = refl
  status_after (failed error) now state location name = refl
  status_after timed_out now state location name = refl

  abbrev state_of : ComponentStatus → Option String → ℕ → ComponentState
  state_of status error now = record {
    name = "store";
    critical = true;
    status = status;
    last_checked_at = some now;
    last_error = error;
  }

  reported :
      (outcome : CheckOutcome) (now : ℕ) (state : ComponentState)
      → (after : ComponentState) × (report_outcome "store" outcome now (store_only state)
          ≡ store_only after)
  unfolding report_outcome report
  reported passed now state = (state_of healthy none now, refl)
  reported (failed error) now state = (state_of unhealthy (some error) now, refl)
  reported timed_out now state = (state_of unhealthy (some "timed out") now, refl)

  module _ (clock : W → ℕ) (tick : W → W) (db_path : String) where
    round-watching :
        (state : ComponentState) (w : W)
        → (after : ComponentState) × ((run_once clock (watching db_path state) w).1
            ≡ watching db_path after)
    unfolding run_once run_checks register Checks.new
    round-watching state w =
        let (w', outcome) = h.open_store db_path w in
        let (after, same) = reported outcome (clock w') state in
        (
          after,
          ap (λ r. record { registry = r; checks = (health_checks_for h db_path).checks }) same,
        )

    ticks-watching :
        (n : ℕ) (state : ComponentState) (w : W)
        → (after : ComponentState) × ((run_ticks clock tick n (watching db_path state) w).1
            ≡ watching db_path after)
    unfolding run_ticks
    ticks-watching zero state w = (state, refl)
    ticks-watching (suc n) state w =
        let w' = tick (run_ticks clock tick n (watching db_path state) w).0 in
        let (before, same) = ticks-watching n state w in
        let (after, next) = round-watching before w' in
        (after, ap (λ m. (run_once clock m w').1) same ∙ next)

    abbrev initial : ComponentState
    initial = record {
      name = "store";
      critical = true;
      status = healthy;
      last_checked_at = none;
      last_error = none;
    }

    -- For the checks of a store that has just been registered: before the first round `/healthz`
    -- answers 200, and after any number of rounds, but none, it answers as the last round found
    -- the store: 200 if it could be opened in time, 503 if opening it failed or timed out.
    pub healthz-run_ticks :
        (location name : String) (n : ℕ) (w : W)
        → (healthz_status location name (health_checks_for h db_path).registry ≡ 200)
          × (healthz_status location name
                (run_ticks clock tick (suc n) (health_checks_for h db_path) w).1.registry
              ≡ status_for
                  (h.open_store db_path
                    (tick (run_ticks clock tick n (health_checks_for h db_path) w).0)).1)
    unfolding run_ticks run_once run_checks register Checks.new Registry.register Registry.new
        healthz overall_status
    healthz-run_ticks location name n w =
        let w' = tick (run_ticks clock tick n (health_checks_for h db_path) w).0 in
        let (before, same) = ticks-watching n initial w in
        let (w₁, outcome) = h.open_store db_path w' in
        (
          refl,
          ap (λ m. healthz_status location name (run_once clock m w').1.registry) same
              ∙ status_after outcome (clock w₁) before location name,
        )
