-- ===== src/Startup/Boot.antt =====
-- main.rs: what the server is set up with, and what a shutdown runs.
use topdesk_mcp_rs.Cli.Commands.{load, own_manager}
use topdesk_mcp_rs.Core.ConfigSchema.{Config}
use topdesk_mcp_rs.Core.Errors.{AnyError}
use topdesk_mcp_rs.Core.ShutdownHandler.{on_shutdown, shutdown, shutdown-on_shutdown}
use topdesk_mcp_rs.Data.Store.{StoreState}
use topdesk_mcp_rs.Shared.{
  String, Option, none, some, List, Result, ok, err, Result-cases, inl, inr, ◌≡◌, refl, ap, sym,
  ◌∙◌,
}
use topdesk_mcp_rs.Startup.{
  HarnessCrate, HarnessState, Harness, ready_for, set_up, health_checks_for, register_tracing,
  built_layer, start_logging,
}

module _ {W : Type 0} (h : HarnessCrate W) where
  abbrev pub tracing_provider : W → Option (W → W)
  tracing_provider w = (built_layer h w).1

  -- The world before the store is resolved.
  abbrev logged : W → W
  logged w = h.install_shutdown_handlers (start_logging h (tracing_provider w) (built_layer h w).0)

  abbrev ready : Config → String → Harness h
  ready config db_path = record {
    config = config;
    health_checks = health_checks_for h db_path;
    auth_manager = own_manager h.commands config;
  }

  ready_for_ok :
      (p p' : HarnessState h) (fns fns' : List (W → W)) (harness : Harness h) (config : Config)
      (r : StoreState h.commands.tools.store × W × Result AnyError String)
      → ready_for h p fns config r ≡ (p', fns', ok harness)
      → (db_path : String) × (harness ≡ ready config db_path)
        × (fns' ≡ on_shutdown h.abort_checks fns)
  unfolding ready_for
  ready_for_ok p p' fns fns' harness config (stores, w, err problem) e = cc
  ready_for_ok p p' fns fns' harness config (stores, w, ok db_path) e =
      (db_path, cc, ap (λ r. r.1) (sym e))

  -- A server that was set up has loaded its configuration and resolved its store.
  pub set_up_ok :
      (p p' : HarnessState h) (fns fns' : List (W → W)) (harness : Harness h)
      → set_up h p fns ≡ (p', fns', ok harness)
      → (config : Config) × (db_path : String) × (load h.commands p.world ≡ ok config)
        × (harness ≡ ready config db_path)
        × (fns' ≡ on_shutdown h.abort_checks (register_tracing h (tracing_provider p.world) fns))
  unfolding set_up
  set_up_ok p p' fns fns' harness e = elim (Result-cases (load h.commands p.world)) [
    | inr (problem, failed) ↦ let bad = rw (failed, set_up) at e in cc
    | inl (config, loaded) ↦
        let (db_path, made, cleanup) =
          ready_for_ok p p' (register_tracing h (tracing_provider p.world) fns) fns' harness config
            _ (rw (loaded, set_up) at e) in
        (config, db_path, loaded, made, cleanup)
  ]

  -- What shuts the tracing provider down, if there is one.
  abbrev pub shut_tracing : Option (W → W) → W → W
  shut_tracing none w = w
  shut_tracing (some provider) w = provider w

  shutdown-register :
      (provider : Option (W → W)) (fns : List (W → W)) (w : W)
      → shutdown (register_tracing h provider fns) w ≡ shutdown fns (shut_tracing provider w)
  shutdown-register none fns w = refl
  shutdown-register (some provider) fns w = (shutdown-on_shutdown provider fns w).0

  -- If the server was set up: a shutdown first aborts the periodic checks, then shuts the tracing
  -- provider down if its layer could be built, and then does what a shutdown before would have done.
  pub shutdown-set_up :
      (p p' : HarnessState h) (fns fns' : List (W → W)) (harness : Harness h)
      → set_up h p fns ≡ (p', fns', ok harness)
      → (w : W)
      → shutdown fns' w ≡ shutdown fns (shut_tracing (tracing_provider p.world) (h.abort_checks w))
  shutdown-set_up p p' fns fns' harness e w =
      let (_, _, _, _, cleanup) = set_up_ok p p' fns fns' harness e in
      let tracing = register_tracing h (tracing_provider p.world) fns in
      ap (λ f. shutdown f w) cleanup
      ∙ (shutdown-on_shutdown h.abort_checks tracing w).0
      ∙ shutdown-register (tracing_provider p.world) fns (h.abort_checks w)
