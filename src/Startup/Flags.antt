-- ===== src/Startup/Flags.antt =====
-- main.rs and core/config_manager.rs: the flags of the `start` and `http` commands, on their way
-- through the environment to what is served.
use Prim.Native.String.{◌++◌}
use topdesk_mcp_rs.Cli.Commands.{load}
use topdesk_mcp_rs.Core.ConfigManager.{
  Machine, load_config, env_suffixes, merge, layers, parse_env_value,
}
use topdesk_mcp_rs.Core.ConfigManager.Cascade.{ParsesMaps, merge_from_environment}
use topdesk_mcp_rs.Core.ConfigSchema.{Config, stdio, http}
use topdesk_mcp_rs.Core.Errors.{mcpify}
use topdesk_mcp_rs.Json.{Value, string, number, pos_int, object, to_fields}
use topdesk_mcp_rs.Shared.{
  ℕ, String, some, List, [], ok, map_err-eq-ok, str_eq, if◌then◌else◌, ◌≡◌, refl, ap, ◌∙◌,
}
use topdesk_mcp_rs.Shared.Dict
use topdesk_mcp_rs.Shared.Dict.{Dict}
use topdesk_mcp_rs.Startup.{HarnessCrate, HarnessState, Harness, set_up, set_http_vars}
use topdesk_mcp_rs.Startup.Boot.{set_up_ok}

-- What the decoding of a configuration makes of four of its settings.
pub record DecodesSettings (m : Machine) : Type 0 where
  pub of_transport :
      (settings : Dict Value) (config : Config)
      → m.decode (object (to_fields settings)) ≡ ok config
      → Dict.get "transport" settings ≡ some (string "http")
      → config.transport ≡ http
  pub of_stdio :
      (settings : Dict Value) (config : Config)
      → m.decode (object (to_fields settings)) ≡ ok config
      → Dict.get "transport" settings ≡ some (string "stdio")
      → config.transport ≡ stdio
  pub of_host :
      (settings : Dict Value) (config : Config) (text : String)
      → m.decode (object (to_fields settings)) ≡ ok config
      → Dict.get "host" settings ≡ some (string text)
      → config.host ≡ text
  pub of_port :
      (settings : Dict Value) (config : Config) (n : ℕ)
      → m.decode (object (to_fields settings)) ≡ ok config
      → Dict.get "port" settings ≡ some (number (pos_int n))
      → config.port ≡ n
  pub of_cors_allow :
      (settings : Dict Value) (config : Config) (text : String)
      → m.decode (object (to_fields settings)) ≡ ok config
      → Dict.get "cors_allow" settings ≡ some (string text)
      → config.cors_allow ≡ some text

module _ {W : Type 0} (h : HarnessCrate W) where
  -- What the code relies on: a variable that was set is the only one that has changed, the YAML
  -- parser gives maps, and the settings are decoded.
  pub record IsEnvironment : Type 0 where
    pub sets :
        (name value other : String) (w : W)
        → (h.commands.machine (h.set_var name value w)).env_var other
          ≡ (if str_eq name other then some value else (h.commands.machine w).env_var other)
    pub parses : (w : W) → ParsesMaps (h.commands.machine w)
    pub decodes : (w : W) → DecodesSettings (h.commands.machine w)

  decoded :
      (w : W) (config : Config)
      → load h.commands w ≡ ok config
      → (h.commands.machine w).decode
          (object (to_fields (merge (layers (h.commands.machine w) []))))
        ≡ ok config
  unfolding load_config
  decoded w config e = map_err-eq-ok _ _ (map_err-eq-ok mcpify _ e)

  -- A variable decides its setting, whatever the files say.
  from_env :
      IsEnvironment
      → (w : W) (key suffix value : String) → Dict.get key env_suffixes ≡ some suffix
      → (h.commands.machine w).env_var ("TOPDESK_MCP_" ++ suffix) ≡ some value
      → Dict.get key (merge (layers (h.commands.machine w) []))
        ≡ some (parse_env_value (h.commands.machine w) key value)
  from_env env w key suffix value row set =
      merge_from_environment (h.commands.machine w) (env.parses w) [] refl key suffix value refl row
        set

  -- If the environment, the YAML parser and the decoding do what they promise, the printed port
  -- is parsed, and the server is set up with the variables that `http --host --port --cors-allow` sets: it is ready to serve over HTTP
  -- on that host and port with that origin, whatever the files and the other variables say.
  pub set_up-http :
      IsEnvironment
      → (host cors_allow : String) (port : ℕ) (p p' : HarnessState h) (fns fns' : List (W → W))
      → (harness : Harness h)
      → ((w : W) → (h.commands.machine w).parse_u64 (h.show port) ≡ some port)
      → set_up h
          (record p { world = set_http_vars h (some host) (some port) (some cors_allow) p.world })
          fns
        ≡ (p', fns', ok harness)
      → (harness.config.transport ≡ http)
        × (harness.config.host ≡ host)
        × (harness.config.port ≡ port)
        × (harness.config.cors_allow ≡ some cors_allow)
  unfolding set_http_vars parse_env_value
  set_up-http env host cors_allow port p p' fns fns' harness printed e =
      let w₁ = h.set_var "TOPDESK_MCP_TRANSPORT" "http" p.world in
      let w₂ = h.set_var "TOPDESK_MCP_HOST" host w₁ in
      let w₃ = h.set_var "TOPDESK_MCP_PORT" (h.show port) w₂ in
      let w = h.set_var "TOPDESK_MCP_CORS_ALLOW" cors_allow w₃ in
      let (config, _, loaded, made, _) = set_up_ok h _ p' fns fns' harness e in
      let d = decoded w config loaded in
      let same = ap (λ (r : Harness h). r.config) made in
      let after_cors = λ (name : String). env.sets "TOPDESK_MCP_CORS_ALLOW" cors_allow name w₃ in
      let after_port = λ (name : String). env.sets "TOPDESK_MCP_PORT" (h.show port) name w₂ in
      let after_host = λ (name : String). env.sets "TOPDESK_MCP_HOST" host name w₁ in
      let of_cors = after_cors "TOPDESK_MCP_CORS_ALLOW" in
      let of_port = after_cors "TOPDESK_MCP_PORT" ∙ after_port "TOPDESK_MCP_PORT" in
      let of_host =
        after_cors "TOPDESK_MCP_HOST"
        ∙ after_port "TOPDESK_MCP_HOST"
        ∙ after_host "TOPDESK_MCP_HOST" in
      let of_transport =
        after_cors "TOPDESK_MCP_TRANSPORT"
        ∙ after_port "TOPDESK_MCP_TRANSPORT"
        ∙ after_host "TOPDESK_MCP_TRANSPORT"
        ∙ env.sets "TOPDESK_MCP_TRANSPORT" "http" "TOPDESK_MCP_TRANSPORT" p.world in
      let decodes = env.decodes w in
      (
        ap (λ (r : Config). r.transport) same
            ∙ decodes.of_transport _ config d
                (from_env env w "transport" "TRANSPORT" "http" refl of_transport),
        ap (λ (r : Config). r.host) same
            ∙ decodes.of_host _ config host d (from_env env w "host" "HOST" host refl of_host),
        ap (λ (r : Config). r.port) same
            ∙ decodes.of_port _ config port d
                (from_env env w "port" "PORT" (h.show port) refl of_port ∙ rw (printed w) refl),
        ap (λ (r : Config). r.cors_allow) same
            ∙ decodes.of_cors_allow _ config cors_allow d
                (from_env env w "cors_allow" "CORS_ALLOW" cors_allow refl of_cors),
      )

  -- Under the same conditions, a server that is set up with the variable that `start` sets is
  -- ready to serve over stdio, whatever the files and the other variables say.
  pub set_up-stdio :
      IsEnvironment
      → (p p' : HarnessState h) (fns fns' : List (W → W)) (harness : Harness h)
      → set_up h (record p { world = h.set_var "TOPDESK_MCP_TRANSPORT" "stdio" p.world }) fns
        ≡ (p', fns', ok harness)
      → harness.config.transport ≡ stdio
  unfolding parse_env_value
  set_up-stdio env p p' fns fns' harness e =
      let w = h.set_var "TOPDESK_MCP_TRANSPORT" "stdio" p.world in
      let (config, _, loaded, made, _) = set_up_ok h _ p' fns fns' harness e in
      let set = env.sets "TOPDESK_MCP_TRANSPORT" "stdio" "TOPDESK_MCP_TRANSPORT" p.world in
      ap (λ (r : Harness h). r.config.transport) made
      ∙ (env.decodes w).of_stdio _ config (decoded w config loaded)
          (from_env env w "transport" "TRANSPORT" "stdio" refl set)
