-- ===== src/Cli/Commands/Agreement.antt =====
-- cli/search.rs, cli/get.rs and cli/call.rs beside the tools of core/mcp_server.rs.
use topdesk_mcp_rs.Cli.Commands.{
  CommandCrate, Lines, State, load, server_of, own_manager, printed, warm_up, measure, searches,
  search_once, run_search, run_get, run_call, call_endpoint,
}
use topdesk_mcp_rs.Core.ConfigSchema.{Config}
use topdesk_mcp_rs.Core.Errors.{AnyError, any_to_string, join}
use topdesk_mcp_rs.Core.McpServer
use topdesk_mcp_rs.Core.McpServer.{
  CallToolResult, Process, run_tool, request_credentials, connect, lookup,
}
use topdesk_mcp_rs.Data.Store.{StoreState, cached_store_connection}
use topdesk_mcp_rs.Json.{Value}
use topdesk_mcp_rs.Shared.{
  ℕ, zero, suc, ◌<◌, String, true, false, none, some, Result, ok, err, ◌>>=◌, eqb, Result-cases,
  inl, inr, ◌≡◌, refl, ap, sym, ◌∙◌, arith,
}
use topdesk_mcp_rs.Tools.GetTool.{require_endpoint}
use topdesk_mcp_rs.Tools.SearchTool.{search_operations}

-- What the answer of a command says, as a tool would: the lines, or the error's text.
abbrev pub as_tool_result : Result AnyError Lines → CallToolResult
as_tool_result (ok lines) = record { is_error = false; text = join "\n" lines }
as_tool_result (err e) = record { is_error = true; text = any_to_string e }

module _ {W : Type 0} (c : CommandCrate W) where
  warm_up_ok :
      (n : ℕ) (conn : c.tools.store.Conn) (query : String) (limit : ℕ) (v : Value)
      → search_once c conn query limit ≡ ok v
      → warm_up c n conn query limit ≡ ok tt
  unfolding warm_up
  warm_up_ok zero conn query limit v e = refl
  warm_up_ok (suc n) conn query limit v e = rw e (warm_up_ok n conn query limit v e)

  measure_ok :
      (n : ℕ) (conn : c.tools.store.Conn) (query : String) (limit : ℕ) (v : Value)
      → search_once c conn query limit ≡ ok v
      → measure c n conn query limit v ≡ ok v
  unfolding measure
  measure_ok zero conn query limit v e = refl
  measure_ok (suc n) conn query limit v e = rw e (measure_ok n conn query limit v e)

  searches_failed :
      (warmups iterations : ℕ) (conn : c.tools.store.Conn) (query : String) (limit : ℕ)
      (e : AnyError)
      → search_once c conn query limit ≡ err e
      → searches c warmups iterations conn query limit ≡ err e
  unfolding searches warm_up
  searches_failed zero iterations conn query limit e failed = rw failed refl
  searches_failed (suc n) iterations conn query limit e failed = rw failed refl

  searches_once :
      (warmups iterations : ℕ) (conn : c.tools.store.Conn) (query : String) (limit : ℕ)
      → searches c warmups iterations conn query limit ≡ search_once c conn query limit
  unfolding searches
  searches_once warmups iterations conn query limit =
      elim (Result-cases (search_once c conn query limit)) [
        | inr (e, failed) ↦
            searches_failed warmups iterations conn query limit e failed ∙ sym failed
        | inl (v, found) ↦
            rw (searches, warm_up_ok warmups conn query limit v found, found)
              (measure_ok _ conn query limit v found)
      ]

  abbrev Connected : Type 0
  Connected = StoreState c.tools.store × W × Result AnyError c.tools.store.Conn

  -- What a search does once the connection is asked for.
  abbrev after_search : String → ℕ → ℕ → ℕ → State c → Connected → State c × Result AnyError Lines
  after_search query limit warmups iterations p (stores, w, connected) = (
    record p { stores = stores; world = w },
    printed c (connected >>= λ conn. searches c warmups iterations conn query limit),
  )

  after_search_once :
      (query : String) (limit warmups iterations : ℕ) (p : State c) (r : Connected)
      → after_search query limit warmups iterations p r ≡ after_search query limit 0 1 p r
  after_search_once query limit warmups iterations p (stores, w, err e) = refl
  after_search_once query limit warmups iterations p (stores, w, ok conn) =
      ap (λ r. (record p { stores = stores; world = w }, printed c r))
        (searches_once warmups iterations conn query limit
          ∙ sym (searches_once 0 1 conn query limit))

  -- For every number of warm-ups and every number of measured rounds but none: the search command
  -- does and prints what it does without warm-ups and in one round.
  pub run_search_rounds :
      (query : String) (limit warmups iterations : ℕ) (p : State c)
      → 0 < iterations
      → run_search c query limit warmups iterations p ≡ run_search c query limit 0 1 p
  unfolding run_search
  run_search_rounds query limit warmups iterations p h =
      let some_round : eqb iterations 0 ≡ false = ground arith in
      elim (Result-cases (load c p.world)) [
        | inr (e, failed) ↦ rw (some_round, run_search, failed) refl
        | inl (config, loaded) ↦
            rw (some_round, run_search, loaded)
              (after_search_once query limit warmups iterations p
                (cached_store_connection c.tools.store config.api_version p.stores p.world))
      ]

  -- An answer printed in one line is the tool's.
  printed-run_tool : (r : Result AnyError Value) → as_tool_result (printed c r) ≡ run_tool c.tools r
  unfolding run_tool join
  printed-run_tool (ok v) = refl
  printed-run_tool (err e) = refl

  -- A command's answer beside the state, as a tool gives them.
  abbrev pub same : State c × Result AnyError Lines → Process c.tools × CallToolResult
  same (p, answer) = (p, as_tool_result answer)

  search_same :
      (query : String) (limit : ℕ) (p : State c) (r : Connected)
      → same (after_search query limit 0 1 p r) ≡ (
        record p { stores = r.0; world = r.1 },
        run_tool c.tools (r.2 >>= λ conn. search_operations c.tools.search conn query limit),
      )
  unfolding run_tool
  search_same query limit p (stores, w, err e) = refl
  search_same query limit p (stores, w, ok conn) =
      let found = search_operations c.tools.search conn query limit in
      ap (λ r. (record p { stores = stores; world = w }, r))
        (ap (λ r. as_tool_result (printed c r)) (searches_once 0 1 conn query limit)
          ∙ printed-run_tool found)

  -- If the configuration loads: the search command with any rounds, and the get command, change the
  -- state of the process as the server's tools of that configuration do, and print what the
  -- tools answer: its text, or the text of its error.
  pub run_search-search :
      (config : Config) (p : State c)
      → load c p.world ≡ ok config
      → (query : String) (limit warmups iterations : ℕ) (operation_id : String) → 0 < iterations
      → (same (run_search c query limit warmups iterations p)
          ≡ McpServer.search c.tools
              (server_of c config)
              (record { query = query; limit = limit })
              p)
        × (same (run_get c operation_id p)
            ≡ McpServer.get c.tools (server_of c config) operation_id p)
  unfolding run_search run_get McpServer.search McpServer.get
  run_search-search config p loaded query limit warmups iterations operation_id h = (
    ap same (run_search_rounds query limit warmups iterations p h)
        ∙ rw (loaded, run_search)
            (search_same query limit p
              (cached_store_connection c.tools.store config.api_version p.stores p.world)),
    rw (loaded, run_get)
        (ap (λ r. ((connect c.tools (server_of c config) p).0, r)) (printed-run_tool _)),
  )

  -- If the configuration loads, the text of the arguments parses, and the process has the manager
  -- that the command makes for itself: the call command does what the server's call tool does
  -- over stdio, and prints what the tool answers.
  pub run_call-call :
      (config : Config) (args : Value) (args_json operation_id : String) (p : State c)
      → load c p.world ≡ ok config
      → c.tools.parse_json args_json ≡ some args
      → p.auth_manager ≡ own_manager c config
      → same (run_call c operation_id args_json p)
        ≡ McpServer.call c.tools
            (server_of c config)
            (record { operation_id = operation_id; arguments = args })
            none
            p
  unfolding run_call McpServer.call request_credentials run_tool call_endpoint
  run_call-call config args args_json operation_id p loaded parsed own =
      let (p', connected) = connect c.tools (server_of c config) p in
      elim (Result-cases
        (connected >>= λ conn. require_endpoint operation_id (lookup c.tools conn operation_id))) [
          | inr (e, failed) ↦ rw (loaded, run_call, parsed, failed, McpServer.call, run_tool) refl
          | inl (endpoint, found) ↦
              rw (loaded, run_call, parsed, found, McpServer.call, own, request_credentials)
                (ap (λ r. ((call_endpoint c config operation_id args p' endpoint).0, r))
                  (printed-run_tool _))
        ]
