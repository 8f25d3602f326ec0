-- ===== src/Tests/Sharing.antt =====
-- A session of tool calls, threads that share connections, and processes that share a directory.
use topdesk_mcp_rs.Core.McpServer.{SearchArgs, run_tool, lookup, search, get}
use topdesk_mcp_rs.Core.McpServer.Sessions.{
  Request, search_request, get_request, call_request, serve_each,
}
use topdesk_mcp_rs.Core.McpServer.Sessions.Refinement.{
  uncached, ideal_serve_each, serve_each-ideal_serve_each,
}
use topdesk_mcp_rs.Core.McpServer.Sessions.Stability.{serve_each-pinned}
use topdesk_mcp_rs.Core.ConfigSchema.{stdio}
use topdesk_mcp_rs.Data.Store.{
  StoreState, cached_store_connection, resolve_store_path, cached_in_memory_connection, embedded,
  extract, move_into_place, publish, load_into_memory,
}
use topdesk_mcp_rs.Data.Store.Races.{whole, extracts, Directory, Event, turn_of, killed, run_events}
use topdesk_mcp_rs.Data.Store.Races.Readers.{AreApart, IsSafe, run_events-IsSafe}
use topdesk_mcp_rs.Data.Store.Sharing as Threads
use topdesk_mcp_rs.Data.Store.Sharing.{run_schedule, asks, answered}
use topdesk_mcp_rs.Data.Store.Sharing.Agreement.{IsAgreed, answers_agree}
use topdesk_mcp_rs.Shared.{
  String, Bool, true, false, not, ◌||◌, none, some, List, [], ◌∷◌, ok, eqb, str_eq, if◌then◌else◌,
  ◌≡◌, refl,
}
use topdesk_mcp_rs.Tests.Fixtures.{
  tools, process, server_for, arguments, store_crate, empty_state, search_crate, open_schemas,
}
use topdesk_mcp_rs.Tools.GetTool.{get_operation}
use topdesk_mcp_rs.Tools.SearchTool.{search_operations}
use topdesk_mcp_rs.Validation.Coherence.{empty-IsCoherent}

abbrev requests : List Request
requests =
    get_request "getAsset"
    ∷ call_request (record { operation_id = "getAsset"; arguments = arguments }) none
    ∷ call_request (record { operation_id = "getAsset"; arguments = arguments }) none
    ∷ search_request (record { query = "asset"; limit = 5 })
    ∷ []

serve_each-ideal_serve_each_example :
    let (last, answers) = serve_each tools (server_for stdio) requests process in
    (uncached tools last, answers)
    ≡ ideal_serve_each tools (server_for stdio) requests (uncached tools process)
serve_each-ideal_serve_each_example =
    serve_each-ideal_serve_each tools (server_for stdio) requests process
      (empty-IsCoherent open_schemas "general-1.2.0")

-- The stores after the first access to a version.
abbrev first_stores : StoreState store_crate
first_stores = record {
  extracted = ("general-1.2.0", "/tmp/topdesk-mcp-store/mcp_store.db") ∷ [];
  unique = 1;
  connections = ("general-1.2.0", "/tmp/topdesk-mcp-store/mcp_store.db") ∷ [];
}

first_access :
    cached_store_connection store_crate "general-1.2.0" empty_state 1
    ≡ (first_stores, 2, ok "/tmp/topdesk-mcp-store/mcp_store.db")
unfolding cached_store_connection resolve_store_path cached_in_memory_connection embedded extract
    move_into_place load_into_memory
first_access = refl

abbrev later_requests : List Request
later_requests =
    get_request "getAsset" ∷ search_request (record { query = "asset"; limit = 5 }) ∷ []

serve_each-pinned_example :
    let p = record process { stores = first_stores; world = 2 } in
    let last = record (serve_each tools (server_for stdio) later_requests p).0 { world = 9 } in
    ((args : SearchArgs)
      → search tools (server_for stdio) args last ≡ (
        last,
        run_tool tools (
            search_operations search_crate "/tmp/topdesk-mcp-store/mcp_store.db" args.query
              args.limit),
      ))
    × ((operation_id : String)
        → get tools (server_for stdio) operation_id last ≡ (
          last,
          run_tool tools (
              get_operation operation_id
                (lookup tools "/tmp/topdesk-mcp-store/mcp_store.db" operation_id)),
        ))
serve_each-pinned_example =
    serve_each-pinned tools (server_for stdio) later_requests
      (record process { stores = first_stores; world = 2 }) empty_state 1 9
      "/tmp/topdesk-mcp-store/mcp_store.db" first_access

-- Every thread asks for one version; the first two have different files.
abbrev threads : Threads.Threads store_crate
threads = record {
  cache = [];
  world = 1;
  phase = λ i. asks "general-1.2.0" (if eqb i 0 then "/tmp/a.db" else "/tmp/b.db");
}

-- Both miss, both load, and the first publishes.
abbrev contended : List (Threads.Event store_crate)
contended =
    Threads.turn_of 0
    ∷ Threads.turn_of 1
    ∷ Threads.turn_of 0
    ∷ Threads.world_becomes 5
    ∷ Threads.turn_of 1
    ∷ Threads.turn_of 0
    ∷ []

threads-IsAgreed : IsAgreed store_crate threads
threads-IsAgreed i key conn e = cc

first_answers :
    (run_schedule store_crate contended threads).phase 0 ≡ answered "general-1.2.0" (ok "/tmp/a.db")
unfolding run_schedule load_into_memory publish
first_answers = refl

second_answers :
    (run_schedule store_crate
        (Threads.turn_of 1 ∷ [])
        (run_schedule store_crate contended threads)).phase
      1
    ≡ answered "general-1.2.0" (ok "/tmp/a.db")
unfolding run_schedule load_into_memory publish
second_answers = refl

answers_agree_example : ◌≡◌ {A = String} "/tmp/a.db" "/tmp/a.db"
answers_agree_example =
    answers_agree store_crate contended (Threads.turn_of 1 ∷ []) threads threads-IsAgreed 0 1
      "general-1.2.0" "/tmp/a.db" "/tmp/a.db" first_answers second_answers

-- Two processes, told apart by a bit.
abbrev same_process : Bool → Bool → Bool
same_process true p = p
same_process false p = not p

abbrev tmp_of : Bool → String
tmp_of true = "/tmp/topdesk-mcp-store/mcp_store.db.7.0.tmp"
tmp_of false = "/tmp/topdesk-mcp-store/mcp_store.db.8.0.tmp"

names_apart : (p q : Bool) → same_process p q ≡ false → str_eq (tmp_of p) (tmp_of q) ≡ false
names_apart true true e = cc
names_apart true false e = refl
names_apart false true e = refl
names_apart false false e = cc

one_process : (p q : Bool) → same_process p q ≡ true → p ≡ q
one_process true true e = refl
one_process true false e = cc
one_process false true e = cc
one_process false false e = refl

not_the_store : (p : Bool) → str_eq (tmp_of p) "/tmp/topdesk-mcp-store/mcp_store.db" ≡ false
not_the_store true = refl
not_the_store false = refl

processes-AreApart : AreApart same_process tmp_of "/tmp/topdesk-mcp-store/mcp_store.db"
processes-AreApart = record {
  same_process = one_process;
  own_names = names_apart;
  off_path = not_the_store;
}

-- A store is one of two texts; both processes are about to extract one, over an old one.
abbrev IsStore : String → Type 0
IsStore raw = (str_eq raw "old" || str_eq raw "new") ≡ true

abbrev shared_directory : Directory String Bool
shared_directory = record {
  files = λ name.
      if str_eq name "/tmp/topdesk-mcp-store/mcp_store.db" then some (whole "old") else none;
  phase = λ p. extracts "new";
}

shared_directory-IsSafe :
    IsSafe IsStore same_process tmp_of "/tmp/topdesk-mcp-store/mcp_store.db" shared_directory
shared_directory-IsSafe = record { of_path = refl; of_process = λ p. refl }

-- The second process is killed in the middle of its write.
abbrev race : List (Event Bool)
race =
    turn_of true false
    ∷ turn_of false false
    ∷ turn_of true false
    ∷ killed false
    ∷ turn_of true true
    ∷ turn_of true false
    ∷ []

run_events-IsSafe_example :
    IsSafe IsStore same_process tmp_of "/tmp/topdesk-mcp-store/mcp_store.db"
      (run_events same_process tmp_of "/tmp/topdesk-mcp-store/mcp_store.db" race shared_directory)
run_events-IsSafe_example =
    run_events-IsSafe IsStore same_process tmp_of "/tmp/topdesk-mcp-store/mcp_store.db"
      processes-AreApart race shared_directory shared_directory-IsSafe
