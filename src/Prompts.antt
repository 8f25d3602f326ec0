-- ===== src/Prompts.antt =====
-- prompts/mod.rs and prompts/router.rs: the guided prompts. The texts of the prompts' files
-- (prompts/content) and `trim` are parameters.
pub mod Catalogs
use Prim.Native.String.{◌++◌}
use topdesk_mcp_rs.Core.Errors.{join}
use topdesk_mcp_rs.Shared.{
  String, Bool, true, false, Option, none, some, List, [], ◌∷◌, if◌then◌else◌, str_eq, any,
}

-- `expected.contains(&active)`
abbrev pub contains : String → List String → Bool
contains active expected = any (λ label. str_eq label active) expected

abbrev pub matching_text : String → String → String
matching_text active expected_list =
    "## Active catalog check\n\nActive catalog: `"
    ++ (active
        ++ ("` — matches what this workflow needs (one of `"
            ++ (expected_list
                ++ "`). You can proceed, but individual operation names below still aren't guaranteed to exist verbatim in this exact version — confirm each one with `search`/`get` before calling it.\n")))

abbrev pub mismatch_text : String → String → String
mismatch_text active expected_list =
    "## Active catalog check — MISMATCH\n\nActive catalog: `"
    ++ (active
        ++ ("`. This workflow needs one of: `"
            ++ (expected_list
                ++ "`.\n\nDo not proceed as if this workflow's operations exist — they are not in the currently loaded catalog and `search` will not find them. Tell the user plainly that this server needs to be restarted with a different `api_version` (config file or `TOPDESK_MCP_API_VERSION` env var) before this workflow is possible; you cannot switch it yourself mid-session. See docs/SCHEMA_VERSIONS.md for the exact version label to use.\n")))

unfoldable pub catalog_check_block : String → List String → String
catalog_check_block active_api_version expected =
    let expected_list = join "`, `" expected in
    if contains active_api_version expected
    then matching_text active_api_version expected_list
    else mismatch_text active_api_version expected_list

unfoldable pub render_context_header : (String → String) → Option String → String
render_context_header trim none = ""
render_context_header trim (some context) =
    if str_eq (trim context) ""
    then ""
    else "## Context already provided\n\n" ++ (trim context ++ "\n\n")

abbrev pub delegation_guidance : String
delegation_guidance =
    "\n## If your environment supports delegation\n\nSome MCP clients can hand work to a sub-task/sub-agent with its own context window (e.g. a Task tool, background agent). If yours does:\n\n- **Whole-workflow delegation** (biggest context saving): once the catalog check above passes, hand this entire playbook to a sub-task and only bring back the outcome (record number, status, any question that needs a human decision) — not every intermediate search/get/call round-trip.\n- **Step-level delegation**, even without the above: large searches (enumerating every category/operator/branch), and independent bulk calls with no ordering dependency between them (e.g. registering several unrelated assets), are good candidates to delegate or run in parallel rather than piping every raw row through your own context.\n\nIf your environment has no such mechanism, just work the numbered steps directly in this conversation — none of the above is required for correctness, only for context budget.\n"

-- A guided prompt: its name, the catalogs it expects, and the file of its text.
pub record Workflow : Type 0 where
  pub name : String
  pub expected : List String
  pub content : String

abbrev pub workflows : List Workflow
workflows =
    record {
      name = "topdesk-change-management-lifecycle";
      expected = "change-1.4.0" ∷ [];
      content = "content/change_management_lifecycle.md";
    }
    ∷ record {
      name = "topdesk-incident-lifecycle";
      expected = "incident-4.2.6" ∷ [];
      content = "content/incident_lifecycle.md";
    }
    ∷ record {
      name = "topdesk-asset-management-basics";
      expected = "assets-1.91.1" ∷ [];
      content = "content/asset_management_basics.md";
    }
    ∷ record {
      name = "topdesk-knowledge-base-lifecycle";
      expected =
          "knowledge-base-before-explorer-migration" ∷ "knowledge-base-after-explorer-migration"
          ∷ "knowledgebase-graphql-1.0.0" ∷ [];
      content = "content/knowledge_base_lifecycle.md";
    }
    ∷ record {
      name = "topdesk-reservations-booking";
      expected = "reservations-2.0.0" ∷ [];
      content = "content/reservations_booking.md";
    }
    ∷ record {
      name = "topdesk-reference-data-lookup";
      expected = "supporting-files-2.7.11" ∷ [];
      content = "content/reference_data_lookup.md";
    }
    ∷ record {
      name = "topdesk-visitor-registration";
      expected = "visitors-2.0.0" ∷ [];
      content = "content/visitor_registration.md";
    }
    ∷ record {
      name = "topdesk-operations-management-tasks";
      expected = "operations-management-1.10.0" ∷ [];
      content = "content/operations_management_tasks.md";
    }
    ∷ record {
      name = "topdesk-access-roles-assignment";
      expected = "access-roles-saas" ∷ "access-roles-va-release-1-2026" ∷ [];
      content = "content/access_roles_assignment.md";
    }
    ∷ record {
      name = "topdesk-self-service-portal-requests";
      expected = "incident-4.2.6" ∷ "change-1.4.0" ∷ "reservations-2.0.0" ∷ [];
      content = "content/self_service_portal_requests.md";
    }
    ∷ []

-- The body of a workflow's prompt; the handlers of the router have this one shape.
unfoldable pub workflow_prompt :
    (include_str trim : String → String) → String → Workflow → Option String → String
workflow_prompt include_str trim api_version workflow context =
    catalog_check_block api_version workflow.expected
    ++ (render_context_header trim context
        ++ (include_str workflow.content ++ ("\n" ++ delegation_guidance)))

unfoldable pub menu_prompt : (String → String) → String → String
menu_prompt include_str api_version =
    "Active catalog right now: `"
    ++ (api_version
        ++ ("`\n\n" ++ (include_str "content/menu.md" ++ ("\n" ++ delegation_guidance))))
