-- ===== src/Data/Versions.antt =====
-- The tables of API versions, one in each module that has one: data/store.rs (files and embedded
-- bytes), validation/validator.rs (schemas), cli/versions.rs and cli/setup_wizard.rs. Embedded bytes
-- are named by their file.
pub mod Agreement
use topdesk_mcp_rs.Shared.{
  String, Bool, true, false, Option, none, some, List, [], ◌∷◌, if◌then◌else◌, str_eq, map,
}
use topdesk_mcp_rs.Shared.Dict

abbrev pub version_store_files : List (String × String)
version_store_files =
    ("general-1.2.0", "mcp_store.db")
    ∷ ("incident-4.2.6", "mcp_store_vincident-4.2.6.db")
    ∷ (
      "knowledge-base-before-explorer-migration",
      "mcp_store_vknowledge-base-before-explorer-migration.db",
    )
    ∷ (
      "knowledge-base-after-explorer-migration",
      "mcp_store_vknowledge-base-after-explorer-migration.db",
    )
    ∷ ("knowledgebase-graphql-1.0.0", "mcp_store_vknowledgebase-graphql-1.0.0.db")
    ∷ ("reservations-2.0.0", "mcp_store_vreservations-2.0.0.db")
    ∷ ("services-1.3.7", "mcp_store_vservices-1.3.7.db")
    ∷ ("change-1.4.0", "mcp_store_vchange-1.4.0.db")
    ∷ ("assets-1.91.1", "mcp_store_vassets-1.91.1.db")
    ∷ ("operations-management-1.10.0", "mcp_store_voperations-management-1.10.0.db")
    ∷ ("visitors-2.0.0", "mcp_store_vvisitors-2.0.0.db")
    ∷ ("supporting-files-2.7.11", "mcp_store_vsupporting-files-2.7.11.db")
    ∷ ("access-roles-saas", "mcp_store_vaccess-roles-saas.db")
    ∷ ("access-roles-va-release-1-2026", "mcp_store_vaccess-roles-va-release-1-2026.db")
    ∷ ("lookandfeel-1.0.0", "mcp_store_vlookandfeel-1.0.0.db")
    ∷ ("task-notifications-1.0.0", "mcp_store_vtask-notifications-1.0.0.db")
    ∷ ("settings-1.1.0", "mcp_store_vsettings-1.1.0.db")
    ∷ ("custom-action-support-saas", "mcp_store_vcustom-action-support-saas.db")
    ∷ (
      "custom-action-support-va-release-1-2023-or-newer",
      "mcp_store_vcustom-action-support-va-release-1-2023-or-newer.db",
    )
    ∷ []

abbrev pub version_store_bytes : List (String × String)
version_store_bytes =
    ("general-1.2.0", "../../mcp_store.db.zst")
    ∷ ("incident-4.2.6", "../../mcp_store_vincident-4.2.6.db.zst")
    ∷ (
      "knowledge-base-before-explorer-migration",
      "../../mcp_store_vknowledge-base-before-explorer-migration.db.zst",
    )
    ∷ (
      "knowledge-base-after-explorer-migration",
      "../../mcp_store_vknowledge-base-after-explorer-migration.db.zst",
    )
    ∷ ("knowledgebase-graphql-1.0.0", "../../mcp_store_vknowledgebase-graphql-1.0.0.db.zst")
    ∷ ("reservations-2.0.0", "../../mcp_store_vreservations-2.0.0.db.zst")
    ∷ ("services-1.3.7", "../../mcp_store_vservices-1.3.7.db.zst")
    ∷ ("change-1.4.0", "../../mcp_store_vchange-1.4.0.db.zst")
    ∷ ("assets-1.91.1", "../../mcp_store_vassets-1.91.1.db.zst")
    ∷ ("operations-management-1.10.0", "../../mcp_store_voperations-management-1.10.0.db.zst")
    ∷ ("visitors-2.0.0", "../../mcp_store_vvisitors-2.0.0.db.zst")
    ∷ ("supporting-files-2.7.11", "../../mcp_store_vsupporting-files-2.7.11.db.zst")
    ∷ ("access-roles-saas", "../../mcp_store_vaccess-roles-saas.db.zst")
    ∷ ("access-roles-va-release-1-2026", "../../mcp_store_vaccess-roles-va-release-1-2026.db.zst")
    ∷ ("lookandfeel-1.0.0", "../../mcp_store_vlookandfeel-1.0.0.db.zst")
    ∷ ("task-notifications-1.0.0", "../../mcp_store_vtask-notifications-1.0.0.db.zst")
    ∷ ("settings-1.1.0", "../../mcp_store_vsettings-1.1.0.db.zst")
    ∷ ("custom-action-support-saas", "../../mcp_store_vcustom-action-support-saas.db.zst")
    ∷ (
      "custom-action-support-va-release-1-2023-or-newer",
      "../../mcp_store_vcustom-action-support-va-release-1-2023-or-newer.db.zst",
    )
    ∷ []

abbrev pub schema_assets : List (String × String)
schema_assets =
    ("general-1.2.0", "generated_schemas.json.zst")
    ∷ ("incident-4.2.6", "generated_schemas_vincident-4.2.6.json.zst")
    ∷ (
      "knowledge-base-before-explorer-migration",
      "generated_schemas_vknowledge-base-before-explorer-migration.json.zst",
    )
    ∷ (
      "knowledge-base-after-explorer-migration",
      "generated_schemas_vknowledge-base-after-explorer-migration.json.zst",
    )
    ∷ ("knowledgebase-graphql-1.0.0", "generated_schemas_vknowledgebase-graphql-1.0.0.json.zst")
    ∷ ("reservations-2.0.0", "generated_schemas_vreservations-2.0.0.json.zst")
    ∷ ("services-1.3.7", "generated_schemas_vservices-1.3.7.json.zst")
    ∷ ("change-1.4.0", "generated_schemas_vchange-1.4.0.json.zst")
    ∷ ("assets-1.91.1", "generated_schemas_vassets-1.91.1.json.zst")
    ∷ ("operations-management-1.10.0", "generated_schemas_voperations-management-1.10.0.json.zst")
    ∷ ("visitors-2.0.0", "generated_schemas_vvisitors-2.0.0.json.zst")
    ∷ ("supporting-files-2.7.11", "generated_schemas_vsupporting-files-2.7.11.json.zst")
    ∷ ("access-roles-saas", "generated_schemas_vaccess-roles-saas.json.zst")
    ∷ (
      "access-roles-va-release-1-2026",
      "generated_schemas_vaccess-roles-va-release-1-2026.json.zst",
    )
    ∷ ("lookandfeel-1.0.0", "generated_schemas_vlookandfeel-1.0.0.json.zst")
    ∷ ("task-notifications-1.0.0", "generated_schemas_vtask-notifications-1.0.0.json.zst")
    ∷ ("settings-1.1.0", "generated_schemas_vsettings-1.1.0.json.zst")
    ∷ ("custom-action-support-saas", "generated_schemas_vcustom-action-support-saas.json.zst")
    ∷ (
      "custom-action-support-va-release-1-2023-or-newer",
      "generated_schemas_vcustom-action-support-va-release-1-2023-or-newer.json.zst",
    )
    ∷ []

-- The `match` on the version.
unfoldable pub schemas_zst_for : String → Option String
schemas_zst_for api_version = Dict.get api_version schema_assets

pub record VersionRow : Type 0 where
  pub label : String
  pub is_default : Bool

abbrev pub known_versions : List VersionRow
known_versions =
    record { label = "general-1.2.0"; is_default = true }
    ∷ record { label = "incident-4.2.6"; is_default = false }
    ∷ record { label = "knowledge-base-before-explorer-migration"; is_default = false }
    ∷ record { label = "knowledge-base-after-explorer-migration"; is_default = false }
    ∷ record { label = "knowledgebase-graphql-1.0.0"; is_default = false }
    ∷ record { label = "reservations-2.0.0"; is_default = false }
    ∷ record { label = "services-1.3.7"; is_default = false }
    ∷ record { label = "change-1.4.0"; is_default = false }
    ∷ record { label = "assets-1.91.1"; is_default = false }
    ∷ record { label = "operations-management-1.10.0"; is_default = false }
    ∷ record { label = "visitors-2.0.0"; is_default = false }
    ∷ record { label = "supporting-files-2.7.11"; is_default = false }
    ∷ record { label = "access-roles-saas"; is_default = false }
    ∷ record { label = "access-roles-va-release-1-2026"; is_default = false }
    ∷ record { label = "lookandfeel-1.0.0"; is_default = false }
    ∷ record { label = "task-notifications-1.0.0"; is_default = false }
    ∷ record { label = "settings-1.1.0"; is_default = false }
    ∷ record { label = "custom-action-support-saas"; is_default = false }
    ∷ record { label = "custom-action-support-va-release-1-2023-or-newer"; is_default = false }
    ∷ []

-- The choices of the setup wizard.
abbrev pub version_choices : List String
version_choices =
    "general-1.2.0 (default/latest)" ∷ "incident-4.2.6" ∷ "knowledge-base-before-explorer-migration"
    ∷ "knowledge-base-after-explorer-migration" ∷ "knowledgebase-graphql-1.0.0"
    ∷ "reservations-2.0.0" ∷ "services-1.3.7" ∷ "change-1.4.0" ∷ "assets-1.91.1"
    ∷ "operations-management-1.10.0" ∷ "visitors-2.0.0" ∷ "supporting-files-2.7.11"
    ∷ "access-roles-saas" ∷ "access-roles-va-release-1-2026" ∷ "lookandfeel-1.0.0"
    ∷ "task-notifications-1.0.0" ∷ "settings-1.1.0" ∷ "custom-action-support-saas"
    ∷ "custom-action-support-va-release-1-2023-or-newer" ∷ []

abbrev pub choice_arms : List (String × String)
choice_arms =
    ("general-1.2.0 (default/latest)", "general-1.2.0")
    ∷ ("incident-4.2.6", "incident-4.2.6")
    ∷ ("knowledge-base-before-explorer-migration", "knowledge-base-before-explorer-migration")
    ∷ ("knowledge-base-after-explorer-migration", "knowledge-base-after-explorer-migration")
    ∷ ("knowledgebase-graphql-1.0.0", "knowledgebase-graphql-1.0.0")
    ∷ ("reservations-2.0.0", "reservations-2.0.0")
    ∷ ("services-1.3.7", "services-1.3.7")
    ∷ ("change-1.4.0", "change-1.4.0")
    ∷ ("assets-1.91.1", "assets-1.91.1")
    ∷ ("operations-management-1.10.0", "operations-management-1.10.0")
    ∷ ("visitors-2.0.0", "visitors-2.0.0")
    ∷ ("supporting-files-2.7.11", "supporting-files-2.7.11")
    ∷ ("access-roles-saas", "access-roles-saas")
    ∷ ("access-roles-va-release-1-2026", "access-roles-va-release-1-2026")
    ∷ ("lookandfeel-1.0.0", "lookandfeel-1.0.0")
    ∷ ("task-notifications-1.0.0", "task-notifications-1.0.0")
    ∷ ("settings-1.1.0", "settings-1.1.0")
    ∷ ("custom-action-support-saas", "custom-action-support-saas")
    ∷ (
      "custom-action-support-va-release-1-2023-or-newer",
      "custom-action-support-va-release-1-2023-or-newer",
    )
    ∷ []

-- The `match` on the selection; its last arm gives the selection itself.
unfoldable pub version_of_choice : String → String
version_of_choice selection = elim (Dict.get selection choice_arms) [
  | some label ↦ label
  | none ↦ selection
]
