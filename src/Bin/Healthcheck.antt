-- ===== src/Bin/Healthcheck.antt =====
-- bin/healthcheck.rs: the exit code for Docker, and what is printed. Opening the file is the system's,
-- and its error a text.
use Prim.Native.String.{◌++◌}
use topdesk_mcp_rs.Shared.{ℕ, String, List, [], ◌∷◌, Result, ok, err}

abbrev pub store_path : String
store_path = "mcp_store.db.zst"

-- The lines on standard error and the exit code.
unfoldable pub main : (String → Result String (Unit {0})) → List String × ℕ
main open_file = elim (open_file store_path) [
  | ok _ ↦ ([], 0)
  | err e ↦
      (("healthcheck failed: '" ++ (store_path ++ ("' is missing or unreadable: " ++ e))) ∷ [], 1)
]
