-- ===== src/Bin/PopulateEmbeddings.antt =====
-- bin/populate_embeddings.rs: the program that fills the table of embeddings in every store. The file
-- system, zstd, SQLite and the embedding model are a parameter. A 32-bit float is the number of its
-- bits; the context that is added to an error is not modelled.
pub mod Files
pub mod Rows
pub mod Runs
use Prim.Native.String.{◌++◌}
use topdesk_mcp_rs.Core.Errors.{AnyError, message, any_to_string, join}
use topdesk_mcp_rs.Data.Versions.{version_store_files}
use topdesk_mcp_rs.Shared.{
  ℕ, ◌/◌, ◌%◌, String, Bool, true, false, Option, none, some, List, [], ◌∷◌, ◌++◌ as ◌+++◌, Result,
  ok, err, map_err, length, map, str_eq, if◌then◌else◌,
}
use topdesk_mcp_rs.Shared.Actions.{Action, pure, lift, gets, act, ◌>>=◌, ◌>>◌}

abbrev pub Call : Type 0 → Type 0 → Type 0
Call W A = Action W AnyError A

pub record EndpointRow : Type 0 where
  pub operation_id : String
  pub path : String
  pub method : String
  pub summary : Option String
  pub description : Option String

pub record PopulateCrate (W : Type 0) : Type 1 where
  pub Bytes : Type 0
  pub Conn : Type 0
  pub exists : String → W → Bool
  pub read : String → W → Result AnyError Bytes
  -- `fs::write`, and `File::create` with the `write_all` that follows.
  pub write : String → Bytes → Call W (Unit {0})
  pub create : String → Call W (Unit {0})
  pub write_all : String → Bytes → Call W (Unit {0})
  pub remove_file : String → Call W (Unit {0})
  pub encode_all : ℕ → Bytes → Result AnyError Bytes
  pub decode_all : Bytes → Result AnyError Bytes
  pub open_store_read_write : String → Call W Conn
  pub prepare : Conn → String → Call W (Unit {0})
  -- The queries: the rows of `endpoints`, the left join, and the two statements by their key.
  pub select_endpoints : Conn → Call W (List EndpointRow)
  pub select_missing : Conn → Call W (List String)
  pub delete_embedding : Conn → String → Call W (Unit {0})
  pub insert_embedding : Conn → String → List ℕ → Call W (Unit {0})
  pub embed : String → Result AnyError (List ℕ)
  pub println : String → W → W
  pub eprintln : String → W → W
  pub show : ℕ → String

abbrev pub zstd_level : ℕ
zstd_level = 19

abbrev pub zst_sibling : String → String
zst_sibling path = path ++ ".zst"

-- `to_le_bytes` of a float.
abbrev pub to_le_bytes : ℕ → List ℕ
to_le_bytes b = b % 256 ∷ (b / 256) % 256 ∷ (b / 65536) % 256 ∷ (b / 16777216) % 256 ∷ []

unfoldable pub vector_to_le_bytes : List ℕ → List ℕ
vector_to_le_bytes [] = []
vector_to_le_bytes (value ∷ vector) = to_le_bytes value +++ vector_to_le_bytes vector

-- `flatten` of optional texts.
abbrev pub flatten : List (Option String) → List String
flatten [] = []
flatten (none ∷ more) = flatten more
flatten (some text ∷ more) = text ∷ flatten more

unfoldable pub text_of : EndpointRow → String
text_of row =
    join " " (flatten (some row.method ∷ some row.path ∷ row.summary ∷ row.description ∷ []))

unfoldable pub targets_from : List String → List String
targets_from [] = map (λ entry. entry.1) version_store_files
targets_from (path ∷ more) =
    if str_eq path "--all" then map (λ entry. entry.1) version_store_files else path ∷ []

-- The arguments without the program's name.
unfoldable pub targets : List String → List String
unfolding targets_from
targets [] = targets_from []
targets (program ∷ args) = targets_from args

module _ {W : Type 0} (c : PopulateCrate W) where
  unfoldable pub ensure_raw_db : String → Call W (Unit {0})
  ensure_raw_db path w = elim (c.exists path w) [
    | true ↦ (w, ok tt)
    | false ↦ elim (c.read (zst_sibling path) w) [
      | err e ↦ (w, err e)
      | ok compressed ↦ elim (c.decode_all compressed) [
        | err e ↦ (w, err e)
        | ok decompressed ↦ c.write path decompressed w
      ]
    ]
  ]

  unfoldable pub recompress_and_remove_raw : String → Call W (Unit {0})
  recompress_and_remove_raw path = do
    raw ← λ w. (w, c.read path w)
    compressed ← lift (c.encode_all zstd_level raw)
    c.create (zst_sibling path)
    c.write_all (zst_sibling path) compressed
    c.remove_file path

  abbrev pub embedding_error : String → EndpointRow → AnyError → AnyError
  embedding_error path row e = message (
      "failed to compute embedding for '"
      ++ (row.operation_id ++ ("' in '" ++ (path ++ ("': " ++ any_to_string e)))))

  -- The loop over the rows.
  unfoldable pub index_rows : c.Conn → String → List EndpointRow → Call W (Unit {0})
  index_rows conn path [] = pure tt
  index_rows conn path (row ∷ rows) = do
    vector ← lift (map_err (embedding_error path row) (c.embed (text_of row)))
    c.delete_embedding conn row.operation_id
    c.insert_embedding conn row.operation_id (vector_to_le_bytes vector)
    index_rows conn path rows

  unfoldable pub populate_one : String → Call W ℕ
  unfolding index_rows
  populate_one path = do
    conn ← c.open_store_read_write path
    rows ← c.select_endpoints conn
    c.prepare conn "DELETE FROM semantic_endpoints WHERE operation_id = ?1"
    c.prepare conn "INSERT INTO semantic_endpoints (operation_id, embedding) VALUES (?1, ?2)"
    index_rows conn path rows
    pure (length rows)

  unfoldable pub missing_operation_ids : String → Call W (List String)
  missing_operation_ids path = do conn ← c.open_store_read_write path; c.select_missing conn

  -- Whether a mismatch was seen before or is seen here; one that is seen is reported.
  unfoldable pub report_missing : String → List String → Bool → Call W Bool
  report_missing path [] had_mismatch = pure had_mismatch
  report_missing path (id ∷ ids) had_mismatch = do
    act (
        c.eprintln (
          "ERROR: '"
          ++ (path
              ++ ("' has "
                  ++ (c.show (length (id ∷ ids))
                      ++ (" endpoint(s) missing from semantic_endpoints (row-count parity check failed): "
                          ++ join ", " (id ∷ ids)))))))
    pure true

  -- The loop over the targets.
  unfoldable pub populate_each : List String → Bool → Call W Bool
  unfolding populate_one missing_operation_ids report_missing
  populate_each [] had_mismatch = pure had_mismatch
  populate_each (path ∷ paths) had_mismatch = do
    ensure_raw_db path
    count ← populate_one path
    act (
        c.println (
          "populated embeddings for " ++ (c.show count ++ (" operation(s) in '" ++ (path ++ "'")))))
    missing ← missing_operation_ids path
    seen ← report_missing path missing had_mismatch
    recompress_and_remove_raw path
    populate_each paths seen

  abbrev pub incomplete : AnyError
  incomplete =
      message
        "embedding population incomplete: one or more stores have semantic_endpoints row counts below their endpoints row counts (see errors above)"

  unfoldable pub main : List String → Call W (Unit {0})
  unfolding populate_each targets
  main args = do
    had_mismatch ← populate_each (targets args) false
    lift (if had_mismatch then err incomplete else ok tt)
