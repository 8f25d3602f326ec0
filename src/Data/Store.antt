-- ===== src/Data/Store.antt =====
-- data/store.rs: the embedded stores, extracted once for each process, and the connections into
-- memory. The file system and SQLite are libraries that act on a world.
pub mod Extraction
pub mod Paths
pub mod Connections
pub mod Sharing
pub mod Races
use Prim.Native.String.{◌++◌}
use topdesk_mcp_rs.Core.Errors.{AnyError, message, context, stalled}
use topdesk_mcp_rs.Data.Versions.{version_store_files, version_store_bytes}
use topdesk_mcp_rs.Shared.{
  ℕ, zero, suc, ◌+◌, ◌*◌, ◌%◌, ◌^◌, String, Bool, true, false, Option, none, some, Result, ok, err,
  ok_or, ◌>>=◌, ltb, map_err,
}
use topdesk_mcp_rs.Shared.Dict
use topdesk_mcp_rs.Shared.Dict.{Dict}

pub record StoreCrate (W : Type 0) : Type 1 where
  pub Bytes : Type 0
  pub Disk : Type 0
  pub Conn : Type 0
  -- The directory for extracted stores, in the temp directory.
  pub store_dir : String
  pub create_dir_all : String → W → W × Result AnyError (Unit {0})
  pub decode_all : String → Result AnyError Bytes
  pub write : String → Bytes → W → W × Result AnyError (Unit {0})
  pub rename : String → String → W → W × Result AnyError (Unit {0})
  pub sleep_ms : ℕ → W → W
  pub pid : ℕ
  pub show : ℕ → String
  pub open_read_only : String → W → W × Result AnyError Disk
  pub backup_into_memory : Disk → W → W × Result AnyError Conn

abbrev pub in_dir : String → String → String
in_dir dir file = dir ++ ("/" ++ file)

-- The two tables looked up: the file and the embedded bytes of a version.
unfoldable pub embedded : String → Result AnyError (String × String)
embedded api_version = do
  file ← ok_or (Dict.get api_version version_store_files) (
      message (
        "unknown api_version '"
        ++ (api_version ++ "' — run the 'versions' command to see what's available")))
  bytes ←
      ok_or (Dict.get api_version version_store_bytes)
        (message ("no embedded store data for api_version '" ++ (api_version ++ "'")))
  ok (file, bytes)

module _ {W : Type 0} (c : StoreCrate W) where
  -- The process-wide state: extracted paths, the counter of temporary names, connections.
  pub record StoreState : Type 0 where
    pub extracted : Dict String
    pub unique : ℕ
    pub connections : Dict c.Conn

  -- The loop of the rename, on fuel: five retries with a growing pause, and then its error.
  unfoldable pub move_into_place : ℕ → ℕ → String → String → W → W × Result AnyError (Unit {0})
  move_into_place zero attempts tmp path w = (w, err stalled)
  move_into_place (suc fuel) attempts tmp path w =
      let (w', moved) = c.rename tmp path w in
      elim moved [
        | ok _ ↦ (w', ok tt)
        | err e ↦ elim (ltb attempts 5) [
          | true ↦
              move_into_place fuel (attempts + 1) tmp path (c.sleep_ms (50 * (attempts + 1)) w')
          | false ↦ (
            w',
            err (
                context ("failed to move extracted store data into place at '" ++ (path ++ "'")) e),
          )
        ]
      ]

  -- The temporary name; the counter is a u64.
  abbrev pub tmp_path : String → ℕ → String
  tmp_path file unique =
      in_dir c.store_dir (file ++ ("." ++ (c.show c.pid ++ ("." ++ (c.show unique ++ ".tmp")))))

  -- Directory, bytes, temporary file, rename: what an extraction does to the world. The counter
  -- moves on once a temporary name is made.
  unfoldable pub extract : String → String → ℕ → W → ℕ × W × Result AnyError String
  unfolding move_into_place
  extract file bytes unique w =
      let (w₁, made) = c.create_dir_all c.store_dir w in
      elim made [
        | err e ↦ (unique, w₁, err e)
        | ok _ ↦ elim (c.decode_all bytes) [
          | err e ↦ (unique, w₁, err e)
          | ok raw ↦
              let tmp = tmp_path file unique in
              let next = (unique + 1) % 2 ^ 64 in
              let (w₂, written) = c.write tmp raw w₁ in
              elim written [
                | err e ↦ (next, w₂, err e)
                | ok _ ↦
                    let path = in_dir c.store_dir file in
                    let (w₃, moved) = move_into_place 6 0 tmp path w₂ in
                    (next, w₃, moved >>= λ _. ok path)
              ]
        ]
      ]

  remember_path :
      String → StoreState → ℕ × W × Result AnyError String → StoreState × W × Result AnyError String
  remember_path api_version st (unique, w, err e) = (record st { unique = unique }, w, err e)
  remember_path api_version st (unique, w, ok path) = (
    record st { unique = unique; extracted = Dict.insert api_version path st.extracted },
    w,
    ok path,
  )

  unfoldable pub resolve_store_path :
      String → StoreState → W → StoreState × W × Result AnyError String
  unfolding embedded extract remember_path
  resolve_store_path api_version st w = elim (Dict.get api_version st.extracted) [
    | some path ↦ (st, w, ok path)
    | none ↦ elim (embedded api_version) [
      | err e ↦ (st, w, err e)
      | ok (file, bytes) ↦ remember_path api_version st (extract file bytes st.unique w)
    ]
  ]

  -- `cache.entry(key).or_insert(leaked)`: a connection that another thread published meanwhile
  -- is kept.
  unfoldable pub publish : String → c.Conn → Dict c.Conn → Dict c.Conn × c.Conn
  publish key conn cache = elim (Dict.get key cache) [
    | some first ↦ (cache, first)
    | none ↦ (Dict.insert key conn cache, conn)
  ]

  publish_in :
      String → StoreState → W × Result AnyError c.Conn → StoreState × W × Result AnyError c.Conn
  unfolding publish
  publish_in key st (w, err e) = (st, w, err e)
  publish_in key st (w, ok conn) =
      let (cache, kept) = publish key conn st.connections in
      (record st { connections = cache }, w, ok kept)

  -- Opens the file, copies it into memory and drops the handle.
  unfoldable pub load_into_memory : String → W → W × Result AnyError c.Conn
  load_into_memory path w =
      let (w₁, opened) = c.open_read_only path w in
      elim opened [ err e ↦ (w₁, err e) | ok disk ↦ c.backup_into_memory disk w₁ ]

  unfoldable pub cached_in_memory_connection :
      String → String → StoreState → W → StoreState × W × Result AnyError c.Conn
  unfolding publish_in load_into_memory
  cached_in_memory_connection key path st w = elim (Dict.get key st.connections) [
    | some conn ↦ (st, w, ok conn)
    | none ↦ publish_in key st (load_into_memory path w)
  ]

  unfoldable pub cached_store_connection :
      String → StoreState → W → StoreState × W × Result AnyError c.Conn
  unfolding resolve_store_path cached_in_memory_connection
  cached_store_connection api_version st w =
      let (st', w', resolved) = resolve_store_path api_version st w in
      elim resolved [
        | err e ↦ (st', w', err e)
        | ok path ↦ cached_in_memory_connection api_version path st' w'
      ]
