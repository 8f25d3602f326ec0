-- ===== src/Tests/Populate.antt =====
-- Populating a store with one endpoint; files and the table of embeddings are the world.
use topdesk_mcp_rs.Bin.PopulateEmbeddings.{
  EndpointRow, PopulateCrate, ensure_raw_db, recompress_and_remove_raw, index_rows, populate_one,
  populate_each, targets, main, vector_to_le_bytes,
}
use topdesk_mcp_rs.Bin.PopulateEmbeddings.Files.{
  IsFileSystem, ensure_raw_db-recompress_and_remove_raw,
}
use topdesk_mcp_rs.Bin.PopulateEmbeddings.Rows.{
  Table, Unchanged, IsDatabase, Indexed, missing_of, populate_one-Indexed,
}
use topdesk_mcp_rs.Bin.PopulateEmbeddings.Runs.{finished, main-populate_each}
use topdesk_mcp_rs.Core.Errors.{AnyError, message}
use topdesk_mcp_rs.Shared.{
  ℕ, String, false, Option, none, some, List, [], ◌∷◌, Result, ok, err, ok_or, ◌≡◌, ◌≢◌, ◌↔◌, refl,
  ap, sym, ◌∙◌, arith, eq_refl, str_eq_ne, if◌then◌else◌,
}
use topdesk_mcp_rs.Shared.Actions.{◌>>=◌}
use topdesk_mcp_rs.Shared.Dict
use topdesk_mcp_rs.Shared.Dict.{Dict, get-insert, get-insert_same, get-remove}

record World : Type 0 where
  files : Dict String
  table : Table

abbrev row : EndpointRow
row = record {
  operation_id = "getAsset";
  path = "/assets/{id}";
  method = "GET";
  summary = some "One asset";
  description = none;
}

abbrev missing_file : AnyError
missing_file = message "no such file"

-- Compression keeps the bytes, and a connection is its path.
abbrev crate : PopulateCrate World
crate = record {
  Bytes = String;
  Conn = String;
  exists = λ path w. Dict.is_some (Dict.get path w.files);
  read = λ path w. ok_or (Dict.get path w.files) missing_file;
  write = λ path bytes w. (record w { files = Dict.insert path bytes w.files }, ok tt);
  create = λ path w. (record w { files = Dict.insert path "" w.files }, ok tt);
  write_all = λ path bytes w. (record w { files = Dict.insert path bytes w.files }, ok tt);
  remove_file = λ path w. (record w { files = Dict.remove path w.files }, ok tt);
  encode_all = λ level bytes. ok bytes;
  decode_all = λ bytes. ok bytes;
  open_store_read_write = λ path w. (w, ok path);
  prepare = λ conn sql w. (w, ok tt);
  select_endpoints = λ conn w. (w, ok (row ∷ []));
  select_missing = λ conn w. (w, ok (missing_of (row ∷ []) w.table));
  delete_embedding = λ conn id w. (record w { table = Dict.remove id w.table }, ok tt);
  insert_embedding = λ conn id bytes w. (record w { table = Dict.insert id bytes w.table }, ok tt);
  embed = λ text. ok (1065353216 ∷ []);
  println = λ line w. w;
  eprintln = λ line w. w;
  show = λ n. "1";
}

abbrev file : String → World → Option String
file path w = Dict.get path w.files

get-insert_ne :
    {V : Type 0} (k j : String) (v : V) (m : Dict V)
    → k ≢ j
    → Dict.get j (Dict.insert k v m) ≡ Dict.get j m
get-insert_ne k j v m ne =
    get-insert k j v m ∙ ap (λ b. if b then some v else Dict.get j m) (str_eq_ne k j ne)

get-remove_ne :
    {V : Type 0} (k j : String) (m : Dict V) → k ≢ j → Dict.get j (Dict.remove k m) ≡ Dict.get j m
get-remove_ne k j m ne =
    get-remove k j m ∙ ap (λ b. if b then none else Dict.get j m) (str_eq_ne k j ne)

get-remove_same : {V : Type 0} (k : String) (m : Dict V) → Dict.get k (Dict.remove k m) ≡ none
get-remove_same k m = get-remove k k m ∙ ap (λ b. if b then none else Dict.get k m) (eq_refl k)

ok_or_iff : {A : Type 0} (o : Option A) (e : AnyError) (a : A) → (ok_or o e ≡ ok a) ↔ (o ≡ some a)
ok_or_iff none e a = ground arith
ok_or_iff (some b) e a = ground arith

crate-IsFileSystem : IsFileSystem crate file
crate-IsFileSystem = record {
  finds = λ path w. refl;
  reads = λ path w bytes. ok_or_iff (Dict.get path w.files) missing_file bytes;
  creates_one = λ path other w apart. get-insert_ne path other "" w.files apart;
  writes = λ path bytes w e. get-insert_same path bytes w.files;
  writes_one = λ path other bytes w apart. get-insert_ne path other bytes w.files apart;
  removes = λ path w e. get-remove_same path w.files;
  removes_one = λ path other w apart. get-remove_ne path other w.files apart;
  decodes = λ raw compressed e. cc;
}

abbrev raw_world : World
raw_world = record { files = ("copy.db", "rows") ∷ []; table = [] }

abbrev packed_world : World
packed_world = record { files = ("copy.db.zst", "rows") ∷ []; table = [] }

packed : recompress_and_remove_raw crate "copy.db" raw_world ≡ (packed_world, ok tt)
unfolding recompress_and_remove_raw ◌>>=◌
packed = refl

ensure_raw_db-recompress_and_remove_raw_example :
    ensure_raw_db crate "copy.db" packed_world ≡ crate.write "copy.db" "rows" packed_world
ensure_raw_db-recompress_and_remove_raw_example =
    ensure_raw_db-recompress_and_remove_raw crate file crate-IsFileSystem "copy.db" raw_world
      packed_world "rows" refl packed

abbrev same_path : String → String
same_path conn = conn

abbrev endpoints : String → World → List EndpointRow
endpoints path w = row ∷ []

abbrev embeddings : String → World → Table
embeddings path w = w.table

ids_of : Result AnyError (List String) → List String
ids_of (ok ids) = ids
ids_of (err e) = []

unchanged : {w w' : World} → w ≡ w' → Unchanged crate same_path endpoints embeddings w w'
unchanged e = λ path. (refl, ap (λ (v : World). v.table) (sym e))

crate-IsDatabase : IsDatabase crate same_path endpoints embeddings
unfolding ids_of
crate-IsDatabase = record {
  opens = λ path w w' conn e. (cc, unchanged (ap (λ r. r.0) e));
  prepares = λ conn sql w w' e. unchanged (ap (λ r. r.0) e);
  selects = λ conn w w' rows e. (cc, unchanged (ap (λ r. r.0) e));
  selects_missing = λ conn w w' ids e. (ap (λ r. ids_of r.1) (sym e), unchanged (ap (λ r. r.0) e));
  prints = λ line w. unchanged {w = w} refl;
  deletes = λ conn id w w' e. (refl, ap (λ r. r.0.table) (sym e));
  inserts = λ conn id bytes w w' e. (refl, ap (λ r. r.0.table) (sym e));
}

abbrev populated_world : World
populated_world = record { files = []; table = ("getAsset", 0 ∷ 0 ∷ 128 ∷ 63 ∷ []) ∷ [] }

populated :
    populate_one crate "copy.db" (record { files = []; table = [] }) ≡ (populated_world, ok 1)
unfolding populate_one index_rows vector_to_le_bytes ◌>>=◌
populated = refl

populate_one-Indexed_example :
    ◌≡◌ {A = ℕ} 1 1
    × Indexed crate same_path endpoints embeddings "copy.db"
        (row ∷ [])
        (record { files = []; table = [] })
        populated_world
populate_one-Indexed_example =
    populate_one-Indexed crate same_path endpoints embeddings crate-IsDatabase "copy.db"
      (record { files = []; table = [] }) populated_world 1 populated

main-populate_each_example :
    main crate ("populate" ∷ "copy.db" ∷ []) raw_world
    ≡ finished crate same_path endpoints embeddings crate-IsDatabase
        (populate_each crate (targets ("populate" ∷ "copy.db" ∷ [])) false raw_world)
main-populate_each_example =
    main-populate_each crate same_path endpoints embeddings crate-IsDatabase
      ("populate" ∷ "copy.db" ∷ []) raw_world
