-- ===== src/Bin/PopulateEmbeddings/Rows.antt =====
-- bin/populate_embeddings.rs: the table of embeddings after a store was populated.
use topdesk_mcp_rs.Bin.PopulateEmbeddings.{
  EndpointRow, PopulateCrate, text_of, vector_to_le_bytes, index_rows, populate_one,
}
use topdesk_mcp_rs.Core.Errors.{AnyError}
use topdesk_mcp_rs.Shared.{
  ℕ, String, true, not, Option, none, some, List, [], ◌∷◌, Result, ok, err, map_err-eq-ok, length,
  map, retain, All, All-map, str_eq, if◌then◌else◌, ◌≡◌, refl, ap, sym, ◌∙◌, subst, arith, eq_refl,
}
use topdesk_mcp_rs.Shared.Actions.{>>=-eq-ok}
use topdesk_mcp_rs.Shared.Dict
use topdesk_mcp_rs.Shared.Dict.{
  Dict, get-insert, get-remove, put_behind, is_some_before, is_some_behind,
}

abbrev pub Table : Type 0
Table = Dict (List ℕ)

-- The rows that the left join gives: the endpoints that the table does not have.
abbrev pub missing_of : List EndpointRow → Table → List String
missing_of rows table =
    map (λ row. row.operation_id)
      (retain (λ row. not (Dict.contains_key row.operation_id table)) rows)

module _ {W : Type 0} (c : PopulateCrate W) where
  -- The bytes that a row's text is embedded to.
  abbrev pub embedding_of : EndpointRow → Option (List ℕ)
  embedding_of row = elim (c.embed (text_of row)) [
    | err _ ↦ none
    | ok vector ↦ some (vector_to_le_bytes vector)
  ]

  -- What the rows say of an operation: the embedding of the last row that has its id.
  abbrev pub expected : List EndpointRow → String → Option (List ℕ)
  expected [] id = none
  expected (row ∷ rows) id =
      Dict.or_else (expected rows id)
        (if str_eq row.operation_id id then embedding_of row else none)

  module _ (path_of : c.Conn → String) (endpoints : String → W → List EndpointRow)
      (embeddings : String → W → Table) where
    -- Neither table of any store has changed.
    abbrev pub Unchanged : W → W → Type 0
    Unchanged w w' =
        (path : String)
        → (endpoints path w' ≡ endpoints path w) × (embeddings path w' ≡ embeddings path w)

    -- What the code relies on: opening, preparing and reading change nothing, and the statements
    -- do to the tables of the connection's file what they say.
    pub record IsDatabase : Type 0 where
      pub opens :
          (path : String) (w w' : W) (conn : c.Conn)
          → c.open_store_read_write path w ≡ (w', ok conn)
          → (path_of conn ≡ path) × Unchanged w w'
      pub prepares :
          (conn : c.Conn) (sql : String) (w w' : W)
          → c.prepare conn sql w ≡ (w', ok tt)
          → Unchanged w w'
      pub selects :
          (conn : c.Conn) (w w' : W) (rows : List EndpointRow)
          → c.select_endpoints conn w ≡ (w', ok rows)
          → (rows ≡ endpoints (path_of conn) w) × Unchanged w w'
      pub selects_missing :
          (conn : c.Conn) (w w' : W) (ids : List String)
          → c.select_missing conn w ≡ (w', ok ids)
          → (ids ≡ missing_of (endpoints (path_of conn) w) (embeddings (path_of conn) w))
            × Unchanged w w'
      pub prints : (line : String) (w : W) → Unchanged w (c.println line w)
      pub deletes :
          (conn : c.Conn) (id : String) (w w' : W)
          → c.delete_embedding conn id w ≡ (w', ok tt)
          → (endpoints (path_of conn) w' ≡ endpoints (path_of conn) w)
            × (embeddings (path_of conn) w' ≡ Dict.remove id (embeddings (path_of conn) w))
      pub inserts :
          (conn : c.Conn) (id : String) (bytes : List ℕ) (w w' : W)
          → c.insert_embedding conn id bytes w ≡ (w', ok tt)
          → (endpoints (path_of conn) w' ≡ endpoints (path_of conn) w)
            × (embeddings (path_of conn) w' ≡ Dict.insert id bytes (embeddings (path_of conn) w))

    -- The tables of a store after the rows were indexed.
    abbrev pub Indexed : String → List EndpointRow → W → W → Type 0
    Indexed path rows w w' =
        (endpoints path w' ≡ endpoints path w)
        × ((id : String)
            → Dict.get id (embeddings path w')
              ≡ Dict.or_else (expected rows id) (Dict.get id (embeddings path w)))
        × All (λ row. Dict.is_some (embedding_of row) ≡ true) rows

    one_row :
        IsDatabase
        → (conn : c.Conn) (id : String) (bytes : List ℕ) (w w₁ w₂ : W)
        → c.delete_embedding conn id w ≡ (w₁, ok tt)
        → c.insert_embedding conn id bytes w₁ ≡ (w₂, ok tt)
        → (endpoints (path_of conn) w₂ ≡ endpoints (path_of conn) w)
          × ((j : String)
              → Dict.get j (embeddings (path_of conn) w₂)
                ≡ (if str_eq id j then some bytes else Dict.get j (embeddings (path_of conn) w)))
    one_row db conn id bytes w w₁ w₂ d i =
        let (same, removed) = db.deletes conn id w w₁ d in
        let (same', inserted) = db.inserts conn id bytes w₁ w₂ i in
        (
          same' ∙ same,
          λ j.
              rw (inserted, removed)
                (ground (
                  arith,
                  get-insert id j bytes (Dict.remove id (embeddings (path_of conn) w)),
                  get-remove id j (embeddings (path_of conn) w),
                )),
        )

    found :
        (row : EndpointRow) {vector : List ℕ}
        → c.embed (text_of row) ≡ ok vector
        → embedding_of row ≡ some (vector_to_le_bytes vector)
    found row e = rw (e, embedding_of) refl

    index_rows-Indexed :
        IsDatabase
        → (conn : c.Conn) (path : String) (rows : List EndpointRow) (w w' : W)
        → index_rows c conn path rows w ≡ (w', ok tt)
        → Indexed (path_of conn) rows w w'
    unfolding index_rows
    index_rows-Indexed db conn path [] w w' h =
        let same = ap (λ r. r.0) h in
        (
          ap (endpoints (path_of conn)) (sym same),
          λ id. ap (λ v. Dict.get id (embeddings (path_of conn) v)) (sym same),
          tt,
        )
    index_rows-Indexed db conn path (row ∷ rows) w w' h =
        let (w₀, vector, embedded, h₀) = >>=-eq-ok _ _ h in
        let (w₁, _, deleted, h₁) = >>=-eq-ok _ _ h₀ in
        let (w₂, _, inserted, h₂) = >>=-eq-ok _ _ h₁ in
        let (same, here) =
          one_row db conn row.operation_id (vector_to_le_bytes vector) w₀ w₁ w₂ deleted inserted in
        let (same', later, all) = index_rows-Indexed db conn path rows w₂ w' h₂ in
        let start = ap (λ r. r.0) embedded in
        let bytes = found row (map_err-eq-ok _ (c.embed (text_of row)) (ap (λ r. r.1) embedded)) in
        (
          same' ∙ same ∙ ap (endpoints (path_of conn)) (sym start),
          λ id.
              later id
              ∙ ap (Dict.or_else (expected rows id)) (here id)
              ∙ put_behind (expected rows id) _ (embedding_of row) (str_eq row.operation_id id) _
                  bytes
              ∙ ap
                  (λ v.
                    Dict.or_else (expected (row ∷ rows) id)
                      (Dict.get id (embeddings (path_of conn) v)))
                  (sym start),
          (ap Dict.is_some bytes, all),
        )

    from_Unchanged :
        (path : String) (rows : List EndpointRow) {w w₁ w' : W}
        → Unchanged w w₁
        → Indexed path rows w₁ w'
        → Indexed path rows w w'
    from_Unchanged path rows same (kept, table, all) = (
      kept ∙ (same path).0,
      λ id. table id ∙ ap (λ t. Dict.or_else (expected rows id) (Dict.get id t)) (same path).1,
      all,
    )

    returned : {a b : ℕ} → ◌≡◌ {A = Result AnyError ℕ} (ok a) (ok b) → b ≡ a
    returned e = cc

    -- If SQLite does what its statements say and populating a store ends well: the count is that of the
    -- endpoints, which have not changed; for every id the table has the embedding of the last endpoint with
    -- that id, and what it had before where no endpoint has it; and no text failed to be embedded.
    pub populate_one-Indexed :
        IsDatabase
        → (path : String) (w w' : W) (count : ℕ) → populate_one c path w ≡ (w', ok count)
        → (count ≡ length (endpoints path w)) × Indexed path (endpoints path w) w w'
    unfolding populate_one
    populate_one-Indexed db path w w' count h =
        let (w₁, conn, opened, h₁) = >>=-eq-ok _ _ h in
        let (w₂, rows, selected, h₂) = >>=-eq-ok _ _ h₁ in
        let (w₃, _, prepared, h₃) = >>=-eq-ok _ _ h₂ in
        let (w₄, _, prepared', h₄) = >>=-eq-ok _ _ h₃ in
        let (w₅, _, indexed, counted) = >>=-eq-ok _ _ h₄ in
        let (at, u₁) = db.opens path w w₁ conn opened in
        let (read, u₂) = db.selects conn w₁ w₂ rows selected in
        let u₃ = db.prepares conn _ w₂ w₃ prepared in
        let u₄ = db.prepares conn _ w₃ w₄ prepared' in
        let same : Unchanged w w₄ = (λ p.
          ((u₄ p).0 ∙ (u₃ p).0 ∙ (u₂ p).0 ∙ (u₁ p).0, (u₄ p).1 ∙ (u₃ p).1 ∙ (u₂ p).1 ∙ (u₁ p).1)) in
        let all = read ∙ ap (λ p. endpoints p w₁) at ∙ (u₁ path).0 in
        let done =
          subst (λ p. Indexed p rows w₄ w₅) at
            (index_rows-Indexed db conn path rows w₄ w₅ indexed) in
        let ended =
          subst (Indexed path rows w) (ap (λ r. r.0) counted)
            (from_Unchanged path rows same done) in
        subst (λ rs. (count ≡ length rs) × Indexed path rs w w') all
          (returned (ap (λ r. r.1) counted), ended)

    pub expected-is_some :
        (rows : List EndpointRow)
        → All (λ row. Dict.is_some (embedding_of row) ≡ true) rows
        → All (λ row. Dict.is_some (expected rows row.operation_id) ≡ true) rows
    expected-is_some [] all = tt
    expected-is_some (row ∷ rows) (here, all) = (
      rw (eq_refl row.operation_id) (is_some_behind (expected rows row.operation_id) _ here),
      All-map (λ other. is_some_before (expected rows other.operation_id) _) rows
          (expected-is_some rows all),
    )

    pub missing_of-none :
        (table : Table) (rows : List EndpointRow)
        → All (λ row. Dict.contains_key row.operation_id table ≡ true) rows
        → missing_of rows table ≡ []
    missing_of-none table [] all = refl
    missing_of-none table (row ∷ rows) (here, all) =
        rw (here, missing_of) (missing_of-none table rows all)
