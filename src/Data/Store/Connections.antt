-- ===== src/Data/Store/Connections.antt =====
-- data/store.rs: the connection of a version, from the first access on.
use topdesk_mcp_rs.Core.Errors.{AnyError}
use topdesk_mcp_rs.Data.Store.{
  StoreCrate, StoreState, resolve_store_path, publish_in, load_into_memory,
  cached_in_memory_connection, cached_store_connection,
}
use topdesk_mcp_rs.Data.Store.Extraction.{resolve_store_path-get, cached_in_memory_connection_again}
use topdesk_mcp_rs.Shared.{
  String, Result, ok, err, Option-cases, Result-cases, inl, inr, ◌≡◌, refl, ap, sym, ◌∙◌,
}
use topdesk_mcp_rs.Shared.Dict

module _ {W : Type 0} (c : StoreCrate W) where
  extracted-publish_in :
      (key : String) (st : StoreState c) (r : W × Result AnyError c.Conn)
      → (publish_in c key st r).0.extracted ≡ st.extracted
  unfolding publish_in
  extracted-publish_in key st (w, err e) = refl
  extracted-publish_in key st (w, ok conn) = refl

  extracted-cached_in_memory_connection :
      (key path : String) (st : StoreState c) (w : W)
      → (cached_in_memory_connection c key path st w).0.extracted ≡ st.extracted
  unfolding cached_in_memory_connection
  extracted-cached_in_memory_connection key path st w =
      elim (Option-cases (Dict.get key st.connections)) [
        | inr (conn, hit) ↦ rw (hit, cached_in_memory_connection) refl
        | inl missing ↦
            rw (missing, cached_in_memory_connection)
              (extracted-publish_in key st (load_into_memory c path w))
      ]

  -- What an access does once the path is asked for.
  abbrev open_resolved :
      String → StoreState c × W × Result AnyError String → StoreState c × W × Result AnyError c.Conn
  open_resolved v (st, w, err e) = (st, w, err e)
  open_resolved v (st, w, ok path) = cached_in_memory_connection c v path st w

  -- A connection that was returned for a version is the one that every later access to the version
  -- returns, without a look at the world and without a change.
  pub cached_store_connection_again :
      (v : String) (st st' : StoreState c) (w w' : W) (conn : c.Conn)
      → cached_store_connection c v st w ≡ (st', w', ok conn)
      → (w₂ : W) → cached_store_connection c v st' w₂ ≡ (st', w₂, ok conn)
  unfolding cached_store_connection resolve_store_path
  cached_store_connection_again v st st' w w' conn e w₂ =
      let (st₁, w₁, resolved) = resolve_store_path c v st w in
      elim (Result-cases resolved) [
        | inr (problem, failed) ↦ let broken = rw (failed, cached_store_connection) at e in cc
        | inl (path, done) ↦
            let opened = rw (done, cached_store_connection) at e in
            let kept =
              ap (λ r. r.0.extracted) (sym opened)
              ∙ extracted-cached_in_memory_connection v path st₁ w₁ in
            let stored =
              ap (Dict.get v) kept
              ∙ resolve_store_path-get c v st st₁ w w₁ path (λ i. (st₁, w₁, done i)) in
            let resolved_again : resolve_store_path c v st' w₂ ≡ (st', w₂, ok path) =
              rw (stored, resolve_store_path) refl in
            ap (open_resolved v) resolved_again
            ∙ cached_in_memory_connection_again c v path path st₁ st' w₁ w' conn opened w₂
      ]
