-- ===== src/Data/Store/Extraction.antt =====
-- data/store.rs: how often and where to a store is extracted, and its cached connections.
use Prim.Native.String.{◌++◌}
use topdesk_mcp_rs.Core.Errors.{AnyError, context}
use topdesk_mcp_rs.Data.Store.{
  StoreCrate, StoreState, embedded, move_into_place, extract, remember_path, resolve_store_path,
  publish, publish_in, load_into_memory, cached_in_memory_connection,
}
use topdesk_mcp_rs.Shared.{
  ℕ, zero, suc, ◌+◌, ◌*◌, String, some, Result, ok, err, ◌≡◌, refl, arith, eq_refl, Option-cases,
  Result-cases, inl, inr,
}
use topdesk_mcp_rs.Shared.Dict
use topdesk_mcp_rs.Shared.Dict.{Dict, get-insert}

module _ {W : Type 0} (c : StoreCrate W) where
  -- The specification of the rename: try, and after an error pause and try again, at most
  -- `more` times; the pauses grow from the attempts made.
  unfoldable pub try_rename : ℕ → ℕ → String → String → W → W × Result AnyError (Unit {0})
  try_rename zero attempts tmp path w =
      let (w', moved) = c.rename tmp path w in
      elim moved [
        | ok _ ↦ (w', ok tt)
        | err e ↦ (
          w',
          err (context ("failed to move extracted store data into place at '" ++ (path ++ "'")) e),
        )
      ]
  try_rename (suc more) attempts tmp path w =
      let (w', moved) = c.rename tmp path w in
      elim moved [
        | ok _ ↦ (w', ok tt)
        | err e ↦ try_rename more (attempts + 1) tmp path (c.sleep_ms (50 * (attempts + 1)) w')
      ]

  move_into_place-try_rename_from :
      (more attempts : ℕ) (tmp path : String) (w : W)
      → attempts + more ≡ 5
      → move_into_place c (suc more) attempts tmp path w ≡ try_rename more attempts tmp path w
  unfolding move_into_place try_rename
  move_into_place-try_rename_from zero attempts tmp path w e = ground arith
  move_into_place-try_rename_from (suc more) attempts tmp path w e = ground (
    arith,
    move_into_place-try_rename_from more (attempts + 1) tmp path
        (c.sleep_ms (50 * (attempts + 1)) (c.rename tmp path w).0),
  )

  -- The fuel of six rounds is enough: a store is moved into place by one rename and at most five
  -- more, with a pause before each that is 50 ms longer each time; if all six fail, the last one's
  -- error is reported, under a message that names the path.
  pub move_into_place-try_rename :
      (tmp path : String) (w : W) → move_into_place c 6 0 tmp path w ≡ try_rename 5 0 tmp path w
  move_into_place-try_rename tmp path w = move_into_place-try_rename_from 5 0 tmp path w refl

  remember_path-get :
      (v : String) (st st' : StoreState c) (r : ℕ × W × Result AnyError String) (w' : W)
      (path : String)
      → remember_path c v st r ≡ (st', w', ok path)
      → (Dict.get v st'.extracted ≡ some path) × (r.2 ≡ ok path)
  unfolding remember_path
  remember_path-get v st st' (unique, w, err e) w' path h = absurd (ground arith)
  remember_path-get v st st' (unique, w, ok p) w' path h =
      ground (arith, get-insert v v p st.extracted, eq_refl v)

  pub resolve_store_path-get :
      (v : String) (st st' : StoreState c) (w w' : W) (path : String)
      → resolve_store_path c v st w ≡ (st', w', ok path)
      → Dict.get v st'.extracted ≡ some path
  unfolding resolve_store_path
  resolve_store_path-get v st st' w w' path e = elim (Option-cases (Dict.get v st.extracted)) [
    | inr (p, hit) ↦ ground arith
    | inl missing ↦ elim (Result-cases (embedded v)) [
      | inr (error, unknown) ↦ absurd (ground arith)
      | inl ((file, bytes), found) ↦
          (remember_path-get v st st' (extract c file bytes st.unique w) w' path
            (rw (missing, found, resolve_store_path) at e)).0
    ]
  ]

  -- A version whose path was returned is served from then on without a look at the world: every
  -- later call gives the same path and changes nothing.
  pub resolve_store_path_again :
      (v : String) (st st' : StoreState c) (w w' : W) (path : String)
      → resolve_store_path c v st w ≡ (st', w', ok path)
      → (w₂ : W) → resolve_store_path c v st' w₂ ≡ (st', w₂, ok path)
  unfolding resolve_store_path
  resolve_store_path_again v st st' w w' path e w₂ =
      rw (resolve_store_path-get v st st' w w' path e, resolve_store_path) refl

  publish_in-get :
      (key : String) (st st' : StoreState c) (r : W × Result AnyError c.Conn) (w' : W)
      (conn : c.Conn)
      → publish_in c key st r ≡ (st', w', ok conn)
      → Dict.get key st'.connections ≡ some conn
  unfolding publish_in publish
  publish_in-get key st st' (w, err e) w' conn h = absurd (ground arith)
  publish_in-get key st st' (w, ok fresh) w' conn h =
      ground (arith, get-insert key key fresh st.connections, eq_refl key)

  -- A connection that was returned is the one that every later call returns, whatever the path
  -- and the world, and without a change to either.
  pub cached_in_memory_connection_again :
      (key path path' : String) (st st' : StoreState c) (w w' : W) (conn : c.Conn)
      → cached_in_memory_connection c key path st w ≡ (st', w', ok conn)
      → (w₂ : W) → cached_in_memory_connection c key path' st' w₂ ≡ (st', w₂, ok conn)
  unfolding cached_in_memory_connection
  cached_in_memory_connection_again key path path' st st' w w' conn e w₂ =
      elim (Option-cases (Dict.get key st.connections)) [
        | inr (first, hit) ↦ ground arith
        | inl missing ↦
            rw
              (
                publish_in-get key st st' (load_into_memory c path w) w' conn
                    (rw (missing, cached_in_memory_connection) at e),
                cached_in_memory_connection,
              )
              refl
      ]
