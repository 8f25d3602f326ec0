-- ===== src/Data/Open.antt =====
-- data/store.rs: opening a store on disk. Registering the vector extension is a call of SQLite, made once
-- for each process.
use topdesk_mcp_rs.Core.Errors.{AnyError}
use topdesk_mcp_rs.Shared.{String, Bool, true, false, Result, ◌≡◌, refl}

pub data OpenFlags : Type 0 where
  read_only read_write : OpenFlags

pub record SqliteCrate (W : Type 0) : Type 1 where
  pub Connection : Type 0
  pub auto_extension : W → W
  pub open_with_flags : String → OpenFlags → W → W × Result AnyError Connection

module _ {W : Type 0} (c : SqliteCrate W) where
  -- `REGISTER_VEC_EXTENSION` is done or not.
  unfoldable pub register_vec_extension : Bool → W → Bool × W
  register_vec_extension true w = (true, w)
  register_vec_extension false w = (true, c.auto_extension w)

  open_with : OpenFlags → String → Bool → W → Bool × W × Result AnyError c.Connection
  unfolding register_vec_extension
  open_with flags path registered w =
      let (registered', w') = register_vec_extension registered w in
      let (w₁, opened) = c.open_with_flags path flags w' in (registered', w₁, opened)

  unfoldable pub open_store : String → Bool → W → Bool × W × Result AnyError c.Connection
  unfolding open_with
  open_store path registered w = open_with read_only path registered w

  unfoldable pub open_store_read_write : String → Bool → W → Bool × W × Result AnyError c.Connection
  unfolding open_with
  open_store_read_write path registered w = open_with read_write path registered w

  -- The extension is registered by the first of two calls, and the second only opens its file.
  pub open_store-registered :
      (path other : String) (registered : Bool) (w : W)
      → open_store other (open_store_read_write path registered w).0 w
        ≡ (true, (c.open_with_flags other read_only w).0, (c.open_with_flags other read_only w).1)
  unfolding open_store open_store_read_write register_vec_extension
  open_store-registered path other true w = refl
  open_store-registered path other false w = refl
