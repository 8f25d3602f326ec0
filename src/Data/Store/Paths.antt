-- ===== src/Data/Store/Paths.antt =====
-- data/store.rs: which file a version's store is in, whatever was resolved before.
use topdesk_mcp_rs.Core.Errors.{AnyError}
use topdesk_mcp_rs.Data.Store.{
  StoreCrate, StoreState, in_dir, embedded, extract, remember_path, resolve_store_path,
}
use topdesk_mcp_rs.Data.Store.Extraction.{resolve_store_path-get}
use topdesk_mcp_rs.Data.Versions.{version_store_files, version_store_bytes}
use topdesk_mcp_rs.Shared.{
  ℕ, String, some, List, [], ◌∷◌, Result, ok, err, ◌≡◌, arith, ap, subst, ◌∙◌, eq_iff, Bool-cases,
  Option-cases, Result-cases, inl, inr, str_eq,
}
use topdesk_mcp_rs.Shared.Dict
use topdesk_mcp_rs.Shared.Dict.{Dict, get-insert}

module _ {W : Type 0} (c : StoreCrate W) where
  -- The path is that of the file that the table has for the version.
  abbrev pub IsPathOf : String → String → Type 0
  IsPathOf v path =
      (file : String) × (Dict.get v version_store_files ≡ some file)
      × (path ≡ in_dir c.store_dir file)

  -- The cached paths are those of the versions' files.
  abbrev pub HasPaths : StoreState c → Type 0
  HasPaths st = (v path : String) → Dict.get v st.extracted ≡ some path → IsPathOf v path

  embedded_file :
      (v file bytes : String)
      → embedded v ≡ ok (file, bytes)
      → Dict.get v version_store_files ≡ some file
  unfolding embedded
  embedded_file v file bytes e = elim (Option-cases (Dict.get v version_store_files)) [
    | inl missing ↦ absurd (ground arith)
    | inr (f, found) ↦ elim (Option-cases (Dict.get v version_store_bytes)) [
      | inl missing ↦ absurd (ground arith)
      | inr (b, some_bytes) ↦ ground arith
    ]
  ]

  extract_path :
      (file bytes : String) (unique : ℕ) (w : W) (path : String)
      → (extract c file bytes unique w).2 ≡ ok path
      → path ≡ in_dir c.store_dir file
  unfolding extract
  extract_path file bytes unique w path e = ground arith

  remember_path-HasPaths :
      (v : String) (st : StoreState c) (r : ℕ × W × Result AnyError String)
      → HasPaths st
      → ((path : String) → r.2 ≡ ok path → IsPathOf v path)
      → HasPaths (remember_path c v st r).0
  unfolding remember_path
  remember_path-HasPaths v st (unique, w, err e) h right u path hit = h u path hit
  remember_path-HasPaths v st (unique, w, ok p) h right u path hit =
      elim (Bool-cases (str_eq v u)) [
        | inl same ↦
            subst (λ k. IsPathOf k path) ((eq_iff v u).0 same)
              (right path (ground (arith, get-insert v u p st.extracted)))
        | inr other ↦ h u path (ground (arith, get-insert v u p st.extracted))
      ]

  -- A call keeps the cached paths right, whether it extracts, finds a path or fails.
  resolve_store_path-HasPaths :
      (v : String) (st : StoreState c) (w : W)
      → HasPaths st
      → HasPaths (resolve_store_path c v st w).0
  unfolding resolve_store_path
  resolve_store_path-HasPaths v st w h = elim (Option-cases (Dict.get v st.extracted)) [
    | inr (p, hit) ↦ rw (hit, resolve_store_path) h
    | inl missing ↦ elim (Result-cases (embedded v)) [
      | inr (error, unknown) ↦ rw (missing, unknown, resolve_store_path) h
      | inl ((file, bytes), found) ↦
          rw (missing, found, resolve_store_path)
            (remember_path-HasPaths v st (extract c file bytes st.unique w) h (λ path e.
              (file, embedded_file v file bytes found, extract_path file bytes st.unique w path e)))
    ]
  ]

  -- The state after a list of calls, each for a version and in a world of its own.
  unfoldable pub resolve_each : List (String × W) → StoreState c → StoreState c
  resolve_each [] st = st
  resolve_each ((v, w) ∷ calls) st = resolve_each calls (resolve_store_path c v st w).0

  resolve_each-HasPaths :
      (calls : List (String × W)) (st : StoreState c)
      → HasPaths st
      → HasPaths (resolve_each calls st)
  unfolding resolve_each
  resolve_each-HasPaths [] st h = h
  resolve_each-HasPaths ((v, w) ∷ calls) st h =
      resolve_each-HasPaths calls (resolve_store_path c v st w).0
        (resolve_store_path-HasPaths v st w h)

  -- If nothing was extracted at the start: after any calls, for any versions and whatever the world
  -- was at each, the path that a call returns is the store directory with the file that the table
  -- has for the version. So a version outside the table is never served.
  pub resolve_store_path_file :
      (st st' : StoreState c)
      → st.extracted ≡ []
      → (calls : List (String × W)) (v : String) (w w' : W) (path : String)
      → resolve_store_path c v (resolve_each calls st) w ≡ (st', w', ok path)
      → (file : String) × (Dict.get v version_store_files ≡ some file)
        × (path ≡ in_dir c.store_dir file)
  resolve_store_path_file st st' fresh calls v w w' path e =
      let h = resolve_each-HasPaths calls st (λ u p hit. let none_there = rw fresh at hit in cc) in
      resolve_store_path-HasPaths v (resolve_each calls st) w h v path (
        ap (λ r. Dict.get v r.0.extracted) e
        ∙ resolve_store_path-get c v (resolve_each calls st) st' w w' path e)
