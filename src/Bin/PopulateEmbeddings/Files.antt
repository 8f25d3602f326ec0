-- ===== src/Bin/PopulateEmbeddings/Files.antt =====
-- bin/populate_embeddings.rs: the raw store and its compressed sibling.
use Prim.Native.String.{count}
use text.Mathlib.TextLemmas
use topdesk_mcp_rs.Bin.PopulateEmbeddings.{
  PopulateCrate, zst_sibling, zstd_level, ensure_raw_db, recompress_and_remove_raw,
}
use topdesk_mcp_rs.Shared.{String, Option, none, some, ok, ◌≡◌, ◌≢◌, ◌↔◌, ap, sym, ◌∙◌, arith}
use topdesk_mcp_rs.Shared.Actions.{>>=-eq-ok}
use topdesk_mcp_rs.Shared.Dict

zst_sibling_ne : (path : String) → path ≢ zst_sibling path
zst_sibling_ne path e =
    let longer = TextLemmas.length-append path ".zst" in
    let same = ap count e in omega (arith, longer, same)

module _ {W : Type 0} (c : PopulateCrate W) (file : String → W → Option c.Bytes) where
  -- What the code relies on: the files are a map from paths, and decompression undoes compression.
  pub record IsFileSystem : Type 0 where
    pub finds : (path : String) (w : W) → c.exists path w ≡ Dict.is_some (file path w)
    pub reads :
        (path : String) (w : W) (bytes : c.Bytes)
        → (c.read path w ≡ ok bytes) ↔ (file path w ≡ some bytes)
    pub creates_one :
        (path other : String) (w : W) → path ≢ other → file other (c.create path w).0 ≡ file other w
    pub writes :
        (path : String) (bytes : c.Bytes) (w : W)
        → (c.write_all path bytes w).1 ≡ ok tt
        → file path (c.write_all path bytes w).0 ≡ some bytes
    pub writes_one :
        (path other : String) (bytes : c.Bytes) (w : W)
        → path ≢ other
        → file other (c.write_all path bytes w).0 ≡ file other w
    pub removes :
        (path : String) (w : W)
        → (c.remove_file path w).1 ≡ ok tt
        → file path (c.remove_file path w).0 ≡ none
    pub removes_one :
        (path other : String) (w : W)
        → path ≢ other
        → file other (c.remove_file path w).0 ≡ file other w
    pub decodes :
        (raw compressed : c.Bytes)
        → c.encode_all zstd_level raw ≡ ok compressed
        → c.decode_all compressed ≡ ok raw

  -- If the file system and zstd do what they promise, and a raw store is folded back into its
  -- sibling: the raw file was there and is gone, the sibling has its compressed bytes, and no other
  -- file has changed.
  pub recompress_and_remove_raw_files :
      IsFileSystem
      → (path : String) (w w' : W) → recompress_and_remove_raw c path w ≡ (w', ok tt)
      → (raw compressed : c.Bytes) × (file path w ≡ some raw)
        × (c.encode_all zstd_level raw ≡ ok compressed)
        × (file path w' ≡ none)
        × (file (zst_sibling path) w' ≡ some compressed)
        × ((other : String)
            → path ≢ other
            → zst_sibling path ≢ other
            → file other w' ≡ file other w)
  unfolding recompress_and_remove_raw
  recompress_and_remove_raw_files sys path w w' h =
      let (w₀, raw, read, h₀) = >>=-eq-ok _ _ h in
      let (w₁, compressed, encoded, h₁) = >>=-eq-ok _ _ h₀ in
      let (w₂, _, created, h₂) = >>=-eq-ok _ _ h₁ in
      let (w₃, _, written, removed) = >>=-eq-ok _ _ h₂ in
      let before = ap (λ r. r.0) read in
      let there = (sys.reads path w raw).0 (ap (λ r. r.1) read) in
      let steps = (λ (other : String) (apart : zst_sibling path ≢ other).
        ap (λ r. file other r.0) (sym written)
        ∙ sys.writes_one (zst_sibling path) other compressed w₂ apart
        ∙ ap (λ r. file other r.0) (sym created)
        ∙ sys.creates_one (zst_sibling path) other w₁ apart
        ∙ ap (λ r. file other r.0) (sym encoded)
        ∙ ap (λ r. file other r.0) (sym read)) in
      (
        raw,
        compressed,
        there,
        ap (λ r. r.1) encoded,
        ap (λ r. file path r.0) (sym removed) ∙ sys.removes path w₃ (ap (λ r. r.1) removed),
        ap (λ r. file (zst_sibling path) r.0) (sym removed)
            ∙ sys.removes_one path (zst_sibling path) w₃ (zst_sibling_ne path)
            ∙ ap (λ r. file (zst_sibling path) r.0) (sym written)
            ∙ sys.writes (zst_sibling path) compressed w₂ (ap (λ r. r.1) written),
        λ other apart apart'.
            ap (λ r. file other r.0) (sym removed)
            ∙ sys.removes_one path other w₃ apart
            ∙ steps other apart',
      )

  -- If the file system and zstd do what they promise: once a raw store was folded back into its
  -- sibling, asking for the raw store writes the bytes that it had.
  pub ensure_raw_db-recompress_and_remove_raw :
      IsFileSystem
      → (path : String) (w w' : W) (raw : c.Bytes) → file path w ≡ some raw
      → recompress_and_remove_raw c path w ≡ (w', ok tt)
      → ensure_raw_db c path w' ≡ c.write path raw w'
  unfolding ensure_raw_db
  ensure_raw_db-recompress_and_remove_raw sys path w w' raw there h =
      let (raw', compressed, there', encoded, gone, packed, _) =
        recompress_and_remove_raw_files sys path w w' h in
      let found = sys.finds path w' in
      let bytes = (sys.reads (zst_sibling path) w' compressed).1 packed in
      let decoded = sys.decodes raw' compressed encoded in
      rw (found, ensure_raw_db, gone, bytes, decoded)
        (ap (λ o. c.write path (elim o [ none ↦ raw | some bytes ↦ bytes ]) w')
          (sym there' ∙ there))
