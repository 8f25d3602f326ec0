-- ===== src/Core/CredentialStorage/RoundTrip/Elsewhere.antt =====
-- core/credential_storage.rs: the fallback file under another key, as on another machine.
use Prim.Native.String.{◌++◌}
use topdesk_mcp_rs.Core.CredentialStorage.{
  Vault, Bytes, encryption_key, read_store, save_to_file, open_entry, load_from_file,
}
use topdesk_mcp_rs.Core.CredentialStorage.Hexadecimal.{from_hex-to_hex, split_colon-to_hex}
use topdesk_mcp_rs.Core.CredentialStorage.RoundTrip.{
  IsFaithful, entry_of, loaded, load_from_file-loaded, read_store-save_to_file,
}
use topdesk_mcp_rs.Core.Errors.{message}
use topdesk_mcp_rs.Shared.{String, none, some, Option-cases, inl, inr, ok, err, ◌≡◌, refl, ap, ◌∙◌}
use topdesk_mcp_rs.Shared.Dict
use topdesk_mcp_rs.Shared.Dict.{get-insert_same}

module _ {W : Type 0} (v : Vault W) where
  -- What the code relies on: what was encrypted under one key is not decrypted under the other.
  abbrev pub Refuses : Bytes → Bytes → Type 0
  Refuses key other =
      (nonce plain cipher : Bytes)
      → v.encrypt key nonce plain ≡ some cipher
      → v.decrypt other nonce cipher ≡ none

  open_entry-refused :
      IsFaithful v
      → (key other : Bytes) (account : String) (plain : Bytes) (w : W) (cipher : Bytes)
      → Refuses key other
      → v.encrypt key (v.generate_nonce w).1 plain ≡ some cipher
      → open_entry v other account (entry_of v (v.generate_nonce w).1 cipher)
        ≡ err (message ("failed to decrypt credential for '" ++ (account ++ "'")))
  unfolding open_entry
  open_entry-refused good key other account plain w cipher refuses e =
      let nonce = (v.generate_nonce w).1 in
      rw
        (
          split_colon-to_hex nonce _ (good.nonce_bytes w),
          open_entry,
          from_hex-to_hex nonce (good.nonce_bytes w),
          good.nonce_size w,
          from_hex-to_hex cipher (good.gives_bytes key nonce plain cipher e),
          refuses nonce plain cipher e,
        )
        refl

  -- If the libraries keep what they are given and saving a credential in the file reports success,
  -- then in any world with the same file, whose key does not decrypt what the key of the saving
  -- encrypted, loading the account is an error that names it.
  pub load_from_file-elsewhere :
      IsFaithful v
      → (account value : String) (w there : W) → (save_to_file v account value w).1 ≡ ok tt
      → v.read_fallback there ≡ v.read_fallback (save_to_file v account value w).0
      → Refuses (encryption_key v w) (encryption_key v there)
      → load_from_file v account there
        ≡ err (message ("failed to decrypt credential for '" ++ (account ++ "'")))
  unfolding save_to_file read_store
  load_from_file-elsewhere good account value w there h same refuses =
      let key = encryption_key v there in
      let (w₁, nonce) = v.generate_nonce w in
      elim (Option-cases (v.encrypt (encryption_key v w) nonce (v.as_bytes value))) [
        | inl e ↦ let failed = rw (e, save_to_file) at h in cc
        | inr (cipher, e) ↦
            load_from_file-loaded v account there there refl
            ∙ ap (λ s. loaded v key account (Dict.get account s))
                (rw (same, read_store) (read_store-save_to_file v good account value w cipher e h))
            ∙ ap (loaded v key account)
                (get-insert_same account (entry_of v nonce cipher) (read_store v w₁))
            ∙ rw (open_entry-refused good (encryption_key v w) key account _ w cipher refuses e)
                refl
      ]
