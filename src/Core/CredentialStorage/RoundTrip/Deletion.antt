-- ===== src/Core/CredentialStorage/RoundTrip/Deletion.antt =====
-- core/credential_storage.rs: a credential that was saved in the file, and deleted once the keychain is
-- there.
use topdesk_mcp_rs.Core.CredentialStorage.{
  KeyringError, no_entry, Vault, encryption_key, read_store, save_to_file, load_from_file,
  load_credential, delete_credential,
}
use topdesk_mcp_rs.Core.CredentialStorage.RoundTrip.{
  IsFaithful, key_of_same_env, loaded, load_from_file-loaded, load_from_file-save_to_file,
  delete_credential_keeps_file,
}
use topdesk_mcp_rs.Shared.{String, some, ok, err, ◌≡◌, refl, ap, sym, ◌∙◌, eq_refl}
use topdesk_mcp_rs.Shared.Dict

module _ {W : Type 0} (v : Vault W) where
  -- Loading from the file depends on the file and on the environment alone.
  load_from_file-same :
      (account : String) (w w' : W)
      → v.read_fallback w ≡ v.read_fallback w'
      → v.env_var w ≡ v.env_var w'
      → load_from_file v account w ≡ load_from_file v account w'
  unfolding read_store
  load_from_file-same account w w' file env =
      load_from_file-loaded v account w w' (key_of_same_env v w w' env)
      ∙ ap (λ s. loaded v (encryption_key v w') account (Dict.get account s))
          (rw (file, read_store) refl)
      ∙ sym (load_from_file-loaded v account w' w' refl)

  -- If the libraries keep what they are given, a credential was saved in the file, and later, with
  -- the file and the environment as they were, the keychain answers a deletion of the account with
  -- "no entry" and has none afterwards: the deletion reports success, and loading the account
  -- still gives the credential.
  pub deleted_credential_comes_back :
      IsFaithful v
      → (account value : String) (w there left : W) (e : KeyringError)
      → v.from_utf8 (v.as_bytes value) ≡ ok value
      → (save_to_file v account value w).1 ≡ ok tt
      → v.delete_password account there ≡ (left, err no_entry)
      → v.get_password account left ≡ err e
      → v.read_fallback left ≡ v.read_fallback (save_to_file v account value w).0
      → v.env_var left ≡ v.env_var (save_to_file v account value w).0
      → (delete_credential v account there ≡ (left, ok tt))
        × (load_credential v account left ≡ ok (some value))
  deleted_credential_comes_back good account value w there left e text h gone none_left file env =
      let (deleted, loads) = delete_credential_keeps_file v account there left e gone none_left in
      (
        deleted,
        ap (λ r. load_credential v account r.0) (sym deleted)
            ∙ loads
            ∙ load_from_file-same account left (save_to_file v account value w).0 file env
            ∙ load_from_file-save_to_file v good account value w account text h
            ∙ rw (eq_refl account) refl,
      )
