-- ===== src/Core/CredentialStorage/RoundTrip.antt =====
-- core/credential_storage.rs: saving, loading and deleting, related to each other.
pub mod Elsewhere
pub mod Deletion
use topdesk_mcp_rs.Core.CredentialStorage.{
  Bytes, KeyringError, no_entry, unavailable, Vault, to_hex, read_store, write_store, and_then,
  save_to_file, open_entry, load_from_file, load_credential, delete_credential, delete_from_file,
  encryption_key, service_name,
}
use topdesk_mcp_rs.Core.CredentialStorage.FileWork.{IsUntouched, written, part-save_to_file}
use topdesk_mcp_rs.Core.CredentialStorage.Hexadecimal.{is_byte, from_hex-to_hex, split_colon-to_hex}
use topdesk_mcp_rs.Core.ConfigManager.{resolve_home_dir}
use topdesk_mcp_rs.Core.Errors.{AnyError}
use topdesk_mcp_rs.Shared.{
  String, Bool, true, false, Option, none, some, [], ◌∷◌, ◌++◌, Result, ok, err, ◌>>=◌, all, length,
  str_eq, if◌then◌else◌, Option-cases, Bool-cases, inl, inr, ◌≡◌, refl, ap, sym, ◌∙◌,
}
use topdesk_mcp_rs.Shared.Dict
use topdesk_mcp_rs.Shared.Dict.{Dict, get-insert}

module _ {W : Type 0} (v : Vault W) where
  -- What the code relies on: decryption undoes encryption, both give bytes, JSON is
  -- read back as it was written, and so is the file, which new permissions do not change; the
  -- work on the file leaves the environment alone.
  pub record IsFaithful : Type 0 where
    pub decrypts :
        (key nonce plain cipher : Bytes)
        → v.encrypt key nonce plain ≡ some cipher
        → v.decrypt key nonce cipher ≡ some plain
    pub gives_bytes :
        (key nonce plain cipher : Bytes)
        → v.encrypt key nonce plain ≡ some cipher
        → all is_byte cipher ≡ true
    pub nonce_bytes : (w : W) → all is_byte (v.generate_nonce w).1 ≡ true
    pub nonce_size : (w : W) → length (v.generate_nonce w).1 ≡ 12
    pub reads_json :
        (store : Dict Bytes) (text : v.Contents)
        → v.to_json store ≡ ok text
        → v.from_json text ≡ some store
    pub reads_file :
        (text : v.Contents) (w : W)
        → (v.write_fallback text w).1 ≡ ok tt
        → v.read_fallback (v.write_fallback text w).0 ≡ some text
    pub keeps_env : IsUntouched v v.env_var
    pub keeps_dir : (w : W) → v.read_fallback (v.restrict_dir w).0 ≡ v.read_fallback w
    pub keeps_file : (w : W) → v.read_fallback (v.restrict_file w).0 ≡ v.read_fallback w

  and_then-ok :
      (r : W × Result AnyError (Unit {0})) (f : W → W × Result AnyError (Unit {0}))
      → (and_then v r f).1 ≡ ok tt
      → (r.1 ≡ ok tt) × (and_then v r f ≡ f r.0)
  and_then-ok (w, ok tt) f h = (refl, refl)
  and_then-ok (w, err e) f h = cc

  write_contents-read :
      IsFaithful
      → (contents : v.Contents) (w : W)
      → (and_then v (and_then v (v.write_fallback contents w) v.restrict_dir) v.restrict_file).1
        ≡ ok tt
      → v.read_fallback
          (and_then v (and_then v (v.write_fallback contents w) v.restrict_dir) v.restrict_file).0
        ≡ some contents
  write_contents-read good contents w h =
      let (first, outer) = and_then-ok _ v.restrict_file h in
      let (written, inner) = and_then-ok (v.write_fallback contents w) v.restrict_dir first in
      ap (λ r. v.read_fallback r.0) outer
      ∙ good.keeps_file _
      ∙ ap (λ r. v.read_fallback r.0) inner
      ∙ good.keeps_dir _
      ∙ good.reads_file contents w written

  written-read :
      IsFaithful
      → (store : Dict Bytes) (w : W) (answer : Result AnyError v.Contents)
      → v.to_json store ≡ answer
      → (written v answer w).1 ≡ ok tt
      → read_store v (written v answer w).0 ≡ store
  unfolding read_store
  written-read good store w (err e) printed h = cc
  written-read good store w (ok text) printed h =
      rw (write_contents-read good text w h, read_store, good.reads_json store text printed) refl

  write_store-read :
      IsFaithful
      → (store : Dict Bytes) (w : W) → (write_store v store w).1 ≡ ok tt
      → read_store v (write_store v store w).0 ≡ store
  unfolding write_store
  write_store-read good store w h =
      let (made, path) = and_then-ok (v.create_config_dir w) (written v (v.to_json store)) h in
      ap (λ r. read_store v r.0) path
      ∙ written-read good store (v.create_config_dir w).0 (v.to_json store) refl
          (sym (ap (λ r. r.1) path) ∙ h)

  open_entry-saved :
      IsFaithful
      → (key : Bytes) (account value : String) (w : W) (cipher : Bytes)
      → v.from_utf8 (v.as_bytes value) ≡ ok value
      → v.encrypt key (v.generate_nonce w).1 (v.as_bytes value) ≡ some cipher
      → open_entry v key account (to_hex (v.generate_nonce w).1 ++ (58 ∷ to_hex cipher)) ≡ ok value
  unfolding open_entry
  open_entry-saved good key account value w cipher text e =
      let nonce = (v.generate_nonce w).1 in
      rw
        (
          split_colon-to_hex nonce (to_hex cipher) (good.nonce_bytes w),
          open_entry,
          from_hex-to_hex nonce (good.nonce_bytes w),
          good.nonce_size w,
          from_hex-to_hex cipher (good.gives_bytes key nonce _ cipher e),
          good.decrypts key nonce _ cipher e,
        )
        text

  -- The key depends on the environment alone.
  key_of_same_env :
      (w w' : W) → v.env_var w ≡ v.env_var w' → encryption_key v w ≡ encryption_key v w'
  unfolding encryption_key
  key_of_same_env w w' e =
      ap (λ env. v.sha256 (v.as_bytes (resolve_home_dir env) ++ v.as_bytes service_name)) e

  -- Loading, by the key and the entry of the file.
  abbrev loaded : Bytes → String → Option Bytes → Result AnyError (Option String)
  loaded key account entry = elim entry [
    | none ↦ ok none
    | some raw ↦ open_entry v key account raw >>= λ value. ok (some value)
  ]

  load_from_file-loaded :
      (account : String) (w w₀ : W)
      → encryption_key v w ≡ encryption_key v w₀
      → load_from_file v account w
        ≡ loaded (encryption_key v w₀) account (Dict.get account (read_store v w))
  unfolding load_from_file
  load_from_file-loaded account w w₀ e =
      ap (λ key. loaded key account (Dict.get account (read_store v w))) e

  -- The entry of a credential in the file.
  abbrev entry_of : Bytes → Bytes → Bytes
  entry_of nonce cipher = to_hex nonce ++ (58 ∷ to_hex cipher)

  read_store-save_to_file :
      IsFaithful
      → (account value : String) (w : W) (cipher : Bytes)
      → v.encrypt (encryption_key v w) (v.generate_nonce w).1 (v.as_bytes value) ≡ some cipher
      → (save_to_file v account value w).1 ≡ ok tt
      → read_store v (save_to_file v account value w).0
        ≡ Dict.insert account
            (entry_of (v.generate_nonce w).1 cipher)
            (read_store v (v.generate_nonce w).0)
  unfolding save_to_file
  read_store-save_to_file good account value w cipher e h =
      let (w₁, nonce) = v.generate_nonce w in
      let store = Dict.insert account (entry_of nonce cipher) (read_store v w₁) in
      let path : save_to_file v account value w ≡ write_store v store w₁ =
        rw (e, save_to_file) refl in
      ap (λ r. read_store v r.0) path
      ∙ write_store-read good store w₁ (sym (ap (λ r. r.1) path) ∙ h)

  -- If the libraries keep what they are given, the credential's UTF-8 reads back, and saving a
  -- credential in the file reports success, then loading that account from the file gives the credential, and loading any other account
  -- gives what it gave once the nonce was drawn.
  pub load_from_file-save_to_file :
      IsFaithful
      → (account value : String) (w : W) (j : String) → v.from_utf8 (v.as_bytes value) ≡ ok value
      → (save_to_file v account value w).1 ≡ ok tt
      → load_from_file v j (save_to_file v account value w).0
        ≡ (if str_eq account j then ok (some value) else load_from_file v j (v.generate_nonce w).0)
  unfolding save_to_file
  load_from_file-save_to_file good account value w j text h =
      let key = encryption_key v w in
      let (w₁, nonce) = v.generate_nonce w in
      elim (Option-cases (v.encrypt key nonce (v.as_bytes value))) [
        | inl e ↦ let failed = rw (e, save_to_file) at h in cc
        | inr (cipher, e) ↦
            let w' = (save_to_file v account value w).0 in
            let same_key =
              key_of_same_env w' w (part-save_to_file v v.env_var good.keeps_env account value w) in
            let nonce_key = key_of_same_env w₁ w (good.keeps_env.of_nonce w) in
            load_from_file-loaded j w' w same_key
            ∙ ap (λ s. loaded key j (Dict.get j s))
                (read_store-save_to_file good account value w cipher e h)
            ∙ ap (loaded key j) (get-insert account j (entry_of nonce cipher) (read_store v w₁))
            ∙ elim (Bool-cases (str_eq account j)) [
              | inl same ↦ rw (same, open_entry-saved good key j value w cipher text e) refl
              | inr other ↦ rw other (sym (load_from_file-loaded j w₁ w nonce_key))
            ]
      ]

  abbrev after_delete : String → W × Result KeyringError (Unit {0}) → W × Result AnyError (Unit {0})
  after_delete account (w, ok _) = (w, ok tt)
  after_delete account (w, err no_entry) = (w, ok tt)
  after_delete account (w, err (unavailable _)) = delete_from_file v account w

  -- Whatever the keychain: if it answers a deletion with "no entry", and has none for the account
  -- afterwards, then the deletion reports success without a look at the file, and loading the
  -- account still gives what the file holds.
  pub delete_credential_keeps_file :
      (account : String) (w w' : W) (e : KeyringError)
      → v.delete_password account w ≡ (w', err no_entry)
      → v.get_password account w' ≡ err e
      → (delete_credential v account w ≡ (w', ok tt))
        × (load_credential v account (delete_credential v account w).0
            ≡ load_from_file v account w')
  unfolding delete_credential load_credential
  delete_credential_keeps_file account w w' e gone none_left =
      let path = ap (after_delete account) gone in
      (path, ap (λ r. load_credential v account r.0) path ∙ rw (none_left, load_credential) refl)
