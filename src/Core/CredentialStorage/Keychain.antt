-- ===== src/Core/CredentialStorage/Keychain.antt =====
-- core/credential_storage.rs: saving and loading through the keychain, with the file behind it.
use topdesk_mcp_rs.Core.CredentialStorage.{
  Vault, KeyringError, save_credential, load_credential, save_to_file,
}
use topdesk_mcp_rs.Core.CredentialStorage.FileWork.{IsUntouched, part-save_to_file}
use topdesk_mcp_rs.Core.CredentialStorage.RoundTrip.{IsFaithful, load_from_file-save_to_file}
use topdesk_mcp_rs.Core.Errors.{AnyError}
use topdesk_mcp_rs.Shared.{
  String, some, Result, ok, err, ◌≡◌, refl, ap, sym, ◌∙◌, eq_refl, Result-cases, inl, inr, ◌⊎◌,
}

module _ {W : Type 0} (v : Vault W) where
  -- What the code relies on: a keychain gives back what it was given, and drawing a nonce and the
  -- work on the file leave it alone.
  pub record IsKeychain : Type 0 where
    pub sets :
        (account value : String) (w : W)
        → (v.set_password account value w).1 ≡ ok tt
        → v.get_password account (v.set_password account value w).0 ≡ ok value
    pub leaves : (account : String) → IsUntouched v (v.get_password account)

  -- What is left of `save_credential` once the keychain answered.
  abbrev after_set :
      String → String → W × Result KeyringError (Unit {0}) → W × Result AnyError (Unit {0})
  after_set account value (w, ok _) = (w, ok tt)
  after_set account value (w, err e) = save_to_file v account value w

  -- What loading gives once a credential was saved: where the keychain refused it, a password
  -- that the keychain still gives for the account, and the credential otherwise.
  abbrev pub kept_value : String → String → W × Result KeyringError (Unit {0}) → String
  kept_value account value (w, ok _) = value
  kept_value account value (w, err e) = elim (v.get_password account w) [
    | ok old ↦ old
    | err none_there ↦ value
  ]

  load-after_set :
      IsFaithful v
      → IsKeychain
      → (account value : String) (w : W) (r : W × Result KeyringError (Unit {0}))
      → v.set_password account value w ≡ r
      → v.from_utf8 (v.as_bytes value) ≡ ok value
      → (after_set account value r).1 ≡ ok tt
      → load_credential v account (after_set account value r).0
        ≡ ok (some (kept_value account value r))
  unfolding load_credential
  load-after_set good keys account value w (w₁, ok tt) e text h =
      let kept =
        ap (λ r. v.get_password account r.0) (sym e)
        ∙ keys.sets account value w (ap (λ r. r.1) e) in
      rw (kept, load_credential) refl
  load-after_set good keys account value w (w₁, err problem) e text h =
      let still =
        part-save_to_file v (v.get_password account) (keys.leaves account) account value w₁ in
      elim (Result-cases (v.get_password account w₁)) [
        | inl (old, there) ↦ rw (still, load_credential, there, kept_value) refl
        | inr (e', shut) ↦
            rw (still, load_credential, shut, kept_value)
              (load_from_file-save_to_file v good account value w₁ account text h
                ∙ rw (eq_refl account) refl)
      ]

  -- If the libraries keep what they are given and the work on the file leaves the keychain alone,
  -- the credential's UTF-8 reads back, and saving it reports success: loading that account gives
  -- the credential, whether the keychain or the file took it, except where the keychain refused it
  -- and still gives a password for the account; then loading gives that one, and not the credential.
  pub load_credential-save_credential :
      IsFaithful v
      → IsKeychain
      → (account value : String) (w : W) → v.from_utf8 (v.as_bytes value) ≡ ok value
      → (save_credential v account value w).1 ≡ ok tt
      → load_credential v account (save_credential v account value w).0
        ≡ ok (some (kept_value account value (v.set_password account value w)))
  unfolding save_credential
  load_credential-save_credential good keys account value w text h =
      load-after_set good keys account value w (v.set_password account value w) refl text h

  -- The keychain takes the value for the account, or has none for the account afterwards.
  abbrev pub Accepts : String → String → W → Type 0
  Accepts account value w =
      ((v.set_password account value w).1 ≡ ok tt)
      ⊎ ((e : KeyringError) × (v.get_password account (v.set_password account value w).0 ≡ err e))

  kept_value-accepted :
      (account value : String) (r : W × Result KeyringError (Unit {0}))
      → (r.1 ≡ ok tt) ⊎ ((e : KeyringError) × (v.get_password account r.0 ≡ err e))
      → kept_value account value r ≡ value
  kept_value-accepted account value (w, ok tt) accepted = refl
  kept_value-accepted account value (w, err e) (inl taken) = cc
  kept_value-accepted account value (w, err e) (inr (e', shut)) = rw (shut, kept_value) refl

  pub load_credential-accepted :
      IsFaithful v
      → IsKeychain
      → (account value : String) (w : W) → Accepts account value w
      → v.from_utf8 (v.as_bytes value) ≡ ok value
      → (save_credential v account value w).1 ≡ ok tt
      → load_credential v account (save_credential v account value w).0 ≡ ok (some value)
  load_credential-accepted good keys account value w accepted text h =
      load_credential-save_credential good keys account value w text h
      ∙ ap (λ kept. ok (some kept))
          (kept_value-accepted account value (v.set_password account value w) accepted)
