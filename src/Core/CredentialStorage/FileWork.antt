-- ===== src/Core/CredentialStorage/FileWork.antt =====
-- core/credential_storage.rs: what the work on the fallback file leaves alone.
use topdesk_mcp_rs.Core.CredentialStorage.{
  Vault, Bytes, encryption_key, save_to_file, write_store, and_then,
}
use topdesk_mcp_rs.Core.Errors.{AnyError}
use topdesk_mcp_rs.Shared.{String, Option-cases, inl, inr, Result, ok, err, ◌≡◌, refl, ◌∙◌}
use topdesk_mcp_rs.Shared.Dict.{Dict}

module _ {W : Type 0} (v : Vault W) where
  -- The part of the write that follows the directory.
  abbrev pub written : Result AnyError v.Contents → W → W × Result AnyError (Unit {0})
  written answer w = elim answer [
    | err e ↦ (w, err e)
    | ok contents ↦
        and_then v (and_then v (v.write_fallback contents w) v.restrict_dir) v.restrict_file
  ]

module _ {W X : Type 0} (v : Vault W) (part : W → X) where
  -- Drawing a nonce and each step of a write leave a part of the world alone.
  pub record IsUntouched : Type 0 where
    pub of_nonce : (w : W) → part (v.generate_nonce w).0 ≡ part w
    pub of_create : (w : W) → part (v.create_config_dir w).0 ≡ part w
    pub of_write : (contents : v.Contents) (w : W) → part (v.write_fallback contents w).0 ≡ part w
    pub of_dir : (w : W) → part (v.restrict_dir w).0 ≡ part w
    pub of_file : (w : W) → part (v.restrict_file w).0 ≡ part w

  part-and_then :
      (r : W × Result AnyError (Unit {0})) (f : W → W × Result AnyError (Unit {0}))
      → ((w : W) → part (f w).0 ≡ part w)
      → part (and_then v r f).0 ≡ part r.0
  part-and_then (w, ok tt) f keeps = keeps w
  part-and_then (w, err e) f keeps = refl

  part-written :
      IsUntouched
      → (answer : Result AnyError v.Contents) (w : W) → part (written v answer w).0 ≡ part w
  part-written same (err e) w = refl
  part-written same (ok contents) w =
      part-and_then (and_then v (v.write_fallback contents w) v.restrict_dir) v.restrict_file
        same.of_file
      ∙ part-and_then (v.write_fallback contents w) v.restrict_dir same.of_dir
      ∙ same.of_write contents w

  part-write_store :
      IsUntouched → (store : Dict Bytes) (w : W) → part (write_store v store w).0 ≡ part w
  unfolding write_store
  part-write_store same store w =
      part-and_then (v.create_config_dir w) (written v (v.to_json store))
        (part-written same (v.to_json store))
      ∙ same.of_create w

  pub part-save_to_file :
      IsUntouched
      → (account value : String) (w : W) → part (save_to_file v account value w).0 ≡ part w
  unfolding save_to_file
  part-save_to_file same account value w =
      elim (Option-cases
        (v.encrypt (encryption_key v w) (v.generate_nonce w).1 (v.as_bytes value))) [
          | inl e ↦ rw (e, save_to_file) (same.of_nonce w)
          | inr (ciphertext, e) ↦
              rw (e, save_to_file)
                (part-write_store same _ (v.generate_nonce w).0 ∙ same.of_nonce w)
        ]
