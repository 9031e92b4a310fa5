-- ===== src/Recipient/Unwrap.antt =====
-- The archive key that a slot of src/recipient.rs wraps is unwrapped.
use rgx.Common.{
  ◌≡◌, refl, not, Bytes, bytes_eq_refl, length, ◌==◌, eq→==, Option-cases, inl, inr, ok, bail_if,
  ⟫=-eq-ok, ok-injective, err-ne-ok, subst,
}
use rgx.Recipient.{
  Crypto, IsCrypto, RgxPrivateKey, RecipientSlot, PasswordSlot, public_key, public_key_id,
  derive_argon2_key, seal_key, open_key, to_array, validate_password_parameters, argon2_memory_kib,
  argon2_iterations, argon2_lanes, wrap_archive_key_for_recipient, unwrap_archive_key_for_recipient,
  wrap_archive_key_with_password, unwrap_archive_key_with_password, is_empty_text,
}

module _ (c : Crypto) (law : IsCrypto c) where
  -- What was sealed under the same key, nonce and associated data is opened.
  pub open_key-seal_key :
      (wrap_key nonce key aad sealed : Bytes)
      → length key ≡ 32
      → seal_key c wrap_key nonce key aad ≡ ok sealed
      → open_key c wrap_key nonce sealed aad ≡ ok key
  unfolding seal_key open_key to_array
  open_key-seal_key wrap_key nonce key aad sealed len h =
      elim (Option-cases (c.aead.encrypt wrap_key nonce key aad)) [
        | inl e ↦ absurd (err-ne-ok (rw (e, seal_key) at h))
        | inr (ciphertext, e) ↦
            let q = rw (e, seal_key) at h in
            let (u, e1, h1) = ⟫=-eq-ok (bail_if (not (length ciphertext == 48)) _) _ q in
            let same : ciphertext ≡ sealed = ok-injective h1 in
            rw
              (
                ← same,
                law.aead.decrypt-encrypt wrap_key nonce key aad ciphertext e,
                open_key,
                eq→== _ _ len,
              )
              refl
      ]

  -- The private key of the recipient unwraps the archive key that was wrapped for its public key.
  pub unwrap-wrap_archive_key_for_recipient :
      (key : RgxPrivateKey) (ephemeral_secret nonce archive_key : Bytes) (slot : RecipientSlot)
      → length archive_key ≡ 32
      → wrap_archive_key_for_recipient c ephemeral_secret nonce archive_key (public_key c key)
        ≡ ok slot
      → unwrap_archive_key_for_recipient c slot key ≡ ok archive_key
  unfolding wrap_archive_key_for_recipient unwrap_archive_key_for_recipient public_key
  unwrap-wrap_archive_key_for_recipient key ephemeral_secret nonce archive_key slot len h =
      let id = public_key_id c (public_key c key) in
      let (sealed, e, h1) = ⟫=-eq-ok (seal_key c _ nonce archive_key _) _ h in
      subst (λ s. unwrap_archive_key_for_recipient c s key ≡ ok archive_key) (ok-injective h1)
        (unfold unwrap_archive_key_for_recipient public_key in
          rw (bytes_eq_refl id, law.agreement key.secret ephemeral_secret)
            (open_key-seal_key _ nonce archive_key _ sealed len e))

  -- The password unwraps the archive key that was wrapped with it.
  pub unwrap-wrap_archive_key_with_password :
      (salt nonce archive_key password : Bytes) (slot : PasswordSlot)
      → length archive_key ≡ 32
      → wrap_archive_key_with_password c salt nonce archive_key password ≡ ok slot
      → unwrap_archive_key_with_password c slot password ≡ ok archive_key
  unfolding wrap_archive_key_with_password unwrap_archive_key_with_password
  unwrap-wrap_archive_key_with_password salt nonce archive_key password slot len h =
      let (u, e1, h1) = ⟫=-eq-ok (bail_if (is_empty_text password) _) _ h in
      let (wrap_key, e2, h2) =
        ⟫=-eq-ok
          (derive_argon2_key c password salt argon2_memory_kib argon2_iterations argon2_lanes) _
          h1 in
      let (sealed, e3, h3) = ⟫=-eq-ok (seal_key c wrap_key nonce archive_key _) _ h2 in
      subst (λ s. unwrap_archive_key_with_password c s password ≡ ok archive_key) (ok-injective h3)
        (unfold unwrap_archive_key_with_password validate_password_parameters in
          rw e2 (open_key-seal_key wrap_key nonce archive_key _ sealed len e3))
