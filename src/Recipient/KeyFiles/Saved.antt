-- ===== src/Recipient/KeyFiles/Saved.antt =====
-- The two files that a key pair of src/recipient.rs is saved in are loaded as its keys.
use rgx.Common.{
  ◌≡◌, ap, Bool, Bytes, Option, some, All, IsByte, length, ok, bail_if, ⟫=-eq-ok, ok-injective,
}
use rgx.Recipient.{Crypto, IsCrypto, RgxPrivateKey, public_key, signing_public_key}
use rgx.Recipient.KeyFiles.{
  public_text, private_text, protect_private_key, save_keypair_text, save_keypair,
  save_keypair_protected, load_private_key_with_password, load_public_key, load_signing_public_key,
}
use rgx.Recipient.KeyFiles.RoundTrip.{
  IsPrivateKey, load_private_key-private_text, load_public_key-public_text,
}
use rgx.Recipient.KeyFiles.Protected.{load_private_key-protect_private_key}

module _ (c : Crypto) (law : IsCrypto c) (private_exists public_exists : Bool)
    (key : RgxPrivateKey) where
  saved_text :
      (given text public : Bytes)
      → save_keypair_text c private_exists public_exists key given ≡ ok (text, public)
      → (given ≡ text) × (public_text c key ≡ public)
  unfolding save_keypair_text
  saved_text given text public h =
      let (u1, e1, h1) = ⟫=-eq-ok (bail_if private_exists _) _ h in
      let (u2, e2, h2) = ⟫=-eq-ok (bail_if public_exists _) _ h1 in
      (
        ap (λ (t : Bytes × Bytes). t.0) (ok-injective h2),
        ap (λ (t : Bytes × Bytes). t.1) (ok-injective h2),
      )

  -- Of the files that `save_keypair` writes, the private one is loaded as the key, with any passphrase or
  -- none, and the public one has both public keys: `load_public_key` loads the one of X25519, and
  -- `load_signing_public_key` the one of Ed25519.
  pub load_keypair-save_keypair :
      (password : Option Bytes) (text public : Bytes)
      → IsPrivateKey key
      → save_keypair c private_exists public_exists key ≡ ok (text, public)
      → (load_private_key_with_password c text password ≡ ok key)
        × (load_public_key c public ≡ ok (public_key c key))
        × (load_signing_public_key c public ≡ ok (signing_public_key c key))
  unfolding save_keypair
  load_keypair-save_keypair password text public v h =
      let (e, f) = saved_text (private_text c key) text public h in
      let (loaded, signing) = load_public_key-public_text c law key in
      rw (← e, ← f) (load_private_key-private_text c law key password v, loaded, signing)

  -- Of the files that `save_keypair_protected` writes under a salt and a nonce of their lengths, the
  -- private one is loaded as the key with the same passphrase, and the public one as its public key.
  pub load_keypair-save_keypair_protected :
      (salt nonce password text public : Bytes)
      → IsPrivateKey key
      → length salt ≡ 16
      → All IsByte salt
      → length nonce ≡ 24
      → All IsByte nonce
      → save_keypair_protected c salt nonce private_exists public_exists key password
        ≡ ok (text, public)
      → (load_private_key_with_password c text (some password) ≡ ok key)
        × (load_public_key c public ≡ ok (public_key c key))
  unfolding save_keypair_protected
  load_keypair-save_keypair_protected salt nonce password text public v sl sb nl nb h =
      let (given, e1, h1) = ⟫=-eq-ok (protect_private_key c salt nonce key password) _ h in
      let (e, f) = saved_text given text public h1 in
      rw (← e, ← f)
        (
          load_private_key-protect_private_key c law key salt nonce password given v sl sb nl nb e1,
          (load_public_key-public_text c law key).0,
        )
