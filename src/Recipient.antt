-- ===== src/Recipient.antt =====
-- src/recipient.rs: X25519 key pairs, and the slots that wrap an archive key for a recipient or a
-- password. The packages for cryptography are parameters; random bytes are arguments.
pub mod Unwrap
pub mod KeyFiles
use rgx.Common.{
  ℕ, ◌+◌, ◌*◌, ◌≡◌, List, [], ◌∷◌, ◌++◌, Option, none, some, Bool, true, not, ◌&&◌, ◌||◌, Bytes,
  bytes_eq, le_bytes, length, take, ltb, leb, ◌==◌, if◌then◌else◌, ascii, Result, ok, err, bail_if,
  ◌⟫=◌, empty_password, kdf_failed, bad_kdf_memory, bad_kdf_iterations, bad_kdf_lanes,
  wrong_recipient, wrap_failed, bad_wrapped_len, unwrap_failed, bad_key_len, All, IsByte,
}
use rgx.Frames.{Aead, IsAead}

abbrev pub recipient_wrap_context : Bytes
recipient_wrap_context = ascii "rgx recipient archive-key wrap v1"

abbrev pub recipient_wrap_aad : Bytes
recipient_wrap_aad = ascii "RGX-RECIPIENT-WRAP-1"

abbrev pub password_wrap_aad : Bytes
password_wrap_aad = ascii "RGX-PASSWORD-WRAP-1"

abbrev pub private_key_file_context : Bytes
private_key_file_context = ascii "RGX-PRIVATE-KEY-FILE-2"

abbrev pub signing_seed_context : Bytes
signing_seed_context = ascii "rgx ed25519 signing seed v1"

abbrev pub wrapped_key_len : ℕ
wrapped_key_len = 48

abbrev pub argon2_memory_kib : ℕ
argon2_memory_kib = 64 * 1024

abbrev pub argon2_iterations : ℕ
argon2_iterations = 3

abbrev pub argon2_lanes : ℕ
argon2_lanes = 1

-- The packages: XChaCha20-Poly1305; `blake3::hash` and `blake3::derive_key`; the public key and
-- `diffie_hellman` of X25519; Argon2id of a password, a salt, the memory, the iterations and the
-- lanes; and Ed25519: the verifying key of a seed, whether bytes are a verifying key, `sign` and
-- `verify`.
pub record Crypto : Type 0 where
  pub aead : Aead
  pub hash : Bytes → Bytes
  pub derive : Bytes → Bytes → Bytes
  pub public_of : Bytes → Bytes
  pub diffie_hellman : Bytes → Bytes → Bytes
  pub argon2 : Bytes → Bytes → ℕ → ℕ → ℕ → Option Bytes
  pub verifying_of : Bytes → Bytes
  pub is_verifying : Bytes → Bool
  pub sign : Bytes → Bytes → Bytes
  pub verify : Bytes → Bytes → Bytes → Bool

-- What their documentation promises: the lengths of keys, digests and signatures, which are bytes;
-- the two sides of a key agreement share one secret; what was encrypted is decrypted; and a
-- signature is verified under the key that belongs to its seed.
pub record IsCrypto (c : Crypto) : Type 0 where
  pub aead : IsAead c.aead
  pub encrypt_bytes :
      (key nonce msg aad d : Bytes) → c.aead.encrypt key nonce msg aad ≡ some d → All IsByte d
  pub hash_length : (d : Bytes) → length (c.hash d) ≡ 32
  pub hash_bytes : (d : Bytes) → All IsByte (c.hash d)
  pub public_length : (s : Bytes) → length (c.public_of s) ≡ 32
  pub public_bytes : (s : Bytes) → All IsByte (c.public_of s)
  pub agreement :
      (a b : Bytes) → c.diffie_hellman a (c.public_of b) ≡ c.diffie_hellman b (c.public_of a)
  pub verifying_length : (s : Bytes) → length (c.verifying_of s) ≡ 32
  pub verifying_bytes : (s : Bytes) → All IsByte (c.verifying_of s)
  pub verifying_valid : (s : Bytes) → c.is_verifying (c.verifying_of s) ≡ true
  pub sign_length : (s m : Bytes) → length (c.sign s m) ≡ 64
  pub sign_bytes : (s m : Bytes) → All IsByte (c.sign s m)
  pub verify-sign : (s m : Bytes) → c.verify (c.verifying_of s) m (c.sign s m) ≡ true

pub record RgxPrivateKey : Type 0 where
  pub secret : Bytes

pub record RgxPublicKey : Type 0 where
  pub public : Bytes

pub record RecipientSlot : Type 0 where
  pub key_id : Bytes
  pub ephemeral_public : Bytes
  pub nonce : Bytes
  pub wrapped_key : Bytes

pub record PasswordSlot : Type 0 where
  pub memory_kib : ℕ
  pub iterations : ℕ
  pub lanes : ℕ
  pub salt : Bytes
  pub nonce : Bytes
  pub wrapped_key : Bytes

unfoldable pub recipient_aad : Bytes → Bytes → Bytes
recipient_aad key_id ephemeral_public = recipient_wrap_aad ++ (key_id ++ ephemeral_public)

unfoldable pub password_aad : Bytes → ℕ → ℕ → ℕ → Bytes
password_aad salt memory_kib iterations lanes =
    password_wrap_aad
    ++ (le_bytes 4 memory_kib ++ (le_bytes 4 iterations ++ (le_bytes 4 lanes ++ salt)))

unfoldable pub private_key_file_aad : Bytes → Bytes → Bytes → ℕ → ℕ → ℕ → Bytes
private_key_file_aad key_id public salt memory_kib iterations lanes =
    private_key_file_context
    ++ (key_id
        ++ (public
            ++ (le_bytes 4 memory_kib ++ (le_bytes 4 iterations ++ (le_bytes 4 lanes ++ salt)))))

unfoldable pub validate_password_parameters : ℕ → ℕ → ℕ → Result (Unit {0})
validate_password_parameters memory_kib iterations lanes =
    bail_if (not (leb (8 * 1024) memory_kib && leb memory_kib (1024 * 1024))) bad_kdf_memory ⟫= λ _.
    bail_if (not (leb 1 iterations && leb iterations 10)) bad_kdf_iterations ⟫= λ _.
    bail_if (not (leb 1 lanes && leb lanes 16)) bad_kdf_lanes

unfoldable pub is_empty_text : Bytes → Bool
is_empty_text text = length text == 0

-- `try_into` of an array of `n` bytes.
unfoldable pub to_array : ℕ → Bytes → Result Bytes
to_array n bytes = if length bytes == n then ok bytes else err bad_key_len

module _ (c : Crypto) where
  unfoldable pub public_key : RgxPrivateKey → RgxPublicKey
  public_key key = record { public = c.public_of key.secret }

  unfoldable pub public_key_id : RgxPublicKey → Bytes
  public_key_id key = take 16 (c.hash key.public)

  unfoldable pub key_id : RgxPrivateKey → Bytes
  key_id key = public_key_id (public_key key)

  -- `signing_key`: the seed that Ed25519 expands.
  unfoldable pub signing_key : RgxPrivateKey → Bytes
  signing_key key = c.derive signing_seed_context key.secret

  unfoldable pub signing_public_key : RgxPrivateKey → Bytes
  signing_public_key key = c.verifying_of (signing_key key)

  unfoldable pub derive_recipient_wrap_key : Bytes → Bytes → Bytes → Bytes → Bytes
  derive_recipient_wrap_key shared_secret ephemeral_public recipient_public id =
      c.derive recipient_wrap_context
        (shared_secret ++ (ephemeral_public ++ (recipient_public ++ id)))

  unfoldable pub derive_argon2_key : Bytes → Bytes → ℕ → ℕ → ℕ → Result Bytes
  derive_argon2_key password salt memory_kib iterations lanes =
      bail_if (is_empty_text password) empty_password ⟫= λ _.
      validate_password_parameters memory_kib iterations lanes ⟫= λ _.
      elim (c.argon2 password salt memory_kib iterations lanes) [
        | none ↦ err kdf_failed
        | some key ↦ ok key
      ]

  -- `encrypt` and `try_into` of the ciphertext, as all three wrappers make them.
  unfoldable pub seal_key : Bytes → Bytes → Bytes → Bytes → Result Bytes
  seal_key wrap_key nonce msg aad = elim (c.aead.encrypt wrap_key nonce msg aad) [
    | none ↦ err wrap_failed
    | some ciphertext ↦
        bail_if (not (length ciphertext == wrapped_key_len)) bad_wrapped_len ⟫= λ _. ok ciphertext
  ]

  -- `decrypt` and `try_into` of the plaintext, as all three unwrappers make them.
  unfoldable pub open_key : Bytes → Bytes → Bytes → Bytes → Result Bytes
  open_key wrap_key nonce msg aad = elim (c.aead.decrypt wrap_key nonce msg aad) [
    | none ↦ err unwrap_failed
    | some plaintext ↦ to_array 32 plaintext
  ]

  -- The ephemeral secret and the nonce are random.
  unfoldable pub wrap_archive_key_for_recipient :
      Bytes → Bytes → Bytes → RgxPublicKey → Result RecipientSlot
  wrap_archive_key_for_recipient ephemeral_secret nonce archive_key recipient =
      let ephemeral_public = c.public_of ephemeral_secret in
      let shared = c.diffie_hellman ephemeral_secret recipient.public in
      let id = public_key_id recipient in
      let wrap_key = derive_recipient_wrap_key shared ephemeral_public recipient.public id in
      seal_key wrap_key nonce archive_key (recipient_aad id ephemeral_public) ⟫= λ wrapped_key.
      ok (record {
        key_id = id;
        ephemeral_public = ephemeral_public;
        nonce = nonce;
        wrapped_key = wrapped_key;
      })

  unfoldable pub unwrap_archive_key_for_recipient : RecipientSlot → RgxPrivateKey → Result Bytes
  unwrap_archive_key_for_recipient slot private_key =
      let public = public_key private_key in
      bail_if (not (bytes_eq (public_key_id public) slot.key_id)) wrong_recipient ⟫= λ _.
      let shared = c.diffie_hellman private_key.secret slot.ephemeral_public in
      let wrap_key =
        derive_recipient_wrap_key shared slot.ephemeral_public public.public slot.key_id in
      open_key wrap_key slot.nonce slot.wrapped_key
        (recipient_aad slot.key_id slot.ephemeral_public)

  -- The salt and the nonce are random.
  unfoldable pub wrap_archive_key_with_password :
      Bytes → Bytes → Bytes → Bytes → Result PasswordSlot
  wrap_archive_key_with_password salt nonce archive_key password =
      bail_if (is_empty_text password) empty_password ⟫= λ _.
      derive_argon2_key password salt argon2_memory_kib argon2_iterations argon2_lanes
      ⟫= λ wrap_key.
          seal_key wrap_key nonce archive_key
            (password_aad salt argon2_memory_kib argon2_iterations argon2_lanes)
          ⟫= λ wrapped_key. ok (record {
            memory_kib = argon2_memory_kib;
            iterations = argon2_iterations;
            lanes = argon2_lanes;
            salt = salt;
            nonce = nonce;
            wrapped_key = wrapped_key;
          })

  unfoldable pub unwrap_archive_key_with_password : PasswordSlot → Bytes → Result Bytes
  unwrap_archive_key_with_password slot password =
      validate_password_parameters slot.memory_kib slot.iterations slot.lanes ⟫= λ _.
      derive_argon2_key password slot.salt slot.memory_kib slot.iterations slot.lanes ⟫= λ wrap_key.
      open_key wrap_key slot.nonce slot.wrapped_key
        (password_aad slot.salt slot.memory_kib slot.iterations slot.lanes)
