-- ===== src/Runs/Keys.antt =====
-- Runs of src/recipient.rs: keys, key files and slots, under `toy_crypto`.
use rgx.Common.{
  ℕ, zero, suc, ◌≡◌, refl, [], ◌∷◌, Bytes, All, IsByte, arith, false, Result, ok, err, none, some,
  ascii, replicate, le_bytes, from_le_bytes,
}
use rgx.Text.Hex.{hex_encode, hex_decode, decode_pairs, decode_nibble}
use rgx.Text.Hex.RoundTrip.{hex_decode-hex_encode}
use rgx.Recipient.{
  RgxPrivateKey, RecipientSlot, PasswordSlot, public_key, public_key_id, key_id, signing_public_key,
  derive_recipient_wrap_key, derive_argon2_key, seal_key, recipient_aad, password_aad,
  private_key_file_aad, validate_password_parameters, is_empty_text, wrap_archive_key_for_recipient,
  unwrap_archive_key_for_recipient, wrap_archive_key_with_password,
  unwrap_archive_key_with_password,
}
use rgx.Recipient.Unwrap.{
  unwrap-wrap_archive_key_for_recipient, unwrap-wrap_archive_key_with_password,
}
use rgx.Recipient.KeyFiles.{
  private_text, public_text, save_keypair, save_keypair_text, save_keypair_protected,
  protect_private_key, load_private_key_with_password, load_public_key, load_signing_public_key,
}
use rgx.Recipient.KeyFiles.RoundTrip.{IsPrivateKey}
use rgx.Recipient.KeyFiles.Saved.{load_keypair-save_keypair, load_keypair-save_keypair_protected}
use rgx.Runs.Crypto.{toy_crypto, toy_crypto-IsCrypto}

abbrev pub result_or {ℓ} : {A : Type ℓ} → Result A → A → A
result_or (ok a) b = a
result_or (err e) b = b

abbrev pub some_key : RgxPrivateKey
some_key = record { secret = replicate 32 9 }

pub nines : (n : ℕ) → All IsByte (replicate n 9)
nines zero = tt
nines (suc n) = (omega arith, nines n)

pub some_key-IsPrivateKey : IsPrivateKey some_key
some_key-IsPrivateKey = record { secret_length = refl; secret_bytes = nines 32 }

abbrev no_slot : RecipientSlot
no_slot = record { key_id = []; ephemeral_public = []; nonce = []; wrapped_key = [] }

abbrev wrapped : Result RecipientSlot
wrapped =
    wrap_archive_key_for_recipient toy_crypto (replicate 32 4) (replicate 24 5) (replicate 32 6)
      (public_key toy_crypto some_key)

wrapped_ok : wrapped ≡ ok (result_or wrapped no_slot)
unfolding wrap_archive_key_for_recipient seal_key public_key public_key_id derive_recipient_wrap_key
    recipient_aad le_bytes from_le_bytes
wrapped_ok = refl

unwrap-wrap_archive_key_for_recipient_example :
    unwrap_archive_key_for_recipient toy_crypto (result_or wrapped no_slot) some_key
    ≡ ok (replicate 32 6)
unwrap-wrap_archive_key_for_recipient_example =
    unwrap-wrap_archive_key_for_recipient toy_crypto toy_crypto-IsCrypto some_key (replicate 32 4)
      (replicate 24 5) (replicate 32 6) (result_or wrapped no_slot) refl wrapped_ok

abbrev no_password : PasswordSlot
no_password = record {
  memory_kib = 0;
  iterations = 0;
  lanes = 0;
  salt = [];
  nonce = [];
  wrapped_key = [];
}

abbrev with_password : Result PasswordSlot
with_password =
    wrap_archive_key_with_password toy_crypto (replicate 16 4) (replicate 24 5) (replicate 32 6)
      (ascii "secret")

with_password_ok : with_password ≡ ok (result_or with_password no_password)
unfolding wrap_archive_key_with_password is_empty_text derive_argon2_key
    validate_password_parameters seal_key password_aad le_bytes from_le_bytes
with_password_ok = refl

unwrap-wrap_archive_key_with_password_example :
    unwrap_archive_key_with_password toy_crypto
      (result_or with_password no_password)
      (ascii "secret")
    ≡ ok (replicate 32 6)
unwrap-wrap_archive_key_with_password_example =
    unwrap-wrap_archive_key_with_password toy_crypto toy_crypto-IsCrypto (replicate 16 4)
      (replicate 24 5) (replicate 32 6) (ascii "secret") (result_or with_password no_password) refl
      with_password_ok

abbrev saved : Result (Bytes × Bytes)
saved = save_keypair toy_crypto false false some_key

saved_ok : saved ≡ ok (private_text toy_crypto some_key, public_text toy_crypto some_key)
unfolding save_keypair save_keypair_text
saved_ok = refl

load_keypair-save_keypair_example :
    (load_private_key_with_password toy_crypto (private_text toy_crypto some_key) none
      ≡ ok some_key)
    × (load_public_key toy_crypto (public_text toy_crypto some_key)
        ≡ ok (public_key toy_crypto some_key))
    × (load_signing_public_key toy_crypto (public_text toy_crypto some_key)
        ≡ ok (signing_public_key toy_crypto some_key))
load_keypair-save_keypair_example =
    load_keypair-save_keypair toy_crypto toy_crypto-IsCrypto false false some_key none
      (private_text toy_crypto some_key) (public_text toy_crypto some_key) some_key-IsPrivateKey
      saved_ok

abbrev protected : Result (Bytes × Bytes)
protected =
    save_keypair_protected toy_crypto (replicate 16 9) (replicate 24 9) false false some_key
      (ascii "secret")

abbrev protected_text : Bytes
protected_text = (result_or protected ([], [])).0

abbrev protected_public : Bytes
protected_public = (result_or protected ([], [])).1

protected_ok : protected ≡ ok (protected_text, protected_public)
unfolding save_keypair_protected save_keypair_text protect_private_key is_empty_text
    derive_argon2_key validate_password_parameters seal_key private_key_file_aad key_id public_key
    public_key_id le_bytes from_le_bytes
protected_ok = refl

load_keypair-save_keypair_protected_example :
    (load_private_key_with_password toy_crypto protected_text (some (ascii "secret")) ≡ ok some_key)
    × (load_public_key toy_crypto protected_public ≡ ok (public_key toy_crypto some_key))
load_keypair-save_keypair_protected_example =
    load_keypair-save_keypair_protected toy_crypto toy_crypto-IsCrypto false false some_key
      (replicate 16 9) (replicate 24 9) (ascii "secret") protected_text protected_public
      some_key-IsPrivateKey refl (nines 16) refl (nines 24) protected_ok

hex_decode-hex_encode_example :
    hex_decode 3 (hex_encode (0 ∷ 171 ∷ 255 ∷ [])) ≡ ok (0 ∷ 171 ∷ 255 ∷ [])
hex_decode-hex_encode_example =
    hex_decode-hex_encode 3 (0 ∷ 171 ∷ 255 ∷ []) (omega arith, (omega arith, (omega arith, tt)))
      refl

-- Digits are read in both cases, and written in lower case.
upper_case : hex_decode 2 (ascii "ABcd") ≡ ok (171 ∷ 205 ∷ [])
unfolding hex_decode decode_pairs decode_nibble
upper_case = refl
