-- ===== src/Runs/Sealed.antt =====
-- Runs of src/recipient_archive.rs and src/signature.rs, under `toy_crypto`.
use rgx.Common.{
  ◌≤◌, ◌<◌, ltb, ltb→lt, take, drop, ◌^◌, ◌≡◌, ◌≢◌, refl, ap, [], ◌∷◌, ◌++◌, Bool, true, false,
  Bytes, arith, Result, ok, err, none, some, ascii, replicate, length, bytes_eq, le_bytes,
  from_le_bytes, archive_changed, get_or,
}
use rgx.Frames.Writer.{seal_frame, emit, finish, fill, room, write_loop, write}
use rgx.Frames.Headers.{encode_frame_header, frame_nonce, frame_aad}
use rgx.Keyed.{keyed_magic, encode_header, new_header, new_key, stream_key}
use rgx.Archive.{ArchiveInfo}
use rgx.Recipient.{
  RgxPrivateKey, RecipientSlot, PasswordSlot, public_key, public_key_id, key_id,
  derive_recipient_wrap_key, derive_argon2_key, seal_key, recipient_aad, password_aad,
  validate_password_parameters, is_empty_text, wrap_archive_key_for_recipient,
  wrap_archive_key_with_password,
}
use rgx.Recipient.KeyFiles.{private_text, public_text}
use rgx.RecipientArchive.{
  Randoms, identity, password_fallback, is_some, checked_usize, expected_header_len, encode_prefix,
  encode_recipient_slot, encode_recipient_slots, encode_password_slot, encode_envelope,
  read_envelope, wrap_all, wrap_fallback, pack_recipient, try_unlock_identity, unlock_password,
}
use rgx.RecipientArchive.Envelope.{IsRecipientSlot, IsPasswordSlot, read_envelope-encode_envelope}
use rgx.RecipientArchive.Unlock.{
  IsRandoms, unlock_password-pack_recipient, try_unlock_identity-pack_recipient,
}
use rgx.Text.Lines.{unlines}
use rgx.Signature.{
  SignatureInfo, SignatureRecord, signature_lines, parse_signature, hash_archive, sign_archive,
  verify_archive_signature,
}
use rgx.Signature.RoundTrip.{parse_signature-signature_lines}
use rgx.Signature.Verified.{
  Verified, verify_archive_signature-sign_archive, verify_archive_signature-changed,
  verify_archive_signature-Verified,
}
use rgx.RecipientArchive.Payload.{read_payload, read_payload-pack_recipient}
use rgx.Runs.Crypto.{toy_crypto, toy_crypto-IsCrypto}
use rgx.Runs.Keys.{result_or, some_key, some_key-IsPrivateKey, nines}
use rgx.Runs.Archives.{toy, walk, toy_archive, toy_info, packed_toy}

abbrev one_slot : RecipientSlot
one_slot = record {
  key_id = replicate 16 1;
  ephemeral_public = replicate 32 2;
  nonce = replicate 24 3;
  wrapped_key = replicate 48 4;
}

abbrev password_slot : PasswordSlot
password_slot = record {
  memory_kib = 65_536;
  iterations = 3;
  lanes = 1;
  salt = replicate 16 5;
  nonce = replicate 24 6;
  wrapped_key = replicate 48 7;
}

abbrev envelope : Result Bytes
envelope = encode_envelope (one_slot ∷ []) (some password_slot)

envelope_ok : envelope ≡ ok (result_or envelope [])
unfolding encode_envelope is_some checked_usize expected_header_len encode_prefix
    encode_recipient_slot encode_recipient_slots encode_password_slot le_bytes
envelope_ok = refl

one_slot-IsRecipientSlot : IsRecipientSlot one_slot
one_slot-IsRecipientSlot = record {
  key_id = refl;
  ephemeral_public = refl;
  nonce = refl;
  wrapped_key = refl;
}

password_slot-IsPasswordSlot : IsPasswordSlot password_slot
password_slot-IsPasswordSlot = record {
  memory_kib = omega arith;
  iterations = omega arith;
  lanes = omega arith;
  salt = refl;
  nonce = refl;
  wrapped_key = refl;
}

read_envelope-encode_envelope_example :
    read_envelope toy_crypto (result_or envelope [] ++ (keyed_magic ++ (0 ∷ [])))
    ≡ ok (record {
      recipients = one_slot ∷ [];
      password = some password_slot;
      payload_offset = length (result_or envelope []);
      envelope_hash = toy_crypto.hash (result_or envelope []);
    })
read_envelope-encode_envelope_example =
    read_envelope-encode_envelope toy_crypto (one_slot ∷ []) (some password_slot)
      (result_or envelope []) (0 ∷ []) (one_slot-IsRecipientSlot, tt) password_slot-IsPasswordSlot
      (omega arith) (omega arith) (omega arith) envelope_ok

abbrev toy_randoms : Randoms
toy_randoms = record {
  archive_key = replicate 32 1;
  draw = λ i. (replicate 32 2, replicate 24 3);
  password_salt = replicate 16 4;
  password_nonce = replicate 24 5;
  nonce_prefix = replicate 16 6;
}

toy_randoms-IsRandoms : IsRandoms toy_randoms
toy_randoms-IsRandoms = record {
  archive_key = refl;
  draw = λ i. refl;
  password_salt = refl;
  password_nonce = refl;
}

abbrev other_key : RgxPrivateKey
other_key = record { secret = replicate 32 8 }

-- The archive of two recipients and a password.
abbrev sealed : Result (Bytes × ArchiveInfo)
sealed =
    pack_recipient toy_crypto toy toy_randoms false (ok tt) true 3
      (public_key toy_crypto other_key ∷ (public_key toy_crypto some_key ∷ []))
      (some (ascii "secret")) (some walk)

abbrev pub is_ok {ℓ} : {A : Type ℓ} → Result A → Bool
is_ok (ok a) = true
is_ok (err e) = false

pub is_ok-result_or {ℓ} :
    {A : Type ℓ} (r : Result A) (a : A) → is_ok r ≡ true → r ≡ ok (result_or r a)
is_ok-result_or (ok b) a h = refl
is_ok-result_or (err e) a h = cc

abbrev sealed_file : Bytes
sealed_file = (result_or sealed ([], toy_info)).0

abbrev sealed_info : ArchiveInfo
sealed_info = (result_or sealed ([], toy_info)).1

is_ok-sealed : is_ok sealed ≡ true
unfolding pack_recipient wrap_all wrap_fallback wrap_archive_key_for_recipient
    wrap_archive_key_with_password is_empty_text derive_argon2_key validate_password_parameters
    seal_key password_aad recipient_aad derive_recipient_wrap_key public_key public_key_id
    encode_envelope is_some checked_usize expected_header_len encode_prefix encode_recipient_slot
    encode_recipient_slots encode_password_slot encode_header new_header new_key stream_key
    seal_frame emit finish fill room write_loop write encode_frame_header frame_nonce frame_aad
    le_bytes from_le_bytes
is_ok-sealed = rw packed_toy refl

sealed_ok : sealed ≡ ok (sealed_file, sealed_info)
sealed_ok = is_ok-result_or sealed ([], toy_info) is_ok-sealed

abbrev pub is_short : Result (Bytes × ArchiveInfo) → Bool
is_short (ok r) = ltb (length r.0) (2 ^ 64)
is_short (err e) = false

pub is_short-result_or :
    (r : Result (Bytes × ArchiveInfo)) (d : Bytes × ArchiveInfo)
    → is_short r ≡ true
    → length (result_or r d).0 < 2 ^ 64
is_short-result_or (ok r) d h = ltb→lt (length r.0) (2 ^ 64) h
is_short-result_or (err e) d h = cc

fits_sealed : is_short sealed ≡ true
unfolding pack_recipient wrap_all wrap_fallback wrap_archive_key_for_recipient
    wrap_archive_key_with_password is_empty_text derive_argon2_key validate_password_parameters
    seal_key password_aad recipient_aad derive_recipient_wrap_key public_key public_key_id
    encode_envelope is_some checked_usize expected_header_len encode_prefix encode_recipient_slot
    encode_recipient_slots encode_password_slot encode_header new_header new_key stream_key
    seal_frame emit finish fill room write_loop write encode_frame_header frame_nonce frame_aad
    le_bytes from_le_bytes
fits_sealed = rw packed_toy refl

archive_long : 4 ≤ length toy_archive
unfolding le_bytes
archive_long = omega arith

-- Ten bytes of the archive, from the fourth on.
read_payload-pack_recipient_example :
    (read_payload toy_crypto sealed_file (replicate 32 1) 4 10 ≡ ok (take 10 (drop 4 toy_archive)))
    × (sealed_info ≡ toy_info)
read_payload-pack_recipient_example =
    read_payload-pack_recipient toy_crypto toy_crypto-IsCrypto toy_randoms toy_randoms-IsRandoms toy
      false (ok tt) true 3 (public_key toy_crypto other_key ∷ (public_key toy_crypto some_key ∷ []))
      (some (ascii "secret")) (some walk) sealed_file toy_archive sealed_info toy_info 4 10 refl
      packed_toy sealed_ok (is_short-result_or sealed ([], toy_info) fits_sealed) archive_long

unlock_password-pack_recipient_example :
    unlock_password toy_crypto sealed_file (ascii "secret") ≡ ok (replicate 32 1, password_fallback)
unlock_password-pack_recipient_example =
    unlock_password-pack_recipient toy_crypto toy_crypto-IsCrypto toy_randoms toy_randoms-IsRandoms
      toy false (ok tt) true 3
      (public_key toy_crypto other_key ∷ (public_key toy_crypto some_key ∷ [])) (ascii "secret")
      (some walk) sealed_file sealed_info sealed_ok

other_id :
    bytes_eq
      (public_key_id toy_crypto (public_key toy_crypto other_key))
      (key_id toy_crypto some_key)
    ≡ false
unfolding public_key_id key_id public_key bytes_eq le_bytes from_le_bytes
other_id = refl

try_unlock_identity-pack_recipient_example :
    try_unlock_identity toy_crypto sealed_file (some (private_text toy_crypto some_key)) [] none
    ≡ ok (some (replicate 32 1, identity (key_id toy_crypto some_key)))
try_unlock_identity-pack_recipient_example =
    try_unlock_identity-pack_recipient toy_crypto toy_crypto-IsCrypto toy_randoms
      toy_randoms-IsRandoms toy false (ok tt) true 3 some_key (public_key toy_crypto other_key ∷ [])
      [] (some (ascii "secret")) (some walk) sealed_file sealed_info [] none some_key-IsPrivateKey
      (other_id, tt) sealed_ok

abbrev signed : Result (Bytes × SignatureInfo)
signed = sign_archive toy_crypto (1 ∷ 2 ∷ 3 ∷ []) some_key false

abbrev no_info : SignatureInfo
no_info = record { key_id = []; archive_len = 0; archive_hash = [] }

abbrev signature_text : Bytes
signature_text = (result_or signed ([], no_info)).0

abbrev signature_info : SignatureInfo
signature_info = (result_or signed ([], no_info)).1

signed_ok : signed ≡ ok (signature_text, signature_info)
unfolding sign_archive hash_archive
signed_ok = refl

verify_archive_signature-sign_archive_example :
    verify_archive_signature toy_crypto
      (1 ∷ 2 ∷ 3 ∷ [])
      signature_text
      (public_text toy_crypto some_key)
    ≡ ok signature_info
verify_archive_signature-sign_archive_example =
    verify_archive_signature-sign_archive toy_crypto toy_crypto-IsCrypto (1 ∷ 2 ∷ 3 ∷ []) some_key
      false signature_text signature_info signed_ok

verify_archive_signature-Verified_example :
    Verified toy_crypto
      (1 ∷ 2 ∷ 3 ∷ [])
      signature_text
      (public_text toy_crypto some_key)
      signature_info
verify_archive_signature-Verified_example =
    verify_archive_signature-Verified toy_crypto (1 ∷ 2 ∷ 3 ∷ []) signature_text
      (public_text toy_crypto some_key) signature_info
      (verify_archive_signature-sign_archive toy_crypto toy_crypto-IsCrypto (1 ∷ 2 ∷ 3 ∷ [])
        some_key false signature_text signature_info signed_ok)

other_hash : toy_crypto.hash (1 ∷ 2 ∷ 4 ∷ []) ≢ toy_crypto.hash (1 ∷ 2 ∷ 3 ∷ [])
unfolding le_bytes from_le_bytes
other_hash e = omega (arith, ap (λ (d : Bytes). get_or d 2 0) e)

verify_archive_signature-changed_example :
    verify_archive_signature toy_crypto
      (1 ∷ 2 ∷ 4 ∷ [])
      signature_text
      (public_text toy_crypto some_key)
    ≡ err archive_changed
verify_archive_signature-changed_example =
    verify_archive_signature-changed toy_crypto toy_crypto-IsCrypto (1 ∷ 2 ∷ 3 ∷ [])
      (1 ∷ 2 ∷ 4 ∷ []) some_key false signature_text signature_info signed_ok (omega arith)
      other_hash

abbrev some_record : SignatureRecord
some_record = record {
  key_id = replicate 16 9;
  archive_len = 1_234;
  archive_hash = replicate 32 9;
  signature = replicate 64 9;
}

parse_signature-signature_lines_example :
    parse_signature (unlines (signature_lines some_record)) ≡ ok some_record
parse_signature-signature_lines_example = parse_signature-signature_lines some_record (record {
  key_id = (refl, nines 16);
  archive_len = omega arith;
  archive_hash = (refl, nines 32);
  signature = (refl, nines 64);
})
