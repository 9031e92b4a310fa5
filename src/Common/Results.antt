-- ===== src/Common/Results.antt =====
-- Fallible code: the errors that the source reports, one constructor for each message, and
-- `anyhow::Result`.
use mathlib.Core.Path.{◌≡◌, refl, ap}
use mathlib.Core.Logic.{◌⊎◌, ◌≢◌, inl, inr}
use mathlib.Core.Bool.{Bool, true, false}

pub data Error : Type 0 where
  -- No error of the source: the fuel of a loop ran out, which the proofs show never happens.
  out_of_fuel : Error
  -- the reader
  unexpected_eof : Error
  -- format.rs
  not_rgx unsupported_version : Error
  -- archive.rs: packing
  output_exists input_missing bad_level symlink_entry not_relative bad_entry_kind : Error
  compression_failed too_many_chunks file_read_failed walk_failed : Error
  -- archive.rs: scanning
  missing_footer bad_chunk_size stored_size_mismatch bad_compressed_size : Error
  unsupported_compression payload_too_large duplicate_chunk duplicate_path unknown_chunk : Error
  reconstructed_size_mismatch unknown_marker trailing_data file_as_parent : Error
  unreferenced_chunk bad_statistics footer_mismatch add_overflow : Error
  -- archive.rs: paths
  invalid_path_len not_utf8 invalid_path noncanonical_path absolute_path : Error
  current_dir_component parent_dir_component empty_path : Error
  -- archive.rs: reading and verifying
  missing_chunk decompression_failed chunk_size_mismatch chunk_hash_mismatch : Error
  file_size_mismatch file_hash_mismatch entry_not_found empty_query selected_not_found : Error
  entry_too_large : Error
  -- archive.rs: extracting
  create_failed write_failed flush_failed : Error
  -- keyed_stream.rs and private.rs
  bad_stream_magic bad_stream_version bad_stream_flags bad_frame_size bad_crypto_profile : Error
  bad_kdf_memory bad_kdf_iterations bad_kdf_lanes empty_password kdf_failed : Error
  bad_frame_magic bad_frame_flags frame_too_large frame_not_full bad_ciphertext_len : Error
  envelope_mismatch sequence_mismatch sequence_overflow offset_overflow : Error
  missing_final_frame frame_truncated trailing_frame_data : Error
  seek_outside authentication_failed plaintext_len_mismatch encryption_failed : Error
  writer_finished invalid_seek invalid_frame_len truncated_field length_overflow : Error
  -- recipient.rs
  bad_hex_len bad_hex_digit wrong_recipient wrap_failed bad_wrapped_len unwrap_failed : Error
  bad_key_len key_metadata_mismatch unsupported_key_file key_file_truncated missing_field : Error
  bad_number passphrase_required no_signing_key bad_signing_key identity_mismatch : Error
  key_exists : Error
  -- recipient_archive.rs
  no_recipients too_many_recipients not_recipient_archive unsupported_envelope_version : Error
  bad_envelope_flags bad_recipient_count bad_envelope_reserved header_len_overflow : Error
  header_len_mismatch missing_payload unconsumed_header not_keyed_payload : Error
  no_password_fallback slot_disappeared output_missing : Error
  -- signature.rs
  signature_exists noncanonical_signature wrong_signature_lines unsupported_signature : Error
  unsupported_algorithm missing_signature_field noncanonical_field field_whitespace : Error
  signature_key_mismatch archive_changed signature_failed : Error

pub data Result {ℓ} (A : Type ℓ) : Type ℓ where
  ok : A → Result A
  err : Error → Result A

-- The bind of `Result`, written `m ⟫= f`; a `do` block over a stream has `◌>>=◌`.
infixl 5 ◌⟫=◌
abbrev pub ◌⟫=◌ {ℓ κ} : {A : Type ℓ} {B : Type κ} → Result A → (A → Result B) → Result B
ok a ⟫= f = f a
err e ⟫= f = err e

-- `if !b { bail!(e) }`
abbrev pub ensure : Bool → Error → Result (Unit {0})
ensure true e = ok tt
ensure false e = err e

-- `if b { bail!(e) }`
abbrev pub bail_if : Bool → Error → Result (Unit {0})
bail_if true e = err e
bail_if false e = ok tt

pub ⟫=-eq-ok {ℓ κ} :
    {A : Type ℓ} {B : Type κ} (m : Result A) (f : A → Result B) {b : B}
    → (m ⟫= f) ≡ ok b
    → (a : A) × (m ≡ ok a) × (f a ≡ ok b)
⟫=-eq-ok (ok a) f h = (a, refl, h)
⟫=-eq-ok (err e) f h = cc

pub bail_if-eq-ok : (b : Bool) (e : Error) → bail_if b e ≡ ok tt → b ≡ false
bail_if-eq-ok true e h = cc
bail_if-eq-ok false e h = refl

pub Result-cases {ℓ} :
    {A : Type ℓ} (r : Result A) → ((a : A) × (r ≡ ok a)) ⊎ ((e : Error) × (r ≡ err e))
Result-cases (ok a) = inl (a, refl)
Result-cases (err e) = inr (e, refl)

pub err-injective {ℓ} : {A : Type ℓ} {c d : Error} → ◌≡◌ {A = Result A} (err c) (err d) → c ≡ d
err-injective p = cc

pub err-ne-ok {ℓ} : {A : Type ℓ} {c : Error} {a : A} → ◌≢◌ {A = Result A} (err c) (ok a)
err-ne-ok p = cc

pub ⟫=-eq-err {ℓ κ} :
    {A : Type ℓ} {B : Type κ} (m : Result A) (f : A → Result B) {c : Error}
    → (m ⟫= f) ≡ err c
    → (m ≡ err c) ⊎ ((a : A) × (m ≡ ok a) × (f a ≡ err c))
⟫=-eq-err (ok a) f h = inr (a, refl, h)
⟫=-eq-err (err d) f h = inl (ap err (err-injective h))

pub ok-injective {ℓ} : {A : Type ℓ} {a b : A} → ok a ≡ ok b → a ≡ b
ok-injective p = cc
