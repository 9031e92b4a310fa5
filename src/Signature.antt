-- ===== src/Signature.antt =====
-- src/signature.rs: detached Ed25519 signatures. Files are given by their contents, and hexadecimal
-- text is that of the module `Text.Hex`, whose functions are written the same in src/recipient.rs.
pub mod RoundTrip
pub mod Verified
use rgx.Common.{
  ℕ, ◌^◌, List, [], ◌∷◌, ◌++◌, Option, none, some, Bool, not, ◌&&◌, ◌||◌, Bytes, bytes_eq, le_bytes,
  length, ltb, ◌==◌, if◌then◌else◌, ascii, Result, ok, err, bail_if, ◌⟫=◌, signature_exists,
  noncanonical_signature, wrong_signature_lines, unsupported_signature, unsupported_algorithm,
  missing_signature_field, noncanonical_field, field_whitespace, signature_key_mismatch,
  archive_changed, signature_failed, length_overflow,
}
use rgx.Text.{
  newline, carriage_return, space, split_lf, strip_last, contains_char, strip_label, trim,
  parse_unsigned,
}
use rgx.Text.Hex.{hex_encode, hex_decode}
use rgx.Text.Decimal.{decimal}
use rgx.Text.Lines.{unlines}
use rgx.Recipient.{Crypto, RgxPrivateKey, RgxPublicKey, key_id, public_key_id, signing_key}
use rgx.Recipient.KeyFiles.{
  labelled, format_key_id, number_or_error, load_public_key, load_signing_public_key,
}

abbrev pub signature_header : Bytes
signature_header = ascii "RGX-SIGNATURE-1"

abbrev pub signature_context : Bytes
signature_context = ascii "RGX-ARCHIVE-SIGNATURE-1"

pub record SignatureInfo : Type 0 where
  pub key_id : Bytes
  pub archive_len : ℕ
  pub archive_hash : Bytes

pub record SignatureRecord : Type 0 where
  pub key_id : Bytes
  pub archive_len : ℕ
  pub archive_hash : Bytes
  pub signature : Bytes

unfoldable pub default_signature_path : Bytes → Bytes
default_signature_path archive = archive ++ ascii ".sig"

unfoldable pub format_hash : Bytes → Bytes
format_hash hash = hex_encode hash

unfoldable pub signature_message : ℕ → Bytes → Bytes
signature_message archive_len archive_hash =
    signature_context ++ (le_bytes 8 archive_len ++ archive_hash)

-- The `format!` of `sign_archive`.
unfoldable pub signature_lines : SignatureRecord → List Bytes
signature_lines r =
    signature_header
    ∷ (labelled (ascii "Algorithm:") (ascii "Ed25519")
        ∷ (labelled (ascii "Key-ID:") (format_key_id r.key_id)
            ∷ (labelled (ascii "Archive-Length:") (decimal r.archive_len)
                ∷ (labelled (ascii "Archive-BLAKE3:") (hex_encode r.archive_hash)
                    ∷ (labelled (ascii "Signature:") (hex_encode r.signature) ∷ [])))))

unfoldable pub strip_space : Bytes → Result Bytes
strip_space [] = err noncanonical_field
strip_space (b ∷ bs) = if b == space then ok bs else err noncanonical_field

unfoldable pub exact_value : Bytes → Result Bytes
exact_value value =
    bail_if (length value == 0 || not (bytes_eq (trim value) value)) field_whitespace ⟫= λ _.
    ok value

unfoldable pub after_label : Bytes → Bytes → Result Bytes
after_label line label = elim (strip_label label line) [
  | none ↦ err missing_signature_field
  | some value ↦ ok value
]

unfoldable pub exact_field : Bytes → Bytes → Result Bytes
exact_field line label =
    after_label line label ⟫= λ value. strip_space value ⟫= λ value'. exact_value value'

-- The fields of six lines.
unfoldable pub parse_fields : Bytes → Bytes → Bytes → Bytes → Bytes → Bytes → Result SignatureRecord
parse_fields header line1 line2 line3 line4 line5 =
    bail_if (not (bytes_eq header signature_header)) unsupported_signature ⟫= λ _.
    exact_field line1 (ascii "Algorithm:") ⟫= λ algorithm.
    bail_if (not (bytes_eq algorithm (ascii "Ed25519"))) unsupported_algorithm ⟫= λ _.
    exact_field line2 (ascii "Key-ID:") ⟫= λ f2. hex_decode 16 f2 ⟫= λ key_id.
    exact_field line3 (ascii "Archive-Length:") ⟫= λ f3.
    number_or_error (parse_unsigned (2 ^ 64) f3) ⟫= λ archive_len.
    exact_field line4 (ascii "Archive-BLAKE3:") ⟫= λ f4. hex_decode 32 f4 ⟫= λ archive_hash.
    exact_field line5 (ascii "Signature:") ⟫= λ f5. hex_decode 64 f5 ⟫= λ signature. ok (record {
      key_id = key_id;
      archive_len = archive_len;
      archive_hash = archive_hash;
      signature = signature;
    })

unfoldable pub parse_lines : List Bytes → Result SignatureRecord
parse_lines (l0 ∷ (l1 ∷ (l2 ∷ (l3 ∷ (l4 ∷ (l5 ∷ [])))))) = parse_fields l0 l1 l2 l3 l4 l5
parse_lines _ = err wrong_signature_lines

unfoldable pub parse_signature : Bytes → Result SignatureRecord
parse_signature text =
    let body = strip_last newline text in
    bail_if (contains_char carriage_return body) noncanonical_signature ⟫= λ _.
    parse_lines (split_lf body)

module _ (c : Crypto) where
  -- The digest of what the reads of the loop return is that of the whole file.
  unfoldable pub hash_archive : Bytes → Result (ℕ × Bytes)
  hash_archive file =
      if ltb (length file) (2 ^ 64) then ok (length file, c.hash file) else err length_overflow

  -- The text of the output file, and the information returned.
  unfoldable pub sign_archive : Bytes → RgxPrivateKey → Bool → Result (Bytes × SignatureInfo)
  sign_archive archive private_key output_exists = bail_if output_exists signature_exists ⟫= λ _.
      hash_archive archive ⟫= λ (hashed : ℕ × Bytes).
      let id = key_id c private_key in
      let message = signature_message hashed.0 hashed.1 in
      let signature = c.sign (signing_key c private_key) message in
      ok (
        unlines (
            signature_lines (record {
              key_id = id;
              archive_len = hashed.0;
              archive_hash = hashed.1;
              signature = signature;
            })),
        record { key_id = id; archive_len = hashed.0; archive_hash = hashed.1 },
      )

  unfoldable pub verify_archive_signature : Bytes → Bytes → Bytes → Result SignatureInfo
  verify_archive_signature archive signature_text public_key_text =
      parse_signature signature_text ⟫= λ r.
      load_public_key c public_key_text ⟫= λ recipient_public.
      bail_if (not (bytes_eq (public_key_id c recipient_public) r.key_id)) signature_key_mismatch
      ⟫= λ _. load_signing_public_key c public_key_text ⟫= λ signing_public.
          hash_archive archive ⟫= λ (hashed : ℕ × Bytes).
          bail_if (not (hashed.0 == r.archive_len) || not (bytes_eq hashed.1 r.archive_hash))
            archive_changed
          ⟫= λ _.
              bail_if
                (not (c.verify signing_public (signature_message hashed.0 hashed.1) r.signature))
                signature_failed
              ⟫= λ _.
                  ok (record { key_id = r.key_id; archive_len = hashed.0; archive_hash = hashed.1 })
