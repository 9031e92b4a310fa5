-- ===== src/Signature/RoundTrip.antt =====
-- The text of a signature file of src/signature.rs is parsed to the fields that were formatted.
use rgx.Common.{
  ℕ, suc, ◌^◌, ◌≡◌, ◌<◌, ◌≤◌, refl, ◌∙◌, ◌∷◌, ◌++◌, drop, false, Bytes, bytes_eq, bytes_eq_refl,
  IsByte, All, length, ◌==◌, arith, ok, ascii,
}
use rgx.Text.{space}
use rgx.Text.Hex.{hex_encode, hex_decode}
use rgx.Text.Hex.RoundTrip.{
  IsVisible, hex_encode-IsVisible, length-hex_encode, hex_decode-hex_encode,
}
use rgx.Text.Decimal.{decimal, parse_unsigned-decimal, decimal-IsVisible, decimal_head}
use rgx.Text.Lines.{IsPrintable, unlines, trim_visible, IsVisible-IsPrintable}
use rgx.Text.Joined.{strip_last-unlines, split_lf-join, contains_char-join}
use rgx.Recipient.KeyFiles.{labelled, format_key_id, number_or_error}
use rgx.Recipient.KeyFiles.Fields.{
  is_visible_text-IsVisible, labelled-IsPrintable, strip_label-append,
}
use rgx.Signature.{
  SignatureRecord, signature_header, signature_lines, strip_space, exact_value, after_label,
  exact_field, parse_fields, parse_lines, parse_signature,
}

pub record IsSignatureRecord (r : SignatureRecord) : Type 0 where
  pub key_id : (length r.key_id ≡ 16) × All IsByte r.key_id
  pub archive_len : r.archive_len < 2 ^ 64
  pub archive_hash : (length r.archive_hash ≡ 32) × All IsByte r.archive_hash
  pub signature : (length r.signature ≡ 64) × All IsByte r.signature

after_label-append : (label rest : Bytes) → after_label (label ++ rest) label ≡ ok rest
unfolding after_label
after_label-append label rest = rw (strip_label-append label rest, after_label) refl

exact_field-labelled :
    (label value : Bytes)
    → All IsVisible value
    → 1 ≤ length value
    → exact_field (labelled label value) label ≡ ok value
unfolding exact_field strip_space exact_value
exact_field-labelled label value v n =
    let full : (length value == 0) ≡ false = ground arith in
    rw (after_label-append label (space ∷ value), trim_visible value v, bytes_eq_refl value, full)
      refl

module _ (r : SignatureRecord) (v : IsSignatureRecord r) where
  signature_lines-IsPrintable : All (All IsPrintable) (signature_lines r)
  unfolding signature_lines format_key_id
  signature_lines-IsPrintable = (
    IsVisible-IsPrintable signature_header (is_visible_text-IsVisible signature_header refl),
    (
      labelled-IsPrintable (ascii "Algorithm:") (ascii "Ed25519") refl
          (is_visible_text-IsVisible (ascii "Ed25519") refl),
      (
        labelled-IsPrintable (ascii "Key-ID:") _ refl (hex_encode-IsVisible r.key_id v.key_id.1),
        (
          labelled-IsPrintable (ascii "Archive-Length:") _ refl (decimal-IsVisible r.archive_len),
          (
            labelled-IsPrintable (ascii "Archive-BLAKE3:") _ refl
                (hex_encode-IsVisible r.archive_hash v.archive_hash.1),
            (
              labelled-IsPrintable (ascii "Signature:") _ refl
                  (hex_encode-IsVisible r.signature v.signature.1),
              tt,
            ),
          ),
        ),
      ),
    ),
  )

  parse_signature-lines :
      parse_signature (unlines (signature_lines r)) ≡ parse_lines (signature_lines r)
  unfolding parse_signature signature_lines
  parse_signature-lines =
      let line = signature_header in
      let rest = drop 1 (signature_lines r) in
      rw
        (
          strip_last-unlines line rest,
          contains_char-join line rest signature_lines-IsPrintable,
          split_lf-join line rest signature_lines-IsPrintable,
        )
        refl

  hex_field :
      (label bytes : Bytes) (n : ℕ)
      → length bytes ≡ suc n
      → All IsByte bytes
      → (exact_field (labelled label (hex_encode bytes)) label ≡ ok (hex_encode bytes))
        × (hex_decode (suc n) (hex_encode bytes) ≡ ok bytes)
  hex_field label bytes n len h = (
    exact_field-labelled label (hex_encode bytes) (hex_encode-IsVisible bytes h)
        (omega (arith, length-hex_encode bytes)),
    hex_decode-hex_encode (suc n) bytes h len,
  )

  decimal_field :
      exact_field
        (labelled (ascii "Archive-Length:") (decimal r.archive_len))
        (ascii "Archive-Length:")
      ≡ ok (decimal r.archive_len)
  decimal_field =
      let (b, bs, e, digit) = decimal_head r.archive_len in
      exact_field-labelled (ascii "Archive-Length:") _ (decimal-IsVisible r.archive_len)
        (rw e (omega arith))

  -- The text that `sign_archive` formats is parsed to the same fields, if their arrays have their
  -- lengths and the archive's length fits a `u64`.
  pub parse_signature-signature_lines : parse_signature (unlines (signature_lines r)) ≡ ok r
  unfolding signature_lines parse_lines parse_fields format_key_id number_or_error bytes_eq
  parse_signature-signature_lines =
      let (k1, k2) = hex_field (ascii "Key-ID:") r.key_id 15 v.key_id.0 v.key_id.1 in
      let (a1, a2) =
        hex_field (ascii "Archive-BLAKE3:") r.archive_hash 31 v.archive_hash.0 v.archive_hash.1 in
      let (s1, s2) = hex_field (ascii "Signature:") r.signature 63 v.signature.0 v.signature.1 in
      parse_signature-lines
      ∙ rw
          (
            exact_field-labelled (ascii "Algorithm:") (ascii "Ed25519")
                (is_visible_text-IsVisible (ascii "Ed25519") refl) (omega arith),
            k1,
            k2,
            decimal_field,
            parse_unsigned-decimal (2 ^ 64) r.archive_len v.archive_len
                (omega (arith, v.archive_len)),
            a1,
            a2,
            s1,
            s2,
          )
          refl
