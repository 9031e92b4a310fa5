-- ===== src/Private/RoundTrip.antt =====
-- The header of src/private.rs is decoded to what was encoded, for both minor versions.
use rgx.Common.{
  ℕ, ◌≡◌, ◌⊎◌, ok, arith, le_bytes, from_le_bytes, bytes_eq, take_all, take-append_eq,
  drop-append_ge, from_le_bytes-le_bytes, ◌<◌, ◌^◌,
}
use rgx.Private.{
  EncryptionHeader, IsEncryptionHeader, encode_header_with_minor, decode_header,
  check_header_fields, validate_kdf_parameters, header_fields,
}

-- The ranges that `validate_kdf_parameters` lets through fit four bytes.
kdf_ranges :
    (memory_kib iterations lanes frame_size : ℕ)
    → validate_kdf_parameters memory_kib iterations lanes frame_size ≡ ok tt
    → (memory_kib < 256 ^ 4) × (iterations < 256 ^ 4) × (lanes < 256 ^ 4) × (frame_size < 256 ^ 4)
unfolding validate_kdf_parameters
kdf_ranges m i l f h = ground arith

header_fields-encode :
    (h : EncryptionHeader) (minor : ℕ)
    → IsEncryptionHeader h
    → header_fields (encode_header_with_minor h minor) ≡ h
unfolding header_fields encode_header_with_minor le_bytes
header_fields-encode h minor v =
    let (m, i, l, f) = kdf_ranges h.memory_kib h.iterations h.lanes h.frame_size v.valid in
    rw (
      drop-append_ge 16 h.salt h.nonce_prefix (omega (arith, v.salt)),
      v.salt,
      take-append_eq 16 h.salt h.nonce_prefix v.salt,
      take_all 16 h.nonce_prefix v.nonce_prefix,
      from_le_bytes-le_bytes 4 h.memory_kib m,
      from_le_bytes-le_bytes 4 h.iterations i,
      from_le_bytes-le_bytes 4 h.lanes l,
      from_le_bytes-le_bytes 4 h.frame_size f,
    )

-- `decode_header` returns the header that `encode_header_with_minor` was given, for the versions
-- 0.3 and 0.4, if its parameters are in the accepted ranges and its arrays have their lengths.
pub decode_header-encode_header_with_minor :
    (h : EncryptionHeader) (minor : ℕ)
    → IsEncryptionHeader h
    → (minor ≡ 3) ⊎ (minor ≡ 4)
    → decode_header (encode_header_with_minor h minor) ≡ ok h
unfolding decode_header check_header_fields
decode_header-encode_header_with_minor h minor v m =
    rw (header_fields-encode h minor v, v.valid)
      (unfold encode_header_with_minor le_bytes from_le_bytes bytes_eq in ground arith)
