-- ===== src/Keyed/RoundTrip.antt =====
-- The stream header of src/keyed_stream.rs is decoded to what was encoded.
use rgx.Common.{
  ◌≡◌, refl, ok, arith, ◌++◌, leb→le, le_bytes, from_le_bytes, bytes_eq, take-append_eq,
  drop-append_ge, replicate, from_le_bytes-le_bytes,
}
use rgx.Keyed.{StreamHeader, IsStreamHeader, encode_header, decode_header}

-- `decode_header` returns the header that `encode_header` was given, if its frame size is in the
-- accepted range and its arrays have their lengths.
pub decode_header-encode_header :
    (h : StreamHeader) → IsStreamHeader h → decode_header (encode_header h) ≡ ok h
unfolding decode_header encode_header le_bytes bytes_eq
decode_header-encode_header h v =
    rw
      (
        drop-append_ge 16 h.nonce_prefix (h.envelope_hash ++ replicate 4 0)
            (omega (arith, v.nonce_prefix)),
        drop-append_ge 48 h.nonce_prefix (h.envelope_hash ++ replicate 4 0)
            (omega (arith, v.nonce_prefix)),
        v.nonce_prefix,
        drop-append_ge 32 h.envelope_hash (replicate 4 0) (omega (arith, v.envelope_hash)),
        v.envelope_hash,
        take-append_eq 16 h.nonce_prefix _ v.nonce_prefix,
        take-append_eq 32 h.envelope_hash _ v.envelope_hash,
      )
      (rw
        (
          from_le_bytes-le_bytes 4 h.frame_size (omega (arith, leb→le _ _ v.at_most)),
          v.at_least,
          v.at_most,
        )
        (unfold from_le_bytes in refl))
