-- ===== src/Frames/Headers/RoundTrip.antt =====
-- Frame headers are decoded to what was encoded.
use rgx.Common.{
  ℕ, ◌<◌, ◌^◌, ◌≡◌, ok, arith, length, [], ◌∷◌, Bytes, le_bytes, from_le_bytes, bytes_eq,
  bytes_eq_refl, from_le_bytes-le_bytes,
}
use rgx.Frames.Headers.{
  FrameHeader, IsFrameHeader, encode_frame_header, decode_frame_header, check_frame_header,
}

decode_encoded :
    (a b c d frame_size : ℕ) (frame : FrameHeader)
    → frame_size < 2 ^ 31
    → IsFrameHeader frame_size frame
    → decode_frame_header
        (a ∷ b ∷ c ∷ d ∷ [])
        frame_size
        (encode_frame_header (a ∷ b ∷ c ∷ d ∷ []) frame)
      ≡ ok frame
unfolding decode_frame_header encode_frame_header le_bytes check_frame_header
decode_encoded a b c d frame_size frame small v =
    rw
      (
        from_le_bytes-le_bytes 8 frame.sequence v.sequence,
        from_le_bytes-le_bytes 4 frame.plaintext_len (omega (arith, v.plaintext_len)),
        from_le_bytes-le_bytes 4 frame.ciphertext_len
            (omega (arith, v.plaintext_len, v.ciphertext_len)),
        bytes_eq_refl (a ∷ b ∷ c ∷ d ∷ []),
      )
      (unfold from_le_bytes bytes_eq in ground arith)

-- `decode_frame_header` returns the frame header that was encoded under the same marker, if it is
-- one that the writer makes: not longer than a frame, full unless it is the last, and with 16 bytes
-- of tag.
pub decode_frame_header-encode_frame_header :
    (magic : Bytes) (frame_size : ℕ) (frame : FrameHeader)
    → length magic ≡ 4
    → frame_size < 2 ^ 31
    → IsFrameHeader frame_size frame
    → decode_frame_header magic frame_size (encode_frame_header magic frame) ≡ ok frame
decode_frame_header-encode_frame_header (a ∷ b ∷ c ∷ d ∷ []) n frame h small v =
    decode_encoded a b c d n frame small v
decode_frame_header-encode_frame_header _ n frame h small v = absurd (omega arith)
