-- ===== src/Frames/Headers.antt =====
-- The frame headers of src/keyed_stream.rs, with the marker as a parameter, and the nonce and the
-- associated data of a frame.
pub mod RoundTrip
use rgx.Common.{
  ℕ, ◌+◌, ◌-◌, ◌<◌, ◌^◌, ◌≡◌, [], ◌∷◌, ◌++◌, Bool, true, false, not, ◌&&◌, ◌||◌, Bytes, bytes_eq,
  le_bytes, from_le_bytes, take, drop, replicate, ltb, ◌==◌, Result, ok, bail_if, ◌⟫=◌,
  bad_frame_magic, bad_frame_flags, frame_too_large, frame_not_full, bad_ciphertext_len,
}
use rgx.Frames.{tag_size}

pub record FrameHeader : Type 0 where
  pub sequence : ℕ
  pub plaintext_len : ℕ
  pub ciphertext_len : ℕ
  pub last : Bool

-- `bytes[from..to]`
abbrev pub slice : ℕ → ℕ → Bytes → Bytes
slice from to bytes = take (to - from) (drop from bytes)

-- `u8::from(last)`
abbrev pub flag_byte : Bool → ℕ
flag_byte true = 1
flag_byte false = 0

unfoldable pub encode_frame_header : Bytes → FrameHeader → Bytes
encode_frame_header magic frame =
    magic
    ++ ((flag_byte frame.last ∷ [])
        ++ (replicate 3 0
            ++ (le_bytes 8 frame.sequence
                ++ (le_bytes 4 frame.plaintext_len ++ le_bytes 4 frame.ciphertext_len))))

unfoldable pub check_frame_header : ℕ → FrameHeader → Result FrameHeader
check_frame_header frame_size frame =
    bail_if (ltb frame_size frame.plaintext_len) frame_too_large ⟫= λ _.
    bail_if (not frame.last && not (frame.plaintext_len == frame_size)) frame_not_full ⟫= λ _.
    bail_if (not (frame.ciphertext_len == frame.plaintext_len + tag_size)) bad_ciphertext_len
    ⟫= λ _. ok frame

-- `bytes` is an array of 24; the one byte of the flags is read as a number.
unfoldable pub decode_frame_header : Bytes → ℕ → Bytes → Result FrameHeader
decode_frame_header magic frame_size bytes =
    bail_if (not (bytes_eq (slice 0 4 bytes) magic)) bad_frame_magic ⟫= λ _.
    bail_if
      (ltb 1 (from_le_bytes (slice 4 5 bytes)) || not (bytes_eq (slice 5 8 bytes) (replicate 3 0)))
      bad_frame_flags
    ⟫= λ _. check_frame_header frame_size (record {
      sequence = from_le_bytes (slice 8 16 bytes);
      plaintext_len = from_le_bytes (slice 16 20 bytes);
      ciphertext_len = from_le_bytes (slice 20 24 bytes);
      last = from_le_bytes (slice 4 5 bytes) == 1;
    })

unfoldable pub frame_nonce : Bytes → ℕ → Bytes
frame_nonce prefix sequence = prefix ++ le_bytes 8 sequence

unfoldable pub frame_aad : Bytes → Bytes → Bytes
frame_aad header frame_header = header ++ frame_header

-- What the writer puts into a header, and the reader accepts under this frame size.
pub record IsFrameHeader (frame_size : ℕ) (frame : FrameHeader) : Type 0 where
  pub sequence : frame.sequence < 256 ^ 8
  pub plaintext_len : frame.plaintext_len < frame_size + 1
  pub full : not frame.last && not (frame.plaintext_len == frame_size) ≡ false
  pub ciphertext_len : frame.ciphertext_len ≡ frame.plaintext_len + tag_size
