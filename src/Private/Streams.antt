-- ===== src/Private/Streams.antt =====
-- The frames, writer and reader of src/private.rs: those of the module `Frames`, under the marker of
-- that file. Two sums that src/private.rs leaves unchecked, of an offset in a file, are checked there as
-- they are in src/keyed_stream.rs; they cannot overflow, as the file would be larger than a `u64`.
use rgx.Common.{ℕ, Bool, Bytes, Result}
use rgx.Frames.{Aead}
use rgx.Frames.Headers.{FrameHeader}
use rgx.Frames.Headers
use rgx.Frames.Writer.{StreamKey, FrameWriter}
use rgx.Frames.Writer
use rgx.Frames.Reader.{FrameReader}
use rgx.Frames.Reader
use rgx.Private.{EncryptionHeader, frame_magic}

abbrev encode_frame_header : FrameHeader → Bytes
encode_frame_header = rgx.Frames.Headers.encode_frame_header frame_magic

abbrev decode_frame_header : Bytes → EncryptionHeader → Result FrameHeader
decode_frame_header bytes header =
    rgx.Frames.Headers.decode_frame_header frame_magic header.frame_size bytes

abbrev frame_nonce : Bytes → ℕ → Bytes
frame_nonce = rgx.Frames.Headers.frame_nonce

abbrev frame_aad : Bytes → Bytes → Bytes
frame_aad = rgx.Frames.Headers.frame_aad

-- The key `k` is one of `stream_key` of the parent, which sets the marker.
module _ (aead : Aead) (k : StreamKey) where
  abbrev write_encrypted_frame : ℕ → Bytes → Bool → Result Bytes
  write_encrypted_frame = rgx.Frames.Writer.seal_frame aead k

  abbrev emit : Bool → FrameWriter → Result FrameWriter
  emit = rgx.Frames.Writer.emit aead k

  abbrev finish : FrameWriter → Result FrameWriter
  finish = rgx.Frames.Writer.finish aead k

  abbrev write : FrameWriter → Bytes → Result FrameWriter
  write = rgx.Frames.Writer.write aead k

  abbrev load_frame : FrameReader → ℕ → Result FrameReader
  load_frame = rgx.Frames.Reader.load_frame aead k

  abbrev read : FrameReader → ℕ → Result (Bytes × FrameReader)
  read = rgx.Frames.Reader.read aead k
