-- ===== src/Keyed.antt =====
-- src/keyed_stream.rs: the stream header, and the writer and reader over it. Frames are those of
-- the module `Frames`.
pub mod RoundTrip
pub mod Stream
use rgx.Common.{
  ℕ, ◌+◌, ◌-◌, ◌*◌, ◌≡◌, List, [], ◌∷◌, ◌++◌, not, ◌&&◌, ◌||◌, Bytes, bytes_eq, le_bytes,
  from_le_bytes, true, length, replicate, ltb, leb, ◌==◌, if◌then◌else◌, Result, ok, err, bail_if,
  ◌⟫=◌, bad_stream_magic, bad_stream_version, bad_stream_flags, bad_frame_size, envelope_mismatch,
  offset_overflow, invalid_seek,
}
use rgx.Frames.Headers.{slice}
use rgx.Frames.Writer.{StreamKey, FrameWriter, start_writer}
use rgx.Frames.Reader.{FrameReader, read_at, checked_u64, open_frames}

abbrev pub keyed_magic : Bytes
keyed_magic = b'R' ∷ b'G' ∷ b'X' ∷ b'K' ∷ []

abbrev pub version : ℕ
version = 1

abbrev pub header_size : ℕ
header_size = 64

abbrev pub frame_magic : Bytes
frame_magic = b'K' ∷ b'F' ∷ b'R' ∷ b'M' ∷ []

abbrev pub default_frame_size : ℕ
default_frame_size = 1024 * 1024

abbrev pub min_frame_size : ℕ
min_frame_size = 64 * 1024

abbrev pub max_frame_size : ℕ
max_frame_size = 4 * 1024 * 1024

pub record StreamHeader : Type 0 where
  pub frame_size : ℕ
  pub nonce_prefix : Bytes
  pub envelope_hash : Bytes

unfoldable pub encode_header : StreamHeader → Bytes
encode_header header =
    keyed_magic
    ++ (le_bytes 2 version
        ++ (replicate 2 0
            ++ (le_bytes 4 header.frame_size
                ++ (header.nonce_prefix ++ (header.envelope_hash ++ replicate 4 0)))))

unfoldable pub decode_header : Bytes → Result StreamHeader
decode_header bytes =
    bail_if (not (bytes_eq (slice 0 4 bytes) keyed_magic)) bad_stream_magic ⟫= λ _.
    bail_if (not (from_le_bytes (slice 4 6 bytes) == version)) bad_stream_version ⟫= λ _.
    bail_if
      (not (bytes_eq (slice 6 8 bytes) (replicate 2 0))
        || not (bytes_eq (slice 60 64 bytes) (replicate 4 0)))
      bad_stream_flags
    ⟫= λ _.
        let frame_size = from_le_bytes (slice 8 12 bytes) in
        bail_if (not (leb min_frame_size frame_size && leb frame_size max_frame_size))
          bad_frame_size
        ⟫= λ _. ok (record {
          frame_size = frame_size;
          nonce_prefix = slice 12 28 bytes;
          envelope_hash = slice 28 60 bytes;
        })

unfoldable pub stream_key : Bytes → Bytes → StreamHeader → StreamKey
stream_key archive_key header_bytes header = record {
  frame_magic = frame_magic;
  key = archive_key;
  header_bytes = header_bytes;
  frame_size = header.frame_size;
  nonce_prefix = header.nonce_prefix;
}

-- `KeyedWriter::new`, with the random nonce prefix as an argument.
unfoldable pub new_header : Bytes → Bytes → StreamHeader
new_header nonce_prefix envelope_hash = record {
  frame_size = default_frame_size;
  nonce_prefix = nonce_prefix;
  envelope_hash = envelope_hash;
}

unfoldable pub new_key : Bytes → Bytes → Bytes → StreamKey
new_key archive_key nonce_prefix envelope_hash =
    let header = new_header nonce_prefix envelope_hash in
    stream_key archive_key (encode_header header) header

-- `KeyedReader::open`, with the file's bytes: the key of the stream, and the reader.
unfoldable pub open_stream : ℕ → Bytes → Bytes → Bytes → Result (StreamKey × FrameReader)
open_stream stream_offset archive_key expected_envelope_hash file =
    read_at stream_offset header_size file ⟫= λ header_bytes.
    decode_header header_bytes ⟫= λ header.
    bail_if (not (bytes_eq header.envelope_hash expected_envelope_hash)) envelope_mismatch ⟫= λ _.
    checked_u64 (stream_offset + header_size) ⟫= λ frames_start.
    let k = stream_key archive_key header_bytes header in
    open_frames k frames_start file ⟫= λ reader. ok (k, reader)

-- `SeekFrom`; the offset of `Current` and `End` is an `i64`, forward or back by a number.
pub data SeekFrom : Type 0 where
  start : ℕ → SeekFrom
  forward back : ℕ → SeekFrom
  end_forward end_back : ℕ → SeekFrom

-- A position below 0 is an error.
unfoldable pub seek_target : FrameReader → SeekFrom → Result ℕ
seek_target r (start n) = ok n
seek_target r (forward n) = ok (r.position + n)
seek_target r (back n) = if leb n r.position then ok (r.position - n) else err invalid_seek
seek_target r (end_forward n) = ok (r.plaintext_len + n)
seek_target r (end_back n) =
    if leb n r.plaintext_len then ok (r.plaintext_len - n) else err invalid_seek

unfoldable pub seek : FrameReader → SeekFrom → Result FrameReader
seek r from = seek_target r from ⟫= λ next.
    if ltb r.plaintext_len next then err invalid_seek else ok (record r { position = next })

pub record IsStreamHeader (h : StreamHeader) : Type 0 where
  pub at_least : leb min_frame_size h.frame_size ≡ true
  pub at_most : leb h.frame_size max_frame_size ≡ true
  pub nonce_prefix : length h.nonce_prefix ≡ 16
  pub envelope_hash : length h.envelope_hash ≡ 32
