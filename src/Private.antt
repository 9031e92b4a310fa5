-- ===== src/Private.antt =====
-- src/private.rs: the header of a password-protected archive, and its writer and reader. Frames are
-- those of the module `Frames`, under another marker.
pub mod RoundTrip
pub mod Streams
pub mod ReadBack
use rgx.Common.{
  ℕ, ◌+◌, ◌-◌, ◌*◌, ◌^◌, ◌≡◌, List, [], ◌∷◌, ◌++◌, Option, none, some, Bool, true, false, not, ◌&&◌,
  ◌||◌, Bytes, bytes_eq, le_bytes, from_le_bytes, length, replicate, take, ltb, leb, ◌==◌,
  if◌then◌else◌, Result, ok, err, bail_if, ◌⟫=◌, bad_stream_magic, bad_stream_version,
  bad_crypto_profile, bad_stream_flags, bad_kdf_memory, bad_kdf_iterations, bad_kdf_lanes,
  bad_frame_size, empty_password, kdf_failed, invalid_seek, not_rgx, unexpected_eof, output_exists,
  output_missing,
}
use rgx.Frames.{Aead}
use rgx.Frames.Headers.{
  FrameHeader, slice, encode_frame_header, decode_frame_header, frame_nonce, frame_aad,
}
use rgx.Frames.Writer.{StreamKey, FrameWriter, seal_frame, emit, finish, write, start_writer}
use rgx.Frames.Reader.{FrameReader, read_at, open_frames, load_frame, read}
use rgx.Keyed.{SeekFrom, seek_target}
use rgx.Archive.{ArchiveInfo, ArchiveEntry, External}
use rgx.Archive.Pack.{WalkEntry, pack_to_writer}

abbrev pub encrypted_magic : Bytes
encrypted_magic = b'R' ∷ b'G' ∷ b'X' ∷ b'E' ∷ []

abbrev pub plain_magic : Bytes
plain_magic = b'R' ∷ b'G' ∷ b'X' ∷ 0 ∷ []

abbrev pub version_major : ℕ
version_major = 0

abbrev pub version_minor : ℕ
version_minor = 4

abbrev pub kdf_argon2id : ℕ
kdf_argon2id = 1

abbrev pub aead_xchacha20_poly1305 : ℕ
aead_xchacha20_poly1305 = 1

abbrev pub header_size : ℕ
header_size = 60

abbrev pub frame_magic : Bytes
frame_magic = b'F' ∷ b'R' ∷ b'A' ∷ b'M' ∷ []

pub data ArchiveKind : Type 0 where
  plain protected : ArchiveKind

pub record EncryptionHeader : Type 0 where
  pub memory_kib : ℕ
  pub iterations : ℕ
  pub lanes : ℕ
  pub frame_size : ℕ
  pub salt : Bytes
  pub nonce_prefix : Bytes

unfoldable pub detect_kind : Bytes → Result ArchiveKind
detect_kind file =
    if ltb (length file) 4
    then err unexpected_eof
    else if bytes_eq (take 4 file) encrypted_magic
    then ok protected
    else if bytes_eq (take 4 file) plain_magic
    then ok plain
    else err not_rgx

unfoldable pub encode_header_with_minor : EncryptionHeader → ℕ → Bytes
encode_header_with_minor header minor =
    encrypted_magic
    ++ (le_bytes 2 version_major
        ++ (le_bytes 2 minor
            ++ ((kdf_argon2id ∷ [])
                ++ ((aead_xchacha20_poly1305 ∷ [])
                    ++ (replicate 2 0
                        ++ (le_bytes 4 header.memory_kib
                            ++ (le_bytes 4 header.iterations
                                ++ (le_bytes 4 header.lanes
                                    ++ (le_bytes 4 header.frame_size
                                        ++ (header.salt ++ header.nonce_prefix))))))))))

unfoldable pub validate_kdf_parameters : ℕ → ℕ → ℕ → ℕ → Result (Unit {0})
validate_kdf_parameters memory_kib iterations lanes frame_size =
    bail_if (not (leb (8 * 1024) memory_kib && leb memory_kib (1024 * 1024))) bad_kdf_memory ⟫= λ _.
    bail_if (not (leb 1 iterations && leb iterations 10)) bad_kdf_iterations ⟫= λ _.
    bail_if (not (leb 1 lanes && leb lanes 16)) bad_kdf_lanes ⟫= λ _.
    bail_if (not (leb (64 * 1024) frame_size && leb frame_size (4 * 1024 * 1024))) bad_frame_size

unfoldable pub header_fields : Bytes → EncryptionHeader
header_fields bytes = record {
  memory_kib = from_le_bytes (slice 12 16 bytes);
  iterations = from_le_bytes (slice 16 20 bytes);
  lanes = from_le_bytes (slice 20 24 bytes);
  frame_size = from_le_bytes (slice 24 28 bytes);
  salt = slice 28 44 bytes;
  nonce_prefix = slice 44 60 bytes;
}

unfoldable pub check_header_fields : EncryptionHeader → Result EncryptionHeader
check_header_fields h =
    validate_kdf_parameters h.memory_kib h.iterations h.lanes h.frame_size ⟫= λ _. ok h

-- `bytes` is an array of 60; a single byte is read as a number.
unfoldable pub decode_header : Bytes → Result EncryptionHeader
decode_header bytes =
    bail_if (not (bytes_eq (slice 0 4 bytes) encrypted_magic)) bad_stream_magic ⟫= λ _.
    let minor = from_le_bytes (slice 6 8 bytes) in
    bail_if
      (not (from_le_bytes (slice 4 6 bytes) == version_major)
        || not (minor == 3 || minor == version_minor))
      bad_stream_version
    ⟫= λ _.
        bail_if
          (not (from_le_bytes (slice 8 9 bytes) == kdf_argon2id)
            || not (from_le_bytes (slice 9 10 bytes) == aead_xchacha20_poly1305))
          bad_crypto_profile
        ⟫= λ _.
            bail_if
              (not (from_le_bytes (slice 10 11 bytes) == 0)
                || not (from_le_bytes (slice 11 12 bytes) == 0))
              bad_stream_flags
            ⟫= λ _. check_header_fields (header_fields bytes)

-- `derive_key`: Argon2id over the password, with the header's parameters and salt.
abbrev pub Kdf : Type 0
Kdf = Bytes → EncryptionHeader → Option Bytes

unfoldable pub derive_key : Kdf → Bytes → EncryptionHeader → Result Bytes
derive_key kdf password header = elim (kdf password header) [
  | none ↦ err kdf_failed
  | some key ↦ ok key
]

unfoldable pub validate_password : Bytes → Result (Unit {0})
validate_password [] = err empty_password
validate_password (b ∷ bs) = ok tt

unfoldable pub stream_key : Bytes → Bytes → EncryptionHeader → StreamKey
stream_key key header_bytes header = record {
  frame_magic = frame_magic;
  key = key;
  header_bytes = header_bytes;
  frame_size = header.frame_size;
  nonce_prefix = header.nonce_prefix;
}

-- `new_with_minor`, with the random salt and nonce prefix as arguments.
unfoldable pub new_header : Bytes → Bytes → EncryptionHeader
new_header salt nonce_prefix = record {
  memory_kib = 64 * 1024;
  iterations = 3;
  lanes = 1;
  frame_size = 1024 * 1024;
  salt = salt;
  nonce_prefix = nonce_prefix;
}

unfoldable pub new_with_minor : Kdf → Bytes → Bytes → Bytes → ℕ → Result StreamKey
new_with_minor kdf password salt nonce_prefix minor =
    let header = new_header salt nonce_prefix in
    derive_key kdf password header ⟫= λ key.
    ok (stream_key key (encode_header_with_minor header minor) header)

-- `pack_private`: the bytes of the file that is moved to the output, and the statistics. Whether
-- the output and its directory exist, and what `reject_output_inside_input` finds in between, are
-- arguments; the packer's output is written in one piece.
unfoldable pub pack_private :
    Aead
    → External
    → Kdf
    → Bytes
    → Bytes
    → Bool
    → Result (Unit {0})
    → Bool
    → ℕ
    → Bytes
    → Option (List WalkEntry)
    → Result (Bytes × ArchiveInfo)
pack_private aead x kdf salt nonce_prefix exists inside directory_exists level password walk =
    validate_password password ⟫= λ _. bail_if exists output_exists ⟫= λ _. inside ⟫= λ _.
    bail_if (not directory_exists) output_missing ⟫= λ _.
    new_with_minor kdf password salt nonce_prefix version_minor ⟫= λ k.
    pack_to_writer x level walk ⟫= λ (packed : Bytes × ArchiveInfo).
    write aead k (start_writer aead k) packed.0 ⟫= λ w.
    finish aead k w ⟫= λ w'. ok (w'.out, packed.1)

-- `EncryptedReader::open`
unfoldable pub open_stream : Kdf → Bytes → Bytes → Result (StreamKey × FrameReader)
open_stream kdf password file = validate_password password ⟫= λ _.
    read_at 0 header_size file ⟫= λ header_bytes. decode_header header_bytes ⟫= λ header.
    derive_key kdf password header ⟫= λ key.
    let k = stream_key key header_bytes header in
    open_frames k header_size file ⟫= λ reader. ok (k, reader)

-- Unlike the keyed reader, this one can be moved past its end.
unfoldable pub seek : FrameReader → SeekFrom → Result FrameReader
seek r from = seek_target r from ⟫= λ next.
    if leb (2 ^ 64) next then err invalid_seek else ok (record r { position = next })

pub record IsEncryptionHeader (h : EncryptionHeader) : Type 0 where
  pub valid : validate_kdf_parameters h.memory_kib h.iterations h.lanes h.frame_size ≡ ok tt
  pub salt : length h.salt ≡ 16
  pub nonce_prefix : length h.nonce_prefix ≡ 16
