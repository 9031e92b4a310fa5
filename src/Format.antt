-- ===== src/Format.antt =====
-- src/format.rs: the records of an RGX v0.2 archive, with their writers and readers.

-- A writer is the list of the bytes that it writes; errors of the device are not modelled.
pub mod RoundTrip
use rgx.Common.{
  ℕ, ◌+◌, ◌≤◌, ◌<◌, ◌^◌, ◌≡◌, List, [], ◌∷◌, ◌++◌, Option, none, some, ◌||◌, not, Bytes, le_bytes,
  bytes_eq, ◌==◌, Parser, pure, lift, ◌>>=◌, ◌>>◌, read_exact, read_le, Result, ok, err, bail_if,
  not_rgx, unsupported_version, unexpected_eof, replicate, length, ltb, if◌then◌else◌,
}

-- b"RGX\0", b"CHNK", b"FILE", b"DIRE" and b"RGXF"
abbrev pub magic : Bytes
magic = b'R' ∷ b'G' ∷ b'X' ∷ 0 ∷ []

abbrev pub chunk_magic : Bytes
chunk_magic = b'C' ∷ b'H' ∷ b'N' ∷ b'K' ∷ []

abbrev pub file_magic : Bytes
file_magic = b'F' ∷ b'I' ∷ b'L' ∷ b'E' ∷ []

abbrev pub directory_magic : Bytes
directory_magic = b'D' ∷ b'I' ∷ b'R' ∷ b'E' ∷ []

abbrev pub footer_magic : Bytes
footer_magic = b'R' ∷ b'G' ∷ b'X' ∷ b'F' ∷ []

abbrev pub version_major : ℕ
version_major = 0

abbrev pub version_minor : ℕ
version_minor = 2

abbrev pub kind_directory : ℕ
kind_directory = 0

abbrev pub kind_file : ℕ
kind_file = 1

abbrev pub compression_store : ℕ
compression_store = 0

abbrev pub compression_zstd : ℕ
compression_zstd = 1

pub record Header : Type 0 where
  pub flags : ℕ

pub record ChunkHeader : Type 0 where
  pub compression : ℕ
  pub original_size : ℕ
  pub payload_size : ℕ
  pub hash : Bytes

pub record FileHeader : Type 0 where
  pub path_len : ℕ
  pub chunk_count : ℕ
  pub original_size : ℕ
  pub hash : Bytes

pub record DirectoryHeader : Type 0 where
  pub path_len : ℕ

pub record Footer : Type 0 where
  pub entries : ℕ
  pub files : ℕ
  pub directories : ℕ
  pub unique_chunks : ℕ
  pub chunk_references : ℕ
  pub original_bytes : ℕ
  pub stored_payload_bytes : ℕ
  pub deduplicated_bytes : ℕ

unfoldable pub write_header : Header → Bytes
write_header header =
    magic
    ++ (le_bytes 2 version_major
        ++ (le_bytes 2 version_minor ++ (le_bytes 4 header.flags ++ le_bytes 4 0)))

unfoldable pub read_header : Parser Header
read_header = do
  found ← read_exact 4
  lift (bail_if (not (bytes_eq found magic)) not_rgx)
  major ← read_le 2
  minor ← read_le 2
  lift (bail_if (not (major == version_major) || not (minor == version_minor)) unsupported_version)
  flags ← read_le 4
  reserved ← read_le 4
  pure (record { flags = flags })

unfoldable pub write_chunk_header : ChunkHeader → Bytes
write_chunk_header chunk =
    chunk_magic
    ++ ((chunk.compression ∷ [])
        ++ (replicate 3 0
            ++ (le_bytes 8 chunk.original_size ++ (le_bytes 8 chunk.payload_size ++ chunk.hash))))

-- `compression[0]`, of a buffer of one byte.
abbrev pub first_byte : Bytes → ℕ
first_byte [] = 0
first_byte (b ∷ bs) = b

unfoldable pub read_chunk_header_after_magic : Parser ChunkHeader
read_chunk_header_after_magic = do
  compression ← read_exact 1
  reserved ← read_exact 3
  original_size ← read_le 8
  payload_size ← read_le 8
  hash ← read_exact 32
  pure (record {
    compression = first_byte compression;
    original_size = original_size;
    payload_size = payload_size;
    hash = hash;
  })

unfoldable pub write_file_header : FileHeader → Bytes
write_file_header file =
    file_magic
    ++ (le_bytes 4 file.path_len
        ++ (le_bytes 4 file.chunk_count ++ (le_bytes 8 file.original_size ++ file.hash)))

unfoldable pub read_file_header_after_magic : Parser FileHeader
read_file_header_after_magic = do
  path_len ← read_le 4
  chunk_count ← read_le 4
  original_size ← read_le 8
  hash ← read_exact 32
  pure (record {
    path_len = path_len;
    chunk_count = chunk_count;
    original_size = original_size;
    hash = hash;
  })

unfoldable pub write_directory_header : DirectoryHeader → Bytes
write_directory_header directory =
    directory_magic ++ (le_bytes 4 directory.path_len ++ le_bytes 4 0)

unfoldable pub read_directory_header_after_magic : Parser DirectoryHeader
read_directory_header_after_magic = do
  path_len ← read_le 4
  reserved ← read_le 4
  pure (record { path_len = path_len })

unfoldable pub write_footer : Footer → Bytes
write_footer footer =
    footer_magic
    ++ (le_bytes 8 footer.entries
        ++ (le_bytes 8 footer.files
            ++ (le_bytes 8 footer.directories
                ++ (le_bytes 8 footer.unique_chunks
                    ++ (le_bytes 8 footer.chunk_references
                        ++ (le_bytes 8 footer.original_bytes
                            ++ (le_bytes 8 footer.stored_payload_bytes
                                ++ le_bytes 8 footer.deduplicated_bytes)))))))

unfoldable pub read_footer_after_magic : Parser Footer
read_footer_after_magic = do
  entries ← read_le 8
  files ← read_le 8
  directories ← read_le 8
  unique_chunks ← read_le 8
  chunk_references ← read_le 8
  original_bytes ← read_le 8
  stored_payload_bytes ← read_le 8
  deduplicated_bytes ← read_le 8
  pure (record {
    entries = entries;
    files = files;
    directories = directories;
    unique_chunks = unique_chunks;
    chunk_references = chunk_references;
    original_bytes = original_bytes;
    stored_payload_bytes = stored_payload_bytes;
    deduplicated_bytes = deduplicated_bytes;
  })

-- The end of the archive, or a tag cut short, is `none`; `read_exact` has no other error.
unfoldable pub read_tag : Parser (Option Bytes)
read_tag s = elim (read_exact 4 s) [ ok (tag, s') ↦ ok (some tag, s') | err e ↦ ok (none, s) ]

-- The ranges that the fields of the Rust structs have by their types.
pub record IsHeader (h : Header) : Type 0 where
  pub flags : h.flags < 256 ^ 4

pub record IsChunkHeader (h : ChunkHeader) : Type 0 where
  pub compression : h.compression < 256
  pub original_size : h.original_size < 256 ^ 8
  pub payload_size : h.payload_size < 256 ^ 8
  pub hash : length h.hash ≡ 32

pub record IsFileHeader (h : FileHeader) : Type 0 where
  pub path_len : h.path_len < 256 ^ 4
  pub chunk_count : h.chunk_count < 256 ^ 4
  pub original_size : h.original_size < 256 ^ 8
  pub hash : length h.hash ≡ 32

pub record IsFooter (f : Footer) : Type 0 where
  pub entries : f.entries < 256 ^ 8
  pub files : f.files < 256 ^ 8
  pub directories : f.directories < 256 ^ 8
  pub unique_chunks : f.unique_chunks < 256 ^ 8
  pub chunk_references : f.chunk_references < 256 ^ 8
  pub original_bytes : f.original_bytes < 256 ^ 8
  pub stored_payload_bytes : f.stored_payload_bytes < 256 ^ 8
  pub deduplicated_bytes : f.deduplicated_bytes < 256 ^ 8

pub record IsDirectoryHeader (h : DirectoryHeader) : Type 0 where
  pub path_len : h.path_len < 256 ^ 4
