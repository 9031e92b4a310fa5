-- ===== src/Archive.antt =====
-- src/archive.rs: the types and helpers that packing, scanning and reading share.
pub mod Paths
pub mod Pack
pub mod Scan
pub mod Read
pub mod Extract
pub mod RoundTrip
use rgx.Common.{
  ℕ, ◌+◌, ◌*◌, ◌<◌, ◌^◌, ◌≡◌, List, [], ◌∷◌, Option, none, some, Bool, false, not, ◌||◌, Bytes,
  bytes_eq, length, ltb, ◌==◌, if◌then◌else◌, Result, ok, err, bail_if, ◌⟫=◌, bad_chunk_size,
  stored_size_mismatch, bad_compressed_size, unsupported_compression, add_overflow,
}
use rgx.Format.{ChunkHeader, Footer, compression_store, compression_zstd}
use rgx.Chunker.{max_chunk_size}

abbrev pub max_path_bytes : ℕ
max_path_bytes = 1024 * 1024

abbrev pub max_chunks_per_file : ℕ
max_chunks_per_file = 1_048_576

-- The packages that the archive code calls: `blake3::hash`, `zstd::bulk::compress` with the level,
-- and `zstd::bulk::decompress` with the capacity. `blake3::Hasher` is `hash` of all bytes given to
-- `update`, in order.
pub record External : Type 0 where
  pub hash : Bytes → Bytes
  pub compress : Bytes → ℕ → Option Bytes
  pub decompress : Bytes → ℕ → Option Bytes

-- What their documentation promises: digests of 32 bytes; a compressed frame is not empty, and
-- decompresses to what was compressed if the capacity is its length.
pub record IsExternal (x : External) : Type 0 where
  pub hash_length : (d : Bytes) → length (x.hash d) ≡ 32
  pub compress_nonempty : (d c : Bytes) (level : ℕ) → x.compress d level ≡ some c → 0 < length c
  pub decompress-compress :
      (d c : Bytes) (level : ℕ) → x.compress d level ≡ some c → x.decompress c (length d) ≡ some d

pub record ArchiveEntry : Type 0 where
  pub path : Bytes
  pub kind : ℕ
  pub original_size : ℕ
  pub chunks : ℕ

pub record ArchiveInfo : Type 0 where
  pub entries : ℕ
  pub files : ℕ
  pub directories : ℕ
  pub original_bytes : ℕ
  pub stored_bytes : ℕ
  pub unique_chunks : ℕ
  pub chunk_references : ℕ
  pub deduplicated_bytes : ℕ

pub record ChunkMeta : Type 0 where
  pub compression : ℕ
  pub original_size : ℕ
  pub payload_size : ℕ
  pub payload_offset : ℕ

pub record FileRecord : Type 0 where
  pub path : Bytes
  pub original_size : ℕ
  pub hash : Bytes
  pub chunk_hashes : List Bytes

-- `HashMap<[u8; 32], ChunkMeta>`
abbrev pub ChunkMap : Type 0
ChunkMap = List (Bytes × ChunkMeta)

pub record ArchiveCatalog : Type 0 where
  pub chunks : ChunkMap
  pub files : List FileRecord
  pub directories : List Bytes
  pub info : ArchiveInfo

unfoldable pub get_chunk : ChunkMap → Bytes → Option ChunkMeta
get_chunk [] hash = none
get_chunk ((key, meta) ∷ chunks) hash =
    if bytes_eq key hash then some meta else get_chunk chunks hash

-- `HashSet::contains`, and `HashSet::insert` as the set that it leaves.
unfoldable pub contains : List Bytes → Bytes → Bool
contains [] x = false
contains (y ∷ ys) x = bytes_eq y x || contains ys x

unfoldable pub insert : List Bytes → Bytes → List Bytes
insert set x = if contains set x then set else x ∷ set

abbrev pub u64_limit : ℕ
u64_limit = 256 ^ 8

unfoldable pub checked_add : ℕ → ℕ → Result ℕ
checked_add left right =
    if ltb (left + right) u64_limit then ok (left + right) else err add_overflow

unfoldable pub validate_chunk_header : ChunkHeader → Result (Unit {0})
validate_chunk_header header =
    if header.original_size == 0 || ltb max_chunk_size header.original_size
    then err bad_chunk_size
    else if header.compression == compression_store
    then bail_if (not (header.payload_size == header.original_size)) stored_size_mismatch
    else if header.compression == compression_zstd
    then bail_if (header.payload_size == 0 || not (ltb header.payload_size header.original_size))
        bad_compressed_size
    else err unsupported_compression

-- The field `version` is the constant "0.2", and is left out.
unfoldable pub info_from_footer : Footer → ArchiveInfo
info_from_footer footer = record {
  entries = footer.entries;
  files = footer.files;
  directories = footer.directories;
  original_bytes = footer.original_bytes;
  stored_bytes = footer.stored_payload_bytes;
  unique_chunks = footer.unique_chunks;
  chunk_references = footer.chunk_references;
  deduplicated_bytes = footer.deduplicated_bytes;
}
