-- ===== src/Archive/Read.antt =====
-- src/archive.rs: reading a scanned archive. The archive is given by all its bytes.
pub mod Checked
use rgx.Common.{
  ℕ, List, [], ◌∷◌, ◌++◌, none, some, Bool, true, false, not, ◌||◌, ◌&&◌, Bytes, bytes_eq, length,
  drop, ltb, ◌==◌, if◌then◌else◌, Result, ok, err, bail_if, ◌⟫=◌, stream, read_exact,
  unsupported_compression, missing_chunk, decompression_failed, chunk_size_mismatch,
  chunk_hash_mismatch, file_size_mismatch, file_hash_mismatch, entry_not_found, empty_query,
}
use rgx.Format.{compression_store, compression_zstd, kind_directory, kind_file}
use rgx.Archive.{
  External, ArchiveEntry, ArchiveInfo, ChunkMeta, ChunkMap, FileRecord, get_chunk, checked_add,
}
use rgx.Archive.Paths.{validate_archive_path}
use rgx.Archive.Scan.{scan_archive_reader}
use rgx.Text.{strip_label}

-- `reader.seek(Start(offset))` and `read_exact` of the payload.
unfoldable pub read_payload : Bytes → ChunkMeta → Result Bytes
read_payload archive meta =
    read_exact meta.payload_size (stream meta.payload_offset (drop meta.payload_offset archive))
    ⟫= λ ps. ok ps.0

-- `collect::<Result<_>>` style lookup, with the error of each caller.
unfoldable pub require_chunk : ChunkMap → Bytes → Result ChunkMeta
require_chunk chunks hash = elim (get_chunk chunks hash) [
  | none ↦ err missing_chunk
  | some m ↦ ok m
]

-- `Ord::cmp` on strings is that of their bytes.
unfoldable pub bytes_le : Bytes → Bytes → Bool
bytes_le [] ys = true
bytes_le (x ∷ xs) [] = false
bytes_le (x ∷ xs) (y ∷ ys) = ltb x y || (x == y && bytes_le xs ys)

-- `sort_by(|l, r| l.path.cmp(&r.path))`; paths are distinct, so any sort gives this list.
insert_entry : ArchiveEntry → List ArchiveEntry → List ArchiveEntry
insert_entry e [] = e ∷ []
insert_entry e (f ∷ fs) = if bytes_le e.path f.path then e ∷ (f ∷ fs) else f ∷ insert_entry e fs

sort_entries : List ArchiveEntry → List ArchiveEntry
sort_entries [] = []
sort_entries (e ∷ es) = insert_entry e (sort_entries es)

directory_entries : List Bytes → List ArchiveEntry
directory_entries [] = []
directory_entries (path ∷ paths) =
    record { path = path; kind = kind_directory; original_size = 0; chunks = 0 }
    ∷ directory_entries paths

file_entries : List FileRecord → List ArchiveEntry
file_entries [] = []
file_entries (file ∷ files) =
    record {
      path = file.path;
      kind = kind_file;
      original_size = file.original_size;
      chunks = length file.chunk_hashes;
    }
    ∷ file_entries files

-- `u32::try_from` of the number of references cannot fail: the scan allows 2 ^ 20 of them.
unfoldable pub list_reader : Bytes → Result (List ArchiveEntry)
unfolding insert_entry sort_entries directory_entries file_entries
list_reader archive = scan_archive_reader archive ⟫= λ catalog.
    ok (sort_entries (directory_entries catalog.directories ++ file_entries catalog.files))

-- `text.contains(needle)`, where the needle is not empty.
unfoldable pub contains_text : Bytes → Bytes → Bool
contains_text needle [] = false
contains_text needle (b ∷ bs) = elim (strip_label needle (b ∷ bs)) [
  | none ↦ contains_text needle bs
  | some rest ↦ true
]

unfoldable pub matching_entries : (Bytes → Bytes) → Bytes → List ArchiveEntry → List ArchiveEntry
matching_entries lower needle [] = []
matching_entries lower needle (entry ∷ entries) =
    let rest = matching_entries lower needle entries in
    if contains_text needle (lower entry.path) then entry ∷ rest else rest

-- `str::to_lowercase`, which has the tables of Unicode, is an argument.
unfoldable pub find_reader : (Bytes → Bytes) → Bytes → Bytes → Result (List ArchiveEntry)
find_reader lower query archive = bail_if (length query == 0) empty_query ⟫= λ _.
    list_reader archive ⟫= λ entries. ok (matching_entries lower (lower query) entries)

unfoldable pub info_reader : Bytes → Result ArchiveInfo
info_reader archive = scan_archive_reader archive ⟫= λ catalog. ok catalog.info

module _ (x : External) where
  unfoldable pub decode_payload : ChunkMeta → Bytes → Result Bytes
  decode_payload meta payload =
      if meta.compression == compression_store
      then ok payload
      else if meta.compression == compression_zstd
      then (elim (x.decompress payload meta.original_size) [
        | none ↦ err decompression_failed
        | some chunk ↦ ok chunk
      ])
      else err unsupported_compression

  unfoldable pub read_chunk_data : Bytes → Bytes → ChunkMeta → Result Bytes
  read_chunk_data archive expected_hash meta = read_payload archive meta ⟫= λ payload.
      decode_payload meta payload ⟫= λ chunk.
      bail_if (not (length chunk == meta.original_size)) chunk_size_mismatch ⟫= λ _.
      bail_if (not (bytes_eq (x.hash chunk) expected_hash)) chunk_hash_mismatch ⟫= λ _. ok chunk

  -- The loop over `chunk_hashes` of `read_entry_reader`, with the bytes so far.
  unfoldable pub read_chunks : Bytes → ChunkMap → List Bytes → Bytes → Result Bytes
  read_chunks archive chunks [] acc = ok acc
  read_chunks archive chunks (hash ∷ hashes) acc = require_chunk chunks hash ⟫= λ meta.
      read_chunk_data archive hash meta ⟫= λ chunk. read_chunks archive chunks hashes (acc ++ chunk)

  -- The loop of `verify_file_record`, which also counts the bytes with `checked_add`.
  unfoldable pub read_chunks_counted :
      Bytes → ChunkMap → List Bytes → Bytes → ℕ → Result (Bytes × ℕ)
  read_chunks_counted archive chunks [] acc size = ok (acc, size)
  read_chunks_counted archive chunks (hash ∷ hashes) acc size = require_chunk chunks hash ⟫= λ meta.
      read_chunk_data archive hash meta ⟫= λ chunk. checked_add size (length chunk) ⟫= λ size'.
      read_chunks_counted archive chunks hashes (acc ++ chunk) size'

  -- The bytes that `verify_file_record` gives to its hasher, behind its checks.
  unfoldable pub verified_bytes : Bytes → ChunkMap → FileRecord → Result Bytes
  verified_bytes archive chunks file =
      read_chunks_counted archive chunks file.chunk_hashes [] 0 ⟫= λ (read : Bytes × ℕ).
      bail_if (not (read.1 == file.original_size)) file_size_mismatch ⟫= λ _.
      bail_if (not (bytes_eq (x.hash read.0) file.hash)) file_hash_mismatch ⟫= λ _. ok read.0

  unfoldable pub verify_file_record : Bytes → ChunkMap → FileRecord → Result (Unit {0})
  verify_file_record archive chunks file = verified_bytes archive chunks file ⟫= λ _. ok tt

  unfoldable pub verify_files : Bytes → ChunkMap → List FileRecord → Result (Unit {0})
  verify_files archive chunks [] = ok tt
  verify_files archive chunks (file ∷ files) =
      verify_file_record archive chunks file ⟫= λ _. verify_files archive chunks files

  unfoldable pub verify_reader : Bytes → Result ArchiveInfo
  verify_reader archive = scan_archive_reader archive ⟫= λ catalog.
      verify_files archive catalog.chunks catalog.files ⟫= λ _. ok catalog.info

  unfoldable pub find_file : List FileRecord → Bytes → Result FileRecord
  find_file [] path = err entry_not_found
  find_file (file ∷ files) path = if bytes_eq file.path path then ok file else find_file files path

  unfoldable pub read_entry_reader : Bytes → Bytes → Result Bytes
  read_entry_reader archive path = validate_archive_path path ⟫= λ _.
      scan_archive_reader archive ⟫= λ catalog. find_file catalog.files path ⟫= λ file.
      read_chunks archive catalog.chunks file.chunk_hashes [] ⟫= λ contents.
      bail_if
        (not (length contents == file.original_size) || not (bytes_eq (x.hash contents) file.hash))
        file_hash_mismatch
      ⟫= λ _. ok contents
