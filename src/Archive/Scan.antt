-- ===== src/Archive/Scan.antt =====
-- src/archive.rs: `scan_archive_reader`, which reads all records of an archive but the payloads.
pub mod Total
pub mod Catalog
pub mod Rounds
use rgx.Common.{
  ℕ, zero, suc, ◌-◌, ◌^◌, List, [], ◌∷◌, ◌++◌, Option, none, some, Bool, false, not, ◌&&◌, ◌||◌,
  Bytes, bytes_eq, length, take, ltb, leb, ◌==◌, if◌then◌else◌, Result, ok, err, bail_if, ◌⟫=◌,
  Parser, stream, pure, lift, ◌>>=◌, ◌>>◌, read_exact, skip, stream_position, out_of_fuel,
  payload_too_large, duplicate_chunk, duplicate_path, too_many_chunks, unknown_chunk,
  reconstructed_size_mismatch, missing_footer, unknown_marker, trailing_data, file_as_parent,
  unreferenced_chunk, bad_statistics, footer_mismatch,
}
use rgx.Format.{
  Footer, chunk_magic, file_magic, directory_magic, footer_magic, read_header, read_tag,
  read_chunk_header_after_magic, read_file_header_after_magic, read_directory_header_after_magic,
  read_footer_after_magic,
}
use rgx.Archive.{
  ArchiveCatalog, ChunkMeta, ChunkMap, FileRecord, max_chunks_per_file, get_chunk, contains, insert,
  checked_add, validate_chunk_header, info_from_footer,
}
use rgx.Archive.Paths.{split_slash, join_slash, validate_archive_path, read_path}

-- The locals of the loop.
pub record ScanState : Type 0 where
  pub chunks : ChunkMap
  pub referenced_chunks : List Bytes
  pub files : List FileRecord
  pub directories : List Bytes
  pub paths : List Bytes
  pub file_paths : List Bytes
  pub entries : ℕ
  pub file_count : ℕ
  pub directory_count : ℕ
  pub chunk_references : ℕ
  pub original_bytes : ℕ
  pub stored_payload_bytes : ℕ
  pub referenced_logical_bytes : ℕ

abbrev pub start_scan : ScanState
start_scan = record {
  chunks = [];
  referenced_chunks = [];
  files = [];
  directories = [];
  paths = [];
  file_paths = [];
  entries = 0;
  file_count = 0;
  directory_count = 0;
  chunk_references = 0;
  original_bytes = 0;
  stored_payload_bytes = 0;
  referenced_logical_bytes = 0;
}

-- `chunks.entry(hash)`: a vacant slot is filled, an occupied one is an error.
unfoldable pub insert_chunk : ChunkMap → Bytes → ChunkMeta → Result ChunkMap
insert_chunk chunks hash meta = elim (get_chunk chunks hash) [
  | none ↦ ok ((hash, meta) ∷ chunks)
  | some _ ↦ err duplicate_chunk
]

unfoldable pub scan_chunk : ScanState → Parser ScanState
scan_chunk σ = do
  header ← read_chunk_header_after_magic
  lift (validate_chunk_header header)
  payload_offset ← stream_position
  lift (bail_if (not (ltb header.payload_size (2 ^ 63))) payload_too_large)
  skip header.payload_size
  stored ← lift (checked_add σ.stored_payload_bytes header.payload_size)
  chunks ← lift (
      insert_chunk σ.chunks header.hash (record {
        compression = header.compression;
        original_size = header.original_size;
        payload_size = header.payload_size;
        payload_offset = payload_offset;
      }))
  pure (record σ { chunks = chunks; stored_payload_bytes = stored })

-- `read_path`, `validate_archive_path` and `paths.insert`, as both kinds of entry make them.
unfoldable pub scan_path : ScanState → ℕ → Parser Bytes
scan_path σ path_len = do
  path ← read_path path_len
  checked ← lift (validate_archive_path path)
  lift (bail_if (contains σ.paths path) duplicate_path)
  pure path

unfoldable pub scan_directory : ScanState → Parser ScanState
scan_directory σ = do
  header ← read_directory_header_after_magic
  path ← scan_path σ header.path_len
  entries ← lift (checked_add σ.entries 1)
  directory_count ← lift (checked_add σ.directory_count 1)
  pure (record σ {
    paths = path ∷ σ.paths;
    directories = σ.directories ++ (path ∷ []);
    entries = entries;
    directory_count = directory_count;
  })

-- The loop over the chunk references of one file, which also sums up their sizes.
pub record RefState : Type 0 where
  pub chunk_hashes : List Bytes
  pub reconstructed_size : ℕ
  pub referenced_logical_bytes : ℕ
  pub chunk_references : ℕ
  pub referenced_chunks : List Bytes

unfoldable pub find_chunk : ChunkMap → Bytes → Result ChunkMeta
find_chunk chunks hash = elim (get_chunk chunks hash) [ none ↦ err unknown_chunk | some m ↦ ok m ]

unfoldable pub scan_reference : ChunkMap → RefState → Parser RefState
scan_reference chunks ρ = do
  hash ← read_exact 32
  meta ← lift (find_chunk chunks hash)
  reconstructed ← lift (checked_add ρ.reconstructed_size meta.original_size)
  logical ← lift (checked_add ρ.referenced_logical_bytes meta.original_size)
  references ← lift (checked_add ρ.chunk_references 1)
  pure (record {
    chunk_hashes = ρ.chunk_hashes ++ (hash ∷ []);
    reconstructed_size = reconstructed;
    referenced_logical_bytes = logical;
    chunk_references = references;
    referenced_chunks = insert ρ.referenced_chunks hash;
  })

unfoldable pub scan_references : ChunkMap → ℕ → RefState → Parser RefState
scan_references chunks zero ρ = pure ρ
scan_references chunks (suc n) ρ = scan_reference chunks ρ >>= scan_references chunks n

abbrev pub start_references : ScanState → RefState
start_references σ = record {
  chunk_hashes = [];
  reconstructed_size = 0;
  referenced_logical_bytes = σ.referenced_logical_bytes;
  chunk_references = σ.chunk_references;
  referenced_chunks = σ.referenced_chunks;
}

unfoldable pub scan_file : ScanState → Parser ScanState
scan_file σ = do
  header ← read_file_header_after_magic
  lift (bail_if (ltb max_chunks_per_file header.chunk_count) too_many_chunks)
  path ← scan_path σ header.path_len
  ρ ← scan_references σ.chunks header.chunk_count (start_references σ)
  lift (bail_if (not (ρ.reconstructed_size == header.original_size)) reconstructed_size_mismatch)
  original_bytes ← lift (checked_add σ.original_bytes header.original_size)
  entries ← lift (checked_add σ.entries 1)
  file_count ← lift (checked_add σ.file_count 1)
  pure (record σ {
    referenced_chunks = ρ.referenced_chunks;
    files =
        σ.files
        ++ (record {
          path = path;
          original_size = header.original_size;
          hash = header.hash;
          chunk_hashes = ρ.chunk_hashes;
        }
            ∷ []);
    paths = path ∷ σ.paths;
    file_paths = path ∷ σ.file_paths;
    entries = entries;
    file_count = file_count;
    chunk_references = ρ.chunk_references;
    original_bytes = original_bytes;
    referenced_logical_bytes = ρ.referenced_logical_bytes;
  })

-- One round of the loop: go on, or break with the footer.
pub data Round : Type 0 where
  more : ScanState → Round
  done : Footer → ScanState → Round

unfoldable pub require_tag : Option Bytes → Result Bytes
require_tag none = err missing_footer
require_tag (some tag) = ok tag

unfoldable pub scan_record : ScanState → Bytes → Parser Round
scan_record σ tag =
    if bytes_eq tag chunk_magic
    then (do σ' ← scan_chunk σ; pure (more σ'))
    else if bytes_eq tag directory_magic
    then (do σ' ← scan_directory σ; pure (more σ'))
    else if bytes_eq tag file_magic
    then (do σ' ← scan_file σ; pure (more σ'))
    else if bytes_eq tag footer_magic
    then (do footer ← read_footer_after_magic; pure (done footer σ))
    else lift (err unknown_marker)

unfoldable pub scan_round : ScanState → Parser Round
scan_round σ = do found ← read_tag; tag ← lift (require_tag found); scan_record σ tag

-- Every round takes a tag of four bytes, so the length of the archive is fuel enough.
unfoldable pub scan_loop : ℕ → ScanState → Parser (Footer × ScanState)
scan_loop zero σ s = err out_of_fuel
scan_loop (suc fuel) σ s = elim (scan_round σ s) [
  | err e ↦ err e
  | ok (more σ', s') ↦ scan_loop fuel σ' s'
  | ok (done footer σ', s') ↦ ok ((footer, σ'), s')
]

-- The parents of a path, `parts[..depth].join("/")` for each depth from 1 on.
unfoldable pub parents : ℕ → List Bytes → List Bytes
parents zero parts = []
parents (suc depth) parts = parents depth parts ++ (join_slash (take (suc depth) parts) ∷ [])

unfoldable pub path_parents : Bytes → List Bytes
path_parents path = let parts = split_slash path in parents (length parts - 1) parts

unfoldable pub any_in : List Bytes → List Bytes → Bool
any_in set [] = false
any_in set (x ∷ xs) = contains set x || any_in set xs

unfoldable pub validate_path_tree : List Bytes → List Bytes → Result (Unit {0})
validate_path_tree [] file_paths = ok tt
validate_path_tree (path ∷ paths) file_paths =
    let rest = validate_path_tree paths file_paths in
    if any_in file_paths (path_parents path) then err file_as_parent else rest

unfoldable pub sum_sizes : ℕ → ChunkMap → Result ℕ
sum_sizes acc [] = ok acc
sum_sizes acc ((key, meta) ∷ chunks) =
    checked_add acc meta.original_size ⟫= λ total. sum_sizes total chunks

unfoldable pub checked_sub : ℕ → ℕ → Result ℕ
checked_sub left right = if leb right left then ok (left - right) else err bad_statistics

unfoldable pub footer_eq : Footer → Footer → Bool
footer_eq a b =
    a.entries == b.entries
    && (a.files == b.files
        && (a.directories == b.directories
            && (a.unique_chunks == b.unique_chunks
                && (a.chunk_references == b.chunk_references
                    && (a.original_bytes == b.original_bytes
                        && (a.stored_payload_bytes == b.stored_payload_bytes
                            && a.deduplicated_bytes == b.deduplicated_bytes))))))

unfoldable pub expected_footer : ScanState → ℕ → Footer
expected_footer σ deduplicated = record {
  entries = σ.entries;
  files = σ.file_count;
  directories = σ.directory_count;
  unique_chunks = length σ.chunks;
  chunk_references = σ.chunk_references;
  original_bytes = σ.original_bytes;
  stored_payload_bytes = σ.stored_payload_bytes;
  deduplicated_bytes = deduplicated;
}

-- What is checked behind the footer. `trailing` is what is left of the archive.
unfoldable pub check_catalog : Footer → ScanState → Bytes → Result ArchiveCatalog
check_catalog footer σ trailing = bail_if (not (length trailing == 0)) trailing_data ⟫= λ _.
    validate_path_tree σ.paths σ.file_paths ⟫= λ _.
    bail_if (not (length σ.referenced_chunks == length σ.chunks)) unreferenced_chunk ⟫= λ _.
    sum_sizes 0 σ.chunks ⟫= λ unique_logical_bytes.
    checked_sub σ.referenced_logical_bytes unique_logical_bytes ⟫= λ deduplicated.
    bail_if (not (footer_eq footer (expected_footer σ deduplicated))) footer_mismatch ⟫= λ _.
    ok (record {
      chunks = σ.chunks;
      files = σ.files;
      directories = σ.directories;
      info = info_from_footer footer;
    })

-- The reader is rewound first, so the archive is given by all its bytes.
unfoldable pub scan_archive_reader : Bytes → Result ArchiveCatalog
scan_archive_reader archive = read_header (stream 0 archive) ⟫= λ hs.
    scan_loop (suc (length archive)) start_scan hs.1 ⟫= λ fs. check_catalog fs.0.0 fs.0.1 fs.1.rest
