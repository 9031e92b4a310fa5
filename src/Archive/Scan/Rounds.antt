-- ===== src/Archive/Scan/Rounds.antt =====
-- One round of the scan over each kind of record that the packer writes.
use rgx.Common.{
  ℕ, ◌+◌, ◌*◌, ◌≤◌, ◌<◌, ◌^◌, ◌≡◌, refl, ap, ◌∙◌, List, [], ◌∷◌, ◌++◌, append_assoc, append-nil,
  true, false, not, none, some, Bytes, bytes_eq, length, lt→ltb, le→ltb, ok, concat, arith, stream,
  bind_ok, read_exact-append, skip-append, stream_position, bail_ok, lift_ok,
}
use rgx.Format.{
  ChunkHeader, FileHeader, Footer, IsChunkHeader, IsFooter, write_chunk_header, write_file_header,
  write_directory_header, write_footer,
}
use rgx.Format.RoundTrip.{
  read_chunk_header-write_chunk_header, read_file_header-write_file_header,
  read_directory_header-write_directory_header, read_footer-write_footer,
}
use rgx.Archive.{
  ChunkMeta, ChunkMap, checked_add, get_chunk, validate_chunk_header, u64_limit, insert, contains,
  max_path_bytes, max_chunks_per_file,
}
use rgx.Archive.Paths.{is_utf8, is_empty, read_path, validate_archive_path}
use rgx.Archive.Scan.{
  ScanState, RefState, more, done, insert_chunk, scan_chunk, scan_path, scan_directory, find_chunk,
  scan_reference, scan_references, scan_file, require_tag, scan_record, scan_round,
  start_references,
}

pub checked_add_ok : (a b : ℕ) → a + b < u64_limit → checked_add a b ≡ ok (a + b)
unfolding checked_add
checked_add_ok a b h = rw (lt→ltb (a + b) u64_limit h)

abbrev pub meta_of : ChunkHeader → ℕ → ChunkMeta
meta_of h offset = record {
  compression = h.compression;
  original_size = h.original_size;
  payload_size = h.payload_size;
  payload_offset = offset;
}

-- The scan state behind a chunk record.
abbrev pub with_chunk : ScanState → ChunkHeader → ℕ → ScanState
with_chunk σ h offset = record σ {
  chunks = (h.hash, meta_of h offset) ∷ σ.chunks;
  stored_payload_bytes = σ.stored_payload_bytes + h.payload_size;
}

insert_new :
    (chunks : ChunkMap) (hash : Bytes) (m : ChunkMeta)
    → get_chunk chunks hash ≡ none
    → insert_chunk chunks hash m ≡ ok ((hash, m) ∷ chunks)
unfolding insert_chunk
insert_new chunks hash m e = rw (e, insert_chunk)

-- One round over a chunk record, its header as `write_chunk_header` writes it and then its payload,
-- adds the chunk to the map with the payload's offset and counts its bytes, if the header is valid,
-- the digest is new, the payload has its size (below 2 ^ 63) and the sum fits 64 bits.
pub chunk_round :
    (σ : ScanState) (h : ChunkHeader) (payload : Bytes) (p : ℕ) (rest : Bytes)
    → IsChunkHeader h
    → validate_chunk_header h ≡ ok tt
    → h.payload_size < 2 ^ 63
    → length payload ≡ h.payload_size
    → get_chunk σ.chunks h.hash ≡ none
    → σ.stored_payload_bytes + h.payload_size < u64_limit
    → scan_round σ (stream p (write_chunk_header h ++ (payload ++ rest)))
      ≡ ok (more (with_chunk σ h (p + 56)), stream (p + 56 + h.payload_size) rest)
unfolding scan_round require_tag scan_record bytes_eq scan_chunk stream_position
chunk_round σ h payload p rest v valid small len fresh room =
    let (s, tag, header) = read_chunk_header-write_chunk_header h p (payload ++ rest) v in
    bind_ok _ _ _ tag (
      bind_ok _ _ _ (lift_ok _ _ refl) (
        bind_ok _ _ _
          (bind_ok _ _ _ header (
            bind_ok _ _ _ (lift_ok _ _ valid) (
              bind_ok _ _ _ refl (
                bind_ok _ _ _ (bail_ok _ _ _ (ap not (lt→ltb _ _ small))) (
                  bind_ok _ _ _ (skip-append (p + 56) rest h.payload_size payload len) (
                    bind_ok _ _ _ (lift_ok _ _ (checked_add_ok _ _ room))
                      (bind_ok _ _ _ (lift_ok _ _ (insert_new _ _ _ fresh)) refl)))))))
          refl))

read_path_ok :
    (path : Bytes) (p : ℕ) (rest : Bytes)
    → is_empty path ≡ false
    → length path ≤ max_path_bytes
    → is_utf8 path ≡ true
    → read_path (length path) (stream p (path ++ rest)) ≡ ok (path, stream (p + length path) rest)
unfolding read_path is_empty
read_path_ok [] p rest e h u = cc
read_path_ok (b ∷ bs) p rest e h u = bind_ok _ _ _ (bail_ok _ _ _ (ground arith)) (
    bind_ok _ _ _ (read_exact-append p rest (length (b ∷ bs)) (b ∷ bs) refl)
      (bind_ok _ _ _ (bail_ok _ _ _ (ap not u)) refl))

-- What the packer's paths have, and the scan asks for.
pub record IsStorable (path : Bytes) : Type 0 where
  pub nonempty : is_empty path ≡ false
  pub short : length path ≤ max_path_bytes
  pub utf8 : is_utf8 path ≡ true
  pub valid : validate_archive_path path ≡ ok path

scan_path_ok :
    (σ : ScanState) (path : Bytes) (p : ℕ) (rest : Bytes)
    → IsStorable path
    → contains σ.paths path ≡ false
    → scan_path σ (length path) (stream p (path ++ rest)) ≡ ok (path, stream (p + length path) rest)
unfolding scan_path
scan_path_ok σ path p rest v fresh =
    bind_ok _ _ _ (read_path_ok path p rest v.nonempty v.short v.utf8)
      (bind_ok _ _ _ (lift_ok _ _ v.valid) (bind_ok _ _ _ (bail_ok _ _ _ fresh) refl))

-- The scan state behind a directory record.
abbrev pub with_directory : ScanState → Bytes → ScanState
with_directory σ path = record σ {
  paths = path ∷ σ.paths;
  directories = σ.directories ++ (path ∷ []);
  entries = σ.entries + 1;
  directory_count = σ.directory_count + 1;
}

abbrev pub directory_record : Bytes → Bytes
directory_record path = write_directory_header (record { path_len = length path }) ++ path

-- One round over a directory record, its header as `write_directory_header` writes it and then the
-- path, adds the path to the directories and counts the entry, if the path is storable and new and
-- the counts fit 64 bits.
pub directory_round :
    (σ : ScanState) (path : Bytes) (p : ℕ) (rest : Bytes)
    → IsStorable path
    → contains σ.paths path ≡ false
    → σ.entries + 1 < u64_limit
    → σ.directory_count + 1 < u64_limit
    → scan_round σ (stream p (directory_record path ++ rest))
      ≡ ok (more (with_directory σ path), stream (p + 12 + length path) rest)
unfolding scan_round require_tag scan_record bytes_eq scan_directory
directory_round σ path p rest v fresh e d =
    let (s, tag, header) =
      read_directory_header-write_directory_header (record { path_len = length path }) p
        (path ++ rest) (record { path_len = omega (arith, v.short) }) in
    rw append_assoc (
      bind_ok _ _ _ tag (
        bind_ok _ _ _ (lift_ok _ _ refl) (
          bind_ok _ _ _
            (bind_ok _ _ _ header (
              bind_ok _ _ _ (scan_path_ok σ path (p + 12) rest v fresh) (
                bind_ok _ _ _ (lift_ok _ _ (checked_add_ok _ _ e))
                  (bind_ok _ _ _ (lift_ok _ _ (checked_add_ok _ _ d)) refl))))
            refl)))

pub footer_round :
    (σ : ScanState) (f : Footer) (p : ℕ) (rest : Bytes)
    → IsFooter f
    → scan_round σ (stream p (write_footer f ++ rest)) ≡ ok (done f σ, stream (p + 68) rest)
unfolding scan_round require_tag scan_record bytes_eq
footer_round σ f p rest v =
    let (s, tag, footer) = read_footer-write_footer f p rest v in
    bind_ok _ _ _ tag (bind_ok _ _ _ (lift_ok _ _ refl) (bind_ok _ _ _ footer refl))

-- The sum of the sizes of chunks that are all in the map.
pub data Refers (chunks : ChunkMap) : List Bytes → ℕ → Type 0 where
  nothing : Refers chunks [] 0
  refer :
      {hashes : List Bytes} {total : ℕ} (hash : Bytes) (m : ChunkMeta)
      → length hash ≡ 32
      → get_chunk chunks hash ≡ some m
      → Refers chunks hashes total
      → Refers chunks (hash ∷ hashes) (m.original_size + total)

unfoldable pub insert_all : List Bytes → List Bytes → List Bytes
insert_all set [] = set
insert_all set (x ∷ xs) = insert_all (insert set x) xs

-- The loop's state behind references that all resolve.
abbrev pub with_references : RefState → List Bytes → ℕ → RefState
with_references ρ hashes total = record {
  chunk_hashes = ρ.chunk_hashes ++ hashes;
  reconstructed_size = ρ.reconstructed_size + total;
  referenced_logical_bytes = ρ.referenced_logical_bytes + total;
  chunk_references = ρ.chunk_references + length hashes;
  referenced_chunks = insert_all ρ.referenced_chunks hashes;
}

found_chunk :
    (chunks : ChunkMap) (hash : Bytes) (m : ChunkMeta)
    → get_chunk chunks hash ≡ some m
    → find_chunk chunks hash ≡ ok m
unfolding find_chunk
found_chunk chunks hash m e = rw (e, find_chunk)

pub references_ok :
    (chunks : ChunkMap) {hashes : List Bytes} {total : ℕ} (r : Refers chunks hashes total)
    (ρ : RefState) (p : ℕ) (rest : Bytes)
    → ρ.reconstructed_size + total < u64_limit
    → ρ.referenced_logical_bytes + total < u64_limit
    → ρ.chunk_references + length hashes < u64_limit
    → scan_references chunks (length hashes) ρ (stream p (concat hashes ++ rest))
      ≡ ok (with_references ρ hashes total, stream (p + 32 * length hashes) rest)
unfolding scan_references scan_reference insert_all
references_ok chunks nothing ρ p rest a b c = ground (arith, append-nil ρ.chunk_hashes)
references_ok chunks (refer {hashes} {total} hash m len found r) ρ p rest a b c = rw append_assoc (
    bind_ok _ _ _
      (bind_ok _ _ _ (read_exact-append p (concat hashes ++ rest) 32 hash len) (
        bind_ok _ _ _ (lift_ok _ _ (found_chunk chunks hash m found)) (
          bind_ok _ _ _ (lift_ok _ _ (checked_add_ok _ _ (omega arith))) (
            bind_ok _ _ _ (lift_ok _ _ (checked_add_ok _ _ (omega arith)))
              (bind_ok _ _ _ (lift_ok _ _ (checked_add_ok _ _ (omega arith))) refl)))))
      (references_ok chunks r _ (p + 32) rest (omega arith) (omega arith) (omega arith)
        ∙ ground (arith, append_assoc ρ.chunk_hashes (hash ∷ []) hashes)))

abbrev pub file_header : Bytes → List Bytes → ℕ → Bytes → FileHeader
file_header path hashes size hash = record {
  path_len = length path;
  chunk_count = length hashes;
  original_size = size;
  hash = hash;
}

abbrev pub file_record : Bytes → List Bytes → ℕ → Bytes → Bytes
file_record path hashes size hash =
    write_file_header (file_header path hashes size hash) ++ (path ++ concat hashes)

-- The scan state behind a file's record, with `size` as the sum of its references.
abbrev pub with_file : ScanState → Bytes → List Bytes → ℕ → Bytes → ScanState
with_file σ path hashes size hash = record σ {
  referenced_chunks = insert_all σ.referenced_chunks hashes;
  files =
      σ.files
      ++ (record { path = path; original_size = size; hash = hash; chunk_hashes = hashes } ∷ []);
  paths = path ∷ σ.paths;
  file_paths = path ∷ σ.file_paths;
  entries = σ.entries + 1;
  file_count = σ.file_count + 1;
  chunk_references = σ.chunk_references + length hashes;
  original_bytes = σ.original_bytes + size;
  referenced_logical_bytes = σ.referenced_logical_bytes + size;
}

module _ (σ : ScanState) (path : Bytes) (hashes : List Bytes) (size : ℕ) (hash : Bytes)
    (v : IsStorable path) (fresh : contains σ.paths path ≡ false) (digest : length hash ≡ 32)
    (count : length hashes ≤ max_chunks_per_file) (refers : Refers σ.chunks hashes size)
    (logical : σ.referenced_logical_bytes + size < u64_limit)
    (references : σ.chunk_references + length hashes < u64_limit)
    (original : σ.original_bytes + size < u64_limit) (entries : σ.entries + 1 < u64_limit)
    (files : σ.file_count + 1 < u64_limit) where
  -- One round over a file record, its header as `write_file_header` writes it, then its path and its
  -- digests, adds the file to the catalog and counts it, if the path is storable and new, every
  -- digest is of a chunk in the map, `size` is the sum of the chunks' sizes, there are at most 2 ^ 20
  -- digests, and the sums fit 64 bits.
  pub file_round :
      (p : ℕ) (rest : Bytes)
      → scan_round σ (stream p (file_record path hashes size hash ++ rest))
        ≡ ok (
          more (with_file σ path hashes size hash),
          stream (p + 52 + length path + 32 * length hashes) rest,
        )
  unfolding scan_round require_tag scan_record bytes_eq scan_file
  file_round p rest =
      let (s, tag, header) =
        read_file_header-write_file_header (file_header path hashes size hash) p
          (path ++ (concat hashes ++ rest))
          (record {
            path_len = omega (arith, v.short);
            chunk_count = omega arith;
            original_size = omega arith;
            hash = digest;
          }) in
      simp append_assoc (
        bind_ok _ _ _ tag (
          bind_ok _ _ _ (lift_ok _ _ refl) (
            bind_ok _ _ _
              (bind_ok _ _ _ header (
                bind_ok _ _ _ (bail_ok _ _ _ (le→ltb _ _ count)) (
                  bind_ok _ _ _ (scan_path_ok σ path (p + 52) (concat hashes ++ rest) v fresh) (
                    bind_ok _ _ _
                      (references_ok σ.chunks refers (start_references σ) (p + 52 + length path)
                        rest (omega arith) logical references)
                      (bind_ok _ _ _ (bail_ok _ _ _ (ground arith)) (
                        bind_ok _ _ _ (lift_ok _ _ (checked_add_ok _ _ original)) (
                          bind_ok _ _ _ (lift_ok _ _ (checked_add_ok _ _ entries))
                            (bind_ok _ _ _ (lift_ok _ _ (checked_add_ok _ _ files)) refl))))))))
              refl)))
