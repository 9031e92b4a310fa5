-- ===== src/Archive/Read/Checked.antt =====
-- What src/archive.rs hands out has passed its checks: sizes and digests, of chunks and of files.
use rgx.Common.{
  ℕ, ◌+◌, ◌≡◌, ◌<◌, refl, ap, sym, ◌∙◌, List, [], ◌∷◌, ◌++◌, Bool, true, false, not, Bytes,
  bytes_eq, bytes_eq→eq, length, length-append, ◌==◌, ==_iff, All, ok, bail_if, ⟫=-eq-ok, arith,
  Bool-cases, inl, inr, bail_if-eq-ok, bytes_eq_refl, eq→==, ok-injective, err-ne-ok, subst,
}
use rgx.Archive.{
  External, ArchiveInfo, ArchiveCatalog, ChunkMeta, ChunkMap, FileRecord, checked_add, u64_limit,
}
use rgx.Archive.Paths.{validate_archive_path}
use rgx.Archive.Scan.{scan_archive_reader}
use rgx.Archive.Read.{
  read_payload, require_chunk, decode_payload, read_chunk_data, read_chunks, read_chunks_counted,
  verified_bytes, verify_file_record, verify_files, verify_reader, find_file, read_entry_reader,
}

pub not-false : (b : Bool) → not b ≡ false → b ≡ true
not-false true h = refl
not-false false h = cc

pub checked_add-eq : (a b c : ℕ) → checked_add a b ≡ ok c → (c ≡ a + b) × (a + b < u64_limit)
unfolding checked_add
checked_add-eq a b c h = ground arith

module _ (x : External) (archive : Bytes) where
  -- A chunk that `read_chunk_data` returns has the digest that was asked for, and the size that its
  -- record declares.
  pub read_chunk_data_checked :
      (hash : Bytes) (m : ChunkMeta) (d : Bytes)
      → read_chunk_data x archive hash m ≡ ok d
      → (x.hash d ≡ hash) × (length d ≡ m.original_size)
  unfolding read_chunk_data
  read_chunk_data_checked hash m d h =
      let (payload, e1, h1) = ⟫=-eq-ok (read_payload archive m) _ h in
      let (chunk, e2, h2) = ⟫=-eq-ok (decode_payload x m payload) _ h1 in
      let (u, e3, h3) = ⟫=-eq-ok (bail_if (not (length chunk == m.original_size)) _) _ h2 in
      let (v, e4, h4) = ⟫=-eq-ok (bail_if (not (bytes_eq (x.hash chunk) hash)) _) _ h3 in
      let size = (==_iff _ _).0 (not-false _ (bail_if-eq-ok _ _ e3)) in
      let digest = bytes_eq→eq _ _ (not-false _ (bail_if-eq-ok _ _ e4)) in
      let same : chunk ≡ d = ok-injective h4 in
      (ap x.hash (sym same) ∙ digest, ap length (sym same) ∙ size)

  -- The loop of `verify_file_record` and the one of `read_entry_reader` read the same bytes, and the
  -- count is their number.
  pub counted_reads :
      (chunks : ChunkMap) (hashes : List Bytes) (acc : Bytes) (size : ℕ) (d : Bytes) (n : ℕ)
      → read_chunks_counted x archive chunks hashes acc size ≡ ok (d, n)
      → size ≡ length acc
      → (read_chunks x archive chunks hashes acc ≡ ok d) × (n ≡ length d)
  unfolding read_chunks_counted read_chunks
  counted_reads chunks [] acc size d n h e = ground arith
  counted_reads chunks (hash ∷ hashes) acc size d n h e =
      let (m, e1, h1) = ⟫=-eq-ok (require_chunk chunks hash) _ h in
      let (chunk, e2, h2) = ⟫=-eq-ok (read_chunk_data x archive hash m) _ h1 in
      let (size', e3, h3) = ⟫=-eq-ok (checked_add size (length chunk)) _ h2 in
      rw (e1, e2)
        (counted_reads chunks hashes (acc ++ chunk) size' d n h3
          (omega (arith, checked_add-eq size (length chunk) size' e3, length-append acc chunk)))

  -- A file that is verified has the size and the digest of its record, and `read_chunks` returns the
  -- same bytes.
  pub verified_bytes_checked :
      (chunks : ChunkMap) (file : FileRecord) (d : Bytes)
      → verified_bytes x archive chunks file ≡ ok d
      → (length d ≡ file.original_size)
        × (x.hash d ≡ file.hash)
        × (read_chunks x archive chunks file.chunk_hashes [] ≡ ok d)
  unfolding verified_bytes
  verified_bytes_checked chunks file d h =
      let (read, e1, h1) =
        ⟫=-eq-ok (read_chunks_counted x archive chunks file.chunk_hashes [] 0) _ h in
      let (u, e2, h2) = ⟫=-eq-ok (bail_if (not (read.1 == file.original_size)) _) _ h1 in
      let (v, e3, h3) = ⟫=-eq-ok (bail_if (not (bytes_eq (x.hash read.0) file.hash)) _) _ h2 in
      let counted = counted_reads chunks file.chunk_hashes [] 0 read.0 read.1 e1 refl in
      let size = (==_iff read.1 file.original_size).0 (not-false _ (bail_if-eq-ok _ _ e2)) in
      let digest = bytes_eq→eq (x.hash read.0) file.hash (not-false _ (bail_if-eq-ok _ _ e3)) in
      let same : read.0 ≡ d = ok-injective h3 in
      (
        sym (ap length same) ∙ sym counted.1 ∙ size,
        ap x.hash (sym same) ∙ digest,
        counted.0 ∙ ap ok same,
      )

  -- Every file that `verify_files` lets through has bytes that pass the checks.
  abbrev pub IsVerified : ChunkMap → FileRecord → Type 0
  IsVerified chunks file = (d : Bytes) × (verified_bytes x archive chunks file ≡ ok d)

  verify_files-IsVerified :
      (chunks : ChunkMap) (files : List FileRecord)
      → verify_files x archive chunks files ≡ ok tt
      → All (IsVerified chunks) files
  unfolding verify_files verify_file_record
  verify_files-IsVerified chunks [] h = tt
  verify_files-IsVerified chunks (file ∷ files) h =
      let (u, e, h1) = ⟫=-eq-ok (verify_file_record x archive chunks file) _ h in
      let (d, e1, h2) = ⟫=-eq-ok (verified_bytes x archive chunks file) _ e in
      ((d, e1), verify_files-IsVerified chunks files h1)

  find_file-IsVerified :
      (chunks : ChunkMap) (files : List FileRecord) (path : Bytes) (file : FileRecord)
      → All (IsVerified chunks) files
      → find_file x files path ≡ ok file
      → IsVerified chunks file
  unfolding find_file
  find_file-IsVerified chunks [] path file h e = absurd (err-ne-ok e)
  find_file-IsVerified chunks (f ∷ fs) path file h e = elim (Bool-cases (bytes_eq f.path path)) [
    | inl same ↦ subst (IsVerified chunks) (ok-injective (rw same at e)) h.0
    | inr other ↦ find_file-IsVerified chunks fs path file h.1 (rw other at e)
  ]

  -- Once `verify_reader` has accepted an archive, reading any of its files by a valid path succeeds,
  -- and returns bytes with the size and the digest of the file's record.
  pub read_entry-verify :
      (info : ArchiveInfo) (catalog : ArchiveCatalog) (path : Bytes) (file : FileRecord)
      → verify_reader x archive ≡ ok info
      → scan_archive_reader archive ≡ ok catalog
      → validate_archive_path path ≡ ok path
      → find_file x catalog.files path ≡ ok file
      → (d : Bytes) × (read_entry_reader x archive path ≡ ok d)
        × (length d ≡ file.original_size)
        × (x.hash d ≡ file.hash)
  unfolding verify_reader read_entry_reader
  read_entry-verify info catalog path file v s p f =
      let (u, e1, h1) =
        ⟫=-eq-ok (verify_files x archive catalog.chunks catalog.files) _ (rw s at v) in
      let (d, e) =
        find_file-IsVerified catalog.chunks catalog.files path file
          (verify_files-IsVerified catalog.chunks catalog.files e1) f in
      let (size, digest, reads) = verified_bytes_checked catalog.chunks file d e in
      (
        d,
        rw (
          p,
          s,
          f,
          reads,
          eq→== (length d) file.original_size size,
          digest,
          bytes_eq_refl file.hash,
        ),
        size,
        digest,
      )
