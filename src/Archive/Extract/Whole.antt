-- ===== src/Archive/Extract/Whole.antt =====
-- What `extract_reader` of src/archive.rs leaves in the output directory.
use rgx.Common.{
  Error, ◌≡◌, refl, ◌∙◌, List, [], ◌∷◌, ◌++◌, Option, none, some, Bool, true, not, create_failed,
  Bytes, length, Result, ok, err, bail_if, ⟫=-eq-ok, ok-injective, err-ne-ok, Result-cases, inl,
  inr, subst,
}
use rgx.Archive.{External, ArchiveInfo, ArchiveCatalog, ChunkMap, FileRecord}
use rgx.Archive.Paths.{validate_archive_path}
use rgx.Archive.Paths.Accepted.{IsCanonical}
use rgx.Archive.Scan.{scan_archive_reader, path_parents}
use rgx.Archive.Read.{read_chunks}
use rgx.Archive.Extract.{
  Output, Disk, empty_output, create_dir_all, make_directories, extract_file_record, extract_files,
  sort_by_depth, matching_files, check_selected, check_found, select, begin_extraction, fill_output,
  clean_output, extract_reader,
}
use rgx.Archive.Extract.Kept.{
  Extraction, kept, refused, extract_file_record-Extraction, files-make_all,
}

-- The removals behind a failure succeed.
pub record IsCleaning (disk : Disk) : Type 0 where
  pub removes : (path : Bytes) → disk.removes path ≡ true
  pub leaves : (o : Output) → disk.leaves o ≡ none

-- The last element first.
unfoldable pub reversed : List FileRecord → List FileRecord → List FileRecord
reversed [] done = done
reversed (file ∷ files) done = reversed files (file ∷ done)

module _ (x : External) (archive : Bytes) (chunks : ChunkMap) where
  -- A file of the output holds what the record promises: its path, size and digest, with the bytes of
  -- its chunks.
  pub record IsCopy (file : FileRecord) (copy : Bytes × Bytes) : Type 0 where
    pub path : copy.0 ≡ file.path
    pub canonical : IsCanonical file.path
    pub reads : read_chunks x archive chunks file.chunk_hashes [] ≡ ok copy.1
    pub size : length copy.1 ≡ file.original_size
    pub digest : x.hash copy.1 ≡ file.hash

  -- One copy for each record, in the same order, and nothing else.
  abbrev pub AreCopies : List FileRecord → List (Bytes × Bytes) → Type 0
  AreCopies [] [] = Unit {0}
  AreCopies [] (copy ∷ copies) = ⊥
  AreCopies (file ∷ files) [] = ⊥
  AreCopies (file ∷ files) (copy ∷ copies) = IsCopy file copy × AreCopies files copies

module _ (x : External) (archive : Bytes) (selected : Option Bytes) where
  -- How `extract_reader` ends.
  pub data Extracted : Option Output × Result ArchiveInfo → Type 0 where
    complete :
        (catalog : ArchiveCatalog) (o : Output)
        → scan_archive_reader archive ≡ ok catalog
        → AreCopies x archive catalog.chunks
            (reversed (matching_files selected catalog.files) [])
            o.files
        → Extracted (some o, ok catalog.info)
    nothing : (e : Error) → Extracted (none, err e)

module _ (disk : Disk) where
  files-make_directories :
      (o : Output) (paths : List Bytes) → (make_directories disk o paths).0.files ≡ o.files
  unfolding make_directories create_dir_all
  files-make_directories o [] = refl
  files-make_directories o (path ∷ paths) = elim (Result-cases (validate_archive_path path)) [
    | inr (e, h) ↦ rw (h, make_directories) refl
    | inl (p, h) ↦
        let made = create_dir_all disk o p in
        let same : made.0.files ≡ o.files = files-make_all disk o (path_parents p ++ (p ∷ [])) in
        elim (Result-cases made.1) [
          | inr (e, k) ↦ rw (h, k, make_directories) same
          | inl (u, k) ↦ rw (h, k, make_directories) (files-make_directories made.0 paths ∙ same)
        ]
  ]

module _ (disk : Disk) (x : External) (archive : Bytes) (chunks : ChunkMap) where
  step :
      (o : Output) (file : FileRecord) (done : List FileRecord) (r : Output × Result (Unit {0}))
      → Extraction disk x archive chunks o file r
      → r.1 ≡ ok tt
      → AreCopies x archive chunks done o.files
      → AreCopies x archive chunks (file ∷ done) r.0.files
  step o file done _ (kept o' k canonical fresh) h copies = rw (k.files) (
    record {
      path = refl;
      canonical = canonical;
      reads = k.reads;
      size = k.size;
      digest = k.digest;
    },
    copies,
  )
  step o file done _ (refused o' e same) h copies = absurd (err-ne-ok h)

  AreCopies-extract_files :
      IsCleaning disk
      → (o : Output) (files done : List FileRecord) → AreCopies x archive chunks done o.files
      → (extract_files disk x archive chunks o files).1 ≡ ok tt
      → AreCopies x archive chunks
          (reversed files done)
          (extract_files disk x archive chunks o files).0.files
  unfolding extract_files reversed
  AreCopies-extract_files clean o [] done copies h = copies
  AreCopies-extract_files clean o (file ∷ files) done copies h =
      let one = extract_file_record disk x archive chunks o file in
      let ended =
        extract_file_record-Extraction disk x archive chunks o file (clean.removes file.path) in
      elim (Result-cases one.1) [
        | inr (e, k) ↦ absurd (err-ne-ok (rw (k, extract_files) at h))
        | inl (u, k) ↦
            rw (k, extract_files)
              (AreCopies-extract_files clean one.0 files (file ∷ done)
                (step o file done one ended k copies) (rw (k, extract_files) at h))
      ]

module _ (disk : Disk) (clean : IsCleaning disk) (x : External) (archive : Bytes)
    (selected : Option Bytes) where
  begun :
      (exists : Bool) (chosen : ArchiveCatalog)
      → begin_extraction disk exists selected archive ≡ ok chosen
      → (catalog : ArchiveCatalog) × (scan_archive_reader archive ≡ ok catalog)
        × (select selected catalog ≡ chosen)
  unfolding begin_extraction
  begun exists chosen h =
      let (u1, e1, h1) = ⟫=-eq-ok (bail_if exists _) _ h in
      let (u2, e2, h2) = ⟫=-eq-ok (check_selected selected) _ h1 in
      let (catalog, e3, h3) = ⟫=-eq-ok (scan_archive_reader archive) _ h2 in
      let (u4, e4, h4) = ⟫=-eq-ok (check_found selected (select selected catalog)) _ h3 in
      let (u5, e5, h5) = ⟫=-eq-ok (bail_if (not disk.makes_output) create_failed) _ h4 in
      (catalog, e3, ok-injective h5)

  filled :
      (catalog : ArchiveCatalog)
      → (fill_output disk x archive catalog).1 ≡ ok tt
      → AreCopies x archive catalog.chunks
          (reversed catalog.files [])
          (fill_output disk x archive catalog).0.files
  unfolding fill_output
  filled catalog h =
      let made = make_directories disk empty_output (sort_by_depth catalog.directories) in
      let same = files-make_directories disk empty_output (sort_by_depth catalog.directories) in
      elim (Result-cases made.1) [
        | inr (e, k) ↦ absurd (err-ne-ok (rw (k, fill_output) at h))
        | inl (u, k) ↦
            rw (k, fill_output)
              (AreCopies-extract_files disk x archive catalog.chunks clean made.0 catalog.files []
                (rw same tt) (rw (k, fill_output) at h))
      ]

  ended :
      (catalog : ArchiveCatalog)
      → scan_archive_reader archive ≡ ok catalog
      → Extracted x archive selected (
          clean_output disk
            (select selected catalog).info
            (fill_output disk x archive (select selected catalog)))
  unfolding clean_output select
  ended catalog scan =
      let r = fill_output disk x archive (select selected catalog) in
      elim (Result-cases r.1) [
        | inr (e, k) ↦ rw (k, clean_output, clean.leaves r.0) (nothing e)
        | inl (u, k) ↦
            rw (k, clean_output) (complete catalog r.0 scan (filled (select selected catalog) k))
      ]

  -- Extraction is whole or leaves nothing. Either the call ends with an error, and no output directory is
  -- left of it; or it ends with the statistics of the scanned catalog, and the files below the new
  -- directory are one for each record of the catalog that the selection matches, the last record first:
  -- each at its record's path, which is canonical, with the size and the digest of the record and the
  -- bytes of its chunks. The removals behind a failure succeed.
  pub extract_reader-Extracted :
      (exists : Bool) → Extracted x archive selected (extract_reader disk x exists selected archive)
  unfolding extract_reader
  extract_reader-Extracted exists =
      elim (Result-cases (begin_extraction disk exists selected archive)) [
        | inr (e, h) ↦ rw (h, extract_reader) (nothing e)
        | inl (chosen, h) ↦
            let (catalog, scan, same) = begun exists chosen h in
            rw (h, extract_reader)
              (subst
                (λ (c : ArchiveCatalog).
                  Extracted x archive selected
                    (clean_output disk c.info (fill_output disk x archive c)))
                same (ended catalog scan))
      ]
