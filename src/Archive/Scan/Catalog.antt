-- ===== src/Archive/Scan/Catalog.antt =====
-- What holds of the catalog that `scan_archive_reader` of src/archive.rs returns.
use rgx.Common.{
  ℕ, zero, suc, ◌+◌, ◌≡◌, refl, ap, ◌∙◌, subst, [], ◌∷◌, ◌++◌, Bool, true, false, not, Bytes,
  bytes_eq, All, All-append, length, length-append, arith, Bool-cases, inl, inr, ◌==◌, Result, ok,
  err, bail_if, bail_if-eq-ok, ⟫=-eq-ok, ok-injective, err-ne-ok, Result-cases, Parser, Stream,
  stream, pure, lift, ◌>>=◌, ◌>>◌, reconstructed_size_mismatch, skip, stream_position, >>=-eq-ok,
}
use rgx.Format.{
  Footer, FileHeader, read_header, read_tag, read_chunk_header_after_magic,
  read_directory_header_after_magic, read_file_header_after_magic, read_footer_after_magic,
  chunk_magic, directory_magic, file_magic, footer_magic,
}
use rgx.Archive.{ArchiveCatalog, FileRecord, checked_add, info_from_footer, validate_chunk_header}
use rgx.Archive.Paths.{read_path, validate_archive_path}
use rgx.Archive.Paths.Accepted.{IsCanonical, validate-IsCanonical}
use rgx.Archive.Read.Checked.{checked_add-eq}
use rgx.Archive.Scan.{
  RefState, ScanState, start_scan, insert_chunk, scan_chunk, scan_path, scan_directory, scan_file,
  Round, more, done, scan_record, scan_round, scan_loop, require_tag, check_catalog, footer_eq,
  expected_footer, sum_sizes, checked_sub, validate_path_tree, scan_archive_reader, scan_references,
  start_references,
}

-- The invariant of the loop: every entry is counted, and every path is canonical.
record IsCounted (σ : ScanState) : Type 0 where
  files : σ.file_count ≡ length σ.files
  directories : σ.directory_count ≡ length σ.directories
  entries : σ.entries ≡ σ.file_count + σ.directory_count
  file_paths : All (λ f. IsCanonical f.path) σ.files
  directory_paths : All IsCanonical σ.directories

start_scan-IsCounted : IsCounted start_scan
start_scan-IsCounted = record {
  files = refl;
  directories = refl;
  entries = refl;
  file_paths = tt;
  directory_paths = tt;
}

not-false : (a : Bool) → not a ≡ false → a ≡ true
not-false true h = refl
not-false false h = cc

lift-eq-ok : {A : Type 0} (r : Result A) (s s' : Stream) (a : A) → lift r s ≡ ok (a, s') → r ≡ ok a
lift-eq-ok (ok b) s s' a h = ap ok (ap (λ (t : _ × Stream). t.0) (ok-injective h))
lift-eq-ok (err e) s s' a h = cc

scan_path-IsCanonical :
    (σ : ScanState) (n : ℕ) (s s' : Stream) (path : Bytes)
    → scan_path σ n s ≡ ok (path, s')
    → IsCanonical path
unfolding scan_path
scan_path-IsCanonical σ n s s' path h =
    let (p, s1, e1, h1) = >>=-eq-ok (read_path n) _ s s' path h in
    let (q, s2, e2, h2) = >>=-eq-ok (lift (validate_archive_path p)) _ s1 s' path h1 in
    let (u, s3, e3, h3) = >>=-eq-ok (lift (bail_if _ _)) _ s2 s' path h2 in
    subst IsCanonical (ap (λ (t : Bytes × Stream). t.0) (ok-injective h3))
      (validate-IsCanonical p q (lift-eq-ok (validate_archive_path p) s1 s2 q e2)).1

-- The state that a `pure` at the end returns.
pure-eq-ok : {A : Type 0} (a b : A) (s s' : Stream) → pure a s ≡ ok (b, s') → a ≡ b
pure-eq-ok a b s s' h = ap (λ (t : _ × Stream). t.0) (ok-injective h)

scan_chunk-IsCounted :
    (σ σ' : ScanState) (s s' : Stream) → IsCounted σ → scan_chunk σ s ≡ ok (σ', s') → IsCounted σ'
unfolding scan_chunk
scan_chunk-IsCounted σ σ' s s' v h =
    let (header, s1, e1, h1) = >>=-eq-ok read_chunk_header_after_magic _ s s' σ' h in
    let (u2, s2, e2, h2) = >>=-eq-ok (lift (validate_chunk_header header)) _ s1 s' σ' h1 in
    let (offset, s3, e3, h3) = >>=-eq-ok stream_position _ s2 s' σ' h2 in
    let (u4, s4, e4, h4) = >>=-eq-ok (lift (bail_if _ _)) _ s3 s' σ' h3 in
    let (u5, s5, e5, h5) = >>=-eq-ok (skip header.payload_size) _ s4 s' σ' h4 in
    let (stored, s6, e6, h6) = >>=-eq-ok (lift (checked_add _ _)) _ s5 s' σ' h5 in
    let (chunks, s7, e7, h7) = >>=-eq-ok (lift (insert_chunk _ _ _)) _ s6 s' σ' h6 in
    subst IsCounted (pure-eq-ok _ σ' s7 s' h7) (record {
      files = v.files;
      directories = v.directories;
      entries = v.entries;
      file_paths = v.file_paths;
      directory_paths = v.directory_paths;
    })

scan_directory-IsCounted :
    (σ σ' : ScanState) (s s' : Stream)
    → IsCounted σ
    → scan_directory σ s ≡ ok (σ', s')
    → IsCounted σ'
unfolding scan_directory
scan_directory-IsCounted σ σ' s s' v h =
    let (header, s1, e1, h1) = >>=-eq-ok read_directory_header_after_magic _ s s' σ' h in
    let (path, s2, e2, h2) = >>=-eq-ok (scan_path σ header.path_len) _ s1 s' σ' h1 in
    let (entries, s3, e3, h3) = >>=-eq-ok (lift (checked_add σ.entries 1)) _ s2 s' σ' h2 in
    let (count, s4, e4, h4) = >>=-eq-ok (lift (checked_add σ.directory_count 1)) _ s3 s' σ' h3 in
    let added = checked_add-eq _ _ _ (lift-eq-ok (checked_add σ.entries 1) s2 s3 entries e3) in
    let counted =
      checked_add-eq _ _ _ (lift-eq-ok (checked_add σ.directory_count 1) s3 s4 count e4) in
    subst IsCounted (pure-eq-ok _ σ' s4 s' h4) (record {
      files = v.files;
      directories =
          omega (arith, v.directories, counted.0, length-append σ.directories (path ∷ []));
      entries = omega (arith, v.entries, added.0, counted.0);
      file_paths = v.file_paths;
      directory_paths =
          All-append IsCanonical σ.directories (path ∷ []) v.directory_paths
            (scan_path-IsCanonical σ header.path_len s1 s2 path e2, tt);
    })

IsCounted-file :
    (σ τ : ScanState) (file : FileRecord)
    → IsCounted σ
    → IsCanonical file.path
    → τ.files ≡ σ.files ++ (file ∷ [])
    → τ.directories ≡ σ.directories
    → τ.file_count ≡ σ.file_count + 1
    → τ.directory_count ≡ σ.directory_count
    → τ.entries ≡ σ.entries + 1
    → IsCounted τ
IsCounted-file σ τ file v canonical files directories count same entries = record {
  files = rw files (omega (arith, count, v.files, length-append σ.files (file ∷ [])));
  directories = rw directories (omega (arith, same, v.directories));
  entries = omega (arith, entries, count, same, v.entries);
  file_paths = rw files (
      All-append (λ (f : FileRecord). IsCanonical f.path) σ.files (file ∷ []) v.file_paths
        (canonical, tt));
  directory_paths = rw directories v.directory_paths;
}

-- The end of `scan_file`, behind the references.
scan_file_end :
    (σ σ' : ScanState) (header : FileHeader) (path : Bytes) (ρ : RefState) (s s' : Stream)
    → IsCounted σ
    → IsCanonical path
    → (do
      lift
          (bail_if (not (ρ.reconstructed_size == header.original_size)) reconstructed_size_mismatch)
      original_bytes ← lift (checked_add σ.original_bytes header.original_size)
      entries ← lift (checked_add σ.entries 1)
      file_count ← lift (checked_add σ.file_count 1)
      pure (record σ {
        referenced_chunks = ρ.referenced_chunks;
        files =
            σ.files
            ++ (record {
              path = path;
              original_size = header.original_size;
              hash = header.hash;
              chunk_hashes = ρ.chunk_hashes;
            }
                ∷ []);
        paths = path ∷ σ.paths;
        file_paths = path ∷ σ.file_paths;
        entries = entries;
        file_count = file_count;
        chunk_references = ρ.chunk_references;
        original_bytes = original_bytes;
        referenced_logical_bytes = ρ.referenced_logical_bytes;
      }))
        s
      ≡ ok (σ', s')
    → IsCounted σ'
scan_file_end σ σ' header path ρ s s' v canonical h =
    let (u5, s5, e5, h5) = >>=-eq-ok (lift (bail_if _ _)) _ s s' σ' h in
    let (original, s6, e6, h6) =
      >>=-eq-ok (lift (checked_add σ.original_bytes header.original_size)) _ s5 s' σ' h5 in
    let (entries, s7, e7, h7) = >>=-eq-ok (lift (checked_add σ.entries 1)) _ s6 s' σ' h6 in
    let (count, s8, e8, h8) = >>=-eq-ok (lift (checked_add σ.file_count 1)) _ s7 s' σ' h7 in
    let added = (checked_add-eq _ _ _ (lift-eq-ok (checked_add σ.entries 1) s6 s7 entries e7)).0 in
    let counted =
      (checked_add-eq _ _ _ (lift-eq-ok (checked_add σ.file_count 1) s7 s8 count e8)).0 in
    subst IsCounted (pure-eq-ok _ σ' s8 s' h8) (
      IsCounted-file σ _
        (record {
          path = path;
          original_size = header.original_size;
          hash = header.hash;
          chunk_hashes = ρ.chunk_hashes;
        })
        v canonical refl refl counted refl added)

scan_file-IsCounted :
    (σ σ' : ScanState) (s s' : Stream) → IsCounted σ → scan_file σ s ≡ ok (σ', s') → IsCounted σ'
unfolding scan_file
scan_file-IsCounted σ σ' s s' v h =
    let (header, s1, e1, h1) = >>=-eq-ok read_file_header_after_magic _ s s' σ' h in
    let (u2, s2, e2, h2) = >>=-eq-ok (lift (bail_if _ _)) _ s1 s' σ' h1 in
    let (path, s3, e3, h3) = >>=-eq-ok (scan_path σ header.path_len) _ s2 s' σ' h2 in
    let (ρ, s4, e4, h4) =
      >>=-eq-ok (scan_references σ.chunks header.chunk_count (start_references σ)) _ s3 s' σ' h3 in
    scan_file_end σ σ' header path ρ s4 s' v (scan_path-IsCanonical σ header.path_len s2 s3 path e3)
      h4

abbrev state_of : Round → ScanState
state_of (more σ) = σ
state_of (done footer σ) = σ

goes_on :
    (m : Parser ScanState) (s s' : Stream) (r : Round)
    → ((σ' : ScanState) (t : Stream) → m s ≡ ok (σ', t) → IsCounted σ')
    → (do σ' ← m; pure (more σ')) s ≡ ok (r, s')
    → IsCounted (state_of r)
goes_on m s s' r f h =
    let (σ', t, e, h1) = >>=-eq-ok m _ s s' r h in
    subst (λ (q : Round). IsCounted (state_of q)) (pure-eq-ok (more σ') r t s' h1) (f σ' t e)

ends :
    (σ : ScanState) (s s' : Stream) (r : Round)
    → IsCounted σ
    → (do footer ← read_footer_after_magic; pure (done footer σ)) s ≡ ok (r, s')
    → IsCounted (state_of r)
ends σ s s' r v h =
    let (footer, t, e, h1) = >>=-eq-ok read_footer_after_magic _ s s' r h in
    subst (λ (q : Round). IsCounted (state_of q)) (pure-eq-ok (done footer σ) r t s' h1) v

scan_record-IsCounted :
    (σ : ScanState) (tag : Bytes) (s s' : Stream) (r : Round)
    → IsCounted σ
    → scan_record σ tag s ≡ ok (r, s')
    → IsCounted (state_of r)
unfolding scan_record
scan_record-IsCounted σ tag s s' r v h = elim (Bool-cases (bytes_eq tag chunk_magic)) [
  | inl e ↦ goes_on (scan_chunk σ) s s' r (λ σ' t. scan_chunk-IsCounted σ σ' s t v) (rw e at h)
  | inr e ↦ elim (Bool-cases (bytes_eq tag directory_magic)) [
    | inl e2 ↦
        goes_on (scan_directory σ) s s' r (λ σ' t. scan_directory-IsCounted σ σ' s t v)
          (rw (e, e2) at h)
    | inr e2 ↦ elim (Bool-cases (bytes_eq tag file_magic)) [
      | inl e3 ↦
          goes_on (scan_file σ) s s' r (λ σ' t. scan_file-IsCounted σ σ' s t v)
            (rw (e, e2, e3) at h)
      | inr e3 ↦ elim (Bool-cases (bytes_eq tag footer_magic)) [
        | inl e4 ↦ ends σ s s' r v (rw (e, e2, e3, e4) at h)
        | inr e4 ↦ absurd (err-ne-ok (rw (e, e2, e3, e4) at h))
      ]
    ]
  ]
]

scan_round-IsCounted :
    (σ : ScanState) (s s' : Stream) (r : Round)
    → IsCounted σ
    → scan_round σ s ≡ ok (r, s')
    → IsCounted (state_of r)
unfolding scan_round
scan_round-IsCounted σ s s' r v h =
    let (found, s1, e1, h1) = >>=-eq-ok read_tag _ s s' r h in
    let (tag, s2, e2, h2) = >>=-eq-ok (lift (require_tag found)) _ s1 s' r h1 in
    scan_record-IsCounted σ tag s2 s' r v h2

scan_loop-IsCounted :
    (fuel : ℕ) (σ σ' : ScanState) (s s' : Stream) (footer : Footer)
    → IsCounted σ
    → scan_loop fuel σ s ≡ ok ((footer, σ'), s')
    → IsCounted σ'
unfolding scan_loop
scan_loop-IsCounted zero σ σ' s s' footer v h = absurd (err-ne-ok h)
scan_loop-IsCounted (suc fuel) σ σ' s s' footer v h = elim (Result-cases (scan_round σ s)) [
  | inr (e, q) ↦ absurd (err-ne-ok (rw (q, scan_loop) at h))
  | inl ((more τ, t), q) ↦
      scan_loop-IsCounted fuel τ σ' t s' footer (scan_round-IsCounted σ s t (more τ) v q)
        (rw (q, scan_loop) at h)
  | inl ((done end τ, t), q) ↦
      subst IsCounted
        (ap (λ (r : (Footer × ScanState) × Stream). r.0.1) (ok-injective (rw (q, scan_loop) at h)))
        (scan_round-IsCounted σ s t (done end τ) v q)
]

-- What holds of a catalog: the statistics count its entries, files, directories and chunks, and all its
-- paths are canonical.
pub record IsCatalog (c : ArchiveCatalog) : Type 0 where
  pub files : c.info.files ≡ length c.files
  pub directories : c.info.directories ≡ length c.directories
  pub entries : c.info.entries ≡ length c.files + length c.directories
  pub chunks : c.info.unique_chunks ≡ length c.chunks
  pub file_paths : All (λ f. IsCanonical f.path) c.files
  pub directory_paths : All IsCanonical c.directories

footer_counts :
    (a b : Footer)
    → footer_eq a b ≡ true
    → (a.entries ≡ b.entries)
      × (a.files ≡ b.files)
      × (a.directories ≡ b.directories)
      × (a.unique_chunks ≡ b.unique_chunks)
unfolding footer_eq
footer_counts a b h = ground arith

check_catalog-IsCatalog :
    (footer : Footer) (σ : ScanState) (trailing : Bytes) (c : ArchiveCatalog)
    → IsCounted σ
    → check_catalog footer σ trailing ≡ ok c
    → IsCatalog c
unfolding check_catalog info_from_footer expected_footer
check_catalog-IsCatalog footer σ trailing c v h =
    let (u1, e1, h1) = ⟫=-eq-ok (bail_if (not (length trailing == 0)) _) _ h in
    let (u2, e2, h2) = ⟫=-eq-ok (validate_path_tree σ.paths σ.file_paths) _ h1 in
    let (u3, e3, h3) =
      ⟫=-eq-ok (bail_if (not (length σ.referenced_chunks == length σ.chunks)) _) _ h2 in
    let (sum, e4, h4) = ⟫=-eq-ok (sum_sizes 0 σ.chunks) _ h3 in
    let (deduplicated, e5, h5) = ⟫=-eq-ok (checked_sub σ.referenced_logical_bytes sum) _ h4 in
    let (u6, e6, h6) =
      ⟫=-eq-ok (bail_if (not (footer_eq footer (expected_footer σ deduplicated))) _) _ h5 in
    let (entries, files, directories, chunks) =
      footer_counts footer (expected_footer σ deduplicated) (not-false _ (bail_if-eq-ok _ _ e6)) in
    subst IsCatalog (ok-injective h6) (record {
      files = files ∙ v.files;
      directories = directories ∙ v.directories;
      entries = omega (arith, entries, v.entries, v.files, v.directories);
      chunks = chunks;
      file_paths = v.file_paths;
      directory_paths = v.directory_paths;
    })

-- Each catalog that `scan_archive_reader` returns is consistent: its statistics count its entries, files,
-- directories and chunks, and all its paths are canonical.
pub scan_archive_reader-IsCatalog :
    (archive : Bytes) (c : ArchiveCatalog) → scan_archive_reader archive ≡ ok c → IsCatalog c
unfolding scan_archive_reader
scan_archive_reader-IsCatalog archive c h =
    let (hs, e1, h1) = ⟫=-eq-ok (read_header (stream 0 archive)) _ h in
    let (((footer, σ), s), e2, h2) =
      ⟫=-eq-ok (scan_loop (suc (length archive)) start_scan hs.1) _ h1 in
    check_catalog-IsCatalog footer σ s.rest c
      (scan_loop-IsCounted (suc (length archive)) start_scan σ hs.1 s footer start_scan-IsCounted
        e2)
      h2
