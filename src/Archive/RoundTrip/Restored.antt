-- ===== src/Archive/RoundTrip/Restored.antt =====
-- What `pack_to_writer` of src/archive.rs writes is scanned, verified and read.
use rgx.Common.{
  ℕ, ◌≡◌, refl, ap, sym, ◌∙◌, ◌++◌, List, [], ◌∷◌, Bytes, bytes_eq_refl, length, ok, err, not, leb,
  ◌&&◌, All, Option, none, some, Result, ⟫=-eq-ok, bail_if, ok-injective, subst, eq→==,
  entry_not_found,
}
use rgx.Format.{write_footer}
use rgx.Archive.{External, IsExternal, ArchiveInfo, ArchiveCatalog, FileRecord, info_from_footer}
use rgx.Archive.Paths.{validate_archive_path}
use rgx.Archive.Pack.{PackState, WalkEntry, start_pack, footer_of, pack_entries, pack_to_writer}
use rgx.Archive.Scan.{ScanState, start_scan, validate_path_tree, scan_archive_reader}
use rgx.Archive.Read.{verify_reader, find_file, read_entry_reader, verified_bytes}
use rgx.Archive.Read.Checked.{verified_bytes_checked}
use rgx.Archive.RoundTrip.Stored.{AllStored, AllStored-append}
use rgx.Archive.RoundTrip.Entries.{Agree}
use rgx.Archive.RoundTrip.Walk.{
  IsKnown, IsStored, walk_files, walk_paths, walk_file_paths, Agree-pack_entries,
}
use rgx.Archive.RoundTrip.Scanned.{Agree-start, catalog, scanned}
use rgx.Archive.RoundTrip.ReadBack.{
  lookup, neither, both, find_file-Same, verified_all, extracted_content,
}

-- The bytes that stand together in the content of one of the files.
pub data Piece (d : Bytes) : List (Bytes × Bytes) → Type 0 where
  here :
      {fs : List (Bytes × Bytes)} (path content before after : Bytes)
      → before ++ (d ++ after) ≡ content
      → Piece d ((path, content) ∷ fs)
  there : {fs : List (Bytes × Bytes)} (f : Bytes × Bytes) → Piece d fs → Piece d (f ∷ fs)

-- What `read_entry_reader` is to return for the outcome of a lookup.
unfoldable pub found_or_missing : Option Bytes → Result Bytes
found_or_missing none = err entry_not_found
found_or_missing (some content) = ok content

module _ (x : External) (law : IsExternal x) (level : ℕ) (walk : List WalkEntry) where
  abbrev pub IsPiece : Bytes → Type 0
  IsPiece d = Piece d (walk_files walk)

  module _ (no_collision : (a b : Bytes) → IsPiece a → IsPiece b → x.hash a ≡ x.hash b → a ≡ b)
      (stored : IsStored [] walk)
      (tree : validate_path_tree (walk_paths [] walk) (walk_file_paths [] walk) ≡ ok tt) where
    All-IsKnown :
        (fs : List (Bytes × Bytes))
        → ((d : Bytes) → Piece d fs → IsPiece d)
        → All (IsKnown x law level IsPiece no_collision) fs
    All-IsKnown [] incl = tt
    All-IsKnown (f ∷ fs) incl = (
      λ before d after e. incl d (here f.0 f.1 before after e),
      All-IsKnown fs (λ d p. incl d (there f p)),
    )

    -- The state of the scan behind everything that was packed.
    record Outcome (archive : Bytes) (info : ArchiveInfo) : Type 0 where
      st : PackState
      σ : ScanState
      agree : Agree x law level IsPiece no_collision st σ (walk_files walk)
      whole : st.out ++ write_footer (footer_of st.stats) ≡ archive
      same_info : info_from_footer (footer_of st.stats) ≡ info
      tree_ok : validate_path_tree σ.paths σ.file_paths ≡ ok tt

    outcome :
        (archive : Bytes) (info : ArchiveInfo)
        → pack_to_writer x level (some walk) ≡ ok (archive, info)
        → Outcome archive info
    unfolding pack_to_writer
    outcome archive info h =
        let (u, e1, h1) = ⟫=-eq-ok (bail_if (not (leb 1 level && leb level 22)) _) _ h in
        let (st, e2, h2) = ⟫=-eq-ok (pack_entries x level start_pack walk) _ h1 in
        let (σ, agree, paths, files) =
          Agree-pack_entries x law level IsPiece no_collision walk start_pack st start_scan []
            (Agree-start x law level IsPiece no_collision) stored
            (All-IsKnown (walk_files walk) (λ d p. p)) e2 in
        let pair = ok-injective h2 in
        record {
          st = st;
          σ = σ;
          agree = agree;
          whole = ap (λ (p : Bytes × ArchiveInfo). p.0) pair;
          same_info = ap (λ (p : Bytes × ArchiveInfo). p.1) pair;
          tree_ok = rw (paths, files) tree;
        }

    module _ (archive : Bytes) (info : ArchiveInfo) (o : Outcome archive info) where
      abbrev found_catalog : ArchiveCatalog
      found_catalog = catalog x law level IsPiece no_collision o.st o.σ (walk_files walk) o.agree

      scan_ok : scan_archive_reader archive ≡ ok found_catalog
      scan_ok =
          ap scan_archive_reader (sym o.whole)
          ∙ scanned x law level IsPiece no_collision o.st o.σ (walk_files walk) o.agree o.tree_ok

      stored_chunks : AllStored x IsPiece archive o.σ.chunks
      stored_chunks =
          subst (λ b. AllStored x IsPiece b o.σ.chunks) o.whole
            (AllStored-append x IsPiece o.st.out (write_footer (footer_of o.st.stats)) o.σ.chunks
              o.agree.stored)

      verify_ok : verify_reader x archive ≡ ok info
      unfolding verify_reader
      verify_ok =
          rw
            (
              scan_ok,
              verified_all x law level IsPiece no_collision archive o.σ.chunks stored_chunks
                  o.agree.catalogued,
              o.same_info,
            )
            refl

      read_found :
          (path name content : Bytes) (r : FileRecord)
          → validate_archive_path path ≡ ok path
          → find_file x o.σ.files path ≡ ok r
          → verified_bytes x archive o.σ.chunks r ≡ ok content
          → read_entry_reader x archive path ≡ ok content
      unfolding read_entry_reader
      read_found path name content r v f e =
          let (size, digest, reads) = verified_bytes_checked x archive o.σ.chunks r content e in
          rw
            (
              v,
              scan_ok,
              f,
              reads,
              eq→== (length content) r.original_size size,
              digest,
              bytes_eq_refl r.hash,
            )
            refl

      read_missing :
          (path : Bytes)
          → validate_archive_path path ≡ ok path
          → find_file x o.σ.files path ≡ err entry_not_found
          → read_entry_reader x archive path ≡ err entry_not_found
      unfolding read_entry_reader
      read_missing path v f = rw (v, scan_ok, f) refl

      read_ok :
          (path : Bytes)
          → validate_archive_path path ≡ ok path
          → read_entry_reader x archive path ≡ found_or_missing (lookup (walk_files walk) path)
      unfolding found_or_missing
      read_ok path v =
          elim (find_file-Same x law level IsPiece no_collision archive o.σ.chunks stored_chunks
            path o.agree.catalogued) [
              | neither e1 e2 ↦ rw e2 (read_missing path v e1)
              | both r name content e1 e2 d ↦ rw e2 (
                  read_found path name content r v e1 (
                    extracted_content x law level IsPiece no_collision archive o.σ.chunks
                      stored_chunks r name content d))
            ]

    -- An archive that `pack_to_writer` has written is accepted by `verify_reader`, which returns the
    -- statistics that packing returned. This holds for a walk whose stored paths are UTF-8, accepted
    -- by `validate_archive_path` and distinct, where no file is the parent of an entry, and as long
    -- as no two different pieces of the files have the same digest.
    pub verify_reader-pack_to_writer :
        (archive : Bytes) (info : ArchiveInfo)
        → pack_to_writer x level (some walk) ≡ ok (archive, info)
        → verify_reader x archive ≡ ok info
    verify_reader-pack_to_writer archive info h = verify_ok archive info (outcome archive info h)

    -- Reading from an archive that `pack_to_writer` has written, by a path that
    -- `validate_archive_path` accepts, returns the content of the packed file with this path, and the
    -- error for a missing entry if there is none. The walk and the digests are as for verifying.
    pub read_entry_reader-pack_to_writer :
        (archive : Bytes) (info : ArchiveInfo) (path : Bytes)
        → pack_to_writer x level (some walk) ≡ ok (archive, info)
        → validate_archive_path path ≡ ok path
        → read_entry_reader x archive path ≡ found_or_missing (lookup (walk_files walk) path)
    read_entry_reader-pack_to_writer archive info path h v =
        read_ok archive info (outcome archive info h) path v
