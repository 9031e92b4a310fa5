-- ===== src/Archive/RoundTrip/Scanned.antt =====
-- The scan of src/archive.rs over all that the packer has written.
use rgx.Common.{
  ℕ, suc, ◌+◌, ◌-◌, ◌≡◌, ◌≤◌, ◌<◌, refl, ap, sym, ◌∙◌, ◌++◌, append_assoc, append-nil, List, [],
  ◌∷◌, Bytes, length, length-append, ok, arith, true, eq→==, Stream, stream, le_bytes, le→leb,
}
use rgx.Format.{Footer, write_header, write_footer, read_header}
use rgx.Format.RoundTrip.{read_header-write_header}
use rgx.Archive.{External, IsExternal, ChunkMap, ArchiveCatalog, u64_limit, info_from_footer}
use rgx.Archive.Pack.{PackState, start_pack, footer_of}
use rgx.Archive.Scan.{
  ScanState, start_scan, scan_round, scan_loop, done, sum_sizes, checked_sub, footer_eq,
  expected_footer, check_catalog, validate_path_tree, scan_archive_reader,
}
use rgx.Archive.Scan.Rounds.{footer_round, checked_add_ok}
use rgx.Archive.RoundTrip.Stored.{keys, total, length-keys}
use rgx.Archive.RoundTrip.Reached.{Reached, header_bytes}
use rgx.Archive.RoundTrip.Entries.{Agree, no_files}

Reached-start : Reached header_bytes start_scan
unfolding write_header le_bytes
Reached-start = record {
  rounds = 0;
  body = [];
  out_body = sym (append-nil header_bytes);
  few = omega arith;
  scans = λ fuel rest. ap (λ (n : ℕ). scan_loop n start_scan (stream 16 rest)) (omega arith);
}

loop_done :
    (fuel : ℕ) (σ σ' : ScanState) (f : Footer) (s s' : Stream)
    → scan_round σ s ≡ ok (done f σ', s')
    → scan_loop (suc fuel) σ s ≡ ok ((f, σ'), s')
unfolding scan_loop
loop_done fuel σ σ' f s s' e = rw (e, scan_loop)

sum_sizes-total :
    (chunks : ChunkMap) (acc : ℕ)
    → acc + total chunks < u64_limit
    → sum_sizes acc chunks ≡ ok (acc + total chunks)
unfolding sum_sizes total
sum_sizes-total [] acc h = ap ok (omega arith)
sum_sizes-total ((key, m) ∷ chunks) acc h =
    rw (checked_add_ok acc m.original_size (omega arith))
      (sum_sizes-total chunks (acc + m.original_size) (omega arith) ∙ ap ok (omega arith))

-- Footers with the same fields are equal to the test of the scan.
footer_eq_refl : (f : Footer) → footer_eq f f ≡ true
unfolding footer_eq
footer_eq_refl f =
    rw
      (
        eq→== f.entries f.entries refl,
        eq→== f.files f.files refl,
        eq→== f.directories f.directories refl,
        eq→== f.unique_chunks f.unique_chunks refl,
        eq→== f.chunk_references f.chunk_references refl,
        eq→== f.original_bytes f.original_bytes refl,
        eq→== f.stored_payload_bytes f.stored_payload_bytes refl,
        eq→== f.deduplicated_bytes f.deduplicated_bytes refl,
      )
      refl

checked_sub_ok : (a b : ℕ) → b ≤ a → checked_sub a b ≡ ok (a - b)
unfolding checked_sub
checked_sub_ok a b h = rw (le→leb b a h)

module _ (x : External) (law : IsExternal x) (level : ℕ) (Known : Bytes → Type 0)
    (no_collision : (a b : Bytes) → Known a → Known b → x.hash a ≡ x.hash b → a ≡ b) where
  abbrev Agrees : PackState → ScanState → List (Bytes × Bytes) → Type 0
  Agrees = Agree x law level Known no_collision

  pub Agree-start : Agrees start_pack start_scan []
  unfolding keys total
  Agree-start = record {
    reached = Reached-start;
    seen = refl;
    referenced = refl;
    stored = tt;
    unique = refl;
    stored_bytes = refl;
    references = refl;
    entries = refl;
    files = refl;
    directories = refl;
    original = refl;
    logical = refl;
    deduplicated = refl;
    bounds =
        unfold footer_of in
        record {
          entries = omega arith;
          files = omega arith;
          directories = omega arith;
          unique_chunks = omega arith;
          chunk_references = omega arith;
          original_bytes = omega arith;
          stored_payload_bytes = omega arith;
          deduplicated_bytes = omega arith;
        };
    catalogued = no_files;
  }

  module _ (st : PackState) (σ : ScanState) (packed : List (Bytes × Bytes))
      (a : Agrees st σ packed) where
    expected : expected_footer σ (σ.referenced_logical_bytes - total σ.chunks) ≡ footer_of st.stats
    unfolding expected_footer footer_of
    expected =
        let same : st.stats.deduplicated_bytes + total σ.chunks - total σ.chunks
            ≡ st.stats.deduplicated_bytes =
          omega arith in
        rw
          (
            ← a.entries,
            ← a.files,
            ← a.directories,
            ← a.unique,
            ← a.references,
            ← a.original,
            ← a.stored_bytes,
            ← a.deduplicated,
            same,
          )
          refl

    abbrev pub catalog : ArchiveCatalog
    catalog = record {
      chunks = σ.chunks;
      files = σ.files;
      directories = σ.directories;
      info = info_from_footer (footer_of st.stats);
    }

    count : length σ.referenced_chunks ≡ length σ.chunks
    count = ap length (sym a.referenced ∙ a.seen) ∙ length-keys σ.chunks

    -- The checks behind the footer pass, if no file is a parent.
    check_catalog_ok :
        validate_path_tree σ.paths σ.file_paths ≡ ok tt
        → check_catalog (footer_of st.stats) σ [] ≡ ok catalog
    unfolding check_catalog
    check_catalog_ok tree =
        let most : total σ.chunks ≤ σ.referenced_logical_bytes = omega (arith, a.deduplicated) in
        let room : 0 + total σ.chunks < u64_limit =
          unfold footer_of in omega (arith, a.logical, a.original, a.bounds.original_bytes) in
        let size : 0 + total σ.chunks ≡ total σ.chunks = omega arith in
        rw
          (
            tree,
            eq→== _ _ count,
            sum_sizes-total σ.chunks 0 room,
            size,
            checked_sub_ok _ _ most,
            expected,
            footer_eq_refl (footer_of st.stats),
          )
          refl

    abbrev archive : Bytes
    archive = st.out ++ write_footer (footer_of st.stats)

    loop_end :
        scan_loop
          (suc (length archive))
          start_scan
          (stream 16 (a.reached.body ++ write_footer (footer_of st.stats)))
        ≡ ok ((footer_of st.stats, σ), stream (length st.out + 68) [])
    loop_end =
        let r = a.reached in
        let k = length archive - r.rounds in
        let body : length st.out ≡ length header_bytes + length r.body =
          ap length r.out_body ∙ length-append header_bytes r.body in
        let fuel : suc (length archive) ≡ r.rounds + suc k =
          omega (arith, r.few, body, length-append st.out (write_footer (footer_of st.stats))) in
        ap
          (λ (n : ℕ).
            scan_loop n start_scan (stream 16 (r.body ++ write_footer (footer_of st.stats))))
          fuel
        ∙ r.scans (suc k) (write_footer (footer_of st.stats))
        ∙ loop_done k σ σ (footer_of st.stats) _ _ (
            ap (λ (o : Bytes). scan_round σ (stream (length st.out) o))
              (sym (append-nil (write_footer (footer_of st.stats))))
            ∙ footer_round σ (footer_of st.stats) (length st.out) [] a.bounds)

    -- The whole archive is scanned to the state that the packer's state stands for.
    pub scanned :
        validate_path_tree σ.paths σ.file_paths ≡ ok tt → scan_archive_reader archive ≡ ok catalog
    unfolding scan_archive_reader
    scanned tree =
        let r = a.reached in
        let tail = r.body ++ write_footer (footer_of st.stats) in
        let whole : archive ≡ header_bytes ++ tail =
          ap (λ (o : Bytes). o ++ write_footer (footer_of st.stats)) r.out_body
          ∙ append_assoc header_bytes r.body (write_footer (footer_of st.stats)) in
        let header : read_header (stream 0 archive)
            ≡ ok (record { flags = 0 }, stream (0 + 16) tail) =
          ap (λ (o : Bytes). read_header (stream 0 o)) whole
          ∙ read_header-write_header (record { flags = 0 }) 0 tail
              (record { flags = omega arith }) in
        let moved : 0 + 16 ≡ 16 = omega arith in
        rw (header, moved, loop_end, check_catalog_ok tree) refl
