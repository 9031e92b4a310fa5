-- ===== src/Archive/RoundTrip/Packed.antt =====
-- A file that is packed becomes a record of the catalog that describes it.
use rgx.Common.{
  ℕ, ◌+◌, ◌*◌, ◌≡◌, ◌≤◌, ◌^◌, refl, ap, sym, ◌∙◌, ◌++◌, List, [], ◌∷◌, Bytes, length, length-append,
  ok, arith, concat, false, not, ltb, stream, some, ⟫=-eq-ok, bail_if, bail_if-eq-ok, ok-injective,
  subst, ltb→le,
}
use rgx.Format.{write_file_header}
use rgx.Archive.{
  External, IsExternal, ChunkMeta, ChunkMap, FileRecord, get_chunk, contains, checked_add,
  max_chunks_per_file,
}
use rgx.Archive.Pack.{
  PackState, FileState, Reads, footer_of, start_file, read_blocks, flush_chunk, finish_file,
  pack_file,
}
use rgx.Archive.Read.Checked.{checked_add-eq}
use rgx.Archive.Scan.{ScanState, more}
use rgx.Archive.Scan.Rounds.{
  IsStorable, file_round, file_record, file_header, with_file, Refers, nothing, refer, insert_all,
}
use rgx.Archive.RoundTrip.Stored.{AllStored-append}
use rgx.Archive.RoundTrip.Reached.{Reached-round}
use rgx.Archive.RoundTrip.Files.{between}
use rgx.Archive.RoundTrip.Cuts.{
  Cutting, Flushed, Flushed-flush_chunk, Finished-read_blocks, contents,
}
use rgx.Archive.RoundTrip.Entries.{
  Describes, Catalogued, no_files, one_more, Agree, InFile-start, length-write_file_header,
  length-map_hash, length-concat_hashes,
}

abbrev Extends : ChunkMap → ChunkMap → Type 0
Extends before after =
    (h : Bytes) (m : ChunkMeta) → get_chunk before h ≡ some m → get_chunk after h ≡ some m

Refers-Extends :
    (before after : ChunkMap) {hashes : List Bytes} {n : ℕ}
    → Extends before after
    → Refers before hashes n
    → Refers after hashes n
Refers-Extends before after ext nothing = nothing
Refers-Extends before after ext (refer h m len found r) =
    refer h m len (ext h m found) (Refers-Extends before after ext r)

module _ (x : External) (law : IsExternal x) (level : ℕ) (Known : Bytes → Type 0)
    (no_collision : (a b : Bytes) → Known a → Known b → x.hash a ≡ x.hash b → a ≡ b) where
  abbrev Described : ChunkMap → FileRecord → Bytes → Bytes → Type 0
  Described = Describes x law level Known no_collision

  abbrev Files : ChunkMap → List FileRecord → List (Bytes × Bytes) → Type 0
  Files = Catalogued x law level Known no_collision

  Describes-Extends :
      (before after : ChunkMap) (r : FileRecord) (path content : Bytes)
      → Extends before after
      → Described before r path content
      → Described after r path content
  Describes-Extends before after r path content ext d = record {
    cut = d.cut;
    named = d.named;
    hashes = d.hashes;
    known = d.known;
    refers = Refers-Extends before after ext d.refers;
    bytes = d.bytes;
    size = d.size;
    digest = d.digest;
    small = d.small;
  }

  -- One more file, when chunks may have been added to the map.
  Catalogued-snoc :
      (before after : ChunkMap) {rs : List FileRecord} {fs : List (Bytes × Bytes)} (r : FileRecord)
      (path content : Bytes)
      → Extends before after
      → Described after r path content
      → Files before rs fs
      → Files after (rs ++ (r ∷ [])) (fs ++ ((path, content) ∷ []))
  Catalogued-snoc before after r path content ext d no_files = one_more r path content d no_files
  Catalogued-snoc before after r path content ext d (one_more r' path' content' d' rest) =
      one_more r' path' content' (Describes-Extends before after r' path' content' ext d')
        (Catalogued-snoc before after r path content ext d rest)

  length-file_record :
      (path : Bytes) (hashes : List Bytes) (size : ℕ) (hash : Bytes)
      → length hash ≡ 32
      → length (concat hashes) ≡ 32 * length hashes
      → length (file_record path hashes size hash) ≡ 52 + length path + 32 * length hashes
  length-file_record path hashes size hash digest digests = omega (
    arith,
    digests,
    length-append (write_file_header (file_header path hashes size hash)) (path ++ concat hashes),
    length-append path (concat hashes),
    length-write_file_header (file_header path hashes size hash) digest,
  )

  module _ (σ : ScanState) (content : Bytes)
      (pieces : (before d after : Bytes) → before ++ (d ++ after) ≡ content → Known d)
      (fs : FileState) (f : Flushed x law level Known no_collision σ content pieces fs) where
    Refers-chunk_hashes : Refers f.chunks fs.chunk_hashes fs.file_size
    Refers-chunk_hashes =
        subst (Refers f.chunks fs.chunk_hashes) (ap length f.bytes ∙ sym f.file_size)
          (rw f.hashes f.inside.refers)

    length-chunk_hashes : length fs.chunk_hashes ≡ length f.cut
    length-chunk_hashes = ap length f.hashes ∙ length-map_hash x.hash f.cut

    length-concat_chunk_hashes : length (concat fs.chunk_hashes) ≡ 32 * length fs.chunk_hashes
    length-concat_chunk_hashes =
        rw
          (
            f.hashes,
            length-concat_hashes x.hash f.cut law.hash_length,
            length-map_hash x.hash f.cut,
          )
          refl

    abbrev recorded : Bytes → ScanState
    recorded path =
        with_file (between σ f.chunks fs.pack.stats.stored_bytes) path fs.chunk_hashes fs.file_size
          (x.hash fs.hashed)

    -- The record that `pack_file` writes at the end of a file.
    Agree-finish_file :
        (packed : List (Bytes × Bytes)) (st st' : PackState) (path : Bytes)
        → Agree x law level Known no_collision st σ packed
        → IsStorable path
        → contains σ.paths path ≡ false
        → finish_file x level path (length path) fs ≡ ok st'
        → Agree x law level Known no_collision st'
            (recorded path)
            (packed ++ ((path, content) ∷ []))
    unfolding finish_file
    Agree-finish_file packed st st' path a v fresh h =
        let (u, c1, h1) = ⟫=-eq-ok (bail_if (not (ltb (length fs.chunk_hashes) (256 ^ 4))) _) _ h in
        let (w, c2, h2) =
          ⟫=-eq-ok (bail_if (ltb max_chunks_per_file (length fs.chunk_hashes)) _) _ h1 in
        let (e, e1, h3) = ⟫=-eq-ok (checked_add fs.pack.stats.entries 1) _ h2 in
        let (n, e2, h4) = ⟫=-eq-ok (checked_add fs.pack.stats.files 1) _ h3 in
        let (o, e3, h5) = ⟫=-eq-ok (checked_add fs.pack.stats.original_bytes fs.file_size) _ h4 in
        let (ee, ee') = checked_add-eq _ _ e e1 in
        let (en, en') = checked_add-eq _ _ n e2 in
        let (eo, eo') = checked_add-eq _ _ o e3 in
        let hash = x.hash fs.hashed in
        let size : length (concat f.cut) ≡ fs.file_size = ap length f.bytes ∙ sym f.file_size in
        let len =
          length-file_record path fs.chunk_hashes fs.file_size hash (law.hash_length fs.hashed)
            length-concat_chunk_hashes in
        let count : length fs.chunk_hashes ≤ max_chunks_per_file =
          ltb→le _ _ (bail_if-eq-ok _ _ c2) in
        subst
          (λ s.
            Agree x law level Known no_collision s (recorded path)
              (packed ++ ((path, content) ∷ [])))
          (ok-injective h5)
          (record {
            reached =
                Reached-round fs.pack.out (file_record path fs.chunk_hashes fs.file_size hash)
                  (between σ f.chunks fs.pack.stats.stored_bytes) (recorded path)
                  (omega (arith, len))
                  (λ rest.
                    file_round (between σ f.chunks fs.pack.stats.stored_bytes) path fs.chunk_hashes
                      fs.file_size hash v fresh (law.hash_length fs.hashed) count
                      Refers-chunk_hashes (omega (arith, a.logical, f.inside.original, eo'))
                      (unfold footer_of in
                        omega (
                          arith, f.inside.references, f.inside.bounds.chunk_references,
                          length-chunk_hashes,
                        ))
                      (omega (arith, f.inside.original, eo')) (omega (arith, f.inside.entries, ee'))
                      (omega (arith, f.inside.files, en')) (length fs.pack.out) rest
                    ∙ ap (λ (p : ℕ). ok (more (recorded path), stream p rest)) (omega (arith, len)))
                  f.inside.reached;
            seen = f.inside.seen;
            referenced = f.inside.referenced ∙ ap (insert_all σ.referenced_chunks) (sym f.hashes);
            stored = AllStored-append x Known fs.pack.out _ f.chunks f.inside.stored;
            unique = f.inside.unique;
            stored_bytes = refl;
            references = omega (arith, f.inside.references, length-chunk_hashes);
            entries = omega (arith, ee, f.inside.entries);
            files = omega (arith, en, f.inside.files);
            directories = f.inside.directories;
            original = omega (arith, eo, f.inside.original);
            logical = omega (arith, a.logical);
            deduplicated = omega (arith, f.inside.deduplicated, size);
            bounds =
                unfold footer_of in
                record {
                  entries = omega (arith, ee, ee');
                  files = omega (arith, en, en');
                  directories = f.inside.bounds.directories;
                  unique_chunks = f.inside.bounds.unique_chunks;
                  chunk_references = f.inside.bounds.chunk_references;
                  original_bytes = omega (arith, eo, eo');
                  stored_payload_bytes = f.inside.bounds.stored_payload_bytes;
                  deduplicated_bytes = f.inside.bounds.deduplicated_bytes;
                };
            catalogued =
                Catalogued-snoc σ.chunks f.chunks _ path content f.inside.extends
                  (record {
                    cut = f.cut;
                    named = refl;
                    hashes = f.hashes;
                    known = f.inside.known;
                    refers = f.inside.refers;
                    bytes = f.bytes;
                    size = f.file_size;
                    digest = ap x.hash f.hashed;
                    small = omega (arith, eo', f.file_size);
                  })
                  a.catalogued;
          })

  -- A file goes into the catalog with what its reads returned.
  pub Agree-pack_file :
      (st st' : PackState) (σ : ScanState) (packed : List (Bytes × Bytes)) (path : Bytes)
      (reads : Reads)
      → Agree x law level Known no_collision st σ packed
      → IsStorable path
      → contains σ.paths path ≡ false
      → ((before d after : Bytes) → before ++ (d ++ after) ≡ contents reads → Known d)
      → pack_file x level path (length path) reads st ≡ ok st'
      → (σ' : ScanState) × Agree x law level Known no_collision st' σ'
          (packed ++ ((path, contents reads) ∷ []))
        × (σ'.paths ≡ path ∷ σ.paths)
        × (σ'.file_paths ≡ path ∷ σ.file_paths)
  unfolding pack_file
  Agree-pack_file st st' σ packed path reads a v fresh pieces h =
      let (fs, e1, h1) = ⟫=-eq-ok (read_blocks x level (start_file st) reads) _ h in
      let (fs', e2, h2) = ⟫=-eq-ok (flush_chunk x level fs) _ h1 in
      let content = contents reads in
      let begun : Cutting x law level Known no_collision σ content pieces (start_file st) [] =
        record {
          chunks = σ.chunks;
          cut = [];
          inside = InFile-start x law level Known no_collision st σ packed a;
          hashes = refl;
          bytes = refl;
        } in
      let finished =
        Finished-read_blocks x law level Known no_collision σ content pieces reads (start_file st)
          fs [] begun (omega arith) refl refl refl e1 in
      let f =
        Flushed-flush_chunk x law level Known no_collision σ content pieces fs fs' finished e2 in
      (
        recorded σ content pieces fs' f path,
        Agree-finish_file σ content pieces fs' f packed st st' path a v fresh h2,
        refl,
        refl,
      )
