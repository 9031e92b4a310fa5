-- ===== src/Archive/RoundTrip/Sizes.antt =====
-- The sizes of the chunks that `pack_file` of src/archive.rs cuts a file into.
use rgx.Common.{
  ℕ, ◌+◌, ◌≡◌, ◌≤◌, ◌<◌, refl, ap, sym, ◌∙◌, subst, List, [], ◌∷◌, ◌++◌, append_assoc, append-nil,
  Bytes, All, All-append, length, length-append, concat, concat-append, arith, ◌==◌, true, false,
  Bool-cases, inl, inr, ok, ⟫=-eq-ok, ok-injective, err-ne-ok,
}
use mathlib.Core.List.{map, map-append}
use rgx.Chunker.{min_chunk_size, max_chunk_size, should_cut, push}
use rgx.Archive.{External, checked_add}
use rgx.Archive.Pack.{
  FileState, Reads, eof, failed, block, write_or_reference_chunk, push_chunk, push_byte, push_bytes,
  read_blocks,
}
use rgx.Archive.RoundTrip.Cuts.{contents, should_cut_max}

-- The sizes of a chunk that is cut before the end of the file.
abbrev pub IsFullChunk : Bytes → Type 0
IsFullChunk chunk = (min_chunk_size ≤ length chunk) × (length chunk ≤ max_chunk_size)

should_cut_min : (state len : ℕ) → should_cut state len ≡ true → min_chunk_size ≤ len
unfolding should_cut
should_cut_min state len h = ground arith

module _ (x : External) (level : ℕ) where
  -- `bytes` went through the state `fs` into the chunks `cut` and what `fs'` still holds.
  pub record CutInto (fs fs' : FileState) (bytes : Bytes) : Type 0 where
    pub cut : List Bytes
    pub hashes : fs'.chunk_hashes ≡ fs.chunk_hashes ++ map x.hash cut
    pub whole : fs.chunk ++ bytes ≡ concat cut ++ fs'.chunk
    pub full : All IsFullChunk cut
    pub room : length fs'.chunk < max_chunk_size

  CutInto-trans :
      (f g h : FileState) (xs ys : Bytes) → CutInto f g xs → CutInto g h ys → CutInto f h (xs ++ ys)
  CutInto-trans f g h xs ys a b = record {
    cut = a.cut ++ b.cut;
    hashes =
        b.hashes
        ∙ ap (λ (l : List Bytes). l ++ map x.hash b.cut) a.hashes
        ∙ append_assoc f.chunk_hashes (map x.hash a.cut) (map x.hash b.cut)
        ∙ ap (λ (l : List Bytes). f.chunk_hashes ++ l) (sym (map-append x.hash a.cut b.cut));
    whole =
        sym (append_assoc f.chunk xs ys)
        ∙ ap (λ (t : Bytes). t ++ ys) a.whole
        ∙ append_assoc (concat a.cut) g.chunk ys
        ∙ ap (λ (t : Bytes). concat a.cut ++ t) b.whole
        ∙ sym (append_assoc (concat a.cut) (concat b.cut) h.chunk)
        ∙ ap (λ (t : Bytes). t ++ h.chunk) (sym (concat-append a.cut b.cut));
    full = All-append IsFullChunk a.cut b.cut a.full b.full;
    room = b.room;
  }

  CutInto-nothing : (fs : FileState) → length fs.chunk < max_chunk_size → CutInto fs fs []
  CutInto-nothing fs h = record {
    cut = [];
    hashes = sym (append-nil fs.chunk_hashes);
    whole = append-nil fs.chunk;
    full = tt;
    room = h;
  }

  push_byte-CutInto :
      (fs fs' : FileState) (byte : ℕ)
      → length fs.chunk < max_chunk_size
      → push_byte x level fs byte ≡ ok fs'
      → CutInto fs fs' (byte ∷ [])
  unfolding push_byte push_chunk
  push_byte-CutInto fs fs' byte room h =
      let chunk = fs.chunk ++ (byte ∷ []) in
      let rolling = push fs.rolling byte in
      let len : length chunk ≡ length fs.chunk + 1 = length-append fs.chunk (byte ∷ []) in
      elim (Bool-cases (should_cut rolling.state (length chunk))) [
        | inr going ↦
            subst (λ (g : FileState). CutInto fs g (byte ∷ [])) (ok-injective (rw going at h))
              (record {
                cut = [];
                hashes = sym (append-nil fs.chunk_hashes);
                whole = refl;
                full = tt;
                room = should_cut_max rolling.state (length chunk) going;
              })
        | inl now ↦
            let some_bytes : (length chunk == 0) ≡ false = ground (arith, len) in
            let (st, e, h1) =
              ⟫=-eq-ok (write_or_reference_chunk x level chunk fs.pack) _
                (rw (now, some_bytes) at h) in
            subst (λ (g : FileState). CutInto fs g (byte ∷ [])) (ok-injective h1)
              (record {
                cut = chunk ∷ [];
                hashes = refl;
                whole = sym (append-nil (concat (chunk ∷ [])) ∙ append-nil chunk);
                full = (
                  (should_cut_min rolling.state (length chunk) now, omega (arith, len, room)),
                  tt,
                );
                room = omega arith;
              })
      ]

  push_bytes-CutInto :
      (fs fs' : FileState) (bytes : Bytes)
      → length fs.chunk < max_chunk_size
      → push_bytes x level fs bytes ≡ ok fs'
      → CutInto fs fs' bytes
  unfolding push_bytes
  push_bytes-CutInto fs fs' [] room h =
      subst (λ (g : FileState). CutInto fs g []) (ok-injective h) (CutInto-nothing fs room)
  push_bytes-CutInto fs fs' (byte ∷ bytes) room h =
      let (g, e, h1) = ⟫=-eq-ok (push_byte x level fs byte) _ h in
      let first = push_byte-CutInto fs g byte room e in
      CutInto-trans fs g fs' (byte ∷ []) bytes first (push_bytes-CutInto g fs' bytes first.room h1)

  -- The reads of a file, behind a chunk that holds less than 1 MiB, are cut into chunks of 64 KiB at least
  -- and 1 MiB at most, whose digests are entered in their order; less than 1 MiB is left for the last
  -- one. No byte is lost, and what the chunk held before belongs to the first one.
  pub read_blocks-CutInto :
      (fs fs' : FileState) (reads : Reads)
      → length fs.chunk < max_chunk_size
      → read_blocks x level fs reads ≡ ok fs'
      → CutInto fs fs' (contents reads)
  unfolding read_blocks contents
  read_blocks-CutInto fs fs' eof room h =
      subst (λ (g : FileState). CutInto fs g []) (ok-injective h) (CutInto-nothing fs room)
  read_blocks-CutInto fs fs' failed room h = absurd (err-ne-ok h)
  read_blocks-CutInto fs fs' (block [] reads) room h =
      subst (λ (g : FileState). CutInto fs g []) (ok-injective h) (CutInto-nothing fs room)
  read_blocks-CutInto fs fs' (block (b ∷ bs) reads) room h =
      let (size, e1, h1) = ⟫=-eq-ok (checked_add fs.file_size (length (b ∷ bs))) _ h in
      let fs1 : FileState = record fs { hashed = fs.hashed ++ (b ∷ bs); file_size = size } in
      let (g, e2, h2) = ⟫=-eq-ok (push_bytes x level fs1 (b ∷ bs)) _ h1 in
      let first = push_bytes-CutInto fs1 g (b ∷ bs) room e2 in
      let start : CutInto fs g (b ∷ bs) = record {
        cut = first.cut;
        hashes = first.hashes;
        whole = first.whole;
        full = first.full;
        room = first.room;
      } in
      CutInto-trans fs g fs' (b ∷ bs) (contents reads) start
        (read_blocks-CutInto g fs' reads first.room h2)
