-- ===== src/Archive/RoundTrip/Cuts.antt =====
-- The loops of `pack_file`: what has been read is the chunks so far and the chunk that is filling.
use rgx.Common.{
  ◌==◌, ℕ, ◌+◌, ◌≡◌, ◌≤◌, ◌<◌, refl, ap, sym, ◌∙◌, ◌++◌, append_assoc, append-nil, List, [], ◌∷◌,
  Bytes, length, length-append, ok, arith, concat, concat-append, false, ⟫=-eq-ok, ok-injective,
  err-ne-ok, ◌⊎◌, inl, inr, Bool-cases, subst,
}
use mathlib.Core.List.{map, map-append}
use rgx.Chunker.{max_chunk_size, should_cut, push, RollingHash}
use rgx.Archive.{External, IsExternal, ChunkMap, checked_add}
use rgx.Archive.Pack.{
  FileState, Reads, eof, failed, block, write_or_reference_chunk, push_chunk, push_byte, push_bytes,
  read_blocks, flush_chunk,
}
use rgx.Archive.Read.Checked.{checked_add-eq}
use rgx.Archive.Scan.{ScanState}
use rgx.Archive.RoundTrip.Files.{InFile, InFile-write}

-- A chunk is cut at the latest when it has the greatest size.
pub should_cut_max : (state len : ℕ) → should_cut state len ≡ false → len < max_chunk_size
unfolding should_cut
should_cut_max state len h = ground arith

nonzero_test : (n : ℕ) → 0 < n → (n == 0) ≡ false
nonzero_test n h = ground arith

-- What the reads of a file return, up to the end: a read of no bytes ends it.
unfoldable pub contents : Reads → Bytes
contents eof = []
contents failed = []
contents (block [] reads) = []
contents (block (b ∷ bs) reads) = (b ∷ bs) ++ contents reads

module _ (x : External) (law : IsExternal x) (level : ℕ) (Known : Bytes → Type 0)
    (no_collision : (a b : Bytes) → Known a → Known b → x.hash a ≡ x.hash b → a ≡ b)
    (σ0 : ScanState) (content : Bytes)
    (pieces : (before d after : Bytes) → before ++ (d ++ after) ≡ content → Known d) where
  -- `pushed` has been read, into the chunks `cut` and the bytes of `fs.chunk`.
  pub record Cutting (fs : FileState) (pushed : Bytes) : Type 0 where
    pub chunks : ChunkMap
    pub cut : List Bytes
    pub inside : InFile x law level Known no_collision σ0 fs.pack chunks cut
    pub hashes : fs.chunk_hashes ≡ map x.hash cut
    pub bytes : pushed ≡ concat cut ++ fs.chunk

  Cutting-push_chunk :
      (fs fs' : FileState) (pushed rest : Bytes)
      → Cutting fs pushed
      → pushed ++ rest ≡ content
      → 0 < length fs.chunk
      → length fs.chunk ≤ max_chunk_size
      → push_chunk x level fs ≡ ok fs'
      → Cutting fs' pushed
        × (fs'.chunk ≡ [])
        × (fs'.hashed ≡ fs.hashed)
        × (fs'.file_size ≡ fs.file_size)
  unfolding push_chunk
  Cutting-push_chunk fs fs' pushed rest c whole pos short h =
      let (st, e, h1) =
        ⟫=-eq-ok (write_or_reference_chunk x level fs.chunk fs.pack) _
          (rw (nonzero_test _ pos) at h) in
      let known : Known fs.chunk = pieces (concat c.cut) fs.chunk rest (
        sym (append_assoc (concat c.cut) fs.chunk rest)
        ∙ ap (λ (o : Bytes). o ++ rest) (sym c.bytes)
        ∙ whole) in
      let (after, inside) =
        InFile-write x law level Known no_collision σ0 fs.pack c.chunks c.cut fs.chunk c.inside
          known st pos short e in
      subst
        (λ (g : FileState).
          Cutting g pushed × (g.chunk ≡ []) × (g.hashed ≡ fs.hashed) × (g.file_size ≡ fs.file_size))
        (ok-injective h1)
        (
          record {
            chunks = after;
            cut = c.cut ++ (fs.chunk ∷ []);
            inside = inside;
            hashes =
                ap (λ (l : List Bytes). l ++ (x.hash fs.chunk ∷ [])) c.hashes
                ∙ sym (map-append x.hash c.cut (fs.chunk ∷ []));
            bytes = c.bytes ∙ rw (concat-append c.cut (fs.chunk ∷ []), append-nil, append-nil) refl;
          },
          refl,
          refl,
          refl,
        )

  -- What the loops keep beside the cut: no chunk is full, and the digest and the size are untouched.
  pub record Filling (fs fs' : FileState) (pushed : Bytes) : Type 0 where
    pub cutting : Cutting fs' pushed
    pub room : length fs'.chunk < max_chunk_size
    pub hashed : fs'.hashed ≡ fs.hashed
    pub file_size : fs'.file_size ≡ fs.file_size

  added_byte :
      (fs : FileState) (pushed : Bytes) (byte : ℕ) (h : RollingHash)
      → Cutting fs pushed
      → Cutting (record fs { rolling = h; chunk = fs.chunk ++ (byte ∷ []) }) (pushed ++ (byte ∷ []))
  added_byte fs pushed byte h c = record {
    chunks = c.chunks;
    cut = c.cut;
    inside = c.inside;
    hashes = c.hashes;
    bytes =
        ap (λ (o : Bytes). o ++ (byte ∷ [])) c.bytes
        ∙ append_assoc (concat c.cut) fs.chunk (byte ∷ []);
  }

  Filling-push_byte :
      (fs fs' : FileState) (pushed rest : Bytes) (byte : ℕ)
      → Cutting fs pushed
      → length fs.chunk < max_chunk_size
      → pushed ++ (byte ∷ rest) ≡ content
      → push_byte x level fs byte ≡ ok fs'
      → Filling fs fs' (pushed ++ (byte ∷ []))
  unfolding push_byte
  Filling-push_byte fs fs' pushed rest byte c room whole h =
      let added = added_byte fs pushed byte (push fs.rolling byte) c in
      let len : length (fs.chunk ++ (byte ∷ [])) ≡ length fs.chunk + 1 =
        length-append fs.chunk (byte ∷ []) in
      elim (Bool-cases
        (should_cut (push fs.rolling byte).state (length (fs.chunk ++ (byte ∷ []))))) [
          | inl full ↦
              let (c', empty, hashed, size) =
                Cutting-push_chunk _ fs' (pushed ++ (byte ∷ [])) rest added
                  (append_assoc pushed (byte ∷ []) rest ∙ whole) (omega (arith, len))
                  (omega (arith, len)) (rw full at h) in
              record {
                cutting = c';
                room = rw empty (omega arith);
                hashed = hashed;
                file_size = size;
              }
          | inr open_chunk ↦
              subst (λ (g : FileState). Filling fs g (pushed ++ (byte ∷ [])))
                (ok-injective (rw open_chunk at h))
                (record {
                  cutting = added;
                  room = should_cut_max _ _ open_chunk;
                  hashed = refl;
                  file_size = refl;
                })
        ]

  Filling-push_bytes :
      (bytes : Bytes) (fs fs' : FileState) (pushed rest : Bytes)
      → Cutting fs pushed
      → length fs.chunk < max_chunk_size
      → pushed ++ (bytes ++ rest) ≡ content
      → push_bytes x level fs bytes ≡ ok fs'
      → Filling fs fs' (pushed ++ bytes)
  unfolding push_bytes
  Filling-push_bytes [] fs fs' pushed rest c room whole h =
      subst (λ (g : FileState). Filling fs g (pushed ++ [])) (ok-injective h)
        (rw (append-nil pushed)
          (record { cutting = c; room = room; hashed = refl; file_size = refl }))
  Filling-push_bytes (byte ∷ bytes) fs fs' pushed rest c room whole h =
      let (mid, e, h1) = ⟫=-eq-ok (push_byte x level fs byte) _ h in
      let one = Filling-push_byte fs mid pushed (bytes ++ rest) byte c room whole e in
      let all =
        Filling-push_bytes bytes mid fs' (pushed ++ (byte ∷ [])) rest one.cutting one.room
          (append_assoc pushed (byte ∷ []) (bytes ++ rest) ∙ whole) h1 in
      let same : (pushed ++ (byte ∷ [])) ++ bytes ≡ pushed ++ (byte ∷ bytes) =
        append_assoc pushed (byte ∷ []) bytes in
      record {
        cutting = subst (Cutting fs') same all.cutting;
        room = all.room;
        hashed = all.hashed ∙ one.hashed;
        file_size = all.file_size ∙ one.file_size;
      }

  -- A file whose reads are used up: all is pushed, counted and given to the hasher.
  pub record Finished (fs : FileState) : Type 0 where
    pub cutting : Cutting fs content
    pub room : length fs.chunk < max_chunk_size
    pub hashed : fs.hashed ≡ content
    pub file_size : fs.file_size ≡ length content

  Finished-here :
      (fs : FileState) (pushed : Bytes)
      → Cutting fs pushed
      → length fs.chunk < max_chunk_size
      → pushed ++ [] ≡ content
      → fs.hashed ≡ pushed
      → fs.file_size ≡ length pushed
      → Finished fs
  Finished-here fs pushed c room whole hashed size =
      let same : pushed ≡ content = sym (append-nil pushed) ∙ whole in
      record {
        cutting = subst (Cutting fs) same c;
        room = room;
        hashed = hashed ∙ same;
        file_size = size ∙ ap length same;
      }

  pub Finished-read_blocks :
      (reads : Reads) (fs fs' : FileState) (pushed : Bytes)
      → Cutting fs pushed
      → length fs.chunk < max_chunk_size
      → pushed ++ contents reads ≡ content
      → fs.hashed ≡ pushed
      → fs.file_size ≡ length pushed
      → read_blocks x level fs reads ≡ ok fs'
      → Finished fs'
  unfolding read_blocks contents
  Finished-read_blocks eof fs fs' pushed c room whole hashed size h =
      subst Finished (ok-injective h) (Finished-here fs pushed c room whole hashed size)
  Finished-read_blocks failed fs fs' pushed c room whole hashed size h = absurd (err-ne-ok h)
  Finished-read_blocks (block [] reads) fs fs' pushed c room whole hashed size h =
      subst Finished (ok-injective h) (Finished-here fs pushed c room whole hashed size)
  Finished-read_blocks (block (b ∷ bs) reads) fs fs' pushed c room whole hashed size h =
      let (n, e1, h1) = ⟫=-eq-ok (checked_add fs.file_size (length (b ∷ bs))) _ h in
      let start : FileState = record fs { hashed = fs.hashed ++ (b ∷ bs); file_size = n } in
      let (mid, e2, h2) = ⟫=-eq-ok (push_bytes x level start (b ∷ bs)) _ h1 in
      let begun : Cutting start pushed = record {
        chunks = c.chunks;
        cut = c.cut;
        inside = c.inside;
        hashes = c.hashes;
        bytes = c.bytes;
      } in
      let filled =
        Filling-push_bytes (b ∷ bs) start mid pushed (contents reads) begun room whole e2 in
      Finished-read_blocks reads mid fs' (pushed ++ (b ∷ bs)) filled.cutting filled.room
        (append_assoc pushed (b ∷ bs) (contents reads) ∙ whole)
        (filled.hashed ∙ ap (λ (o : Bytes). o ++ (b ∷ bs)) hashed)
        (omega (
          arith,
          filled.file_size,
          (checked_add-eq fs.file_size (length (b ∷ bs)) n e1).0,
          length-append pushed (b ∷ bs),
        ))
        h2

  -- `flush_chunk` leaves no bytes behind: the chunks are the whole content.
  pub record Flushed (fs : FileState) : Type 0 where
    pub chunks : ChunkMap
    pub cut : List Bytes
    pub inside : InFile x law level Known no_collision σ0 fs.pack chunks cut
    pub hashes : fs.chunk_hashes ≡ map x.hash cut
    pub bytes : concat cut ≡ content
    pub hashed : fs.hashed ≡ content
    pub file_size : fs.file_size ≡ length content

  flushed :
      (fs : FileState)
      → Cutting fs content
      → fs.chunk ≡ []
      → fs.hashed ≡ content
      → fs.file_size ≡ length content
      → Flushed fs
  flushed fs c empty hashed size = record {
    chunks = c.chunks;
    cut = c.cut;
    inside = c.inside;
    hashes = c.hashes;
    bytes =
        sym (append-nil (concat c.cut))
        ∙ ap (λ (o : Bytes). concat c.cut ++ o) (sym empty)
        ∙ sym c.bytes;
    hashed = hashed;
    file_size = size;
  }

  List-cases : (l : Bytes) → (l ≡ []) ⊎ ((b : ℕ) × (bs : Bytes) × (l ≡ b ∷ bs))
  List-cases [] = inl refl
  List-cases (b ∷ bs) = inr (b, bs, refl)

  pub Flushed-flush_chunk :
      (fs fs' : FileState) → Finished fs → flush_chunk x level fs ≡ ok fs' → Flushed fs'
  unfolding flush_chunk
  Flushed-flush_chunk fs fs' f h = elim (List-cases fs.chunk) [
    | inl e ↦
        subst Flushed (ok-injective (rw (e, flush_chunk) at h))
          (flushed fs f.cutting e f.hashed f.file_size)
    | inr (b, bs, e) ↦
        let (c, empty, hashed, size) =
          Cutting-push_chunk fs fs' content [] f.cutting (append-nil content) (rw e (omega arith))
            (omega (arith, f.room)) (rw (e, flush_chunk) at h) in
        flushed fs' c empty (hashed ∙ f.hashed) (size ∙ f.file_size)
  ]
