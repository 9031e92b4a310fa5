-- ===== src/Archive/RoundTrip/Files.antt =====
-- The simulation inside one file: each chunk that the packer writes is one round of the scan.
use rgx.Common.{
  ℕ, ◌+◌, ◌≡◌, ◌≤◌, ◌<◌, refl, ap, sym, ◌∙◌, ◌++◌, append_assoc, append-nil, List, [], ◌∷◌, Bytes,
  length, length-append, ok, arith, stream, concat, concat-append, All, All-append, none, some,
  true, false, ltb, le_bytes, length-le_bytes, ◌⟫=◌, ⟫=-eq-ok, ok-injective, inl, inr, Bool-cases,
  Option-cases, subst, ltb→lt, err-ne-ok,
}
use mathlib.Core.List.{map, map-append}
use rgx.Format.{IsFooter, ChunkHeader, write_chunk_header, compression_store, compression_zstd}
use rgx.Chunker.{max_chunk_size}
use rgx.Archive.{
  External, IsExternal, ChunkMeta, ChunkMap, get_chunk, contains, insert, checked_add, u64_limit,
  validate_chunk_header,
}
use rgx.Archive.Pack.{
  footer_of, PackState, choose_payload, write_new_chunk, write_or_reference_chunk,
}
use rgx.Archive.Read.{decode_payload}
use rgx.Archive.Read.Checked.{checked_add-eq}
use rgx.Archive.Scan.{ScanState, more, scan_round}
use rgx.Archive.Scan.Rounds.{chunk_round, Refers, nothing, refer, insert_all, meta_of}
use rgx.Archive.RoundTrip.Stored.{
  keys, total, absent, present, get_chunk-cons, get_chunk-cons_self, StoredChunk, AllStored,
  AllStored-append, stored_at,
}
use rgx.Archive.RoundTrip.Reached.{Reached, Reached-round}

-- The scan state between the chunks of a file that began at `σ0`.
abbrev pub between : ScanState → ChunkMap → ℕ → ScanState
between σ0 chunks stored = record σ0 { chunks = chunks; stored_payload_bytes = stored }

Refers-cons :
    (chunks : ChunkMap) {hashes : List Bytes} {n : ℕ} (key : Bytes) (m : ChunkMeta)
    → get_chunk chunks key ≡ none
    → Refers chunks hashes n
    → Refers ((key, m) ∷ chunks) hashes n
Refers-cons chunks key m fresh nothing = nothing
Refers-cons chunks key m fresh (refer h n len found r) =
    refer h n len (get_chunk-cons chunks key h m n fresh found) (Refers-cons chunks key m fresh r)

Refers-snoc :
    (chunks : ChunkMap) {hashes : List Bytes} {n : ℕ} (h : Bytes) (m : ChunkMeta)
    → length h ≡ 32
    → get_chunk chunks h ≡ some m
    → Refers chunks hashes n
    → Refers chunks (hashes ++ (h ∷ [])) (n + m.original_size)
Refers-snoc chunks h m len found nothing =
    subst (Refers chunks (h ∷ [])) (omega arith) (refer h m len found nothing)
Refers-snoc chunks h m len found (refer {hashes} h' n len' found' r) =
    subst (Refers chunks (h' ∷ (hashes ++ (h ∷ [])))) (omega arith)
      (refer h' n len' found' (Refers-snoc chunks h m len found r))

insert_all-snoc :
    (set xs : List Bytes) (h : Bytes)
    → insert_all set (xs ++ (h ∷ [])) ≡ insert (insert_all set xs) h
unfolding insert_all
insert_all-snoc set [] h = refl
insert_all-snoc set (y ∷ ys) h = insert_all-snoc (insert set y) ys h

length-concat_snoc :
    (cut : List Bytes) (d : Bytes)
    → length (concat (cut ++ (d ∷ []))) ≡ length (concat cut) + length d
length-concat_snoc cut d = rw (concat-append cut (d ∷ []), append-nil, length-append) refl

pub length-write_chunk_header :
    (h : ChunkHeader) → length h.hash ≡ 32 → length (write_chunk_header h) ≡ 56
unfolding write_chunk_header
length-write_chunk_header h e = omega (
  arith,
  length-append (le_bytes 8 h.original_size) (le_bytes 8 h.payload_size ++ h.hash),
  length-append (le_bytes 8 h.payload_size) h.hash,
  length-le_bytes 8 h.original_size,
  length-le_bytes 8 h.payload_size,
)

insert_present : (set : List Bytes) (h : Bytes) → contains set h ≡ true → insert set h ≡ set
unfolding insert
insert_present set h e = rw e

insert_absent : (set : List Bytes) (h : Bytes) → contains set h ≡ false → insert set h ≡ h ∷ set
unfolding insert
insert_absent set h e = rw e

module _ (x : External) (law : IsExternal x) (level : ℕ) (Known : Bytes → Type 0)
    (no_collision : (a b : Bytes) → Known a → Known b → x.hash a ≡ x.hash b → a ≡ b) where
  -- The packer's state `st` between two chunks, when `cut` are the chunks of the file so far.
  pub record InFile (σ0 : ScanState) (st : PackState) (chunks : ChunkMap) (cut : List Bytes)
      : Type 0 where
    pub reached : Reached st.out (between σ0 chunks st.stats.stored_bytes)
    pub seen : st.seen_chunks ≡ keys chunks
    pub referenced : st.seen_chunks ≡ insert_all σ0.referenced_chunks (map x.hash cut)
    pub stored : AllStored x Known st.out chunks
    pub known : All Known cut
    pub extends :
        (h : Bytes) (m : ChunkMeta) → get_chunk σ0.chunks h ≡ some m → get_chunk chunks h ≡ some m
    pub bounds : IsFooter (footer_of st.stats)
    pub refers : Refers chunks (map x.hash cut) (length (concat cut))
    pub unique : st.stats.unique_chunks ≡ length chunks
    pub references : st.stats.chunk_references ≡ σ0.chunk_references + length cut
    pub entries : st.stats.entries ≡ σ0.entries
    pub files : st.stats.files ≡ σ0.file_count
    pub directories : st.stats.directories ≡ σ0.directory_count
    pub original : st.stats.original_bytes ≡ σ0.original_bytes
    pub deduplicated :
        st.stats.deduplicated_bytes + total chunks
        ≡ σ0.referenced_logical_bytes + length (concat cut)

  module _ (σ0 : ScanState) (st : PackState) (chunks : ChunkMap) (cut : List Bytes) (d : Bytes)
      (v : InFile σ0 st chunks cut) (known : Known d) where
    hashes_snoc : map x.hash (cut ++ (d ∷ [])) ≡ map x.hash cut ++ (x.hash d ∷ [])
    hashes_snoc = map-append x.hash cut (d ∷ [])

    inserted :
        insert_all σ0.referenced_chunks (map x.hash (cut ++ (d ∷ [])))
        ≡ insert st.seen_chunks (x.hash d)
    inserted =
        ap (insert_all σ0.referenced_chunks) hashes_snoc
        ∙ insert_all-snoc σ0.referenced_chunks (map x.hash cut) (x.hash d)
        ∙ ap (λ (set : List Bytes). insert set (x.hash d)) (sym v.referenced)

    abbrev refer_state : ℕ → ℕ → PackState
    refer_state references deduplicated = record st {
      stats = record st.stats { chunk_references = references; deduplicated_bytes = deduplicated };
    }

    -- The packer has seen the digest: it only counts.
    InFile-refer :
        (references deduplicated : ℕ)
        → contains st.seen_chunks (x.hash d) ≡ true
        → references ≡ st.stats.chunk_references + 1
        → deduplicated ≡ st.stats.deduplicated_bytes + length d
        → IsFooter (footer_of (refer_state references deduplicated).stats)
        → InFile σ0 (refer_state references deduplicated) chunks (cut ++ (d ∷ []))
    InFile-refer references deduplicated seen er ed bounds =
        let (m, found) = present chunks (x.hash d) (rw v.seen at seen) in
        let s = stored_at x Known st.out chunks (x.hash d) m v.stored found in
        let same : s.chunk ≡ d = no_collision s.chunk d s.known known (sym s.key) in
        let size : m.original_size ≡ length d = s.holds.original ∙ ap length same in
        let grown : length (concat (cut ++ (d ∷ []))) ≡ length (concat cut) + m.original_size =
          length-concat_snoc cut d ∙ ap (λ (n : ℕ). length (concat cut) + n) (sym size) in
        record {
          reached = v.reached;
          seen = v.seen;
          referenced = sym (insert_present _ _ seen) ∙ sym inserted;
          stored = v.stored;
          known = All-append Known cut (d ∷ []) v.known (known, tt);
          extends = v.extends;
          bounds = bounds;
          refers =
              rw (hashes_snoc, grown)
                (Refers-snoc chunks (x.hash d) m (law.hash_length d) found v.refers);
          unique = v.unique;
          references = omega (arith, er, v.references, length-append cut (d ∷ []));
          entries = v.entries;
          files = v.files;
          directories = v.directories;
          original = v.original;
          deduplicated = omega (arith, ed, v.deduplicated, length-concat_snoc cut d);
        }

    abbrev chunk_header : ℕ → Bytes → ChunkHeader
    chunk_header compression payload = record {
      compression = compression;
      original_size = length d;
      payload_size = length payload;
      hash = x.hash d;
    }

    abbrev chunk_record : ℕ → Bytes → Bytes
    chunk_record compression payload =
        write_chunk_header (chunk_header compression payload) ++ payload

    abbrev new_state : ℕ → Bytes → ℕ → ℕ → ℕ → PackState
    new_state compression payload references unique stored = record {
      out = st.out ++ chunk_record compression payload;
      seen_chunks = x.hash d ∷ st.seen_chunks;
      stats = record st.stats {
        chunk_references = references;
        unique_chunks = unique;
        stored_bytes = stored;
      };
    }

    -- What `choose_payload` makes of a compressed chunk.
    record IsPayload (compression : ℕ) (payload : Bytes) : Type 0 where
      byte : compression < 256
      fits : length payload ≤ max_chunk_size
      valid : validate_chunk_header (chunk_header compression payload) ≡ ok tt
      decodes :
          (offset : ℕ)
          → decode_payload x (meta_of (chunk_header compression payload) offset) payload ≡ ok d

    -- The packer has not seen the digest: it writes the chunk.
    module _ (compression : ℕ) (payload : Bytes) (good : IsPayload compression payload)
        (references unique stored : ℕ) (short : length d ≤ max_chunk_size)
        (absent_seen : contains st.seen_chunks (x.hash d) ≡ false)
        (er : references ≡ st.stats.chunk_references + 1) (eu : unique ≡ st.stats.unique_chunks + 1)
        (es : stored ≡ st.stats.stored_bytes + length payload)
        (room : st.stats.stored_bytes + length payload < u64_limit)
        (bounds : IsFooter
          (footer_of (new_state compression payload references unique stored).stats)) where
      header : ChunkHeader
      header = chunk_header compression payload

      offset : ℕ
      offset = length st.out + 56

      fresh : get_chunk chunks (x.hash d) ≡ none
      fresh = absent chunks (x.hash d) (rw v.seen at absent_seen)

      abbrev chunks' : ChunkMap
      chunks' = (x.hash d, meta_of (chunk_header compression payload) (length st.out + 56)) ∷ chunks

      record_length : length (chunk_record compression payload) ≡ 56 + length payload
      record_length = omega (
        arith,
        length-append (write_chunk_header (chunk_header compression payload)) payload,
        length-write_chunk_header (chunk_header compression payload) (law.hash_length d),
      )

      round :
          (rest : Bytes)
          → scan_round
              (between σ0 chunks st.stats.stored_bytes)
              (stream (length st.out) (chunk_record compression payload ++ rest))
            ≡ ok (
              more (between σ0 chunks' stored),
              stream (length st.out + length (chunk_record compression payload)) rest,
            )
      round rest =
          rw (append_assoc, es)
            (chunk_round (between σ0 chunks st.stats.stored_bytes)
                (chunk_header compression payload) payload (length st.out) rest
                (record {
                  compression = good.byte;
                  original_size = omega arith;
                  payload_size = omega (arith, good.fits);
                  hash = law.hash_length d;
                })
                good.valid (omega (arith, good.fits)) refl fresh room
              ∙ ap
                  (λ (p : ℕ). ok (
                    more (between σ0 chunks' (st.stats.stored_bytes + length payload)),
                    stream p rest,
                  ))
                  (omega (arith, record_length)))

      kept :
          StoredChunk x Known
            (st.out ++ chunk_record compression payload)
            (x.hash d, meta_of (chunk_header compression payload) (length st.out + 56))
      kept = record {
        chunk = d;
        known = known;
        key = refl;
        holds = record {
          before = st.out ++ write_chunk_header (chunk_header compression payload);
          payload = payload;
          after = [];
          split = rw (append-nil payload) (
              sym (
                append_assoc st.out (write_chunk_header (chunk_header compression payload))
                  payload));
          offset = omega (
            arith,
            length-append st.out (write_chunk_header (chunk_header compression payload)),
            length-write_chunk_header (chunk_header compression payload) (law.hash_length d),
          );
          size = refl;
          original = refl;
          decoded = good.decodes (length st.out + 56);
        };
      }

      InFile-new :
          InFile σ0
            (new_state compression payload references unique stored)
            chunks'
            (cut ++ (d ∷ []))
      unfolding keys total
      InFile-new = record {
        reached =
            Reached-round st.out (chunk_record compression payload) _ _
              (omega (arith, record_length)) round v.reached;
        seen = ap (λ (set : List Bytes). x.hash d ∷ set) v.seen;
        referenced = sym (insert_absent _ _ absent_seen) ∙ sym inserted;
        known = All-append Known cut (d ∷ []) v.known (known, tt);
        extends = λ h m e. get_chunk-cons chunks (x.hash d) h _ m fresh (v.extends h m e);
        bounds = bounds;
        stored = (kept, AllStored-append x Known st.out _ chunks v.stored);
        refers =
            rw (hashes_snoc, length-concat_snoc cut d)
              (Refers-snoc chunks' (x.hash d) _ (law.hash_length d)
                (get_chunk-cons_self chunks (x.hash d) _)
                (Refers-cons chunks (x.hash d) _ fresh v.refers));
        unique = omega (arith, eu, v.unique);
        references = omega (arith, er, v.references, length-append cut (d ∷ []));
        entries = v.entries;
        files = v.files;
        directories = v.directories;
        original = v.original;
        deduplicated = omega (arith, v.deduplicated, length-concat_snoc cut d);
      }

    -- Either payload that `choose_payload` takes is one that the scan accepts and the reader decodes.
    zstd-IsPayload :
        (compressed : Bytes)
        → x.compress d level ≡ some compressed
        → length d ≤ max_chunk_size
        → length compressed < length d
        → IsPayload compression_zstd compressed
    unfolding validate_chunk_header decode_payload
    zstd-IsPayload compressed e short less =
        let pos = law.compress_nonempty d compressed level e in
        record {
          byte = omega arith;
          fits = omega arith;
          valid = ground arith;
          decodes = λ offset. rw (law.decompress-compress d compressed level e);
        }

    stored-IsPayload : 0 < length d → length d ≤ max_chunk_size → IsPayload compression_store d
    unfolding validate_chunk_header decode_payload
    stored-IsPayload pos short = record {
      byte = omega arith;
      fits = omega arith;
      valid = ground arith;
      decodes = λ offset. refl;
    }

    refer_bounds :
        (references deduplicated : ℕ)
        → references < u64_limit
        → deduplicated < u64_limit
        → IsFooter (footer_of (refer_state references deduplicated).stats)
    unfolding footer_of
    refer_bounds references deduplicated a b = record {
      entries = v.bounds.entries;
      files = v.bounds.files;
      directories = v.bounds.directories;
      unique_chunks = v.bounds.unique_chunks;
      chunk_references = a;
      original_bytes = v.bounds.original_bytes;
      stored_payload_bytes = v.bounds.stored_payload_bytes;
      deduplicated_bytes = b;
    }

    new_bounds :
        (references unique stored : ℕ)
        → references < u64_limit
        → unique < u64_limit
        → stored < u64_limit
        → IsFooter (footer_of (new_state 0 [] references unique stored).stats)
    unfolding footer_of
    new_bounds references unique stored a b c = record {
      entries = v.bounds.entries;
      files = v.bounds.files;
      directories = v.bounds.directories;
      unique_chunks = b;
      chunk_references = a;
      original_bytes = v.bounds.original_bytes;
      stored_payload_bytes = c;
      deduplicated_bytes = v.bounds.deduplicated_bytes;
    }

    Written : PackState → Type 0
    Written st' = (after : ChunkMap) × InFile σ0 st' after (cut ++ (d ∷ []))

    Written-payload :
        (compression : ℕ) (payload : Bytes) (references : ℕ) (st' : PackState)
        → IsPayload compression payload
        → length d ≤ max_chunk_size
        → contains st.seen_chunks (x.hash d) ≡ false
        → references ≡ st.stats.chunk_references + 1
        → references < u64_limit
        → (checked_add st.stats.unique_chunks 1 ⟫= λ unique.
            checked_add st.stats.stored_bytes (length payload) ⟫= λ stored.
            ok (new_state compression payload references unique stored))
          ≡ ok st'
        → Written st'
    unfolding Written
    Written-payload compression payload references st' good short fresh er er' h =
        let (unique, e1, h1) = ⟫=-eq-ok (checked_add st.stats.unique_chunks 1) _ h in
        let (stored, e2, h2) = ⟫=-eq-ok (checked_add st.stats.stored_bytes (length payload)) _ h1 in
        let (es, room) = checked_add-eq _ _ stored e2 in
        let after : ChunkMap =
          (x.hash d, meta_of (chunk_header compression payload) (length st.out + 56)) ∷ chunks in
        (
          after,
          subst (λ s. InFile σ0 s after (cut ++ (d ∷ []))) (ok-injective h2)
              (InFile-new compression payload good references unique stored short fresh er
                (checked_add-eq _ _ unique e1).0 es room
                (new_bounds references unique stored er'
                  (omega (arith, checked_add-eq st.stats.unique_chunks 1 unique e1))
                  (omega arith))),
        )

    Written-new :
        (references : ℕ) (st' : PackState)
        → 0 < length d
        → length d ≤ max_chunk_size
        → contains st.seen_chunks (x.hash d) ≡ false
        → references ≡ st.stats.chunk_references + 1
        → references < u64_limit
        → write_new_chunk x level d (record st {
          seen_chunks = x.hash d ∷ st.seen_chunks;
          stats = record st.stats { chunk_references = references };
        })
          ≡ ok st'
        → Written st'
    unfolding write_new_chunk choose_payload
    Written-new references st' pos short fresh er er' h = elim (Option-cases (x.compress d level)) [
      | inl e ↦ absurd (err-ne-ok (rw (e, write_new_chunk) at h))
      | inr (compressed, e) ↦ elim (Bool-cases (ltb (length compressed) (length d))) [
        | inl less ↦
            Written-payload compression_zstd compressed references st'
              (zstd-IsPayload compressed e short (ltb→lt _ _ less)) short fresh er er'
              (rw (e, write_new_chunk, less) at h)
        | inr not_less ↦
            Written-payload compression_store d references st' (stored-IsPayload pos short) short
              fresh er er' (rw (e, write_new_chunk, not_less) at h)
      ]
    ]

    -- Writing one more chunk keeps the simulation.
    pub InFile-write :
        (st' : PackState)
        → 0 < length d
        → length d ≤ max_chunk_size
        → write_or_reference_chunk x level d st ≡ ok st'
        → (after : ChunkMap) × InFile σ0 st' after (cut ++ (d ∷ []))
    unfolding write_or_reference_chunk Written
    InFile-write st' pos short h =
        let (references, e, h1) = ⟫=-eq-ok (checked_add st.stats.chunk_references 1) _ h in
        let (er, _) = checked_add-eq _ _ references e in
        let er' : references < u64_limit =
          omega (arith, checked_add-eq st.stats.chunk_references 1 references e) in
        elim (Bool-cases (contains st.seen_chunks (x.hash d))) [
          | inl seen ↦
              let (n, e2, h2) =
                ⟫=-eq-ok (checked_add st.stats.deduplicated_bytes (length d)) _ (rw seen at h1) in
              (
                chunks,
                subst (λ s. InFile σ0 s chunks (cut ++ (d ∷ []))) (ok-injective h2)
                    (InFile-refer references n seen er (checked_add-eq _ _ n e2).0 (
                      refer_bounds references n er' (
                        omega
                          (arith, checked_add-eq st.stats.deduplicated_bytes (length d) n e2)))),
              )
          | inr fresh ↦ Written-new references st' pos short fresh er er' (rw fresh at h1)
        ]
