-- ===== src/Archive/RoundTrip/ReadBack.antt =====
-- The files of a catalog that describes what was packed are read back.
use rgx.Common.{
  ℕ, ◌+◌, ◌≡◌, ◌<◌, refl, ap, sym, ◌∙◌, ◌++◌, append_assoc, append-nil, List, [], ◌∷◌, Bytes,
  bytes_eq, bytes_eq_refl, length, length-append, drop-append, ok, err, arith, concat, All, Option,
  none, some, eq→==, inl, inr, Bool-cases, subst, read_exact-append, entry_not_found, if◌then◌else◌,
}
use mathlib.Core.List.{map}
use rgx.Archive.{External, IsExternal, ChunkMap, ChunkMeta, FileRecord, get_chunk, u64_limit}
use rgx.Archive.Read.{
  read_payload, require_chunk, read_chunk_data, read_chunks_counted, verified_bytes,
  verify_file_record, verify_files, find_file,
}
use rgx.Archive.Scan.Rounds.{Refers, refer, checked_add_ok}
use rgx.Archive.RoundTrip.Stored.{Holds, AllStored, stored_at}
use rgx.Archive.RoundTrip.Entries.{Describes, Catalogued, no_files, one_more}

-- The content of the first file with this path.
unfoldable pub lookup : List (Bytes × Bytes) → Bytes → Option Bytes
lookup [] path = none
lookup ((name, content) ∷ files) path =
    if bytes_eq name path then some content else lookup files path

found_meta :
    (chunks : ChunkMap) (h : Bytes) (m : ChunkMeta)
    → get_chunk chunks h ≡ some m
    → require_chunk chunks h ≡ ok m
unfolding require_chunk
found_meta chunks h m e = rw (e, require_chunk)

payload_at :
    (before payload after : Bytes) (m : ChunkMeta)
    → length before ≡ m.payload_offset
    → length payload ≡ m.payload_size
    → read_payload (before ++ (payload ++ after)) m ≡ ok payload
unfolding read_payload
payload_at before payload after m e1 e2 = rw (
  ← e1,
  drop-append before (payload ++ after),
  read_exact-append (length before) after m.payload_size payload e2,
)

module _ (x : External) (law : IsExternal x) (level : ℕ) (Known : Bytes → Type 0)
    (no_collision : (a b : Bytes) → Known a → Known b → x.hash a ≡ x.hash b → a ≡ b)
    (archive : Bytes) (chunks : ChunkMap) (stored : AllStored x Known archive chunks) where
  chunk_at :
      (m : ChunkMeta) (d : Bytes)
      → Holds x archive m d
      → read_chunk_data x archive (x.hash d) m ≡ ok d
  unfolding read_chunk_data
  chunk_at m d h =
      rw
        (
          ap (λ (o : Bytes). read_payload o m) h.split
              ∙ payload_at h.before h.payload h.after m h.offset h.size,
          h.decoded,
          eq→== _ _ (sym h.original),
          bytes_eq_refl (x.hash d),
        )
        refl

  read_known :
      (m : ChunkMeta) (d : Bytes)
      → Known d
      → get_chunk chunks (x.hash d) ≡ some m
      → (read_chunk_data x archive (x.hash d) m ≡ ok d) × (m.original_size ≡ length d)
  read_known m d known e =
      let s = stored_at x Known archive chunks (x.hash d) m stored e in
      let same : s.chunk ≡ d = no_collision s.chunk d s.known known (sym s.key) in
      let holds = subst (Holds x archive m) same s.holds in (chunk_at m d holds, holds.original)

  read_chunks_counted-Refers :
      (cut : List Bytes) {n : ℕ} (r : Refers chunks (map x.hash cut) n) (acc : Bytes) (size : ℕ)
      → All Known cut
      → size + length (concat cut) < u64_limit
      → read_chunks_counted x archive chunks (map x.hash cut) acc size
        ≡ ok (acc ++ concat cut, size + length (concat cut))
  unfolding read_chunks_counted
  read_chunks_counted-Refers [] r acc size known room = ground (arith, append-nil acc)
  read_chunks_counted-Refers (d ∷ ds) (refer h m len found r) acc size known room =
      let (found_data, original) = read_known m d known.0 found in
      let sum : length (concat (d ∷ ds)) ≡ length d + length (concat ds) =
        length-append d (concat ds) in
      rw
        (
          found_meta chunks (x.hash d) m found,
          found_data,
          checked_add_ok size (length d) (omega (arith, sum)),
          read_chunks_counted-Refers ds r (acc ++ d) (size + length d) known.1 (omega (arith, sum)),
          append_assoc acc d (concat ds),
        )
        (ap (λ (k : ℕ). ok (acc ++ (d ++ concat ds), k)) (omega (arith, sum)))

  abbrev Described : FileRecord → Bytes → Bytes → Type 0
  Described = Describes x law level Known no_collision chunks

  abbrev Files : List FileRecord → List (Bytes × Bytes) → Type 0
  Files = Catalogued x law level Known no_collision chunks

  -- A described file is extracted to its content.
  pub extracted_content :
      (file : FileRecord) (path content : Bytes)
      → Described file path content
      → verified_bytes x archive chunks file ≡ ok content
  unfolding verified_bytes
  extracted_content file path content d =
      let whole = ap length d.bytes in
      let size : 0 + length (concat d.cut) ≡ length content = omega (arith, whole) in
      let read : read_chunks_counted x archive chunks file.chunk_hashes [] 0
          ≡ ok (content, length content) =
        ap (λ (hs : List Bytes). read_chunks_counted x archive chunks hs [] 0) d.hashes
        ∙ read_chunks_counted-Refers d.cut d.refers [] 0 d.known (omega (arith, size, d.small))
        ∙ rw (size, d.bytes) refl in
      rw
        (
          read,
          eq→== (length content) file.original_size (sym d.size),
          d.digest,
          bytes_eq_refl (x.hash content),
        )
        refl

  -- All described files pass the check of `verify_reader`.
  pub verified_all :
      {rs : List FileRecord} {fs : List (Bytes × Bytes)}
      → Files rs fs
      → verify_files x archive chunks rs ≡ ok tt
  unfolding verify_files verify_file_record
  verified_all no_files = refl
  verified_all (one_more r path content d rest) =
      rw (extracted_content r path content d) (verified_all rest)

  -- The record that `find_file` finds describes the content that `lookup` finds.
  pub data Same (rs : List FileRecord) (fs : List (Bytes × Bytes)) (path : Bytes) : Type 0 where
    neither : find_file x rs path ≡ err entry_not_found → lookup fs path ≡ none → Same rs fs path
    both :
        (r : FileRecord) (name content : Bytes)
        → find_file x rs path ≡ ok r
        → lookup fs path ≡ some content
        → Described r name content
        → Same rs fs path

  pub find_file-Same :
      {rs : List FileRecord} {fs : List (Bytes × Bytes)} (path : Bytes)
      → Files rs fs
      → Same rs fs path
  unfolding find_file lookup
  find_file-Same path no_files = neither refl refl
  find_file-Same path (one_more r name content d rest) = elim (Bool-cases (bytes_eq name path)) [
    | inl same ↦ both r name content (rw (d.named, same) refl) (rw same refl) d
    | inr not_same ↦ elim (find_file-Same path rest) [
      | neither e1 e2 ↦ neither (rw (d.named, not_same) e1) (rw not_same e2)
      | both r' name' content' e1 e2 d' ↦
          both r' name' content' (rw (d.named, not_same) e1) (rw not_same e2) d'
    ]
  ]
