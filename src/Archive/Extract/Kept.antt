-- ===== src/Archive/Extract/Kept.antt =====
-- Which files `extract_file_record` of src/archive.rs leaves behind.
use rgx.Common.{
  ℕ, Error, ◌≡◌, refl, ap, sym, ◌∙◌, List, [], ◌∷◌, ◌++◌, none, true, false, not, ◌||◌, ◌&&◌, Bytes,
  bytes_eq_refl, length, take, Result, ok, err, ◌⟫=◌, ⟫=-eq-ok, ok-injective, err-ne-ok, Bool-cases,
  Option-cases, Result-cases, inl, inr, arith,
}
use rgx.Archive.{External, ChunkMap, FileRecord, contains, insert, checked_add}
use rgx.Archive.Paths.{validate_archive_path}
use rgx.Archive.Paths.Accepted.{IsCanonical, validate-IsCanonical}
use rgx.Archive.Scan.{path_parents}
use rgx.Archive.Read.{
  require_chunk, read_chunk_data, read_chunks, read_chunks_counted, verified_bytes,
}
use rgx.Archive.Read.Checked.{verified_bytes_checked}
use rgx.Archive.Extract.{
  Output, Disk, get_file, is_file, append_file, remove_file, make_all, create_new, write_all,
  write_chunks, check_written, write_contents, clean_up, extract_file_record,
}

append_file-head :
    (path content bytes : Bytes) (files : List (Bytes × Bytes))
    → append_file path bytes ((path, content) ∷ files) ≡ (path, content ++ bytes) ∷ files
unfolding append_file
append_file-head path content bytes files = rw (bytes_eq_refl path) refl

remove_file-head :
    (path content : Bytes) (files : List (Bytes × Bytes))
    → remove_file path ((path, content) ∷ files) ≡ files
unfolding remove_file
remove_file-head path content files = rw (bytes_eq_refl path) refl

-- The output with one more file, which is being written.
abbrev with_file : Output → Bytes → Bytes → Output
with_file o path content = record o { files = (path, content) ∷ o.files }

is_file-none : (o : Output) (path : Bytes) → is_file o path ≡ false → get_file o.files path ≡ none
unfolding is_file
is_file-none o path h = elim (Option-cases (get_file o.files path)) [
  | inl e ↦ e
  | inr (c, e) ↦ let t : true ≡ false = rw (e, is_file) at h in cc
]

module _ (disk : Disk) where
  pub files-make_all : (o : Output) (paths : List Bytes) → (make_all disk o paths).0.files ≡ o.files
  unfolding make_all
  files-make_all o [] = refl
  files-make_all o (path ∷ paths) =
      elim (Bool-cases (contains o.directories path || (disk.makes path && not (is_file o path)))) [
        | inl can ↦
            rw (can, make_all)
              (files-make_all (record o { directories = insert o.directories path }) paths)
        | inr cannot ↦ rw (cannot, make_all) refl
      ]

  created :
      (o o' : Output) (path : Bytes)
      → create_new disk o path ≡ ok o'
      → (o' ≡ with_file o path []) × (is_file o path ≡ false)
  unfolding create_new
  created o o' path h = ground arith

  written_all :
      (o : Output) (path content bytes : Bytes)
      → (c : Bytes) × ((write_all disk (with_file o path content) path content bytes).0
          ≡ with_file o path c)
        × ((write_all disk (with_file o path content) path content bytes).1 ≡ ok tt
            → c ≡ content ++ bytes)
  unfolding write_all
  written_all o path content bytes = elim (Option-cases (disk.short_write path content bytes)) [
    | inr (n, e) ↦ (
      content ++ take n bytes,
      rw (e, write_all)
          (ap (λ (fs : List (Bytes × Bytes)). record o { files = fs })
            (append_file-head path content (take n bytes) o.files)),
      rw (e, write_all) (λ h. absurd (err-ne-ok h)),
    )
    | inl e ↦ (
      content ++ bytes,
      rw (e, write_all)
          (ap (λ (fs : List (Bytes × Bytes)). record o { files = fs })
            (append_file-head path content bytes o.files)),
      λ h. refl,
    )
  ]

  module _ (x : External) (archive : Bytes) (chunks : ChunkMap) where
    -- What the loop has written to the file is what it has given to the hasher.
    record Written (o : Output) (path : Bytes) (hashes : List Bytes) (acc : Bytes) (size : ℕ)
        (r : Output × Result (Bytes × ℕ)) : Type 0 where
      content : Bytes
      output : r.0 ≡ with_file o path content
      hashed :
          (d : Bytes) (n : ℕ)
          → r.1 ≡ ok (d, n)
          → (content ≡ d) × (read_chunks_counted x archive chunks hashes acc size ≡ ok (d, n))

    abbrev read_chunk : Bytes → Result Bytes
    read_chunk hash = require_chunk chunks hash ⟫= λ meta. read_chunk_data x archive hash meta

    stopped :
        (o : Output) (path hash : Bytes) (hashes : List Bytes) (acc : Bytes) (size : ℕ)
        (bytes : Bytes) (e : Error)
        → read_chunk hash ≡ ok bytes
        → ((write_all disk o path acc bytes).1 ⟫= λ _. checked_add size (length bytes)) ≡ err e
        → write_chunks disk x archive chunks o path (hash ∷ hashes) acc size
          ≡ ((write_all disk o path acc bytes).0, err e)
    unfolding write_chunks
    stopped o path hash hashes acc size bytes e h k = rw (h, k, write_chunks) refl

    continued :
        (o : Output) (path hash : Bytes) (hashes : List Bytes) (acc : Bytes) (size size' : ℕ)
        (bytes : Bytes)
        → read_chunk hash ≡ ok bytes
        → ((write_all disk o path acc bytes).1 ⟫= λ _. checked_add size (length bytes)) ≡ ok size'
        → write_chunks disk x archive chunks o path (hash ∷ hashes) acc size
          ≡ write_chunks disk x archive chunks
              (write_all disk o path acc bytes).0
              path
              hashes
              (acc ++ bytes)
              size'
    unfolding write_chunks
    continued o path hash hashes acc size size' bytes h k = rw (h, k, write_chunks) refl

    counted_on :
        (hash : Bytes) (hashes : List Bytes) (acc bytes : Bytes) (size size' : ℕ)
        → read_chunk hash ≡ ok bytes
        → checked_add size (length bytes) ≡ ok size'
        → read_chunks_counted x archive chunks (hash ∷ hashes) acc size
          ≡ read_chunks_counted x archive chunks hashes (acc ++ bytes) size'
    unfolding read_chunks_counted
    counted_on hash hashes acc bytes size size' h k =
        let (meta, e1, e2) = ⟫=-eq-ok (require_chunk chunks hash) _ h in rw (e1, e2, k) refl

    Written-write_chunks :
        (o : Output) (path : Bytes) (hashes : List Bytes) (acc : Bytes) (size : ℕ)
        → Written o path hashes acc size
            (write_chunks disk x archive chunks (with_file o path acc) path hashes acc size)
    unfolding write_chunks read_chunks_counted
    Written-write_chunks o path [] acc size = record {
      content = acc;
      output = refl;
      hashed = λ d n h. (ap (λ (p : Bytes × ℕ). p.0) (ok-injective h), h);
    }
    Written-write_chunks o path (hash ∷ hashes) acc size =
        elim (Result-cases
          (require_chunk chunks hash ⟫= λ meta. read_chunk_data x archive hash meta)) [
            | inr (e, h) ↦ record {
              content = acc;
              output = rw (h, write_chunks) refl;
              hashed = rw (h, write_chunks) (λ d n k. absurd (err-ne-ok k));
            }
            | inl (bytes, h) ↦
                let w = write_all disk (with_file o path acc) path acc bytes in
                let (c, out, full) = written_all o path acc bytes in
                elim (Result-cases (w.1 ⟫= λ _. checked_add size (length bytes))) [
                  | inr (e, k) ↦
                      let s =
                        stopped (with_file o path acc) path hash hashes acc size bytes e h k in
                      record {
                        content = c;
                        output = rw s out;
                        hashed = rw s (λ d n t. absurd (err-ne-ok t));
                      }
                  | inl (size', k) ↦
                      let (u, whole, added) = ⟫=-eq-ok w.1 _ k in
                      let now = out ∙ ap (with_file o path) (full whole) in
                      let s =
                        continued (with_file o path acc) path hash hashes acc size size' bytes h
                          k in
                      let ih = Written-write_chunks o path hashes (acc ++ bytes) size' in
                      record {
                        content = ih.content;
                        output = rw (s, now) (ih.output);
                        hashed =
                            rw (s, now, counted_on hash hashes acc bytes size size' h added)
                              (ih.hashed);
                      }
                ]
          ]

    check_written-verified :
        (file : FileRecord) (d : Bytes) (n : ℕ)
        → read_chunks_counted x archive chunks file.chunk_hashes [] 0 ≡ ok (d, n)
        → check_written disk x archive chunks file (d, n) ≡ ok tt
        → verified_bytes x archive chunks file ≡ ok d
    unfolding check_written verified_bytes
    check_written-verified file d n h k = rw h (ground (arith, k))

    -- The file that an extraction leaves at the record's path.
    pub record Kept (o : Output) (file : FileRecord) (o' : Output) : Type 0 where
      pub content : Bytes
      pub files : o'.files ≡ (file.path, content) ∷ o.files
      pub reads : read_chunks x archive chunks file.chunk_hashes [] ≡ ok content
      pub size : length content ≡ file.original_size
      pub digest : x.hash content ≡ file.hash

    -- How the extraction of a record ends.
    pub data Extraction (o : Output) (file : FileRecord) : Output × Result (Unit {0}) → Type 0 where
      kept :
          (o' : Output)
          → Kept o file o'
          → IsCanonical file.path
          → get_file o.files file.path ≡ none
          → Extraction o file (o', ok tt)
      refused : (o' : Output) (e : Error) → o'.files ≡ o.files → Extraction o file (o', err e)

    removed :
        (o base : Output) (file : FileRecord) (content : Bytes) (e : Error)
        → disk.removes file.path ≡ true
        → base.files ≡ o.files
        → Extraction o file
            (clean_up disk x archive chunks file.path (with_file base file.path content, err e))
    unfolding clean_up
    removed o base file content e removes same = rw removes (
        refused (record base { files = remove_file file.path ((file.path, content) ∷ base.files) })
          e (remove_file-head file.path content base.files ∙ same))

    -- The state behind `clean_up`, for the file that `create_new` has made.
    cleaned :
        (o base : Output) (file : FileRecord)
        → disk.removes file.path ≡ true
        → base.files ≡ o.files
        → IsCanonical file.path
        → get_file o.files file.path ≡ none
        → Extraction o file (
            clean_up disk x archive chunks file.path
              (write_contents disk x archive chunks (with_file base file.path []) file))
    unfolding clean_up write_contents
    cleaned o base file removes same canonical fresh =
        let read =
          write_chunks disk x archive chunks (with_file base file.path []) file.path
            file.chunk_hashes [] 0 in
        let w = Written-write_chunks base file.path file.chunk_hashes [] 0 in
        elim (Result-cases (read.1 ⟫= check_written disk x archive chunks file)) [
          | inr (e, h) ↦ rw (w.output, h) (removed o base file w.content e removes same)
          | inl (u, h) ↦
              let ((d, n), e1, e2) = ⟫=-eq-ok read.1 _ h in
              let (same_bytes, counted) = w.hashed d n e1 in
              let (size, digest, reads) =
                verified_bytes_checked x archive chunks file d
                  (check_written-verified file d n counted e2) in
              rw (w.output, h)
                (kept (with_file base file.path w.content)
                  (record {
                    content = d;
                    files =
                        ap (λ (c : Bytes). (file.path, c) ∷ base.files) same_bytes
                        ∙ ap (λ (fs : List (Bytes × Bytes)). (file.path, d) ∷ fs) same;
                    reads = reads;
                    size = size;
                    digest = digest;
                  })
                  canonical fresh)
        ]

    -- A record is extracted or refused, where `remove_file` does not fail. If it is extracted, exactly one
    -- file is new, at the record's path, which is canonical and was not a file before; its content is
    -- what `read_chunks` returns, and has the size and the digest of the record. If it is refused, the
    -- files are those from before.
    pub extract_file_record-Extraction :
        (o : Output) (file : FileRecord)
        → disk.removes file.path ≡ true
        → Extraction o file (extract_file_record disk x archive chunks o file)
    unfolding extract_file_record
    extract_file_record-Extraction o file removes =
        elim (Result-cases (validate_archive_path file.path)) [
          | inr (e, h) ↦ rw (h, extract_file_record) (refused o e refl)
          | inl (path, valid) ↦
              let (same, canonical) = validate-IsCanonical file.path path valid in
              let h = valid ∙ ap ok same in
              let made = make_all disk o (path_parents file.path) in
              let unchanged = files-make_all o (path_parents file.path) in
              elim (Result-cases (made.1 ⟫= λ _. create_new disk made.0 file.path)) [
                | inr (e, k) ↦ rw (h, k, extract_file_record) (refused made.0 e unchanged)
                | inl (o2, k) ↦
                    let (u, e1, e2) = ⟫=-eq-ok made.1 _ k in
                    let (new, absent) = created made.0 o2 file.path e2 in
                    let fresh = is_file-none made.0 file.path absent in
                    rw (h, k, new, extract_file_record)
                      (cleaned o made.0 file removes unchanged canonical (
                        ap (λ (fs : List (Bytes × Bytes)). get_file fs file.path) (sym unchanged)
                        ∙ fresh))
              ]
        ]
