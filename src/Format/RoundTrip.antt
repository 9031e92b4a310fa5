-- ===== src/Format/RoundTrip.antt =====
-- Every reader of src/format.rs reads back what its writer wrote, and stops right behind it.
use rgx.Common.{
  ℕ, ◌+◌, ◌≡◌, refl, ◌∷◌, [], ◌++◌, append_assoc, some, Bytes, bytes_eq, ok, Parser, Stream, stream,
  read_exact-append, read_le-append, bind_ok, arith, length,
}
use rgx.Format.{
  Header, ChunkHeader, FileHeader, DirectoryHeader, Footer, IsHeader, IsChunkHeader, IsFileHeader,
  IsFooter, magic, chunk_magic, file_magic, directory_magic, footer_magic, write_header,
  read_header, write_chunk_header, read_chunk_header_after_magic, write_file_header,
  read_file_header_after_magic, write_directory_header, read_directory_header_after_magic,
  write_footer, read_footer_after_magic, read_tag, IsDirectoryHeader,
}

-- `read_header` reads back the header that `write_header` wrote, whatever follows it, and has then
-- moved by its 16 bytes.
pub read_header-write_header :
    (h : Header) (p : ℕ) (rest : Bytes)
    → IsHeader h
    → read_header (stream p (write_header h ++ rest)) ≡ ok (h, stream (p + 16) rest)
unfolding write_header read_header bytes_eq
read_header-write_header h p rest v = simp append_assoc (
    bind_ok _ _ _ (read_exact-append p _ 4 magic refl) (
      bind_ok _ _ _ refl (
        bind_ok _ _ _ (read_le-append (p + 4) _ 2 0 (omega arith)) (
          bind_ok _ _ _ (read_le-append (p + 4 + 2) _ 2 2 (omega arith)) (
            bind_ok _ _ _ refl (
              bind_ok _ _ _ (read_le-append (p + 4 + 2 + 2) _ 4 h.flags v.flags) (
                bind_ok _ _ _ (read_le-append (p + 4 + 2 + 2 + 4) rest 4 0 (omega arith))
                  (ground arith))))))))

pub read_tag-append :
    (tag : Bytes) (p : ℕ) (rest : Bytes)
    → length tag ≡ 4
    → read_tag (stream p (tag ++ rest)) ≡ ok (some tag, stream (p + 4) rest)
unfolding read_tag
read_tag-append tag p rest h = rw (read_exact-append p rest 4 tag h, read_tag)

-- What `read_tag` and then `read`, the reader for the record behind the tag, return.
abbrev pub ReadsBack : {A : Type 0} → Parser A → Bytes → A → ℕ → ℕ → Bytes → Bytes → Type 0
ReadsBack read tag a p n written rest =
    (s : Stream) × (read_tag (stream p (written ++ rest)) ≡ ok (some tag, s))
    × (read s ≡ ok (a, stream (p + n) rest))

-- The tag and the chunk header that `write_chunk_header` wrote are read back, 56 bytes in all.
pub read_chunk_header-write_chunk_header :
    (h : ChunkHeader) (p : ℕ) (rest : Bytes)
    → IsChunkHeader h
    → ReadsBack read_chunk_header_after_magic chunk_magic h p 56 (write_chunk_header h) rest
unfolding write_chunk_header read_chunk_header_after_magic
read_chunk_header-write_chunk_header h p rest v = (
  _,
  simp append_assoc (read_tag-append chunk_magic p _ refl),
  bind_ok _ _ _ (read_exact-append (p + 4) _ 1 (h.compression ∷ []) refl) (
      bind_ok _ _ _ (read_exact-append (p + 4 + 1) _ 3 (0 ∷ 0 ∷ 0 ∷ []) refl) (
        bind_ok _ _ _ (read_le-append (p + 4 + 1 + 3) _ 8 h.original_size v.original_size) (
          bind_ok _ _ _ (read_le-append (p + 4 + 1 + 3 + 8) _ 8 h.payload_size v.payload_size) (
            bind_ok _ _ _ (read_exact-append (p + 4 + 1 + 3 + 8 + 8) rest 32 h.hash v.hash)
              (ground arith))))),
)

-- The tag and the file header that `write_file_header` wrote are read back, 52 bytes in all.
pub read_file_header-write_file_header :
    (h : FileHeader) (p : ℕ) (rest : Bytes)
    → IsFileHeader h
    → ReadsBack read_file_header_after_magic file_magic h p 52 (write_file_header h) rest
unfolding write_file_header read_file_header_after_magic
read_file_header-write_file_header h p rest v = (
  _,
  simp append_assoc (read_tag-append file_magic p _ refl),
  bind_ok _ _ _ (read_le-append (p + 4) _ 4 h.path_len v.path_len) (
      bind_ok _ _ _ (read_le-append (p + 4 + 4) _ 4 h.chunk_count v.chunk_count) (
        bind_ok _ _ _ (read_le-append (p + 4 + 4 + 4) _ 8 h.original_size v.original_size) (
          bind_ok _ _ _ (read_exact-append (p + 4 + 4 + 4 + 8) rest 32 h.hash v.hash)
            (ground arith)))),
)

-- The tag and the directory header that `write_directory_header` wrote are read back, 12 bytes.
pub read_directory_header-write_directory_header :
    (h : DirectoryHeader) (p : ℕ) (rest : Bytes)
    → IsDirectoryHeader h
    → ReadsBack read_directory_header_after_magic directory_magic h p 12
        (write_directory_header h)
        rest
unfolding write_directory_header read_directory_header_after_magic
read_directory_header-write_directory_header h p rest v = (
  _,
  simp append_assoc (read_tag-append directory_magic p _ refl),
  bind_ok _ _ _ (read_le-append (p + 4) _ 4 h.path_len v.path_len)
      (bind_ok _ _ _ (read_le-append (p + 4 + 4) rest 4 0 (omega arith)) (ground arith)),
)

-- The tag and the footer that `write_footer` wrote are read back, 68 bytes in all.
pub read_footer-write_footer :
    (f : Footer) (p : ℕ) (rest : Bytes)
    → IsFooter f
    → ReadsBack read_footer_after_magic footer_magic f p 68 (write_footer f) rest
unfolding write_footer read_footer_after_magic
read_footer-write_footer f p rest v =
    let q = p + 4 in
    (
      _,
      simp append_assoc (read_tag-append footer_magic p _ refl),
      bind_ok _ _ _ (read_le-append q _ 8 f.entries v.entries) (
          bind_ok _ _ _ (read_le-append (q + 8) _ 8 f.files v.files) (
            bind_ok _ _ _ (read_le-append (q + 8 + 8) _ 8 f.directories v.directories) (
              bind_ok _ _ _ (read_le-append (q + 8 + 8 + 8) _ 8 f.unique_chunks v.unique_chunks) (
                bind_ok _ _ _
                  (read_le-append (q + 8 + 8 + 8 + 8) _ 8 f.chunk_references v.chunk_references)
                  (bind_ok _ _ _
                    (read_le-append (q + 8 + 8 + 8 + 8 + 8) _ 8 f.original_bytes v.original_bytes)
                    (bind_ok _ _ _
                      (read_le-append (q + 8 + 8 + 8 + 8 + 8 + 8) _ 8 f.stored_payload_bytes
                        v.stored_payload_bytes)
                      (bind_ok _ _ _
                        (read_le-append (q + 8 + 8 + 8 + 8 + 8 + 8 + 8) rest 8 f.deduplicated_bytes
                          v.deduplicated_bytes)
                        (ground arith)))))))),
    )
