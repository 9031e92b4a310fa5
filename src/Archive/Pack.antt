-- ===== src/Archive/Pack.antt =====
-- src/archive.rs: packing. The directory walk is a list of entries, as `WalkDir` yields them, and a
-- file is what its reads return; the writer is the list of bytes written so far.
use rgx.Common.{
  ℕ, ◌^◌, List, [], ◌∷◌, ◌++◌, Option, none, some, not, ◌&&◌, Bytes, length, ltb, leb, ◌==◌,
  if◌then◌else◌, concat, Result, ok, err, bail_if, ◌⟫=◌, bad_level, input_missing, symlink_entry,
  not_relative, bad_entry_kind, compression_failed, too_many_chunks, file_read_failed, walk_failed,
}
use rgx.Format.{
  Footer, compression_store, compression_zstd, write_header, write_chunk_header, write_file_header,
  write_directory_header, write_footer,
}
use rgx.Chunker.{RollingHash, new_rolling, push, should_cut}
use rgx.Archive.{
  External, ArchiveInfo, max_chunks_per_file, contains, checked_add, info_from_footer,
}
use rgx.Archive.Paths.{normalize_relative_path, checked_path_len}

pub record PackStats : Type 0 where
  pub entries : ℕ
  pub files : ℕ
  pub directories : ℕ
  pub original_bytes : ℕ
  pub stored_bytes : ℕ
  pub unique_chunks : ℕ
  pub chunk_references : ℕ
  pub deduplicated_bytes : ℕ

-- `PackStats::default()`
abbrev pub no_stats : PackStats
no_stats = record {
  entries = 0;
  files = 0;
  directories = 0;
  original_bytes = 0;
  stored_bytes = 0;
  unique_chunks = 0;
  chunk_references = 0;
  deduplicated_bytes = 0;
}

-- What the functions below share through `&mut`: the writer, `seen_chunks` and `stats`.
pub record PackState : Type 0 where
  pub out : Bytes
  pub seen_chunks : List Bytes
  pub stats : PackStats

-- The reads of one file: blocks, up to the end or to an error of opening or reading.
pub data Reads : Type 0 where
  eof : Reads
  failed : Reads
  block : Bytes → Reads → Reads

pub data EntryKind : Type 0 where
  directory symlink other unreadable : EntryKind
  file : Reads → EntryKind

-- An item of the walk, with the result of `strip_prefix(base)`; an item that is an error has the kind
-- `unreadable`.
pub record WalkEntry : Type 0 where
  pub kind : EntryKind
  pub relative : Option Bytes

-- The locals of `pack_file`.
pub record FileState : Type 0 where
  pub pack : PackState
  pub rolling : RollingHash
  pub chunk : Bytes
  pub hashed : Bytes
  pub file_size : ℕ
  pub chunk_hashes : List Bytes

-- The compression that is stored, and the payload.
unfoldable pub choose_payload : Bytes → Bytes → ℕ × Bytes
choose_payload compressed chunk =
    if ltb (length compressed) (length chunk)
    then (compression_zstd, compressed)
    else (compression_store, chunk)

abbrev pub start_file : PackState → FileState
start_file st = record {
  pack = st;
  rolling = new_rolling;
  chunk = [];
  hashed = [];
  file_size = 0;
  chunk_hashes = [];
}

unfoldable pub pack_directory : Bytes → ℕ → PackState → Result PackState
pack_directory path path_len st = checked_add st.stats.entries 1 ⟫= λ entries.
    checked_add st.stats.directories 1 ⟫= λ directories. ok (record st {
      out = st.out ++ (write_directory_header (record { path_len = path_len }) ++ path);
      stats = record st.stats { entries = entries; directories = directories };
    })

unfoldable pub admit_item : EntryKind → Result (Unit {0})
admit_item unreadable = err walk_failed
admit_item symlink = err symlink_entry
admit_item kind = ok tt

unfoldable pub strip_prefix : Option Bytes → Result Bytes
strip_prefix none = err not_relative
strip_prefix (some path) = ok path

unfoldable pub footer_of : PackStats → Footer
footer_of stats = record {
  entries = stats.entries;
  files = stats.files;
  directories = stats.directories;
  unique_chunks = stats.unique_chunks;
  chunk_references = stats.chunk_references;
  original_bytes = stats.original_bytes;
  stored_payload_bytes = stats.stored_bytes;
  deduplicated_bytes = stats.deduplicated_bytes;
}

abbrev pub start_pack : PackState
start_pack = record {
  out = write_header (record { flags = 0 });
  seen_chunks = [];
  stats = no_stats;
}

module _ (x : External) (level : ℕ) where
  unfoldable pub write_new_chunk : Bytes → PackState → Result PackState
  write_new_chunk chunk st = elim (x.compress chunk level) [
    | none ↦ err compression_failed
    | some compressed ↦
        let (compression, payload) = choose_payload compressed chunk in
        checked_add st.stats.unique_chunks 1 ⟫= λ unique.
        checked_add st.stats.stored_bytes (length payload) ⟫= λ stored. ok (record st {
          out =
              st.out
              ++ (write_chunk_header (record {
                compression = compression;
                original_size = length chunk;
                payload_size = length payload;
                hash = x.hash chunk;
              })
                  ++ payload);
          stats = record st.stats { unique_chunks = unique; stored_bytes = stored };
        })
  ]

  -- Behind the early return for no data. The digest is pushed by `push_chunk`.
  unfoldable pub write_or_reference_chunk : Bytes → PackState → Result PackState
  write_or_reference_chunk chunk st = checked_add st.stats.chunk_references 1 ⟫= λ references.
      let st' : PackState = record st {
        stats = record st.stats { chunk_references = references };
      } in
      if contains st.seen_chunks (x.hash chunk)
      then (checked_add st'.stats.deduplicated_bytes (length chunk) ⟫= λ deduplicated.
          ok (record st' { stats = record st'.stats { deduplicated_bytes = deduplicated } }))
      else write_new_chunk chunk (record st' { seen_chunks = x.hash chunk ∷ st.seen_chunks })

  -- A call of `write_or_reference_chunk`, with its early return and its push onto `chunk_hashes`, and
  -- then `chunk.clear()`.
  unfoldable pub push_chunk : FileState → Result FileState
  push_chunk fs =
      if length fs.chunk == 0
      then ok fs
      else (write_or_reference_chunk fs.chunk fs.pack ⟫= λ st. ok (record fs {
        pack = st;
        chunk = [];
        chunk_hashes = fs.chunk_hashes ++ (x.hash fs.chunk ∷ []);
      }))

  unfoldable pub push_byte : FileState → ℕ → Result FileState
  push_byte fs byte =
      let rolling = push fs.rolling byte in
      let fs' : FileState = record fs { rolling = rolling; chunk = fs.chunk ++ (byte ∷ []) } in
      if should_cut rolling.state (length fs'.chunk) then push_chunk fs' else ok fs'

  unfoldable pub push_bytes : FileState → Bytes → Result FileState
  push_bytes fs [] = ok fs
  push_bytes fs (byte ∷ bytes) = push_byte fs byte ⟫= λ fs'. push_bytes fs' bytes

  -- A read of no bytes ends the loop.
  unfoldable pub read_blocks : FileState → Reads → Result FileState
  read_blocks fs eof = ok fs
  read_blocks fs failed = err file_read_failed
  read_blocks fs (block [] reads) = ok fs
  read_blocks fs (block (b ∷ bs) reads) = checked_add fs.file_size (length (b ∷ bs)) ⟫= λ size.
      push_bytes (record fs { hashed = fs.hashed ++ (b ∷ bs); file_size = size }) (b ∷ bs) ⟫= λ fs'.
      read_blocks fs' reads

  unfoldable pub flush_chunk : FileState → Result FileState
  flush_chunk fs = elim fs.chunk [ [] ↦ ok fs | b ∷ bs ↦ push_chunk fs ]

  -- The file's record, behind its chunks.
  unfoldable pub finish_file : Bytes → ℕ → FileState → Result PackState
  finish_file path path_len fs =
      bail_if (not (ltb (length fs.chunk_hashes) (256 ^ 4))) too_many_chunks ⟫= λ _.
      bail_if (ltb max_chunks_per_file (length fs.chunk_hashes)) too_many_chunks ⟫= λ _.
      checked_add fs.pack.stats.entries 1 ⟫= λ entries.
      checked_add fs.pack.stats.files 1 ⟫= λ files.
      checked_add fs.pack.stats.original_bytes fs.file_size ⟫= λ original. ok (record fs.pack {
        out =
            fs.pack.out
            ++ (write_file_header (record {
              path_len = path_len;
              chunk_count = length fs.chunk_hashes;
              original_size = fs.file_size;
              hash = x.hash fs.hashed;
            })
                ++ (path ++ concat fs.chunk_hashes));
        stats = record fs.pack.stats {
          entries = entries;
          files = files;
          original_bytes = original;
        };
      })

  unfoldable pub pack_file : Bytes → ℕ → Reads → PackState → Result PackState
  pack_file path path_len reads st = read_blocks (start_file st) reads ⟫= λ fs.
      flush_chunk fs ⟫= λ fs'. finish_file path path_len fs'

  unfoldable pub pack_kind : EntryKind → Bytes → ℕ → PackState → Result PackState
  pack_kind directory path path_len st = pack_directory path path_len st
  pack_kind (file reads) path path_len st = pack_file path path_len reads st
  pack_kind symlink path path_len st = err symlink_entry
  pack_kind other path path_len st = err bad_entry_kind
  pack_kind unreadable path path_len st = err walk_failed

  unfoldable pub pack_entry : PackState → WalkEntry → Result PackState
  pack_entry st entry = admit_item entry.kind ⟫= λ _. strip_prefix entry.relative ⟫= λ relative.
      normalize_relative_path relative ⟫= λ path.
      checked_path_len path ⟫= λ path_len. pack_kind entry.kind path path_len st

  unfoldable pub pack_entries : PackState → List WalkEntry → Result PackState
  pack_entries st [] = ok st
  pack_entries st (entry ∷ entries) = pack_entry st entry ⟫= λ st'. pack_entries st' entries

  -- The archive's bytes and its statistics. `none` stands for an input that does not exist.
  unfoldable pub pack_to_writer : Option (List WalkEntry) → Result (Bytes × ArchiveInfo)
  pack_to_writer none = err input_missing
  pack_to_writer (some walk) = bail_if (not (leb 1 level && leb level 22)) bad_level ⟫= λ _.
      pack_entries start_pack walk ⟫= λ st.
      ok (st.out ++ write_footer (footer_of st.stats), info_from_footer (footer_of st.stats))
