-- ===== src/Archive/Extract.antt =====
-- src/archive.rs: extracting (`extract_file_record` and `extract_reader`), with the output directory as
-- a state.
pub mod Kept
pub mod Whole
use rgx.Common.{
  ℕ, suc, ◌+◌, ◌-◌, List, [], ◌∷◌, ◌++◌, Option, none, some, Bool, true, false, not, ◌||◌, ◌&&◌,
  Bytes, bytes_eq, length, take, leb, ◌==◌, if◌then◌else◌, Result, ok, err, bail_if, ◌⟫=◌,
  file_size_mismatch, file_hash_mismatch, selected_not_found, output_exists, create_failed,
  write_failed, flush_failed,
}
use rgx.Archive.{
  External, ArchiveInfo, ArchiveCatalog, ChunkMap, FileRecord, contains, insert, checked_add,
}
use rgx.Archive.Paths.{slash, split_slash, join_slash, validate_archive_path, starts_with_slash}
use rgx.Archive.Scan.{path_parents, scan_archive_reader}
use rgx.Text.{strip_label}
use rgx.Archive.Read.{require_chunk, read_chunk_data}

-- What is below the output directory, each path relative to it, with `/` between its parts.
pub record Output : Type 0 where
  pub directories : List Bytes
  pub files : List (Bytes × Bytes)

-- The failures of the file system, which are not up to the source: of making a directory, of creating
-- a file, of `write_all` (with the number of bytes that were written before it), of `flush`, of
-- `remove_file`, and of `create_dir` on the output directory; and what `remove_dir_all` leaves of it.
pub record Disk : Type 0 where
  pub makes : Bytes → Bool
  pub creates : Bytes → Bool
  pub short_write : Bytes → Bytes → Bytes → Option ℕ
  pub flushes : Bytes → Bool
  pub removes : Bytes → Bool
  pub makes_output : Bool
  pub leaves : Output → Option Output

unfoldable pub get_file : List (Bytes × Bytes) → Bytes → Option Bytes
get_file [] path = none
get_file ((name, content) ∷ files) path =
    if bytes_eq name path then some content else get_file files path

unfoldable pub is_file : Output → Bytes → Bool
is_file o path = elim (get_file o.files path) [ none ↦ false | some content ↦ true ]

unfoldable pub append_file : Bytes → Bytes → List (Bytes × Bytes) → List (Bytes × Bytes)
append_file path bytes [] = []
append_file path bytes ((name, content) ∷ files) =
    let rest = append_file path bytes files in
    if bytes_eq name path then (name, content ++ bytes) ∷ files else (name, content) ∷ rest

unfoldable pub remove_file : Bytes → List (Bytes × Bytes) → List (Bytes × Bytes)
remove_file path [] = []
remove_file path ((name, content) ∷ files) =
    let rest = remove_file path files in
    if bytes_eq name path then files else (name, content) ∷ rest

module _ (disk : Disk) where
  -- `create_dir_all` of the last of these paths, of which each is the parent of the next.
  unfoldable pub make_all : Output → List Bytes → Output × Result (Unit {0})
  make_all o [] = (o, ok tt)
  make_all o (path ∷ paths) =
      elim (contains o.directories path || (disk.makes path && not (is_file o path))) [
        | false ↦ (o, err create_failed)
        | true ↦ make_all (record o { directories = insert o.directories path }) paths
      ]

  unfoldable pub create_dir_all : Output → Bytes → Output × Result (Unit {0})
  create_dir_all o path = make_all o (path_parents path ++ (path ∷ []))

  -- `OpenOptions` with `create_new`.
  unfoldable pub create_new : Output → Bytes → Result Output
  create_new o path =
      bail_if (is_file o path || (contains o.directories path || not (disk.creates path)))
        create_failed
      ⟫= λ _. ok (record o { files = (path, []) ∷ o.files })

  unfoldable pub write_all : Output → Bytes → Bytes → Bytes → Output × Result (Unit {0})
  write_all o path written bytes = elim (disk.short_write path written bytes) [
    | none ↦ (record o { files = append_file path bytes o.files }, ok tt)
    | some n ↦ (record o { files = append_file path (take n bytes) o.files }, err write_failed)
  ]

  module _ (x : External) (archive : Bytes) (chunks : ChunkMap) where
    -- The loop over `chunk_hashes`, with the bytes given to the hasher and their number so far.
    unfoldable pub write_chunks :
        Output → Bytes → List Bytes → Bytes → ℕ → Output × Result (Bytes × ℕ)
    write_chunks o path [] acc size = (o, ok (acc, size))
    write_chunks o path (hash ∷ hashes) acc size =
        elim (require_chunk chunks hash ⟫= λ meta. read_chunk_data x archive hash meta) [
          | err e ↦ (o, err e)
          | ok bytes ↦
              let (o', written) = write_all o path acc bytes in
              elim (written ⟫= λ _. checked_add size (length bytes)) [
                | err e ↦ (o', err e)
                | ok size' ↦ write_chunks o' path hashes (acc ++ bytes) size'
              ]
        ]

    -- What follows the loop in the closure of `extract_file_record`.
    unfoldable pub check_written : FileRecord → Bytes × ℕ → Result (Unit {0})
    check_written file read = bail_if (not (disk.flushes file.path)) flush_failed ⟫= λ _.
        bail_if (not (read.1 == file.original_size)) file_size_mismatch ⟫= λ _.
        bail_if (not (bytes_eq (x.hash read.0) file.hash)) file_hash_mismatch

    unfoldable pub write_contents : Output → FileRecord → Output × Result (Unit {0})
    write_contents o file =
        let (o', read) = write_chunks o file.path file.chunk_hashes [] 0 in
        (o', read ⟫= check_written file)

    -- `remove_file` behind a failure, whose own result is ignored.
    unfoldable pub clean_up : Bytes → Output × Result (Unit {0}) → Output × Result (Unit {0})
    clean_up path (o, ok u) = (o, ok u)
    clean_up path (o, err e) =
        (if disk.removes path then record o { files = remove_file path o.files } else o, err e)

    unfoldable pub extract_file_record : Output → FileRecord → Output × Result (Unit {0})
    extract_file_record o file = elim (validate_archive_path file.path) [
      | err e ↦ (o, err e)
      | ok safe_path ↦
          let (o1, made) = make_all o (path_parents safe_path) in
          elim (made ⟫= λ _. create_new o1 safe_path) [
            | err e ↦ (o1, err e)
            | ok o2 ↦ clean_up file.path (write_contents o2 file)
          ]
    ]

  unfoldable pub make_directories : Output → List Bytes → Output × Result (Unit {0})
  make_directories o [] = (o, ok tt)
  make_directories o (path ∷ paths) = elim (validate_archive_path path) [
    | err e ↦ (o, err e)
    | ok safe_path ↦
        let (o', made) = create_dir_all o safe_path in
        elim made [ err e ↦ (o', err e) | ok u ↦ make_directories o' paths ]
  ]

  unfoldable pub extract_files :
      External → Bytes → ChunkMap → Output → List FileRecord → Output × Result (Unit {0})
  extract_files x archive chunks o [] = (o, ok tt)
  extract_files x archive chunks o (file ∷ files) =
      let (o', extracted) = extract_file_record x archive chunks o file in
      elim extracted [ err e ↦ (o', err e) | ok u ↦ extract_files x archive chunks o' files ]

abbrev pub empty_output : Output
empty_output = record { directories = []; files = [] }

-- The closure `matches` of `extract_reader`.
unfoldable pub matches : Option Bytes → Bytes → Bool
matches none path = true
matches (some wanted) path =
    bytes_eq path wanted
    || elim (strip_label wanted path) [ none ↦ false | some suffix ↦ starts_with_slash suffix ]

unfoldable pub matching_files : Option Bytes → List FileRecord → List FileRecord
matching_files selected [] = []
matching_files selected (file ∷ files) =
    let rest = matching_files selected files in
    if matches selected file.path then file ∷ rest else rest

unfoldable pub matching_paths : Option Bytes → List Bytes → List Bytes
matching_paths selected [] = []
matching_paths selected (path ∷ paths) =
    let rest = matching_paths selected paths in if matches selected path then path ∷ rest else rest

-- `path.matches('/').count()`
unfoldable pub depth : Bytes → ℕ
depth path = length (split_slash path) - 1

-- `sort_by_key`, which is stable.
unfoldable pub insert_by_depth : Bytes → List Bytes → List Bytes
insert_by_depth path [] = path ∷ []
insert_by_depth path (next ∷ paths) =
    let rest = insert_by_depth path paths in
    if leb (depth path) (depth next) then path ∷ (next ∷ paths) else next ∷ rest

unfoldable pub sort_by_depth : List Bytes → List Bytes
sort_by_depth [] = []
sort_by_depth (path ∷ paths) = insert_by_depth path (sort_by_depth paths)

unfoldable pub check_selected : Option Bytes → Result (Unit {0})
check_selected none = ok tt
check_selected (some path) = validate_archive_path path ⟫= λ _. ok tt

unfoldable pub check_found : Option Bytes → ArchiveCatalog → Result (Unit {0})
check_found none catalog = ok tt
check_found (some path) catalog =
    bail_if (length catalog.files == 0 && length catalog.directories == 0) selected_not_found

-- The files and directories of the catalog that are to be extracted.
unfoldable pub select : Option Bytes → ArchiveCatalog → ArchiveCatalog
select selected catalog = record catalog {
  files = matching_files selected catalog.files;
  directories = matching_paths selected catalog.directories;
}

module _ (disk : Disk) where
  -- `extract_reader` up to `create_dir`. Whether the output exists is an argument.
  unfoldable pub begin_extraction : Bool → Option Bytes → Bytes → Result ArchiveCatalog
  begin_extraction exists selected archive = bail_if exists output_exists ⟫= λ _.
      check_selected selected ⟫= λ _. scan_archive_reader archive ⟫= λ catalog.
      check_found selected (select selected catalog) ⟫= λ _.
      bail_if (not disk.makes_output) create_failed ⟫= λ _. ok (select selected catalog)

  -- The closure that fills the new output directory.
  unfoldable pub fill_output : External → Bytes → ArchiveCatalog → Output × Result (Unit {0})
  fill_output x archive catalog =
      let (o, made) = make_directories disk empty_output (sort_by_depth catalog.directories) in
      elim made [
        | err e ↦ (o, err e)
        | ok u ↦ extract_files disk x archive catalog.chunks o catalog.files
      ]

  -- `remove_dir_all` behind a failure, whose own result is ignored; `none` is no directory.
  unfoldable pub clean_output :
      ArchiveInfo → Output × Result (Unit {0}) → Option Output × Result ArchiveInfo
  clean_output info (o, ok u) = (some o, ok info)
  clean_output info (o, err e) = (disk.leaves o, err e)

  -- The directory that the call has made, and its result.
  unfoldable pub extract_reader :
      External → Bool → Option Bytes → Bytes → Option Output × Result ArchiveInfo
  extract_reader x exists selected archive = elim (begin_extraction exists selected archive) [
    | err e ↦ (none, err e)
    | ok catalog ↦ clean_output catalog.info (fill_output x archive catalog)
  ]
