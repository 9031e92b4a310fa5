-- ===== src/Runs/Extract.antt =====
-- Runs of the extraction in src/archive.rs.
use rgx.Common.{
  ◌≡◌, refl, [], ◌∷◌, none, some, true, false, ok, err, le_bytes, bytes_eq, read_exact,
  file_hash_mismatch, write_failed, ascii,
}
use rgx.Archive.{FileRecord, checked_add, get_chunk, contains, insert}
use rgx.Archive.Paths.{
  validate_archive_path, check_parts, validate_components, check_components, components,
  part_components, leading_dot, split_slash, join_slash, cons_head, contains_byte,
  starts_with_slash, is_empty, is_dot, is_dot_dot,
}
use rgx.Archive.Scan.{path_parents, parents}
use rgx.Archive.Read.{read_chunk_data, decode_payload, read_payload, require_chunk}
use rgx.Text.{strip_label}
use rgx.Archive.Extract.{
  Disk, empty_output, get_file, is_file, append_file, remove_file, make_all, create_dir_all,
  create_new, write_all, write_chunks, check_written, write_contents, clean_up, extract_file_record,
  make_directories, extract_files, matches, matching_files, matching_paths, depth, insert_by_depth,
  sort_by_depth, check_selected, check_found, select, begin_extraction, fill_output, clean_output,
  extract_reader,
}
use rgx.Archive.Extract.Kept.{Extraction, extract_file_record-Extraction}
use rgx.Archive.Extract.Whole.{IsCleaning, Extracted, extract_reader-Extracted}
use rgx.Runs.Archives.{
  toy, toy_archive, toy_catalog, toy_file, toy_info, scanned_toy, path, second_path, one_two_three,
}

-- A disk on which nothing fails, and one whose first write is short.
abbrev calm : Disk
calm = record {
  makes = λ path. true;
  creates = λ path. true;
  short_write = λ path written bytes. none;
  flushes = λ path. true;
  removes = λ path. true;
  makes_output = true;
  leaves = λ o. none;
}

abbrev full : Disk
full = record calm { short_write = λ path written bytes. some 2 }

-- A record with the digest of other bytes.
abbrev wrong_file : FileRecord
wrong_file = record toy_file { hash = [] }

extract_one :
    extract_file_record calm toy toy_archive toy_catalog.chunks empty_output toy_file
    ≡ (record { directories = ascii "d" ∷ []; files = (path, one_two_three) ∷ [] }, ok tt)
unfolding extract_file_record clean_up write_contents check_written write_chunks write_all
    create_new make_all is_file get_file append_file remove_file contains insert read_chunk_data
    decode_payload read_payload require_chunk get_chunk checked_add le_bytes bytes_eq read_exact
    validate_archive_path check_parts validate_components check_components components
    part_components leading_dot split_slash join_slash cons_head contains_byte starts_with_slash
    is_empty is_dot is_dot_dot path_parents parents
extract_one = refl

extract_wrong :
    extract_file_record calm toy toy_archive toy_catalog.chunks empty_output wrong_file
    ≡ (record { directories = ascii "d" ∷ []; files = [] }, err file_hash_mismatch)
unfolding extract_file_record clean_up write_contents check_written write_chunks write_all
    create_new make_all is_file get_file append_file remove_file contains insert read_chunk_data
    decode_payload read_payload require_chunk get_chunk checked_add le_bytes bytes_eq read_exact
    validate_archive_path check_parts validate_components check_components components
    part_components leading_dot split_slash join_slash cons_head contains_byte starts_with_slash
    is_empty is_dot is_dot_dot path_parents parents
extract_wrong = refl

extract_full :
    extract_file_record full toy toy_archive toy_catalog.chunks empty_output toy_file
    ≡ (record { directories = ascii "d" ∷ []; files = [] }, err write_failed)
unfolding extract_file_record clean_up write_contents check_written write_chunks write_all
    create_new make_all is_file get_file append_file remove_file contains insert read_chunk_data
    decode_payload read_payload require_chunk get_chunk checked_add le_bytes bytes_eq read_exact
    validate_archive_path check_parts validate_components check_components components
    part_components leading_dot split_slash join_slash cons_head contains_byte starts_with_slash
    is_empty is_dot is_dot_dot path_parents parents
extract_full = refl

extract_file_record-Extraction_example :
    Extraction full toy toy_archive toy_catalog.chunks empty_output toy_file
      (extract_file_record full toy toy_archive toy_catalog.chunks empty_output toy_file)
extract_file_record-Extraction_example =
    extract_file_record-Extraction full toy toy_archive toy_catalog.chunks empty_output toy_file
      refl

begun_toy : begin_extraction calm false (some (ascii "d")) toy_archive ≡ ok toy_catalog
unfolding begin_extraction matches matching_files matching_paths check_selected check_found select
    strip_label validate_archive_path check_parts validate_components check_components components
    part_components leading_dot split_slash cons_head contains_byte starts_with_slash is_empty
    is_dot is_dot_dot bytes_eq
begun_toy = rw scanned_toy refl

-- The directory and two files of the archive.
extract_toy : extract_reader calm toy false (some (ascii "d")) toy_archive ≡ (
  some (record {
    directories = ascii "d" ∷ [];
    files = (second_path, one_two_three) ∷ (path, one_two_three) ∷ [];
  }),
  ok toy_info,
)
unfolding extract_file_record clean_up write_contents check_written write_chunks write_all
    create_new make_all is_file get_file append_file remove_file contains insert read_chunk_data
    decode_payload read_payload require_chunk get_chunk checked_add le_bytes bytes_eq read_exact
    validate_archive_path check_parts validate_components check_components components
    part_components leading_dot split_slash join_slash cons_head contains_byte starts_with_slash
    is_empty is_dot is_dot_dot path_parents parents extract_files make_directories create_dir_all
    depth insert_by_depth sort_by_depth fill_output clean_output extract_reader
extract_toy = rw (begun_toy, extract_reader) refl

calm-IsCleaning : IsCleaning calm
calm-IsCleaning = record { removes = λ path. refl; leaves = λ o. refl }

extract_reader-Extracted_example :
    Extracted toy toy_archive
      (some (ascii "d"))
      (extract_reader calm toy false (some (ascii "d")) toy_archive)
extract_reader-Extracted_example =
    extract_reader-Extracted calm calm-IsCleaning toy toy_archive (some (ascii "d")) false
