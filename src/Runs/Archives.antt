-- ===== src/Runs/Archives.antt =====
-- A small archive, packed, scanned, verified and read.
use rgx.Common.{
  ◌<◌, ◌≤◌, take, ◌++◌, replicate, length-take, length-append, All, ap, sym, ◌∙◌, ℕ, ◌≡◌, ◌≢◌, refl,
  arith, List, [], ◌∷◌, ◌++◌, Bytes, Option, none, some, Result, ok, err, out_of_fuel, length,
  concat, stream, ◌>>=◌, read_exact, le_bytes, bytes_eq, read_le, from_le_bytes, skip,
  stream_position,
}
use rgx.Format.{
  ChunkHeader, magic, chunk_magic, file_magic, directory_magic, footer_magic, write_header,
  write_chunk_header, write_directory_header, write_file_header, write_footer, read_header,
  read_tag, read_chunk_header_after_magic, read_file_header_after_magic,
  read_directory_header_after_magic, read_footer_after_magic,
}
use rgx.Chunker.{gear_value, push, rotate_left_one, should_cut}
use rgx.Archive.{
  IsExternal, External, ArchiveInfo, ArchiveCatalog, FileRecord, ChunkMeta, checked_add, contains,
  info_from_footer, get_chunk, insert, validate_chunk_header,
}
use rgx.Archive.Paths.{
  normalize_relative_path, validate_components, starts_with_slash, components, split_slash, is_dot,
  part_components, is_empty, is_dot_dot, is_utf8, check_components, cons_head, join_normal,
  join_slash, leading_dot, normal_parts, utf8_from, utf8_lead, utf8_next, checked_path_len,
  read_path, check_parts, contains_byte, validate_archive_path,
}
use rgx.Archive.Pack.{
  WalkEntry, eof, block, directory, file, pack_to_writer, pack_entries, pack_entry, admit_item,
  strip_prefix, choose_payload, finish_file, flush_chunk, footer_of, pack_directory, pack_file,
  pack_kind, push_byte, push_bytes, push_chunk, read_blocks, write_new_chunk,
  write_or_reference_chunk,
}
use rgx.Archive.Scan.{
  ScanState, start_scan, more, scan_archive_reader, scan_loop, scan_round, require_tag, scan_record,
  scan_directory, scan_path, any_in, check_catalog, checked_sub, expected_footer, find_chunk,
  footer_eq, insert_chunk, parents, path_parents, scan_chunk, scan_file, scan_reference,
  scan_references, sum_sizes, validate_path_tree,
}
use rgx.Archive.Scan.Total.{scan_archive_reader-ends}
use rgx.Archive.Scan.Rounds.{
  IsStorable, meta_of, chunk_round, directory_round, file_round, with_chunk, with_directory,
  with_file, directory_record, file_record, refer, nothing,
}
use rgx.Archive.Read.{
  verify_reader, read_entry_reader, find_file, read_chunk_data, verified_bytes, decode_payload,
  read_chunks_counted, read_payload, require_chunk, verify_file_record, verify_files,
}
use rgx.Archive.RoundTrip.Cuts.{contents}
use rgx.Archive.RoundTrip.Walk.{
  IsStored, entry_path, ok_or_empty, kind_files, kind_paths, walk_files, walk_paths,
  walk_file_paths,
}
use rgx.Archive.RoundTrip.ReadBack.{lookup}
use rgx.Archive.RoundTrip.Restored.{
  Piece, here, there, IsPiece, found_or_missing, verify_reader-pack_to_writer,
  read_entry_reader-pack_to_writer,
}
use rgx.Archive.Read.Checked.{read_entry-verify, read_chunk_data_checked}

pub toy_compress : Bytes → ℕ → Option Bytes
toy_compress [] level = none
toy_compress (b ∷ bs) level = some (b ∷ bs)

pub toy_decompress : Bytes → ℕ → Option Bytes
toy_decompress d capacity = some d

-- The length and the first 31 bytes as a digest, and a compression that changes nothing.
abbrev pub toy : External
toy = record {
  hash = λ d. length d ∷ take 31 (d ++ replicate 31 0);
  compress = toy_compress;
  decompress = toy_decompress;
}

abbrev pub path : Bytes
path = b'd' ∷ b'/' ∷ b'f' ∷ []

abbrev pub second_path : Bytes
second_path = b'd' ∷ b'/' ∷ b'g' ∷ []

abbrev pub one_two_three : Bytes
one_two_three = 1 ∷ 2 ∷ 3 ∷ []

abbrev pub walk : List WalkEntry
walk =
    record { kind = directory; relative = some (b'd' ∷ []) }
    ∷ record { kind = file (block (1 ∷ 2 ∷ 3 ∷ []) eof); relative = some path }
    ∷ record { kind = file (block (1 ∷ []) (block (2 ∷ 3 ∷ []) eof)); relative = some second_path }
    ∷ []

abbrev packed : Result (Bytes × ArchiveInfo)
packed = pack_to_writer toy 3 (some walk)

abbrev pub file_hash : Bytes
file_hash = 3 ∷ 1 ∷ 2 ∷ 3 ∷ replicate 28 0

abbrev pub toy_archive : Bytes
toy_archive = concat (
    magic
    ∷ le_bytes 2 0
    ∷ le_bytes 2 2
    ∷ le_bytes 8 0
    ∷ directory_magic
    ∷ le_bytes 4 1
    ∷ le_bytes 4 0
    ∷ (b'd' ∷ [])
    ∷ chunk_magic
    ∷ le_bytes 4 0
    ∷ le_bytes 8 3
    ∷ le_bytes 8 3
    ∷ file_hash
    ∷ (1 ∷ 2 ∷ 3 ∷ [])
    ∷ file_magic
    ∷ le_bytes 4 3
    ∷ le_bytes 4 1
    ∷ le_bytes 8 3
    ∷ file_hash
    ∷ path
    ∷ file_hash
    ∷ file_magic
    ∷ le_bytes 4 3
    ∷ le_bytes 4 1
    ∷ le_bytes 8 3
    ∷ file_hash
    ∷ second_path
    ∷ file_hash
    ∷ footer_magic
    ∷ le_bytes 8 3
    ∷ le_bytes 8 2
    ∷ le_bytes 8 1
    ∷ le_bytes 8 1
    ∷ le_bytes 8 2
    ∷ le_bytes 8 6
    ∷ le_bytes 8 3
    ∷ le_bytes 8 3
    ∷ [])

abbrev pub toy_info : ArchiveInfo
toy_info = record {
  entries = 3;
  files = 2;
  directories = 1;
  original_bytes = 6;
  stored_bytes = 3;
  unique_chunks = 1;
  chunk_references = 2;
  deduplicated_bytes = 3;
}

abbrev pub toy_file : FileRecord
toy_file = record {
  path = path;
  original_size = 3;
  hash = file_hash;
  chunk_hashes = file_hash ∷ [];
}

abbrev pub second_file : FileRecord
second_file = record toy_file { path = second_path }

abbrev pub toy_meta : ChunkMeta
toy_meta = record { compression = 0; original_size = 3; payload_size = 3; payload_offset = 85 }

abbrev pub toy_catalog : ArchiveCatalog
toy_catalog = record {
  chunks = (file_hash, toy_meta) ∷ [];
  files = toy_file ∷ second_file ∷ [];
  directories = (b'd' ∷ []) ∷ [];
  info = toy_info;
}

pub packed_toy : pack_to_writer toy 3 (some walk) ≡ ok (toy_archive, toy_info)
unfolding pack_to_writer pack_entries pack_entry admit_item strip_prefix choose_payload finish_file
    flush_chunk footer_of pack_directory pack_file pack_kind push_byte push_bytes push_chunk
    read_blocks write_new_chunk write_or_reference_chunk normalize_relative_path validate_components
    starts_with_slash components split_slash is_dot part_components is_empty is_dot_dot is_utf8
    check_components cons_head join_normal join_slash leading_dot normal_parts utf8_from utf8_lead
    utf8_next checked_path_len write_header write_chunk_header write_directory_header
    write_file_header write_footer checked_add contains info_from_footer gear_value push
    rotate_left_one should_cut le_bytes bytes_eq toy_compress
packed_toy = refl

pub scanned_toy : scan_archive_reader toy_archive ≡ ok toy_catalog
unfolding scan_archive_reader scan_loop scan_round require_tag scan_record scan_directory scan_path
    any_in check_catalog checked_sub expected_footer find_chunk footer_eq insert_chunk parents
    path_parents scan_chunk scan_file scan_reference scan_references sum_sizes validate_path_tree
    validate_components starts_with_slash components split_slash is_dot part_components is_empty
    is_dot_dot is_utf8 check_components cons_head join_slash leading_dot utf8_from utf8_lead
    utf8_next read_path check_parts contains_byte validate_archive_path read_header read_tag
    read_chunk_header_after_magic read_file_header_after_magic read_directory_header_after_magic
    read_footer_after_magic checked_add contains info_from_footer get_chunk insert
    validate_chunk_header ◌>>=◌ read_exact le_bytes bytes_eq read_le from_le_bytes skip
    stream_position
scanned_toy = refl

verified_toy : verify_reader toy toy_archive ≡ ok toy_info
unfolding verify_reader verified_bytes read_chunk_data decode_payload read_chunks_counted
    read_payload require_chunk verify_file_record verify_files checked_add get_chunk le_bytes
    bytes_eq read_exact
verified_toy = rw scanned_toy

scan_archive_reader-ends_example : scan_archive_reader toy_archive ≢ err out_of_fuel
scan_archive_reader-ends_example = scan_archive_reader-ends toy_archive

path_valid : validate_archive_path path ≡ ok path
unfolding validate_archive_path check_parts validate_components check_components components
    part_components leading_dot split_slash cons_head contains_byte starts_with_slash is_empty
    is_dot is_dot_dot bytes_eq
path_valid = refl

found_toy : find_file toy toy_catalog.files path ≡ ok toy_file
unfolding find_file bytes_eq
found_toy = refl

read_entry-verify_example :
    (d : Bytes) × (read_entry_reader toy toy_archive path ≡ ok d)
    × (length d ≡ 3)
    × (toy.hash d ≡ file_hash)
read_entry-verify_example =
    read_entry-verify toy toy_archive toy_info toy_catalog path toy_file verified_toy scanned_toy
      path_valid found_toy

chunk_toy : read_chunk_data toy toy_archive file_hash toy_meta ≡ ok one_two_three
unfolding read_chunk_data decode_payload read_payload le_bytes bytes_eq read_exact
chunk_toy = refl

read_chunk_data_checked_example : (toy.hash one_two_three ≡ file_hash) × (length one_two_three ≡ 3)
read_chunk_data_checked_example =
    read_chunk_data_checked toy toy_archive file_hash toy_meta one_two_three chunk_toy

abbrev toy_header : ChunkHeader
toy_header = record { compression = 0; original_size = 3; payload_size = 3; hash = file_hash }

chunk_round_example :
    scan_round start_scan (stream 16 (write_chunk_header toy_header ++ (one_two_three ++ (9 ∷ []))))
    ≡ ok (more (with_chunk start_scan toy_header 72), stream 75 (9 ∷ []))
unfolding validate_chunk_header get_chunk le_bytes
chunk_round_example =
    chunk_round start_scan toy_header one_two_three 16 (9 ∷ [])
      (record {
        compression = omega arith;
        original_size = omega arith;
        payload_size = omega arith;
        hash = refl;
      })
      refl (omega arith) refl refl (omega arith)

path-IsStorable : IsStorable path
unfolding is_utf8 utf8_from utf8_next utf8_lead is_empty
path-IsStorable = record { nonempty = refl; short = omega arith; utf8 = refl; valid = path_valid }

directory_round_example :
    scan_round start_scan (stream 16 (directory_record path ++ (9 ∷ [])))
    ≡ ok (more (with_directory start_scan path), stream 31 (9 ∷ []))
unfolding contains
directory_round_example =
    directory_round start_scan path 16 (9 ∷ []) path-IsStorable refl (omega arith) (omega arith)

abbrev behind_chunk : ScanState
behind_chunk = with_chunk start_scan toy_header 72

file_hash_found : get_chunk behind_chunk.chunks file_hash ≡ some (meta_of toy_header 72)
unfolding get_chunk bytes_eq le_bytes
file_hash_found = refl

file_round_example :
    scan_round behind_chunk (stream 75 (file_record path (file_hash ∷ []) 3 file_hash ++ (9 ∷ [])))
    ≡ ok (more (with_file behind_chunk path (file_hash ∷ []) 3 file_hash), stream 162 (9 ∷ []))
unfolding contains le_bytes
file_round_example =
    file_round behind_chunk path (file_hash ∷ []) 3 file_hash path-IsStorable refl refl
      (omega arith) (refer file_hash (meta_of toy_header 72) refl file_hash_found nothing)
      (omega arith) (omega arith) (omega arith) (omega arith) (omega arith) 75 (9 ∷ [])

toy-compress_nonempty : (d c : Bytes) (level : ℕ) → toy_compress d level ≡ some c → 0 < length c
unfolding toy_compress
toy-compress_nonempty [] c level e = cc
toy-compress_nonempty (b ∷ bs) c level e = let same : b ∷ bs ≡ c = cc in rw (← same) (omega arith)

toy_decompress-compress :
    (d c : Bytes) (level : ℕ) → toy_compress d level ≡ some c → toy_decompress c (length d) ≡ some d
unfolding toy_compress toy_decompress
toy_decompress-compress [] c level e = cc
toy_decompress-compress (b ∷ bs) c level e = sym e

toy-IsExternal : IsExternal toy
toy-IsExternal = record {
  hash_length =
      λ d. omega (arith, length-take 31 (d ++ replicate 31 0), length-append d (replicate 31 0));
  compress_nonempty = toy-compress_nonempty;
  decompress-compress = toy_decompress-compress;
}

-- The bytes behind a digest, when there are few of them.
unhash : Bytes → Bytes
unhash [] = []
unhash (n ∷ bytes) = take n bytes

unhash-hash : (d : Bytes) → length d ≤ 3 → unhash (toy.hash d) ≡ d
unfolding unhash
unhash-hash [] h = refl
unhash-hash (a ∷ []) h = refl
unhash-hash (a ∷ b ∷ []) h = refl
unhash-hash (a ∷ b ∷ c ∷ []) h = refl
unhash-hash (a ∷ b ∷ c ∷ e ∷ d) h = absurd (omega arith)

length-Piece :
    (d : Bytes) {fs : List (Bytes × Bytes)}
    → All (λ f. length f.1 ≤ 3) fs
    → Piece d fs
    → length d ≤ 3
length-Piece d h (here path content before after e) =
    let whole = ap length e in
    omega (arith, h.0, whole, length-append before (d ++ after), length-append d after)
length-Piece d h (there f p) = length-Piece d h.1 p

short_files : All (λ f. length f.1 ≤ 3) (walk_files walk)
unfolding walk_files kind_files contents
short_files = (omega arith, (omega arith, tt))

toy-no_collision :
    (a b : Bytes)
    → IsPiece toy toy-IsExternal 3 walk a
    → IsPiece toy toy-IsExternal 3 walk b
    → toy.hash a ≡ toy.hash b
    → a ≡ b
toy-no_collision a b p q e =
    sym (unhash-hash a (length-Piece a short_files p))
    ∙ ap unhash e
    ∙ unhash-hash b (length-Piece b short_files q)

walk-IsStored : IsStored [] walk
unfolding entry_path ok_or_empty strip_prefix normalize_relative_path validate_archive_path
    check_parts validate_components check_components components part_components leading_dot
    split_slash join_slash join_normal normal_parts cons_head contains_byte starts_with_slash
    is_empty is_dot is_dot_dot bytes_eq is_utf8 utf8_from utf8_next utf8_lead contains
walk-IsStored = (refl, refl, refl, (refl, refl, refl, (refl, refl, refl, tt)))

walk_tree : validate_path_tree (walk_paths [] walk) (walk_file_paths [] walk) ≡ ok tt
unfolding walk_paths walk_file_paths kind_paths entry_path ok_or_empty strip_prefix
    normalize_relative_path validate_components check_components components part_components
    leading_dot split_slash join_slash join_normal normal_parts cons_head starts_with_slash is_empty
    is_dot is_dot_dot bytes_eq is_utf8 utf8_from utf8_next utf8_lead contains validate_path_tree
    path_parents parents any_in
walk_tree = refl

verify_reader-pack_to_writer_example : verify_reader toy toy_archive ≡ ok toy_info
verify_reader-pack_to_writer_example =
    verify_reader-pack_to_writer toy toy-IsExternal 3 walk toy-no_collision walk-IsStored walk_tree
      toy_archive toy_info packed_toy

second_path_valid : validate_archive_path second_path ≡ ok second_path
unfolding validate_archive_path check_parts validate_components check_components components
    part_components leading_dot split_slash cons_head contains_byte starts_with_slash is_empty
    is_dot is_dot_dot bytes_eq
second_path_valid = refl

read_entry_reader-pack_to_writer_example :
    read_entry_reader toy toy_archive second_path
    ≡ found_or_missing (lookup (walk_files walk) second_path)
read_entry_reader-pack_to_writer_example =
    read_entry_reader-pack_to_writer toy toy-IsExternal 3 walk toy-no_collision walk-IsStored
      walk_tree toy_archive toy_info second_path packed_toy second_path_valid
