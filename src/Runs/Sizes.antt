-- ===== src/Runs/Sizes.antt =====
-- Runs of the chunking in `pack_file` and of the scan of src/archive.rs.
use rgx.Common.{◌≡◌, refl, [], ◌∷◌, ok, bytes_eq, le_bytes, arith}
use rgx.Chunker.{gear_value, push, rotate_left_one, should_cut}
use rgx.Archive.{checked_add}
use rgx.Archive.Pack.{
  FileState, Reads, eof, block, start_file, start_pack, push_byte, push_bytes, push_chunk,
  read_blocks,
}
use rgx.Archive.RoundTrip.Cuts.{contents}
use rgx.Archive.RoundTrip.Sizes.{CutInto, read_blocks-CutInto}
use rgx.Archive.Scan.Catalog.{IsCatalog, scan_archive_reader-IsCatalog}
use rgx.Runs.Archives.{toy, toy_archive, toy_catalog, scanned_toy}
use rgx.Runs.Keys.{result_or}

abbrev two_reads : Reads
two_reads = block (1 ∷ 2 ∷ []) (block (3 ∷ []) eof)

abbrev after_reads : FileState
after_reads =
    result_or (read_blocks toy 3 (start_file start_pack) two_reads) (start_file start_pack)

after_reads_ok : read_blocks toy 3 (start_file start_pack) two_reads ≡ ok after_reads
unfolding read_blocks push_bytes push_byte push_chunk should_cut push gear_value rotate_left_one
    checked_add bytes_eq le_bytes
after_reads_ok = refl

read_blocks-CutInto_example : CutInto toy 3 (start_file start_pack) after_reads (contents two_reads)
read_blocks-CutInto_example =
    read_blocks-CutInto toy 3 (start_file start_pack) after_reads two_reads (omega arith)
      after_reads_ok

scan_archive_reader-IsCatalog_example : IsCatalog toy_catalog
scan_archive_reader-IsCatalog_example =
    scan_archive_reader-IsCatalog toy_archive toy_catalog scanned_toy
