-- ===== src/Lib.antt =====
-- RGX: an archiver that splits files into content-defined chunks, stores each chunk once, and
-- checks every chunk and file by a BLAKE3 digest; archives may be wrapped in an encrypted stream.
--
-- The parts and their files:
--
-- src/format.rs, the records of an archive: `Format`. A reader is a `Parser`, a function from a
--   stream (position and rest) to a result; `write_u16` and its kin are `le_bytes`, `read_u16` and
--   its kin are `read_le`. The round trips are in `Format/RoundTrip`.
-- src/chunker.rs, the rolling hash and the cut test: `Chunker`. A `u64` keeps its wrap-around.
-- src/archive.rs: `Archive` has the shared types and helpers, and below it
--   `Paths` the path checks (`validate_archive_path`, `normalize_relative_path`, `read_path`),
--   `Pack` packing (`pack_to_writer`, `pack_file`, `write_or_reference_chunk`); what the functions
--     share through `&mut` is the record `PackState`, the locals of `pack_file` are `FileState`,
--   `Scan` the scan of all records (`scan_archive_reader`); its locals are `ScanState`, one round of
--     its loop is `scan_round`,
--   `Read` reading a scanned archive (`read_entry_reader`, `verify_reader`, `find_reader`,
--     `list_reader`, `info_reader`),
--   `Extract` extraction into an output directory (`extract_reader`, `extract_file_record`), whose
--     files and directories are the record `Output`,
--   `RoundTrip` the relation of the packer's state to the scan's, record by record, from which
--     `Restored` concludes for whole archives.
-- src/keyed_stream.rs and src/private.rs: their frames, writers and readers differ in the marker, the
--   place of the first frame and the messages, and are modelled once in `Frames`; the headers and
--   what opens a stream are in `Keyed` and `Private`. `Frames/Stream` says how the frames of a stream
--   lie in a file, and `Keyed/Stream` and `Private/ReadBack` relate what is
--   written to what is read.
-- src/recipient.rs: `Recipient`, the slots that wrap an archive key, and `Recipient/KeyFiles`, the key
--   files as texts and the search for a matching key (`find_matching_private_key`).
-- src/recipient_archive.rs: `RecipientArchive`, the envelope in front of a keyed stream, packing
--   (`pack_recipient`) and unlocking; `Envelope` has its round trip, `Unlock` and
--   `Payload` have what a packed file gives.
-- src/signature.rs: `Signature`, detached signatures.
-- `Text` has what these three use of Rust's `str`, on the bytes of a text: lines, prefixes, `trim`,
--   `parse`; and hexadecimal and decimal text.
-- `Common` has the helpers: results, streams, little-endian words, lists and Boolean tests over the
-- native numbers. `Runs` has concrete runs.
--
-- Packing calls the chunker and the writers of the format; scanning calls the format's readers, and
-- reading starts from the catalog of a scan. A private archive is what packing writes, passed through
-- the frames.
--
-- Conventions. A byte is a number below 256. An error is a constructor of `Error`, one for each
-- message; `out_of_fuel` is no error of the source. A hash map is an association list, a hash set a
-- list without repetition. A file is given by all its bytes. Writing the output of packing never fails;
-- for extraction, `Disk` says which calls of the file system fail.
--
-- Fuel. `scan_loop` has one more than the length of the archive: each round takes a tag of four bytes
-- at least. `open_loop` has one more than the length of the file, since a round that goes on has found
-- a whole frame; the writer's loop has the number of bytes, since a round takes one at least; the
-- reader's loop has the number of bytes wanted.
--
-- Parameters. BLAKE3 and zstd are the record `External`, XChaCha20-Poly1305 is `Aead`, Argon2id is
-- `Kdf`; `Crypto` has all that the recipients' archives use, with X25519 and Ed25519. What their
-- documentation promises is in `IsExternal`, `IsAead` and `IsCrypto`. Random bytes, the directory walk
-- and the results of reading a file are arguments.
--
-- Not modelled: the paths of key files and the environment variables of src/recipient.rs, with
-- the writing of key files; opening files and canonicalising paths (`reject_output_inside_input`), the
-- command line of src/main.rs, src/benchmark.rs, the desktop application and the fuzz targets. An
-- address space of 64 bits is assumed, so conversions to `usize` do not fail, and a seek past the end
-- of a file does not fail.
pub mod Common
pub mod Format
pub mod Chunker
pub mod Archive
pub mod Frames
pub mod Keyed
pub mod Private
pub mod Text
pub mod Recipient
pub mod RecipientArchive
pub mod Signature
pub mod Runs
