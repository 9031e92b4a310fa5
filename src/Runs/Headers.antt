-- ===== src/Runs/Headers.antt =====
-- Runs of the headers of src/format.rs, src/keyed_stream.rs and src/private.rs.
use rgx.Common.{
  ◌≡◌, refl, inr, [], ◌∷◌, ◌++◌, Bytes, ok, err, arith, bytes_eq, replicate, true, stream,
  read_exact, ◌>>=◌, not_rgx,
}
use rgx.Format.{
  Header, ChunkHeader, FileHeader, DirectoryHeader, Footer, write_header, read_header, chunk_magic,
  file_magic, directory_magic, footer_magic, read_chunk_header_after_magic,
  read_file_header_after_magic, read_directory_header_after_magic, read_footer_after_magic,
  write_chunk_header, write_file_header, write_directory_header, write_footer, compression_zstd,
}
use rgx.Format.RoundTrip.{
  ReadsBack, read_header-write_header, read_chunk_header-write_chunk_header,
  read_file_header-write_file_header, read_directory_header-write_directory_header,
  read_footer-write_footer,
}
use rgx.Frames.Headers.{FrameHeader, encode_frame_header, decode_frame_header}
use rgx.Frames.Headers.RoundTrip.{decode_frame_header-encode_frame_header}
use rgx.Keyed
use rgx.Keyed.RoundTrip.{decode_header-encode_header}
use rgx.Private
use rgx.Private.RoundTrip.{decode_header-encode_header_with_minor}

abbrev digest : Bytes
digest = replicate 32 7

abbrev some_flags : Header
some_flags = record { flags = 0x0102_0304 }

abbrev some_chunk : ChunkHeader
some_chunk = record {
  compression = compression_zstd;
  original_size = 300;
  payload_size = 17;
  hash = digest;
}

abbrev some_file : FileHeader
some_file = record { path_len = 5; chunk_count = 2; original_size = 70_000; hash = digest }

abbrev some_directory : DirectoryHeader
some_directory = record { path_len = 3 }

abbrev some_footer : Footer
some_footer = record {
  entries = 3;
  files = 2;
  directories = 1;
  unique_chunks = 2;
  chunk_references = 3;
  original_bytes = 1_000_000;
  stored_payload_bytes = 500;
  deduplicated_bytes = 300;
}

read_header_other : read_header (stream 0 (0 ∷ 1 ∷ 2 ∷ 3 ∷ [])) ≡ err not_rgx
unfolding read_header bytes_eq read_exact ◌>>=◌
read_header_other = refl

read_header-write_header_example :
    read_header (stream 0 (write_header some_flags ++ (9 ∷ [])))
    ≡ ok (some_flags, stream 16 (9 ∷ []))
read_header-write_header_example =
    read_header-write_header some_flags 0 (9 ∷ []) (record { flags = omega arith })

read_chunk_header-write_chunk_header_example :
    ReadsBack read_chunk_header_after_magic chunk_magic some_chunk 16 56
      (write_chunk_header some_chunk)
      (9 ∷ [])
read_chunk_header-write_chunk_header_example =
    read_chunk_header-write_chunk_header some_chunk 16 (9 ∷ []) (record {
      compression = omega arith;
      original_size = omega arith;
      payload_size = omega arith;
      hash = refl;
    })

read_file_header-write_file_header_example :
    ReadsBack read_file_header_after_magic file_magic some_file 16 52
      (write_file_header some_file)
      (9 ∷ [])
read_file_header-write_file_header_example =
    read_file_header-write_file_header some_file 16 (9 ∷ []) (record {
      path_len = omega arith;
      chunk_count = omega arith;
      original_size = omega arith;
      hash = refl;
    })

read_directory_header-write_directory_header_example :
    ReadsBack read_directory_header_after_magic directory_magic some_directory 16 12
      (write_directory_header some_directory)
      (9 ∷ [])
read_directory_header-write_directory_header_example =
    read_directory_header-write_directory_header some_directory 16 (9 ∷ [])
      (record { path_len = omega arith })

read_footer-write_footer_example :
    ReadsBack read_footer_after_magic footer_magic some_footer 16 68 (write_footer some_footer) []
read_footer-write_footer_example = read_footer-write_footer some_footer 16 [] (record {
  entries = omega arith;
  files = omega arith;
  directories = omega arith;
  unique_chunks = omega arith;
  chunk_references = omega arith;
  original_bytes = omega arith;
  stored_payload_bytes = omega arith;
  deduplicated_bytes = omega arith;
})

abbrev last_frame : FrameHeader
last_frame = record { sequence = 3; plaintext_len = 5; ciphertext_len = 21; last = true }

decode_frame_header-encode_frame_header_example :
    decode_frame_header rgx.Keyed.frame_magic 65_536
      (encode_frame_header rgx.Keyed.frame_magic last_frame)
    ≡ ok last_frame
decode_frame_header-encode_frame_header_example =
    decode_frame_header-encode_frame_header rgx.Keyed.frame_magic 65_536 last_frame refl
      (omega arith)
      (record {
        sequence = omega arith;
        plaintext_len = omega arith;
        full = refl;
        ciphertext_len = refl;
      })

abbrev keyed_header : rgx.Keyed.StreamHeader
keyed_header = record { frame_size = 65_536; nonce_prefix = replicate 16 5; envelope_hash = digest }

decode_header-encode_header_example :
    rgx.Keyed.decode_header (rgx.Keyed.encode_header keyed_header) ≡ ok keyed_header
decode_header-encode_header_example =
    decode_header-encode_header keyed_header
      (record { at_least = refl; at_most = refl; nonce_prefix = refl; envelope_hash = refl })

abbrev private_header : rgx.Private.EncryptionHeader
private_header = rgx.Private.new_header (replicate 16 1) (replicate 16 2)

decode_header-encode_header_with_minor_example :
    rgx.Private.decode_header (rgx.Private.encode_header_with_minor private_header 4)
    ≡ ok private_header
unfolding rgx.Private.new_header rgx.Private.validate_kdf_parameters
decode_header-encode_header_with_minor_example =
    decode_header-encode_header_with_minor private_header 4
      (record { valid = refl; salt = refl; nonce_prefix = refl }) (inr refl)
