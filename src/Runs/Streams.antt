-- ===== src/Runs/Streams.antt =====
-- Runs of the writer and the reader of src/keyed_stream.rs, with small frames.
use rgx.Common.{
  true, List, ltb, ltb→lt, ◌^◌, le_bytes, refl, Bytes, ◌≡◌, ◌≢◌, ◌<◌, ◌++◌, arith, [], ◌∷◌, some,
  ok, err, out_of_fuel, length, replicate,
}
use rgx.Frames.Headers.{encode_frame_header, frame_nonce, frame_aad}
use rgx.Frames.Writer.{seal_frame, emit, finish, fill, room, write_loop}
use rgx.Frames.Stream.{write_each}
use rgx.Keyed.{encode_header, new_header, new_key, stream_key}
use rgx.Keyed.Stream.{read_from, read-write}
use rgx.Runs.Crypto.{toy_crypto, toy_crypto-IsCrypto}
use rgx.Runs.Keys.{result_or}
use rgx.Frames.{Aead}
use rgx.Frames.Writer.{StreamKey, FrameWriter, start_writer, write}
use rgx.Frames.Writer.Ends.{write-ends}
use rgx.Frames.Reader.{open_frames}
use rgx.Frames.Reader.Ends.{open_frames-ends}

-- A cipher that changes nothing, with a tag of zeros.
abbrev toy_aead : Aead
toy_aead = record {
  encrypt = λ key nonce message aad. some (message ++ replicate 16 0);
  decrypt = λ key nonce message aad. some message;
}

abbrev toy_key : StreamKey
toy_key = record {
  frame_magic = 1 ∷ 2 ∷ 3 ∷ 4 ∷ [];
  key = replicate 32 0;
  header_bytes = replicate 64 0;
  frame_size = 3;
  nonce_prefix = replicate 16 0;
}

write-ends_example :
    (write toy_aead toy_key (start_writer toy_aead toy_key) (1 ∷ 2 ∷ 3 ∷ 4 ∷ []) ≢ err out_of_fuel)
    × ((w' : FrameWriter)
        → write toy_aead toy_key (start_writer toy_aead toy_key) (1 ∷ 2 ∷ 3 ∷ 4 ∷ []) ≡ ok w'
        → length w'.buffer < 3)
write-ends_example =
    write-ends toy_aead toy_key (start_writer toy_aead toy_key) (1 ∷ 2 ∷ 3 ∷ 4 ∷ []) (omega arith)

-- A header, and a first frame that is cut short.
abbrev cut_file : Bytes
cut_file = replicate 64 0 ++ (1 ∷ 2 ∷ 3 ∷ 4 ∷ replicate 20 0)

open_frames-ends_example : open_frames toy_key 64 cut_file ≢ err out_of_fuel
open_frames-ends_example = open_frames-ends toy_key 64 cut_file

-- Two writes of two and three bytes, behind an envelope of two bytes.
abbrev pieces : List Bytes
pieces = (1 ∷ 2 ∷ []) ∷ ((3 ∷ 4 ∷ 5 ∷ []) ∷ [])

abbrev stream_key_of_two : StreamKey
stream_key_of_two = new_key (replicate 32 1) (replicate 16 2) (replicate 32 3)

abbrev written : FrameWriter
written =
    result_or
      (write_each toy_crypto.aead stream_key_of_two (start_writer toy_crypto.aead stream_key_of_two)
        pieces)
      (start_writer toy_crypto.aead stream_key_of_two)

abbrev finished : FrameWriter
finished = result_or (finish toy_crypto.aead stream_key_of_two written) written

written_ok :
    write_each toy_crypto.aead stream_key_of_two
      (start_writer toy_crypto.aead stream_key_of_two)
      pieces
    ≡ ok written
unfolding write_each write write_loop fill room emit seal_frame encode_frame_header frame_nonce
    frame_aad new_key new_header stream_key encode_header le_bytes
written_ok = refl

finished_ok : finish toy_crypto.aead stream_key_of_two written ≡ ok finished
unfolding write_each write write_loop fill room emit finish seal_frame encode_frame_header
    frame_nonce frame_aad new_key new_header stream_key encode_header le_bytes
finished_ok = refl

finished_fits : ltb (length ((7 ∷ 8 ∷ []) ++ finished.out)) (2 ^ 64) ≡ true
unfolding write_each write write_loop fill room emit finish seal_frame encode_frame_header
    frame_nonce frame_aad new_key new_header stream_key encode_header le_bytes
finished_fits = refl

read-write_example :
    read_from toy_crypto.aead 2 (replicate 32 1) (replicate 32 3) ((7 ∷ 8 ∷ []) ++ finished.out) 1 3
    ≡ ok (2 ∷ 3 ∷ 4 ∷ [])
read-write_example =
    read-write toy_crypto.aead toy_crypto-IsCrypto.aead (replicate 32 1) (replicate 16 2)
      (replicate 32 3) (7 ∷ 8 ∷ []) refl refl written finished pieces 1 3 written_ok finished_ok
      (ltb→lt (length ((7 ∷ 8 ∷ []) ++ finished.out)) (2 ^ 64) finished_fits) (omega arith)
