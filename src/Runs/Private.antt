-- ===== src/Runs/Private.antt =====
-- A run of src/private.rs, under `toy_crypto`.
use rgx.Common.{
  take, drop, ◌≡◌, refl, [], true, Bytes, arith, Result, ok, some, ascii, replicate, le_bytes,
  false,
}
use rgx.Frames.Writer.{seal_frame, emit, finish, fill, room, write_loop, write}
use rgx.Frames.Headers.{encode_frame_header, frame_nonce, frame_aad}
use rgx.Archive.{ArchiveInfo}
use rgx.Private.{
  Kdf, validate_password, new_with_minor, derive_key, new_header, stream_key,
  encode_header_with_minor, pack_private,
}
use rgx.Private.ReadBack.{read_from, read_from-pack_private}
use rgx.Runs.Crypto.{toy_crypto, toy_crypto-IsCrypto}
use rgx.Runs.Keys.{result_or}
use rgx.Runs.Sealed.{is_ok, is_ok-result_or, is_short, is_short-result_or}
use rgx.Runs.Archives.{toy, walk, toy_archive, toy_info, packed_toy}

-- The password itself, as a key.
abbrev toy_kdf : Kdf
toy_kdf = λ password header. some password

abbrev locked : Result (Bytes × ArchiveInfo)
locked =
    pack_private toy_crypto.aead toy toy_kdf (replicate 16 4) (replicate 16 6) false (ok tt) true 3
      (ascii "secret") (some walk)

is_ok-locked : is_ok locked ≡ true
unfolding pack_private validate_password new_with_minor derive_key new_header stream_key
    encode_header_with_minor seal_frame emit finish fill room write_loop write encode_frame_header
    frame_nonce frame_aad le_bytes
is_ok-locked = rw packed_toy refl

is_short-locked : is_short locked ≡ true
unfolding pack_private validate_password new_with_minor derive_key new_header stream_key
    encode_header_with_minor seal_frame emit finish fill room write_loop write encode_frame_header
    frame_nonce frame_aad le_bytes
is_short-locked = rw packed_toy refl

abbrev locked_file : Bytes
locked_file = (result_or locked ([], toy_info)).0

abbrev locked_info : ArchiveInfo
locked_info = (result_or locked ([], toy_info)).1

-- Ten bytes of the archive, from the fourth on.
read_from-pack_private_example :
    (read_from toy_crypto.aead toy_kdf (ascii "secret") locked_file 4 10
      ≡ ok (take 10 (drop 4 toy_archive)))
    × (locked_info ≡ toy_info)
read_from-pack_private_example =
    read_from-pack_private toy_crypto.aead toy_crypto-IsCrypto.aead toy toy_kdf (replicate 16 4)
      (replicate 16 6) false (ok tt) true 3 (ascii "secret") (some walk) locked_file toy_archive
      locked_info toy_info 4 10 refl refl packed_toy
      (is_ok-result_or locked ([], toy_info) is_ok-locked)
      (is_short-result_or locked ([], toy_info) is_short-locked) (omega arith)
