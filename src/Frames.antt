-- ===== src/Frames.antt =====
-- The encrypted frames that src/keyed_stream.rs and src/private.rs share: the code of the two files
-- is the same but for the frame marker, the place of the first frame and the error messages.
pub mod Headers
pub mod Writer
pub mod Reader
pub mod Stream
use rgx.Common.{Bytes, Option, ℕ, ◌+◌, ◌≡◌, some, length}

-- `XChaCha20Poly1305` under a key: `encrypt` and `decrypt` take the key, the nonce, the message
-- and the associated data.
pub record Aead : Type 0 where
  pub encrypt : Bytes → Bytes → Bytes → Bytes → Option Bytes
  pub decrypt : Bytes → Bytes → Bytes → Bytes → Option Bytes

-- What its documentation promises: the tag adds 16 bytes, and a message that was encrypted under
-- the same key, nonce and associated data is decrypted.
pub record IsAead (x : Aead) : Type 0 where
  pub length-encrypt :
      (key nonce msg aad c : Bytes)
      → x.encrypt key nonce msg aad ≡ some c
      → length c ≡ length msg + 16
  pub decrypt-encrypt :
      (key nonce msg aad c : Bytes)
      → x.encrypt key nonce msg aad ≡ some c
      → x.decrypt key nonce c aad ≡ some msg

abbrev pub tag_size : ℕ
tag_size = 16

abbrev pub frame_header_size : ℕ
frame_header_size = 24
