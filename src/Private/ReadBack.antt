-- ===== src/Private/ReadBack.antt =====
-- Reading a file of `pack_private` in src/private.rs through an `EncryptedReader`.
use rgx.Common.{
  ℕ, ◌^◌, ◌≡◌, ◌<◌, refl, ap, sym, ◌∙◌, subst, inr, List, [], ◌∷◌, ◌++◌, append-nil, Bool, not,
  Option, Bytes, length, length-append, take, drop, arith, none, Result, ok, bail_if, ◌⟫=◌,
  ⟫=-eq-ok, ok-injective, lt→leb, le_bytes,
}
use rgx.Frames.{Aead, IsAead}
use rgx.Frames.Writer.{StreamKey, FrameWriter, start_writer, write, finish}
use rgx.Frames.Reader.{FrameReader, read_at, is_cached, read}
use rgx.Frames.Stream.{IsStreamKey, IsStream, read_at-append, write_each}
use rgx.Frames.Stream.Written.{finish-IsStream, header_first}
use rgx.Frames.Stream.Opened.{open_frames-stream}
use rgx.Frames.Stream.ReadBack.{Reads, read-Reads}
use rgx.Keyed.{start, seek_target}
use rgx.Archive.{External, ArchiveInfo}
use rgx.Archive.Pack.{WalkEntry, pack_to_writer}
use rgx.Private.{
  Kdf, encode_header_with_minor, decode_header, derive_key, validate_password,
  validate_kdf_parameters, stream_key, new_header, new_with_minor, version_minor, pack_private,
  open_stream, seek,
}
use rgx.Private.RoundTrip.{decode_header-encode_header_with_minor}

-- `EncryptedReader::open`, a seek to a position, and a read.
unfoldable pub read_from : Aead → Kdf → Bytes → Bytes → ℕ → ℕ → Result Bytes
read_from aead kdf password file p want =
    open_stream kdf password file ⟫= λ (opened : StreamKey × FrameReader).
    seek opened.1 (start p) ⟫= λ r.
    read aead opened.0 r want ⟫= λ (got : Bytes × FrameReader). ok got.0

module _ (salt nonce_prefix : Bytes) (m : length salt ≡ 16) (n : length nonce_prefix ≡ 16) where
  abbrev header_bytes_of : Bytes
  header_bytes_of = encode_header_with_minor (new_header salt nonce_prefix) version_minor

  abbrev key_of : Bytes → StreamKey
  key_of key = stream_key key header_bytes_of (new_header salt nonce_prefix)

  length-header_bytes : length header_bytes_of ≡ 60
  unfolding encode_header_with_minor new_header le_bytes
  length-header_bytes = omega (arith, length-append salt nonce_prefix, m, n)

  decoded : decode_header header_bytes_of ≡ ok (new_header salt nonce_prefix)
  unfolding new_header validate_kdf_parameters
  decoded =
      decode_header-encode_header_with_minor (new_header salt nonce_prefix) version_minor
        (record { valid = refl; salt = m; nonce_prefix = n }) (inr refl)

  key_of-IsStreamKey : (key : Bytes) → IsStreamKey (key_of key)
  unfolding stream_key new_header
  key_of-IsStreamKey key = record {
    frame_magic = refl;
    positive = omega arith;
    small = omega arith;
  }

  first_header : (key : Bytes) → (key_of key).header_bytes ≡ header_bytes_of
  unfolding stream_key
  first_header key = refl

  reader_of : Bytes → Bytes → ℕ → ℕ → FrameReader
  reader_of file plain last p = record {
    file = file;
    frames_start = 60;
    position = p;
    plaintext_len = length plain;
    final_sequence = last;
    cached_sequence = none;
    cached_plaintext = [];
  }

  Reads-reader_of :
      (key file plain : Bytes) (last p : ℕ)
      → Reads (key_of key) 60 file plain last (reader_of file plain last p)
  unfolding is_cached reader_of
  Reads-reader_of key file plain last p = record {
    of_file = refl;
    start = refl;
    len = refl;
    final = refl;
    cached = λ i e. cc;
  }

  seek-start :
      (file plain : Bytes) (last p : ℕ)
      → p < 2 ^ 64
      → seek (reader_of file plain last 0) (start p) ≡ ok (reader_of file plain last p)
  unfolding seek seek_target reader_of
  seek-start file plain last p h = rw (lt→leb (2 ^ 64) p h) refl

  module _ (aead : Aead) (law : IsAead aead) (kdf : Kdf) (password key : Bytes)
      (valid : validate_password password ≡ ok tt)
      (derived : derive_key kdf password (new_header salt nonce_prefix) ≡ ok key) where
    read_from-stream :
        (file t plain : Bytes) (last p want : ℕ)
        → file ≡ header_bytes_of ++ t
        → IsStream aead (key_of key) 60 file plain last
        → length file < 2 ^ 64
        → p < 2 ^ 64
        → read_from aead kdf password file p want ≡ ok (take want (drop p plain))
    unfolding read_from open_stream
    read_from-stream file t plain last p want header s fits small =
        let first : read_at 0 60 file ≡ ok header_bytes_of =
          rw header (read_at-append [] header_bytes_of t 0 60 refl length-header_bytes) in
        let fine = key_of-IsStreamKey key in
        let opened = open_frames-stream aead law (key_of key) fine 60 file plain last s fits in
        let (r', e, v, moved) =
          read-Reads aead law (key_of key) fine 60 file plain last s fits
            (reader_of file plain last p) want (Reads-reader_of key file plain last p) in
        rw (valid, first, decoded, derived, opened)
          (unfold reader_of in rw (seek-start file plain last p small, e) refl)

-- The key of the writer is derived from the password, under the header of the salt and the prefix.
new_key :
    (kdf : Kdf) (password salt nonce_prefix : Bytes) (k : StreamKey)
    → new_with_minor kdf password salt nonce_prefix version_minor ≡ ok k
    → (key : Bytes) × (derive_key kdf password (new_header salt nonce_prefix) ≡ ok key)
      × (stream_key key
            (encode_header_with_minor (new_header salt nonce_prefix) version_minor)
            (new_header salt nonce_prefix)
          ≡ k)
unfolding new_with_minor
new_key kdf password salt nonce_prefix k h =
    let (key, e, h1) = ⟫=-eq-ok (derive_key kdf password (new_header salt nonce_prefix)) _ h in
    (key, e, ok-injective h1)

one_piece :
    (aead : Aead) (k : StreamKey) (archive : Bytes) (w : FrameWriter)
    → write aead k (start_writer aead k) archive ≡ ok w
    → write_each aead k (start_writer aead k) (archive ∷ []) ≡ ok w
unfolding write_each
one_piece aead k archive w h = rw h refl

-- What the writer left under the password is read.
written_file :
    (aead : Aead) (law : IsAead aead) (kdf : Kdf) (salt nonce_prefix password archive : Bytes)
    (k : StreamKey) (w w' : FrameWriter) (p want : ℕ)
    → length salt ≡ 16
    → length nonce_prefix ≡ 16
    → validate_password password ≡ ok tt
    → new_with_minor kdf password salt nonce_prefix version_minor ≡ ok k
    → write aead k (start_writer aead k) archive ≡ ok w
    → finish aead k w ≡ ok w'
    → length w'.out < 2 ^ 64
    → p < 2 ^ 64
    → read_from aead kdf password w'.out p want ≡ ok (take want (drop p archive))
unfolding stream_key
written_file aead law kdf salt nonce_prefix password archive k w w' p want m n valid made h f fits
      small =
    let (key, derived, same) = new_key kdf password salt nonce_prefix k made in
    let K = key_of salt nonce_prefix m n key in
    let pieces = archive ∷ [] in
    let h' = one_piece aead K archive w (rw (← same) at h) in
    let f' = rw (← same) at f in
    let (t, header) = header_first aead K w w' pieces h' f' in
    let (last, s) =
      finish-IsStream aead law K (key_of-IsStreamKey salt nonce_prefix m n key) w w' pieces h' f' in
    let first = first_header salt nonce_prefix m n key in
    let here = rw (first, length-header_bytes salt nonce_prefix m n, append-nil archive) at s in
    read_from-stream salt nonce_prefix m n aead law kdf password key valid derived w'.out t archive
      last p want (rw first at header) here fits small

-- A file that `pack_private` returns holds the archive that `pack_to_writer` packs for the same walk: it
-- is opened with the password, and read from any position, with nothing behind the archive's end; and the
-- statistics are the same. The salt and the nonce prefix have their lengths, and the file's length and
-- the position fit a `u64`.
pub read_from-pack_private :
    (aead : Aead) (law : IsAead aead) (x : External) (kdf : Kdf) (salt nonce_prefix : Bytes)
    (exists : Bool) (inside : Result (Unit {0})) (directory_exists : Bool) (level : ℕ)
    (password : Bytes) (walk : Option (List WalkEntry)) (file archive : Bytes)
    (info info' : ArchiveInfo) (p want : ℕ)
    → length salt ≡ 16
    → length nonce_prefix ≡ 16
    → pack_to_writer x level walk ≡ ok (archive, info')
    → pack_private aead x kdf salt nonce_prefix exists inside directory_exists level password walk
      ≡ ok (file, info)
    → length file < 2 ^ 64
    → p < 2 ^ 64
    → (read_from aead kdf password file p want ≡ ok (take want (drop p archive))) × (info ≡ info')
unfolding pack_private
read_from-pack_private aead law x kdf salt nonce_prefix exists inside directory_exists level
      password walk file archive info info' p want m n packed h fits small =
    let (u1, valid, h1) = ⟫=-eq-ok (validate_password password) _ h in
    let (u2, e2, h2) = ⟫=-eq-ok (bail_if exists _) _ h1 in
    let (u3, e3, h2') = ⟫=-eq-ok inside _ h2 in
    let (u4, e4', h2'') = ⟫=-eq-ok (bail_if (not directory_exists) _) _ h2' in
    let (k, made, h3) =
      ⟫=-eq-ok (new_with_minor kdf password salt nonce_prefix version_minor) _ h2'' in
    let (got, e4, h4) = ⟫=-eq-ok (pack_to_writer x level walk) _ h3 in
    let (w, e5, h5) = ⟫=-eq-ok (write aead k (start_writer aead k) got.0) _ h4 in
    let (w', e6, h6) = ⟫=-eq-ok (finish aead k w) _ h5 in
    let same : got ≡ (archive, info') = ok-injective (sym e4 ∙ packed) in
    let out : w'.out ≡ file = ap (λ (r : Bytes × ArchiveInfo). r.0) (ok-injective h6) in
    let stats : got.1 ≡ info = ap (λ (r : Bytes × ArchiveInfo). r.1) (ok-injective h6) in
    (
      subst (λ (d : Bytes). read_from aead kdf password file p want ≡ ok (take want (drop p d)))
          (ap (λ (r : Bytes × ArchiveInfo). r.0) same)
          (rw out at (
            written_file aead law kdf salt nonce_prefix password got.0 k w w' p want m n valid made
              e5 e6 (rw out fits) small)),
      sym stats ∙ ap (λ (r : Bytes × ArchiveInfo). r.1) same,
    )
