-- ===== src/Keyed/Stream.antt =====
-- What `KeyedWriter` of src/keyed_stream.rs wrote behind an envelope is read by `KeyedReader`, at any
-- position.
use rgx.Common.{
  ℕ, ◌+◌, ◌*◌, ◌^◌, ◌≡◌, ◌≤◌, ◌<◌, refl, ap, ◌∙◌, sym, List, [], ◌++◌, append_assoc, Bool, true,
  false, Bytes, bytes_eq_refl, le_bytes, length, length-append, take, drop, concat, arith, le→ltb,
  lt→ltb, replicate, Result, ok, ◌⟫=◌, none,
}
use rgx.Frames.{Aead, IsAead}
use rgx.Frames.Writer.{StreamKey, FrameWriter, start_writer, finish}
use rgx.Frames.Reader.{FrameReader, read_at, checked_u64, is_cached, read}
use rgx.Frames.Stream.{IsStreamKey, block, FrameAt, IsStream, write_each, read_at-append}
use rgx.Frames.Stream.Written.{finish-IsStream, header_first}
use rgx.Frames.Stream.Opened.{open_frames-stream}
use rgx.Frames.Stream.ReadBack.{Reads, read-Reads}
use rgx.Keyed.{
  StreamHeader, IsStreamHeader, encode_header, decode_header, stream_key, new_header, new_key,
  open_stream, seek, seek_target, start,
}
use rgx.Keyed.RoundTrip.{decode_header-encode_header}

module _ (x : Aead) (k : StreamKey) where
  FrameAt-behind :
      (base : ℕ) (front out : Bytes) (i : ℕ) (d : Bytes) (last : Bool)
      → FrameAt x k base out i d last
      → FrameAt x k (length front + base) (front ++ out) i d last
  FrameAt-behind base front out i d last f = record {
    before = front ++ f.before;
    ciphertext = f.ciphertext;
    after = f.after;
    placed = ap (λ (t : Bytes). front ++ t) f.placed ∙ sym (append_assoc front f.before _);
    offset = omega (arith, length-append front f.before, f.offset);
    sealed = f.sealed;
  }

  -- A stream behind other bytes.
  pub IsStream-behind :
      (base : ℕ) (front out plain : Bytes) (last : ℕ)
      → IsStream x k base out plain last
      → IsStream x k (length front + base) (front ++ out) plain last
  IsStream-behind base front out plain last s = record {
    part = s.part;
    plain_len = s.plain_len;
    file_len = omega (arith, length-append front out, s.file_len);
    full = λ i h. FrameAt-behind base front out i (block k i plain) false (s.full i h);
    final = FrameAt-behind base front out last (drop (last * k.frame_size) plain) true s.final;
    few = s.few;
  }

-- `KeyedReader::open`, a seek to a position, and a read.
unfoldable pub read_from : Aead → ℕ → Bytes → Bytes → Bytes → ℕ → ℕ → Result Bytes
read_from x stream_offset archive_key hash file p want =
    open_stream stream_offset archive_key hash file ⟫= λ (opened : StreamKey × FrameReader).
    seek opened.1 (start p) ⟫= λ r.
    read x opened.0 r want ⟫= λ (got : Bytes × FrameReader). ok got.0

length-encode_header : (h : StreamHeader) → IsStreamHeader h → length (encode_header h) ≡ 64
unfolding encode_header le_bytes
length-encode_header h v = omega (
  arith,
  length-append h.nonce_prefix (h.envelope_hash ++ replicate 4 0),
  length-append h.envelope_hash (replicate 4 0),
  v.nonce_prefix,
  v.envelope_hash,
)

new_key-IsStreamKey :
    (archive_key nonce_prefix hash : Bytes) → IsStreamKey (new_key archive_key nonce_prefix hash)
unfolding new_key stream_key new_header
new_key-IsStreamKey archive_key nonce_prefix hash = record {
  frame_magic = refl;
  positive = omega arith;
  small = omega arith;
}

new_header-IsStreamHeader :
    (nonce_prefix hash : Bytes)
    → length nonce_prefix ≡ 16
    → length hash ≡ 32
    → IsStreamHeader (new_header nonce_prefix hash)
unfolding new_header
new_header-IsStreamHeader nonce_prefix hash m n = record {
  at_least = refl;
  at_most = refl;
  nonce_prefix = m;
  envelope_hash = n;
}

module _ (x : Aead) (law : IsAead x) (archive_key nonce_prefix hash front : Bytes)
    (m : length nonce_prefix ≡ 16) (n : length hash ≡ 32) where
  abbrev key_of : StreamKey
  key_of = new_key archive_key nonce_prefix hash

  length-header_bytes : length key_of.header_bytes ≡ 64
  unfolding new_key stream_key
  length-header_bytes =
      length-encode_header (new_header nonce_prefix hash)
        (new_header-IsStreamHeader nonce_prefix hash m n)

  decoded : decode_header key_of.header_bytes ≡ ok (new_header nonce_prefix hash)
  unfolding new_key stream_key
  decoded =
      decode_header-encode_header (new_header nonce_prefix hash)
        (new_header-IsStreamHeader nonce_prefix hash m n)

  reader_of : Bytes → Bytes → ℕ → FrameReader
  reader_of file plain last = record {
    file = file;
    frames_start = length front + 64;
    position = 0;
    plaintext_len = length plain;
    final_sequence = last;
    cached_sequence = none;
    cached_plaintext = [];
  }

  hash_of : (new_header nonce_prefix hash).envelope_hash ≡ hash
  unfolding new_header
  hash_of = refl

  same_key : stream_key archive_key key_of.header_bytes (new_header nonce_prefix hash) ≡ key_of
  unfolding new_key stream_key
  same_key = refl

  -- A whole stream behind `front` is opened, and the reader stands at its start.
  open_stream-stream :
      (out t plain : Bytes) (last : ℕ)
      → out ≡ key_of.header_bytes ++ t
      → IsStream x key_of 64 out plain last
      → length (front ++ out) < 2 ^ 64
      → open_stream (length front) archive_key hash (front ++ out)
        ≡ ok (key_of, reader_of (front ++ out) plain last)
  unfolding open_stream checked_u64 reader_of
  open_stream-stream out t plain last header s fits =
      let first : read_at (length front) 64 (front ++ out) ≡ ok key_of.header_bytes =
        rw header
          (read_at-append front key_of.header_bytes t (length front) 64 refl length-header_bytes) in
      let small : length front + 64 < 2 ^ 64 =
        omega (arith, fits, length-append front out, s.file_len) in
      let opened =
        open_frames-stream x law key_of (new_key-IsStreamKey archive_key nonce_prefix hash)
          (length front + 64) (front ++ out) plain last
          (IsStream-behind x key_of 64 front out plain last s) fits in
      rw
        (
          first,
          decoded,
          same_key,
          hash_of,
          bytes_eq_refl hash,
          lt→ltb (length front + 64) (2 ^ 64) small,
          opened,
        )
        refl

  Reads-reader_of :
      (file plain : Bytes) (last p : ℕ)
      → Reads key_of
          (length front + 64)
          file
          plain
          last
          (record (reader_of file plain last) { position = p })
  unfolding is_cached reader_of
  Reads-reader_of file plain last p = record {
    of_file = refl;
    start = refl;
    len = refl;
    final = refl;
    cached = λ i e. cc;
  }

  seek-start :
      (file plain : Bytes) (last p : ℕ)
      → p ≤ length plain
      → seek (reader_of file plain last) (start p)
        ≡ ok (record (reader_of file plain last) { position = p })
  unfolding seek seek_target reader_of
  seek-start file plain last p h = rw (le→ltb (length plain) p h) refl

  -- What was written in pieces of any sizes with a `KeyedWriter` and finished, behind other bytes of the
  -- file, is opened with the same key and hash, and read from any position as far as it goes, if the
  -- file's length fits a `u64`.
  pub read-write :
      (w w' : FrameWriter) (pieces : List Bytes) (p want : ℕ)
      → write_each x key_of (start_writer x key_of) pieces ≡ ok w
      → finish x key_of w ≡ ok w'
      → length (front ++ w'.out) < 2 ^ 64
      → p ≤ length (concat pieces)
      → read_from x (length front) archive_key hash (front ++ w'.out) p want
        ≡ ok (take want (drop p (concat pieces)))
  unfolding read_from
  read-write w w' pieces p want h f fits inside =
      let plain = concat pieces in
      let fine = new_key-IsStreamKey archive_key nonce_prefix hash in
      let (t, header) = header_first x key_of w w' pieces h f in
      let (last, s) = finish-IsStream x law key_of fine w w' pieces h f in
      let here = rw length-header_bytes at s in
      let opened = open_stream-stream w'.out t plain last header here fits in
      let behind = IsStream-behind x key_of 64 front w'.out plain last here in
      let (r', e, v, moved) =
        read-Reads x law key_of fine (length front + 64) (front ++ w'.out) plain last behind fits
          (record (reader_of (front ++ w'.out) plain last) { position = p }) want
          (Reads-reader_of (front ++ w'.out) plain last p) in
      rw (opened, seek-start (front ++ w'.out) plain last p inside, e) refl
