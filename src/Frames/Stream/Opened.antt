-- ===== src/Frames/Stream/Opened.antt =====
-- `KeyedReader::open` of src/keyed_stream.rs finds the length and the last frame of a stream.
use rgx.Common.{
  ℕ, zero, suc, ◌+◌, ◌*◌, ◌^◌, ◌≡◌, ◌≤◌, ◌<◌, refl, ◌∙◌, [], ◌++◌, append_assoc, Bool, true, false,
  not, ◌&&◌, Bytes, length, drop, length-append, length-drop, length-take, arith, lt→ltb, le→ltb,
  ◌==◌, eq→==, ==_iff, Bool-cases, inl, inr, ok, none,
}
use rgx.Frames.{Aead, IsAead}
use rgx.Frames.Headers.{encode_frame_header, decode_frame_header}
use rgx.Frames.Headers.RoundTrip.{decode_frame_header-encode_frame_header}
use rgx.Frames.Writer.{StreamKey}
use rgx.Frames.Reader.{
  final, next, read_at, checked_u64, stride, frame_offset, open_frame, open_loop, open_frames,
}
use rgx.Frames.Stream.{
  IsStreamKey, block, header_for, mul_mono, mul_le, read_at-append, FrameAt, IsStream,
  length-encode_frame_header,
}

open_loop-final :
    (fuel : ℕ) (k : StreamKey) (base : ℕ) (file : Bytes) (i total last : ℕ)
    → open_frame k base file i ≡ ok (final total last)
    → open_loop (suc fuel) k base file i ≡ ok (total, last)
unfolding open_loop
open_loop-final fuel k base file i total last h = rw (h, open_loop) refl

open_loop-next :
    (fuel : ℕ) (k : StreamKey) (base : ℕ) (file : Bytes) (i j : ℕ)
    → open_frame k base file i ≡ ok (next j)
    → open_loop (suc fuel) k base file i ≡ open_loop fuel k base file j
unfolding open_loop
open_loop-next fuel k base file i j h = rw (h, open_loop) refl

module _ (x : Aead) (law : IsAead x) (k : StreamKey) (fine : IsStreamKey k) where
  sum_of_stride : stride k ≡ 24 + k.frame_size + 16
  unfolding stride
  sum_of_stride = refl

  checked_u64-fits : (n : ℕ) → n < 2 ^ 64 → checked_u64 n ≡ ok n
  unfolding checked_u64
  checked_u64-fits n h = rw (lt→ltb n (2 ^ 64) h) refl

  pub frame_offset-fits :
      (base i : ℕ) → base + i * stride k < 2 ^ 64 → frame_offset k base i ≡ ok (base + i * stride k)
  unfolding frame_offset checked_u64
  frame_offset-fits base i h =
      rw
        (lt→ltb (i * stride k) (2 ^ 64) (omega (arith, h)), lt→ltb (base + i * stride k) (2 ^ 64) h)
        refl

  -- What reading the frame `i` takes, from its place in the file.
  module _ (base : ℕ) (file : Bytes) (i : ℕ) (d : Bytes) (last : Bool)
      (f : FrameAt x k base file i d last) where
    pub frame_end : base + i * stride k + 24 + (length d + 16) ≤ length file
    frame_end = rw f.placed (
        omega (
          arith,
          f.offset,
          length-append f.before (
              encode_frame_header k.frame_magic (header_for i d last) ++ (f.ciphertext ++ f.after)),
          length-append (encode_frame_header k.frame_magic (header_for i d last))
              (f.ciphertext ++ f.after),
          length-append f.ciphertext f.after,
          length-encode_frame_header x k (header_for i d last) fine.frame_magic,
          law.length-encrypt _ _ d _ f.ciphertext f.sealed,
        ))

    pub read_at-header :
        read_at (base + i * stride k) 24 file
        ≡ ok (encode_frame_header k.frame_magic (header_for i d last))
    read_at-header = rw f.placed (
        read_at-append f.before _ (f.ciphertext ++ f.after) (base + i * stride k) 24 f.offset
          (length-encode_frame_header x k (header_for i d last) fine.frame_magic))

    pub read_at-ciphertext :
        read_at (base + i * stride k + 24) (length d + 16) file ≡ ok f.ciphertext
    read_at-ciphertext =
        let header = encode_frame_header k.frame_magic (header_for i d last) in
        rw (f.placed, ← append_assoc f.before header (f.ciphertext ++ f.after))
          (read_at-append (f.before ++ header) f.ciphertext f.after (base + i * stride k + 24)
            (length d + 16)
            (omega (
              arith,
              length-append f.before header,
              f.offset,
              length-encode_frame_header x k (header_for i d last) fine.frame_magic,
            ))
            (law.length-encrypt _ _ d _ f.ciphertext f.sealed))

    pub decode-header :
        i < 2 ^ 64
        → length d ≤ k.frame_size
        → (not last && not (length d == k.frame_size)) ≡ false
        → decode_frame_header k.frame_magic k.frame_size
            (encode_frame_header k.frame_magic (header_for i d last))
          ≡ ok (header_for i d last)
    decode-header small most full =
        decode_frame_header-encode_frame_header k.frame_magic k.frame_size (header_for i d last)
          fine.frame_magic fine.small
          (record {
            sequence = omega arith;
            plaintext_len = omega arith;
            full = full;
            ciphertext_len = refl;
          })

  module _ (base : ℕ) (file plain : Bytes) (last : ℕ) (s : IsStream x k base file plain last)
      (fits : length file < 2 ^ 64) where
    pub length-block : (i : ℕ) → i < last → length (block k i plain) ≡ k.frame_size
    length-block i h = omega (
      arith,
      length-take k.frame_size (drop (i * k.frame_size) plain),
      length-drop (i * k.frame_size) plain,
      s.plain_len,
      mul_mono i last k.frame_size h,
    )

    open_frame-full : (i : ℕ) → i < last → open_frame k base file i ≡ ok (next (i + 1))
    unfolding open_frame
    open_frame-full i h =
        let d = block k i plain in
        let f = s.full i h in
        let len = length-block i h in
        let end = frame_end base file i d false f in
        let few = s.few in
        let head =
          decode-header base file i d false f (omega (arith, few)) (omega (arith, len))
            (rw (eq→== _ _ len) refl) in
        rw
          (
            frame_offset-fits base i (omega (arith, end)),
            le→ltb (length file) (base + i * stride k + 24) (omega (arith, end)),
            read_at-header base file i d false f,
            head,
            eq→== i i refl,
            checked_u64-fits (base + i * stride k + 24 + (length d + 16)) (omega (arith, end)),
            le→ltb (length file) (base + i * stride k + 24 + (length d + 16)) (omega (arith, end)),
            checked_u64-fits (i + 1) (omega (arith, few)),
          )
          refl

    open_frame-final : open_frame k base file last ≡ ok (final (length plain) last)
    unfolding open_frame
    open_frame-final =
        let less = mul_le last k.frame_size (stride k) (omega (arith, sum_of_stride)) in
        let d = drop (last * k.frame_size) plain in
        let f = s.final in
        let end = frame_end base file last d true f in
        let few = s.few in
        let head =
          decode-header base file last d true f (omega (arith, few)) (omega (arith, s.part)) refl in
        rw
          (
            frame_offset-fits base last (omega (arith, end)),
            le→ltb (length file) (base + last * stride k + 24) (omega (arith, end)),
            read_at-header base file last d true f,
            head,
            eq→== last last refl,
            checked_u64-fits (base + last * stride k + 24 + (length d + 16)) (omega (arith, end)),
            le→ltb (length file) (base + last * stride k + 24 + (length d + 16))
                (omega (arith, end)),
            eq→== (base + last * stride k + 24 + (length d + 16)) (length file)
                (omega (arith, s.file_len)),
            checked_u64-fits (last * k.frame_size + length d)
                (omega (arith, less, sum_of_stride, end)),
            s.plain_len,
          )
          refl

    -- Enough fuel is left for the frames that are left.
    open_loop-stream :
        (fuel i : ℕ)
        → i ≤ last
        → last < fuel + i
        → open_loop fuel k base file i ≡ ok (length plain, last)
    open_loop-stream zero i h enough = absurd (omega arith)
    open_loop-stream (suc fuel) i h enough = elim (Bool-cases (i == last)) [
      | inl now ↦
          let same : i ≡ last = (==_iff i last).0 now in
          rw same (open_loop-final fuel k base file last (length plain) last open_frame-final)
      | inr before ↦
          open_loop-next fuel k base file i (i + 1) (open_frame-full i (ground (arith, before)))
          ∙ open_loop-stream fuel (i + 1) (ground (arith, before)) (omega arith)
    ]

    -- A stream is opened with its length and its last sequence number, at its start.
    pub open_frames-stream :
        open_frames k base file
        ≡ ok (record {
          file = file;
          frames_start = base;
          position = 0;
          plaintext_len = length plain;
          final_sequence = last;
          cached_sequence = none;
          cached_plaintext = [];
        })
    unfolding open_frames
    open_frames-stream =
        let less = mul_le last 1 (stride k) (omega (arith, sum_of_stride)) in
        rw (open_loop-stream (suc (length file)) 0 (omega arith) (omega (arith, less, s.file_len)))
          refl
