-- ===== src/Frames/Writer.antt =====
-- `KeyedWriter` of src/keyed_stream.rs, over a writer that keeps all bytes.
pub mod Ends
pub mod Grows
use Prim.Native.Nat.{min}
use rgx.Common.{
  ℕ, zero, suc, ◌+◌, ◌-◌, ◌^◌, [], ◌∷◌, ◌++◌, Bool, true, false, not, none, some, Bytes, length,
  take, drop, ltb, ◌==◌, if◌then◌else◌, Result, ok, err, bail_if, ◌⟫=◌, out_of_fuel,
  length_overflow, frame_too_large, encryption_failed, sequence_overflow, writer_finished,
}
use rgx.Frames.{Aead, tag_size}
use rgx.Frames.Headers.{encode_frame_header, frame_nonce, frame_aad}

-- What stays fixed over a stream: the frame marker, the key of the cipher, the encoded header and
-- the two fields of the header that frames depend on.
pub record StreamKey : Type 0 where
  pub frame_magic : Bytes
  pub key : Bytes
  pub header_bytes : Bytes
  pub frame_size : ℕ
  pub nonce_prefix : Bytes

pub record FrameWriter : Type 0 where
  pub out : Bytes
  pub buffer : Bytes
  pub sequence : ℕ
  pub finished : Bool

module _ (x : Aead) (k : StreamKey) where
  -- One frame: its header, and the ciphertext.
  unfoldable pub seal_frame : ℕ → Bytes → Bool → Result Bytes
  seal_frame sequence plaintext last =
      bail_if (not (ltb (length plaintext) (2 ^ 32))) frame_too_large ⟫= λ _.
      bail_if (ltb k.frame_size (length plaintext)) frame_too_large ⟫= λ _.
      bail_if (not (ltb (length plaintext + tag_size) (2 ^ 32))) length_overflow ⟫= λ _.
      let frame_header : Bytes = encode_frame_header k.frame_magic (record {
        sequence = sequence;
        plaintext_len = length plaintext;
        ciphertext_len = length plaintext + tag_size;
        last = last;
      }) in
      elim (x.encrypt k.key (frame_nonce k.nonce_prefix sequence) plaintext
        (frame_aad k.header_bytes frame_header)) [
          | none ↦ err encryption_failed
          | some ciphertext ↦ ok (frame_header ++ ciphertext)
        ]

  unfoldable pub emit : Bool → FrameWriter → Result FrameWriter
  emit last w = seal_frame w.sequence w.buffer last ⟫= λ frame.
      bail_if (not (ltb (w.sequence + 1) (2 ^ 64))) sequence_overflow ⟫= λ _.
      ok (record w { out = w.out ++ frame; buffer = []; sequence = w.sequence + 1 })

  unfoldable pub finish : FrameWriter → Result FrameWriter
  finish w = if w.finished then ok w else (emit true w ⟫= λ w'. ok (record w' { finished = true }))

  -- One round of the loop of `write`, with `take` bytes moved to the buffer.
  unfoldable pub fill : ℕ → FrameWriter → Bytes → Result FrameWriter
  fill n w bytes =
      let w' : FrameWriter = record w { buffer = w.buffer ++ take n bytes } in
      if length w'.buffer == k.frame_size then emit false w' else ok w'

  unfoldable pub room : FrameWriter → Bytes → ℕ
  room w bytes = min (k.frame_size - length w.buffer) (length bytes)

  unfoldable pub write_loop : ℕ → FrameWriter → Bytes → Result FrameWriter
  write_loop fuel w [] = ok w
  write_loop zero w (b ∷ bs) = err out_of_fuel
  write_loop (suc fuel) w (b ∷ bs) = fill (room w (b ∷ bs)) w (b ∷ bs) ⟫= λ w'.
      write_loop fuel w' (drop (room w (b ∷ bs)) (b ∷ bs))

  -- Each round takes a byte at least, since the buffer is never full between the rounds.
  unfoldable pub write : FrameWriter → Bytes → Result FrameWriter
  write w bytes = if w.finished then err writer_finished else write_loop (length bytes) w bytes

  -- `new` has written the header and nothing else.
  abbrev pub start_writer : FrameWriter
  start_writer = record { out = k.header_bytes; buffer = []; sequence = 0; finished = false }
