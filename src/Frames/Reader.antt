-- ===== src/Frames/Reader.antt =====
-- `KeyedReader` of src/keyed_stream.rs, over a file that is given by all its bytes.
pub mod Ends
use Prim.Native.Nat.{min}
use rgx.Common.{
  ℕ, zero, suc, ◌+◌, ◌-◌, ◌*◌, ◌/◌, ◌%◌, ◌^◌, [], ◌++◌, Bool, false, not, ◌||◌, Option, none, some,
  Bytes, length, take, drop, ltb, leb, ◌==◌, if◌then◌else◌, Result, ok, err, bail_if, ◌⟫=◌,
  out_of_fuel, truncated_field, offset_overflow, missing_final_frame, sequence_mismatch,
  frame_truncated, trailing_frame_data, seek_outside, unexpected_eof, authentication_failed,
  plaintext_len_mismatch,
}
use rgx.Frames.{Aead, tag_size, frame_header_size}
use rgx.Frames.Headers.{decode_frame_header, frame_nonce, frame_aad}
use rgx.Frames.Writer.{StreamKey}

-- `seek(Start(offset))` and a read of exactly `n` bytes.
unfoldable pub read_at : ℕ → ℕ → Bytes → Result Bytes
read_at offset n file =
    let found = take n (drop offset file) in
    if length found == n then ok found else err truncated_field

unfoldable pub checked_u64 : ℕ → Result ℕ
checked_u64 n = if ltb n (2 ^ 64) then ok n else err offset_overflow

unfoldable pub stride : StreamKey → ℕ
stride k = frame_header_size + k.frame_size + tag_size

-- `frames_start + sequence * stride`, each step checked.
unfoldable pub frame_offset : StreamKey → ℕ → ℕ → Result ℕ
frame_offset k frames_start sequence =
    checked_u64 (sequence * stride k) ⟫= λ n. checked_u64 (frames_start + n)

-- One round of the loop of `open`: the end of the stream, or the next sequence number.
pub data Found : Type 0 where
  final : ℕ → ℕ → Found
  next : ℕ → Found

unfoldable pub open_frame : StreamKey → ℕ → Bytes → ℕ → Result Found
open_frame k frames_start file sequence = frame_offset k frames_start sequence ⟫= λ offset.
    bail_if (ltb (length file) (offset + frame_header_size)) missing_final_frame ⟫= λ _.
    read_at offset frame_header_size file ⟫= λ bytes.
    decode_frame_header k.frame_magic k.frame_size bytes ⟫= λ frame.
    bail_if (not (frame.sequence == sequence)) sequence_mismatch ⟫= λ _.
    checked_u64 (offset + frame_header_size + frame.ciphertext_len) ⟫= λ end.
    bail_if (ltb (length file) end) frame_truncated ⟫= λ _.
    if frame.last
    then (bail_if (not (end == length file)) trailing_frame_data ⟫= λ _.
        checked_u64 (sequence * k.frame_size + frame.plaintext_len) ⟫= λ total.
        ok (final total sequence))
    else (checked_u64 (sequence + 1) ⟫= λ sequence'. ok (next sequence'))

-- The plaintext's length and the last sequence number. Every round that goes on has found a whole
-- frame in the file, so its length is fuel enough.
unfoldable pub open_loop : ℕ → StreamKey → ℕ → Bytes → ℕ → Result (ℕ × ℕ)
open_loop zero k frames_start file sequence = err out_of_fuel
open_loop (suc fuel) k frames_start file sequence = elim (open_frame k frames_start file sequence) [
  | err e ↦ err e
  | ok (final total last) ↦ ok (total, last)
  | ok (next sequence') ↦ open_loop fuel k frames_start file sequence'
]

pub record FrameReader : Type 0 where
  pub file : Bytes
  pub frames_start : ℕ
  pub position : ℕ
  pub plaintext_len : ℕ
  pub final_sequence : ℕ
  pub cached_sequence : Option ℕ
  pub cached_plaintext : Bytes

unfoldable pub open_frames : StreamKey → ℕ → Bytes → Result FrameReader
open_frames k frames_start file =
    open_loop (suc (length file)) k frames_start file 0 ⟫= λ (found : ℕ × ℕ). ok (record {
      file = file;
      frames_start = frames_start;
      position = 0;
      plaintext_len = found.0;
      final_sequence = found.1;
      cached_sequence = none;
      cached_plaintext = [];
    })

unfoldable pub is_cached : Option ℕ → ℕ → Bool
is_cached none sequence = false
is_cached (some cached) sequence = cached == sequence

module _ (x : Aead) (k : StreamKey) where
  unfoldable pub open_ciphertext : Bytes → ℕ → ℕ → Bytes → Result Bytes
  open_ciphertext header sequence plaintext_len ciphertext =
      elim (x.decrypt k.key (frame_nonce k.nonce_prefix sequence) ciphertext
        (frame_aad k.header_bytes header)) [
          | none ↦ err authentication_failed
          | some plaintext ↦
              if length plaintext == plaintext_len then ok plaintext else err plaintext_len_mismatch
        ]

  unfoldable pub fetch_frame : FrameReader → ℕ → Result Bytes
  fetch_frame r sequence = bail_if (ltb r.final_sequence sequence) seek_outside ⟫= λ _.
      frame_offset k r.frames_start sequence ⟫= λ offset.
      read_at offset frame_header_size r.file ⟫= λ header.
      decode_frame_header k.frame_magic k.frame_size header ⟫= λ frame.
      bail_if (not (frame.sequence == sequence)) sequence_mismatch ⟫= λ _.
      read_at (offset + frame_header_size) frame.ciphertext_len r.file ⟫= λ ciphertext.
      open_ciphertext header sequence frame.plaintext_len ciphertext

  unfoldable pub load_frame : FrameReader → ℕ → Result FrameReader
  unfolding is_cached
  load_frame r sequence =
      if is_cached r.cached_sequence sequence
      then ok r
      else (fetch_frame r sequence ⟫= λ plaintext.
          ok (record r { cached_sequence = some sequence; cached_plaintext = plaintext }))

  -- One round of `read` into `want` bytes: what is copied, with the new position.
  unfoldable pub read_round : FrameReader → ℕ → Result (Bytes × FrameReader)
  read_round r want = load_frame r (r.position / k.frame_size) ⟫= λ r'.
      let within = r.position % k.frame_size in
      let available = length r'.cached_plaintext - within in
      let count = min available want in
      if available == 0
      then err unexpected_eof
      else ok (
        take count (drop within r'.cached_plaintext),
        record r' { position = r.position + count },
      )

  -- Each round that copies takes a byte at least, so `want` rounds are enough.
  unfoldable pub read_loop : ℕ → FrameReader → ℕ → Bytes → Result (Bytes × FrameReader)
  read_loop zero r want acc =
      if want == 0 || leb r.plaintext_len r.position then ok (acc, r) else err out_of_fuel
  read_loop (suc fuel) r want acc =
      let go = read_round r want ⟫= λ (step : Bytes × FrameReader).
      read_loop fuel step.1 (want - length step.0) (acc ++ step.0) in
      if want == 0 || leb r.plaintext_len r.position then ok (acc, r) else go

  unfoldable pub read : FrameReader → ℕ → Result (Bytes × FrameReader)
  read r want = read_loop want r want []
