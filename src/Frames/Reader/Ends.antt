-- ===== src/Frames/Reader/Ends.antt =====
-- `KeyedReader::open` of src/keyed_stream.rs ends on every file.
use rgx.Common.{
  ℕ, zero, suc, ◌+◌, ◌*◌, ◌≡◌, ◌≢◌, ◌≤◌, ◌<◌, ap, sym, ◌∙◌, not, Bytes, length, ltb, ◌==◌, ok, err,
  bail_if, bail_if-eq-ok, ◌⟫=◌, ⟫=-eq-ok, ⟫=-eq-err, ok-injective, err-injective, err-ne-ok,
  out_of_fuel, Bool-cases, inl, inr, if◌then◌else◌, arith, Result-cases, ltb→le, sequence_mismatch,
  missing_final_frame, frame_truncated, trailing_frame_data,
}
use rgx.Common.Steady.{bail_if-fueled}
use rgx.Frames.{frame_header_size}
use rgx.Frames.Headers.{decode_frame_header, check_frame_header}
use rgx.Frames.Writer.{StreamKey}
use rgx.Frames.Reader.{
  final, next, read_at, checked_u64, stride, frame_offset, open_frame, open_loop, open_frames,
}

checked_u64-eq : (n m : ℕ) → checked_u64 n ≡ ok m → m ≡ n
unfolding checked_u64
checked_u64-eq n m h = ground arith

checked_u64-fueled : (n : ℕ) → checked_u64 n ≢ err out_of_fuel
unfolding checked_u64
checked_u64-fueled n h = ground arith

read_at-fueled : (offset n : ℕ) (file : Bytes) → read_at offset n file ≢ err out_of_fuel
unfolding read_at
read_at-fueled offset n file h = ground arith

decode_frame_header-fueled :
    (magic : Bytes) (size : ℕ) (bytes : Bytes)
    → decode_frame_header magic size bytes ≢ err out_of_fuel
unfolding decode_frame_header check_frame_header
decode_frame_header-fueled magic size bytes h = ground arith

frame_offset-fueled : (k : StreamKey) (start n : ℕ) → frame_offset k start n ≢ err out_of_fuel
unfolding frame_offset
frame_offset-fueled k start n h = elim (⟫=-eq-err (checked_u64 (n * stride k)) _ h) [
  | inl e ↦ checked_u64-fueled _ e
  | inr (m, e, q) ↦ checked_u64-fueled _ q
]

product_bound : (n s : ℕ) → n ≤ n * (24 + s + 16)
product_bound n s = grind arith

frame_offset_bound :
    (k : StreamKey) (start n offset : ℕ) → frame_offset k start n ≡ ok offset → n ≤ offset
unfolding frame_offset stride
frame_offset_bound k start n offset h =
    let (m, e1, h1) = ⟫=-eq-ok (checked_u64 (n * stride k)) _ h in
    omega (arith, checked_u64-eq _ m e1, checked_u64-eq _ offset h1, product_bound n k.frame_size)

last_round :
    (k : StreamKey) (size total sequence end : ℕ)
    → (bail_if (not (end == size)) trailing_frame_data ⟫= λ _.
        checked_u64 total ⟫= λ n. ok (final n sequence))
      ≢ err out_of_fuel
last_round k size total sequence end h =
    elim (⟫=-eq-err (bail_if (not (end == size)) trailing_frame_data) _ h) [
      | inl e ↦ bail_if-fueled (not (end == size)) trailing_frame_data (λ p. cc) e
      | inr (u, e, q) ↦ elim (⟫=-eq-err (checked_u64 total) _ q) [
        | inl e2 ↦ checked_u64-fueled total e2
        | inr (n, e2, q2) ↦ err-ne-ok (sym q2)
      ]
    ]

-- What follows the reading of the header in `open_frame`.
found_header :
    (k : StreamKey) (file : Bytes) (sequence offset : ℕ) (bytes : Bytes)
    → (decode_frame_header k.frame_magic k.frame_size bytes ⟫= λ frame.
        bail_if (not (frame.sequence == sequence)) sequence_mismatch ⟫= λ _.
        checked_u64 (offset + frame_header_size + frame.ciphertext_len) ⟫= λ end.
        bail_if (ltb (length file) end) frame_truncated ⟫= λ _.
        if frame.last
        then (bail_if (not (end == length file)) trailing_frame_data ⟫= λ _.
            checked_u64 (sequence * k.frame_size + frame.plaintext_len) ⟫= λ total.
            ok (final total sequence))
        else (checked_u64 (sequence + 1) ⟫= λ sequence'. ok (next sequence')))
      ≢ err out_of_fuel
found_header k file sequence offset bytes h =
    elim (⟫=-eq-err (decode_frame_header k.frame_magic k.frame_size bytes) _ h) [
      | inl e ↦ decode_frame_header-fueled k.frame_magic k.frame_size bytes e
      | inr (frame, _, h1) ↦ elim (⟫=-eq-err (bail_if (not (frame.sequence == sequence)) _) _ h1) [
        | inl e ↦ bail_if-fueled _ sequence_mismatch (λ p. cc) e
        | inr (u, _, h2) ↦
            elim (⟫=-eq-err (checked_u64 (offset + frame_header_size + frame.ciphertext_len)) _
              h2) [
                | inl e ↦ checked_u64-fueled _ e
                | inr (end, _, h3) ↦ elim (⟫=-eq-err (bail_if (ltb (length file) end) _) _ h3) [
                  | inl e ↦ bail_if-fueled _ frame_truncated (λ p. cc) e
                  | inr (v, _, h4) ↦ elim (Bool-cases frame.last) [
                    | inl last ↦
                        last_round k (length file) (sequence * k.frame_size + frame.plaintext_len)
                          sequence end (simp last at h4)
                    | inr going ↦
                        elim (⟫=-eq-err (checked_u64 (sequence + 1)) _ (simp going at h4)) [
                          | inl e ↦ checked_u64-fueled _ e
                          | inr (n, _, q) ↦ absurd (err-ne-ok (sym q))
                        ]
                  ]
                ]
              ]
      ]
    ]

open_frame-fueled :
    (k : StreamKey) (start : ℕ) (file : Bytes) (sequence : ℕ)
    → open_frame k start file sequence ≢ err out_of_fuel
unfolding open_frame
open_frame-fueled k start file sequence h = elim (⟫=-eq-err (frame_offset k start sequence) _ h) [
  | inl e ↦ frame_offset-fueled k start sequence e
  | inr (offset, _, h1) ↦
      elim (⟫=-eq-err (bail_if (ltb (length file) (offset + frame_header_size)) _) _ h1) [
        | inl e ↦ bail_if-fueled _ missing_final_frame (λ p. cc) e
        | inr (u, _, h2) ↦ elim (⟫=-eq-err (read_at offset frame_header_size file) _ h2) [
          | inl e ↦ read_at-fueled offset frame_header_size file e
          | inr (bytes, _, h3) ↦ found_header k file sequence offset bytes h3
        ]
      ]
]

final-ne-next : {n last m : ℕ} → final n last ≢ next m
final-ne-next e = cc

next-injective : {n m : ℕ} → next n ≡ next m → n ≡ m
next-injective e = cc

-- A round that goes on has found a whole frame in the file.
open_frame-next :
    (k : StreamKey) (start : ℕ) (file : Bytes) (sequence sequence' : ℕ)
    → open_frame k start file sequence ≡ ok (next sequence')
    → (sequence' ≡ sequence + 1) × (sequence' ≤ length file)
unfolding open_frame
open_frame-next k start file sequence sequence' h =
    let (offset, e1, h1) = ⟫=-eq-ok (frame_offset k start sequence) _ h in
    let (u, e2, h2) = ⟫=-eq-ok (bail_if (ltb (length file) (offset + frame_header_size)) _) _ h1 in
    let (bytes, e3, h3) = ⟫=-eq-ok (read_at offset frame_header_size file) _ h2 in
    let (frame, e4, h4) = ⟫=-eq-ok (decode_frame_header k.frame_magic k.frame_size bytes) _ h3 in
    let (v, e5, h5) = ⟫=-eq-ok (bail_if (not (frame.sequence == sequence)) _) _ h4 in
    let (end, e6, h6) =
      ⟫=-eq-ok (checked_u64 (offset + frame_header_size + frame.ciphertext_len)) _ h5 in
    let (w, e7, h7) = ⟫=-eq-ok (bail_if (ltb (length file) end) _) _ h6 in
    let inside : offset + 24 ≤ length file = ltb→le _ _ (bail_if-eq-ok _ _ e2) in
    let bound = frame_offset_bound k start sequence offset e1 in
    elim (Bool-cases frame.last) [
      | inl last ↦
          let q = simp last at h7 in
          let (z, e8, h8) = ⟫=-eq-ok (bail_if (not (end == length file)) _) _ q in
          let (n, e9, h9) =
            ⟫=-eq-ok (checked_u64 (sequence * k.frame_size + frame.plaintext_len)) _ h8 in
          absurd (final-ne-next (ok-injective h9))
      | inr going ↦
          let q = simp going at h7 in
          let (n, e8, h8) = ⟫=-eq-ok (checked_u64 (sequence + 1)) _ q in
          let same : n ≡ sequence' = next-injective (ok-injective h8) in
          let step = checked_u64-eq (sequence + 1) n e8 in
          (omega (arith, same, step), omega (arith, same, step, inside, bound))
    ]

open_loop-fueled :
    (fuel : ℕ) (k : StreamKey) (start : ℕ) (file : Bytes) (sequence : ℕ)
    → length file < sequence + fuel
    → sequence ≤ length file
    → open_loop fuel k start file sequence ≢ err out_of_fuel
unfolding open_loop
open_loop-fueled zero k start file sequence few least p = absurd (omega arith)
open_loop-fueled (suc fuel) k start file sequence few least p =
    elim (Result-cases (open_frame k start file sequence)) [
      | inl (final total last, e) ↦ absurd (err-ne-ok (sym (rw (e, open_loop) at p)))
      | inl (next sequence', e) ↦
          let (step, inside) = open_frame-next k start file sequence sequence' e in
          open_loop-fueled fuel k start file sequence' (omega (arith, step)) inside
            (rw (e, open_loop) at p)
      | inr (c, e) ↦
          open_frame-fueled k start file sequence
            (e ∙ ap err (err-injective (rw (e, open_loop) at p)))
    ]

-- Opening a stream of frames ends for every file, with a reader or an error of the source: a frame
-- that is not the last takes at least 40 bytes.
pub open_frames-ends :
    (k : StreamKey) (frames_start : ℕ) (file : Bytes)
    → open_frames k frames_start file ≢ err out_of_fuel
unfolding open_frames
open_frames-ends k start file p =
    elim (⟫=-eq-err (open_loop (suc (length file)) k start file 0) _ p) [
      | inl e ↦ open_loop-fueled (suc (length file)) k start file 0 (omega arith) (omega arith) e
      | inr (found, e, q) ↦ absurd (err-ne-ok (sym q))
    ]
