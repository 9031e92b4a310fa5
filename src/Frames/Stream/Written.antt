-- ===== src/Frames/Stream/Written.antt =====
-- What `KeyedWriter` of src/keyed_stream.rs has written is a stream of all that it was given.
use rgx.Common.{
  List, concat, ℕ, zero, suc, ◌+◌, ◌*◌, ◌^◌, ◌≡◌, ◌≤◌, ◌<◌, refl, ap, ◌∙◌, sym, subst, [], ◌∷◌,
  ◌++◌, append_assoc, append-nil, Bool, true, false, not, Bytes, length, take, drop, length-append,
  length-drop, take-append-drop, arith, ltb, ◌==◌, ==_iff, ok, bail_if, bail_if-eq-ok, ⟫=-eq-ok,
  ok-injective, err-ne-ok, Bool-cases, inl, inr, take_all,
}
use rgx.Frames.{Aead, IsAead}
use rgx.Frames.Writer.{
  StreamKey, FrameWriter, seal_frame, emit, finish, fill, room, write_loop, write, start_writer,
}
use rgx.Frames.Writer.Grows.{Grows, Grows-trans, write-Grows, finish-Grows}
use rgx.Frames.Writer.Ends.{write-ends}
use rgx.Frames.Reader.{stride}
use rgx.Frames.Stream.{
  IsStreamKey, block, header_for, suc_mul, mul_mono, write_each, FrameAt, IsStream, Sealed,
  seal_frame-Sealed, length-encode_frame_header,
}

take-append_le : (n : ℕ) (xs ys : Bytes) → n ≤ length xs → take n (xs ++ ys) ≡ take n xs
take-append_le zero xs ys h = refl
take-append_le (suc n) [] ys h = absurd (omega arith)
take-append_le (suc n) (b ∷ bs) ys h =
    ap (λ (t : Bytes). b ∷ t) (take-append_le n bs ys (omega arith))

drop-append_le : (n : ℕ) (xs ys : Bytes) → n ≤ length xs → drop n (xs ++ ys) ≡ drop n xs ++ ys
drop-append_le zero xs ys h = refl
drop-append_le (suc n) [] ys h = absurd (omega arith)
drop-append_le (suc n) (b ∷ bs) ys h = drop-append_le n bs ys (omega arith)

pub drop_all : (n : ℕ) (xs : Bytes) → length xs ≤ n → drop n xs ≡ []
drop_all zero [] h = refl
drop_all zero (b ∷ bs) h = absurd (omega arith)
drop_all (suc n) [] h = refl
drop_all (suc n) (b ∷ bs) h = drop_all n bs (omega arith)

-- A block that is there is not changed by what follows.
block-append :
    (k : StreamKey) (i : ℕ) (plain more : Bytes)
    → i * k.frame_size + k.frame_size ≤ length plain
    → block k i (plain ++ more) ≡ block k i plain
block-append k i plain more h =
    ap (take k.frame_size) (drop-append_le (i * k.frame_size) plain more (omega arith))
    ∙ take-append_le k.frame_size (drop (i * k.frame_size) plain) more
        (omega (arith, length-drop (i * k.frame_size) plain))

module _ (x : Aead) (law : IsAead x) (k : StreamKey) (fine : IsStreamKey k) where
  FrameAt-append :
      (base : ℕ) (out more : Bytes) (i : ℕ) (d : Bytes) (last : Bool)
      → FrameAt x k base out i d last
      → FrameAt x k base (out ++ more) i d last
  FrameAt-append base out more i d last f = record {
    before = f.before;
    ciphertext = f.ciphertext;
    after = f.after ++ more;
    placed = ap (λ (t : Bytes). t ++ more) f.placed ∙ simp append_assoc refl;
    offset = f.offset;
    sealed = f.sealed;
  }

  -- The frame that was written last.
  FrameAt-last :
      (base : ℕ) (out frame : Bytes) (i : ℕ) (d : Bytes) (last : Bool)
      → length out ≡ base + i * stride k
      → Sealed x k i d last frame
      → FrameAt x k base (out ++ frame) i d last
  FrameAt-last base out frame i d last h s = record {
    before = out;
    ciphertext = s.ciphertext;
    after = [];
    placed = ap (λ (t : Bytes). out ++ t) (s.parts ∙ simp append-nil refl);
    offset = h;
    sealed = s.sealed;
  }

  length-Sealed :
      (i : ℕ) (d : Bytes) (last : Bool) (frame : Bytes)
      → Sealed x k i d last frame
      → length frame ≡ 24 + length d + 16
  length-Sealed i d last frame s =
      let header = header_for i d last in
      rw s.parts (
        omega (
          arith,
          length-append _ s.ciphertext,
          length-encode_frame_header x k header fine.frame_magic,
          law.length-encrypt _ _ d _ s.ciphertext s.sealed,
        ))

  -- The writer after it was given `plain`, behind `base` bytes.
  record Written (base : ℕ) (w : FrameWriter) (plain : Bytes) : Type 0 where
    unfinished : w.finished ≡ false
    taken : w.sequence * k.frame_size + length w.buffer ≡ length plain
    buffered : drop (w.sequence * k.frame_size) plain ≡ w.buffer
    written : length w.out ≡ base + w.sequence * stride k
    full : (i : ℕ) → i < w.sequence → FrameAt x k base w.out i (block k i plain) false

  Written-start : Written (length k.header_bytes) (start_writer x k) []
  Written-start = record {
    unfinished = refl;
    taken = omega arith;
    buffered = drop_all (0 * k.frame_size) [] (omega arith);
    written = omega arith;
    full = λ i h. absurd (omega arith);
  }

  Written-buffer :
      (base : ℕ) (w : FrameWriter) (plain more : Bytes)
      → Written base w plain
      → Written base (record w { buffer = w.buffer ++ more }) (plain ++ more)
  Written-buffer base w plain more v = record {
    unfinished = v.unfinished;
    taken = omega (arith, v.taken, length-append w.buffer more, length-append plain more);
    buffered =
        drop-append_le (w.sequence * k.frame_size) plain more (omega (arith, v.taken))
        ∙ ap (λ (t : Bytes). t ++ more) v.buffered;
    written = v.written;
    full = λ i h.
        subst (λ (d : Bytes). FrameAt x k base w.out i d false)
          (sym (
            block-append k i plain more
              (omega (arith, v.taken, mul_mono i w.sequence k.frame_size h))))
          (v.full i h);
  }

  emitted :
      (last : Bool) (w w' : FrameWriter)
      → emit x k last w ≡ ok w'
      → (frame : Bytes) × Sealed x k w.sequence w.buffer last frame
        × (w.sequence + 1 < 2 ^ 64)
        × (record w { out = w.out ++ frame; buffer = []; sequence = w.sequence + 1 } ≡ w')
  unfolding emit
  emitted last w w' h =
      let (frame, e1, h1) = ⟫=-eq-ok (seal_frame x k w.sequence w.buffer last) _ h in
      let (u, e2, h2) = ⟫=-eq-ok (bail_if (not (ltb (w.sequence + 1) (2 ^ 64))) _) _ h1 in
      let few : w.sequence + 1 < 2 ^ 64 =
        ground (arith, bail_if-eq-ok (not (ltb (w.sequence + 1) (2 ^ 64))) _ e2) in
      (frame, seal_frame-Sealed x k w.sequence w.buffer last frame e1, few, ok-injective h2)

  stride_sum : stride k ≡ 24 + k.frame_size + 16
  unfolding stride
  stride_sum = refl

  full_step :
      (base : ℕ) (w : FrameWriter) (plain frame : Bytes)
      → Written base w plain
      → length w.buffer ≡ k.frame_size
      → Sealed x k w.sequence w.buffer false frame
      → (i : ℕ) → i < w.sequence + 1
      → FrameAt x k base (w.out ++ frame) i (block k i plain) false
  full_step base w plain frame v len s i h = elim (Bool-cases (i == w.sequence)) [
    | inr earlier ↦
        FrameAt-append base w.out frame i (block k i plain) false
          (v.full i (ground (arith, earlier)))
    | inl now ↦
        let same : i ≡ w.sequence = (==_iff i w.sequence).0 now in
        let whole : block k w.sequence plain ≡ w.buffer =
          ap (take k.frame_size) v.buffered ∙ take_all k.frame_size w.buffer len in
        rw (same, whole) (FrameAt-last base w.out frame w.sequence w.buffer false v.written s)
  ]

  Written-emit :
      (base : ℕ) (w w' : FrameWriter) (plain : Bytes)
      → Written base w plain
      → length w.buffer ≡ k.frame_size
      → emit x k false w ≡ ok w'
      → Written base w' plain
  Written-emit base w w' plain v len h =
      let (frame, s, few, same) = emitted false w w' h in
      let more = suc_mul w.sequence k.frame_size in
      let more_out = suc_mul w.sequence (stride k) in
      subst (λ (u : FrameWriter). Written base u plain) same
        (record {
          unfinished = v.unfinished;
          taken = omega (arith, v.taken, len, more);
          buffered =
              drop_all ((w.sequence + 1) * k.frame_size) plain (omega (arith, v.taken, len, more));
          written = omega (
            arith,
            length-append w.out frame,
            length-Sealed w.sequence w.buffer false frame s,
            len,
            v.written,
            more_out,
            stride_sum,
          );
          full = full_step base w plain frame v len s;
        })

  Written-fill :
      (base n : ℕ) (w w' : FrameWriter) (plain bytes : Bytes)
      → Written base w plain
      → fill x k n w bytes ≡ ok w'
      → Written base w' (plain ++ take n bytes)
  unfolding fill
  Written-fill base n w w' plain bytes v h =
      let v' = Written-buffer base w plain (take n bytes) v in
      elim (Bool-cases (length (w.buffer ++ take n bytes) == k.frame_size)) [
        | inl full ↦
            Written-emit base (record w { buffer = w.buffer ++ take n bytes }) w'
              (plain ++ take n bytes) v' ((==_iff _ _).0 full) (rw full at h)
        | inr part ↦
            subst (λ (u : FrameWriter). Written base u (plain ++ take n bytes))
              (ok-injective (rw part at h)) v'
      ]

  Written-write_loop :
      (base fuel : ℕ) (w w' : FrameWriter) (plain bytes : Bytes)
      → Written base w plain
      → write_loop x k fuel w bytes ≡ ok w'
      → Written base w' (plain ++ bytes)
  unfolding write_loop
  Written-write_loop base fuel w w' plain [] v h =
      rw (append-nil plain) (subst (λ (u : FrameWriter). Written base u plain) (ok-injective h) v)
  Written-write_loop base zero w w' plain (b ∷ bs) v h = absurd (err-ne-ok h)
  Written-write_loop base (suc fuel) w w' plain (b ∷ bs) v h =
      let n = room x k w (b ∷ bs) in
      let (u, e, h1) = ⟫=-eq-ok (fill x k n w (b ∷ bs)) _ h in
      let v1 = Written-fill base n w u plain (b ∷ bs) v e in
      subst (λ (p : Bytes). Written base w' p)
        (append_assoc plain (take n (b ∷ bs)) (drop n (b ∷ bs))
          ∙ ap (λ (t : Bytes). plain ++ t) (take-append-drop n (b ∷ bs)))
        (Written-write_loop base fuel u w' (plain ++ take n (b ∷ bs)) (drop n (b ∷ bs)) v1 h1)

  Written-write :
      (base : ℕ) (w w' : FrameWriter) (plain bytes : Bytes)
      → Written base w plain
      → write x k w bytes ≡ ok w'
      → Written base w' (plain ++ bytes)
  unfolding write
  Written-write base w w' plain bytes v h =
      Written-write_loop base (length bytes) w w' plain bytes v (simp v.unfinished at h)

  Written-write_each :
      (base : ℕ) (w w' : FrameWriter) (plain : Bytes) (pieces : List Bytes)
      → Written base w plain
      → length w.buffer < k.frame_size
      → write_each x k w pieces ≡ ok w'
      → Written base w' (plain ++ concat pieces) × (length w'.buffer < k.frame_size)
  unfolding write_each
  Written-write_each base w w' plain [] v part h = rw (append-nil plain) (
      subst (λ (u : FrameWriter). Written base u plain × (length u.buffer < k.frame_size))
        (ok-injective h) (v, part))
  Written-write_each base w w' plain (bytes ∷ pieces) v part h =
      let (u, e, h1) = ⟫=-eq-ok (write x k w bytes) _ h in
      subst (λ (p : Bytes). Written base w' p × (length w'.buffer < k.frame_size))
        (append_assoc plain bytes (concat pieces))
        (Written-write_each base u w' (plain ++ bytes) pieces
          (Written-write base w u plain bytes v e) ((write-ends x k w bytes part).1 u e) h1)

  emitted-IsStream :
      (base : ℕ) (w : FrameWriter) (plain frame : Bytes)
      → Written base w plain
      → length w.buffer < k.frame_size
      → w.sequence + 1 < 2 ^ 64
      → Sealed x k w.sequence w.buffer true frame
      → IsStream x k base (w.out ++ frame) plain w.sequence
  emitted-IsStream base w plain frame v part few s = record {
    part = rw v.buffered part;
    plain_len = rw v.buffered v.taken;
    file_len = rw v.buffered (
        omega (
          arith,
          length-append w.out frame,
          length-Sealed w.sequence w.buffer true frame s,
          v.written,
        ));
    full = λ i h. FrameAt-append base w.out frame i (block k i plain) false (v.full i h);
    final = rw v.buffered (FrameAt-last base w.out frame w.sequence w.buffer true v.written s);
    few = few;
  }

  -- What writes of any sizes and `finish` leave behind the header is a stream of all bytes that were
  -- written.
  pub finish-IsStream :
      (w w' : FrameWriter) (pieces : List Bytes)
      → write_each x k (start_writer x k) pieces ≡ ok w
      → finish x k w ≡ ok w'
      → (last : ℕ) × IsStream x k (length k.header_bytes) w'.out (concat pieces) last
  unfolding finish
  finish-IsStream w w' pieces h f =
      let (v, part) =
        Written-write_each (length k.header_bytes) (start_writer x k) w [] pieces Written-start
          fine.positive h in
      let (u, e, f1) = ⟫=-eq-ok (emit x k true w) _ (simp v.unfinished at f) in
      let (frame, s, few, same) = emitted true w u e in
      let out : w.out ++ frame ≡ w'.out =
        ap (λ (t : FrameWriter). t.out) same ∙ ap (λ (t : FrameWriter). t.out) (ok-injective f1) in
      (
        w.sequence,
        subst (λ (o : Bytes). IsStream x k (length k.header_bytes) o (concat pieces) w.sequence) out
            (emitted-IsStream (length k.header_bytes) w (concat pieces) frame v part few s),
      )

module _ (x : Aead) (k : StreamKey) where
  write_each-Grows :
      (w w' : FrameWriter) (pieces : List Bytes) → write_each x k w pieces ≡ ok w' → Grows w w'
  unfolding write_each
  write_each-Grows w w' [] h =
      ([], sym (ap (λ (v : FrameWriter). v.out) (ok-injective h)) ∙ sym (append-nil w.out))
  write_each-Grows w w' (bytes ∷ pieces) h =
      let (u, e, h1) = ⟫=-eq-ok (write x k w bytes) _ h in
      Grows-trans w u w' (write-Grows x k w u bytes e) (write_each-Grows u w' pieces h1)

  -- The header stands in front.
  pub header_first :
      (w w' : FrameWriter) (pieces : List Bytes)
      → write_each x k (start_writer x k) pieces ≡ ok w
      → finish x k w ≡ ok w'
      → (t : Bytes) × (w'.out ≡ k.header_bytes ++ t)
  header_first w w' pieces h f =
      Grows-trans (start_writer x k) w w' (write_each-Grows (start_writer x k) w pieces h)
        (finish-Grows x k w w' f)
