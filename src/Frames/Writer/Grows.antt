-- ===== src/Frames/Writer/Grows.antt =====
-- `KeyedWriter` of src/keyed_stream.rs only appends to what it has written.
use rgx.Common.{
  ℕ, zero, suc, ◌+◌, ◌^◌, ◌≡◌, ap, sym, ◌∙◌, [], ◌∷◌, ◌++◌, append_assoc, append-nil, Bool, true,
  false, Bytes, length, take, drop, ltb, not, ◌==◌, ok, bail_if, ⟫=-eq-ok, ok-injective, err-ne-ok,
  Bool-cases, inl, inr,
}
use rgx.Frames.{Aead}
use rgx.Frames.Writer.{
  StreamKey, FrameWriter, seal_frame, emit, finish, fill, room, write_loop, write,
}

-- What `w'` has written begins with what `w` has.
abbrev pub Grows : FrameWriter → FrameWriter → Type 0
Grows w w' = (t : Bytes) × (w'.out ≡ w.out ++ t)

pub Grows-trans : (u v w : FrameWriter) → Grows u v → Grows v w → Grows u w
Grows-trans u v w (s, e) (t, f) =
    (s ++ t, f ∙ ap (λ (o : Bytes). o ++ t) e ∙ append_assoc u.out s t)

module _ (x : Aead) (k : StreamKey) where
  emit-Grows : (last : Bool) (w w' : FrameWriter) → emit x k last w ≡ ok w' → Grows w w'
  unfolding emit
  emit-Grows last w w' h =
      let (frame, e1, h1) = ⟫=-eq-ok (seal_frame x k w.sequence w.buffer last) _ h in
      let (u, e2, h2) = ⟫=-eq-ok (bail_if (not (ltb (w.sequence + 1) (2 ^ 64))) _) _ h1 in
      (frame, sym (ap (λ (v : FrameWriter). v.out) (ok-injective h2)))

  fill-Grows :
      (n : ℕ) (w w' : FrameWriter) (bytes : Bytes) → fill x k n w bytes ≡ ok w' → Grows w w'
  unfolding fill
  fill-Grows n w w' bytes h =
      elim (Bool-cases (length (w.buffer ++ take n bytes) == k.frame_size)) [
        | inl full ↦
            emit-Grows false (record w { buffer = w.buffer ++ take n bytes }) w' (rw full at h)
        | inr part ↦ (
          [],
          sym (ap (λ (v : FrameWriter). v.out) (ok-injective (rw part at h)))
              ∙ sym (append-nil w.out),
        )
      ]

  write_loop-Grows :
      (fuel : ℕ) (w w' : FrameWriter) (bytes : Bytes)
      → write_loop x k fuel w bytes ≡ ok w'
      → Grows w w'
  unfolding write_loop
  write_loop-Grows fuel w w' [] h =
      ([], sym (ap (λ (v : FrameWriter). v.out) (ok-injective h)) ∙ sym (append-nil w.out))
  write_loop-Grows zero w w' (b ∷ bs) h = absurd (err-ne-ok h)
  write_loop-Grows (suc fuel) w w' (b ∷ bs) h =
      let n = room x k w (b ∷ bs) in
      let (v, e, h1) = ⟫=-eq-ok (fill x k n w (b ∷ bs)) _ h in
      Grows-trans w v w' (fill-Grows n w v (b ∷ bs) e)
        (write_loop-Grows fuel v w' (drop n (b ∷ bs)) h1)

  pub write-Grows : (w w' : FrameWriter) (bytes : Bytes) → write x k w bytes ≡ ok w' → Grows w w'
  unfolding write
  write-Grows w w' bytes h = elim (Bool-cases w.finished) [
    | inl over ↦ absurd (err-ne-ok (simp over at h))
    | inr unfinished ↦ write_loop-Grows (length bytes) w w' bytes (simp unfinished at h)
  ]

  pub finish-Grows : (w w' : FrameWriter) → finish x k w ≡ ok w' → Grows w w'
  unfolding finish
  finish-Grows w w' h = elim (Bool-cases w.finished) [
    | inl over ↦ (
      [],
      sym (ap (λ (v : FrameWriter). v.out) (ok-injective (simp over at h)))
          ∙ sym (append-nil w.out),
    )
    | inr unfinished ↦
        let (v, e, h1) = ⟫=-eq-ok (emit x k true w) _ (simp unfinished at h) in
        let (t, f) = emit-Grows true w v e in
        (t, sym (ap (λ (u : FrameWriter). u.out) (ok-injective h1)) ∙ f)
  ]
