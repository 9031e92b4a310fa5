-- ===== src/Frames/Writer/Ends.antt =====
-- `KeyedWriter::write` of src/keyed_stream.rs takes all that it is given.
use rgx.Common.{
  ℕ, zero, suc, ◌+◌, ◌^◌, ◌≡◌, ◌≢◌, ◌≤◌, ◌<◌, ap, sym, [], ◌∷◌, ◌++◌, Bool, false, Bytes, length,
  take, drop, length-append, length-take, length-drop, arith, ◌==◌, Result, ok, err, bail_if,
  ⟫=-eq-ok, ⟫=-eq-err, ok-injective, out_of_fuel, writer_finished, subst, Bool-cases, inl, inr, not,
  ltb,
}
use rgx.Frames.{Aead}
use rgx.Frames.Writer.{StreamKey, FrameWriter, seal_frame, emit, fill, room, write_loop, write}

module _ (x : Aead) (k : StreamKey) where
  emit-empties : (last : Bool) (w w' : FrameWriter) → emit x k last w ≡ ok w' → w'.buffer ≡ []
  unfolding emit
  emit-empties last w w' h =
      let (frame, e1, h1) = ⟫=-eq-ok (seal_frame x k w.sequence w.buffer last) _ h in
      let (u, e2, h2) = ⟫=-eq-ok (bail_if (not (ltb (w.sequence + 1) (2 ^ 64))) _) _ h1 in
      sym (ap (λ (v : FrameWriter). v.buffer) (ok-injective h2))

  seal_frame-fueled :
      (n : ℕ) (plaintext : Bytes) (last : Bool) → seal_frame x k n plaintext last ≢ err out_of_fuel
  unfolding seal_frame
  seal_frame-fueled n plaintext last p = ground arith

  emit-fueled : (last : Bool) (w : FrameWriter) → emit x k last w ≢ err out_of_fuel
  unfolding emit
  emit-fueled last w p = ground (arith, seal_frame-fueled w.sequence w.buffer last)

  -- One round takes a byte at least, and leaves the buffer not full.
  room_bounds :
      (w : FrameWriter) (bytes : Bytes)
      → length w.buffer < k.frame_size
      → 0 < length bytes
      → (0 < room x k w bytes)
        × (length w.buffer + room x k w bytes ≤ k.frame_size)
        × (room x k w bytes ≤ length bytes)
  unfolding room
  room_bounds w bytes h pos = (omega arith, omega arith, omega arith)

  fill-fueled : (n : ℕ) (w : FrameWriter) (bytes : Bytes) → fill x k n w bytes ≢ err out_of_fuel
  unfolding fill
  fill-fueled n w bytes p = elim (Bool-cases (length (w.buffer ++ take n bytes) == k.frame_size)) [
    | inl full ↦ emit-fueled false (record w { buffer = w.buffer ++ take n bytes }) (rw full at p)
    | inr part ↦ let q : ◌≡◌ {A = Result FrameWriter} (ok _) (err out_of_fuel) = rw part at p in cc
  ]

  fill-room :
      (n : ℕ) (w w' : FrameWriter) (bytes : Bytes)
      → 0 < k.frame_size
      → length w.buffer + n ≤ k.frame_size
      → fill x k n w bytes ≡ ok w'
      → length w'.buffer < k.frame_size
  unfolding fill
  fill-room n w w' bytes pos h e =
      let len = length-append w.buffer (take n bytes) in
      let taken = length-take n bytes in
      elim (Bool-cases (length (w.buffer ++ take n bytes) == k.frame_size)) [
        | inl full ↦
            let empty =
              emit-empties false (record w { buffer = w.buffer ++ take n bytes }) w'
                (rw full at e) in
            rw empty pos
        | inr part ↦
            let same = ap (λ (v : FrameWriter). length v.buffer) (ok-injective (rw part at e)) in
            ground (arith, same, len, taken, part)
      ]

  write_loop-ends :
      (fuel : ℕ) (w : FrameWriter) (bytes : Bytes)
      → length w.buffer < k.frame_size
      → length bytes ≤ fuel
      → (write_loop x k fuel w bytes ≢ err out_of_fuel)
        × ((w' : FrameWriter)
            → write_loop x k fuel w bytes ≡ ok w'
            → length w'.buffer < k.frame_size)
  unfolding write_loop
  write_loop-ends fuel w [] h few = (
    λ p. cc,
    λ w' e. subst (λ (v : FrameWriter). length v.buffer < k.frame_size) (ok-injective e) h,
  )
  write_loop-ends zero w (b ∷ bs) h few = absurd (omega arith)
  write_loop-ends (suc fuel) w (b ∷ bs) h few =
      let (pos, most, least) = room_bounds w (b ∷ bs) h (omega arith) in
      let n = room x k w (b ∷ bs) in
      let left : length (drop n (b ∷ bs)) ≤ fuel = omega (arith, length-drop n (b ∷ bs)) in
      (
        λ p. elim (⟫=-eq-err (fill x k n w (b ∷ bs)) _ p) [
          | inl e ↦ fill-fueled n w (b ∷ bs) e
          | inr (v, e, q) ↦
              (write_loop-ends fuel v (drop n (b ∷ bs))
                  (fill-room n w v (b ∷ bs) (omega arith) most e) left).0
                q
        ],
        λ w' e.
            let (v, e1, e2) = ⟫=-eq-ok (fill x k n w (b ∷ bs)) _ e in
            (write_loop-ends fuel v (drop n (b ∷ bs))
                (fill-room n w v (b ∷ bs) (omega arith) most e1) left).1
              w' e2,
      )

  -- When the buffer holds less than a frame, `write` ends with the writer or with an error of the
  -- source, for bytes of any length, and the buffer of the writer that it returns holds less than a
  -- frame again.
  pub write-ends :
      (w : FrameWriter) (bytes : Bytes)
      → length w.buffer < k.frame_size
      → (write x k w bytes ≢ err out_of_fuel)
        × ((w' : FrameWriter) → write x k w bytes ≡ ok w' → length w'.buffer < k.frame_size)
  unfolding write
  write-ends w bytes h = elim (Bool-cases w.finished) [
    | inl over ↦ (
      λ p.
          let q : ◌≡◌ {A = Result FrameWriter} (err writer_finished) (err out_of_fuel) =
            rw over at p in
          cc,
      λ w' p.
          let q : ◌≡◌ {A = Result FrameWriter} (err writer_finished) (ok w') = rw over at p in cc,
    )
    | inr unfinished ↦ simp unfinished (write_loop-ends (length bytes) w bytes h (omega arith))
  ]
