-- ===== src/Frames/Stream/ReadBack.antt =====
-- `KeyedReader` of src/keyed_stream.rs reads a stream as the bytes that were written.
use Prim.Native.Nat.{min}
use rgx.Common.{
  ℕ, zero, suc, ◌+◌, ◌-◌, ◌*◌, ◌/◌, ◌%◌, ◌^◌, ◌≡◌, ◌≤◌, ◌<◌, refl, ap, ◌∙◌, sym, [], ◌∷◌, ◌++◌,
  append_assoc, append-nil, Bool, true, false, not, ◌&&◌, ◌||◌, some, Bytes, length, take, drop,
  length-drop, length-take, arith, ltb, leb, le→ltb, ltb→le, ltb→lt, ◌==◌, eq→==, ==_iff,
  Bool-cases, inl, inr, Result, ok,
}
use rgx.Frames.{Aead, IsAead}
use rgx.Frames.Headers.{frame_nonce, frame_aad}
use rgx.Frames.Writer.{StreamKey}
use rgx.Frames.Reader.{
  FrameReader, is_cached, open_ciphertext, fetch_frame, load_frame, read_round, read_loop, read,
}
use rgx.Frames.Stream.{IsStreamKey, block, FrameAt, IsStream, mul_mono}
use rgx.Frames.Stream.Written.{drop_all}
use rgx.Frames.Stream.Opened.{
  frame_offset-fits, read_at-header, read_at-ciphertext, decode-header, frame_end, length-block,
}

take_nil : (n : ℕ) → ◌≡◌ {A = Bytes} (take n []) []
take_nil zero = refl
take_nil (suc n) = refl

drop_nil : (n : ℕ) → ◌≡◌ {A = Bytes} (drop n []) []
drop_nil zero = refl
drop_nil (suc n) = refl

drop-take : (m n : ℕ) (xs : Bytes) → m ≤ n → drop m (take n xs) ≡ take (n - m) (drop m xs)
drop-take zero n xs h = ap (λ (p : ℕ). take p xs) (omega arith)
drop-take (suc m) zero xs h = absurd (omega arith)
drop-take (suc m) (suc n) [] h = sym (take_nil (suc n - suc m))
drop-take (suc m) (suc n) (b ∷ bs) h =
    drop-take m n bs (omega arith) ∙ ap (λ (p : ℕ). take p (drop m bs)) (omega arith)

take-take : (m n : ℕ) (xs : Bytes) → m ≤ n → take m (take n xs) ≡ take m xs
take-take zero n xs h = refl
take-take (suc m) zero xs h = absurd (omega arith)
take-take (suc m) (suc n) [] h = refl
take-take (suc m) (suc n) (b ∷ bs) h = ap (λ (t : Bytes). b ∷ t) (take-take m n bs (omega arith))

drop-drop : (m n : ℕ) (xs : Bytes) → drop m (drop n xs) ≡ drop (n + m) xs
drop-drop m zero xs = ap (λ (p : ℕ). drop p xs) (omega arith)
drop-drop m (suc n) [] = drop_nil m ∙ sym (drop_nil (suc n + m))
drop-drop m (suc n) (b ∷ bs) =
    let e : suc (n + m) ≡ suc n + m = omega arith in
    drop-drop m n bs ∙ ap (λ (p : ℕ). drop p (b ∷ bs)) e

take-split : (m n : ℕ) (xs : Bytes) → m ≤ n → take m xs ++ take (n - m) (drop m xs) ≡ take n xs
take-split zero n xs h = ap (λ (p : ℕ). take p xs) (omega arith)
take-split (suc m) zero xs h = absurd (omega arith)
take-split (suc m) (suc n) [] h = take_nil (suc n - suc m)
take-split (suc m) (suc n) (b ∷ bs) h =
    ap (λ (t : Bytes). b ∷ t)
      (ap (λ (p : ℕ). take m bs ++ take p (drop m bs)) (omega arith)
        ∙ take-split m n bs (omega arith))

take_ge : (n : ℕ) (xs : Bytes) → length xs ≤ n → take n xs ≡ xs
take_ge zero [] h = refl
take_ge zero (b ∷ bs) h = absurd (omega arith)
take_ge (suc n) [] h = refl
take_ge (suc n) (b ∷ bs) h = ap (λ (t : Bytes). b ∷ t) (take_ge n bs (omega arith))

-- The reader of a stream, at any position; the frame that it keeps is that of its number.
pub record Reads (k : StreamKey) (base : ℕ) (file plain : Bytes) (last : ℕ) (r : FrameReader)
    : Type 0 where
  pub of_file : r.file ≡ file
  pub start : r.frames_start ≡ base
  pub len : r.plaintext_len ≡ length plain
  pub final : r.final_sequence ≡ last
  pub cached : (i : ℕ) → is_cached r.cached_sequence i ≡ true → r.cached_plaintext ≡ block k i plain

module _ (x : Aead) (law : IsAead x) (k : StreamKey) (fine : IsStreamKey k) where
  open_ciphertext-sealed :
      (header : Bytes) (i : ℕ) (d ciphertext : Bytes)
      → x.encrypt k.key (frame_nonce k.nonce_prefix i) d (frame_aad k.header_bytes header)
        ≡ some ciphertext
      → open_ciphertext x k header i (length d) ciphertext ≡ ok d
  unfolding open_ciphertext
  open_ciphertext-sealed header i d ciphertext h =
      rw
        (
          law.decrypt-encrypt _ _ d _ ciphertext h,
          open_ciphertext,
          eq→== (length d) (length d) refl,
        )
        refl

  module _ (base : ℕ) (file plain : Bytes) (last : ℕ) (s : IsStream x k base file plain last)
      (fits : length file < 2 ^ 64) where
    -- A frame of the stream, the last one included.
    FrameAt-block :
        (i : ℕ)
        → i ≤ last
        → (flag : Bool) × FrameAt x k base file i (block k i plain) flag
          × ((not flag && not (length (block k i plain) == k.frame_size)) ≡ false)
          × (length (block k i plain) ≤ k.frame_size)
    FrameAt-block i h = elim (Bool-cases (i == last)) [
      | inr before ↦
          let len =
            length-block x law k fine base file plain last s fits i (ground (arith, before)) in
          (false, s.full i (ground (arith, before)), rw (eq→== _ _ len) refl, omega (arith, len))
      | inl now ↦
          let same : i ≡ last = (==_iff i last).0 now in
          let whole =
            take_ge k.frame_size (drop (last * k.frame_size) plain) (omega (arith, s.part)) in
          rw (same, whole) (true, s.final, refl, omega (arith, s.part))
    ]

    fetch_frame-block :
        (r : FrameReader) (i : ℕ)
        → Reads k base file plain last r
        → i ≤ last
        → fetch_frame x k r i ≡ ok (block k i plain)
    unfolding fetch_frame
    fetch_frame-block r i v h =
        let (flag, f, full, most) = FrameAt-block i h in
        let d = block k i plain in
        let end = frame_end x law k fine base file i d flag f in
        let few = s.few in
        rw
          (
            v.final,
            v.start,
            v.of_file,
            le→ltb last i h,
            frame_offset-fits x law k fine base i (omega (arith, end)),
            read_at-header x law k fine base file i d flag f,
            decode-header x law k fine base file i d flag f (omega (arith, few)) most full,
            eq→== i i refl,
            read_at-ciphertext x law k fine base file i d flag f,
          )
          (open_ciphertext-sealed _ i d f.ciphertext f.sealed)

    load_frame-block :
        (r : FrameReader) (i : ℕ)
        → Reads k base file plain last r
        → i ≤ last
        → (r' : FrameReader) × (load_frame x k r i ≡ ok r')
          × Reads k base file plain last r'
          × (r'.cached_plaintext ≡ block k i plain)
          × (r'.position ≡ r.position)
    unfolding load_frame
    load_frame-block r i v h = elim (Bool-cases (is_cached r.cached_sequence i)) [
      | inl hit ↦ (r, rw hit refl, v, v.cached i hit, refl)
      | inr miss ↦ (
        record r { cached_sequence = some i; cached_plaintext = block k i plain },
        rw (miss, fetch_frame-block r i v h) refl,
        record {
          of_file = v.of_file;
          start = v.start;
          len = v.len;
          final = v.final;
          cached = λ j e. ap (λ (n : ℕ). block k n plain) ((==_iff i j).0 (unfold is_cached in e));
        },
        refl,
        refl,
      )
    ]

    -- The frame of a position in the stream, and the place within it.
    frame_of :
        (p : ℕ)
        → p < length plain
        → (p / k.frame_size ≤ last)
          × (p / k.frame_size * k.frame_size + p % k.frame_size ≡ p)
          × (p % k.frame_size < k.frame_size)
    frame_of p h =
        let part = s.part in
        let len = s.plain_len in
        let pos = fine.positive in
        let whole : p / k.frame_size * k.frame_size + p % k.frame_size ≡ p = omega arith in
        let within : p % k.frame_size < k.frame_size = omega arith in
        (
          elim (Bool-cases (ltb last (p / k.frame_size))) [
            | inr small ↦ ltb→le last (p / k.frame_size) small
            | inl large ↦ absurd (
                omega (
                  arith,
                  mul_mono last (p / k.frame_size) k.frame_size
                      (ltb→lt last (p / k.frame_size) large),
                ))
          ],
          whole,
          within,
        )

    -- What is copied from a frame is what stands in the plaintext.
    copied :
        (p want : ℕ)
        → p / k.frame_size * k.frame_size + p % k.frame_size ≡ p
        → p % k.frame_size < k.frame_size
        → want ≤ k.frame_size - p % k.frame_size
        → take want (drop (p % k.frame_size) (block k (p / k.frame_size) plain))
          ≡ take want (drop p plain)
    copied p want whole less h =
        let i = p / k.frame_size in
        let m = p % k.frame_size in
        ap (take want) (drop-take m k.frame_size (drop (i * k.frame_size) plain) (omega arith))
        ∙ take-take want (k.frame_size - m) (drop m (drop (i * k.frame_size) plain)) h
        ∙ ap (take want) (drop-drop m (i * k.frame_size) plain ∙ ap (λ (q : ℕ). drop q plain) whole)

    -- One round copies a byte at least, if some are wanted and left.
    read_round-Reads :
        (r : FrameReader) (want : ℕ)
        → Reads k base file plain last r
        → r.position < length plain
        → 0 < want
        → (n : ℕ) × (r' : FrameReader) × (read_round x k r want
            ≡ ok (take n (drop r.position plain), r'))
          × Reads k base file plain last r'
          × (r'.position ≡ r.position + n)
          × (0 < n)
          × (n ≤ want)
          × (r.position + n ≤ length plain)
    unfolding read_round
    read_round-Reads r want v h pos =
        let i = r.position / k.frame_size in
        let m = r.position % k.frame_size in
        let (among, whole, less) = frame_of r.position h in
        let (r', e, v', cache, same) = load_frame-block r i v among in
        let len : length r'.cached_plaintext ≡ min k.frame_size (length plain - i * k.frame_size) =
          ap (λ (d : Bytes). length d) cache
          ∙ length-take k.frame_size (drop (i * k.frame_size) plain)
          ∙ ap (λ (q : ℕ). min k.frame_size q) (length-drop (i * k.frame_size) plain) in
        let n = min (length r'.cached_plaintext - m) want in
        let some_left : (length r'.cached_plaintext - m == 0) ≡ false =
          ground (arith, len, whole, less, h) in
        let q : FrameReader = record r' { position = r.position + n } in
        (
          n,
          q,
          rw (e, some_left)
              (ap (λ (d : Bytes). ok (d, q))
                (ap (λ (d : Bytes). take n (drop m d)) cache
                  ∙ copied r.position n whole less (omega (arith, len)))),
          record {
            of_file = v'.of_file;
            start = v'.start;
            len = v'.len;
            final = v'.final;
            cached = v'.cached;
          },
          refl,
          omega (arith, len, whole, less, h, pos),
          omega arith,
          omega (arith, len, whole, less, h),
        )

    -- What is left to read when the loop stops.
    nothing_left :
        (r : FrameReader) (want : ℕ)
        → Reads k base file plain last r
        → (want == 0 || leb r.plaintext_len r.position) ≡ true
        → take want (drop r.position plain) ≡ []
    nothing_left r zero v h = refl
    nothing_left r (suc want) v h =
        let past : length plain ≤ r.position = ground (arith, v.len, h) in
        ap (take (suc want)) (drop_all r.position plain past)

    -- Where a read leaves the reader, and what it returns.
    abbrev ReadsNext : FrameReader → ℕ → Bytes → Result (Bytes × FrameReader) → Type 0
    ReadsNext r want acc result =
        (r' : FrameReader) × (result ≡ ok (acc ++ take want (drop r.position plain), r'))
        × Reads k base file plain last r'
        × (r'.position ≡ r.position + length (take want (drop r.position plain)))

    stopped :
        (r : FrameReader) (want : ℕ) (acc : Bytes)
        → Reads k base file plain last r
        → (want == 0 || leb r.plaintext_len r.position) ≡ true
        → ReadsNext r want acc (ok (acc, r))
    stopped r want acc v h = rw (nothing_left r want v h, append-nil acc) (r, refl, v, omega arith)

    one_round :
        (fuel : ℕ) (r q : FrameReader) (want n : ℕ) (acc copy : Bytes)
        {result : Result (Bytes × FrameReader)}
        → (want == 0 || leb r.plaintext_len r.position) ≡ false
        → read_round x k r want ≡ ok (copy, q)
        → length copy ≡ n
        → read_loop x k fuel q (want - n) (acc ++ copy) ≡ result
        → read_loop x k (suc fuel) r want acc ≡ result
    unfolding read_loop
    one_round fuel r q want n acc copy going e len h = rw (going, e, len) h

    joined :
        (p n want : ℕ) (q : ℕ) (acc : Bytes)
        → q ≡ p + n
        → n ≤ want
        → (acc ++ take n (drop p plain)) ++ take (want - n) (drop q plain)
          ≡ acc ++ take want (drop p plain)
    joined p n want q acc moved most =
        append_assoc acc (take n (drop p plain)) (take (want - n) (drop q plain))
        ∙ ap (λ (i : ℕ). acc ++ (take n (drop p plain) ++ take (want - n) (drop i plain))) moved
        ∙ ap (λ (t : Bytes). acc ++ (take n (drop p plain) ++ take (want - n) t))
            (sym (drop-drop n p plain))
        ∙ ap (λ (t : Bytes). acc ++ t) (take-split n want (drop p plain) most)

    after_round :
        (fuel : ℕ) (r q : FrameReader) (want n : ℕ) (acc : Bytes)
        → (want == 0 || leb r.plaintext_len r.position) ≡ false
        → read_round x k r want ≡ ok (take n (drop r.position plain), q)
        → length (take n (drop r.position plain)) ≡ n
        → q.position ≡ r.position + n
        → n ≤ want
        → ReadsNext q
            (want - n)
            (acc ++ take n (drop r.position plain))
            (read_loop x k fuel q (want - n) (acc ++ take n (drop r.position plain)))
        → ReadsNext r want acc (read_loop x k (suc fuel) r want acc)
    after_round fuel r q want n acc going e len moved most (r', e', v', moved') = (
      r',
      one_round fuel r q want n acc (take n (drop r.position plain)) going e len (
          e' ∙ ap (λ (d : Bytes). ok (d, r')) (joined r.position n want q.position acc moved most)),
      v',
      omega (
        arith,
        moved,
        moved',
        most,
        len,
        length-take n (drop r.position plain),
        length-take want (drop r.position plain),
        length-drop r.position plain,
        length-take (want - n) (drop q.position plain),
        length-drop q.position plain,
      ),
    )

    read_loop-Reads :
        (fuel : ℕ) (r : FrameReader) (want : ℕ) (acc : Bytes)
        → Reads k base file plain last r
        → want ≤ fuel
        → ReadsNext r want acc (read_loop x k fuel r want acc)
    unfolding read_loop
    read_loop-Reads zero r want acc v h =
        let over : (want == 0 || leb r.plaintext_len r.position) ≡ true = ground (arith, h) in
        rw over (stopped r want acc v over)
    read_loop-Reads (suc fuel) r want acc v h =
        elim (Bool-cases (want == 0 || leb r.plaintext_len r.position)) [
          | inl over ↦ rw over (stopped r want acc v over)
          | inr going ↦
              let left : (0 < want) × (r.position < length plain) = ground (arith, v.len, going) in
              let (n, q, e, v', moved, pos, most, inside) =
                read_round-Reads r want v left.1 left.0 in
              let len : length (take n (drop r.position plain)) ≡ n =
                omega
                  (arith, length-take n (drop r.position plain), length-drop r.position plain) in
              after_round fuel r q want n acc going e len moved most (
                read_loop-Reads fuel q (want - n) (acc ++ take n (drop r.position plain)) v'
                  (omega arith))
        ]

    -- A reader of a stream reads what was written from its position on, as far as the stream goes, and
    -- its position moves by as much.
    pub read-Reads :
        (r : FrameReader) (want : ℕ)
        → Reads k base file plain last r
        → (r' : FrameReader) × (read x k r want ≡ ok (take want (drop r.position plain), r'))
          × Reads k base file plain last r'
          × (r'.position ≡ r.position + length (take want (drop r.position plain)))
    unfolding read
    read-Reads r want v = read_loop-Reads want r want [] v (omega arith)
