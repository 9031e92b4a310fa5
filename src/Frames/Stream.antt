-- ===== src/Frames/Stream.antt =====
-- The frames of src/keyed_stream.rs in a file, as the writer leaves them and the reader finds them.
pub mod Written
pub mod Opened
pub mod ReadBack
use rgx.Common.{
  drop-append, take-append, eq→==, ◌==◌, if◌then◌else◌, ℕ, suc, ◌+◌, ◌*◌, ◌^◌, ◌≡◌, ◌≤◌, ◌<◌, refl,
  ap, ◌∙◌, sym, List, [], ◌∷◌, ◌++◌, append_assoc, Bool, true, false, not, none, some, Bytes,
  length, take, drop, length-append, length-le_bytes, arith, ltb, ltb→le, ltb→lt, leb, le_bytes,
  Result, ok, err, bail_if, bail_if-eq-ok, ◌⟫=◌, ⟫=-eq-ok, ok-injective, err-ne-ok, Option-cases,
  inl, inr, replicate,
}
use rgx.Frames.{Aead, IsAead, tag_size}
use rgx.Frames.Headers.{FrameHeader, encode_frame_header, frame_nonce, frame_aad}
use rgx.Frames.Writer.{StreamKey, FrameWriter, seal_frame, write}
use rgx.Frames.Reader.{stride, read_at}

-- What a header of a stream allows.
pub record IsStreamKey (k : StreamKey) : Type 0 where
  pub frame_magic : length k.frame_magic ≡ 4
  pub positive : 0 < k.frame_size
  pub small : k.frame_size < 2 ^ 31

-- The plaintext of the frame `i`.
abbrev pub block : StreamKey → ℕ → Bytes → Bytes
block k i plain = take k.frame_size (drop (i * k.frame_size) plain)

-- The header of a frame that `seal_frame` makes.
abbrev pub header_for : ℕ → Bytes → Bool → FrameHeader
header_for i d last = record {
  sequence = i;
  plaintext_len = length d;
  ciphertext_len = length d + tag_size;
  last = last;
}

pub suc_mul : (i n : ℕ) → (i + 1) * n ≡ i * n + n
suc_mul i n = grind arith

pub mul_mono : (i j n : ℕ) → i < j → i * n + n ≤ j * n
mul_mono i j n h = grind arith

pub mul_le : (i m n : ℕ) → m ≤ n → i * m ≤ i * n
mul_le i m n h = grind arith

pub read_at-append :
    (xs ys zs : Bytes) (n m : ℕ)
    → length xs ≡ n
    → length ys ≡ m
    → read_at n m (xs ++ (ys ++ zs)) ≡ ok ys
unfolding read_at
read_at-append xs ys zs n m e f =
    rw (← e, drop-append xs, ← f, take-append ys zs, eq→== (length ys) (length ys) refl) refl

module _ (x : Aead) (k : StreamKey) where
  -- The frame `i` of `d` stands in `out`, where frames start at `base`.
  pub record FrameAt (base : ℕ) (out : Bytes) (i : ℕ) (d : Bytes) (last : Bool) : Type 0 where
    pub before : Bytes
    pub ciphertext : Bytes
    pub after : Bytes
    pub placed :
        out
        ≡ before
          ++ (encode_frame_header k.frame_magic (header_for i d last) ++ (ciphertext ++ after))
    pub offset : length before ≡ base + i * stride k
    pub sealed :
        x.encrypt k.key
          (frame_nonce k.nonce_prefix i)
          d
          (frame_aad k.header_bytes (encode_frame_header k.frame_magic (header_for i d last)))
        ≡ some ciphertext

  -- A whole stream from `base` to the end of the file: full frames, and one that is not.
  pub record IsStream (base : ℕ) (file plain : Bytes) (last : ℕ) : Type 0 where
    pub part : length (drop (last * k.frame_size) plain) < k.frame_size
    pub plain_len : last * k.frame_size + length (drop (last * k.frame_size) plain) ≡ length plain
    pub file_len :
        length file
        ≡ base + last * stride k + 24 + length (drop (last * k.frame_size) plain) + tag_size
    pub full : (i : ℕ) → i < last → FrameAt base file i (block k i plain) false
    pub final : FrameAt base file last (drop (last * k.frame_size) plain) true
    pub few : last + 1 < 2 ^ 64

  -- Writes one after the other.
  unfoldable pub write_each : FrameWriter → List Bytes → Result FrameWriter
  write_each w [] = ok w
  write_each w (bytes ∷ pieces) = write x k w bytes ⟫= λ w'. write_each w' pieces

  -- What `seal_frame` returns.
  pub record Sealed (i : ℕ) (d : Bytes) (last : Bool) (frame : Bytes) : Type 0 where
    pub ciphertext : Bytes
    pub parts : frame ≡ encode_frame_header k.frame_magic (header_for i d last) ++ ciphertext
    pub sealed :
        x.encrypt k.key
          (frame_nonce k.nonce_prefix i)
          d
          (frame_aad k.header_bytes (encode_frame_header k.frame_magic (header_for i d last)))
        ≡ some ciphertext
    pub at_most : length d ≤ k.frame_size

  pub seal_frame-Sealed :
      (i : ℕ) (d : Bytes) (last : Bool) (frame : Bytes)
      → seal_frame x k i d last ≡ ok frame
      → Sealed i d last frame
  unfolding seal_frame
  seal_frame-Sealed i d last frame h =
      let header = encode_frame_header k.frame_magic (header_for i d last) in
      let (u1, e1, h1) = ⟫=-eq-ok (bail_if (not (ltb (length d) (2 ^ 32))) _) _ h in
      let (u2, e2, h2) = ⟫=-eq-ok (bail_if (ltb k.frame_size (length d)) _) _ h1 in
      let (u3, e3, h3) = ⟫=-eq-ok (bail_if (not (ltb (length d + 16) (2 ^ 32))) _) _ h2 in
      elim (Option-cases
        (x.encrypt k.key (frame_nonce k.nonce_prefix i) d (frame_aad k.header_bytes header))) [
          | inl e ↦ absurd (err-ne-ok (rw e at h3))
          | inr (ciphertext, e) ↦ record {
            ciphertext = ciphertext;
            parts = sym (ok-injective (rw e at h3));
            sealed = e;
            at_most = ltb→le _ _ (bail_if-eq-ok _ _ e2);
          }
        ]

  pub length-encode_frame_header :
      (frame : FrameHeader)
      → length k.frame_magic ≡ 4
      → length (encode_frame_header k.frame_magic frame) ≡ 24
  unfolding encode_frame_header le_bytes
  length-encode_frame_header frame h = omega (arith, h, length-append k.frame_magic _)
