-- ===== src/Common/Streams.antt =====
-- `std::io::{Read, Seek}` over bytes that are at hand: the position, and the bytes from there on.
-- A parser is code that takes `reader: &mut R` and may fail. Errors of the device are not modelled.
use Prim.Native.Nat.{ℕ, ◌+◌, ◌<◌, ◌^◌}
use mathlib.Core.Path.{◌≡◌, refl, ap, ◌∙◌}
use mathlib.Core.List.{◌++◌}
use native.Mathlib.Omega.{arith}
use rgx.Common.Tests.{ltb, if◌then◌else◌, le→ltb}
use rgx.Common.Lists.{length, take, drop, length-append, take-append, drop-append}
use mathlib.Core.Bool.{Bool, false}
use rgx.Common.Results.{
  bail_if, Result, ok, err, unexpected_eof, Result-cases, err-ne-ok, Error, err-injective, ◌⟫=◌,
}
use mathlib.Core.Logic.{◌⊎◌, inl, inr}
use rgx.Common.Words.{Bytes, le_bytes, from_le_bytes, length-le_bytes, from_le_bytes-le_bytes}

pub record Stream : Type 0 where
  pub pos : ℕ
  pub rest : Bytes

abbrev pub stream : ℕ → Bytes → Stream
stream p bs = record { pos = p; rest = bs }

abbrev pub Parser : Type 0 → Type 0
Parser A = Stream → Result (A × Stream)

abbrev pub pure : {A : Type 0} → A → Parser A
pure a s = ok (a, s)

abbrev pub lift : {A : Type 0} → Result A → Parser A
lift r s = r ⟫= λ a. ok (a, s)

infixl 5 ◌>>=◌ ◌>>◌
unfoldable pub ◌>>=◌ : {A B : Type 0} → Parser A → (A → Parser B) → Parser B
◌>>=◌ m f s = elim (m s) [ ok (a, s') ↦ f a s' | err e ↦ err e ]

abbrev pub ◌>>◌ : {B : Type 0} → Parser (Unit {0}) → Parser B → Parser B
m >> k = m >>= λ _. k

-- `read_exact` into a buffer of `n` bytes.
unfoldable pub read_exact : ℕ → Parser Bytes
read_exact n s =
    if ltb (length s.rest) n
    then err unexpected_eof
    else ok (take n s.rest, stream (s.pos + n) (drop n s.rest))

-- `seek(SeekFrom::Current(n))`, which may go past the end.
unfoldable pub skip : ℕ → Parser (Unit {0})
skip n s = ok (tt, stream (s.pos + n) (drop n s.rest))

unfoldable pub stream_position : Parser ℕ
stream_position s = ok (s.pos, s)

-- `u16::from_le_bytes` and its kind, of `w` bytes.
unfoldable pub read_le : ℕ → Parser ℕ
read_le w = do bytes ← read_exact w; pure (from_le_bytes bytes)

-- One step of a `do` block.
pub bind_ok :
    {A B : Type 0} (m : Parser A) (f : A → Parser B) (s : Stream) {s' : Stream} {a : A}
    {r : Result (B × Stream)}
    → m s ≡ ok (a, s')
    → f a s' ≡ r
    → (m >>= f) s ≡ r
unfolding ◌>>=◌
bind_ok m f s e h = rw (e, ◌>>=◌) h

module _ (p : ℕ) (ys : Bytes) where
  pub read_exact-append :
      (n : ℕ) (xs : Bytes)
      → length xs ≡ n
      → read_exact n (stream p (xs ++ ys)) ≡ ok (xs, stream (p + n) ys)
  unfolding read_exact
  read_exact-append n xs h = rw (
    ← h,
    le→ltb (length (xs ++ ys)) (length xs) (omega (arith, length-append xs ys)),
    take-append,
    drop-append,
  )

  pub read_le-append :
      (w v : ℕ)
      → v < 256 ^ w
      → read_le w (stream p (le_bytes w v ++ ys)) ≡ ok (v, stream (p + w) ys)
  unfolding read_le
  read_le-append w v h =
      bind_ok _ _ _ (read_exact-append w (le_bytes w v) (length-le_bytes w v))
        (rw (from_le_bytes-le_bytes w v h) refl)

  pub skip-append :
      (n : ℕ) (xs : Bytes)
      → length xs ≡ n
      → skip n (stream p (xs ++ ys)) ≡ ok (tt, stream (p + n) ys)
  unfolding skip
  skip-append n xs h = rw (← h, drop-append)

-- Inversion of one step of a `do` block.
pub >>=-eq-ok :
    {A B : Type 0} (m : Parser A) (f : A → Parser B) (s s' : Stream) (b : B)
    → (m >>= f) s ≡ ok (b, s')
    → (a : A) × (t : Stream) × (m s ≡ ok (a, t)) × (f a t ≡ ok (b, s'))
unfolding ◌>>=◌
>>=-eq-ok m f s s' b h = elim (Result-cases (m s)) [
  | inl ((a, t), e) ↦ (a, t, e, rw (e, ◌>>=◌) at h)
  | inr (c, e) ↦ absurd (err-ne-ok (rw (e, ◌>>=◌) at h))
]

pub >>=-eq-err :
    {A B : Type 0} (m : Parser A) (f : A → Parser B) (s : Stream) {c : Error}
    → (m >>= f) s ≡ err c
    → (m s ≡ err c) ⊎ ((a : A) × (t : Stream) × (m s ≡ ok (a, t)) × (f a t ≡ err c))
unfolding ◌>>=◌
>>=-eq-err m f s h = elim (Result-cases (m s)) [
  | inl ((a, t), e) ↦ inr (a, t, e, rw (e, ◌>>=◌) at h)
  | inr (d, e) ↦ inl (e ∙ ap err (err-injective (rw (e, ◌>>=◌) at h)))
]

pub lift_ok : {A : Type 0} (r : Result A) (s : Stream) {a : A} → r ≡ ok a → lift r s ≡ ok (a, s)
lift_ok r s e = rw e

pub bail_ok : (b : Bool) (e : Error) (s : Stream) → b ≡ false → lift (bail_if b e) s ≡ ok (tt, s)
bail_ok b e s h = rw h
