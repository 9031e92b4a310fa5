-- ===== src/Text/Hex/RoundTrip.antt =====
-- Hexadecimal text is decoded to the bytes that were encoded.
use rgx.Common.{
  ℕ, zero, suc, Bool-cases, ==_iff, ◌==◌, inl, inr, subst, sym, leb, ltb, ◌&&◌, true, ◌+◌, ◌*◌, ◌/◌,
  ◌%◌, ◌≡◌, ◌<◌, ◌≤◌, refl, [], ◌∷◌, Bytes, IsByte, All, length, ok, eq→==, arith,
}
use rgx.Text.Hex.{hex_digit, hex_encode, decode_nibble, decode_pairs, hex_decode}

-- A property of all numbers below a bound, one by one.
abbrev AllBelow : (ℕ → Type 0) → ℕ → Type 0
AllBelow P zero = Unit {0}
AllBelow P (suc n) = P n × AllBelow P n

below : (P : ℕ → Type 0) (n k : ℕ) → AllBelow P n → k < n → P k
below P zero k all h = absurd (omega arith)
below P (suc n) k all h = elim (Bool-cases (k == n)) [
  | inl e ↦ subst P (sym ((==_iff k n).0 e)) all.0
  | inr e ↦ below P n k all.1 (ground arith)
]

decode_nibble-hex_digit : (n : ℕ) → n < 16 → decode_nibble (hex_digit n) ≡ ok n
unfolding decode_nibble
decode_nibble-hex_digit n h =
    below (λ k. decode_nibble (hex_digit k) ≡ ok k) 16 n
      (
        refl,
        (
          refl,
          (
            refl,
            (
              refl,
              (
                refl,
                (
                  refl,
                  (
                    refl,
                    (refl, (refl, (refl, (refl, (refl, (refl, (refl, (refl, (refl, tt))))))))),
                  ),
                ),
              ),
            ),
          ),
        ),
      )
      h

pub length-hex_encode : (bs : Bytes) → length (hex_encode bs) ≡ length bs * 2
unfolding hex_encode
length-hex_encode [] = refl
length-hex_encode (b ∷ bs) = omega (arith, length-hex_encode bs)

decode_pairs-hex_encode : (bs : Bytes) → All IsByte bs → decode_pairs (hex_encode bs) ≡ ok bs
unfolding decode_pairs hex_encode
decode_pairs-hex_encode [] h = refl
decode_pairs-hex_encode (b ∷ bs) (h, k) =
    let whole : b / 16 * 16 + b % 16 ≡ b = omega arith in
    rw
      (
        decode_nibble-hex_digit (b / 16) (omega arith),
        decode_nibble-hex_digit (b % 16) (omega arith),
        decode_pairs-hex_encode bs k,
        whole,
      )
      refl

-- `hex_decode` returns the bytes that `hex_encode` was given, if there are `n` of them.
pub hex_decode-hex_encode :
    (n : ℕ) (bs : Bytes) → All IsByte bs → length bs ≡ n → hex_decode n (hex_encode bs) ≡ ok bs
unfolding hex_decode
hex_decode-hex_encode n bs h e =
    rw (← e, eq→== _ _ (length-hex_encode bs)) (decode_pairs-hex_encode bs h)

-- A byte of visible ASCII text.
abbrev pub IsVisible : ℕ → Type 0
IsVisible b = (33 ≤ b) × (b < 127)

visible : (b : ℕ) → leb 33 b && ltb b 127 ≡ true → IsVisible b
visible b h = ground arith

hex_digit-IsVisible : (n : ℕ) → n < 16 → IsVisible (hex_digit n)
hex_digit-IsVisible n h =
    let test =
      below (λ k. leb 33 (hex_digit k) && ltb (hex_digit k) 127 ≡ true) 16 n
        (
          refl,
          (
            refl,
            (
              refl,
              (
                refl,
                (
                  refl,
                  (
                    refl,
                    (
                      refl,
                      (refl, (refl, (refl, (refl, (refl, (refl, (refl, (refl, (refl, tt))))))))),
                    ),
                  ),
                ),
              ),
            ),
          ),
        )
        h in
    visible (hex_digit n) test

pub hex_encode-IsVisible : (bs : Bytes) → All IsByte bs → All IsVisible (hex_encode bs)
unfolding hex_encode
hex_encode-IsVisible [] h = tt
hex_encode-IsVisible (b ∷ bs) (h, k) = (
  hex_digit-IsVisible (b / 16) (omega arith),
  (hex_digit-IsVisible (b % 16) (omega arith), hex_encode-IsVisible bs k),
)
