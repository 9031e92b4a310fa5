-- ===== src/Text/Hex.antt =====
-- Hexadecimal text, as src/recipient.rs and src/signature.rs both write and read it.
pub mod RoundTrip
use rgx.Common.{
  ℕ, ◌+◌, ◌-◌, ◌*◌, ◌/◌, ◌%◌, [], ◌∷◌, not, ◌&&◌, Bytes, length, leb, ◌==◌, if◌then◌else◌, get_or,
  ascii, Result, ok, err, bail_if, ◌⟫=◌, bad_hex_len, bad_hex_digit,
}

abbrev pub hex_digit : ℕ → ℕ
hex_digit n = get_or (ascii "0123456789abcdef") n 0

unfoldable pub hex_encode : Bytes → Bytes
hex_encode [] = []
hex_encode (b ∷ bs) = hex_digit (b / 16) ∷ (hex_digit (b % 16) ∷ hex_encode bs)

unfoldable pub decode_nibble : ℕ → Result ℕ
decode_nibble v =
    if leb b'0' v && leb v b'9'
    then ok (v - b'0')
    else if leb b'a' v && leb v b'f'
    then ok (v - b'a' + 10)
    else if leb b'A' v && leb v b'F'
    then ok (v - b'A' + 10)
    else err bad_hex_digit

-- The loop over the pairs of digits; `hex_decode` gives it an even number of them.
unfoldable pub decode_pairs : Bytes → Result Bytes
decode_pairs [] = ok []
decode_pairs (high ∷ []) = ok []
decode_pairs (high ∷ (low ∷ rest)) = decode_nibble high ⟫= λ h.
    decode_nibble low ⟫= λ l. decode_pairs rest ⟫= λ bytes. ok ((h * 16 + l) ∷ bytes)

-- `hex_decode::<N>`
unfoldable pub hex_decode : ℕ → Bytes → Result Bytes
hex_decode n value = bail_if (not (length value == n * 2)) bad_hex_len ⟫= λ _. decode_pairs value
