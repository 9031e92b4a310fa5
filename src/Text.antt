-- ===== src/Text.antt =====
-- What src/recipient.rs and src/signature.rs use of Rust's `str`. A text is its UTF-8 bytes.
pub mod Hex
pub mod Decimal
pub mod Lines
pub mod Joined
use rgx.Common.{
  ℕ, ◌+◌, ◌-◌, ◌*◌, List, [], ◌∷◌, ◌++◌, Bool, true, false, ◌&&◌, ◌||◌, Option, none, some, Bytes,
  ltb, leb, ◌==◌, if◌then◌else◌,
}

abbrev pub newline : ℕ
newline = b'\n'

abbrev pub carriage_return : ℕ
carriage_return = b'\r'

abbrev pub space : ℕ
space = b' '

-- `text.split('\n')`, of one part more than the text has newlines.
unfoldable pub prepend : ℕ → List Bytes → List Bytes
prepend b [] = (b ∷ []) ∷ []
prepend b (part ∷ parts) = (b ∷ part) ∷ parts

unfoldable pub split_lf : Bytes → List Bytes
unfolding prepend
split_lf [] = [] ∷ []
split_lf (b ∷ bs) = let parts = split_lf bs in if b == newline then [] ∷ parts else prepend b parts

-- `text.strip_suffix(c).unwrap_or(text)`
unfoldable pub strip_last : ℕ → Bytes → Bytes
strip_last c [] = []
strip_last c (b ∷ []) = if b == c then [] else b ∷ []
strip_last c (b ∷ (d ∷ bs)) = b ∷ strip_last c (d ∷ bs)

-- `text.lines()`: a line ends in LF or CR LF, and no line follows the last LF.
unfoldable pub lines_of : List Bytes → List Bytes
lines_of [] = []
lines_of ([] ∷ []) = []
lines_of ((b ∷ bs) ∷ []) = (b ∷ bs) ∷ []
lines_of (line ∷ (next ∷ rest)) = strip_last carriage_return line ∷ lines_of (next ∷ rest)

unfoldable pub lines : Bytes → List Bytes
lines text = lines_of (split_lf text)

-- `text.contains(c)`
unfoldable pub contains_char : ℕ → Bytes → Bool
contains_char c [] = false
contains_char c (b ∷ bs) = b == c || contains_char c bs

-- `text.strip_prefix(label)`
unfoldable pub strip_label : Bytes → Bytes → Option Bytes
strip_label [] text = some text
strip_label (l ∷ label) [] = none
strip_label (l ∷ label) (b ∷ text) = if l == b then strip_label label text else none

-- The characters with the Unicode property `White_Space`, which `trim` removes, by their one, two or
-- three bytes.
unfoldable pub is_white : ℕ → Bool
is_white a = (leb 9 a && leb a 13) || a == 32

unfoldable pub is_white_pair : ℕ → ℕ → Bool
is_white_pair a b = a == 0xC2 && (b == 0x85 || b == 0xA0)

unfoldable pub is_white_triple : ℕ → ℕ → ℕ → Bool
is_white_triple a b c =
    (a == 0xE1 && (b == 0x9A && c == 0x80))
    || ((a == 0xE2
          && ((b == 0x80 && ((leb 0x80 c && leb c 0x8A) || (c == 0xA8 || (c == 0xA9 || c == 0xAF))))
              || (b == 0x81 && c == 0x9F)))
        || (a == 0xE3 && (b == 0x80 && c == 0x80)))

-- `text.trim_start()`
unfoldable pub trim_start : Bytes → Bytes
trim_start [] = []
trim_start (a ∷ []) = if is_white a then [] else a ∷ []
trim_start (a ∷ (b ∷ [])) =
    if is_white a then trim_start (b ∷ []) else if is_white_pair a b then [] else a ∷ (b ∷ [])
trim_start (a ∷ (b ∷ (c ∷ rest))) =
    if is_white a
    then trim_start (b ∷ (c ∷ rest))
    else if is_white_pair a b
    then trim_start (c ∷ rest)
    else if is_white_triple a b c
    then trim_start rest
    else a ∷ (b ∷ (c ∷ rest))

unfoldable pub reverse_onto : Bytes → Bytes → Bytes
reverse_onto [] acc = acc
reverse_onto (b ∷ bs) acc = reverse_onto bs (b ∷ acc)

-- `trim_end` on the bytes in reverse order, the last one first.
unfoldable pub trim_reversed : Bytes → Bytes
trim_reversed [] = []
trim_reversed (a ∷ []) = if is_white a then [] else a ∷ []
trim_reversed (b ∷ (a ∷ [])) =
    if is_white b then trim_reversed (a ∷ []) else if is_white_pair a b then [] else b ∷ (a ∷ [])
trim_reversed (c ∷ (b ∷ (a ∷ rest))) =
    if is_white c
    then trim_reversed (b ∷ (a ∷ rest))
    else if is_white_pair b c
    then trim_reversed (a ∷ rest)
    else if is_white_triple a b c
    then trim_reversed rest
    else c ∷ (b ∷ (a ∷ rest))

unfoldable pub trim_end : Bytes → Bytes
trim_end text = reverse_onto (trim_reversed (reverse_onto text [])) []

unfoldable pub trim : Bytes → Bytes
trim text = trim_end (trim_start text)

-- `text.parse` into an unsigned integer below `limit`: one `+` is allowed, then digits.
unfoldable pub parse_digits : ℕ → ℕ → Bytes → Option ℕ
parse_digits limit acc [] = some acc
parse_digits limit acc (b ∷ bs) =
    let value = acc * 10 + (b - 48) in
    let rest = parse_digits limit value bs in
    if leb 48 b && leb b 57 && ltb value limit then rest else none

unfoldable pub parse_nonempty : ℕ → Bytes → Option ℕ
parse_nonempty limit [] = none
parse_nonempty limit (b ∷ bs) = parse_digits limit 0 (b ∷ bs)

unfoldable pub parse_unsigned : ℕ → Bytes → Option ℕ
parse_unsigned limit [] = none
parse_unsigned limit (b ∷ bs) =
    if b == b'+' then parse_nonempty limit bs else parse_nonempty limit (b ∷ bs)
