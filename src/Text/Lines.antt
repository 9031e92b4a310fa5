-- ===== src/Text/Lines.antt =====
-- Lines of printable text are split as they were joined, and a field behind its space is trimmed.
use rgx.Common.{ℕ, ◌≡◌, ◌<◌, ◌≤◌, refl, ap, ◌∙◌, List, [], ◌∷◌, ◌++◌, append-nil, Bytes, All, arith}
use rgx.Text.{
  newline, carriage_return, space, prepend, split_lf, strip_last, lines_of, lines, is_white,
  is_white_pair, is_white_triple, trim_start, reverse_onto, trim_reversed, trim_end, trim,
}
use rgx.Text.Hex.RoundTrip.{IsVisible}

-- A byte of printable ASCII text.
abbrev pub IsPrintable : ℕ → Type 0
IsPrintable b = (32 ≤ b) × (b < 127)

-- Each line with its newline.
abbrev pub unlines : List Bytes → Bytes
unlines [] = []
unlines (line ∷ rest) = line ++ (newline ∷ unlines rest)

pub split-line :
    (line rest : Bytes)
    → All IsPrintable line
    → split_lf (line ++ (newline ∷ rest)) ≡ line ∷ split_lf rest
unfolding split_lf prepend
split-line [] rest h = refl
split-line (b ∷ bs) rest h = ground (arith, split-line bs rest h.1)

split-unlines :
    (ls : List Bytes) → All (All IsPrintable) ls → split_lf (unlines ls) ≡ ls ++ ([] ∷ [])
unfolding split_lf
split-unlines [] h = refl
split-unlines (line ∷ rest) h =
    split-line line (unlines rest) h.0 ∙ ap (λ (t : List Bytes). line ∷ t) (split-unlines rest h.1)

strip_cr : (line : Bytes) → All IsPrintable line → strip_last carriage_return line ≡ line
unfolding strip_last
strip_cr [] h = refl
strip_cr (b ∷ []) h = ground arith
strip_cr (b ∷ (d ∷ bs)) h = ap (λ (t : Bytes). b ∷ t) (strip_cr (d ∷ bs) h.1)

lines_of-append : (ls : List Bytes) → All (All IsPrintable) ls → lines_of (ls ++ ([] ∷ [])) ≡ ls
unfolding lines_of
lines_of-append [] h = refl
lines_of-append (line ∷ []) h = rw (strip_cr line h.0) refl
lines_of-append (line ∷ (next ∷ rest)) h =
    rw (strip_cr line h.0) (ap (λ (t : List Bytes). line ∷ t) (lines_of-append (next ∷ rest) h.1))

pub lines-unlines : (ls : List Bytes) → All (All IsPrintable) ls → lines (unlines ls) ≡ ls
unfolding lines
lines-unlines ls h = ap lines_of (split-unlines ls h) ∙ lines_of-append ls h

trim_start_visible : (text : Bytes) → All IsVisible text → trim_start text ≡ text
unfolding trim_start is_white is_white_pair is_white_triple
trim_start_visible [] h = refl
trim_start_visible (a ∷ []) h = ground arith
trim_start_visible (a ∷ (b ∷ [])) h = ground arith
trim_start_visible (a ∷ (b ∷ (c ∷ rest))) h = ground arith

trim_reversed_visible : (text : Bytes) → All IsVisible text → trim_reversed text ≡ text
unfolding trim_reversed is_white is_white_pair is_white_triple
trim_reversed_visible [] h = refl
trim_reversed_visible (c ∷ []) h = ground arith
trim_reversed_visible (c ∷ (b ∷ [])) h = ground arith
trim_reversed_visible (c ∷ (b ∷ (a ∷ rest))) h = ground arith

reverse_onto-reverse_onto :
    (xs ys zs : Bytes) → reverse_onto (reverse_onto xs ys) zs ≡ reverse_onto ys (xs ++ zs)
unfolding reverse_onto
reverse_onto-reverse_onto [] ys zs = refl
reverse_onto-reverse_onto (x ∷ xs) ys zs = reverse_onto-reverse_onto xs (x ∷ ys) zs

reverse_onto-All :
    (xs ys : Bytes) → All IsVisible xs → All IsVisible ys → All IsVisible (reverse_onto xs ys)
unfolding reverse_onto
reverse_onto-All [] ys h k = k
reverse_onto-All (x ∷ xs) ys h k = reverse_onto-All xs (x ∷ ys) h.1 (h.0, k)

pub trim_end_visible : (text : Bytes) → All IsVisible text → trim_end text ≡ text
unfolding trim_end
trim_end_visible text h =
    rw (trim_reversed_visible (reverse_onto text []) (reverse_onto-All text [] h tt))
      (reverse_onto-reverse_onto text [] [] ∙ unfold reverse_onto in append-nil text)

trim_start-space : (text : Bytes) → trim_start (space ∷ text) ≡ trim_start text
unfolding trim_start is_white
trim_start-space [] = refl
trim_start-space (a ∷ []) = refl
trim_start-space (a ∷ (b ∷ rest)) = refl

pub trim_visible : (text : Bytes) → All IsVisible text → trim text ≡ text
unfolding trim
trim_visible text h = rw (trim_start_visible text h) (trim_end_visible text h)

-- The value of a field, behind one space.
pub trim-space : (text : Bytes) → All IsVisible text → trim (space ∷ text) ≡ text
unfolding trim
trim-space text h = rw (trim_start-space text, trim_start_visible text h) (trim_end_visible text h)

pub IsVisible-IsPrintable : (text : Bytes) → All IsVisible text → All IsPrintable text
IsVisible-IsPrintable [] h = tt
IsVisible-IsPrintable (b ∷ bs) h = ((omega (arith, h.0), h.0.1), IsVisible-IsPrintable bs h.1)
