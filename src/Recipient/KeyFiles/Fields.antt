-- ===== src/Recipient/KeyFiles/Fields.antt =====
-- The fields of a text whose lines are printable.
use rgx.Common.{
  ◌≡◌, refl, ap, ◌∙◌, List, [], ◌∷◌, ◌++◌, none, some, Bool, true, ◌&&◌, Bytes, All, All-append,
  leb, ltb, arith, ok, eq→==,
}
use rgx.Text.{strip_label}
use rgx.Text.Hex.RoundTrip.{IsVisible}
use rgx.Text.Lines.{
  IsPrintable, unlines, lines-unlines, trim-space, trim_visible, IsVisible-IsPrintable,
}
use rgx.Recipient.KeyFiles.{first_line, header_of, find_field, field, labelled}

abbrev pub is_visible_text : Bytes → Bool
is_visible_text [] = true
is_visible_text (b ∷ bs) = leb 33 b && ltb b 127 && is_visible_text bs

pub is_visible_text-IsVisible : (bs : Bytes) → is_visible_text bs ≡ true → All IsVisible bs
is_visible_text-IsVisible [] h = tt
is_visible_text-IsVisible (b ∷ bs) h = ground (arith, is_visible_text-IsVisible bs)

-- A label as key files have them: visible, and the test decides it.
abbrev pub IsLabel : Bytes → Type 0
IsLabel label = is_visible_text label ≡ true

pub labelled-IsPrintable :
    (label value : Bytes)
    → IsLabel label
    → All IsVisible value
    → All IsPrintable (labelled label value)
labelled-IsPrintable label value h k =
    All-append IsPrintable label (b' ' ∷ value)
      (IsVisible-IsPrintable label (is_visible_text-IsVisible label h))
      ((omega arith, omega arith), IsVisible-IsPrintable value k)

pub strip_label-append : (label rest : Bytes) → strip_label label (label ++ rest) ≡ some rest
unfolding strip_label
strip_label-append [] rest = refl
strip_label-append (l ∷ label) rest = rw (eq→== l l refl) (strip_label-append label rest)

-- The field is found in its line.
pub find_field_here :
    (label value : Bytes) (rest : List Bytes)
    → All IsVisible value
    → find_field label (labelled label value ∷ rest) ≡ ok value
unfolding find_field
find_field_here label value rest h =
    rw (strip_label-append label (b' ' ∷ value), find_field) (ap ok (trim-space value h))

-- The lines before it have other labels.
pub find_field_later :
    (label line : Bytes) (rest : List Bytes)
    → strip_label label line ≡ none
    → find_field label (line ∷ rest) ≡ find_field label rest
unfolding find_field
find_field_later label line rest h = rw (h, find_field)

pub field-unlines :
    (ls : List Bytes) (label : Bytes)
    → All (All IsPrintable) ls
    → field (unlines ls) label ≡ find_field label ls
unfolding field
field-unlines ls label h = ap (find_field label) (lines-unlines ls h)

pub header_of-unlines :
    (header : Bytes) (ls : List Bytes)
    → IsLabel header
    → All (All IsPrintable) (header ∷ ls)
    → header_of (unlines (header ∷ ls)) ≡ header
unfolding header_of first_line
header_of-unlines header ls v h =
    ap first_line (lines-unlines (header ∷ ls) h)
    ∙ trim_visible header (is_visible_text-IsVisible header v)
