-- ===== src/Text/Joined.antt =====
-- A text of printable lines, each with its newline, as src/signature.rs takes it apart.
use rgx.Common.{
  ℕ, ◌≡◌, refl, ap, ◌∙◌, List, [], ◌∷◌, ◌++◌, append_assoc, append-nil, sym, subst, false, Bytes,
  All, eq→==, arith,
}
use rgx.Text.{newline, carriage_return, split_lf, strip_last, contains_char, prepend}
use rgx.Text.Lines.{IsPrintable, unlines, split-line}

-- The lines with a newline between them.
abbrev pub join : Bytes → List Bytes → Bytes
join line [] = line
join line (next ∷ rest) = line ++ (newline ∷ join next rest)

unlines-join :
    (line : Bytes) (rest : List Bytes) → unlines (line ∷ rest) ≡ join line rest ++ (newline ∷ [])
unlines-join line [] = refl
unlines-join line (next ∷ rest) =
    ap (λ (t : Bytes). line ++ (newline ∷ t)) (unlines-join next rest)
    ∙ sym (append_assoc line (newline ∷ join next rest) (newline ∷ []))

strip_last-append : (c : ℕ) (text : Bytes) → strip_last c (text ++ (c ∷ [])) ≡ text
unfolding strip_last
strip_last-append c [] = rw (eq→== c c refl) refl
strip_last-append c (b ∷ []) = rw (eq→== c c refl) refl
strip_last-append c (b ∷ (d ∷ bs)) = ap (λ (t : Bytes). b ∷ t) (strip_last-append c (d ∷ bs))

pub strip_last-unlines :
    (line : Bytes) (rest : List Bytes) → strip_last newline (unlines (line ∷ rest)) ≡ join line rest
strip_last-unlines line rest =
    ap (strip_last newline) (unlines-join line rest) ∙ strip_last-append newline (join line rest)

one_line : (line : Bytes) → All IsPrintable line → split_lf line ≡ line ∷ []
unfolding split_lf prepend
one_line [] h = refl
one_line (b ∷ bs) h = ground (arith, one_line bs h.1)

pub split_lf-join :
    (line : Bytes) (rest : List Bytes)
    → All (All IsPrintable) (line ∷ rest)
    → split_lf (join line rest) ≡ line ∷ rest
split_lf-join line [] h = one_line line h.0
split_lf-join line (next ∷ rest) h =
    split-line line (join next rest) h.0
    ∙ ap (λ (t : List Bytes). line ∷ t) (split_lf-join next rest h.1)

contains_char-append :
    (line rest : Bytes)
    → All IsPrintable line
    → contains_char carriage_return rest ≡ false
    → contains_char carriage_return (line ++ rest) ≡ false
unfolding contains_char
contains_char-append [] rest h k = k
contains_char-append (b ∷ bs) rest h k = ground (arith, contains_char-append bs rest h.1 k)

pub contains_char-join :
    (line : Bytes) (rest : List Bytes)
    → All (All IsPrintable) (line ∷ rest)
    → contains_char carriage_return (join line rest) ≡ false
unfolding contains_char
contains_char-join line [] h =
    subst (λ (t : Bytes). contains_char carriage_return t ≡ false) (append-nil line)
      (contains_char-append line [] h.0 refl)
contains_char-join line (next ∷ rest) h =
    contains_char-append line (newline ∷ join next rest) h.0 (contains_char-join next rest h.1)
