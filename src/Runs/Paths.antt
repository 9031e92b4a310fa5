-- ===== src/Runs/Paths.antt =====
-- Runs of the path checks of src/archive.rs.
use rgx.Common.{
  All, ◌≡◌, ◌↔◌, refl, [], ◌∷◌, Bytes, ok, err, noncanonical_path, invalid_path, bytes_eq,
}
use mathlib.Core.List.{map}
use rgx.Archive.Paths.{
  normal, components, split_slash, validate_archive_path, validate_components, check_components,
  check_parts, contains_byte, starts_with_slash, is_empty, is_dot, is_dot_dot, part_components,
  leading_dot, cons_head, backslash, normalize_relative_path, normal_parts, join_normal, join_slash,
  is_utf8, utf8_from, utf8_next, utf8_lead,
}
use rgx.Archive.Paths.Accepted.{
  IsCanonical, validate_archive_path_iff, IsUtf8, IsCanonical-validate,
  normalize-validate_archive_path,
}

abbrev nested : Bytes
nested = b'a' ∷ b'/' ∷ b'b' ∷ []

abbrev escaping : Bytes
escaping = b'a' ∷ b'/' ∷ b'.' ∷ b'.' ∷ b'/' ∷ b'b' ∷ []

abbrev with_backslash : Bytes
with_backslash = b'a' ∷ backslash ∷ b'b' ∷ []

validate_escaping : validate_archive_path escaping ≡ err noncanonical_path
unfolding validate_archive_path check_parts contains_byte starts_with_slash is_empty is_dot
    is_dot_dot split_slash cons_head bytes_eq
validate_escaping = refl

-- A file name with a backslash is packed under a path that no archive may hold.
normalize_backslash : normalize_relative_path with_backslash ≡ ok with_backslash
unfolding normalize_relative_path validate_components check_components components normal_parts
    join_normal join_slash part_components leading_dot split_slash cons_head starts_with_slash
    is_empty is_dot is_dot_dot bytes_eq is_utf8 utf8_from utf8_next utf8_lead
normalize_backslash = refl

validate_backslash : validate_archive_path with_backslash ≡ err invalid_path
unfolding validate_archive_path contains_byte starts_with_slash is_empty
validate_backslash = refl

nested-IsCanonical : IsCanonical nested
unfolding split_slash cons_head contains_byte is_empty is_dot is_dot_dot bytes_eq
nested-IsCanonical = record { no_backslash = refl; parts = (refl, (refl, tt)) }

validate_archive_path_iff_example :
    (validate_archive_path nested ≡ ok nested) ↔ ((nested ≡ nested) × IsCanonical nested)
validate_archive_path_iff_example = validate_archive_path_iff nested nested

nested_accepted : validate_archive_path nested ≡ ok nested
nested_accepted = IsCanonical-validate nested nested-IsCanonical

nested-IsUtf8 : All IsUtf8 (split_slash nested)
unfolding split_slash cons_head is_utf8 utf8_from utf8_next utf8_lead
nested-IsUtf8 = (refl, (refl, tt))

normalize-validate_archive_path_example :
    (normalize_relative_path nested ≡ ok nested)
    × (components nested ≡ map normal (split_slash nested))
normalize-validate_archive_path_example =
    normalize-validate_archive_path nested nested nested_accepted nested-IsUtf8
