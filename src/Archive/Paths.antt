-- ===== src/Archive/Paths.antt =====
-- src/archive.rs: how paths are validated and normalised. A path is its UTF-8 bytes; components
-- are those of `std::path` on Unix, where `Path::components` gives no `Prefix`.
pub mod Accepted
use rgx.Common.{
  ℕ, zero, suc, List, [], ◌∷◌, ◌++◌, Option, none, some, Bool, true, false, not, ◌&&◌, ◌||◌, Bytes,
  bytes_eq, length, ltb, leb, ◌==◌, if◌then◌else◌, Result, ok, err, bail_if, ◌⟫=◌, Parser, pure,
  lift, ◌>>=◌, ◌>>◌, read_exact, invalid_path_len, not_utf8, invalid_path, noncanonical_path,
  absolute_path, current_dir_component, parent_dir_component, empty_path,
}
use rgx.Archive.{max_path_bytes}

-- How many continuation bytes are still to come, and the range of the next one.
abbrev Utf8State : Type 0
Utf8State = ℕ × ℕ × ℕ

-- The lead bytes of well-formed UTF-8, as `String::from_utf8` accepts them.
unfoldable pub utf8_lead : ℕ → Option Utf8State
utf8_lead b =
    if ltb b 0x80
    then some (0, 0, 0)
    else if ltb b 0xC2
    then none
    else if ltb b 0xE0
    then some (1, 0x80, 0xBF)
    else if b == 0xE0
    then some (2, 0xA0, 0xBF)
    else if b == 0xED
    then some (2, 0x80, 0x9F)
    else if ltb b 0xF0
    then some (2, 0x80, 0xBF)
    else if b == 0xF0
    then some (3, 0x90, 0xBF)
    else if ltb b 0xF4
    then some (3, 0x80, 0xBF)
    else if b == 0xF4
    then some (3, 0x80, 0x8F)
    else none

unfoldable pub utf8_next : Utf8State → ℕ → Option Utf8State
utf8_next (zero, lo, hi) b = utf8_lead b
utf8_next (suc n, lo, hi) b = if leb lo b && leb b hi then some (n, 0x80, 0xBF) else none

unfoldable pub utf8_from : Utf8State → Bytes → Bool
utf8_from (n, lo, hi) [] = n == 0
utf8_from state (b ∷ bs) = elim (utf8_next state b) [ none ↦ false | some s ↦ utf8_from s bs ]

unfoldable pub is_utf8 : Bytes → Bool
unfolding utf8_from utf8_next utf8_lead
is_utf8 = utf8_from (0, 0, 0)

abbrev pub slash : ℕ
slash = b'/'

abbrev pub backslash : ℕ
backslash = 0x5C

abbrev pub dot : ℕ
dot = b'.'

-- `path.split('/')`, which has one part more than the path has slashes.
unfoldable pub cons_head : ℕ → List Bytes → List Bytes
cons_head b [] = (b ∷ []) ∷ []
cons_head b (part ∷ parts) = (b ∷ part) ∷ parts

unfoldable pub split_slash : Bytes → List Bytes
unfolding cons_head
split_slash [] = [] ∷ []
split_slash (b ∷ bs) =
    let parts = split_slash bs in if b == slash then [] ∷ parts else cons_head b parts

-- `parts.join("/")`
unfoldable pub join_slash : List Bytes → Bytes
join_slash [] = []
join_slash (part ∷ []) = part
join_slash (part ∷ (next ∷ parts)) = part ++ (slash ∷ join_slash (next ∷ parts))

unfoldable pub contains_byte : ℕ → Bytes → Bool
contains_byte c [] = false
contains_byte c (b ∷ bs) = b == c || contains_byte c bs

unfoldable pub starts_with_slash : Bytes → Bool
starts_with_slash [] = false
starts_with_slash (b ∷ bs) = b == slash

-- `std::path::Component`, and `Path::components` on Unix: a leading slash is the root, empty parts
-- are dropped, and so is `.` unless it begins a relative path.
pub data Component : Type 0 where
  normal : Bytes → Component
  cur_dir parent_dir root_dir prefix : Component

unfoldable pub is_dot : Bytes → Bool
is_dot part = bytes_eq part (dot ∷ [])

unfoldable pub is_dot_dot : Bytes → Bool
is_dot_dot part = bytes_eq part (dot ∷ (dot ∷ []))

unfoldable pub is_empty : Bytes → Bool
is_empty [] = true
is_empty (b ∷ bs) = false

unfoldable pub part_components : List Bytes → List Component
part_components [] = []
part_components (part ∷ parts) =
    let rest = part_components parts in
    if is_empty part || is_dot part
    then rest
    else if is_dot_dot part
    then parent_dir ∷ rest
    else normal part ∷ rest

unfoldable pub leading_dot : List Bytes → List Component
leading_dot [] = []
leading_dot (part ∷ parts) = if is_dot part then cur_dir ∷ [] else []

unfoldable pub components : Bytes → List Component
unfolding leading_dot
components path =
    let parts = split_slash path in
    (if starts_with_slash path then root_dir ∷ [] else leading_dot parts) ++ part_components parts

unfoldable pub check_components : List Component → Result (Unit {0})
check_components [] = ok tt
check_components (normal part ∷ rest) = check_components rest
check_components (cur_dir ∷ rest) = err current_dir_component
check_components (parent_dir ∷ rest) = err parent_dir_component
check_components (root_dir ∷ rest) = err absolute_path
check_components (prefix ∷ rest) = err absolute_path

unfoldable pub validate_components : Bytes → Result (Unit {0})
unfolding check_components
validate_components path =
    if starts_with_slash path then err absolute_path else check_components (components path)

unfoldable pub check_parts : List Bytes → Result (Unit {0})
check_parts [] = ok tt
check_parts (part ∷ parts) =
    let rest = check_parts parts in
    if is_empty part || (is_dot part || is_dot_dot part) then err noncanonical_path else rest

unfoldable pub validate_archive_path : Bytes → Result Bytes
unfolding check_parts
validate_archive_path path =
    bail_if (is_empty path || (starts_with_slash path || contains_byte backslash path)) invalid_path
    ⟫= λ _. check_parts (split_slash path) ⟫= λ _. validate_components path ⟫= λ _. ok path

unfoldable pub normal_parts : List Component → Result (List Bytes)
normal_parts [] = ok []
normal_parts (normal part ∷ rest) =
    if is_utf8 part then (normal_parts rest ⟫= λ parts. ok (part ∷ parts)) else err not_utf8
normal_parts (c ∷ rest) = normal_parts rest

unfoldable pub join_normal : List Bytes → Result Bytes
join_normal [] = err empty_path
join_normal (part ∷ parts) = ok (join_slash (part ∷ parts))

unfoldable pub normalize_relative_path : Bytes → Result Bytes
unfolding normal_parts join_normal
normalize_relative_path path =
    validate_components path ⟫= λ _. normal_parts (components path) ⟫= λ parts. join_normal parts

unfoldable pub read_path : ℕ → Parser Bytes
read_path path_len = do
  lift (bail_if (path_len == 0 || ltb max_path_bytes path_len) invalid_path_len)
  bytes ← read_exact path_len
  lift (bail_if (not (is_utf8 bytes)) not_utf8)
  pure bytes

unfoldable pub checked_path_len : Bytes → Result ℕ
checked_path_len path =
    bail_if (is_empty path || ltb max_path_bytes (length path)) invalid_path_len ⟫= λ _.
    ok (length path)
