-- ===== src/Archive/Paths/Accepted.antt =====
-- Which paths `validate_archive_path` of src/archive.rs accepts.
use rgx.Common.{
  ℕ, ap, sym, ◌∙◌, true, ==_iff, ◌≡◌, ◌≢◌, ◌↔◌, inl, inr, refl, List, [], ◌∷◌, false, ◌||◌, Bytes,
  ◌==◌, All, ok, err, arith, Bool-cases, out_of_fuel,
}
use mathlib.Core.List.{map}
use rgx.Archive.Paths.{
  Component, normal, cur_dir, parent_dir, root_dir, prefix, slash, backslash, split_slash,
  contains_byte, starts_with_slash, is_dot, is_dot_dot, is_empty, part_components, leading_dot,
  components, check_components, validate_components, check_parts, validate_archive_path, is_utf8,
  join_slash, cons_head, normal_parts, join_normal, normalize_relative_path,
}

-- A part that names a file or directory of its parent: not empty, not `.` and not `..`.
abbrev pub IsPlain : Bytes → Type 0
IsPlain part = (is_empty part || (is_dot part || is_dot_dot part)) ≡ false

check_parts_ok : (parts : List Bytes) → All IsPlain parts → check_parts parts ≡ ok tt
unfolding check_parts
check_parts_ok [] h = refl
check_parts_ok (part ∷ parts) (h, k) = rw h (check_parts_ok parts k)

check_parts-IsPlain : (parts : List Bytes) → check_parts parts ≡ ok tt → All IsPlain parts
unfolding check_parts
check_parts-IsPlain [] h = tt
check_parts-IsPlain (part ∷ parts) h =
    elim (Bool-cases (is_empty part || (is_dot part || is_dot_dot part))) [
      | inl bad ↦ let q : err _ ≡ ok tt = rw bad at h in cc
      | inr plain ↦ (plain, check_parts-IsPlain parts (rw plain at h))
    ]

part_components-IsPlain :
    (parts : List Bytes) → All IsPlain parts → part_components parts ≡ map normal parts
unfolding part_components
part_components-IsPlain [] h = refl
part_components-IsPlain (part ∷ parts) (h, k) = ground (arith, part_components-IsPlain parts k)

check_normal : (parts : List Bytes) → check_components (map normal parts) ≡ ok tt
unfolding check_components
check_normal [] = refl
check_normal (part ∷ parts) = check_normal parts

leading_dot-IsPlain : (parts : List Bytes) → All IsPlain parts → leading_dot parts ≡ []
unfolding leading_dot
leading_dot-IsPlain [] h = refl
leading_dot-IsPlain (part ∷ parts) (h, k) = ground arith

components-IsPlain :
    (path : Bytes)
    → starts_with_slash path ≡ false
    → All IsPlain (split_slash path)
    → components path ≡ map normal (split_slash path)
unfolding components
components-IsPlain path s h = rw (s, leading_dot-IsPlain _ h, part_components-IsPlain _ h)

split-leading_slash :
    (path : Bytes) → All IsPlain (split_slash path) → starts_with_slash path ≡ false
unfolding split_slash starts_with_slash is_empty
split-leading_slash [] h = refl
split-leading_slash (b ∷ bs) h = elim (Bool-cases (b == slash)) [
  | inl e ↦ let k : All IsPlain ([] ∷ split_slash bs) = rw e at h in cc (k.0)
  | inr e ↦ e
]

-- The paths that an archive may hold: not empty, no backslash, and every part between slashes plain.
pub record IsCanonical (path : Bytes) : Type 0 where
  pub no_backslash : contains_byte backslash path ≡ false
  pub parts : All IsPlain (split_slash path)

IsPlain-nonempty : (path : Bytes) → All IsPlain (split_slash path) → is_empty path ≡ false
unfolding split_slash is_empty
IsPlain-nonempty [] h = h.0
IsPlain-nonempty (b ∷ bs) h = refl

-- `std` splits a canonical path into the parts that its slashes separate.
components_canonical :
    (path : Bytes) → IsCanonical path → components path ≡ map normal (split_slash path)
components_canonical path c = components-IsPlain path (split-leading_slash path c.parts) c.parts

pub IsCanonical-validate : (path : Bytes) → IsCanonical path → validate_archive_path path ≡ ok path
unfolding validate_archive_path validate_components
IsCanonical-validate path c = rw (
  IsPlain-nonempty path c.parts,
  split-leading_slash path c.parts,
  c.no_backslash,
  check_parts_ok _ c.parts,
  components_canonical path c,
  check_normal (split_slash path),
)

accepted_parts :
    (path q : Bytes)
    → validate_archive_path path ≡ ok q
    → (q ≡ path) × (contains_byte backslash path ≡ false) × (check_parts (split_slash path) ≡ ok tt)
unfolding validate_archive_path
accepted_parts path q h = ground arith

pub validate-IsCanonical :
    (path q : Bytes) → validate_archive_path path ≡ ok q → (q ≡ path) × IsCanonical path
validate-IsCanonical path q h =
    let (same, clean, plain) = accepted_parts path q h in
    (same, record { no_backslash = clean; parts = check_parts-IsPlain _ plain })

-- `validate_archive_path` accepts exactly the canonical paths, and returns the path unchanged.
pub validate_archive_path_iff :
    (path q : Bytes) → (validate_archive_path path ≡ ok q) ↔ ((q ≡ path) × IsCanonical path)
validate_archive_path_iff path q =
    (validate-IsCanonical path q, λ h. rw h.0 (IsCanonical-validate path h.1))

split_slash-cons : (path : Bytes) → (h : Bytes) × (t : List Bytes) × (split_slash path ≡ h ∷ t)
unfolding split_slash cons_head
split_slash-cons [] = ([], [], refl)
split_slash-cons (b ∷ bs) =
    let (h, t, e) = split_slash-cons bs in
    elim (Bool-cases (b == slash)) [
      | inl same ↦ ([], h ∷ t, rw (same, e) refl)
      | inr other ↦ (b ∷ h, t, rw (other, e) refl)
    ]

join_slash-cons_head :
    (b : ℕ) (h : Bytes) (t : List Bytes) → join_slash ((b ∷ h) ∷ t) ≡ b ∷ join_slash (h ∷ t)
unfolding join_slash
join_slash-cons_head b h [] = refl
join_slash-cons_head b h (next ∷ t) = refl

-- The parts between slashes, joined with slashes, are the path again.
join_slash-split_slash : (path : Bytes) → join_slash (split_slash path) ≡ path
unfolding split_slash cons_head join_slash
join_slash-split_slash [] = refl
join_slash-split_slash (b ∷ bs) =
    let (h, t, e) = split_slash-cons bs in
    let ih : join_slash (h ∷ t) ≡ bs = rw e at (join_slash-split_slash bs) in
    elim (Bool-cases (b == slash)) [
      | inl same ↦ rw (same, e, ih) (ap (λ (c : ℕ). c ∷ bs) (sym ((==_iff b slash).0 same)))
      | inr other ↦ rw (other, e) (join_slash-cons_head b h t ∙ ap (λ (p : Bytes). b ∷ p) ih)
    ]

abbrev pub IsUtf8 : Bytes → Type 0
IsUtf8 part = is_utf8 part ≡ true

normal_parts-map :
    (parts : List Bytes) → All IsUtf8 parts → normal_parts (map normal parts) ≡ ok parts
unfolding normal_parts
normal_parts-map [] h = refl
normal_parts-map (part ∷ parts) (h, k) = rw (h, normal_parts-map parts k) refl

normalized :
    (path : Bytes)
    → IsCanonical path
    → All IsUtf8 (split_slash path)
    → normalize_relative_path path ≡ ok path
unfolding normalize_relative_path validate_components
normalized path c utf8 =
    let (h, t, e) = split_slash-cons path in
    rw
      (
        split-leading_slash path c.parts,
        components_canonical path c,
        check_normal (split_slash path),
        normal_parts-map (split_slash path) utf8,
      )
      (rw (e, join_normal) (ap ok (ap join_slash (sym e) ∙ join_slash-split_slash path)))

-- A path that `validate_archive_path` accepts, with UTF-8 parts, is one that packing stores as it is:
-- `normalize_relative_path` returns it unchanged. `Path::components` gives no other components for it
-- than the parts between its slashes, all of them normal.
pub normalize-validate_archive_path :
    (path q : Bytes)
    → validate_archive_path path ≡ ok q
    → All IsUtf8 (split_slash path)
    → (normalize_relative_path q ≡ ok path) × (components q ≡ map normal (split_slash path))
normalize-validate_archive_path path q h utf8 =
    let (same, canonical) = validate-IsCanonical path q h in
    rw same (normalized path canonical utf8, components_canonical path canonical)

check_components-fueled : (cs : List Component) → check_components cs ≢ err out_of_fuel
unfolding check_components
check_components-fueled [] p = cc
check_components-fueled (normal part ∷ cs) p = check_components-fueled cs p
check_components-fueled (cur_dir ∷ cs) p = cc
check_components-fueled (parent_dir ∷ cs) p = cc
check_components-fueled (root_dir ∷ cs) p = cc
check_components-fueled (prefix ∷ cs) p = cc

check_parts-fueled : (parts : List Bytes) → check_parts parts ≢ err out_of_fuel
unfolding check_parts
check_parts-fueled [] p = cc
check_parts-fueled (part ∷ parts) p = ground (arith, check_parts-fueled parts)

pub validate_archive_path-fueled : (path : Bytes) → validate_archive_path path ≢ err out_of_fuel
unfolding validate_archive_path validate_components
validate_archive_path-fueled path p =
    ground (arith, check_parts-fueled (split_slash path), check_components-fueled (components path))
