-- ===== src/Archive/RoundTrip/Walk.antt =====
-- The loop of `pack_to_writer` over the entries of a walk.
use rgx.Common.{
  ℕ, ◌≡◌, refl, ap, sym, ◌∙◌, ◌++◌, append_assoc, append-nil, List, [], ◌∷◌, Bytes, length, ok, err,
  true, false, All, Result, ◌⟫=◌, ⟫=-eq-ok, ok-injective, err-ne-ok, subst,
}
use rgx.Archive.{External, IsExternal, contains}
use rgx.Archive.Paths.{
  is_empty, is_utf8, validate_archive_path, checked_path_len, normalize_relative_path,
}
use rgx.Archive.Pack.{
  PackState, WalkEntry, EntryKind, directory, symlink, other, unreadable, file, pack_kind,
  pack_entry, pack_entries, admit_item, strip_prefix,
}
use rgx.Archive.Scan.{ScanState}
use rgx.Archive.Scan.Rounds.{IsStorable, with_directory}
use rgx.Archive.RoundTrip.Cuts.{contents}
use rgx.Archive.RoundTrip.Entries.{Agree, Agree-pack_directory, path_len_checked}
use rgx.Archive.RoundTrip.Packed.{Agree-pack_file}

unfoldable pub ok_or_empty : Result Bytes → Bytes
ok_or_empty (ok path) = path
ok_or_empty (err e) = []

-- The path under which an entry is stored, where it has one.
unfoldable pub entry_path : WalkEntry → Bytes
unfolding ok_or_empty
entry_path entry = ok_or_empty (strip_prefix entry.relative ⟫= normalize_relative_path)

unfoldable pub kind_files : Bytes → EntryKind → List (Bytes × Bytes)
kind_files path (file reads) = (path, contents reads) ∷ []
kind_files path directory = []
kind_files path symlink = []
kind_files path other = []
kind_files path unreadable = []

unfoldable pub kind_paths : Bytes → EntryKind → List Bytes → List Bytes
kind_paths path (file reads) paths = path ∷ paths
kind_paths path directory paths = paths
kind_paths path symlink paths = paths
kind_paths path other paths = paths
kind_paths path unreadable paths = paths

-- The files of a walk, each with its path and its content.
unfoldable pub walk_files : List WalkEntry → List (Bytes × Bytes)
walk_files [] = []
walk_files (entry ∷ walk) = kind_files (entry_path entry) entry.kind ++ walk_files walk

-- All paths of a walk, and those of its files, the last one first.
unfoldable pub walk_paths : List Bytes → List WalkEntry → List Bytes
walk_paths paths [] = paths
walk_paths paths (entry ∷ walk) = walk_paths (entry_path entry ∷ paths) walk

unfoldable pub walk_file_paths : List Bytes → List WalkEntry → List Bytes
walk_file_paths paths [] = paths
walk_file_paths paths (entry ∷ walk) =
    walk_file_paths (kind_paths (entry_path entry) entry.kind paths) walk

-- Paths that the scan accepts, and that are distinct.
abbrev pub IsStored : List Bytes → List WalkEntry → Type 0
IsStored paths [] = Unit {0}
IsStored paths (entry ∷ walk) =
    (is_utf8 (entry_path entry) ≡ true)
    × (validate_archive_path (entry_path entry) ≡ ok (entry_path entry))
    × (contains paths (entry_path entry) ≡ false)
    × IsStored (entry_path entry ∷ paths) walk

packed_path :
    (entry : WalkEntry) (relative path : Bytes)
    → strip_prefix entry.relative ≡ ok relative
    → normalize_relative_path relative ≡ ok path
    → entry_path entry ≡ path
unfolding entry_path ok_or_empty
packed_path entry relative path e1 e2 = rw (e1, e2)

module _ (x : External) (law : IsExternal x) (level : ℕ) (Known : Bytes → Type 0)
    (no_collision : (a b : Bytes) → Known a → Known b → x.hash a ≡ x.hash b → a ≡ b) where
  abbrev pub IsKnown : Bytes × Bytes → Type 0
  IsKnown f = (before d after : Bytes) → before ++ (d ++ after) ≡ f.1 → Known d

  abbrev Agrees : PackState → ScanState → List (Bytes × Bytes) → Type 0
  Agrees = Agree x law level Known no_collision

  Agree-pack_kind :
      (kind : EntryKind) (st st' : PackState) (σ : ScanState) (packed : List (Bytes × Bytes))
      (path : Bytes)
      → Agrees st σ packed
      → IsStorable path
      → contains σ.paths path ≡ false
      → All IsKnown (kind_files path kind)
      → pack_kind x level kind path (length path) st ≡ ok st'
      → (σ' : ScanState) × Agrees st' σ' (packed ++ kind_files path kind)
        × (σ'.paths ≡ path ∷ σ.paths)
        × (σ'.file_paths ≡ kind_paths path kind σ.file_paths)
  unfolding pack_kind kind_files kind_paths
  Agree-pack_kind directory st st' σ packed path a v fresh known h = (
    with_directory σ path,
    subst (Agrees st' (with_directory σ path)) (sym (append-nil packed))
        (Agree-pack_directory x law level Known no_collision st st' σ packed path a v fresh h),
    refl,
    refl,
  )
  Agree-pack_kind (file reads) st st' σ packed path a v fresh known h =
      Agree-pack_file x law level Known no_collision st st' σ packed path reads a v fresh (known.0)
        h
  Agree-pack_kind symlink st st' σ packed path a v fresh known h = absurd (err-ne-ok h)
  Agree-pack_kind other st st' σ packed path a v fresh known h = absurd (err-ne-ok h)
  Agree-pack_kind unreadable st st' σ packed path a v fresh known h = absurd (err-ne-ok h)

  All-left : (fs gs : List (Bytes × Bytes)) → All IsKnown (fs ++ gs) → All IsKnown fs
  All-left [] gs k = tt
  All-left (f ∷ fs) gs k = (k.0, All-left fs gs k.1)

  All-right : (fs gs : List (Bytes × Bytes)) → All IsKnown (fs ++ gs) → All IsKnown gs
  All-right [] gs k = k
  All-right (f ∷ fs) gs k = All-right fs gs k.1

  Agree-pack_entry :
      (st st' : PackState) (σ : ScanState) (packed : List (Bytes × Bytes)) (entry : WalkEntry)
      → Agrees st σ packed
      → is_utf8 (entry_path entry) ≡ true
      → validate_archive_path (entry_path entry) ≡ ok (entry_path entry)
      → contains σ.paths (entry_path entry) ≡ false
      → All IsKnown (kind_files (entry_path entry) entry.kind)
      → pack_entry x level st entry ≡ ok st'
      → (σ' : ScanState) × Agrees st' σ' (packed ++ kind_files (entry_path entry) entry.kind)
        × (σ'.paths ≡ entry_path entry ∷ σ.paths)
        × (σ'.file_paths ≡ kind_paths (entry_path entry) entry.kind σ.file_paths)
  unfolding pack_entry
  Agree-pack_entry st st' σ packed entry a utf8 valid fresh known h =
      let (u, e0, h0) = ⟫=-eq-ok (admit_item entry.kind) _ h in
      let (relative, e1, h1) = ⟫=-eq-ok (strip_prefix entry.relative) _ h0 in
      let (path, e2, h2) = ⟫=-eq-ok (normalize_relative_path relative) _ h1 in
      let (n, e3, h3) = ⟫=-eq-ok (checked_path_len path) _ h2 in
      let same = packed_path entry relative path e1 e2 in
      let (len, nonempty, short) = path_len_checked path n e3 in
      Agree-pack_kind entry.kind st st' σ packed (entry_path entry) a
        (record {
          nonempty = ap is_empty same ∙ nonempty;
          short = rw same short;
          utf8 = utf8;
          valid = valid;
        })
        fresh known (rw same (rw len at h3))

  pub Agree-pack_entries :
      (walk : List WalkEntry) (st st' : PackState) (σ : ScanState) (packed : List (Bytes × Bytes))
      → Agrees st σ packed
      → IsStored σ.paths walk
      → All IsKnown (walk_files walk)
      → pack_entries x level st walk ≡ ok st'
      → (σ' : ScanState) × Agrees st' σ' (packed ++ walk_files walk)
        × (σ'.paths ≡ walk_paths σ.paths walk)
        × (σ'.file_paths ≡ walk_file_paths σ.file_paths walk)
  unfolding pack_entries walk_files walk_paths walk_file_paths
  Agree-pack_entries [] st st' σ packed a v known h = (
    σ,
    subst (λ s. Agrees s σ (packed ++ [])) (ok-injective h)
        (subst (Agrees st σ) (sym (append-nil packed)) a),
    refl,
    refl,
  )
  Agree-pack_entries (entry ∷ walk) st st' σ packed a v known h =
      let (mid, e, h1) = ⟫=-eq-ok (pack_entry x level st entry) _ h in
      let (utf8, valid, fresh, rest) = v in
      let files = kind_files (entry_path entry) entry.kind in
      let (σ1, a1, p1, f1) =
        Agree-pack_entry st mid σ packed entry a utf8 valid fresh
          (All-left files (walk_files walk) known) e in
      let (σ2, a2, p2, f2) =
        Agree-pack_entries walk mid st' σ1 (packed ++ files) a1
          (subst (λ ps. IsStored ps walk) (sym p1) rest) (All-right files (walk_files walk) known)
          h1 in
      (
        σ2,
        subst (Agrees st' σ2) (append_assoc packed files (walk_files walk)) a2,
        p2 ∙ ap (λ ps. walk_paths ps walk) p1,
        f2 ∙ ap (λ ps. walk_file_paths ps walk) f1,
      )
