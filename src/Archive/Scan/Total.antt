-- ===== src/Archive/Scan/Total.antt =====
-- The scan ends on every input: the loop of `scan_archive_reader` never runs out of its fuel.
use rgx.Common.{
  ℕ, zero, suc, ◌+◌, ◌<◌, ◌≡◌, ◌≢◌, ◌∷◌, [], List, Option, none, some, Bool, true, false, Bytes,
  length, Error, ok, err, bail_if, lift, arith, Parser, Stream, stream, ◌>>=◌, read_exact,
  out_of_fuel, ap, ◌∙◌, inl, inr, Result-cases, err-injective, err-ne-ok, if◌then◌else◌, >>=-eq-err,
  ⟫=-eq-err, sym, length-drop, >>=-eq-ok, unknown_marker,
}
use rgx.Common.Steady.{
  Steady, Steady-pure, Steady-lift, Steady-bind, Steady-read_exact, Steady-skip,
  Steady-stream_position, Steady-read_le, bail_if-fueled,
}
use rgx.Format.{
  ChunkHeader, Footer, read_header, read_tag, read_chunk_header_after_magic,
  read_file_header_after_magic, read_directory_header_after_magic, read_footer_after_magic,
}
use rgx.Archive.{ChunkMap, ChunkMeta, checked_add, validate_chunk_header}
use rgx.Archive.Paths.{read_path}
use rgx.Archive.Paths.Accepted.{validate_archive_path-fueled}
use rgx.Archive.Scan.{
  ScanState, RefState, Round, more, done, insert_chunk, scan_chunk, scan_path, scan_directory,
  find_chunk, scan_reference, scan_references, scan_file, require_tag, scan_record, scan_round,
  scan_loop, validate_path_tree, sum_sizes, checked_sub, check_catalog, scan_archive_reader,
  start_scan,
}

checked_add-fueled : (a b : ℕ) → checked_add a b ≢ err out_of_fuel
unfolding checked_add
checked_add-fueled a b e = ground arith

validate_chunk_header-fueled : (h : ChunkHeader) → validate_chunk_header h ≢ err out_of_fuel
unfolding validate_chunk_header
validate_chunk_header-fueled h e = ground arith

insert_chunk-fueled :
    (chunks : ChunkMap) (hash : Bytes) (m : ChunkMeta)
    → insert_chunk chunks hash m ≢ err out_of_fuel
unfolding insert_chunk
insert_chunk-fueled chunks hash m e = ground arith

find_chunk-fueled : (chunks : ChunkMap) (hash : Bytes) → find_chunk chunks hash ≢ err out_of_fuel
unfolding find_chunk
find_chunk-fueled chunks hash e = ground arith

require_tag-fueled : (o : Option Bytes) → require_tag o ≢ err out_of_fuel
unfolding require_tag
require_tag-fueled none e = cc
require_tag-fueled (some t) e = cc

Steady-bail_if : (b : Bool) {e : Error} → e ≢ out_of_fuel → Steady (lift (bail_if b e))
Steady-bail_if b h = Steady-lift _ (bail_if-fueled b _ h)

Steady-file_header : Steady read_file_header_after_magic
unfolding read_file_header_after_magic
Steady-file_header = search (Steady-bind, Steady-pure, Steady-read_le, Steady-read_exact)

Steady-chunk_header : Steady read_chunk_header_after_magic
unfolding read_chunk_header_after_magic
Steady-chunk_header = search (Steady-bind, Steady-pure, Steady-read_le, Steady-read_exact) depth 20

Steady-directory_header : Steady read_directory_header_after_magic
unfolding read_directory_header_after_magic
Steady-directory_header = search (Steady-bind, Steady-pure, Steady-read_le)

Steady-footer : Steady read_footer_after_magic
unfolding read_footer_after_magic
Steady-footer = search (Steady-bind, Steady-pure, Steady-read_le) depth 20

-- `bind` and `bail` with the terms that the goal gives left out.
infixr 2 ◌▸◌
abbrev ◌▸◌ :
    {A B : Type 0} {m : Parser A} {f : A → Parser B}
    → Steady m
    → ((a : A) → Steady (f a))
    → Steady (m >>= f)
sm ▸ sf = Steady-bind _ _ sm sf

Steady-scan_chunk : (σ : ScanState) → Steady (scan_chunk σ)
unfolding scan_chunk
Steady-scan_chunk σ = Steady-chunk_header ▸ λ h.
    Steady-lift _ (validate_chunk_header-fueled h) ▸ λ _. Steady-stream_position ▸ λ offset.
    Steady-bail_if _ (λ p. cc) ▸ λ _. Steady-skip h.payload_size ▸ λ _.
    Steady-lift _ (checked_add-fueled _ _) ▸ λ _.
    Steady-lift _ (insert_chunk-fueled _ _ _) ▸ λ chunks. Steady-pure _

Steady-read_path : (n : ℕ) → Steady (read_path n)
unfolding read_path
Steady-read_path n = Steady-bail_if _ (λ p. cc) ▸ λ _.
    Steady-read_exact n ▸ λ bytes. Steady-bail_if _ (λ p. cc) ▸ λ _. Steady-pure bytes

Steady-scan_path : (σ : ScanState) (n : ℕ) → Steady (scan_path σ n)
unfolding scan_path
Steady-scan_path σ n = Steady-read_path n ▸ λ path.
    Steady-lift _ (validate_archive_path-fueled path) ▸ λ _.
    Steady-bail_if _ (λ p. cc) ▸ λ _. Steady-pure path

Steady-scan_directory : (σ : ScanState) → Steady (scan_directory σ)
unfolding scan_directory
Steady-scan_directory σ = Steady-directory_header ▸ λ h. Steady-scan_path σ h.path_len ▸ λ path.
    Steady-lift _ (checked_add-fueled _ _) ▸ λ _.
    Steady-lift _ (checked_add-fueled _ _) ▸ λ _. Steady-pure _

Steady-scan_reference : (chunks : ChunkMap) (ρ : RefState) → Steady (scan_reference chunks ρ)
unfolding scan_reference
Steady-scan_reference chunks ρ = Steady-read_exact 32 ▸ λ hash.
    Steady-lift _ (find_chunk-fueled _ _) ▸ λ m. Steady-lift _ (checked_add-fueled _ _) ▸ λ _.
    Steady-lift _ (checked_add-fueled _ _) ▸ λ _.
    Steady-lift _ (checked_add-fueled _ _) ▸ λ _. Steady-pure _

Steady-scan_references :
    (chunks : ChunkMap) (n : ℕ) (ρ : RefState) → Steady (scan_references chunks n ρ)
unfolding scan_references
Steady-scan_references chunks zero ρ = Steady-pure ρ
Steady-scan_references chunks (suc n) ρ =
    Steady-scan_reference chunks ρ ▸ λ ρ'. Steady-scan_references chunks n ρ'

Steady-scan_file : (σ : ScanState) → Steady (scan_file σ)
unfolding scan_file
Steady-scan_file σ = Steady-file_header ▸ λ h. Steady-bail_if _ (λ p. cc) ▸ λ _.
    Steady-scan_path σ h.path_len ▸ λ path. Steady-scan_references _ h.chunk_count _ ▸ λ ρ.
    Steady-bail_if _ (λ p. cc) ▸ λ _. Steady-lift _ (checked_add-fueled _ _) ▸ λ _.
    Steady-lift _ (checked_add-fueled _ _) ▸ λ _.
    Steady-lift _ (checked_add-fueled _ _) ▸ λ _. Steady-pure _

Steady-if :
    {A : Type 0} (b : Bool) {m n : Parser A} → Steady m → Steady n → Steady (if b then m else n)
Steady-if true sm sn = sm
Steady-if false sm sn = sn

Steady-scan_record : (σ : ScanState) (tag : Bytes) → Steady (scan_record σ tag)
unfolding scan_record
Steady-scan_record σ tag = Steady-if _ (Steady-scan_chunk σ ▸ λ _. Steady-pure _) (
    Steady-if _ (Steady-scan_directory σ ▸ λ _. Steady-pure _) (
      Steady-if _ (Steady-scan_file σ ▸ λ _. Steady-pure _) (
        Steady-if _ (Steady-footer ▸ λ _. Steady-pure _)
          (Steady-lift (err unknown_marker) (λ p. cc)))))

read_tag-fueled : (s : Stream) → read_tag s ≢ err out_of_fuel
unfolding read_tag
read_tag-fueled s e = elim (Result-cases (read_exact 4 s)) [
  | inl (a, r) ↦ absurd (err-ne-ok (sym (rw (r, read_tag) at e)))
  | inr (c, r) ↦ absurd (err-ne-ok (sym (rw (r, read_tag) at e)))
]

read_tag-shrinks :
    (s t : Stream) (tag : Bytes) → read_tag s ≡ ok (some tag, t) → length t.rest + 4 ≡ length s.rest
unfolding read_tag read_exact
read_tag-shrinks s t tag e = ground (arith, length-drop 4 s.rest)

round_behind_tag :
    (σ : ScanState) (s s' t : Stream) (r : Round) (found : Option Bytes)
    → read_tag s ≡ ok (found, t)
    → (lift (require_tag found) >>= λ tag. scan_record σ tag) t ≡ ok (r, s')
    → length s'.rest < length s.rest
unfolding require_tag ◌>>=◌
round_behind_tag σ s s' t r none p q = absurd (err-ne-ok q)
round_behind_tag σ s s' t r (some tag) p q =
    omega (arith, read_tag-shrinks s t tag p, (Steady-scan_record σ tag).shrinks t s' r q)

-- A round that succeeds takes at least the four bytes of its tag.
scan_round-shrinks :
    (σ : ScanState) (s s' : Stream) (r : Round)
    → scan_round σ s ≡ ok (r, s')
    → length s'.rest < length s.rest
unfolding scan_round
scan_round-shrinks σ s s' r e =
    let (found, t, p, q) = >>=-eq-ok read_tag _ s s' r e in round_behind_tag σ s s' t r found p q

scan_round-fueled : (σ : ScanState) (s : Stream) → scan_round σ s ≢ err out_of_fuel
unfolding scan_round
scan_round-fueled σ s p = elim (>>=-eq-err read_tag _ s p) [
  | inl e ↦ read_tag-fueled s e
  | inr (found, t, e, q) ↦
      (Steady-lift _ (require_tag-fueled found) ▸ λ tag. Steady-scan_record σ tag).fueled t q
]

scan_loop-fueled :
    (fuel : ℕ) (σ : ScanState) (s : Stream)
    → length s.rest < fuel
    → scan_loop fuel σ s ≢ err out_of_fuel
unfolding scan_loop
scan_loop-fueled zero σ s h p = absurd (omega arith)
scan_loop-fueled (suc fuel) σ s h p = elim (Result-cases (scan_round σ s)) [
  | inl ((more σ', s'), e) ↦
      scan_loop-fueled fuel σ' s' (omega (arith, scan_round-shrinks σ s s' (more σ') e))
        (rw (e, scan_loop) at p)
  | inl ((done footer σ', s'), e) ↦ absurd (err-ne-ok (sym (rw (e, scan_loop) at p)))
  | inr (c, e) ↦ scan_round-fueled σ s (e ∙ ap err (err-injective (rw (e, scan_loop) at p)))
]

validate_path_tree-fueled :
    (paths files : List Bytes) → validate_path_tree paths files ≢ err out_of_fuel
unfolding validate_path_tree
validate_path_tree-fueled [] files p = cc
validate_path_tree-fueled (path ∷ paths) files p =
    ground (arith, validate_path_tree-fueled paths files)

sum_sizes-fueled : (chunks : ChunkMap) (acc : ℕ) → sum_sizes acc chunks ≢ err out_of_fuel
unfolding sum_sizes
sum_sizes-fueled [] acc p = cc
sum_sizes-fueled ((key, m) ∷ chunks) acc p =
    elim (⟫=-eq-err (checked_add acc m.original_size) _ p) [
      | inl e ↦ checked_add-fueled acc m.original_size e
      | inr (total, e, q) ↦ sum_sizes-fueled chunks total q
    ]

check_catalog-fueled :
    (footer : Footer) (σ : ScanState) (trailing : Bytes)
    → check_catalog footer σ trailing ≢ err out_of_fuel
unfolding check_catalog checked_sub
check_catalog-fueled footer σ trailing p =
    ground (arith, validate_path_tree-fueled σ.paths σ.file_paths, sum_sizes-fueled σ.chunks 0)

Steady-read_header : Steady read_header
unfolding read_header
Steady-read_header = Steady-read_exact 4 ▸ λ found. Steady-bail_if _ (λ p. cc) ▸ λ _.
    Steady-read_le 2 ▸ λ major. Steady-read_le 2 ▸ λ minor. Steady-bail_if _ (λ p. cc) ▸ λ _.
    Steady-read_le 4 ▸ λ flags. Steady-read_le 4 ▸ λ reserved. Steady-pure _

-- On every input, well formed or not, the scan ends with a catalog or an error of the source: the
-- fuel of its loop is enough.
pub scan_archive_reader-ends : (archive : Bytes) → scan_archive_reader archive ≢ err out_of_fuel
unfolding scan_archive_reader
scan_archive_reader-ends archive p = elim (⟫=-eq-err (read_header (stream 0 archive)) _ p) [
  | inl e ↦ Steady-read_header.fueled (stream 0 archive) e
  | inr ((h, s), e, q) ↦ elim (⟫=-eq-err (scan_loop (suc (length archive)) start_scan s) _ q) [
    | inl r ↦
        scan_loop-fueled (suc (length archive)) start_scan s
          (omega (arith, Steady-read_header.shrinks (stream 0 archive) s h e)) r
    | inr (((footer, σ), t), e', r) ↦ check_catalog-fueled footer σ t.rest r
  ]
]
