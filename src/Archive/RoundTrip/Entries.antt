-- ===== src/Archive/RoundTrip/Entries.antt =====
-- The simulation over the entries of a walk.
use rgx.Common.{
  ◌<◌, ℕ, suc, ◌+◌, ◌*◌, ◌≡◌, ◌≤◌, refl, ap, ◌∙◌, List, [], ◌∷◌, Bytes, length, length-append, ok,
  arith, concat, false, stream, All, ⟫=-eq-ok, ok-injective, subst, le_bytes,
}
use mathlib.Core.List.{map}
use rgx.Format.{IsFooter, FileHeader, DirectoryHeader, write_file_header, write_directory_header}
use rgx.Archive.{
  u64_limit, External, IsExternal, ChunkMap, FileRecord, contains, checked_add, max_path_bytes,
}
use rgx.Archive.Paths.{is_empty, checked_path_len}
use rgx.Archive.Pack.{PackState, footer_of, pack_directory}
use rgx.Archive.Read.Checked.{checked_add-eq}
use rgx.Archive.Scan.{ScanState, more}
use rgx.Archive.Scan.Rounds.{
  IsStorable, directory_round, directory_record, with_directory, Refers, nothing, insert_all,
}
use rgx.Archive.RoundTrip.Stored.{keys, total, AllStored, AllStored-append}
use rgx.Archive.RoundTrip.Reached.{Reached, Reached-round}
use rgx.Archive.RoundTrip.Files.{InFile}

pub length-write_file_header :
    (h : FileHeader) → length h.hash ≡ 32 → length (write_file_header h) ≡ 52
unfolding write_file_header le_bytes
length-write_file_header h e = omega (arith, e)

pub length-write_directory_header : (h : DirectoryHeader) → length (write_directory_header h) ≡ 12
unfolding write_directory_header le_bytes
length-write_directory_header h = refl

pub path_len_checked :
    (path : Bytes) (n : ℕ)
    → checked_path_len path ≡ ok n
    → (n ≡ length path) × (is_empty path ≡ false) × (length path ≤ max_path_bytes)
unfolding checked_path_len
path_len_checked path n h = ground arith

pub length-concat_hashes :
    (hash : Bytes → Bytes) (ds : List Bytes)
    → ((d : Bytes) → length (hash d) ≡ 32)
    → length (concat (map hash ds)) ≡ 32 * length ds
length-concat_hashes hash [] h = refl
length-concat_hashes hash (d ∷ ds) h =
    omega
      (arith, length-append (hash d) (concat (map hash ds)), h d, length-concat_hashes hash ds h)

pub length-map_hash : (hash : Bytes → Bytes) (ds : List Bytes) → length (map hash ds) ≡ length ds
length-map_hash hash [] = refl
length-map_hash hash (d ∷ ds) = ap suc (length-map_hash hash ds)

module _ (x : External) (law : IsExternal x) (level : ℕ) (Known : Bytes → Type 0)
    (no_collision : (a b : Bytes) → Known a → Known b → x.hash a ≡ x.hash b → a ≡ b) where
  -- A record of the catalog that stands for a file with these contents.
  pub record Describes (chunks : ChunkMap) (r : FileRecord) (path content : Bytes) : Type 0 where
    pub cut : List Bytes
    pub named : r.path ≡ path
    pub hashes : r.chunk_hashes ≡ map x.hash cut
    pub known : All Known cut
    pub refers : Refers chunks (map x.hash cut) (length (concat cut))
    pub bytes : concat cut ≡ content
    pub size : r.original_size ≡ length content
    pub digest : r.hash ≡ x.hash content
    pub small : length content < u64_limit

  -- The records of the catalog, one for each file that was packed.
  pub data Catalogued (chunks : ChunkMap) : List FileRecord → List (Bytes × Bytes) → Type 0 where
    no_files : Catalogued chunks [] []
    one_more :
        {rs : List FileRecord} {fs : List (Bytes × Bytes)} (r : FileRecord) (path content : Bytes)
        → Describes chunks r path content
        → Catalogued chunks rs fs
        → Catalogued chunks (r ∷ rs) ((path, content) ∷ fs)

  -- The packer's state between two entries, and the scan's.
  pub record Agree (st : PackState) (σ : ScanState) (packed : List (Bytes × Bytes)) : Type 0 where
    pub reached : Reached st.out σ
    pub seen : st.seen_chunks ≡ keys σ.chunks
    pub referenced : st.seen_chunks ≡ σ.referenced_chunks
    pub stored : AllStored x Known st.out σ.chunks
    pub unique : st.stats.unique_chunks ≡ length σ.chunks
    pub stored_bytes : st.stats.stored_bytes ≡ σ.stored_payload_bytes
    pub references : st.stats.chunk_references ≡ σ.chunk_references
    pub entries : st.stats.entries ≡ σ.entries
    pub files : st.stats.files ≡ σ.file_count
    pub directories : st.stats.directories ≡ σ.directory_count
    pub original : st.stats.original_bytes ≡ σ.original_bytes
    pub logical : σ.referenced_logical_bytes ≡ σ.original_bytes
    pub deduplicated : st.stats.deduplicated_bytes + total σ.chunks ≡ σ.referenced_logical_bytes
    pub bounds : IsFooter (footer_of st.stats)
    pub catalogued : Catalogued σ.chunks σ.files packed

  -- A file begins where the entries before it end.
  pub InFile-start :
      (st : PackState) (σ : ScanState) (packed : List (Bytes × Bytes))
      → Agree st σ packed
      → InFile x law level Known no_collision σ st σ.chunks []
  unfolding insert_all
  InFile-start st σ packed a = record {
    reached = rw a.stored_bytes a.reached;
    seen = a.seen;
    referenced = a.referenced;
    stored = a.stored;
    known = tt;
    extends = λ h m e. e;
    bounds = a.bounds;
    refers = nothing;
    unique = a.unique;
    references = omega (arith, a.references);
    entries = a.entries;
    files = a.files;
    directories = a.directories;
    original = a.original;
    deduplicated = omega (arith, a.deduplicated);
  }

  pub Agree-pack_directory :
      (st st' : PackState) (σ : ScanState) (packed : List (Bytes × Bytes)) (path : Bytes)
      → Agree st σ packed
      → IsStorable path
      → contains σ.paths path ≡ false
      → pack_directory path (length path) st ≡ ok st'
      → Agree st' (with_directory σ path) packed
  unfolding pack_directory
  Agree-pack_directory st st' σ packed path a v fresh h =
      let (e, e1, h1) = ⟫=-eq-ok (checked_add st.stats.entries 1) _ h in
      let (d, e2, h2) = ⟫=-eq-ok (checked_add st.stats.directories 1) _ h1 in
      let (ee, ee') = checked_add-eq _ _ e e1 in
      let (ed, ed') = checked_add-eq _ _ d e2 in
      let len : length (directory_record path) ≡ 12 + length path = omega (
        arith,
        length-append (write_directory_header (record { path_len = length path })) path,
        length-write_directory_header (record { path_len = length path }),
      ) in
      subst (λ s. Agree s (with_directory σ path) packed) (ok-injective h2)
        (record {
          reached =
              Reached-round st.out (directory_record path) σ (with_directory σ path)
                (omega (arith, len))
                (λ rest.
                  directory_round σ path (length st.out) rest v fresh
                    (omega (arith, ee', a.entries)) (omega (arith, ed', a.directories))
                  ∙ ap (λ (p : ℕ). ok (more (with_directory σ path), stream p rest))
                      (omega (arith, len)))
                a.reached;
          seen = a.seen;
          referenced = a.referenced;
          stored = AllStored-append x Known st.out (directory_record path) σ.chunks a.stored;
          unique = a.unique;
          stored_bytes = a.stored_bytes;
          references = a.references;
          entries = omega (arith, ee, a.entries);
          files = a.files;
          directories = omega (arith, ed, a.directories);
          original = a.original;
          logical = a.logical;
          deduplicated = a.deduplicated;
          bounds =
              unfold footer_of in
              record {
                entries = omega (arith, ee, ee');
                files = a.bounds.files;
                directories = omega (arith, ed, ed');
                unique_chunks = a.bounds.unique_chunks;
                chunk_references = a.bounds.chunk_references;
                original_bytes = a.bounds.original_bytes;
                stored_payload_bytes = a.bounds.stored_payload_bytes;
                deduplicated_bytes = a.bounds.deduplicated_bytes;
              };
          catalogued = a.catalogued;
        })
