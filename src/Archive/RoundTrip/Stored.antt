-- ===== src/Archive/RoundTrip/Stored.antt =====
-- How the chunks of a map lie in an archive: each entry's payload stands at its offset, and decodes
-- to a chunk with the entry's digest and size.
use rgx.Common.{
  ℕ, ◌+◌, ◌≡◌, ◌≢◌, refl, ap, sym, ◌∙◌, List, [], ◌∷◌, ◌++◌, append_assoc, Option, none, some, true,
  false, Bytes, bytes_eq, bytes_eq→eq, bytes_eq_refl, length, All, ok, arith, Bool-cases, inl, inr,
  subst, suc,
}
use mathlib.Core.Bool.{false≢true}
use rgx.Archive.{External, ChunkMeta, ChunkMap, get_chunk, contains}
use rgx.Archive.Read.{decode_payload}

some-ne-none : {A : Type 0} {a : A} → ◌≢◌ {A = Option A} (some a) none
some-ne-none e = cc

some-eq_iff : {A : Type 0} {a b : A} → ◌≡◌ {A = Option A} (some a) (some b) → a ≡ b
some-eq_iff e = cc

pair_eq : {A B : Type 0} {a b : A} {c d : B} → a ≡ b → c ≡ d → ◌≡◌ {A = A × B} (a, c) (b, d)
pair_eq p q = λ i. (p i, q i)

unfoldable pub keys : ChunkMap → List Bytes
keys [] = []
keys ((key, m) ∷ chunks) = key ∷ keys chunks

-- The sum of the original sizes.
unfoldable pub total : ChunkMap → ℕ
total [] = 0
total ((key, m) ∷ chunks) = m.original_size + total chunks

pub length-keys : (chunks : ChunkMap) → length (keys chunks) ≡ length chunks
unfolding keys
length-keys [] = refl
length-keys ((key, m) ∷ chunks) = ap suc (length-keys chunks)

pub absent :
    (chunks : ChunkMap) (h : Bytes) → contains (keys chunks) h ≡ false → get_chunk chunks h ≡ none
unfolding keys contains get_chunk
absent [] h e = refl
absent ((key, m) ∷ chunks) h e = ground (arith, absent chunks h)

pub present :
    (chunks : ChunkMap) (h : Bytes)
    → contains (keys chunks) h ≡ true
    → (m : ChunkMeta) × (get_chunk chunks h ≡ some m)
unfolding keys contains get_chunk
present [] h e = absurd (false≢true e)
present ((key, m) ∷ chunks) h e = elim (Bool-cases (bytes_eq key h)) [
  | inl same ↦ (m, rw same)
  | inr other ↦ rw other (present chunks h (rw other at e))
]

-- A new entry under an absent key hides no other.
pub get_chunk-cons :
    (chunks : ChunkMap) (key h : Bytes) (n m : ChunkMeta)
    → get_chunk chunks key ≡ none
    → get_chunk chunks h ≡ some m
    → get_chunk ((key, n) ∷ chunks) h ≡ some m
unfolding get_chunk
get_chunk-cons chunks key h n m a e = elim (Bool-cases (bytes_eq key h)) [
  | inl same ↦ absurd (some-ne-none (sym e ∙ (rw (bytes_eq→eq key h same) at a)))
  | inr other ↦ rw other e
]

pub get_chunk-cons_self :
    (chunks : ChunkMap) (key : Bytes) (n : ChunkMeta) → get_chunk ((key, n) ∷ chunks) key ≡ some n
unfolding get_chunk
get_chunk-cons_self chunks key n = rw (bytes_eq_refl key)

module _ (x : External) where
  pub record Holds (out : Bytes) (m : ChunkMeta) (chunk : Bytes) : Type 0 where
    pub before : Bytes
    pub payload : Bytes
    pub after : Bytes
    pub split : out ≡ before ++ (payload ++ after)
    pub offset : length before ≡ m.payload_offset
    pub size : length payload ≡ m.payload_size
    pub original : m.original_size ≡ length chunk
    pub decoded : decode_payload x m payload ≡ ok chunk

  pub Holds-append :
      (out more : Bytes) (m : ChunkMeta) (chunk : Bytes)
      → Holds out m chunk
      → Holds (out ++ more) m chunk
  Holds-append out more m chunk h = record {
    before = h.before;
    payload = h.payload;
    after = h.after ++ more;
    split =
        ap (λ (o : Bytes). o ++ more) h.split
        ∙ append_assoc h.before (h.payload ++ h.after) more
        ∙ ap (λ (o : Bytes). h.before ++ o) (append_assoc h.payload h.after more);
    offset = h.offset;
    size = h.size;
    original = h.original;
    decoded = h.decoded;
  }

  module _ (Known : Bytes → Type 0) where
    pub record StoredChunk (out : Bytes) (entry : Bytes × ChunkMeta) : Type 0 where
      pub chunk : Bytes
      pub known : Known chunk
      pub key : entry.0 ≡ x.hash chunk
      pub holds : Holds out entry.1 chunk

    abbrev pub AllStored : Bytes → ChunkMap → Type 0
    AllStored out chunks = All (StoredChunk out) chunks

    pub AllStored-append :
        (out more : Bytes) (chunks : ChunkMap)
        → AllStored out chunks
        → AllStored (out ++ more) chunks
    AllStored-append out more [] h = tt
    AllStored-append out more ((key, m) ∷ chunks) (s, h) = (
      record {
        chunk = s.chunk;
        known = s.known;
        key = s.key;
        holds = Holds-append out more m s.chunk s.holds;
      },
      AllStored-append out more chunks h,
    )

    pub stored_at :
        (out : Bytes) (chunks : ChunkMap) (h : Bytes) (m : ChunkMeta)
        → AllStored out chunks
        → get_chunk chunks h ≡ some m
        → StoredChunk out (h, m)
    unfolding get_chunk
    stored_at out [] h m s e = absurd (some-ne-none (sym e))
    stored_at out ((key, n) ∷ chunks) h m (s, rest) e = elim (Bool-cases (bytes_eq key h)) [
      | inl same ↦
          subst (StoredChunk out) (pair_eq (bytes_eq→eq key h same) (some-eq_iff (rw same at e))) s
      | inr other ↦ stored_at out chunks h m rest (rw other at e)
    ]
