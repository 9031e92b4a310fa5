-- ===== src/RecipientArchive/Payload.antt =====
-- The payload of a file that `pack_recipient` of src/recipient_archive.rs writes is the packed archive.
use rgx.Common.{
  ℕ, ◌^◌, ◌≡◌, ◌≤◌, ◌<◌, refl, ap, sym, ◌∙◌, subst, List, [], ◌∷◌, append-nil, Bool, Option, Bytes,
  length, take, drop, concat, Result, ok, ◌⟫=◌, ok-injective,
}
use rgx.Frames.Writer.{StreamKey, FrameWriter, start_writer, write}
use rgx.Frames.Reader.{read}
use rgx.Frames.Stream.{write_each}
use rgx.Keyed.{new_key, seek, start}
use rgx.Keyed.Stream.{read_from, read-write}
use rgx.Archive.{External, ArchiveInfo}
use rgx.Archive.Pack.{WalkEntry, pack_to_writer}
use rgx.Recipient.{Crypto, IsCrypto, RgxPublicKey}
use rgx.RecipientArchive.{Randoms, open_payload, pack_recipient}
use rgx.RecipientArchive.Unlock.{IsRandoms, pack_recipient-Packed}

-- `open_payload`, a seek to a position, and a read.
unfoldable pub read_payload : Crypto → Bytes → Bytes → ℕ → ℕ → Result Bytes
read_payload c file archive_key p want = open_payload c file archive_key ⟫= λ opened.
    seek opened.1 (start p) ⟫= λ r. read c.aead opened.0 r want ⟫= λ got. ok got.0

one_piece :
    (c : Crypto) (k : StreamKey) (archive : Bytes) (w : FrameWriter)
    → write c.aead k (start_writer c.aead k) archive ≡ ok w
    → write_each c.aead k (start_writer c.aead k) (archive ∷ []) ≡ ok w
unfolding write_each
one_piece c k archive w h = rw h refl

module _ (c : Crypto) (law : IsCrypto c) (random : Randoms) (right : IsRandoms random) where
  -- A file that `pack_recipient` returns holds the archive that `pack_to_writer` packs for the same walk: its
  -- payload is opened with the archive key, and read from any position as far as the archive goes; and
  -- the statistics are the same. The nonce prefix has its length, and the file's length fits a `u64`.
  pub read_payload-pack_recipient :
      (x : External) (exists : Bool) (inside : Result (Unit {0})) (directory_exists : Bool)
      (level : ℕ) (recipients : List RgxPublicKey) (fallback_password : Option Bytes)
      (walk : Option (List WalkEntry)) (file archive : Bytes) (info info' : ArchiveInfo)
      (p want : ℕ)
      → length random.nonce_prefix ≡ 16
      → pack_to_writer x level walk ≡ ok (archive, info')
      → pack_recipient c x random exists inside directory_exists level recipients fallback_password
          walk
        ≡ ok (file, info)
      → length file < 2 ^ 64
      → p ≤ length archive
      → (read_payload c file random.archive_key p want ≡ ok (take want (drop p archive)))
        × (info ≡ info')
  unfolding read_payload open_payload read_from
  read_payload-pack_recipient x exists inside directory_exists level recipients fallback_password
        walk file archive info info' p want n packed h fits among =
      let q =
        pack_recipient-Packed c law random right x exists inside directory_exists level recipients
          fallback_password walk file info h in
      let k = new_key random.archive_key random.nonce_prefix (c.hash q.bytes) in
      let same : q.packed ≡ (archive, info') = ok-injective (sym q.packed_ok ∙ packed) in
      let whole : concat (q.packed.0 ∷ []) ≡ archive =
        append-nil q.packed.0 ∙ ap (λ (r : Bytes × ArchiveInfo). r.0) same in
      let got =
        read-write c.aead law.aead random.archive_key random.nonce_prefix (c.hash q.bytes) q.bytes n
          (law.hash_length q.bytes) q.w q.w' (q.packed.0 ∷ []) p want
          (one_piece c k q.packed.0 q.w q.written) q.finished (rw q.layout fits) (rw whole among) in
      (
        rw q.envelope (
            subst
              (λ (d : Bytes).
                read_from c.aead (length q.bytes) random.archive_key (c.hash q.bytes) file p want
                ≡ ok (take want (drop p d)))
              whole (rw q.layout at got)),
        sym q.statistics ∙ ap (λ (r : Bytes × ArchiveInfo). r.1) same,
      )
