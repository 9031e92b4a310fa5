-- ===== src/RecipientArchive.antt =====
-- src/recipient_archive.rs: the envelope in front of a keyed payload, which wraps the archive key for
-- recipients and for a password. A file is given by its bytes; random bytes are arguments.
pub mod Envelope
pub mod Unlock
pub mod Payload
use rgx.Common.{
  ℕ, zero, suc, ◌+◌, ◌-◌, ◌*◌, ◌%◌, ◌^◌, ◌≡◌, List, [], ◌∷◌, ◌++◌, Option, none, some, Bool, true,
  false, not, ◌&&◌, ◌||◌, Bytes, bytes_eq, le_bytes, from_le_bytes, length, take, drop, ltb, leb,
  ◌==◌, if◌then◌else◌, Result, ok, err, bail_if, ◌⟫=◌, Parser, Stream, stream, pure, lift, ◌>>=◌,
  ◌>>◌, stream_position, no_recipients, too_many_recipients, output_exists, not_recipient_archive,
  unsupported_envelope_version, bad_envelope_flags, bad_recipient_count, bad_envelope_reserved,
  header_len_overflow, header_len_mismatch, missing_payload, unconsumed_header, not_keyed_payload,
  no_password_fallback, slot_disappeared, truncated_field, output_missing,
}
use rgx.Frames.Headers.{slice}
use rgx.Frames.Writer.{StreamKey, start_writer, write, finish}
use rgx.Frames.Reader.{FrameReader, read_at}
use rgx.Keyed.{keyed_magic, new_key, open_stream}
use rgx.Archive.{External, ArchiveInfo}
use rgx.Archive.Pack.{WalkEntry, pack_to_writer}
use rgx.Recipient.{
  Crypto, RgxPrivateKey, RgxPublicKey, RecipientSlot, PasswordSlot, key_id,
  wrap_archive_key_for_recipient, unwrap_archive_key_for_recipient, wrap_archive_key_with_password,
  unwrap_archive_key_with_password,
}
use rgx.Recipient.KeyFiles.{find_matching_private_key}

abbrev pub recipient_magic : Bytes
recipient_magic = b'R' ∷ b'G' ∷ b'X' ∷ b'R' ∷ []

abbrev pub recipient_version : ℕ
recipient_version = 2

abbrev pub flag_password_fallback : ℕ
flag_password_fallback = 1

abbrev pub prefix_size : ℕ
prefix_size = 16

abbrev pub recipient_slot_size : ℕ
recipient_slot_size = 120

abbrev pub password_slot_size : ℕ
password_slot_size = 100

abbrev pub max_recipients : ℕ
max_recipients = 64

pub record RecipientEnvelope : Type 0 where
  pub recipients : List RecipientSlot
  pub password : Option PasswordSlot
  pub payload_offset : ℕ
  pub envelope_hash : Bytes

-- `UnlockMethod`, without the path of the identity.
pub data UnlockMethod : Type 0 where
  identity : Bytes → UnlockMethod
  password_fallback : UnlockMethod

unfoldable pub is_some : {A : Type 0} → Option A → Bool
is_some none = false
is_some (some a) = true

-- `checked_add` and `checked_mul` on a `usize` of 64 bits.
unfoldable pub checked_usize : ℕ → Result ℕ
checked_usize n = if ltb n (2 ^ 64) then ok n else err header_len_overflow

unfoldable pub expected_header_len : ℕ → Bool → Result ℕ
expected_header_len recipient_count has_password =
    checked_usize (recipient_count * recipient_slot_size) ⟫= λ slots.
    checked_usize (prefix_size + slots) ⟫= λ value.
    checked_usize (value + (if has_password then password_slot_size else 0))

unfoldable pub encode_prefix : ℕ → ℕ → ℕ → Bytes
encode_prefix flags recipient_count header_len =
    recipient_magic
    ++ (le_bytes 2 recipient_version
        ++ (le_bytes 2 flags
            ++ (le_bytes 2 recipient_count ++ (le_bytes 2 0 ++ le_bytes 4 header_len))))

unfoldable pub encode_recipient_slot : RecipientSlot → Bytes
encode_recipient_slot slot =
    slot.key_id ++ (slot.ephemeral_public ++ (slot.nonce ++ slot.wrapped_key))

unfoldable pub encode_recipient_slots : List RecipientSlot → Bytes
encode_recipient_slots [] = []
encode_recipient_slots (slot ∷ slots) = encode_recipient_slot slot ++ encode_recipient_slots slots

unfoldable pub encode_password_slot : Option PasswordSlot → Bytes
encode_password_slot none = []
encode_password_slot (some slot) =
    le_bytes 4 slot.memory_kib
    ++ (le_bytes 4 slot.iterations
        ++ (le_bytes 4 slot.lanes ++ (slot.salt ++ (slot.nonce ++ slot.wrapped_key))))

abbrev flags_of : Option PasswordSlot → ℕ
flags_of none = 0
flags_of (some slot) = flag_password_fallback

unfoldable pub encode_envelope : List RecipientSlot → Option PasswordSlot → Result Bytes
encode_envelope recipients password =
    expected_header_len (length recipients) (is_some password) ⟫= λ header_len.
    bail_if (not (ltb header_len (256 ^ 4))) header_len_overflow ⟫= λ _.
    bail_if (not (ltb (length recipients) (256 ^ 2))) too_many_recipients ⟫= λ _. ok (
      encode_prefix (flags_of password) (length recipients) header_len
      ++ (encode_recipient_slots recipients ++ encode_password_slot password))

-- `prefix` is an array of 16; `flags & !FLAG_PASSWORD_FALLBACK` is not 0 if a higher bit is set.
unfoldable pub validate_prefix : Bytes → Result (Unit {0})
validate_prefix prefix =
    bail_if (not (bytes_eq (slice 0 4 prefix) recipient_magic)) not_recipient_archive ⟫= λ _.
    bail_if (not (from_le_bytes (slice 4 6 prefix) == recipient_version))
      unsupported_envelope_version
    ⟫= λ _. bail_if (ltb 1 (from_le_bytes (slice 6 8 prefix))) bad_envelope_flags ⟫= λ _.
        bail_if
          (from_le_bytes (slice 8 10 prefix) == 0
            || ltb max_recipients (from_le_bytes (slice 8 10 prefix)))
          bad_recipient_count
        ⟫= λ _. bail_if (not (bytes_eq (slice 10 12 prefix) (0 ∷ 0 ∷ []))) bad_envelope_reserved

-- `read_exact_vec`
unfoldable pub read_vec : ℕ → Parser Bytes
read_vec n s =
    if ltb (length s.rest) n
    then err truncated_field
    else ok (take n s.rest, stream (s.pos + n) (drop n s.rest))

unfoldable pub read_u32 : Parser ℕ
read_u32 = do bytes ← read_vec 4; pure (from_le_bytes bytes)

unfoldable pub read_recipient_slot : Parser RecipientSlot
read_recipient_slot = do
  id ← read_vec 16
  ephemeral_public ← read_vec 32
  nonce ← read_vec 24
  wrapped_key ← read_vec 48
  pure (record {
    key_id = id;
    ephemeral_public = ephemeral_public;
    nonce = nonce;
    wrapped_key = wrapped_key;
  })

unfoldable pub read_recipient_slots : ℕ → Parser (List RecipientSlot)
read_recipient_slots zero = pure []
read_recipient_slots (suc n) = do
  slot ← read_recipient_slot
  slots ← read_recipient_slots n
  pure (slot ∷ slots)

unfoldable pub read_fallback_slot : Parser PasswordSlot
read_fallback_slot = do
  memory_kib ← read_u32
  iterations ← read_u32
  lanes ← read_u32
  salt ← read_vec 16
  nonce ← read_vec 24
  wrapped_key ← read_vec 48
  pure (record {
    memory_kib = memory_kib;
    iterations = iterations;
    lanes = lanes;
    salt = salt;
    nonce = nonce;
    wrapped_key = wrapped_key;
  })

unfoldable pub read_password : Bool → Parser (Option PasswordSlot)
read_password false = pure none
read_password true = do slot ← read_fallback_slot; pure (some slot)

-- The slots behind the prefix, and the check that nothing else is there.
unfoldable pub read_slots : ℕ → Bool → ℕ → Parser (List RecipientSlot × Option PasswordSlot)
read_slots recipient_count has_password slots_len = do
  recipients ← read_recipient_slots recipient_count
  password ← read_password has_password
  position ← stream_position
  lift (bail_if (not (position == slots_len)) unconsumed_header)
  pure (recipients, password)

-- Everything that `pack_recipient` draws at random.
pub record Randoms : Type 0 where
  pub archive_key : Bytes
  pub draw : ℕ → Bytes × Bytes
  pub password_salt : Bytes
  pub password_nonce : Bytes
  pub nonce_prefix : Bytes

module _ (c : Crypto) where
  -- What follows the prefix, once the length of the envelope is known.
  unfoldable pub read_body : Bytes → ℕ → Bool → ℕ → Result RecipientEnvelope
  read_body file recipient_count has_password header_len =
      bail_if (leb (length file) (header_len + 4)) missing_payload ⟫= λ _.
      read_at 0 header_len file ⟫= λ envelope_bytes.
      read_slots recipient_count has_password (header_len - prefix_size)
        (stream 0 (drop prefix_size envelope_bytes))
      ⟫= λ parsed. read_at header_len 4 file ⟫= λ payload_magic.
          bail_if (not (bytes_eq payload_magic keyed_magic)) not_keyed_payload ⟫= λ _. ok (record {
            recipients = parsed.0.0;
            password = parsed.0.1;
            payload_offset = header_len;
            envelope_hash = c.hash envelope_bytes;
          })

  unfoldable pub read_envelope : Bytes → Result RecipientEnvelope
  read_envelope file = read_at 0 prefix_size file ⟫= λ prefix. validate_prefix prefix ⟫= λ _.
      let recipient_count = from_le_bytes (slice 8 10 prefix) in
      let has_password = from_le_bytes (slice 6 8 prefix) % 2 == 1 in
      expected_header_len recipient_count has_password ⟫= λ header_len.
      bail_if (not (from_le_bytes (slice 12 16 prefix) == header_len)) header_len_mismatch ⟫= λ _.
      read_body file recipient_count has_password header_len

  unfoldable pub find_slot : List RecipientSlot → Bytes → Result RecipientSlot
  find_slot [] id = err slot_disappeared
  find_slot (slot ∷ slots) id = if bytes_eq slot.key_id id then ok slot else find_slot slots id

  unfoldable pub unlock_found :
      List RecipientSlot → Option RgxPrivateKey → Result (Option (Bytes × UnlockMethod))
  unlock_found slots none = ok none
  unlock_found slots (some key) = find_slot slots (key_id c key) ⟫= λ slot.
      unwrap_archive_key_for_recipient c slot key ⟫= λ archive_key.
      ok (some (archive_key, identity (key_id c key)))

  -- The files of the explicit and the default identities are given by their texts, and the passphrase
  -- is that of the environment.
  unfoldable pub try_unlock_identity :
      Bytes
      → Option Bytes
      → List (Option Bytes)
      → Option Bytes
      → Result (Option (Bytes × UnlockMethod))
  try_unlock_identity file explicit_identity candidates password = read_envelope file ⟫= λ envelope.
      find_matching_private_key c envelope.recipients explicit_identity candidates password
      ⟫= λ found. unlock_found envelope.recipients found

  unfoldable pub require_slot : Option PasswordSlot → Result PasswordSlot
  require_slot none = err no_password_fallback
  require_slot (some slot) = ok slot

  unfoldable pub unlock_password : Bytes → Bytes → Result (Bytes × UnlockMethod)
  unlock_password file password = read_envelope file ⟫= λ envelope.
      require_slot envelope.password ⟫= λ slot.
      unwrap_archive_key_with_password c slot password ⟫= λ archive_key.
      ok (archive_key, password_fallback)

  unfoldable pub has_password_fallback : Bytes → Result Bool
  has_password_fallback file = read_envelope file ⟫= λ envelope. ok (is_some envelope.password)

  unfoldable pub open_payload : Bytes → Bytes → Result (StreamKey × FrameReader)
  open_payload file archive_key = read_envelope file ⟫= λ envelope.
      open_stream envelope.payload_offset archive_key envelope.envelope_hash file

  -- The ephemeral secret and the nonce of the recipient at each place are random.
  unfoldable pub wrap_all :
      (ℕ → Bytes × Bytes) → Bytes → ℕ → List RgxPublicKey → Result (List RecipientSlot)
  wrap_all draw archive_key i [] = ok []
  wrap_all draw archive_key i (recipient ∷ recipients) =
      wrap_archive_key_for_recipient c (draw i).0 (draw i).1 archive_key recipient ⟫= λ slot.
      wrap_all draw archive_key (i + 1) recipients ⟫= λ slots. ok (slot ∷ slots)

  unfoldable pub wrap_fallback : Bytes → Bytes → Bytes → Option Bytes → Result (Option PasswordSlot)
  wrap_fallback salt nonce archive_key none = ok none
  wrap_fallback salt nonce archive_key (some password) =
      wrap_archive_key_with_password c salt nonce archive_key password ⟫= λ slot. ok (some slot)

  -- The file that is moved to the output, and the statistics. Whether the output and its directory
  -- exist, and what `reject_output_inside_input` finds in between, are arguments; the packer's output is
  -- written in one piece.
  unfoldable pub pack_recipient :
      External
      → Randoms
      → Bool
      → Result (Unit {0})
      → Bool
      → ℕ
      → List RgxPublicKey
      → Option Bytes
      → Option (List WalkEntry)
      → Result (Bytes × ArchiveInfo)
  pack_recipient x random exists inside directory_exists level recipients fallback_password walk =
      bail_if (length recipients == 0) no_recipients ⟫= λ _.
      bail_if (ltb max_recipients (length recipients)) too_many_recipients ⟫= λ _.
      bail_if exists output_exists ⟫= λ _. inside ⟫= λ _.
      bail_if (not directory_exists) output_missing ⟫= λ _.
      wrap_all random.draw random.archive_key 0 recipients ⟫= λ slots.
      wrap_fallback random.password_salt random.password_nonce random.archive_key fallback_password
      ⟫= λ password. encode_envelope slots password ⟫= λ envelope_bytes.
          let k = new_key random.archive_key random.nonce_prefix (c.hash envelope_bytes) in
          pack_to_writer x level walk ⟫= λ (packed : Bytes × ArchiveInfo).
          write c.aead k (start_writer c.aead k) packed.0 ⟫= λ w.
          finish c.aead k w ⟫= λ w'. ok (envelope_bytes ++ w'.out, packed.1)
