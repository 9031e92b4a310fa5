-- ===== src/RecipientArchive/Envelope.antt =====
-- The envelope of src/recipient_archive.rs is read as it was encoded.
use rgx.Common.{
  ℕ, ◌+◌, ◌-◌, ◌*◌, ◌%◌, ◌^◌, ◌≡◌, ◌≤◌, ◌<◌, refl, ap, sym, ◌∙◌, List, [], ◌∷◌, ◌++◌, append_assoc,
  append-nil, Option, none, some, false, not, Bytes, bytes_eq, le_bytes, length-le_bytes,
  from_le_bytes, from_le_bytes-le_bytes, All, length, length-append, drop, take-append, drop-append,
  leb, ◌==◌, eq→==, le→ltb, lt→leb, lt→ltb, ok, ok-injective, stream, bind_ok, bail_ok, arith,
  stream_position,
}
use rgx.Frames.Headers.{slice}
use rgx.Frames.Reader.{read_at}
use rgx.Frames.Stream.{read_at-append}
use rgx.Keyed.{keyed_magic}
use rgx.Recipient.{Crypto, RecipientSlot, PasswordSlot}
use rgx.RecipientArchive.{
  is_some, checked_usize, expected_header_len, encode_prefix, encode_recipient_slot,
  encode_recipient_slots, encode_password_slot, flags_of, encode_envelope, validate_prefix,
  read_vec, read_u32, read_recipient_slot, read_recipient_slots, read_fallback_slot, read_password,
  read_slots, read_body, read_envelope,
}

pub record IsRecipientSlot (slot : RecipientSlot) : Type 0 where
  pub key_id : length slot.key_id ≡ 16
  pub ephemeral_public : length slot.ephemeral_public ≡ 32
  pub nonce : length slot.nonce ≡ 24
  pub wrapped_key : length slot.wrapped_key ≡ 48

pub record IsPasswordSlot (slot : PasswordSlot) : Type 0 where
  pub memory_kib : slot.memory_kib < 256 ^ 4
  pub iterations : slot.iterations < 256 ^ 4
  pub lanes : slot.lanes < 256 ^ 4
  pub salt : length slot.salt ≡ 16
  pub nonce : length slot.nonce ≡ 24
  pub wrapped_key : length slot.wrapped_key ≡ 48

abbrev pub IsFallback : Option PasswordSlot → Type 0
IsFallback none = Unit {0}
IsFallback (some slot) = IsPasswordSlot slot

read_vec-append :
    (p n : ℕ) (xs ys : Bytes)
    → length xs ≡ n
    → read_vec n (stream p (xs ++ ys)) ≡ ok (xs, stream (p + n) ys)
unfolding read_vec
read_vec-append p n xs ys h = rw (
  ← h,
  le→ltb (length (xs ++ ys)) (length xs) (omega (arith, length-append xs ys)),
  take-append,
  drop-append,
)

read_u32-append :
    (p n : ℕ) (ys : Bytes)
    → n < 256 ^ 4
    → read_u32 (stream p (le_bytes 4 n ++ ys)) ≡ ok (n, stream (p + 4) ys)
unfolding read_u32
read_u32-append p n ys h =
    bind_ok _ _ _ (read_vec-append p 4 (le_bytes 4 n) ys (length-le_bytes 4 n))
      (rw (from_le_bytes-le_bytes 4 n h) refl)

read_recipient_slot-encode :
    (slot : RecipientSlot) (p : ℕ) (rest : Bytes)
    → IsRecipientSlot slot
    → read_recipient_slot (stream p (encode_recipient_slot slot ++ rest))
      ≡ ok (slot, stream (p + 120) rest)
unfolding read_recipient_slot encode_recipient_slot
read_recipient_slot-encode slot p rest v = simp append_assoc (
    bind_ok _ _ _ (read_vec-append p 16 slot.key_id _ v.key_id) (
      bind_ok _ _ _ (read_vec-append (p + 16) 32 slot.ephemeral_public _ v.ephemeral_public) (
        bind_ok _ _ _ (read_vec-append (p + 16 + 32) 24 slot.nonce _ v.nonce) (
          bind_ok _ _ _ (read_vec-append (p + 16 + 32 + 24) 48 slot.wrapped_key rest v.wrapped_key)
            (ground arith)))))

read_recipient_slots-encode :
    (slots : List RecipientSlot) (p : ℕ) (rest : Bytes)
    → All IsRecipientSlot slots
    → read_recipient_slots (length slots) (stream p (encode_recipient_slots slots ++ rest))
      ≡ ok (slots, stream (p + 120 * length slots) rest)
unfolding read_recipient_slots encode_recipient_slots
read_recipient_slots-encode [] p rest v = ground arith
read_recipient_slots-encode (slot ∷ slots) p rest v = simp append_assoc (
    bind_ok _ _ _ (read_recipient_slot-encode slot p _ v.0)
      (bind_ok _ _ _ (read_recipient_slots-encode slots (p + 120) rest v.1) (ground arith)))

read_fallback_slot-encode :
    (slot : PasswordSlot) (p : ℕ) (rest : Bytes)
    → IsPasswordSlot slot
    → read_fallback_slot (stream p (encode_password_slot (some slot) ++ rest))
      ≡ ok (slot, stream (p + 100) rest)
unfolding read_fallback_slot encode_password_slot
read_fallback_slot-encode slot p rest v = simp append_assoc (
    bind_ok _ _ _ (read_u32-append p slot.memory_kib _ v.memory_kib) (
      bind_ok _ _ _ (read_u32-append (p + 4) slot.iterations _ v.iterations) (
        bind_ok _ _ _ (read_u32-append (p + 4 + 4) slot.lanes _ v.lanes) (
          bind_ok _ _ _ (read_vec-append (p + 4 + 4 + 4) 16 slot.salt _ v.salt) (
            bind_ok _ _ _ (read_vec-append (p + 4 + 4 + 4 + 16) 24 slot.nonce _ v.nonce) (
              bind_ok _ _ _
                (read_vec-append (p + 4 + 4 + 4 + 16 + 24) 48 slot.wrapped_key rest v.wrapped_key)
                (ground arith)))))))

abbrev password_len : Option PasswordSlot → ℕ
password_len none = 0
password_len (some slot) = 100

read_password-encode :
    (password : Option PasswordSlot) (p : ℕ) (rest : Bytes)
    → IsFallback password
    → read_password (is_some password) (stream p (encode_password_slot password ++ rest))
      ≡ ok (password, stream (p + password_len password) rest)
unfolding read_password is_some encode_password_slot
read_password-encode none p rest v = ground arith
read_password-encode (some slot) p rest v =
    bind_ok _ _ _ (unfold encode_password_slot in read_fallback_slot-encode slot p rest v) refl

read_slots-encode :
    (slots : List RecipientSlot) (password : Option PasswordSlot) (n : ℕ)
    → All IsRecipientSlot slots
    → IsFallback password
    → 120 * length slots + password_len password ≡ n
    → read_slots
        (length slots)
        (is_some password)
        n
        (stream 0 (encode_recipient_slots slots ++ encode_password_slot password))
      ≡ ok ((slots, password), stream n [])
unfolding read_slots stream_position
read_slots-encode slots password n v w e = bind_ok _ _ _ (read_recipient_slots-encode slots 0 _ v) (
    bind_ok _ _ _
      (ap (λ (t : Bytes). read_password (is_some password) (stream (0 + 120 * length slots) t))
          (sym (append-nil (encode_password_slot password)))
        ∙ read_password-encode password (0 + 120 * length slots) [] w)
      (bind_ok _ _ _ refl
        (bind_ok _ _ _ (bail_ok _ _ _ (ap not (eq→== _ _ (omega (arith, e))))) (ground arith))))

password_len-most : (password : Option PasswordSlot) → password_len password ≤ 100
password_len-most none = omega arith
password_len-most (some slot) = omega arith

-- The length of the envelope of so many slots.
header_len_of : List RecipientSlot → Option PasswordSlot → ℕ
header_len_of slots password = 16 + length slots * 120 + password_len password

expected_header_len-slots :
    (slots : List RecipientSlot) (password : Option PasswordSlot)
    → length slots ≤ 64
    → expected_header_len (length slots) (is_some password) ≡ ok (header_len_of slots password)
unfolding expected_header_len checked_usize is_some header_len_of
expected_header_len-slots slots none h = ground arith
expected_header_len-slots slots (some slot) h = ground arith

module _ (flags n len : ℕ) (h : flags ≤ 1) (k : 1 ≤ n) (m : n ≤ 64) (l : len < 256 ^ 4) where
  validate_prefix-encode : validate_prefix (encode_prefix flags n len) ≡ ok tt
  unfolding validate_prefix encode_prefix le_bytes from_le_bytes bytes_eq
  validate_prefix-encode = ground arith

  slice-flags : from_le_bytes (slice 6 8 (encode_prefix flags n len)) ≡ flags
  unfolding encode_prefix le_bytes from_le_bytes
  slice-flags = omega arith

  slice-count : from_le_bytes (slice 8 10 (encode_prefix flags n len)) ≡ n
  unfolding encode_prefix le_bytes from_le_bytes
  slice-count = omega arith

  slice-len : from_le_bytes (slice 12 16 (encode_prefix flags n len)) ≡ len
  unfolding encode_prefix le_bytes
  slice-len = from_le_bytes-le_bytes 4 len l

length-encode_prefix : (flags n len : ℕ) → length (encode_prefix flags n len) ≡ 16
unfolding encode_prefix le_bytes
length-encode_prefix flags n len = refl

length-encode_recipient_slots :
    (slots : List RecipientSlot)
    → All IsRecipientSlot slots
    → length (encode_recipient_slots slots) ≡ length slots * 120
unfolding encode_recipient_slots encode_recipient_slot
length-encode_recipient_slots [] v = refl
length-encode_recipient_slots (slot ∷ slots) v = simp length-append (
    omega (
      arith,
      length-encode_recipient_slots slots v.1,
      v.0.key_id,
      v.0.ephemeral_public,
      v.0.nonce,
      v.0.wrapped_key,
    ))

length-encode_password_slot :
    (password : Option PasswordSlot)
    → IsFallback password
    → length (encode_password_slot password) ≡ password_len password
unfolding encode_password_slot
length-encode_password_slot none v = refl
length-encode_password_slot (some slot) v =
    simp (length-append, length-le_bytes) (omega (arith, v.salt, v.nonce, v.wrapped_key))

flags_of-range :
    (password : Option PasswordSlot)
    → (flags_of password ≤ 1) × ((flags_of password % 2 == 1) ≡ is_some password)
unfolding is_some
flags_of-range none = (omega arith, refl)
flags_of-range (some slot) = (omega arith, refl)

module _ (c : Crypto) (slots : List RecipientSlot) (password : Option PasswordSlot)
    (v : All IsRecipientSlot slots) (w : IsFallback password) (least : 1 ≤ length slots)
    (most : length slots ≤ 64) where
  slots_bytes : Bytes
  slots_bytes = encode_recipient_slots slots ++ encode_password_slot password

  envelope_of : Bytes
  envelope_of =
      encode_prefix (flags_of password) (length slots) (header_len_of slots password) ++ slots_bytes

  header_len-fits : header_len_of slots password < 256 ^ 4
  unfolding header_len_of
  header_len-fits = omega (arith, most, password_len-most password)

  length-envelope_of : length envelope_of ≡ header_len_of slots password
  unfolding envelope_of slots_bytes header_len_of
  length-envelope_of = simp length-append (
      omega (
        arith,
        length-encode_prefix (flags_of password) (length slots)
            (16 + length slots * 120 + password_len password),
        length-encode_recipient_slots slots v,
        length-encode_password_slot password w,
      ))

  encode_envelope-slots : encode_envelope slots password ≡ ok envelope_of
  unfolding encode_envelope envelope_of slots_bytes
  encode_envelope-slots =
      rw
        (
          expected_header_len-slots slots password most,
          lt→ltb _ _ header_len-fits,
          lt→ltb (length slots) (256 ^ 2) (omega (arith, most)),
        )
        refl

  drop-prefix : drop 16 envelope_of ≡ slots_bytes
  unfolding envelope_of encode_prefix le_bytes
  drop-prefix = refl

  read_body-encode :
      (payload : Bytes)
      → 1 ≤ length payload
      → read_body c
          (envelope_of ++ (keyed_magic ++ payload))
          (length slots)
          (is_some password)
          (header_len_of slots password)
        ≡ ok (record {
          recipients = slots;
          password = password;
          payload_offset = header_len_of slots password;
          envelope_hash = c.hash envelope_of;
        })
  unfolding read_body bytes_eq
  read_body-encode payload n =
      let len = header_len_of slots password in
      let file = envelope_of ++ (keyed_magic ++ payload) in
      let long : leb (length file) (len + 4) ≡ false = lt→leb (length file) (len + 4) (
        omega (arith, n, length-envelope_of, length-append envelope_of (keyed_magic ++ payload))) in
      let first : read_at 0 len file ≡ ok envelope_of =
        read_at-append [] envelope_of (keyed_magic ++ payload) 0 len refl length-envelope_of in
      let second : read_at len 4 file ≡ ok keyed_magic =
        read_at-append envelope_of keyed_magic payload len 4 length-envelope_of refl in
      let slots_read : read_slots (length slots) (is_some password) (len - 16)
            (stream 0 (drop 16 envelope_of))
          ≡ ok ((slots, password), stream (len - 16) []) =
        rw drop-prefix (
          unfold slots_bytes in
          read_slots-encode slots password (len - 16) v w (unfold header_len_of in omega arith)) in
      rw (long, first, slots_read, second) refl

  read_envelope-slots :
      (payload : Bytes)
      → 1 ≤ length payload
      → read_envelope c (envelope_of ++ (keyed_magic ++ payload))
        ≡ ok (record {
          recipients = slots;
          password = password;
          payload_offset = header_len_of slots password;
          envelope_hash = c.hash envelope_of;
        })
  unfolding read_envelope
  read_envelope-slots payload n =
      let flags = flags_of password in
      let count = length slots in
      let len = header_len_of slots password in
      let (f, has) = flags_of-range password in
      let prefix = encode_prefix flags count len in
      let first : read_at 0 16 (envelope_of ++ (keyed_magic ++ payload)) ≡ ok prefix =
        unfold envelope_of in
        rw (append_assoc prefix slots_bytes (keyed_magic ++ payload)) (
          read_at-append [] prefix (slots_bytes ++ (keyed_magic ++ payload)) 0 16 refl
            (length-encode_prefix flags count len)) in
      rw
        (
          first,
          validate_prefix-encode flags count len f least most header_len-fits,
          slice-flags flags count len f least most header_len-fits,
          slice-count flags count len f least most header_len-fits,
          slice-len flags count len f least most header_len-fits,
          has,
          expected_header_len-slots slots password most,
          eq→== len len refl,
        )
        (read_body-encode payload n)

-- `read_envelope` returns the slots that `encode_envelope` was given, from 1 to 64 of them and a
-- password slot or none, if their arrays have their lengths; with the length and the digest of the
-- encoded envelope. It reads a file where the envelope stands in front of a keyed payload, which is its
-- marker and a byte at least.
pub read_envelope-encode_envelope :
    (c : Crypto) (slots : List RecipientSlot) (password : Option PasswordSlot)
    (envelope_bytes payload : Bytes)
    → All IsRecipientSlot slots
    → IsFallback password
    → 1 ≤ length slots
    → length slots ≤ 64
    → 1 ≤ length payload
    → encode_envelope slots password ≡ ok envelope_bytes
    → read_envelope c (envelope_bytes ++ (keyed_magic ++ payload))
      ≡ ok (record {
        recipients = slots;
        password = password;
        payload_offset = length envelope_bytes;
        envelope_hash = c.hash envelope_bytes;
      })
read_envelope-encode_envelope c slots password envelope_bytes payload v w least most n h =
    let e = envelope_of c slots password v w least most in
    let same : e ≡ envelope_bytes =
      ok-injective (sym (encode_envelope-slots c slots password v w least most) ∙ h) in
    rw (← same, length-envelope_of c slots password v w least most)
      (read_envelope-slots c slots password v w least most payload n)
