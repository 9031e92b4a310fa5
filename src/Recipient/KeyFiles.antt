-- ===== src/Recipient/KeyFiles.antt =====
-- src/recipient.rs: the texts of key files. Whether a file exists, what it holds and the passphrase
-- are arguments.
pub mod Fields
pub mod RoundTrip
pub mod Protected
pub mod Saved
use rgx.Common.{
  ℕ, ◌^◌, List, [], ◌∷◌, ◌++◌, Option, none, some, Bool, true, false, not, ◌||◌, Bytes, bytes_eq,
  ascii, if◌then◌else◌, Result, ok, err, bail_if, ◌⟫=◌, missing_field, bad_number,
  key_metadata_mismatch, unsupported_key_file, key_file_truncated, passphrase_required,
  empty_password, no_signing_key, bad_signing_key, identity_mismatch, key_exists,
}
use rgx.Text.{lines, strip_label, trim, parse_unsigned}
use rgx.Text.Hex.{hex_encode, hex_decode}
use rgx.Text.Decimal.{decimal}
use rgx.Text.Lines.{unlines}
use rgx.Recipient.{
  Crypto, RgxPrivateKey, RgxPublicKey, RecipientSlot, public_key, public_key_id, key_id,
  signing_public_key, derive_argon2_key, seal_key, open_key, private_key_file_aad,
  validate_password_parameters, argon2_memory_kib, argon2_iterations, argon2_lanes, is_empty_text,
  wrapped_key_len,
}

abbrev pub private_key_header : Bytes
private_key_header = ascii "RGX-PRIVATE-KEY-2"

abbrev pub public_key_header : Bytes
public_key_header = ascii "RGX-PUBLIC-KEY-2"

abbrev pub protected_private_key_header : Bytes
protected_private_key_header = ascii "RGX-PRIVATE-KEY-2-ENCRYPTED"

abbrev pub legacy_private_key_header : Bytes
legacy_private_key_header = ascii "RGX-PRIVATE-KEY-1"

abbrev pub legacy_public_key_header : Bytes
legacy_public_key_header = ascii "RGX-PUBLIC-KEY-1"

unfoldable pub format_key_id : Bytes → Bytes
format_key_id id = hex_encode id

-- `text.lines().next().unwrap_or_default().trim()`
unfoldable pub first_line : List Bytes → Bytes
first_line [] = []
first_line (line ∷ rest) = trim line

unfoldable pub header_of : Bytes → Bytes
header_of text = first_line (lines text)

unfoldable pub find_field : Bytes → List Bytes → Result Bytes
find_field label [] = err missing_field
find_field label (line ∷ rest) = elim (strip_label label line) [
  | some value ↦ ok (trim value)
  | none ↦ find_field label rest
]

unfoldable pub field : Bytes → Bytes → Result Bytes
field text label = find_field label (lines text)

unfoldable pub number_or_error : Option ℕ → Result ℕ
number_or_error none = err bad_number
number_or_error (some n) = ok n

unfoldable pub parse_u32_field : Bytes → Bytes → Result ℕ
parse_u32_field text label =
    field text label ⟫= λ value. number_or_error (parse_unsigned (2 ^ 32) value)

unfoldable pub second_line : List Bytes → Result Bytes
second_line [] = err key_file_truncated
second_line (line ∷ []) = err key_file_truncated
second_line (line ∷ (next ∷ rest)) = ok (trim next)

unfoldable pub parse_legacy_key_file : Bytes → Bytes → Result Bytes
parse_legacy_key_file text expected_header =
    bail_if (not (bytes_eq (header_of text) expected_header)) unsupported_key_file ⟫= λ _.
    second_line (lines text) ⟫= λ encoded. hex_decode 32 encoded

-- A label, a space and the value, as `format!` writes them.
abbrev pub labelled : Bytes → Bytes → Bytes
labelled label value = label ++ (b' ' ∷ value)

module _ (c : Crypto) where
  -- The private file of `save_keypair`.
  unfoldable pub private_lines : RgxPrivateKey → List Bytes
  private_lines key =
      private_key_header
      ∷ (labelled (ascii "X25519-Secret:") (hex_encode key.secret)
          ∷ (labelled (ascii "Key-ID:") (format_key_id (key_id c key)) ∷ []))

  unfoldable pub private_text : RgxPrivateKey → Bytes
  private_text key = unlines (private_lines key)

  -- The private file of `save_keypair_protected`, under a random salt and nonce.
  unfoldable pub protected_lines : RgxPrivateKey → Bytes → Bytes → Bytes → List Bytes
  protected_lines key salt nonce ciphertext =
      protected_private_key_header
      ∷ (labelled (ascii "Key-ID:") (format_key_id (key_id c key))
          ∷ (labelled (ascii "X25519-Public:") (hex_encode (public_key c key).public)
              ∷ (labelled (ascii "Argon2-Memory-KiB:") (decimal argon2_memory_kib)
                  ∷ (labelled (ascii "Argon2-Iterations:") (decimal argon2_iterations)
                      ∷ (labelled (ascii "Argon2-Lanes:") (decimal argon2_lanes)
                          ∷ (labelled (ascii "Salt:") (hex_encode salt)
                              ∷ (labelled (ascii "Nonce:") (hex_encode nonce)
                                  ∷ (labelled (ascii "Ciphertext:") (hex_encode ciphertext)
                                      ∷ []))))))))

  unfoldable pub protect_private_key : Bytes → Bytes → RgxPrivateKey → Bytes → Result Bytes
  protect_private_key salt nonce key password =
      bail_if (is_empty_text password) empty_password ⟫= λ _.
      derive_argon2_key c password salt argon2_memory_kib argon2_iterations argon2_lanes
      ⟫= λ wrap_key.
          seal_key c wrap_key nonce key.secret (
            private_key_file_aad (key_id c key) (public_key c key).public salt argon2_memory_kib
              argon2_iterations argon2_lanes)
          ⟫= λ ciphertext. ok (unlines (protected_lines key salt nonce ciphertext))

  unfoldable pub public_lines : RgxPrivateKey → List Bytes
  public_lines key =
      public_key_header
      ∷ (labelled (ascii "X25519-Public:") (hex_encode (public_key c key).public)
          ∷ (labelled (ascii "Ed25519-Public:") (hex_encode (signing_public_key c key))
              ∷ (labelled (ascii "Key-ID:") (format_key_id (public_key_id c (public_key c key)))
                  ∷ [])))

  -- The public file of `save_keypair_text`.
  unfoldable pub public_text : RgxPrivateKey → Bytes
  public_text key = unlines (public_lines key)

  -- The contents of the two files, private and public, if neither exists. Making the directory, the mode
  -- of the private file, the failures of the file system and what they leave are left out.
  unfoldable pub save_keypair_text : Bool → Bool → RgxPrivateKey → Bytes → Result (Bytes × Bytes)
  save_keypair_text private_exists public_exists key text =
      bail_if private_exists key_exists ⟫= λ _.
      bail_if public_exists key_exists ⟫= λ _. ok (text, public_text key)

  unfoldable pub save_keypair : Bool → Bool → RgxPrivateKey → Result (Bytes × Bytes)
  save_keypair private_exists public_exists key =
      save_keypair_text private_exists public_exists key (private_text key)

  unfoldable pub save_keypair_protected :
      Bytes → Bytes → Bool → Bool → RgxPrivateKey → Bytes → Result (Bytes × Bytes)
  save_keypair_protected salt nonce private_exists public_exists key password =
      protect_private_key salt nonce key password ⟫= λ text.
      save_keypair_text private_exists public_exists key text

  -- A file without the field is accepted.
  unfoldable pub check_key_id : RgxPrivateKey → Result Bytes → Result RgxPrivateKey
  check_key_id key (err e) = ok key
  check_key_id key (ok encoded_id) = hex_decode 16 encoded_id ⟫= λ id.
      bail_if (not (bytes_eq (key_id c key) id)) key_metadata_mismatch ⟫= λ _. ok key

  unfoldable pub load_plain_private_key : Bytes → Result RgxPrivateKey
  load_plain_private_key text = field text (ascii "X25519-Secret:") ⟫= λ encoded.
      hex_decode 32 encoded ⟫= λ bytes.
      check_key_id (record { secret = bytes }) (field text (ascii "Key-ID:"))

  unfoldable pub require_passphrase : Option Bytes → Result Bytes
  require_passphrase none = err passphrase_required
  require_passphrase (some password) =
      bail_if (is_empty_text password) empty_password ⟫= λ _. ok password

  unfoldable pub load_protected_private_key : Bytes → Option Bytes → Result RgxPrivateKey
  load_protected_private_key text passphrase = require_passphrase passphrase ⟫= λ password.
      field text (ascii "Key-ID:") ⟫= λ f0. hex_decode 16 f0 ⟫= λ id.
      field text (ascii "X25519-Public:") ⟫= λ f1. hex_decode 32 f1 ⟫= λ public.
      parse_u32_field text (ascii "Argon2-Memory-KiB:") ⟫= λ memory_kib.
      parse_u32_field text (ascii "Argon2-Iterations:") ⟫= λ iterations.
      parse_u32_field text (ascii "Argon2-Lanes:") ⟫= λ lanes. field text (ascii "Salt:") ⟫= λ f5.
      hex_decode 16 f5 ⟫= λ salt. field text (ascii "Nonce:") ⟫= λ f6. hex_decode 24 f6 ⟫= λ nonce.
      field text (ascii "Ciphertext:") ⟫= λ f7. hex_decode wrapped_key_len f7 ⟫= λ ciphertext.
      validate_password_parameters memory_kib iterations lanes ⟫= λ _.
      derive_argon2_key c password salt memory_kib iterations lanes ⟫= λ wrap_key.
      open_key c wrap_key nonce ciphertext
        (private_key_file_aad id public salt memory_kib iterations lanes)
      ⟫= λ secret.
          let key : RgxPrivateKey = record { secret = secret } in
          bail_if
            (not (bytes_eq (public_key c key).public public) || not (bytes_eq (key_id c key) id))
            key_metadata_mismatch
          ⟫= λ _. ok key

  unfoldable pub load_private_key_with_password : Bytes → Option Bytes → Result RgxPrivateKey
  load_private_key_with_password text password =
      let header = header_of text in
      if bytes_eq header legacy_private_key_header
      then (parse_legacy_key_file text legacy_private_key_header ⟫= λ bytes.
          ok (record { secret = bytes }))
      else if bytes_eq header private_key_header
      then load_plain_private_key text
      else if bytes_eq header protected_private_key_header
      then load_protected_private_key text password
      else err unsupported_key_file

  unfoldable pub private_key_is_protected : Bytes → Bool
  private_key_is_protected text = bytes_eq (header_of text) protected_private_key_header

  unfoldable pub load_public_key : Bytes → Result RgxPublicKey
  load_public_key text =
      let header = header_of text in
      (if bytes_eq header legacy_public_key_header
        then parse_legacy_key_file text legacy_public_key_header
        else if bytes_eq header public_key_header
        then (field text (ascii "X25519-Public:") ⟫= λ encoded. hex_decode 32 encoded)
        else err unsupported_key_file)
      ⟫= λ bytes. ok (record { public = bytes })

  unfoldable pub load_signing_public_key : Bytes → Result Bytes
  load_signing_public_key text =
      bail_if (not (bytes_eq (header_of text) public_key_header)) no_signing_key ⟫= λ _.
      field text (ascii "Ed25519-Public:") ⟫= λ encoded. hex_decode 32 encoded ⟫= λ bytes.
      if c.is_verifying bytes then ok bytes else err bad_signing_key

  unfoldable pub protected_key_id : Bytes → Result Bytes
  protected_key_id text = bail_if (not (private_key_is_protected text)) unsupported_key_file ⟫= λ _.
      field text (ascii "Key-ID:") ⟫= λ encoded. hex_decode 16 encoded

  unfoldable pub any_slot : List RecipientSlot → Bytes → Bool
  any_slot [] id = false
  any_slot (slot ∷ slots) id = bytes_eq slot.key_id id || any_slot slots id

  -- The key that is loaded decides whether the file is of a recipient. The path is left out.
  unfoldable pub explicit_private_key :
      List RecipientSlot → Bytes → Option Bytes → Result RgxPrivateKey
  explicit_private_key slots text password = load_private_key_with_password text password ⟫= λ key.
      if any_slot slots (key_id c key) then ok key else err identity_mismatch

  -- What a candidate that could not be loaded means: its error, if it is the protected key of a slot.
  unfoldable pub blocked : List RecipientSlot → Bytes → Bool
  blocked slots text =
      if private_key_is_protected text
      then (elim (protected_key_id text) [ err e ↦ false | ok id ↦ any_slot slots id ])
      else false

  -- The loop over the default candidates, each with the text of its file where it is one.
  unfoldable pub try_candidates :
      List RecipientSlot → List (Option Bytes) → Option Bytes → Result (Option RgxPrivateKey)
  try_candidates slots [] password = ok none
  try_candidates slots (none ∷ candidates) password = try_candidates slots candidates password
  try_candidates slots (some text ∷ candidates) password =
      let rest = try_candidates slots candidates password in
      elim (load_private_key_with_password text password) [
        | ok key ↦ if any_slot slots (key_id c key) then ok (some key) else rest
        | err e ↦ if blocked slots text then err e else rest
      ]

  unfoldable pub find_matching_private_key :
      List RecipientSlot
      → Option Bytes
      → List (Option Bytes)
      → Option Bytes
      → Result (Option RgxPrivateKey)
  find_matching_private_key slots none candidates password =
      try_candidates slots candidates password
  find_matching_private_key slots (some text) candidates password =
      explicit_private_key slots text password ⟫= λ key. ok (some key)
