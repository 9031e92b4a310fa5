-- ===== src/Recipient/KeyFiles/Protected.antt =====
-- The protected key files of src/recipient.rs are loaded as they were saved.
use rgx.Common.{
  ◌^◌, ◌≡◌, refl, ap, ◌∙◌, List, some, Option-cases, inl, inr, false, not, Bytes, All, IsByte,
  ascii, length, drop, arith, ok, err-ne-ok, ⟫=-eq-ok, bytes_eq, bytes_eq_refl, ◌==◌, ==_iff,
  bail_if, bail_if-eq-ok, ok-injective, subst,
}
use rgx.Text.{strip_label}
use rgx.Text.Hex.{hex_encode}
use rgx.Text.Hex.RoundTrip.{hex_encode-IsVisible, hex_decode-hex_encode}
use rgx.Text.Decimal.{decimal, decimal-IsVisible, parse_unsigned-decimal}
use rgx.Text.Lines.{IsPrintable, unlines, IsVisible-IsPrintable}
use rgx.Archive.Read.Checked.{not-false}
use rgx.Recipient.{
  Crypto, IsCrypto, RgxPrivateKey, public_key, public_key_id, key_id, argon2_memory_kib,
  argon2_iterations, argon2_lanes, derive_argon2_key, seal_key, open_key, private_key_file_aad,
  validate_password_parameters, is_empty_text,
}
use rgx.Recipient.Unwrap.{open_key-seal_key}
use rgx.Recipient.KeyFiles.{
  protected_private_key_header, format_key_id, field, parse_u32_field, number_or_error,
  protected_lines, protect_private_key, require_passphrase, load_protected_private_key,
  load_private_key_with_password, header_of,
}
use rgx.Recipient.KeyFiles.Fields.{
  is_visible_text-IsVisible, labelled-IsPrintable, find_field_here, find_field_later, field-unlines,
  header_of-unlines,
}
use rgx.Recipient.KeyFiles.RoundTrip.{IsPrivateKey, length-key_id, key_id-IsByte}

-- What stands in a protected file, of the lengths that the arrays have.
record IsSealed (salt nonce ciphertext : Bytes) : Type 0 where
  salt_length : length salt ≡ 16
  salt_bytes : All IsByte salt
  nonce_length : length nonce ≡ 24
  nonce_bytes : All IsByte nonce
  ciphertext_length : length ciphertext ≡ 48
  ciphertext_bytes : All IsByte ciphertext

module _ (c : Crypto) (law : IsCrypto c) where
  abbrev id_of : RgxPrivateKey → Bytes
  id_of key = public_key_id c (public_key c key)

  sealed_bytes :
      (wrap_key nonce msg aad d : Bytes)
      → seal_key c wrap_key nonce msg aad ≡ ok d
      → (length d ≡ 48) × All IsByte d
  unfolding seal_key
  sealed_bytes wrap_key nonce msg aad d h =
      elim (Option-cases (c.aead.encrypt wrap_key nonce msg aad)) [
        | inl e ↦ absurd (err-ne-ok (rw (e, seal_key) at h))
        | inr (ciphertext, e) ↦
            let (u, e1, h1) =
              ⟫=-eq-ok (bail_if (not (length ciphertext == 48)) _) _ (rw (e, seal_key) at h) in
            let len = (==_iff (length ciphertext) 48).0 (not-false _ (bail_if-eq-ok _ _ e1)) in
            subst (λ (t : Bytes). (length t ≡ 48) × All IsByte t) (ok-injective h1)
              (len, law.encrypt_bytes wrap_key nonce msg aad ciphertext e)
      ]

  module _ (key : RgxPrivateKey) (salt nonce ciphertext : Bytes)
      (v : IsSealed salt nonce ciphertext) where
    abbrev file_lines : List Bytes
    file_lines = protected_lines c key salt nonce ciphertext

    printable : All (All IsPrintable) file_lines
    unfolding protected_lines format_key_id key_id public_key
    printable = (
      IsVisible-IsPrintable protected_private_key_header
          (is_visible_text-IsVisible protected_private_key_header refl),
      (
        labelled-IsPrintable (ascii "Key-ID:") (hex_encode (id_of key)) refl
            (hex_encode-IsVisible (id_of key) (key_id-IsByte c law (public_key c key))),
        (
          labelled-IsPrintable (ascii "X25519-Public:") (hex_encode (c.public_of key.secret)) refl
              (hex_encode-IsVisible (c.public_of key.secret) (law.public_bytes key.secret)),
          (
            labelled-IsPrintable (ascii "Argon2-Memory-KiB:") (decimal argon2_memory_kib) refl
                (decimal-IsVisible argon2_memory_kib),
            (
              labelled-IsPrintable (ascii "Argon2-Iterations:") (decimal argon2_iterations) refl
                  (decimal-IsVisible argon2_iterations),
              (
                labelled-IsPrintable (ascii "Argon2-Lanes:") (decimal argon2_lanes) refl
                    (decimal-IsVisible argon2_lanes),
                (
                  labelled-IsPrintable (ascii "Salt:") (hex_encode (salt)) refl
                      (hex_encode-IsVisible salt v.salt_bytes),
                  (
                    labelled-IsPrintable (ascii "Nonce:") (hex_encode (nonce)) refl
                        (hex_encode-IsVisible nonce v.nonce_bytes),
                    (
                      labelled-IsPrintable (ascii "Ciphertext:") (hex_encode (ciphertext)) refl
                          (hex_encode-IsVisible ciphertext v.ciphertext_bytes),
                      tt,
                    ),
                  ),
                ),
              ),
            ),
          ),
        ),
      ),
    )

    protected_header : header_of (unlines file_lines) ≡ protected_private_key_header
    unfolding protected_lines
    protected_header =
        header_of-unlines protected_private_key_header (drop 1 file_lines) refl printable

    id_field : field (unlines file_lines) (ascii "Key-ID:") ≡ ok (hex_encode (id_of key))
    unfolding protected_lines strip_label format_key_id key_id public_key
    id_field =
        field-unlines file_lines _ printable
        ∙ find_field_later _ _ _ refl
        ∙ find_field_here _ (hex_encode (id_of key)) _
            (hex_encode-IsVisible (id_of key) (key_id-IsByte c law (public_key c key)))

    public_field :
        field (unlines file_lines) (ascii "X25519-Public:")
        ≡ ok (hex_encode (c.public_of key.secret))
    unfolding protected_lines strip_label format_key_id key_id public_key
    public_field =
        field-unlines file_lines _ printable
        ∙ find_field_later _ _ _ refl
        ∙ find_field_later _ _ _ refl
        ∙ find_field_here _ (hex_encode (c.public_of key.secret)) _
            (hex_encode-IsVisible (c.public_of key.secret) (law.public_bytes key.secret))

    memory_field :
        parse_u32_field (unlines file_lines) (ascii "Argon2-Memory-KiB:") ≡ ok argon2_memory_kib
    unfolding protected_lines strip_label parse_u32_field number_or_error
    memory_field =
        let found : field (unlines file_lines) (ascii "Argon2-Memory-KiB:")
            ≡ ok (decimal argon2_memory_kib) =
          field-unlines file_lines _ printable
          ∙ find_field_later _ _ _ refl
          ∙ find_field_later _ _ _ refl
          ∙ find_field_later _ _ _ refl
          ∙ find_field_here _ (decimal argon2_memory_kib) _ (decimal-IsVisible argon2_memory_kib) in
        rw found (
          ap number_or_error
            (parse_unsigned-decimal (2 ^ 32) argon2_memory_kib (omega arith) (omega arith)))

    iterations_field :
        parse_u32_field (unlines file_lines) (ascii "Argon2-Iterations:") ≡ ok argon2_iterations
    unfolding protected_lines strip_label parse_u32_field number_or_error
    iterations_field =
        let found : field (unlines file_lines) (ascii "Argon2-Iterations:")
            ≡ ok (decimal argon2_iterations) =
          field-unlines file_lines _ printable
          ∙ find_field_later _ _ _ refl
          ∙ find_field_later _ _ _ refl
          ∙ find_field_later _ _ _ refl
          ∙ find_field_later _ _ _ refl
          ∙ find_field_here _ (decimal argon2_iterations) _ (decimal-IsVisible argon2_iterations) in
        rw found (
          ap number_or_error
            (parse_unsigned-decimal (2 ^ 32) argon2_iterations (omega arith) (omega arith)))

    lanes_field : parse_u32_field (unlines file_lines) (ascii "Argon2-Lanes:") ≡ ok argon2_lanes
    unfolding protected_lines strip_label parse_u32_field number_or_error
    lanes_field =
        let found : field (unlines file_lines) (ascii "Argon2-Lanes:") ≡ ok (decimal argon2_lanes) =
          field-unlines file_lines _ printable
          ∙ find_field_later _ _ _ refl
          ∙ find_field_later _ _ _ refl
          ∙ find_field_later _ _ _ refl
          ∙ find_field_later _ _ _ refl
          ∙ find_field_later _ _ _ refl
          ∙ find_field_here _ (decimal argon2_lanes) _ (decimal-IsVisible argon2_lanes) in
        rw found (
          ap number_or_error
            (parse_unsigned-decimal (2 ^ 32) argon2_lanes (omega arith) (omega arith)))

    salt_field : field (unlines file_lines) (ascii "Salt:") ≡ ok (hex_encode (salt))
    unfolding protected_lines strip_label format_key_id key_id public_key
    salt_field =
        field-unlines file_lines _ printable
        ∙ find_field_later _ _ _ refl
        ∙ find_field_later _ _ _ refl
        ∙ find_field_later _ _ _ refl
        ∙ find_field_later _ _ _ refl
        ∙ find_field_later _ _ _ refl
        ∙ find_field_later _ _ _ refl
        ∙ find_field_here _ (hex_encode (salt)) _ (hex_encode-IsVisible salt v.salt_bytes)

    nonce_field : field (unlines file_lines) (ascii "Nonce:") ≡ ok (hex_encode (nonce))
    unfolding protected_lines strip_label format_key_id key_id public_key
    nonce_field =
        field-unlines file_lines _ printable
        ∙ find_field_later _ _ _ refl
        ∙ find_field_later _ _ _ refl
        ∙ find_field_later _ _ _ refl
        ∙ find_field_later _ _ _ refl
        ∙ find_field_later _ _ _ refl
        ∙ find_field_later _ _ _ refl
        ∙ find_field_later _ _ _ refl
        ∙ find_field_here _ (hex_encode (nonce)) _ (hex_encode-IsVisible nonce v.nonce_bytes)

    ciphertext_field :
        field (unlines file_lines) (ascii "Ciphertext:") ≡ ok (hex_encode (ciphertext))
    unfolding protected_lines strip_label format_key_id key_id public_key
    ciphertext_field =
        field-unlines file_lines _ printable
        ∙ find_field_later _ _ _ refl
        ∙ find_field_later _ _ _ refl
        ∙ find_field_later _ _ _ refl
        ∙ find_field_later _ _ _ refl
        ∙ find_field_later _ _ _ refl
        ∙ find_field_later _ _ _ refl
        ∙ find_field_later _ _ _ refl
        ∙ find_field_later _ _ _ refl
        ∙ find_field_here _ (hex_encode (ciphertext)) _
            (hex_encode-IsVisible ciphertext v.ciphertext_bytes)

    -- The file is loaded as the key, where its ciphertext opens to the secret.
    loaded :
        (password wrap_key : Bytes)
        → is_empty_text password ≡ false
        → derive_argon2_key c password salt argon2_memory_kib argon2_iterations argon2_lanes
          ≡ ok wrap_key
        → open_key c wrap_key nonce ciphertext (
            private_key_file_aad
              (id_of key)
              (c.public_of key.secret)
              salt
              argon2_memory_kib
              argon2_iterations
              argon2_lanes)
          ≡ ok key.secret
        → load_private_key_with_password c (unlines file_lines) (some password) ≡ ok key
    unfolding load_private_key_with_password load_protected_private_key require_passphrase
        validate_password_parameters bytes_eq
    loaded password wrap_key filled derived opened =
        rw
          (
            protected_header,
            filled,
            id_field,
            hex_decode-hex_encode 16 (id_of key) (key_id-IsByte c law _) (length-key_id c law _),
            public_field,
            hex_decode-hex_encode 32 (c.public_of key.secret) (law.public_bytes _)
                (law.public_length _),
            memory_field,
            iterations_field,
            lanes_field,
            salt_field,
            hex_decode-hex_encode 16 salt v.salt_bytes v.salt_length,
            nonce_field,
            hex_decode-hex_encode 24 nonce v.nonce_bytes v.nonce_length,
            ciphertext_field,
            hex_decode-hex_encode 48 ciphertext v.ciphertext_bytes v.ciphertext_length,
            derived,
            opened,
          )
          (unfold public_key key_id in
            rw (bytes_eq_refl (c.public_of key.secret), bytes_eq_refl (id_of key)) refl)

  pub load_private_key-protect_private_key :
      (key : RgxPrivateKey) (salt nonce password text : Bytes)
      → IsPrivateKey key
      → length salt ≡ 16
      → All IsByte salt
      → length nonce ≡ 24
      → All IsByte nonce
      → protect_private_key c salt nonce key password ≡ ok text
      → load_private_key_with_password c text (some password) ≡ ok key
  unfolding protect_private_key public_key key_id
  load_private_key-protect_private_key key salt nonce password text v sl sb nl nb h =
      let (u, e1, h1) = ⟫=-eq-ok (bail_if (is_empty_text password) _) _ h in
      let (wrap_key, e2, h2) =
        ⟫=-eq-ok
          (derive_argon2_key c password salt argon2_memory_kib argon2_iterations argon2_lanes) _
          h1 in
      let (ciphertext, e3, h3) = ⟫=-eq-ok (seal_key c wrap_key nonce key.secret _) _ h2 in
      let (len, bytes) = sealed_bytes wrap_key nonce key.secret _ ciphertext e3 in
      subst (λ t. load_private_key_with_password c t (some password) ≡ ok key) (ok-injective h3)
        (loaded key salt nonce ciphertext
          (record {
            salt_length = sl;
            salt_bytes = sb;
            nonce_length = nl;
            nonce_bytes = nb;
            ciphertext_length = len;
            ciphertext_bytes = bytes;
          })
          password wrap_key (bail_if-eq-ok _ _ e1) e2
          (open_key-seal_key c law wrap_key nonce key.secret _ ciphertext v.secret_length e3))
