-- ===== src/Recipient/KeyFiles/RoundTrip.antt =====
-- The key files of src/recipient.rs are loaded as they were saved.
use rgx.Common.{
  ◌≡◌, refl, ◌∙◌, Option, Bytes, All, All-take, drop, IsByte, ascii, length, length-take, arith, ok,
  bytes_eq, bytes_eq_refl,
}
use rgx.Text.{strip_label}
use rgx.Text.Hex.{hex_encode, hex_decode}
use rgx.Text.Hex.RoundTrip.{hex_encode-IsVisible, hex_decode-hex_encode}
use rgx.Text.Lines.{IsPrintable, IsVisible-IsPrintable}
use rgx.Recipient.{
  Crypto, IsCrypto, RgxPrivateKey, RgxPublicKey, public_key, public_key_id, key_id,
  signing_public_key, signing_key,
}
use rgx.Recipient.KeyFiles.{
  private_key_header, public_key_header, format_key_id, field, private_lines, private_text,
  public_text, public_lines, check_key_id, load_plain_private_key, load_private_key_with_password,
  load_public_key, load_signing_public_key, header_of,
}
use rgx.Recipient.KeyFiles.Fields.{
  is_visible_text-IsVisible, labelled-IsPrintable, find_field_here, find_field_later, field-unlines,
  header_of-unlines,
}

-- A secret of 32 bytes.
pub record IsPrivateKey (key : RgxPrivateKey) : Type 0 where
  pub secret_length : length key.secret ≡ 32
  pub secret_bytes : All IsByte key.secret

module _ (c : Crypto) (law : IsCrypto c) where
  pub length-key_id : (key : RgxPublicKey) → length (public_key_id c key) ≡ 16
  unfolding public_key_id
  length-key_id key = omega (arith, length-take 16 (c.hash key.public), law.hash_length key.public)

  pub key_id-IsByte : (key : RgxPublicKey) → All IsByte (public_key_id c key)
  unfolding public_key_id
  key_id-IsByte key = All-take IsByte 16 (c.hash key.public) (law.hash_bytes key.public)

  abbrev id_of : RgxPrivateKey → Bytes
  id_of key = public_key_id c (public_key c key)

  private_lines-IsPrintable :
      (key : RgxPrivateKey) → IsPrivateKey key → All (All IsPrintable) (private_lines c key)
  unfolding private_lines format_key_id key_id
  private_lines-IsPrintable key v = (
    IsVisible-IsPrintable private_key_header (is_visible_text-IsVisible private_key_header refl),
    (
      labelled-IsPrintable (ascii "X25519-Secret:") (hex_encode key.secret) refl
          (hex_encode-IsVisible key.secret v.secret_bytes),
      (
        labelled-IsPrintable (ascii "Key-ID:") (hex_encode (id_of key)) refl
            (hex_encode-IsVisible (id_of key) (key_id-IsByte (public_key c key))),
        tt,
      ),
    ),
  )

  module _ (key : RgxPrivateKey) (v : IsPrivateKey key) where
    private_header : header_of (private_text c key) ≡ private_key_header
    unfolding private_text private_lines
    private_header =
        header_of-unlines private_key_header (drop 1 (private_lines c key)) refl
          (private_lines-IsPrintable key v)

    private_secret :
        field (private_text c key) (ascii "X25519-Secret:") ≡ ok (hex_encode key.secret)
    unfolding private_text private_lines strip_label
    private_secret =
        field-unlines (private_lines c key) _ (private_lines-IsPrintable key v)
        ∙ find_field_later _ _ _ refl
        ∙ find_field_here _ (hex_encode key.secret) _
            (hex_encode-IsVisible key.secret v.secret_bytes)

    private_id : field (private_text c key) (ascii "Key-ID:") ≡ ok (hex_encode (key_id c key))
    unfolding private_text private_lines strip_label format_key_id key_id
    private_id =
        field-unlines (private_lines c key) _ (private_lines-IsPrintable key v)
        ∙ find_field_later _ _ _ refl
        ∙ find_field_later _ _ _ refl
        ∙ find_field_here _ (hex_encode (id_of key)) _
            (hex_encode-IsVisible (id_of key) (key_id-IsByte (public_key c key)))

    decoded_id : hex_decode 16 (hex_encode (key_id c key)) ≡ ok (key_id c key)
    unfolding key_id
    decoded_id =
        hex_decode-hex_encode 16 (id_of key) (key_id-IsByte (public_key c key))
          (length-key_id (public_key c key))

  pub load_private_key-private_text :
      (key : RgxPrivateKey) (password : Option Bytes)
      → IsPrivateKey key
      → load_private_key_with_password c (private_text c key) password ≡ ok key
  unfolding load_private_key_with_password load_plain_private_key check_key_id bytes_eq
  load_private_key-private_text key password v =
      rw
        (
          private_header key v,
          private_secret key v,
          hex_decode-hex_encode 32 key.secret v.secret_bytes v.secret_length,
          private_id key v,
          decoded_id key v,
          bytes_eq_refl (key_id c key),
        )
        refl

  public_lines-IsPrintable : (key : RgxPrivateKey) → All (All IsPrintable) (public_lines c key)
  unfolding public_lines format_key_id public_key signing_public_key
  public_lines-IsPrintable key = (
    IsVisible-IsPrintable public_key_header (is_visible_text-IsVisible public_key_header refl),
    (
      labelled-IsPrintable (ascii "X25519-Public:") (hex_encode (c.public_of key.secret)) refl
          (hex_encode-IsVisible _ (law.public_bytes key.secret)),
      (
        labelled-IsPrintable (ascii "Ed25519-Public:") (hex_encode (signing_public_key c key)) refl
            (hex_encode-IsVisible _ (law.verifying_bytes (signing_key c key))),
        (
          labelled-IsPrintable (ascii "Key-ID:") (hex_encode (id_of key)) refl
              (hex_encode-IsVisible (id_of key) (key_id-IsByte (public_key c key))),
          tt,
        ),
      ),
    ),
  )

  module _ (key : RgxPrivateKey) where
    public_header : header_of (public_text c key) ≡ public_key_header
    unfolding public_text public_lines
    public_header =
        header_of-unlines public_key_header (drop 1 (public_lines c key)) refl
          (public_lines-IsPrintable key)

    public_field :
        field (public_text c key) (ascii "X25519-Public:")
        ≡ ok (hex_encode (c.public_of key.secret))
    unfolding public_text public_lines strip_label public_key
    public_field =
        field-unlines (public_lines c key) _ (public_lines-IsPrintable key)
        ∙ find_field_later _ _ _ refl
        ∙ find_field_here _ (hex_encode (c.public_of key.secret)) _
            (hex_encode-IsVisible _ (law.public_bytes key.secret))

    signing_field :
        field (public_text c key) (ascii "Ed25519-Public:")
        ≡ ok (hex_encode (c.verifying_of (signing_key c key)))
    unfolding public_text public_lines strip_label signing_public_key
    signing_field =
        field-unlines (public_lines c key) _ (public_lines-IsPrintable key)
        ∙ find_field_later _ _ _ refl
        ∙ find_field_later _ _ _ refl
        ∙ find_field_here _ (hex_encode (c.verifying_of (signing_key c key))) _
            (hex_encode-IsVisible _ (law.verifying_bytes (signing_key c key)))

  pub load_public_key-public_text :
      (key : RgxPrivateKey)
      → (load_public_key c (public_text c key) ≡ ok (public_key c key))
        × (load_signing_public_key c (public_text c key) ≡ ok (signing_public_key c key))
  unfolding load_public_key load_signing_public_key bytes_eq public_key signing_public_key
  load_public_key-public_text key = (
    rw
        (
          public_header key,
          public_field key,
          hex_decode-hex_encode 32 (c.public_of key.secret) (law.public_bytes _)
              (law.public_length _),
        )
        refl,
    rw
        (
          public_header key,
          signing_field key,
          hex_decode-hex_encode 32 (c.verifying_of (signing_key c key)) (law.verifying_bytes _)
              (law.verifying_length _),
          law.verifying_valid (signing_key c key),
        )
        refl,
  )
