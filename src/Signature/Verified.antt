-- ===== src/Signature/Verified.antt =====
-- `verify_archive_signature` of src/signature.rs accepts what `sign_archive` wrote, and nothing whose
-- length, digest or signature differs.
use rgx.Common.{
  ℕ, ◌^◌, ◌≡◌, ◌≢◌, ◌<◌, refl, ap, Bool, true, false, not, ◌||◌, Bytes, bytes_eq, bytes_eq_refl,
  bytes_eq→eq, bytes_ne, Bool-cases, inl, inr, length, ltb, lt→ltb, ltb→lt, ◌==◌, eq→==, ==_iff,
  signature_failed, signature_key_mismatch, ok, err, bail_if, bail_if-eq-ok, ◌⟫=◌, ⟫=-eq-ok,
  ok-injective, err-ne-ok, archive_changed,
}
use rgx.Text.Lines.{unlines}
use rgx.Recipient.{
  Crypto, IsCrypto, RgxPrivateKey, public_key, key_id, public_key_id, signing_key,
  signing_public_key,
}
use rgx.Recipient.KeyFiles.{public_text, load_public_key, load_signing_public_key}
use rgx.Recipient.KeyFiles.RoundTrip.{length-key_id, key_id-IsByte, load_public_key-public_text}
use rgx.Signature.{
  SignatureInfo, SignatureRecord, signature_message, signature_lines, parse_signature, hash_archive,
  sign_archive, verify_archive_signature,
}
use rgx.Signature.RoundTrip.{IsSignatureRecord, parse_signature-signature_lines}

or_true : (b : Bool) → (b || true) ≡ true
or_true true = refl
or_true false = refl

module _ (c : Crypto) (law : IsCrypto c) where
  -- The record that `sign_archive` formats.
  abbrev record_of : Bytes → RgxPrivateKey → SignatureRecord
  record_of archive key = record {
    key_id = key_id c key;
    archive_len = length archive;
    archive_hash = c.hash archive;
    signature = c.sign (signing_key c key) (signature_message (length archive) (c.hash archive));
  }

  abbrev info_of : Bytes → RgxPrivateKey → SignatureInfo
  info_of archive key = record {
    key_id = key_id c key;
    archive_len = length archive;
    archive_hash = c.hash archive;
  }

  record_of-IsSignatureRecord :
      (archive : Bytes) (key : RgxPrivateKey)
      → length archive < 2 ^ 64
      → IsSignatureRecord (record_of archive key)
  unfolding key_id
  record_of-IsSignatureRecord archive key h = record {
    key_id = (length-key_id c law (public_key c key), key_id-IsByte c law (public_key c key));
    archive_len = h;
    archive_hash = (law.hash_length archive, law.hash_bytes archive);
    signature = (law.sign_length _ _, law.sign_bytes _ _);
  }

  signed :
      (archive : Bytes) (key : RgxPrivateKey) (output_exists : Bool) (text : Bytes)
      (info : SignatureInfo)
      → sign_archive c archive key output_exists ≡ ok (text, info)
      → (length archive < 2 ^ 64)
        × (unlines (signature_lines (record_of archive key)) ≡ text)
        × (info_of archive key ≡ info)
  unfolding sign_archive hash_archive
  signed archive key output_exists text info h =
      let (u, e1, h1) = ⟫=-eq-ok (bail_if output_exists _) _ h in
      elim (Bool-cases (ltb (length archive) (2 ^ 64))) [
        | inr large ↦ absurd (err-ne-ok (rw large at h1))
        | inl fits ↦
            let same = ok-injective (rw fits at h1) in
            (
              ltb→lt _ _ fits,
              ap (λ (r : Bytes × SignatureInfo). r.0) same,
              ap (λ (r : Bytes × SignatureInfo). r.1) same,
            )
      ]

  -- A signature that `sign_archive` returns is accepted for the same archive, with the public key file that
  -- `save_keypair` writes for the key; what is returned is what `sign_archive` returned.
  pub verify_archive_signature-sign_archive :
      (archive : Bytes) (key : RgxPrivateKey) (output_exists : Bool) (text : Bytes)
      (info : SignatureInfo)
      → sign_archive c archive key output_exists ≡ ok (text, info)
      → verify_archive_signature c archive text (public_text c key) ≡ ok info
  unfolding verify_archive_signature hash_archive signing_public_key key_id
  verify_archive_signature-sign_archive archive key output_exists text info h =
      let (fits, same, about) = signed archive key output_exists text info h in
      let (load, load_signing) = load_public_key-public_text c law key in
      rw
        (
          ← same,
          ← about,
          parse_signature-signature_lines _ (record_of-IsSignatureRecord archive key fits),
          load,
          load_signing,
          bytes_eq_refl (public_key_id c (public_key c key)),
          lt→ltb _ _ fits,
          eq→== (length archive) (length archive) refl,
          bytes_eq_refl (c.hash archive),
          law.verify-sign (signing_key c key) (signature_message (length archive) (c.hash archive)),
        )
        refl

  -- A signature that `sign_archive` returned for an archive is rejected for one with another digest, with
  -- the error for changed bytes, if the length of that fits a `u64`.
  pub verify_archive_signature-changed :
      (archive other : Bytes) (key : RgxPrivateKey) (output_exists : Bool) (text : Bytes)
      (info : SignatureInfo)
      → sign_archive c archive key output_exists ≡ ok (text, info)
      → length other < 2 ^ 64
      → c.hash other ≢ c.hash archive
      → verify_archive_signature c other text (public_text c key) ≡ err archive_changed
  unfolding verify_archive_signature hash_archive signing_public_key key_id
  verify_archive_signature-changed archive other key output_exists text info h len differs =
      let (fits, same, about) = signed archive key output_exists text info h in
      let (load, load_signing) = load_public_key-public_text c law key in
      let no : bytes_eq (c.hash other) (c.hash archive) ≡ false = bytes_ne _ _ differs in
      rw
        (
          ← same,
          parse_signature-signature_lines _ (record_of-IsSignatureRecord archive key fits),
          load,
          load_signing,
          bytes_eq_refl (public_key_id c (public_key c key)),
          lt→ltb _ _ len,
          no,
          or_true (not (length other == length archive)),
        )
        refl

-- What an accepted signature says of an archive and a public key file.
pub record Verified (c : Crypto) (archive signature_text public_key_text : Bytes)
    (info : SignatureInfo) : Type 0 where
  pub written : SignatureRecord
  pub signer : Bytes
  pub parsed : parse_signature signature_text ≡ ok written
  pub loaded : load_signing_public_key c public_key_text ≡ ok signer
  pub same_len : length archive ≡ written.archive_len
  pub same_hash : c.hash archive ≡ written.archive_hash
  pub verified :
      c.verify signer (signature_message (length archive) (c.hash archive)) written.signature ≡ true
  pub returned :
      record {
        key_id = written.key_id;
        archive_len = length archive;
        archive_hash = c.hash archive;
      }
      ≡ info

or-false : (a b : Bool) → (not a || not b) ≡ false → (a ≡ true) × (b ≡ true)
or-false true true h = (refl, refl)
or-false true false h = cc
or-false false b h = cc

not-false : (a : Bool) → not a ≡ false → a ≡ true
not-false true h = refl
not-false false h = cc

hash_archive-ok :
    (c : Crypto) (archive : Bytes) (hashed : ℕ × Bytes)
    → hash_archive c archive ≡ ok hashed
    → (length archive, c.hash archive) ≡ hashed
unfolding hash_archive
hash_archive-ok c archive hashed h = elim (Bool-cases (ltb (length archive) (2 ^ 64))) [
  | inl fits ↦ ok-injective (rw fits at h)
  | inr large ↦ absurd (err-ne-ok (rw large at h))
]

-- The last two tests.
accepted :
    (c : Crypto) (r : SignatureRecord) (signer hash : Bytes) (len : ℕ) (info : SignatureInfo)
    → (bail_if (not (len == r.archive_len) || not (bytes_eq hash r.archive_hash)) archive_changed
        ⟫= λ _.
            bail_if
              (not (c.verify signer (signature_message len hash) r.signature))
              signature_failed
            ⟫= λ _. ok (record { key_id = r.key_id; archive_len = len; archive_hash = hash }))
      ≡ ok info
    → (len ≡ r.archive_len)
      × (hash ≡ r.archive_hash)
      × (c.verify signer (signature_message len hash) r.signature ≡ true)
      × (record { key_id = r.key_id; archive_len = len; archive_hash = hash } ≡ info)
accepted c r signer hash len info h =
    let (u, e, h1) =
      ⟫=-eq-ok (bail_if (not (len == r.archive_len) || not (bytes_eq hash r.archive_hash)) _) _ h in
    let (u2, e2, h2) =
      ⟫=-eq-ok (bail_if (not (c.verify signer (signature_message len hash) r.signature)) _) _ h1 in
    let (a, b) = or-false _ _ (bail_if-eq-ok _ _ e) in
    ((==_iff _ _).0 a, bytes_eq→eq _ _ b, not-false _ (bail_if-eq-ok _ _ e2), ok-injective h2)

-- When `verify_archive_signature` accepts, the signature file is parsed, the archive has the length and
-- the digest that are written in it, the signature of the file is one of their message under the
-- Ed25519 key of the public key file, and these are what it returns.
pub verify_archive_signature-Verified :
    (c : Crypto) (archive signature_text public_key_text : Bytes) (info : SignatureInfo)
    → verify_archive_signature c archive signature_text public_key_text ≡ ok info
    → Verified c archive signature_text public_key_text info
unfolding verify_archive_signature
verify_archive_signature-Verified c archive signature_text public_key_text info h =
    let (r, e1, h1) = ⟫=-eq-ok (parse_signature signature_text) _ h in
    let (recipient, e2, h2) = ⟫=-eq-ok (load_public_key c public_key_text) _ h1 in
    let (u3, e3, h3) =
      ⟫=-eq-ok
        (bail_if (not (bytes_eq (public_key_id c recipient) r.key_id)) signature_key_mismatch) _
        h2 in
    let (signer, e4, h4) = ⟫=-eq-ok (load_signing_public_key c public_key_text) _ h3 in
    let (hashed, e5, h5) = ⟫=-eq-ok (hash_archive c archive) _ h4 in
    let same = hash_archive-ok c archive hashed e5 in
    let (len, hash, verified, returned) =
      accepted c r signer (c.hash archive) (length archive) info (rw (← same) at h5) in
    record {
      written = r;
      signer = signer;
      parsed = e1;
      loaded = e4;
      same_len = len;
      same_hash = hash;
      verified = verified;
      returned = returned;
    }
