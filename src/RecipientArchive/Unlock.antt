-- ===== src/RecipientArchive/Unlock.antt =====
-- A file that `pack_recipient` of src/recipient_archive.rs writes gives its archive key to a recipient
-- and to the password.
use rgx.Common.{
  ℕ, suc, ◌+◌, ◌≡◌, ◌≤◌, refl, ap, sym, ◌∙◌, List, [], ◌∷◌, ◌++◌, append_assoc, Option, none, some,
  Bool, true, false, not, Bytes, bytes_eq, bytes_eq_refl, le_bytes, All, length, length-take, ltb,
  ◌==◌, Result, ok, bail_if, bail_if-eq-ok, ⟫=-eq-ok, ok-injective, err-ne-ok, Option-cases, inl,
  inr, arith, subst,
}
use rgx.Frames.Writer.{StreamKey, FrameWriter, start_writer, write, finish}
use rgx.Frames.Writer.Grows.{write-Grows, finish-Grows}
use rgx.Keyed.{new_key, stream_key, encode_header}
use rgx.Archive.{External, ArchiveInfo}
use rgx.Archive.Pack.{WalkEntry, pack_to_writer}
use rgx.Recipient.{
  Crypto, IsCrypto, RgxPrivateKey, RgxPublicKey, RecipientSlot, PasswordSlot, key_id, public_key,
  public_key_id, seal_key, derive_argon2_key, is_empty_text, wrap_archive_key_for_recipient,
  wrap_archive_key_with_password, unwrap_archive_key_for_recipient,
}
use rgx.Recipient.Unwrap.{
  unwrap-wrap_archive_key_for_recipient, unwrap-wrap_archive_key_with_password,
}
use rgx.Recipient.KeyFiles.{any_slot, private_text, explicit_private_key, find_matching_private_key}
use rgx.Recipient.KeyFiles.RoundTrip.{IsPrivateKey, load_private_key-private_text}
use rgx.RecipientArchive.{
  find_slot, unlock_found, try_unlock_identity, require_slot, identity, read_envelope,
  unlock_password, wrap_all, wrap_fallback, Randoms, pack_recipient, encode_envelope,
  password_fallback,
}
use rgx.RecipientArchive.Envelope.{
  IsRecipientSlot, IsPasswordSlot, IsFallback, read_envelope-encode_envelope,
}

module _ (c : Crypto) (law : IsCrypto c) where
  -- A sealed key has the length of its field.
  length-seal_key :
      (wrap_key nonce msg aad sealed : Bytes)
      → seal_key c wrap_key nonce msg aad ≡ ok sealed
      → length sealed ≡ 48
  unfolding seal_key
  length-seal_key wrap_key nonce msg aad sealed h =
      elim (Option-cases (c.aead.encrypt wrap_key nonce msg aad)) [
        | inl e ↦ absurd (err-ne-ok (rw (e, seal_key) at h))
        | inr (ciphertext, e) ↦
            let q = rw (e, seal_key) at h in
            let (u, e1, h1) = ⟫=-eq-ok (bail_if (not (length ciphertext == 48)) _) _ q in
            let same : ciphertext ≡ sealed = ok-injective h1 in
            let len = bail_if-eq-ok (not (length ciphertext == 48)) _ e1 in
            rw (← same) (ground (arith, len))
      ]

  wrap_archive_key_for_recipient-IsRecipientSlot :
      (ephemeral_secret nonce archive_key : Bytes) (recipient : RgxPublicKey) (slot : RecipientSlot)
      → length nonce ≡ 24
      → wrap_archive_key_for_recipient c ephemeral_secret nonce archive_key recipient ≡ ok slot
      → IsRecipientSlot slot
  unfolding wrap_archive_key_for_recipient public_key_id
  wrap_archive_key_for_recipient-IsRecipientSlot ephemeral_secret nonce archive_key recipient slot n
        h =
      let (sealed, e, h1) = ⟫=-eq-ok (seal_key c _ nonce archive_key _) _ h in
      subst IsRecipientSlot (ok-injective h1) (record {
        key_id =
            omega
              (arith, length-take 16 (c.hash recipient.public), law.hash_length recipient.public);
        ephemeral_public = law.public_length ephemeral_secret;
        nonce = n;
        wrapped_key = length-seal_key _ nonce archive_key _ sealed e;
      })

  wrap_archive_key_with_password-IsPasswordSlot :
      (salt nonce archive_key password : Bytes) (slot : PasswordSlot)
      → length salt ≡ 16
      → length nonce ≡ 24
      → wrap_archive_key_with_password c salt nonce archive_key password ≡ ok slot
      → IsPasswordSlot slot
  unfolding wrap_archive_key_with_password
  wrap_archive_key_with_password-IsPasswordSlot salt nonce archive_key password slot m n h =
      let (u, e1, h1) = ⟫=-eq-ok (bail_if (is_empty_text password) _) _ h in
      let (wrap_key, e2, h2) = ⟫=-eq-ok (derive_argon2_key c password salt _ _ _) _ h1 in
      let (sealed, e3, h3) = ⟫=-eq-ok (seal_key c wrap_key nonce archive_key _) _ h2 in
      subst IsPasswordSlot (ok-injective h3) (record {
        memory_kib = omega arith;
        iterations = omega arith;
        lanes = omega arith;
        salt = m;
        nonce = n;
        wrapped_key = length-seal_key wrap_key nonce archive_key _ sealed e3;
      })

  wrap_all-IsRecipientSlot :
      (draw : ℕ → Bytes × Bytes) (archive_key : Bytes) (i : ℕ) (recipients : List RgxPublicKey)
      (slots : List RecipientSlot)
      → ((j : ℕ) → length (draw j).1 ≡ 24)
      → wrap_all c draw archive_key i recipients ≡ ok slots
      → All IsRecipientSlot slots × (length slots ≡ length recipients)
  unfolding wrap_all
  wrap_all-IsRecipientSlot draw archive_key i [] slots n h =
      subst (λ s. All IsRecipientSlot s × (length s ≡ 0)) (ok-injective h) (tt, refl)
  wrap_all-IsRecipientSlot draw archive_key i (recipient ∷ recipients) slots n h =
      let (slot, e1, h1) =
        ⟫=-eq-ok (wrap_archive_key_for_recipient c (draw i).0 (draw i).1 archive_key recipient) _
          h in
      let (rest, e2, h2) = ⟫=-eq-ok (wrap_all c draw archive_key (i + 1) recipients) _ h1 in
      let (v, len) = wrap_all-IsRecipientSlot draw archive_key (i + 1) recipients rest n e2 in
      subst (λ s. All IsRecipientSlot s × (length s ≡ length (recipient ∷ recipients)))
        (ok-injective h2)
        (
          (
            wrap_archive_key_for_recipient-IsRecipientSlot _ _ archive_key recipient slot (n i) e1,
            v,
          ),
          ap suc len,
        )

  wrap_fallback-IsFallback :
      (salt nonce archive_key : Bytes) (fallback_password : Option Bytes)
      (password : Option PasswordSlot)
      → length salt ≡ 16
      → length nonce ≡ 24
      → wrap_fallback c salt nonce archive_key fallback_password ≡ ok password
      → IsFallback password
  unfolding wrap_fallback
  wrap_fallback-IsFallback salt nonce archive_key none password m n h =
      subst IsFallback (ok-injective h) tt
  wrap_fallback-IsFallback salt nonce archive_key (some text) password m n h =
      let (slot, e, h1) =
        ⟫=-eq-ok (wrap_archive_key_with_password c salt nonce archive_key text) _ h in
      subst IsFallback (ok-injective h1)
        (wrap_archive_key_with_password-IsPasswordSlot salt nonce archive_key text slot m n e)

-- What `random_bytes` returns has the length asked for.
pub record IsRandoms (random : Randoms) : Type 0 where
  pub archive_key : length random.archive_key ≡ 32
  pub draw : (j : ℕ) → length (random.draw j).1 ≡ 24
  pub password_salt : length random.password_salt ≡ 16
  pub password_nonce : length random.password_nonce ≡ 24

-- What `pack_recipient` has put in a file.
pub record Packed (c : Crypto) (random : Randoms) (x : External) (level : ℕ)
    (recipients : List RgxPublicKey) (fallback_password : Option Bytes)
    (walk : Option (List WalkEntry)) (file : Bytes) (info : ArchiveInfo) : Type 0 where
  pub slots : List RecipientSlot
  pub password : Option PasswordSlot
  pub bytes : Bytes
  pub packed : Bytes × ArchiveInfo
  pub w : FrameWriter
  pub w' : FrameWriter
  pub wrapped : wrap_all c random.draw random.archive_key 0 recipients ≡ ok slots
  pub fallback :
      wrap_fallback c random.password_salt random.password_nonce random.archive_key
        fallback_password
      ≡ ok password
  pub envelope :
      read_envelope c file
      ≡ ok (record {
        recipients = slots;
        password = password;
        payload_offset = length bytes;
        envelope_hash = c.hash bytes;
      })
  pub packed_ok : pack_to_writer x level walk ≡ ok packed
  pub written :
      write c.aead
        (new_key random.archive_key random.nonce_prefix (c.hash bytes))
        (start_writer c.aead (new_key random.archive_key random.nonce_prefix (c.hash bytes)))
        packed.0
      ≡ ok w
  pub finished :
      finish c.aead (new_key random.archive_key random.nonce_prefix (c.hash bytes)) w ≡ ok w'
  pub layout : bytes ++ w'.out ≡ file
  pub statistics : packed.1 ≡ info

payload_of :
    (c : Crypto) (k : StreamKey) (archive : Bytes) (w w' : FrameWriter)
    → write c.aead k (start_writer c.aead k) archive ≡ ok w
    → finish c.aead k w ≡ ok w'
    → (t : Bytes) × (w'.out ≡ k.header_bytes ++ t)
payload_of c k archive w w' h f =
    let (s, e) = write-Grows c.aead k (start_writer c.aead k) w archive h in
    let (t, e') = finish-Grows c.aead k w w' f in
    (s ++ t, e' ∙ ap (λ (o : Bytes). o ++ t) e ∙ append_assoc k.header_bytes s t)

-- The envelope in front of a keyed stream.
envelope_first :
    (c : Crypto) (slots : List RecipientSlot) (password : Option PasswordSlot)
    (bytes stream t file archive_key nonce_prefix : Bytes)
    → All IsRecipientSlot slots
    → IsFallback password
    → 1 ≤ length slots
    → length slots ≤ 64
    → encode_envelope slots password ≡ ok bytes
    → stream ≡ (new_key archive_key nonce_prefix (c.hash bytes)).header_bytes ++ t
    → bytes ++ stream ≡ file
    → read_envelope c file
      ≡ ok (record {
        recipients = slots;
        password = password;
        payload_offset = length bytes;
        envelope_hash = c.hash bytes;
      })
unfolding new_key stream_key encode_header le_bytes
envelope_first c slots password bytes stream t file archive_key nonce_prefix v f least most e
      written same =
    rw (← same, written)
      (read_envelope-encode_envelope c slots password bytes _ v f least most (omega arith) e)

module _ (c : Crypto) (law : IsCrypto c) (random : Randoms) (right : IsRandoms random) where
  pub pack_recipient-Packed :
      (x : External) (exists : Bool) (inside : Result (Unit {0})) (directory_exists : Bool)
      (level : ℕ) (recipients : List RgxPublicKey) (fallback_password : Option Bytes)
      (walk : Option (List WalkEntry)) (file : Bytes) (info : ArchiveInfo)
      → pack_recipient c x random exists inside directory_exists level recipients fallback_password
          walk
        ≡ ok (file, info)
      → Packed c random x level recipients fallback_password walk file info
  unfolding pack_recipient
  pack_recipient-Packed x exists inside directory_exists level recipients fallback_password walk
        file info h =
      let (u1, e1, h1) = ⟫=-eq-ok (bail_if (length recipients == 0) _) _ h in
      let (u2, e2, h2) = ⟫=-eq-ok (bail_if (ltb 64 (length recipients)) _) _ h1 in
      let (u3, e3, h3) = ⟫=-eq-ok (bail_if exists _) _ h2 in
      let (u4, e4, h4) = ⟫=-eq-ok inside _ h3 in
      let (u5, e5, h5) = ⟫=-eq-ok (bail_if (not directory_exists) _) _ h4 in
      let (slots, e6, h6) =
        ⟫=-eq-ok (wrap_all c random.draw random.archive_key 0 recipients) _ h5 in
      let (password, e7, h7) =
        ⟫=-eq-ok
          (wrap_fallback c random.password_salt random.password_nonce random.archive_key
            fallback_password)
          _ h6 in
      let (bytes, e8, h8) = ⟫=-eq-ok (encode_envelope slots password) _ h7 in
      let (packed, e9, h9) = ⟫=-eq-ok (pack_to_writer x level walk) _ h8 in
      let k = new_key random.archive_key random.nonce_prefix (c.hash bytes) in
      let (w, e10, h10) = ⟫=-eq-ok (write c.aead k (start_writer c.aead k) packed.0) _ h9 in
      let (w', e11, h11) = ⟫=-eq-ok (finish c.aead k w) _ h10 in
      let (t, e12) = payload_of c k packed.0 w w' e10 e11 in
      let some_recipient = bail_if-eq-ok (length recipients == 0) _ e1 in
      let few = bail_if-eq-ok (ltb 64 (length recipients)) _ e2 in
      let (v, len) =
        wrap_all-IsRecipientSlot c law random.draw random.archive_key 0 recipients slots right.draw
          e6 in
      let f =
        wrap_fallback-IsFallback c law random.password_salt random.password_nonce random.archive_key
          fallback_password password right.password_salt right.password_nonce e7 in
      let same : bytes ++ w'.out ≡ file =
        ap (λ (r : Bytes × ArchiveInfo). r.0) (ok-injective h11) in
      record {
        slots = slots;
        password = password;
        bytes = bytes;
        packed = packed;
        w = w;
        w' = w';
        packed_ok = e9;
        written = e10;
        finished = e11;
        layout = same;
        statistics = ap (λ (r : Bytes × ArchiveInfo). r.1) (ok-injective h11);
        wrapped = e6;
        fallback = e7;
        envelope =
            envelope_first c slots password bytes w'.out t file random.archive_key
              random.nonce_prefix v f (ground (arith, some_recipient, len))
              (ground (arith, few, len)) e8 e12 same;
      }

  -- A file that `pack_recipient` returns with a fallback password gives its archive key to this
  -- password, if what was drawn at random has the right lengths.
  pub unlock_password-pack_recipient :
      (x : External) (exists : Bool) (inside : Result (Unit {0})) (directory_exists : Bool)
      (level : ℕ) (recipients : List RgxPublicKey) (password : Bytes)
      (walk : Option (List WalkEntry)) (file : Bytes) (info : ArchiveInfo)
      → pack_recipient c x random exists inside directory_exists level recipients
          (some password)
          walk
        ≡ ok (file, info)
      → unlock_password c file password ≡ ok (random.archive_key, password_fallback)
  unfolding unlock_password wrap_fallback require_slot
  unlock_password-pack_recipient x exists inside directory_exists level recipients password walk
        file info h =
      let p =
        pack_recipient-Packed x exists inside directory_exists level recipients (some password) walk
          file info h in
      let (slot, e, h1) =
        ⟫=-eq-ok
          (wrap_archive_key_with_password c random.password_salt random.password_nonce
            random.archive_key password)
          _ p.fallback in
      rw
        (
          p.envelope,
          ← ok-injective h1,
          unwrap-wrap_archive_key_with_password c law _ _ random.archive_key password slot
              right.archive_key e,
        )
        refl

  slot-key_id :
      (ephemeral_secret nonce archive_key : Bytes) (recipient : RgxPublicKey) (slot : RecipientSlot)
      → wrap_archive_key_for_recipient c ephemeral_secret nonce archive_key recipient ≡ ok slot
      → slot.key_id ≡ public_key_id c recipient
  unfolding wrap_archive_key_for_recipient
  slot-key_id ephemeral_secret nonce archive_key recipient slot h =
      let (sealed, e, h1) = ⟫=-eq-ok (seal_key c _ nonce archive_key _) _ h in
      sym (ap (λ (s : RecipientSlot). s.key_id) (ok-injective h1))

  -- The first slot under the id of a key is there, and unwraps to the archive key.
  abbrev Reaches : RgxPrivateKey → List RecipientSlot → Type 0
  Reaches key slots =
      (slot : RecipientSlot) × (find_slot c slots (key_id c key) ≡ ok slot)
      × (any_slot c slots (key_id c key) ≡ true)
      × (unwrap_archive_key_for_recipient c slot key ≡ ok random.archive_key)

  Reaches-here :
      (key : RgxPrivateKey) (ephemeral_secret nonce : Bytes) (slot : RecipientSlot)
      (rest : List RecipientSlot)
      → wrap_archive_key_for_recipient c ephemeral_secret nonce random.archive_key
          (public_key c key)
        ≡ ok slot
      → Reaches key (slot ∷ rest)
  unfolding find_slot any_slot key_id
  Reaches-here key ephemeral_secret nonce slot rest h =
      let same : bytes_eq slot.key_id (key_id c key) ≡ true =
        unfold key_id in
        rw (slot-key_id _ _ _ _ slot h) (bytes_eq_refl (public_key_id c (public_key c key))) in
      (
        slot,
        rw same refl,
        rw same refl,
        unwrap-wrap_archive_key_for_recipient c law key ephemeral_secret nonce random.archive_key
            slot right.archive_key h,
      )

  Reaches-later :
      (key : RgxPrivateKey) (slot : RecipientSlot) (rest : List RecipientSlot)
      → bytes_eq slot.key_id (key_id c key) ≡ false
      → Reaches key rest
      → Reaches key (slot ∷ rest)
  unfolding find_slot any_slot
  Reaches-later key slot rest h (found, e, a, u) = (found, rw h e, rw h a, u)

  -- The slot of a recipient is found by the id of its key, if no recipient before it has this id.
  wrap_all-Reaches :
      (i : ℕ) (key : RgxPrivateKey) (before after : List RgxPublicKey) (slots : List RecipientSlot)
      → All (λ r. bytes_eq (public_key_id c r) (key_id c key) ≡ false) before
      → wrap_all c random.draw random.archive_key i (before ++ (public_key c key ∷ after))
        ≡ ok slots
      → Reaches key slots
  unfolding wrap_all
  wrap_all-Reaches i key [] after slots d h =
      let (slot, e, h1) =
        ⟫=-eq-ok
          (wrap_archive_key_for_recipient c (random.draw i).0 (random.draw i).1 random.archive_key
            (public_key c key))
          _ h in
      let (rest, e2, h2) =
        ⟫=-eq-ok (wrap_all c random.draw random.archive_key (i + 1) after) _ h1 in
      subst (Reaches key) (ok-injective h2)
        (Reaches-here key (random.draw i).0 (random.draw i).1 slot rest e)
  wrap_all-Reaches i key (other ∷ before) after slots d h =
      let (slot, e, h1) =
        ⟫=-eq-ok
          (wrap_archive_key_for_recipient c (random.draw i).0 (random.draw i).1 random.archive_key
            other)
          _ h in
      let (rest, e2, h2) =
        ⟫=-eq-ok
          (wrap_all c random.draw random.archive_key (i + 1) (before ++ (public_key c key ∷ after)))
          _ h1 in
      subst (Reaches key) (ok-injective h2) (
        Reaches-later key slot rest (rw (slot-key_id _ _ _ other slot e) d.0)
          (wrap_all-Reaches (i + 1) key before after rest d.1 e2))

  -- A file that `pack_recipient` returns gives its archive key to each recipient, who names the private
  -- key file that `save_keypair` wrote, if no recipient before has the same key id and what was drawn at
  -- random has the right lengths.
  pub try_unlock_identity-pack_recipient :
      (x : External) (exists : Bool) (inside : Result (Unit {0})) (directory_exists : Bool)
      (level : ℕ) (key : RgxPrivateKey) (before after : List RgxPublicKey)
      (fallback_password : Option Bytes) (walk : Option (List WalkEntry)) (file : Bytes)
      (info : ArchiveInfo) (candidates : List (Option Bytes)) (passphrase : Option Bytes)
      → IsPrivateKey key
      → All (λ r. bytes_eq (public_key_id c r) (key_id c key) ≡ false) before
      → pack_recipient c x random exists inside directory_exists level
          (before ++ (public_key c key ∷ after))
          fallback_password
          walk
        ≡ ok (file, info)
      → try_unlock_identity c file (some (private_text c key)) candidates passphrase
        ≡ ok (some (random.archive_key, identity (key_id c key)))
  unfolding try_unlock_identity find_matching_private_key explicit_private_key unlock_found
  try_unlock_identity-pack_recipient x exists inside directory_exists level key before after
        fallback_password walk file info candidates passphrase v d h =
      let p =
        pack_recipient-Packed x exists inside directory_exists level
          (before ++ (public_key c key ∷ after)) fallback_password walk file info h in
      let (slot, e, a, u) = wrap_all-Reaches 0 key before after p.slots d p.wrapped in
      rw (p.envelope, load_private_key-private_text c law key passphrase v, a, e, u) refl
