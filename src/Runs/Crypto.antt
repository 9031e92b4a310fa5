-- ===== src/Runs/Crypto.antt =====
-- Packages for cryptography that protect nothing, and keep what `IsCrypto` asks of them.
use rgx.Common.{
  suc, zero, ◌+◌, ◌-◌, ◌%◌, ◌≡◌, refl, ap, ◌∙◌, [], ◌∷◌, ◌++◌, ℕ, Bool, true, ◌&&◌, Bool-cases, inl,
  inr, Bytes, All, All-append, IsByte, some, none, Option, length, length-append, length-le_bytes,
  le_bytes, from_le_bytes, le_bytes-IsByte, bytes_eq, bytes_eq_refl, replicate, take, take-append,
  arith, eq→==, ◌==◌, ltb, if◌then◌else◌, subst,
}
use rgx.Frames.{Aead, IsAead}
use rgx.Recipient.{Crypto, IsCrypto}

abbrev pub toy_hash : Bytes → Bytes
toy_hash d = le_bytes 32 (from_le_bytes d)

abbrev pub all_bytes : Bytes → Bool
all_bytes [] = true
all_bytes (b ∷ bs) = ltb b 256 && all_bytes bs

all_bytes-IsByte : (bs : Bytes) → all_bytes bs ≡ true → All IsByte bs
all_bytes-IsByte [] h = tt
all_bytes-IsByte (b ∷ bs) h = ground (arith, all_bytes-IsByte bs)

abbrev pub first_byte : Bytes → ℕ
first_byte [] = 0
first_byte (b ∷ bs) = b

-- The message and a tag of zeros.
abbrev pub toy_encrypt : Bytes → Option Bytes
toy_encrypt message = if all_bytes message then some (message ++ replicate 16 0) else none

abbrev pub toy_decrypt : Bytes → Option Bytes
toy_decrypt message = some (take (length message - 16) message)

abbrev pub toy_aead : Aead
toy_aead = record {
  encrypt = λ key nonce message aad. toy_encrypt message;
  decrypt = λ key nonce message aad. toy_decrypt message;
}

value_or : Option Bytes → Bytes
value_or none = []
value_or (some d) = d

toy_encrypt-some :
    (message d : Bytes)
    → toy_encrypt message ≡ some d
    → (message ++ replicate 16 0 ≡ d) × All IsByte message
unfolding value_or
toy_encrypt-some message d h = elim (Bool-cases (all_bytes message)) [
  | inl e ↦ (ap (λ (o : Option Bytes). value_or o) (rw e at h), all_bytes-IsByte message e)
  | inr e ↦ let q : ◌≡◌ {A = Option Bytes} none (some d) = rw e at h in cc
]

toy_aead-IsAead : IsAead toy_aead
toy_aead-IsAead = record {
  length-encrypt = λ key nonce message aad d h.
      rw (← (toy_encrypt-some message d h).0) (length-append message (replicate 16 0));
  decrypt-encrypt = λ key nonce message aad d h.
      rw (← (toy_encrypt-some message d h).0, length-append message (replicate 16 0))
        (ap (λ (n : ℕ). some (take n (message ++ replicate 16 0))) (omega arith)
          ∙ ap some (take-append message (replicate 16 0)));
}

abbrev pub toy_crypto : Crypto
toy_crypto = record {
  aead = toy_aead;
  hash = toy_hash;
  derive = λ context material. toy_hash (context ++ material);
  public_of = λ s. (from_le_bytes s % 256) ∷ replicate 31 0;
  diffie_hellman = λ s p. le_bytes 32 (from_le_bytes s % 256 + first_byte p);
  argon2 = λ password salt memory_kib iterations lanes. some (toy_hash (password ++ salt));
  verifying_of = toy_hash;
  is_verifying = λ b. length b == 32;
  sign = λ s m. toy_hash s ++ toy_hash m;
  verify = λ v m signature. bytes_eq signature (v ++ toy_hash m);
}

toy_hash-IsByte : (d : Bytes) → All IsByte (toy_hash d)
toy_hash-IsByte d = le_bytes-IsByte 32 (from_le_bytes d)

length-toy_hash : (d : Bytes) → length (toy_hash d) ≡ 32
length-toy_hash d = length-le_bytes 32 (from_le_bytes d)

zeros-IsByte : (n : ℕ) → All IsByte (replicate n 0)
zeros-IsByte zero = tt
zeros-IsByte (suc n) = (omega arith, zeros-IsByte n)

pub toy_crypto-IsCrypto : IsCrypto toy_crypto
toy_crypto-IsCrypto = record {
  aead = toy_aead-IsAead;
  encrypt_bytes = λ key nonce message aad d h.
      let (e, v) = toy_encrypt-some message d h in
      subst (All IsByte) e (All-append IsByte message (replicate 16 0) v (zeros-IsByte 16));
  hash_length = length-toy_hash;
  hash_bytes = toy_hash-IsByte;
  public_length = λ s. refl;
  public_bytes = λ s. (omega arith, zeros-IsByte 31);
  agreement = λ a b. ap (le_bytes 32) (omega arith);
  verifying_length = length-toy_hash;
  verifying_bytes = toy_hash-IsByte;
  verifying_valid = λ s. eq→== _ _ (length-toy_hash s);
  sign_length = λ s m.
      omega (arith, length-append (toy_hash s) (toy_hash m), length-toy_hash s, length-toy_hash m);
  sign_bytes =
      λ s m. All-append IsByte (toy_hash s) (toy_hash m) (toy_hash-IsByte s) (toy_hash-IsByte m);
  verify-sign = λ s m. bytes_eq_refl (toy_hash s ++ toy_hash m);
}
