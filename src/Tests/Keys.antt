-- ===== src/Tests/Keys.antt =====
-- core/iedb-crypto/src/crypto.rs and aead.rs at concrete inputs, over small ciphers whose tag is a sum.
use hammurabi_handoff.Prelude.{
  ℕ, zero, suc, ◌+◌, ◌%◌, ◌^◌, ◌<◌, ◌≤◌, ◌≡◌, ◌↔◌, refl, ap, arith, Option, some, none, [], ◌∷◌,
  ◌++◌, All, length, take, drop, true, Bool-cases, ok, inl, inr, take-append-drop,
  take-append_of_length, drop-append_of_length, length-append, if◌then◌else◌,
}
use hammurabi_handoff.Crypto.{Bytes, Identity}
use hammurabi_handoff.Crypto.Keys.{
  derive_key, Ciphers, CipherLaws, x25519_secret_from_seed, seal, open_sealed,
}
use hammurabi_handoff.Crypto.Clamp.{le_value, x25519_secret-bounds}
use hammurabi_handoff.Crypto.Scalar.{scalar}
use hammurabi_handoff.Crypto.Keyfile.{open_sealed_iff}
use hammurabi_handoff.Aead.{Boxes, BoxLaws}
use hammurabi_handoff.Aead.Sealed.{seal_to, open_from, open_from_iff}
use hammurabi_handoff.Tests.Toy.{toy, total, replicate, length-replicate, same, same_refl}

same-eq : (xs ys : Bytes) → same xs ys ≡ true → xs ≡ ys
same-eq [] [] h = refl
same-eq [] (y ∷ ys) h = cc h
same-eq (x ∷ xs) [] h = cc h
same-eq (x ∷ xs) (y ∷ ys) h = ground (arith, h, same-eq xs ys)

All-replicate : (n b : ℕ) → b < 256 → All (λ x. x < 256) (replicate n b)
All-replicate zero b h = tt
All-replicate (suc n) b h = (h, All-replicate n b h)

tag : Bytes → Bytes → Bytes → Bytes
tag key nonce message = replicate 16 ((total key + total nonce + total message) % 256)

length-tag : (key nonce message : Bytes) → length (tag key nonce message) ≡ 16
unfolding tag
length-tag key nonce message = length-replicate 16 ((total key + total nonce + total message) % 256)

unfoldable toy_encrypt : Bytes → Bytes → Bytes → Option Bytes
toy_encrypt key nonce message = some (tag key nonce message ++ message)

unfoldable toy_decrypt : Bytes → Bytes → Bytes → Option Bytes
toy_decrypt key nonce ciphertext =
    if same (take 16 ciphertext) (tag key nonce (drop 16 ciphertext))
    then some (drop 16 ciphertext)
    else none

toy_decrypt_iff :
    (key nonce ciphertext message : Bytes)
    → (toy_decrypt key nonce ciphertext ≡ some message)
      ↔ (toy_encrypt key nonce message ≡ some ciphertext)
unfolding toy_decrypt toy_encrypt
toy_decrypt_iff key nonce ciphertext message = (
  λ h. elim (Bool-cases (same (take 16 ciphertext) (tag key nonce (drop 16 ciphertext)))) [
    | inl right ↦
        let whole : drop 16 ciphertext ≡ message = ground (arith, h, right) in
        let front = same-eq (take 16 ciphertext) (tag key nonce (drop 16 ciphertext)) right in
        rw⁻¹ whole (rw⁻¹ front (ap some (take-append-drop 16 ciphertext)))
    | inr wrong ↦ absurd (ground (arith, h, wrong))
  ],
  λ h.
      let whole : tag key nonce message ++ message ≡ ciphertext = cc h in
      rw⁻¹ whole (
        rw
          (
            take-append_of_length 16 (tag key nonce message) message (length-tag key nonce message),
            drop-append_of_length 16 (tag key nonce message) message (length-tag key nonce message),
            same_refl (tag key nonce message),
          )
          refl),
)

encrypt-length :
    (key nonce message ciphertext : Bytes)
    → toy_encrypt key nonce message ≡ some ciphertext
    → length ciphertext ≡ length message + 16
unfolding toy_encrypt
encrypt-length key nonce message ciphertext h =
    let whole : tag key nonce message ++ message ≡ ciphertext = cc h in
    rw⁻¹ whole
      (omega (arith, length-append (tag key nonce message) message, length-tag key nonce message))

abbrev digest : Bytes → Bytes
digest bytes = replicate 64 (total bytes % 256)

unfoldable ciphers : Ciphers
unfolding toy_encrypt toy_decrypt
ciphers = record {
  sha256 = λ bytes. take 32 (digest bytes);
  sha512 = digest;
  to_montgomery = λ address. some (scalar address);
  argon2 = λ passphrase salt. ok (passphrase ++ salt);
  cipher_error = λ _. none;
  encrypt = toy_encrypt;
  decrypt = toy_decrypt;
}

ciphers-CipherLaws : CipherLaws ciphers
unfolding ciphers toy_encrypt
ciphers-CipherLaws = record {
  sha512-All = λ bytes. All-replicate 64 (total bytes % 256) (omega arith);
  length-sha512 = λ bytes. length-replicate 64 (total bytes % 256);
  length-encrypt = λ key nonce message ciphertext h. encrypt-length key nonce message ciphertext h;
  decrypt_iff = toy_decrypt_iff;
}

unfoldable boxes : Boxes
unfolding toy_encrypt toy_decrypt
boxes = record {
  public_of = λ secret. secret;
  shared = λ public secret. (total public + total secret) ∷ [];
  encrypt = toy_encrypt;
  decrypt = toy_decrypt;
}

boxes-BoxLaws : BoxLaws boxes
unfolding boxes
boxes-BoxLaws = record {
  agreement = λ a b. ap (λ n. n ∷ []) (omega arith);
  decrypt_iff = toy_decrypt_iff;
}

mapped :
    (seed : Bytes)
    → ciphers.to_montgomery (toy.verifying_key seed)
      ≡ some (boxes.public_of (scalar (take 32 (ciphers.sha512 seed))))
unfolding ciphers boxes toy
mapped seed = refl

abbrev identity_1 : Identity
identity_1 = record { seed = replicate 32 7 }

abbrev identity_2 : Identity
identity_2 = record { seed = replicate 32 9 }

-- What sealing the first identity gives under a passphrase of two bytes.
blob_1 : Bytes
blob_1 =
    2
    ∷ (replicate 16 5
        ++ (replicate 12 6
            ++ (tag (1 ∷ 2 ∷ replicate 16 5) (replicate 12 6) (replicate 32 7) ++ replicate 32 7)))

open_sealed_iff_example : (open_sealed ciphers blob_1 (1 ∷ 2 ∷ []) ≡ ok identity_1) ↔ (
    (salt nonce : Bytes) × (length salt ≡ 16)
    × (length nonce ≡ 12)
    × (length identity_1.seed ≡ 32)
    × (seal ciphers salt nonce identity_1 (1 ∷ 2 ∷ []) ≡ ok blob_1))
open_sealed_iff_example = open_sealed_iff ciphers (1 ∷ 2 ∷ []) ciphers-CipherLaws blob_1 identity_1

opened_1 : open_sealed ciphers blob_1 (1 ∷ 2 ∷ []) ≡ ok identity_1
unfolding ciphers seal blob_1 toy_encrypt derive_key
opened_1 =
    (open_sealed_iff ciphers (1 ∷ 2 ∷ []) ciphers-CipherLaws blob_1 identity_1).1
      (replicate 16 5, replicate 12 6, refl, refl, refl, refl)

x25519_secret-bounds_example :
    (length (x25519_secret_from_seed ciphers (replicate 32 7)) ≡ 32)
    × (le_value (x25519_secret_from_seed ciphers (replicate 32 7)) % 8 ≡ 0)
    × (2 ^ 254 ≤ le_value (x25519_secret_from_seed ciphers (replicate 32 7)))
    × (le_value (x25519_secret_from_seed ciphers (replicate 32 7)) < 2 ^ 255)
x25519_secret-bounds_example = x25519_secret-bounds ciphers ciphers-CipherLaws (replicate 32 7)

abbrev sealed_1 : Bytes
sealed_1 = replicate 24 3 ++ (replicate 16 4 ++ 1 ∷ [])

open_from_iff_example :
    (open_from toy ciphers boxes identity_2 identity_1 sealed_1 ≡ ok (1 ∷ [])) ↔ (
      (nonce : Bytes) × (length nonce ≡ 24)
      × (seal_to toy ciphers boxes nonce identity_1 identity_2 (1 ∷ []) ≡ ok sealed_1))
open_from_iff_example =
    open_from_iff toy ciphers boxes ciphers-CipherLaws boxes-BoxLaws mapped identity_1 identity_2
      sealed_1 (1 ∷ [])
