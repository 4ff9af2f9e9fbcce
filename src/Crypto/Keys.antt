-- ===== src/Crypto/Keys.antt =====
-- core/iedb-crypto/src/crypto.rs: the X25519 keys of an identity and the key file. SHA-2, the curve, Argon2
-- and ChaCha20-Poly1305 are other crates: `Ciphers` has their functions, `CipherLaws` what the code
-- relies on.
use Prim.Native.Nat.{bit_and, bit_or}
use hammurabi_handoff.Prelude.{
  ℕ, ◌+◌, ◌<◌, ◌≡◌, ◌↔◌, String, not, ◌||◌, Option, none, some, ◌∷◌, ◌++◌, All, length, take, drop,
  get_or, set, leb, ◌==◌, Result, ok, err, ◌>>=◌, map_err, ok_or, if◌then◌else◌,
}
use hammurabi_handoff.Crypto.{CryptoResult, Bytes, Identity, invalid_key, keystore, seal_failed}

pub record Ciphers : Type 0 where
  -- `Sha256::digest`, `Sha512::digest`
  pub sha256 : Bytes → Bytes
  pub sha512 : Bytes → Bytes
  -- `CompressedEdwardsY(address).decompress()`, then `to_montgomery().to_bytes()`
  pub to_montgomery : Bytes → Option Bytes
  -- `Argon2::default().hash_password_into(passphrase, salt, key)`: the key, or the error's text
  pub argon2 : Bytes → Bytes → Result String Bytes
  -- `ChaCha20Poly1305::new_from_slice(key)`: the error's text, if the key is refused
  pub cipher_error : Bytes → Option String
  -- `encrypt` and `decrypt` of a cipher, by key and nonce
  pub encrypt : Bytes → Bytes → Bytes → Option Bytes
  pub decrypt : Bytes → Bytes → Bytes → Option Bytes

-- What these crates document: digests are bytes, 64 of them from SHA-512; a ciphertext is longer than its
-- message by the tag of 16 bytes; decryption accepts a ciphertext exactly if it is the one that encryption
-- gives for what it returns.
pub record CipherLaws (c : Ciphers) : Type 0 where
  pub sha512-All : (bytes : Bytes) → All (λ b. b < 256) (c.sha512 bytes)
  pub length-sha512 : (bytes : Bytes) → length (c.sha512 bytes) ≡ 64
  pub length-encrypt :
      (key nonce message ciphertext : Bytes)
      → c.encrypt key nonce message ≡ some ciphertext
      → length ciphertext ≡ length message + 16
  pub decrypt_iff :
      (key nonce ciphertext message : Bytes)
      → (c.decrypt key nonce ciphertext ≡ some message)
        ↔ (c.encrypt key nonce message ≡ some ciphertext)

abbrev pub keystore_version : ℕ
keystore_version = 2

abbrev pub salt_len : ℕ
salt_len = 16

abbrev pub nonce_len : ℕ
nonce_len = 12

abbrev pub header_len : ℕ
header_len = 1 + salt_len + nonce_len

-- `from_seed`; `generate` is this of a random seed.
unfoldable pub from_seed : Bytes → Identity
from_seed seed = record { seed = seed }

-- `s[0] &= 248; s[31] &= 127; s[31] |= 64;`.
unfoldable pub clamp : Bytes → Bytes
clamp s₀ =
    let s₁ = set s₀ 0 (bit_and (get_or s₀ 0 0) 248) in
    let s₂ = set s₁ 31 (bit_and (get_or s₁ 31 0) 127) in set s₂ 31 (bit_or (get_or s₂ 31 0) 64)

-- `plaintext.as_slice().try_into()`.
abbrev pub seed_of : Bytes → CryptoResult Bytes
seed_of plaintext =
    if length plaintext == 32 then ok plaintext else err (keystore "decrypted seed length")

module _ (c : Ciphers) where
  unfoldable pub sha256 : Bytes → Bytes
  sha256 bytes = c.sha256 bytes

  unfoldable pub x25519_secret_from_seed : Bytes → Bytes
  unfolding clamp
  x25519_secret_from_seed seed = clamp (take 32 (c.sha512 seed))

  unfoldable pub x25519_secret_bytes : Identity → Bytes
  unfolding x25519_secret_from_seed
  x25519_secret_bytes identity = x25519_secret_from_seed identity.seed

  unfoldable pub x25519_public_from_address : Bytes → CryptoResult Bytes
  x25519_public_from_address address =
      ok_or (invalid_key "not a curve point") (c.to_montgomery address)

  unfoldable pub derive_key : Bytes → Bytes → CryptoResult Bytes
  derive_key passphrase salt = map_err keystore (c.argon2 passphrase salt)

  abbrev pub new_cipher : Bytes → CryptoResult (Unit {0})
  new_cipher key = elim (c.cipher_error key) [ none ↦ ok tt | some e ↦ err (keystore e) ]

  -- `EncryptedKeystore::seal`, with the random salt and nonce as arguments.
  unfoldable pub seal : Bytes → Bytes → Identity → Bytes → CryptoResult Bytes
  unfolding derive_key
  seal salt nonce_bytes identity passphrase = do
    key ← derive_key passphrase salt
    _ ← new_cipher key
    ciphertext ← ok_or seal_failed (c.encrypt key nonce_bytes identity.seed)
    ok (keystore_version ∷ (salt ++ (nonce_bytes ++ ciphertext)))

  -- `open` behind the test of the header, on the three parts of the blob.
  unfoldable pub decrypt_seed : Bytes → Bytes → Bytes → Bytes → CryptoResult Identity
  unfolding derive_key from_seed
  decrypt_seed salt nonce ciphertext passphrase = do
    key ← derive_key passphrase salt
    _ ← new_cipher key
    plaintext ← ok_or seal_failed (c.decrypt key nonce ciphertext)
    seed ← seed_of plaintext
    ok (from_seed seed)

  unfoldable pub open_sealed : Bytes → Bytes → CryptoResult Identity
  unfolding decrypt_seed
  open_sealed blob passphrase =
      if leb (length blob) header_len || not (get_or blob 0 0 == keystore_version)
      then err (keystore "malformed keystore blob")
      else decrypt_seed (take salt_len (drop 1 blob)) (take nonce_len (drop (1 + salt_len) blob))
          (drop header_len blob) passphrase
