-- ===== src/Crypto.antt =====
-- core/iedb-crypto/src/crypto.rs: errors, hashing, the Ed25519 identity. BLAKE3, Ed25519 and hex are
-- other crates: `Primitives` has their functions, and `Laws` what the code relies on.
pub mod Keys
pub mod Keyfile
pub mod Clamp
pub mod Scalar
use hammurabi_handoff.Prelude.{
  ℕ, String, Bool, true, List, ◌≡◌, Option, none, some, length, ◌<>◌, Result, ok, err, ◌==◌,
  if◌then◌else◌,
}

pub data CryptoError : Type 0 where
  invalid_key : String → CryptoError
  signature_invalid : CryptoError
  keystore : String → CryptoError
  seal_failed : CryptoError
  feature_gated : String → CryptoError
  token : String → CryptoError
  canonicalization : String → CryptoError

-- The error's `Display`.
unfoldable pub show_crypto_error : CryptoError → String
show_crypto_error (invalid_key why) = "invalid key: " <> why
show_crypto_error signature_invalid = "signature verification failed"
show_crypto_error (keystore why) = "keystore error: " <> why
show_crypto_error seal_failed = "seal/open failed"
show_crypto_error (feature_gated why) = "feature gated: " <> why
show_crypto_error (token why) = "token error: " <> why
show_crypto_error (canonicalization why) = "canonicalization rejected: " <> why

abbrev pub CryptoResult {ℓ} : Type ℓ → Type ℓ
CryptoResult A = Result CryptoError A

abbrev pub Bytes : Type 0
Bytes = List ℕ

-- The functions of the blake3, ed25519-dalek and hex crates that the code calls.
pub record Primitives : Type 0 where
  -- `blake3::hash(bytes).as_bytes()`
  pub blake3 : Bytes → Bytes
  -- `SigningKey::from_bytes(seed).verifying_key().to_bytes()`
  pub verifying_key : Bytes → Bytes
  -- `SigningKey::from_bytes(seed).sign(msg).to_bytes()`
  pub sign : Bytes → Bytes → Bytes
  -- `VerifyingKey::from_bytes(key)`: the error's text, if it is refused
  pub key_error : Bytes → Option String
  -- `vk.verify(msg, signature).is_ok()`
  pub verify : Bytes → Bytes → Bytes → Bool
  -- `hex::encode`, `hex::decode` with its error's text
  pub hex_encode : Bytes → String
  pub hex_decode : String → Result String Bytes

-- What these crates document.
pub record Laws (p : Primitives) : Type 0 where
  pub key_accepted : (seed : Bytes) → p.key_error (p.verifying_key seed) ≡ none
  pub verify-sign :
      (seed msg : Bytes) → p.verify (p.verifying_key seed) msg (p.sign seed msg) ≡ true
  pub length-verifying_key : (seed : Bytes) → length (p.verifying_key seed) ≡ 32
  pub length-sign : (seed msg : Bytes) → length (p.sign seed msg) ≡ 64
  pub hex_decode-hex_encode : (bytes : Bytes) → p.hex_decode (p.hex_encode bytes) ≡ ok bytes

-- `Identity`: the signing key is a function of the seed.
pub record Identity : Type 0 where
  pub seed : Bytes

module _ (p : Primitives) where
  unfoldable pub blake3_hash : Bytes → Bytes
  blake3_hash bytes = p.blake3 bytes

  unfoldable pub public_key : Identity → Bytes
  public_key identity = p.verifying_key identity.seed

  unfoldable pub sign_bytes : Identity → Bytes → Bytes
  sign_bytes identity msg = p.sign identity.seed msg

  unfoldable pub verify_signature : Bytes → Bytes → Bytes → CryptoResult (Unit {0})
  verify_signature public_key msg signature = elim (p.key_error public_key) [
    | some why ↦ err (invalid_key why)
    | none ↦ if p.verify public_key msg signature then ok tt else err signature_invalid
  ]

  -- A signature that has not 64 bytes is a verification failure.
  unfoldable pub verify_bytes : Bytes → Bytes → Bytes → CryptoResult (Unit {0})
  unfolding verify_signature
  verify_bytes public_key msg sig =
      if length sig == 64 then verify_signature public_key msg sig else err signature_invalid
