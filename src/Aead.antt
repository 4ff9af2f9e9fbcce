-- ===== src/Aead.antt =====
-- core/iedb-crypto/src/aead.rs: sealed boxes between two X25519 keys. `ChaChaBox` is another crate's:
-- `Boxes` has its functions, `BoxLaws` what the code relies on. The random nonce is an argument.
pub mod Sealed
use hammurabi_handoff.Prelude.{
  ℕ, ◌+◌, ◌≡◌, ◌↔◌, Option, some, ◌++◌, length, take, drop, ltb, Result, ok, err, ◌>>=◌, ok_or,
  if◌then◌else◌,
}
use hammurabi_handoff.Crypto.{CryptoResult, Bytes, seal_failed}

abbrev pub nonce_len : ℕ
nonce_len = 24

pub record Boxes : Type 0 where
  -- The public key of a secret one.
  pub public_of : Bytes → Bytes
  -- `ChaChaBox::new(public, secret)`
  pub shared : Bytes → Bytes → Bytes
  pub encrypt : Bytes → Bytes → Bytes → Option Bytes
  pub decrypt : Bytes → Bytes → Bytes → Option Bytes

-- Both sides of a Diffie-Hellman exchange share a key; decryption accepts a ciphertext exactly if it is
-- the one that encryption gives for what it returns.
pub record BoxLaws (x : Boxes) : Type 0 where
  pub agreement : (a b : Bytes) → x.shared (x.public_of a) b ≡ x.shared (x.public_of b) a
  pub decrypt_iff :
      (key nonce ciphertext message : Bytes)
      → (x.decrypt key nonce ciphertext ≡ some message)
        ↔ (x.encrypt key nonce message ≡ some ciphertext)

module _ (x : Boxes) where
  unfoldable pub seal : Bytes → Bytes → Bytes → Bytes → CryptoResult Bytes
  seal nonce sender_secret receiver_public plaintext = do
    let boxed = x.shared receiver_public sender_secret
    ciphertext ← ok_or seal_failed (x.encrypt boxed nonce plaintext)
    ok (nonce ++ ciphertext)

  unfoldable pub open_sealed : Bytes → Bytes → Bytes → CryptoResult Bytes
  open_sealed receiver_secret sender_public sealed =
      if ltb (length sealed) nonce_len
      then err seal_failed
      else ok_or seal_failed (
          x.decrypt (x.shared sender_public receiver_secret) (take nonce_len sealed)
            (drop nonce_len sealed))
