-- ===== src/Aead/Sealed.antt =====
-- core/iedb-crypto/src/aead.rs, over the keys of core/iedb-crypto/src/crypto.rs: who opens what.
use hammurabi_handoff.Prelude.{
  ◌≡◌, ◌↔◌, refl, sym, ap, ◌∙◌, arith, some, ◌++◌, length, take, drop, ltb, false, ok, ◌>>=◌,
  >>=-eq-ok, ok_or, ok_or-eq-ok, take-append_of_length, drop-append_of_length, take-append-drop,
  length-take_of_le, length-append, Bool-cases, inl, inr,
}
use hammurabi_handoff.Crypto.{CryptoResult, Bytes, Primitives, Identity, public_key, seal_failed}
use hammurabi_handoff.Crypto.Keys.{
  Ciphers, CipherLaws, x25519_secret_bytes, x25519_public_from_address,
}
use hammurabi_handoff.Crypto.Scalar.{scalar, x25519_secret_bytes-scalar}
use hammurabi_handoff.Aead.{nonce_len, Boxes, BoxLaws, seal, open_sealed}

module _ (x : Boxes) where
  open_eq-ok :
      (secret public sealed message : Bytes)
      → open_sealed x secret public sealed ≡ ok message
      → (length (take nonce_len sealed) ≡ nonce_len)
        × (x.decrypt (x.shared public secret) (take nonce_len sealed) (drop nonce_len sealed)
            ≡ some message)
  unfolding open_sealed
  open_eq-ok secret public sealed message h = elim (Bool-cases (ltb (length sealed) nonce_len)) [
    | inl short ↦ absurd (ground (arith, h, short))
    | inr long ↦ (
      length-take_of_le nonce_len sealed (ground (arith, long)),
      ok_or-eq-ok seal_failed _ (rw long at h),
    )
  ]

  open_append :
      (secret public nonce ciphertext : Bytes)
      → length nonce ≡ nonce_len
      → open_sealed x secret public (nonce ++ ciphertext)
        ≡ ok_or seal_failed (x.decrypt (x.shared public secret) nonce ciphertext)
  unfolding open_sealed
  open_append secret public nonce ciphertext h =
      let long : ltb (length (nonce ++ ciphertext)) nonce_len ≡ false =
        ground (arith, length-append nonce ciphertext, h) in
      rw
        (
          long,
          take-append_of_length 24 nonce ciphertext h,
          drop-append_of_length 24 nonce ciphertext h,
        )
        refl

  module _ (laws : BoxLaws x) where
    -- Between two secrets, each side with the public key of the other's.
    pub open_sealed_iff :
        (a b sealed message : Bytes)
        → (open_sealed x b (x.public_of a) sealed ≡ ok message) ↔ (
            (nonce : Bytes) × (length nonce ≡ nonce_len)
            × (seal x nonce a (x.public_of b) message ≡ ok sealed))
    unfolding seal
    open_sealed_iff a b sealed message = (
      λ h.
          let (long, decrypted) = open_eq-ok b (x.public_of a) sealed message h in
          let key = x.shared (x.public_of b) a in
          let encrypted =
            (laws.decrypt_iff key (take nonce_len sealed) (drop nonce_len sealed) message).0
              (rw⁻¹ (laws.agreement a b) decrypted) in
          (take nonce_len sealed, long, rw encrypted (ap ok (take-append-drop nonce_len sealed))),
      λ (nonce, long, done).
          let key = x.shared (x.public_of b) a in
          let (ciphertext, encrypted, whole) =
            >>=-eq-ok (ok_or seal_failed (x.encrypt key nonce message)) _ done in
          let decrypted =
            (laws.decrypt_iff key nonce ciphertext message).1
              (ok_or-eq-ok seal_failed _ encrypted) in
          let same : nonce ++ ciphertext ≡ sealed = cc whole in
          rw⁻¹ same (
            open_append b (x.public_of a) nonce ciphertext long
            ∙ rw (laws.agreement a b, decrypted) refl),
    )

module _ (p : Primitives) (c : Ciphers) (x : Boxes) where
  -- A message from one identity to the other's address, and back.
  abbrev pub seal_to : Bytes → Identity → Identity → Bytes → CryptoResult Bytes
  seal_to nonce sender receiver message =
      x25519_public_from_address c (public_key p receiver) >>= λ key.
      seal x nonce (x25519_secret_bytes c sender) key message

  abbrev pub open_from : Identity → Identity → Bytes → CryptoResult Bytes
  open_from receiver sender sealed = x25519_public_from_address c (public_key p sender) >>= λ key.
      open_sealed x (x25519_secret_bytes c receiver) key sealed

  -- Where SHA-512 gives 64 bytes (`CipherLaws`), boxes are as documented (`BoxLaws`), and the Ed25519
  -- public key of a seed, mapped to the Montgomery curve, is the X25519 public key of the scalar that RFC
  -- 7748 makes of the first half of the seed's SHA-512 digest: what an identity opens from a sender's
  -- address is what that sender sealed to the identity's address, under some nonce of 24 bytes; all of
  -- this opens, and nothing else.
  pub open_from_iff :
      CipherLaws c
      → BoxLaws x
      → ((seed : Bytes)
          → c.to_montgomery (p.verifying_key seed)
            ≡ some (x.public_of (scalar (take 32 (c.sha512 seed)))))
      → (sender receiver : Identity) (sealed message : Bytes)
      → (open_from receiver sender sealed ≡ ok message) ↔ (
          (nonce : Bytes) × (length nonce ≡ 24)
          × (seal_to nonce sender receiver message ≡ ok sealed))
  unfolding x25519_public_from_address public_key
  open_from_iff ciphers laws mapped sender receiver sealed message =
      let secret = x25519_secret_bytes-scalar c ciphers in
      let here = mapped sender.seed ∙ ap (λ s. some (x.public_of s)) (sym (secret sender)) in
      let there = mapped receiver.seed ∙ ap (λ s. some (x.public_of s)) (sym (secret receiver)) in
      rw (here, there)
        (open_sealed_iff x laws (x25519_secret_bytes c sender) (x25519_secret_bytes c receiver)
          sealed message)
