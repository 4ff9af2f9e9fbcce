-- ===== src/Crypto/Keyfile.antt =====
-- core/iedb-crypto/src/crypto.rs: which blobs are key files.
use hammurabi_handoff.Prelude.{
  ℕ, drop-drop, ◌+◌, ◌≤◌, ◌<◌, ◌≡◌, ◌↔◌, refl, sym, ap, ◌∙◌, arith, some, [], ◌∷◌, ◌++◌, length,
  take, drop, leb, false, ok, >>=-eq-ok, ok_or, take-append_of_length, drop-append_of_length,
  three_parts, length-append, length-take_of_le, length-drop, ok_or-eq-ok,
}
use hammurabi_handoff.Crypto.{Bytes, Identity, seal_failed}
use hammurabi_handoff.Crypto.Keys.{
  Ciphers, CipherLaws, keystore_version, salt_len, nonce_len, header_len, derive_key, new_cipher,
  seed_of, from_seed, decrypt_seed, seal, open_sealed,
}

seed_of-eq-ok :
    (plaintext seed : Bytes)
    → seed_of plaintext ≡ ok seed
    → (length plaintext ≡ 32) × (plaintext ≡ seed)
seed_of-eq-ok plaintext seed h = ground arith

module _ (c : Ciphers) (passphrase : Bytes) where
  -- What a sealing goes through, and what stands in the blob.
  record Sealing (salt nonce seed ciphertext : Bytes) : Type 0 where
    pub key : Bytes
    pub derived : derive_key c passphrase salt ≡ ok key
    pub accepted : new_cipher c key ≡ ok tt
    pub encrypted : c.encrypt key nonce seed ≡ some ciphertext

  abbrev layout : Bytes → Bytes → Bytes → Bytes
  layout salt nonce ciphertext = keystore_version ∷ (salt ++ (nonce ++ ciphertext))

  seal-Sealing :
      (salt nonce blob : Bytes) (identity : Identity)
      → seal c salt nonce identity passphrase ≡ ok blob
      → (ciphertext : Bytes) × Sealing salt nonce identity.seed ciphertext
        × (layout salt nonce ciphertext ≡ blob)
  unfolding seal
  seal-Sealing salt nonce blob identity h =
      let (key, derived, h₁) = >>=-eq-ok (derive_key c passphrase salt) _ h in
      let (_, accepted, h₂) = >>=-eq-ok (new_cipher c key) _ h₁ in
      let (ciphertext, encrypted, h₃) =
        >>=-eq-ok (ok_or seal_failed (c.encrypt key nonce identity.seed)) _ h₂ in
      (
        ciphertext,
        record {
          key = key;
          derived = derived;
          accepted = accepted;
          encrypted = ok_or-eq-ok seal_failed _ encrypted;
        },
        cc h₃,
      )

  Sealing-seal :
      (salt nonce ciphertext : Bytes) (identity : Identity)
      → Sealing salt nonce identity.seed ciphertext
      → seal c salt nonce identity passphrase ≡ ok (layout salt nonce ciphertext)
  unfolding seal
  Sealing-seal salt nonce ciphertext identity s = rw (s.derived, s.accepted, s.encrypted) refl

  module _ (laws : CipherLaws c) where
    Sealing-decrypt_seed :
        (salt nonce ciphertext : Bytes) (identity : Identity)
        → length identity.seed ≡ 32
        → Sealing salt nonce identity.seed ciphertext
        → decrypt_seed c salt nonce ciphertext passphrase ≡ ok identity
    unfolding decrypt_seed from_seed
    Sealing-decrypt_seed salt nonce ciphertext identity hi s =
        let decrypted = (laws.decrypt_iff s.key nonce ciphertext identity.seed).1 s.encrypted in
        rw (s.derived, s.accepted, decrypted, hi) refl

    decrypt_seed-Sealing :
        (salt nonce ciphertext : Bytes) (identity : Identity)
        → decrypt_seed c salt nonce ciphertext passphrase ≡ ok identity
        → (length identity.seed ≡ 32) × Sealing salt nonce identity.seed ciphertext
    unfolding decrypt_seed from_seed
    decrypt_seed-Sealing salt nonce ciphertext identity h =
        let (key, derived, h₁) = >>=-eq-ok (derive_key c passphrase salt) _ h in
        let (_, accepted, h₂) = >>=-eq-ok (new_cipher c key) _ h₁ in
        let (plaintext, decrypted, h₃) =
          >>=-eq-ok (ok_or seal_failed (c.decrypt key nonce ciphertext)) _ h₂ in
        let (seed, right, h₄) = >>=-eq-ok (seed_of plaintext) _ h₃ in
        let same : seed ≡ identity.seed = ground (arith, h₄) in
        let (long, whole) = seed_of-eq-ok plaintext seed right in
        (
          rw⁻¹ same (rw⁻¹ whole long),
          record {
            key = key;
            derived = derived;
            accepted = accepted;
            encrypted = rw⁻¹ same (
                rw⁻¹ whole (
                  (laws.decrypt_iff key nonce ciphertext plaintext).0
                    (ok_or-eq-ok seal_failed _ decrypted)));
          },
        )

    open_sealed-layout :
        (salt nonce ciphertext : Bytes)
        → length salt ≡ 16
        → length nonce ≡ 12
        → 1 ≤ length ciphertext
        → open_sealed c (layout salt nonce ciphertext) passphrase
          ≡ decrypt_seed c salt nonce ciphertext passphrase
    unfolding open_sealed
    open_sealed-layout salt nonce ciphertext hs hn long =
        let rest = salt ++ (nonce ++ ciphertext) in
        let fits : leb (length (keystore_version ∷ rest)) header_len ≡ false = ground (
          arith,
          length-append salt (nonce ++ ciphertext),
          length-append nonce ciphertext,
          hs,
          hn,
          long,
        ) in
        let behind = drop-append_of_length 16 salt (nonce ++ ciphertext) hs in
        rw
          (
            fits,
            take-append_of_length 16 salt (nonce ++ ciphertext) hs,
            behind,
            take-append_of_length 12 nonce ciphertext hn,
            sym (drop-drop 12 16 rest)
                ∙ ap (drop 12) behind
                ∙ drop-append_of_length 12 nonce ciphertext hn,
          )
          refl

    past_header :
        (v : ℕ) (rest : Bytes) (identity : Identity)
        → open_sealed c (v ∷ rest) passphrase ≡ ok identity
        → (28 < length rest)
          × (v ≡ keystore_version)
          × (decrypt_seed c
                (take salt_len rest)
                (take nonce_len (drop salt_len rest))
                (drop (salt_len + nonce_len) rest)
                passphrase
              ≡ ok identity)
    unfolding open_sealed
    past_header v rest identity h = (ground (arith, h), ground (arith, h), ground (arith, h))

    open_sealed-parts :
        (blob : Bytes) (identity : Identity)
        → open_sealed c blob passphrase ≡ ok identity
        → (salt nonce ciphertext : Bytes) × (length salt ≡ 16)
          × (length nonce ≡ 12)
          × (decrypt_seed c salt nonce ciphertext passphrase ≡ ok identity)
          × (layout salt nonce ciphertext ≡ blob)
    unfolding open_sealed
    open_sealed-parts [] identity h = absurd (ground (arith, h))
    open_sealed-parts (v ∷ rest) identity h =
        let (long, version, opened) = past_header v rest identity h in
        (
          take salt_len rest,
          take nonce_len (drop salt_len rest),
          drop (salt_len + nonce_len) rest,
          length-take_of_le 16 rest (omega (arith, long)),
          length-take_of_le 12 (drop 16 rest) (omega (arith, long, length-drop 16 rest)),
          opened,
          cc (version, three_parts 16 12 rest),
        )

    -- Where the cipher is as documented (`CipherLaws`): a blob opens under a passphrase to an identity
    -- exactly if sealing that identity, of a seed of 32 bytes, under that passphrase gives that blob, for
    -- some salt of 16 bytes and some nonce of 12.
    pub open_sealed_iff :
        (blob : Bytes) (identity : Identity)
        → (open_sealed c blob passphrase ≡ ok identity) ↔ (
            (salt nonce : Bytes) × (length salt ≡ 16)
            × (length nonce ≡ 12)
            × (length identity.seed ≡ 32)
            × (seal c salt nonce identity passphrase ≡ ok blob))
    open_sealed_iff blob identity = (
      λ h.
          let (salt, nonce, ciphertext, hs, hn, decrypted, whole) =
            open_sealed-parts blob identity h in
          let (hi, s) = decrypt_seed-Sealing salt nonce ciphertext identity decrypted in
          (salt, nonce, hs, hn, hi, Sealing-seal salt nonce ciphertext identity s ∙ ap ok whole),
      λ (salt, nonce, hs, hn, hi, sealed).
          let (ciphertext, s, whole) = seal-Sealing salt nonce blob identity sealed in
          let long = laws.length-encrypt s.key nonce identity.seed ciphertext s.encrypted in
          rw⁻¹ whole (
            open_sealed-layout salt nonce ciphertext hs hn (omega (arith, long))
            ∙ Sealing-decrypt_seed salt nonce ciphertext identity hi s),
    )
