-- ===== src/Vault/Accepted.antt =====
-- desktop/hammurabi-handoff/src/vault.rs, down to the functions of the hashing, signing and hex crates:
-- what an accepted credential is.
use hammurabi_handoff.Prelude.{
  ℕ, ◌≡◌, ◌↔◌, refl, arith, String, true, Bool-cases, none, ◌∷◌, ◌++◌, length, ◌==◌, ok, >>=-eq-ok,
  map_err, map_err-eq-ok, inl, inr,
}
use hammurabi_handoff.Prelude.Int.{ℤ, pos, InI64, ◌+ℤ◌, ◌<ℤ◌, ◌≤ℤ◌, add_i64_exact}
use hammurabi_handoff.Json.{Value}
use hammurabi_handoff.Crypto.{Bytes, Primitives, blake3_hash, verify_bytes, verify_signature}
use hammurabi_handoff.Jcs.{canonicalize, canonical_message, i64_le_bytes}
use hammurabi_handoff.Jcs.Signing.{verify_payload}
use hammurabi_handoff.Vault.{EphemeralCredential, malformed, decode_fixed, verify}
use hammurabi_handoff.Vault.Binding.{Accepts, verify_iff}

module _ (p : Primitives) where
  -- A text in hex of so many bytes.
  decode_fixed_iff :
      (n : ℕ) (s : String) (bytes : Bytes)
      → (decode_fixed p n s ≡ ok bytes) ↔ ((p.hex_decode s ≡ ok bytes) × (length bytes ≡ n))
  unfolding decode_fixed
  decode_fixed_iff n s bytes = (
    λ h.
        let (b, eb, h₁) = >>=-eq-ok (map_err malformed (p.hex_decode s)) _ h in
        let decoded = map_err-eq-ok malformed (p.hex_decode s) eb in
        elim (Bool-cases (length b == n)) [
          | inl fits ↦
              let same : b ≡ bytes = cc (rw fits at h₁) in
              (cc (decoded, same), ground (arith, fits, same))
          | inr other ↦ cc (rw other at h₁)
        ],
    λ (decoded, long). ground (arith, decoded, long),
  )

  -- The key is accepted and verifies the signature of 64 bytes over the canonical form, a zero byte and
  -- the time.
  verify_payload_iff :
      (key signature canonical : Bytes) (payload : Value) (t : ℤ)
      → canonicalize payload ≡ ok canonical
      → length signature ≡ 64
      → (verify_payload p key payload t signature ≡ ok tt) ↔ (
          (p.key_error key ≡ none)
          × (p.verify key (canonical ++ (0 ∷ i64_le_bytes t)) signature ≡ true))
  unfolding verify_payload canonical_message verify_bytes verify_signature
  verify_payload_iff key signature canonical payload t e long = (
    λ h. ground (arith, rw (e, long) at h),
    λ (good, signed). rw (e, long, verify_signature, good, signed) refl,
  )

  pub record IsBacked (cred : EphemeralCredential) (payload : Value) (now : ℤ) : Type 0 where
    pub lifetime : cred.expires_at ≡ cred.issued_at +ℤ pos 60
    pub not_before : cred.issued_at ≤ℤ now
    pub not_after : now <ℤ cred.issued_at +ℤ pos 60
    pub canonical : Bytes
    pub is_canonical : canonicalize payload ≡ ok canonical
    pub digest : p.hex_encode (p.blake3 canonical) ≡ cred.payload_digest_hex
    pub key : Bytes
    pub signature : Bytes
    pub key_decodes : p.hex_decode cred.public_key_hex ≡ ok key
    pub length_key : length key ≡ 32
    pub signature_decodes : p.hex_decode cred.signature_hex ≡ ok signature
    pub length_signature : length signature ≡ 64
    pub key_valid : p.key_error key ≡ none
    pub signed : p.verify key (canonical ++ (0 ∷ i64_le_bytes cred.issued_at)) signature ≡ true

  module _ (cred : EphemeralCredential) (payload : Value) (now : ℤ)
      (fits : InI64 (cred.issued_at +ℤ pos 60)) where
    Accepts-IsBacked : Accepts p cred payload now → IsBacked cred payload now
    unfolding blake3_hash
    Accepts-IsBacked a =
        let lifetime = rw (add_i64_exact cred.issued_at (pos 60) fits) at a.ttl in
        let (key_hex, length_key) =
          (decode_fixed_iff 32 cred.public_key_hex a.key).0 a.key_decodes in
        let (sig_hex, length_sig) =
          (decode_fixed_iff 64 cred.signature_hex a.signature).0 a.signature_decodes in
        let (valid, signed) =
          (verify_payload_iff a.key a.signature a.canonical payload cred.issued_at a.is_canonical
              length_sig).0
            a.is_signed in
        record {
          lifetime = lifetime;
          not_before = a.not_before;
          not_after = rw lifetime at a.not_after;
          canonical = a.canonical;
          is_canonical = a.is_canonical;
          digest = a.digest;
          key = a.key;
          signature = a.signature;
          key_decodes = key_hex;
          length_key = length_key;
          signature_decodes = sig_hex;
          length_signature = length_sig;
          key_valid = valid;
          signed = signed;
        }

    IsBacked-Accepts : IsBacked cred payload now → Accepts p cred payload now
    unfolding blake3_hash
    IsBacked-Accepts b = record {
      ttl = rw (add_i64_exact cred.issued_at (pos 60) fits) b.lifetime;
      not_before = b.not_before;
      not_after = rw b.lifetime b.not_after;
      canonical = b.canonical;
      is_canonical = b.is_canonical;
      digest = b.digest;
      key = b.key;
      signature = b.signature;
      key_decodes = (decode_fixed_iff 32 cred.public_key_hex b.key).1 (b.key_decodes, b.length_key);
      signature_decodes =
          (decode_fixed_iff 64 cred.signature_hex b.signature).1
            (b.signature_decodes, b.length_signature);
      is_signed =
          (verify_payload_iff b.key b.signature b.canonical payload cred.issued_at b.is_canonical
              b.length_signature).1
            (b.key_valid, b.signed);
    }

    -- For a credential whose time of issue plus 60 is an `i64`: it is accepted for a payload at a time
    -- exactly if it expires 60 seconds after its issue, the time is from the issue on and before the
    -- 60 seconds are over, the payload has a canonical form whose BLAKE3 digest is, in hex, the
    -- credential's, and the key and the signature, of 32 and 64 bytes, decode from hex, and that key is a
    -- valid one that verifies that signature over the canonical form, a zero byte and the 8 bytes of the
    -- time of issue.
    pub verify-IsBacked_iff : (verify p cred payload now ≡ ok tt) ↔ IsBacked cred payload now
    verify-IsBacked_iff = (
      λ h. Accepts-IsBacked ((verify_iff p cred payload now).0 h),
      λ b. (verify_iff p cred payload now).1 (IsBacked-Accepts b),
    )
