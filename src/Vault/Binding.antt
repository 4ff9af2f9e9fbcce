-- ===== src/Vault/Binding.antt =====
-- desktop/hammurabi-handoff/src/vault.rs: what an accepted credential says of its payload.
use native.Mathlib.Decide.{ℕ_discrete}
use hammurabi_handoff.Prelude.{
  ◌≡◌, ◌≢◌, ◌↔◌, ◌⊎◌, refl, sym, ap, ◌∙◌, arith, true, false, not, ◌||◌, str_eq, eq_iff, ok, err,
  >>=-eq-ok, refuse-eq-ok, map_err-eq-ok, map_err, inl, inr, if◌then◌else◌,
}
use hammurabi_handoff.Prelude.Int.{ℤ, ◌<ℤ◌, ◌≤ℤ◌, ltb_ℤ, eqb_ℤ, eqb_ℤ_iff, add_i64}
use hammurabi_handoff.Json.{Value}
use hammurabi_handoff.Crypto.{Bytes, Primitives, Laws, blake3_hash, show_crypto_error}
use hammurabi_handoff.Jcs.{canonicalize}
use hammurabi_handoff.Jcs.Reorder.{Reordered, canonicalize-Reordered, canonical_message-Reordered}
use hammurabi_handoff.Jcs.Integers.{keys_distinct}
use hammurabi_handoff.Jcs.Unique.{canonicalize_injective}
use hammurabi_handoff.Jcs.Signing.{verify_payload}
use hammurabi_handoff.Vault.{
  EphemeralCredential, not_canonical, outside_validity, malformed_ttl, digest_mismatch,
  signature_invalid, credential_ttl_secs, decode_fixed, verify_material, verify_binding, verify,
}

bytes_discrete : Discrete Bytes
bytes_discrete = hlevel ℕ_discrete

module _ (p : Primitives) where
  -- What it takes for a credential to be accepted for a payload at a time.
  pub record Accepts (cred : EphemeralCredential) (payload : Value) (now : ℤ) : Type 0 where
    pub ttl : cred.expires_at ≡ add_i64 cred.issued_at credential_ttl_secs
    pub not_before : cred.issued_at ≤ℤ now
    pub not_after : now <ℤ cred.expires_at
    pub canonical : Bytes
    pub is_canonical : canonicalize payload ≡ ok canonical
    pub digest : p.hex_encode (blake3_hash p canonical) ≡ cred.payload_digest_hex
    pub key : Bytes
    pub signature : Bytes
    pub key_decodes : decode_fixed p 32 cred.public_key_hex ≡ ok key
    pub signature_decodes : decode_fixed p 64 cred.signature_hex ≡ ok signature
    pub is_signed : verify_payload p key payload cred.issued_at signature ≡ ok tt

  verify-Accepts :
      (cred : EphemeralCredential) (payload : Value) (now : ℤ)
      → verify p cred payload now ≡ ok tt
      → Accepts cred payload now
  unfolding verify
  verify-Accepts cred payload now h =
      let (ttl, h₁) =
        refuse-eq-ok (not (eqb_ℤ cred.expires_at (add_i64 cred.issued_at credential_ttl_secs)))
          malformed_ttl
          (if ltb_ℤ now cred.issued_at || not (ltb_ℤ now cred.expires_at)
            then err (outside_validity cred.issued_at cred.expires_at now)
            else verify_binding p cred payload)
          h in
      let (window, h₂) =
        refuse-eq-ok (ltb_ℤ now cred.issued_at || not (ltb_ℤ now cred.expires_at))
          (outside_validity cred.issued_at cred.expires_at now) (verify_binding p cred payload)
          h₁ in
      let (c, ec, h₃) =
        >>=-eq-ok (map_err (λ e. not_canonical (show_crypto_error e)) (canonicalize payload)) _
          h₂ in
      let (digest, h₄) =
        refuse-eq-ok (not (str_eq (p.hex_encode (blake3_hash p c)) cred.payload_digest_hex))
          digest_mismatch (verify_material p cred payload) h₃ in
      let (k, ek, h₅) = >>=-eq-ok (decode_fixed p 32 cred.public_key_hex) _ h₄ in
      let (s, es, h₆) = >>=-eq-ok (decode_fixed p 64 cred.signature_hex) _ h₅ in
      record {
        ttl =
            ground
              (arith, ttl, eqb_ℤ_iff cred.expires_at (add_i64 cred.issued_at credential_ttl_secs));
        not_before = ground (arith, window);
        not_after = ground (arith, window);
        canonical = c;
        is_canonical =
            map_err-eq-ok (λ e. not_canonical (show_crypto_error e)) (canonicalize payload) ec;
        digest =
            ground (arith, digest, eq_iff (p.hex_encode (blake3_hash p c)) cred.payload_digest_hex);
        key = k;
        signature = s;
        key_decodes = ek;
        signature_decodes = es;
        is_signed =
            map_err-eq-ok (λ _. signature_invalid) (verify_payload p k payload cred.issued_at s) h₆;
      }

  verify_if :
      (cred : EphemeralCredential) (payload : Value) (now : ℤ)
      → Accepts cred payload now
      → verify p cred payload now ≡ ok tt
  unfolding verify
  verify_if cred payload now a =
      let ttl = (eqb_ℤ_iff cred.expires_at (add_i64 cred.issued_at credential_ttl_secs)).1 a.ttl in
      let early : ltb_ℤ now cred.issued_at ≡ false = ground (arith, a.not_before) in
      let late : ltb_ℤ now cred.expires_at ≡ true = ground (arith, a.not_after) in
      let digest =
        (eq_iff (p.hex_encode (blake3_hash p a.canonical)) cred.payload_digest_hex).1 a.digest in
      rw (ttl, early, late, a.is_canonical, digest, a.key_decodes, a.signature_decodes, a.is_signed)
        refl

  -- The tests of `verify`, one by one.
  pub verify_iff :
      (cred : EphemeralCredential) (payload : Value) (now : ℤ)
      → (verify p cred payload now ≡ ok tt) ↔ Accepts cred payload now
  verify_iff cred payload now = (verify-Accepts cred payload now, verify_if cred payload now)

  module _ (laws : Laws p) where
    hex_encode_injective : (a b : Bytes) → p.hex_encode a ≡ p.hex_encode b → a ≡ b
    hex_encode_injective a b h =
        cc (laws.hex_decode-hex_encode a, laws.hex_decode-hex_encode b, ap p.hex_decode h)

    -- Where the crates are as documented (`Laws`): two payloads, in whose objects no key is
    -- repeated, that one credential is accepted for, at any two times, differ in the order of
    -- object members only, or their canonical forms are a collision of BLAKE3: two byte strings
    -- that differ and have the same hash.
    pub verify_binds_payload :
        (cred : EphemeralCredential) (v w : Value) (s t : ℤ)
        → keys_distinct v ≡ true
        → keys_distinct w ≡ true
        → verify p cred v s ≡ ok tt
        → verify p cred w t ≡ ok tt
        → Reordered v w
          ⊎ ((c : Bytes) × (d : Bytes) × (c ≢ d)
              × (p.blake3 c ≡ p.blake3 d)
              × (canonicalize v ≡ ok c)
              × (canonicalize w ≡ ok d))
    unfolding blake3_hash
    verify_binds_payload cred v w s t dv dw hv hw =
        let a = verify-Accepts cred v s hv in
        let b = verify-Accepts cred w t hw in
        elim (bytes_discrete a.canonical b.canonical) [
          | yes e ↦ inl (
              canonicalize_injective v w a.canonical dv dw a.is_canonical
                (b.is_canonical ∙ ap ok (sym e)))
          | no differ ↦ inr (
            a.canonical,
            b.canonical,
            differ,
            hex_encode_injective (p.blake3 a.canonical) (p.blake3 b.canonical)
                (a.digest ∙ sym b.digest),
            a.is_canonical,
            b.is_canonical,
          )
        ]

-- Whether a credential is accepted, and every refusal, is the same for two payloads that differ in
-- the order of object members only, at any depth.
pub verify-Reordered :
    (p : Primitives) (cred : EphemeralCredential) {v w : Value} (now : ℤ)
    → Reordered v w
    → verify p cred v now ≡ verify p cred w now
unfolding verify verify_binding verify_material verify_payload
verify-Reordered p cred now r =
    rw (canonicalize-Reordered r, canonical_message-Reordered cred.issued_at r) refl
