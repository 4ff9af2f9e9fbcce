-- ===== src/Settlement/Agreement.antt =====
-- desktop/hammurabi-handoff/src/settlement.rs: the envelope's verifier against that of vault.rs.
use hammurabi_handoff.Prelude.{
  ℕ, ◌≡◌, ◌↔◌, refl, sym, ◌∙◌, arith, String, true, false, not, ◌||◌, ◌∷◌, ◌++◌, str_eq, eq_iff,
  Result-cases, ok, err, >>=-eq-ok, refuse-eq-ok, map_err-eq-ok, map_err, inl, inr, if◌then◌else◌,
}
use hammurabi_handoff.Prelude.Int.{ℤ, ltb_ℤ, eqb_ℤ, eqb_ℤ_iff, add_i64}
use hammurabi_handoff.Json.{Value}
use hammurabi_handoff.Crypto.{Bytes, Primitives, blake3_hash, verify_bytes, show_crypto_error}
use hammurabi_handoff.Jcs.{canonicalize, canonical_message, i64_le_bytes}
use hammurabi_handoff.Jcs.Signing.{verify_payload}
use hammurabi_handoff.Receipts.{PaymentReceipt}
use hammurabi_handoff.Vault.{EphemeralCredential, credential_ttl_secs, decode_fixed, verify}
use hammurabi_handoff.Vault.Binding.{verify_iff}
use hammurabi_handoff.Settlement.{
  malformed_ttl, outside_validity, digest_mismatch, signature_invalid, malformed, package_envelope,
  verify_handoff, decode_hex_array, verify_params, verify_envelope,
}

module _ (p : Primitives) where
  -- The two decoders of a fixed-length hex field accept the same texts.
  decode_agrees :
      (n : ℕ) (s : String) (b : Bytes)
      → (decode_hex_array p n s ≡ ok b) ↔ (decode_fixed p n s ≡ ok b)
  unfolding decode_hex_array decode_fixed
  decode_agrees n s b = elim (Result-cases (p.hex_decode s)) [
    | inl (x, e) ↦ rw e (ground arith)
    | inr (x, e) ↦ rw e (ground arith)
  ]

  verify_payload_message :
      (key signature c : Bytes) (v : Value) (t : ℤ)
      → canonicalize v ≡ ok c
      → verify_payload p key v t signature
        ≡ verify_bytes p key (c ++ (0 ∷ i64_le_bytes t)) signature
  unfolding verify_payload canonical_message
  verify_payload_message key signature c v t e = rw e refl

  module _ (payload : Value) (cred : EphemeralCredential) (receipt : PaymentReceipt) (now : ℤ) where
    envelope_of_vault :
        verify p cred payload now ≡ ok tt
        → verify_envelope p (package_envelope payload cred receipt) now ≡ ok tt
    unfolding verify_envelope verify_params package_envelope
    envelope_of_vault h =
        let a = (verify_iff p cred payload now).0 h in
        let key = (decode_agrees 32 cred.public_key_hex a.key).1 a.key_decodes in
        let sig = (decode_agrees 64 cred.signature_hex a.signature).1 a.signature_decodes in
        let ttl =
          (eqb_ℤ_iff cred.expires_at (add_i64 cred.issued_at credential_ttl_secs)).1 a.ttl in
        let early : ltb_ℤ now cred.issued_at ≡ false = ground (arith, a.not_before) in
        let late : ltb_ℤ now cred.expires_at ≡ true = ground (arith, a.not_after) in
        let digest =
          (eq_iff (p.hex_encode (blake3_hash p a.canonical)) cred.payload_digest_hex).1 a.digest in
        let signed =
          sym (
            verify_payload_message a.key a.signature a.canonical payload cred.issued_at
              a.is_canonical)
          ∙ a.is_signed in
        rw (key, sig, a.is_canonical, digest, ttl, early, late, signed) refl

    vault_of_envelope :
        verify_envelope p (package_envelope payload cred receipt) now ≡ ok tt
        → verify p cred payload now ≡ ok tt
    unfolding verify_envelope verify_params package_envelope
    vault_of_envelope h =
        let (k, ek, h₁) = >>=-eq-ok (decode_hex_array p 32 cred.public_key_hex) _ h in
        let (s, es, h₂) = >>=-eq-ok (decode_hex_array p 64 cred.signature_hex) _ h₁ in
        let (c, ec, h₃) =
          >>=-eq-ok (map_err (λ e. malformed (show_crypto_error e)) (canonicalize payload)) _ h₂ in
        let canonical =
          map_err-eq-ok (λ e. malformed (show_crypto_error e)) (canonicalize payload) ec in
        let (digest, h₄) =
          refuse-eq-ok (not (str_eq (p.hex_encode (blake3_hash p c)) cred.payload_digest_hex))
            digest_mismatch (verify_handoff p k s c cred.issued_at cred.expires_at now) h₃ in
        let signed = verify_bytes p k (c ++ (0 ∷ i64_le_bytes cred.issued_at)) s in
        let (ttl, h₅) =
          refuse-eq-ok (not (eqb_ℤ cred.expires_at (add_i64 cred.issued_at credential_ttl_secs)))
            malformed_ttl
            (if ltb_ℤ now cred.issued_at || not (ltb_ℤ now cred.expires_at)
              then err (outside_validity cred.issued_at cred.expires_at now)
              else map_err (λ _. signature_invalid) signed)
            h₄ in
        let (window, h₆) =
          refuse-eq-ok (ltb_ℤ now cred.issued_at || not (ltb_ℤ now cred.expires_at))
            (outside_validity cred.issued_at cred.expires_at now)
            (map_err (λ _. signature_invalid) signed) h₅ in
        (verify_iff p cred payload now).1 (record {
          ttl =
              ground (
                arith,
                ttl,
                eqb_ℤ_iff cred.expires_at (add_i64 cred.issued_at credential_ttl_secs),
              );
          not_before = ground (arith, window);
          not_after = ground (arith, window);
          canonical = c;
          is_canonical = canonical;
          digest =
              ground
                (arith, digest, eq_iff (p.hex_encode (blake3_hash p c)) cred.payload_digest_hex);
          key = k;
          signature = s;
          key_decodes = (decode_agrees 32 cred.public_key_hex k).0 ek;
          signature_decodes = (decode_agrees 64 cred.signature_hex s).0 es;
          is_signed =
              verify_payload_message k s c payload cred.issued_at canonical
              ∙ map_err-eq-ok (λ _. signature_invalid) signed h₆;
        })

    -- The verifier of the packaged envelope accepts exactly if the vault accepts the credential for the
    -- payload at that time, whatever receipt is packaged with them.
    pub verify_envelope_iff :
        (verify_envelope p (package_envelope payload cred receipt) now ≡ ok tt)
        ↔ (verify p cred payload now ≡ ok tt)
    verify_envelope_iff = (vault_of_envelope, envelope_of_vault)
