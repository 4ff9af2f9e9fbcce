-- ===== src/Vault/Mint.antt =====
-- desktop/hammurabi-handoff/src/vault.rs: what a minted credential is, and when it verifies.
use hammurabi_handoff.Prelude.{
  ℕ, ◌≡◌, refl, sym, ap, ◌∙◌, arith, true, not, ◌&&◌, length, eq_refl, Result-cases, Bool-cases, ok,
  err, >>=-eq-ok, inl, inr, if◌then◌else◌,
}
use hammurabi_handoff.Prelude.Int.{
  ℤ, pos, InI64, ◌+ℤ◌, ltb_ℤ, eqb_ℤ, eqb_ℤ_iff, add_i64, add_i64_exact,
}
use hammurabi_handoff.Json.{Value}
use hammurabi_handoff.Crypto.{Bytes, Primitives, Laws, blake3_hash, public_key, sign_bytes}
use hammurabi_handoff.Jcs.{canonicalize, canonical_message}
use hammurabi_handoff.Jcs.Signing.{sign_payload, verify_payload-sign_payload}
use hammurabi_handoff.Receipts.{PaymentReceipt}
use hammurabi_handoff.Vault.{
  all_clear, EphemeralCredential, outside_validity, MintEntropy, chaos_test, mint, decode_fixed,
  verify, credential_ttl_secs,
}

module _ (p : Primitives) (entropy : MintEntropy) where
  -- The key of a mint.
  abbrev pub minted_key : Bytes
  minted_key = public_key p (record { seed = entropy.seed })

  -- Everything that a successful mint went through.
  pub record Minted (payload : Value) (receipt : PaymentReceipt) (now : ℤ)
      (cred : EphemeralCredential) : Type 0 where
    pub canonical : Bytes
    pub signature : Bytes
    pub is_canonical : canonicalize payload ≡ ok canonical
    pub is_signed : sign_payload p (record { seed = entropy.seed }) payload now ≡ ok signature
    pub is_clear : all_clear (chaos_test p entropy minted_key payload now signature) ≡ true
    pub released : cred ≡ record {
      credential_id = entropy.ulid;
      intent_id = receipt.intent_id;
      receipt_id = receipt.receipt_id;
      public_key_hex = p.hex_encode minted_key;
      signature_hex = p.hex_encode signature;
      payload_digest_hex = p.hex_encode (blake3_hash p canonical);
      issued_at = now;
      expires_at = add_i64 now credential_ttl_secs;
      chaos = chaos_test p entropy minted_key payload now signature;
    }

  pub mint-Minted :
      (payload : Value) (receipt : PaymentReceipt) (now : ℤ) (cred : EphemeralCredential)
      → mint p entropy payload receipt now ≡ ok cred
      → Minted payload receipt now cred
  unfolding mint
  mint-Minted payload receipt now cred h = elim (Result-cases (canonicalize payload)) [
    | inl (c, e) ↦
        elim (Result-cases (sign_payload p (record { seed = entropy.seed }) payload now)) [
          | inl (s, e') ↦
              elim (Bool-cases (all_clear (chaos_test p entropy minted_key payload now s))) [
                | inl clear ↦ record {
                  canonical = c;
                  signature = s;
                  is_canonical = e;
                  is_signed = e';
                  is_clear = clear;
                  released = cc (rw (e, e', clear) at h);
                }
                | inr bad ↦ cc (rw (e, e', bad) at h)
              ]
          | inr (x, e') ↦ cc (rw (e, e') at h)
        ]
    | inr (x, e) ↦ cc (rw e at h)
  ]

  -- A released credential passed every probe, is bound to the receipt's intent and id, is issued at
  -- the caller's time, and expires 60 seconds later in exact integers, where that time fits an
  -- `i64`.
  pub mint_fields :
      (payload : Value) (receipt : PaymentReceipt) (now : ℤ) (cred : EphemeralCredential)
      → InI64 (now +ℤ pos 60)
      → mint p entropy payload receipt now ≡ ok cred
      → (all_clear cred.chaos ≡ true)
        × (cred.intent_id ≡ receipt.intent_id)
        × (cred.receipt_id ≡ receipt.receipt_id)
        × (cred.issued_at ≡ now)
        × (cred.expires_at ≡ now +ℤ pos 60)
  mint_fields payload receipt now cred fits h =
      let m = mint-Minted payload receipt now cred h in
      rw (m.released, add_i64_exact now (pos 60) fits) (m.is_clear, refl, refl, refl, refl)

module _ (p : Primitives) (laws : Laws p) (entropy : MintEntropy) where
  -- A hex field of the right length decodes to what was encoded.
  decode_fixed-hex_encode :
      (n : ℕ) (bytes : Bytes) → length bytes ≡ n → decode_fixed p n (p.hex_encode bytes) ≡ ok bytes
  unfolding decode_fixed
  decode_fixed-hex_encode n bytes h = rw laws.hex_decode-hex_encode (ground arith)

  length-signed :
      (payload : Value) (now : ℤ) (signature : Bytes)
      → sign_payload p (record { seed = entropy.seed }) payload now ≡ ok signature
      → length signature ≡ 64
  unfolding sign_payload sign_bytes
  length-signed payload now signature h =
      let (m, _, q) = >>=-eq-ok (canonical_message payload now) _ h in
      let e : p.sign entropy.seed m ≡ signature = cc q in
      ap length (sym e) ∙ laws.length-sign entropy.seed m

  -- Where the crates are as documented (`Laws`): a freshly minted credential verifies against its
  -- payload exactly from its issue until 60 seconds later, the end excluded, where that end fits an
  -- `i64`; at any other time it is refused as outside its validity.
  pub verify-mint :
      (payload : Value) (receipt : PaymentReceipt) (now t : ℤ) (cred : EphemeralCredential)
      → InI64 (now +ℤ pos 60)
      → mint p entropy payload receipt now ≡ ok cred
      → verify p cred payload t ≡ (
          if not (ltb_ℤ t now) && ltb_ℤ t (now +ℤ pos 60)
          then ok tt
          else err (outside_validity now (now +ℤ pos 60) t))
  unfolding verify public_key
  verify-mint payload receipt now t cred fits h =
      let m = mint-Minted p entropy payload receipt now cred h in
      let exact = add_i64_exact now (pos 60) fits in
      let same : eqb_ℤ (now +ℤ pos 60) (now +ℤ pos 60) ≡ true =
        (eqb_ℤ_iff (now +ℤ pos 60) (now +ℤ pos 60)).1 refl in
      let key =
        decode_fixed-hex_encode 32 (p.verifying_key entropy.seed)
          (laws.length-verifying_key entropy.seed) in
      let sig =
        decode_fixed-hex_encode 64 m.signature
          (length-signed payload now m.signature m.is_signed) in
      let good =
        verify_payload-sign_payload p laws (record { seed = entropy.seed }) payload now m.signature
          m.is_signed in
      rw (m.released, exact, same, m.is_canonical, eq_refl, key, sig, good) (ground arith)
