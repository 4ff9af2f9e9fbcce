-- ===== src/Jcs/Signing.antt =====
-- core/iedb-crypto/src/jcs.rs: signing and verifying a payload's canonical message.
use hammurabi_handoff.Prelude.{◌≡◌, arith, ok, ◌>>=◌, >>=-eq-ok}
use hammurabi_handoff.Prelude.Int.{ℤ}
use hammurabi_handoff.Json.{Value}
use hammurabi_handoff.Crypto.{
  Bytes, CryptoResult, Primitives, Laws, Identity, public_key, sign_bytes, verify_bytes,
}
use hammurabi_handoff.Jcs.{canonical_message}

module _ (p : Primitives) where
  unfoldable pub sign_payload : Identity → Value → ℤ → CryptoResult Bytes
  sign_payload identity params timestamp = do
    msg ← canonical_message params timestamp
    ok (sign_bytes p identity msg)

  unfoldable pub verify_payload : Bytes → Value → ℤ → Bytes → CryptoResult (Unit {0})
  verify_payload public_key params timestamp signature = do
    msg ← canonical_message params timestamp
    verify_bytes p public_key msg signature

  module _ (laws : Laws p) where
    -- An identity's signature of a message verifies under its public key.
    pub verify_bytes-sign_bytes :
        (identity : Identity) (msg : Bytes)
        → verify_bytes p (public_key p identity) msg (sign_bytes p identity msg) ≡ ok tt
    unfolding verify_bytes public_key sign_bytes
    verify_bytes-sign_bytes identity msg = ground (
      arith,
      laws.length-sign identity.seed msg,
      laws.key_accepted identity.seed,
      laws.verify-sign identity.seed msg,
    )

    -- What `sign_payload` signs, `verify_payload` accepts under the public key of the identity that signed,
    -- for the same payload and timestamp.
    pub verify_payload-sign_payload :
        (identity : Identity) (params : Value) (timestamp : ℤ) (signature : Bytes)
        → sign_payload identity params timestamp ≡ ok signature
        → verify_payload (public_key p identity) params timestamp signature ≡ ok tt
    unfolding sign_payload verify_payload
    verify_payload-sign_payload identity params timestamp signature h =
        let (msg, pm, q) =
          >>=-eq-ok (canonical_message params timestamp) (λ m. ok (sign_bytes p identity m)) h in
        let e : sign_bytes p identity msg ≡ signature = cc q in
        rw (pm, ← e) (verify_bytes-sign_bytes identity msg)
