-- ===== src/Vault.antt =====
-- desktop/hammurabi-handoff/src/vault.rs: minting and verifying a credential. The randomness that a mint
-- draws is an argument, `MintEntropy`; the signing key is a function of the drawn seed.
pub mod Mint
pub mod Binding
pub mod Accepted
pub mod Tamper
pub mod Probes
pub mod Chaos
use Prim.Native.Nat.{bit_xor}
use hammurabi_handoff.Prelude.{
  ℕ, zero, suc, ◌+◌, ◌*◌, ◌/◌, ◌%◌, ◌^◌, String, Bool, true, false, not, ◌&&◌, ◌||◌, List, [], ◌∷◌,
  length, get_or, set, str_eq, ◌==◌, show_ℕ, ◌<>◌, Result, ok, err, ◌>>=◌, map_err, is_ok, is_err,
  if◌then◌else◌,
}
use hammurabi_handoff.Prelude.Int.{ℤ, pos, ltb_ℤ, eqb_ℤ, add_i64, sub_i64, show_ℤ}
use hammurabi_handoff.Json.{Value, object, natural, fields, insert_field}
use hammurabi_handoff.Crypto.{
  CryptoError, Bytes, Primitives, Identity, blake3_hash, public_key, verify_bytes,
  show_crypto_error,
}
use hammurabi_handoff.Jcs.{canonicalize, canonical_message}
use hammurabi_handoff.Jcs.Signing.{sign_payload, verify_payload}
use hammurabi_handoff.Receipts.{PaymentReceipt}

abbrev pub credential_minted_notice : String
credential_minted_notice = "Payment confirmed. Ephemeral Handshake credential minted."

abbrev pub vault_handle : String
vault_handle = "vault/handshake"

abbrev pub credential_ttl_secs : ℤ
credential_ttl_secs = pos 60

abbrev pub chaos_signature_trials : ℕ
chaos_signature_trials = 8

pub record ChaosReport : Type 0 where
  pub honest_verified : Bool
  pub tampered_payload_rejected : Bool
  pub shifted_timestamp_rejected : Bool
  pub signature_bitflips_rejected : ℕ
  pub wrong_key_rejected : Bool

unfoldable pub all_clear : ChaosReport → Bool
all_clear r =
    r.honest_verified
    && (r.tampered_payload_rejected
        && (r.shifted_timestamp_rejected
            && ((r.signature_bitflips_rejected == chaos_signature_trials) && r.wrong_key_rejected)))

pub record EphemeralCredential : Type 0 where
  pub credential_id : String
  pub intent_id : String
  pub receipt_id : String
  pub public_key_hex : String
  pub signature_hex : String
  pub payload_digest_hex : String
  pub issued_at : ℤ
  pub expires_at : ℤ
  pub chaos : ChaosReport

pub data VaultError : Type 0 where
  not_canonical : String → VaultError
  chaos_failed : ChaosReport → VaultError
  outside_validity : ℤ → ℤ → ℤ → VaultError
  malformed_ttl : VaultError
  digest_mismatch : VaultError
  malformed : String → VaultError
  signature_invalid : VaultError

-- The derived `Debug` of a report, and the error's `Display`.
abbrev show_bool : Bool → String
show_bool true = "true"
show_bool false = "false"

unfoldable pub show_vault_error : VaultError → String
show_vault_error (not_canonical why) = "payload rejected by canonicalization: " <> why
show_vault_error (chaos_failed r) =
    "chaos testing failed — credential destroyed: ChaosReport { honest_verified: "
    <> (show_bool r.honest_verified
        <> (", tampered_payload_rejected: "
            <> (show_bool r.tampered_payload_rejected
                <> (", shifted_timestamp_rejected: "
                    <> (show_bool r.shifted_timestamp_rejected
                        <> (", signature_bitflips_rejected: "
                            <> (show_ℕ r.signature_bitflips_rejected
                                <> (", wrong_key_rejected: "
                                    <> (show_bool r.wrong_key_rejected <> " }")))))))))
show_vault_error (outside_validity issued_at expires_at now) =
    "credential expired or not yet valid (issued_at="
    <> (show_ℤ issued_at
        <> (", expires_at=" <> (show_ℤ expires_at <> (", now=" <> (show_ℤ now <> ")")))))
show_vault_error malformed_ttl = "credential TTL is not the strict 60s window"
show_vault_error digest_mismatch =
    "payload digest mismatch — credential is bound to a different payload"
show_vault_error (malformed why) = "malformed credential material: " <> why
show_vault_error signature_invalid = "signature invalid"

-- What a mint draws: the seeds of the credential's key and of the wrong key, the bit that each trial
-- flips, and the ULID.
pub record MintEntropy : Type 0 where
  pub seed : Bytes
  pub stranger_seed : Bytes
  pub trial_bit : ℕ → ℕ
  pub ulid : String

-- `mutated[bit / 8] ^= 1 << (bit % 8)`.
unfoldable pub flip_bit : Bytes → ℕ → Bytes
flip_bit sig bit = set sig (bit / 8) (bit_xor (get_or sig (bit / 8) 0) (2 ^ (bit % 8)))

-- The mutated payload of probe 1.
unfoldable pub tamper : Value → Value
tamper (object map) = object (insert_field "__chaos__" (natural 1) map)
tamper other = object (fields (("__chaos__", other) ∷ []))

-- `canonical_message(..).unwrap_or_default()`.
abbrev pub or_empty : Result CryptoError Bytes → Bytes
or_empty (ok m) = m
or_empty (err _) = []

module _ (p : Primitives) where
  -- The loop of probe 3, with the trials left and the trial's number.
  unfoldable pub bitflips_rejected : (ℕ → ℕ) → Bytes → Value → ℤ → Bytes → ℕ → ℕ → ℕ
  bitflips_rejected trial_bit public_key payload timestamp signature zero i = 0
  bitflips_rejected trial_bit public_key payload timestamp signature (suc left) i =
      let rest = bitflips_rejected trial_bit public_key payload timestamp signature left (i + 1) in
      let mutated = flip_bit signature (trial_bit i) in
      if is_err (verify_payload p public_key payload timestamp mutated) then suc rest else rest

  unfoldable pub chaos_test : MintEntropy → Bytes → Value → ℤ → Bytes → ChaosReport
  chaos_test entropy key payload timestamp signature = record {
    honest_verified = is_ok (verify_payload p key payload timestamp signature);
    tampered_payload_rejected = is_err (verify_payload p key (tamper payload) timestamp signature);
    shifted_timestamp_rejected =
        is_err (verify_payload p key payload (add_i64 timestamp (pos 1)) signature)
        && is_err (verify_payload p key payload (sub_i64 timestamp (pos 1)) signature);
    signature_bitflips_rejected =
        bitflips_rejected entropy.trial_bit key payload timestamp signature chaos_signature_trials
          0;
    wrong_key_rejected = is_err (
        verify_bytes p (public_key p (record { seed = entropy.stranger_seed }))
          (or_empty (canonical_message payload timestamp)) signature);
  }

  unfoldable pub mint :
      MintEntropy → Value → PaymentReceipt → ℤ → Result VaultError EphemeralCredential
  mint entropy payload receipt now = do
    canonical ← map_err (λ e. not_canonical (show_crypto_error e)) (canonicalize payload)
    let digest = blake3_hash p canonical
    let identity : Identity = record { seed = entropy.seed }
    let key = public_key p identity
    signature ←
        map_err (λ e. not_canonical (show_crypto_error e)) (sign_payload p identity payload now)
    let chaos = chaos_test entropy key payload now signature
    (if not (all_clear chaos)
        then err (chaos_failed chaos)
        else ok (record {
          credential_id = entropy.ulid;
          intent_id = receipt.intent_id;
          receipt_id = receipt.receipt_id;
          public_key_hex = p.hex_encode key;
          signature_hex = p.hex_encode signature;
          payload_digest_hex = p.hex_encode digest;
          issued_at = now;
          expires_at = add_i64 now credential_ttl_secs;
          chaos = chaos;
        }))

  unfoldable pub decode_fixed : ℕ → String → Result VaultError Bytes
  decode_fixed n s = do
    bytes ← map_err malformed (p.hex_decode s)
    (if length bytes == n
        then ok bytes
        else err (malformed ("expected " <> (show_ℕ n <> " bytes"))))

  -- The last steps of `verify`: the hex fields, and the signature.
  unfoldable pub verify_material : EphemeralCredential → Value → Result VaultError (Unit {0})
  verify_material credential payload = do
    public_key ← decode_fixed 32 credential.public_key_hex
    signature ← decode_fixed 64 credential.signature_hex
    map_err (λ _. signature_invalid)
        (verify_payload p public_key payload credential.issued_at signature)

  -- The steps of `verify` behind the tests on time: the digest, and the last steps.
  unfoldable pub verify_binding : EphemeralCredential → Value → Result VaultError (Unit {0})
  verify_binding credential payload = do
    canonical ← map_err (λ e. not_canonical (show_crypto_error e)) (canonicalize payload)
    (if not (str_eq (p.hex_encode (blake3_hash p canonical)) credential.payload_digest_hex)
        then err digest_mismatch
        else verify_material credential payload)

  unfoldable pub verify : EphemeralCredential → Value → ℤ → Result VaultError (Unit {0})
  unfolding verify_material verify_binding
  verify credential payload now =
      if not (eqb_ℤ credential.expires_at (add_i64 credential.issued_at credential_ttl_secs))
      then err malformed_ttl
      else if ltb_ℤ now credential.issued_at || not (ltb_ℤ now credential.expires_at)
      then err (outside_validity credential.issued_at credential.expires_at now)
      else verify_binding credential payload
