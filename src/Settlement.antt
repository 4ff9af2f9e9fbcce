-- ===== src/Settlement.antt =====
-- desktop/hammurabi-handoff/src/settlement.rs: the broadcast envelope, and the reference verifier of the
-- on-chain contract.
pub mod Agreement
use hammurabi_handoff.Prelude.{
  ℕ, String, Bool, not, ◌||◌, [], ◌∷◌, ◌++◌, length, str_eq, ◌==◌, show_ℕ, ◌<>◌, Result, ok, err,
  ◌>>=◌, map_err, if◌then◌else◌,
}
use hammurabi_handoff.Prelude.Int.{ℤ, ltb_ℤ, eqb_ℤ, add_i64}
use hammurabi_handoff.Json.{Value, string, object, natural, integer, fields}
use hammurabi_handoff.Crypto.{Bytes, Primitives, blake3_hash, verify_bytes, show_crypto_error}
use hammurabi_handoff.Jcs.{canonicalize, i64_le_bytes}
use hammurabi_handoff.Receipts.{PaymentReceipt}
use hammurabi_handoff.Vault.{EphemeralCredential, credential_ttl_secs}

abbrev pub relay_handle : String
relay_handle = "relay/1shot"

abbrev pub oneshot_endpoint_stub : String
oneshot_endpoint_stub = "local://1shot/transactions/hammurabi-handoff-stub/execute"

abbrev pub stylus_verifier_stub_address : String
stylus_verifier_stub_address = "0x0000000000000000000000000000000000005710"

abbrev pub arbitrum_one_chain_id : ℕ
arbitrum_one_chain_id = 42161

abbrev pub verifier_method : String
verifier_method = "verify_handoff"

pub record SettlementParams : Type 0 where
  pub intent : Value
  pub payload_digest_hex : String
  pub signer_public_key_hex : String
  pub signature_hex : String
  pub issued_at : ℤ
  pub expires_at : ℤ
  pub receipt_id : String
  pub fee_micro_usdc : ℕ

pub record OneShotEnvelope : Type 0 where
  pub api : String
  pub endpoint : String
  pub broadcast_mode : String
  pub chain_id : ℕ
  pub contract_address : String
  pub method : String
  pub idempotency_key : String
  pub params : SettlementParams

unfoldable pub package_envelope : Value → EphemeralCredential → PaymentReceipt → OneShotEnvelope
package_envelope intent_payload credential receipt = record {
  api = "1shot/v0-stub";
  endpoint = oneshot_endpoint_stub;
  broadcast_mode = "gasless-sponsored";
  chain_id = arbitrum_one_chain_id;
  contract_address = stylus_verifier_stub_address;
  method = verifier_method;
  idempotency_key = credential.credential_id;
  params = record {
    intent = intent_payload;
    payload_digest_hex = credential.payload_digest_hex;
    signer_public_key_hex = credential.public_key_hex;
    signature_hex = credential.signature_hex;
    issued_at = credential.issued_at;
    expires_at = credential.expires_at;
    receipt_id = receipt.receipt_id;
    fee_micro_usdc = receipt.amount_micro_usdc;
  };
}

-- `to_broadcast_json`: the derived `Serialize`.
abbrev params_value : SettlementParams → Value
params_value q = object (
    fields (
      ("intent", q.intent)
      ∷ ("payload_digest_hex", string q.payload_digest_hex)
      ∷ ("signer_public_key_hex", string q.signer_public_key_hex)
      ∷ ("signature_hex", string q.signature_hex)
      ∷ ("issued_at", integer q.issued_at)
      ∷ ("expires_at", integer q.expires_at)
      ∷ ("receipt_id", string q.receipt_id)
      ∷ ("fee_micro_usdc", natural q.fee_micro_usdc)
      ∷ []))

unfoldable pub to_broadcast_json : OneShotEnvelope → Value
to_broadcast_json e = object (
    fields (
      ("api", string e.api)
      ∷ ("endpoint", string e.endpoint)
      ∷ ("broadcast_mode", string e.broadcast_mode)
      ∷ ("chain_id", natural e.chain_id)
      ∷ ("contract_address", string e.contract_address)
      ∷ ("method", string e.method)
      ∷ ("idempotency_key", string e.idempotency_key)
      ∷ ("params", params_value e.params)
      ∷ []))

pub data HandoffVerifyError : Type 0 where
  malformed_ttl : HandoffVerifyError
  outside_validity : ℤ → ℤ → ℤ → HandoffVerifyError
  digest_mismatch : HandoffVerifyError
  signature_invalid : HandoffVerifyError
  malformed : String → HandoffVerifyError

module _ (p : Primitives) where
  -- The reference verifier, over bytes.
  unfoldable pub verify_handoff :
      Bytes → Bytes → Bytes → ℤ → ℤ → ℤ → Result HandoffVerifyError (Unit {0})
  verify_handoff signer_public_key signature canonical_intent issued_at expires_at now =
      if not (eqb_ℤ expires_at (add_i64 issued_at credential_ttl_secs))
      then err malformed_ttl
      else if ltb_ℤ now issued_at || not (ltb_ℤ now expires_at)
      then err (outside_validity issued_at expires_at now)
      else map_err (λ _. signature_invalid)
          (verify_bytes p signer_public_key (canonical_intent ++ (0 ∷ i64_le_bytes issued_at))
            signature)

  unfoldable pub decode_hex_array : ℕ → String → Result HandoffVerifyError Bytes
  decode_hex_array n s = do
    bytes ← map_err malformed (p.hex_decode s)
    (if length bytes == n
        then ok bytes
        else err (malformed ("expected " <> (show_ℕ n <> " bytes"))))

  -- `SettlementParams::verify`.
  unfoldable pub verify_params : SettlementParams → ℤ → Result HandoffVerifyError (Unit {0})
  unfolding verify_handoff
  verify_params params now = do
    public_key ← decode_hex_array 32 params.signer_public_key_hex
    signature ← decode_hex_array 64 params.signature_hex
    canonical ← map_err (λ e. malformed (show_crypto_error e)) (canonicalize params.intent)
    (if not (str_eq (p.hex_encode (blake3_hash p canonical)) params.payload_digest_hex)
        then err digest_mismatch
        else verify_handoff public_key signature canonical params.issued_at params.expires_at now)

  -- `OneShotEnvelope::verify`.
  unfoldable pub verify_envelope : OneShotEnvelope → ℤ → Result HandoffVerifyError (Unit {0})
  verify_envelope envelope now = verify_params envelope.params now
