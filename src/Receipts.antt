-- ===== src/Receipts.antt =====
-- desktop/hammurabi-handoff/src/x402.rs: the payment terms and the receipt.
use hammurabi_handoff.Prelude.{ℕ, String, [], ◌∷◌}
use hammurabi_handoff.Prelude.Int.{ℤ}
use hammurabi_handoff.Json.{Value, string, object, natural, integer, fields}

abbrev pub execution_fee_micro_usdc : ℕ
execution_fee_micro_usdc = 500000

pub record PaymentTerms : Type 0 where
  pub x402_version : ℕ
  pub scheme : String
  pub network : String
  pub asset : String
  pub amount_micro : ℕ
  pub amount_display : String
  pub pay_to : String
  pub intent_id : String
  pub resolution : String

unfoldable pub quote : String → PaymentTerms
quote intent_id = record {
  x402_version = 1;
  scheme = "exact";
  network = "arbitrum-stylus-local-stub";
  asset = "USDC";
  amount_micro = execution_fee_micro_usdc;
  amount_display = "0.50 USDC";
  pay_to = "vault/handshake@127.0.0.1";
  intent_id = intent_id;
  resolution = "POST /x402/settle {\"intent_id\": ...}";
}

pub record PaymentReceipt : Type 0 where
  pub receipt_id : String
  pub intent_id : String
  pub amount_micro_usdc : ℕ
  pub cleared_at : ℤ

-- The derived `Serialize` of both.
unfoldable pub terms_value : PaymentTerms → Value
terms_value t = object (
    fields (
      ("x402_version", natural t.x402_version)
      ∷ ("scheme", string t.scheme)
      ∷ ("network", string t.network)
      ∷ ("asset", string t.asset)
      ∷ ("amount_micro", natural t.amount_micro)
      ∷ ("amount_display", string t.amount_display)
      ∷ ("pay_to", string t.pay_to)
      ∷ ("intent_id", string t.intent_id)
      ∷ ("resolution", string t.resolution)
      ∷ []))

unfoldable pub receipt_value : PaymentReceipt → Value
receipt_value r = object (
    fields (
      ("receipt_id", string r.receipt_id)
      ∷ ("intent_id", string r.intent_id)
      ∷ ("amount_micro_usdc", natural r.amount_micro_usdc)
      ∷ ("cleared_at", integer r.cleared_at)
      ∷ []))
