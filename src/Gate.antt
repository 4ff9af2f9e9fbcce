-- ===== src/Gate.antt =====
-- desktop/hammurabi-handoff/src/x402.rs: the payment gate, a treasury of settled receipts.
pub mod Burn
pub mod Treasury
pub mod Outside
pub mod Refinement
use hammurabi_handoff.Prelude.{
  ℕ, String, Bool, Option, none, some, List, [], ◌∷◌, str_eq, Result, ok, err, if◌then◌else◌,
}
use hammurabi_handoff.Prelude.Int.{ℤ, pos, ltb_ℤ, saturating_sub}
use hammurabi_handoff.Prelude.Keyed.{Keyed, lookup, remove, insert}
use hammurabi_handoff.Json.{Value}
use hammurabi_handoff.Receipts.{PaymentTerms, PaymentReceipt, quote, execution_fee_micro_usdc}
use hammurabi_handoff.Backend
use hammurabi_handoff.Backend.{SettlementBackend, SettlementError, Http, mock}

abbrev pub receipt_stale_after_secs : ℤ
receipt_stale_after_secs = pos 600

pub data X402Error : Type 0 where
  unknown_receipt intent_mismatch : X402Error

unfoldable pub show_x402_error : X402Error → String
show_x402_error unknown_receipt = "unknown or already-redeemed receipt"
show_x402_error intent_mismatch = "receipt is bound to a different intent"

pub record X402Gate : Type 0 where
  pub receipts : Keyed PaymentReceipt
  pub backend : SettlementBackend

abbrev pub with_backend : SettlementBackend → X402Gate
with_backend backend = record { receipts = []; backend = backend }

abbrev pub new : X402Gate
new = with_backend mock

unfoldable pub terms_for : String → PaymentTerms
unfolding quote
terms_for intent_id = quote intent_id

-- The test of `evict_stale`: whether a receipt is kept at `now`.
unfoldable pub is_fresh : ℤ → PaymentReceipt → Bool
unfolding saturating_sub
is_fresh now r = ltb_ℤ (saturating_sub now r.cleared_at) receipt_stale_after_secs

-- `evict_stale`: `HashMap::retain`.
unfoldable pub evict_stale : ℤ → Keyed PaymentReceipt → Keyed PaymentReceipt
evict_stale now [] = []
evict_stale now ((k, r) ∷ m) =
    let rest = evict_stale now m in if is_fresh now r then (k, r) ∷ rest else rest

-- The block under the write lock of both settlements.
unfoldable pub record_receipt : X402Gate → PaymentReceipt → ℤ → X402Gate
record_receipt gate receipt now = record gate {
  receipts = insert receipt.receipt_id receipt (evict_stale now gate.receipts);
}

-- `settle`: the new gate, and the receipt or the backend's error. A refused payment changes nothing.
unfoldable pub settle :
    Http
    → X402Gate
    → String
    → Option Value
    → ℤ
    → String
    → X402Gate × Result SettlementError PaymentReceipt
settle http gate intent_id payment now ulid =
    elim (Backend.settle http gate.backend intent_id payment now ulid) [
      | ok receipt ↦ (record_receipt gate receipt now, ok receipt)
      | err e ↦ (gate, err e)
    ]

unfoldable pub mock_settle : X402Gate → String → ℤ → String → X402Gate × PaymentReceipt
mock_settle gate intent_id now ulid =
    let receipt : PaymentReceipt = record {
      receipt_id = ulid;
      intent_id = intent_id;
      amount_micro_usdc = execution_fee_micro_usdc;
      cleared_at = now;
    } in
    (record_receipt gate receipt now, receipt)

-- `redeem`: what `remove` took out of the map decides; it is out on every branch that found it.
unfoldable pub redeem : X402Gate → String → String → X402Gate × Result X402Error PaymentReceipt
redeem gate receipt_id intent_id =
    let gate' = record gate { receipts = remove receipt_id gate.receipts } in
    elim (lookup receipt_id gate.receipts) [
      | none ↦ (gate', err unknown_receipt)
      | some receipt ↦
          if str_eq receipt.intent_id intent_id
          then (gate', ok receipt)
          else (gate', err intent_mismatch)
    ]
