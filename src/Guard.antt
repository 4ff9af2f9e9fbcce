-- ===== src/Guard.antt =====
-- desktop/hammurabi-handoff/src/x402.rs, `payment_guard`, over the shared state of
-- desktop/hammurabi-handoff/src/server.rs. A handler returns the new state and its response.
use hammurabi_handoff.Prelude.{ℕ, String, Option, none, some, [], ◌∷◌, ◌<>◌, ok, err}
use hammurabi_handoff.Json.{Value, string, object, array, fields, items}
use hammurabi_handoff.Mesh
use hammurabi_handoff.Mesh.{MeshBus, MeshEventKind, restriction, post}
use hammurabi_handoff.Receipts.{PaymentTerms, PaymentReceipt, terms_value}
use hammurabi_handoff.Backend.{SettlementBackend, mock}
use hammurabi_handoff.Gate
use hammurabi_handoff.Gate.{X402Gate, X402Error, terms_for, redeem, show_x402_error}

pub record HandoffState : Type 0 where
  pub mesh : MeshBus
  pub gate : X402Gate

abbrev pub with_backend : SettlementBackend → HandoffState
with_backend backend = record { mesh = Mesh.new; gate = Gate.with_backend backend }

abbrev pub new : HandoffState
new = with_backend mock

pub record Response : Type 0 where
  pub status : ℕ
  pub body : Value

abbrev pub x402_restriction_notice : String
x402_restriction_notice = "Action restricted. x402 payment of 0.50 USDC required."

abbrev pub gate_handle : String
gate_handle = "gate/x402"

-- `state.mesh.post(..)`, its message dropped.
unfoldable pub narrate :
    (ℕ → String) → HandoffState → String → MeshEventKind → String → HandoffState
narrate stamp state sender kind body = record state {
  mesh = (post stamp state.mesh sender kind body).0;
}

unfoldable pub payment_required : PaymentTerms → Response
payment_required terms = record {
  status = 402;
  body = object (
      fields (
        ("error", string "payment_required")
        ∷ ("accepts", array (items (terms_value terms ∷ [])))
        ∷ []));
}

-- `unwrap_or_default()` of the intent header.
abbrev pub or_empty : Option String → String
or_empty none = ""
or_empty (some s) = s

-- The middleware, over the two headers and the handler behind it.
unfoldable pub payment_guard :
    (ℕ → String)
    → HandoffState
    → Option String
    → Option String
    → (HandoffState → PaymentReceipt → HandoffState × Response)
    → HandoffState × Response
payment_guard stamp state intent_header none next = (
  narrate stamp state gate_handle restriction x402_restriction_notice,
  payment_required (terms_for (or_empty intent_header)),
)
payment_guard stamp state intent_header (some receipt_id) next =
    let (gate', redeemed) = redeem state.gate receipt_id (or_empty intent_header) in
    let state' = record state { gate = gate' } in
    elim redeemed [
      | ok receipt ↦ next state' receipt
      | err e ↦ (
        narrate stamp state' gate_handle restriction (
            "Receipt "
            <> (receipt_id
                <> (" refused: " <> (show_x402_error e <> (". " <> x402_restriction_notice))))),
        payment_required (terms_for (or_empty intent_header)),
      )
    ]
