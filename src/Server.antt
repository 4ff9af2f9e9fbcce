-- ===== src/Server.antt =====
-- desktop/hammurabi-handoff/src/server.rs: the router and its handlers. Routing, header parsing, the body
-- limit and the JSON extractors belong to axum: a request arrives here with its route, its headers and
-- its extracted body, or the extractor's own response. Each request runs alone between two locks.
pub mod Paid
pub mod Trace
pub mod Pipeline
pub mod Delivery
use hammurabi_handoff.Prelude.{
  ℕ, String, Bool, not, Option, none, some, List, [], ◌∷◌, str_eq, ◌<>◌, Result, ok, err,
  if◌then◌else◌,
}
use hammurabi_handoff.Prelude.Int.{ℤ, show_ℤ}
use hammurabi_handoff.Json.{Value, string, object, fields}
use hammurabi_handoff.Crypto.{Primitives}
use hammurabi_handoff.Mesh.{
  MeshEventKind, intent, restriction, payment, credential, settlement, info, feed, feed_value,
}
use hammurabi_handoff.Intent.{AgentIntent, intent_announcement, mock_eth_limit_order, payload}
use hammurabi_handoff.Receipts.{PaymentReceipt, receipt_value}
use hammurabi_handoff.Backend.{SettlementError, Http, show_settlement_error}
use hammurabi_handoff.Gate
use hammurabi_handoff.Vault.{
  MintEntropy, mint, show_vault_error, credential_minted_notice, vault_handle,
}
use hammurabi_handoff.Settlement.{package_envelope, to_broadcast_json, relay_handle}
use hammurabi_handoff.Guard.{HandoffState, Response, narrate, gate_handle, payment_guard}

-- What an axum extractor made of a request's body.
pub data Extracted {ℓ} (A : Type ℓ) : Type ℓ where
  got : A → Extracted A
  refused : Response → Extracted A

pub record SettleRequest : Type 0 where
  pub intent_id : String
  pub payment : Option Value

pub data HttpRequest : Type 0 where
  get_feed : HttpRequest
  post_announce : Option AgentIntent → HttpRequest
  post_settle : Extracted SettleRequest → HttpRequest
  -- the intent header, the receipt header, the body
  post_execute : Option String → Option String → Extracted AgentIntent → HttpRequest

-- What the machine supplies while a request runs: the clock, ULIDs, randomness.
pub record Env : Type 0 where
  pub now : ℤ
  pub stamp : ℕ → String
  pub ulid : String
  pub entropy : MintEntropy

unfoldable pub mesh_feed : HandoffState → HandoffState × Response
mesh_feed state = (state, record { status = 200; body = feed_value (feed state.mesh) })

-- `body.map(|Json(i)| i).unwrap_or_else(AgentIntent::mock_eth_limit_order)`.
abbrev announced : String → Option AgentIntent → AgentIntent
announced ulid none = mock_eth_limit_order ulid
announced ulid (some i) = i

unfoldable pub agent_announce : Env → HandoffState → Option AgentIntent → HandoffState × Response
agent_announce env state body =
    let i = announced env.ulid body in
    (
      narrate env.stamp state i.agent_handle intent intent_announcement,
      record { status = 200; body = payload i },
    )

unfoldable pub x402_settle : Http → Env → HandoffState → SettleRequest → HandoffState × Response
x402_settle http env state req =
    let (gate', settled) = Gate.settle http state.gate req.intent_id req.payment env.now env.ulid in
    let state' = record state { gate = gate' } in
    elim settled [
      | ok receipt ↦ (
        narrate env.stamp state' gate_handle payment (
            "x402 payment of 0.50 USDC settled for intent "
            <> (receipt.intent_id <> (" — receipt " <> (receipt.receipt_id <> ".")))),
        record { status = 200; body = receipt_value receipt },
      )
      | err e ↦ (
        narrate env.stamp state' gate_handle restriction (
            "x402 settlement failed for intent "
            <> (req.intent_id <> (": " <> show_settlement_error e))),
        record {
          status = 502;
          body = object (
              fields (
                ("error", string "settlement_failed")
                ∷ ("detail", string (show_settlement_error e))
                ∷ []));
        },
      )
    ]

-- The response to a body that names another intent than the receipt.
abbrev pub intent_conflict : Response
intent_conflict = record {
  status = 402;
  body = object (
      fields (
        ("error", string "payment_required")
        ∷ ("detail", string "receipt is bound to a different intent than the request body")
        ∷ []));
}

module _ (p : Primitives) where
  -- `execute` behind its extractors.
  unfoldable pub execute_intent :
      Env → HandoffState → PaymentReceipt → AgentIntent → HandoffState × Response
  execute_intent env state receipt i =
      if not (str_eq receipt.intent_id i.intent_id)
      then (state, intent_conflict)
      else elim (mint p env.entropy (payload i) receipt env.now) [
        | err e ↦ (
          narrate env.stamp state vault_handle info ("Mint refused: " <> show_vault_error e),
          record {
            status = 422;
            body = object (
                fields (
                  ("error", string "mint_refused") ∷ ("detail", string (show_vault_error e)) ∷ []));
          },
        )
        | ok cred ↦
            let state₁ = narrate env.stamp state vault_handle credential credential_minted_notice in
            let envelope = package_envelope (payload i) cred receipt in
            (
              narrate env.stamp state₁ relay_handle settlement (
                  "Settlement envelope "
                  <> (envelope.idempotency_key
                      <> (" staged for gasless Stylus broadcast (credential expires at "
                          <> (show_ℤ cred.expires_at <> ").")))),
              record { status = 200; body = to_broadcast_json envelope },
            )
      ]

  unfoldable pub execute :
      Env → Extracted AgentIntent → HandoffState → PaymentReceipt → HandoffState × Response
  unfolding execute_intent
  execute env (got i) state receipt = execute_intent env state receipt i
  execute env (refused response) state receipt = (state, response)

  -- `handoff_router`: the guard stands before `/execute` alone.
  unfoldable pub handle : Http → Env → HandoffState → HttpRequest → HandoffState × Response
  unfolding mesh_feed agent_announce x402_settle execute payment_guard
  handle http env state get_feed = mesh_feed state
  handle http env state (post_announce body) = agent_announce env state body
  handle http env state (post_settle (got req)) = x402_settle http env state req
  handle http env state (post_settle (refused response)) = (state, response)
  handle http env state (post_execute intent_header receipt_header body) =
      payment_guard env.stamp state intent_header receipt_header (execute env body)
