-- ===== src/Tests/Bridge.antt =====
-- The bridge, the commands and the three doors at concrete inputs, over a small `Wire`: okx_bridge.rs,
-- commands.rs and app.rs of desktop/hammurabi-handoff/src.
use hammurabi_handoff.Prelude.{
  arith, false, true, ◌≤◌, ◌≡◌, String, refl, some, none, List, [], ◌∷◌, ok,
}
use hammurabi_handoff.Json.{null, get_field, find_field}
use hammurabi_handoff.Backend
use hammurabi_handoff.Backend.{receipt_for}
use hammurabi_handoff.Gate.{settle}
use hammurabi_handoff.Intent.{mock_eth_limit_order}
use hammurabi_handoff.Server.{post_execute, Env, got, handle, x402_settle}
use hammurabi_handoff.Guard.{HandoffState}
use hammurabi_handoff.App.{start}
use hammurabi_handoff.App.Answers.{delivered, accepted}
use hammurabi_handoff.App.Covered.{delivered-le-accepted}
use hammurabi_handoff.App.Doors.{Call, http_request, invocation, settle_command}
use hammurabi_handoff.Prelude.Keyed.{lookup}
use hammurabi_handoff.Oka.Interop.{OkxInvocation, OkxResult, for_invocation}
use hammurabi_handoff.Bridge.{dispatch_okx, plan, text_at}
use hammurabi_handoff.Bridge.Transport.{Wire, oneshot_json, headers_error, route, read_reply}
use hammurabi_handoff.Bridge.Capability.{IsServed, dispatch_okx-IsServed}
use hammurabi_handoff.Bridge.Loop.{settling, paid_minting, settled_state, Carries}
use hammurabi_handoff.Oka.Interop.{needs_payment}
use hammurabi_handoff.Bridge.Delivery.{settle_then_receive}
use hammurabi_handoff.Tests.Ideal.{ideal, ideal-Laws, ideal-IsUnforged}
use hammurabi_handoff.Commands.{request_execution}
use hammurabi_handoff.Commands.Marketplace.{
  minting, paid_params, shown, dispatch_okx-request_execution,
}
use hammurabi_handoff.Tests.Toy.{toy, toy_http, intent_1, order_1, state_1, env_at, settle_1}
use hammurabi_handoff.Tests.Gate.{gate_1-IsTreasury}

-- Every body carries the first intent.
unfoldable pub wire : Wire
wire = record {
  header_error = λ _. none;
  to_str = λ s. some s;
  print = λ _. 123 ∷ 125 ∷ [];
  read_intent = λ _. got intent_1;
  read_settle = λ _. got settle_1;
  read_announce = λ _. some intent_1;
  no_body = record { status = 415; body = null };
  no_route = λ _ _. record { status = 404; body = null };
  to_bytes = λ _. ok (123 ∷ 125 ∷ []);
  from_slice = λ _. ok order_1;
}

abbrev feed_1 : OkxInvocation
feed_1 = record { capability = "audit_feed"; request_id = "a"; params = null }

abbrev unknown_1 : OkxInvocation
unknown_1 = record { capability = "nope"; request_id = "b"; params = null }

dispatch_okx-IsServed_example : IsServed wire feed_1 toy toy_http (env_at 120 "r-2") state_1
dispatch_okx-IsServed_example =
    dispatch_okx-IsServed wire feed_1 toy toy_http (env_at 120 "r-2") state_1

dispatch_okx-request_execution_example :
    ((receipt_id : String)
      → dispatch_okx wire toy toy_http
          (env_at 120 "r-2")
          state_1
          (minting "d" (paid_params order_1 receipt_id))
        ≡ shown (minting "d" (paid_params order_1 receipt_id)) (
            request_execution wire toy toy_http
              (env_at 120 "r-2")
              state_1
              order_1
              (some receipt_id)))
    × (get_field "intent" order_1 ≡ none
        → dispatch_okx wire toy toy_http (env_at 120 "r-2") state_1 (minting "d" order_1)
          ≡ shown
              (minting "d" order_1)
              (request_execution wire toy toy_http (env_at 120 "r-2") state_1 order_1 none))
dispatch_okx-request_execution_example =
    dispatch_okx-request_execution wire toy toy_http (env_at 120 "r-2") state_1 "d" order_1

carries_1 : Carries wire intent_1 "r-2"
unfolding wire mock_eth_limit_order
carries_1 = record {
  intent_header = refl;
  receipt_header = refl;
  intent_text = refl;
  receipt_text = refl;
  settle_body = refl;
  intent_body = refl;
}

abbrev reply_1 : OkxResult
reply_1 = record { request_id = "c"; status = 200; body = order_1 }

settled_1 :
    (dispatch_okx wire ideal toy_http
      (env_at 120 "r-2")
      state_1
      (settling "c" intent_1.intent_id)).1
    ≡ ok reply_1
unfolding wire dispatch_okx plan oneshot_json headers_error route text_at get_field find_field
    handle x402_settle settle Backend.settle read_reply for_invocation mock_eth_limit_order
settled_1 = refl

settle_then_receive_example :
    let done =
      dispatch_okx wire ideal toy_http
        (env_at 130 "r-3")
        (settled_state wire ideal toy_http (env_at 120 "r-2") state_1 intent_1 carries_1 "c")
        (paid_minting "d" order_1 "r-2") in
    (r : OkxResult) × (done.1 ≡ ok r)
    × (r.status ≡ 200)
    × (needs_payment r ≡ false)
    × (lookup "r-2" done.0.gate.receipts ≡ none)
unfolding wire read_reply
settle_then_receive_example =
    settle_then_receive wire ideal ideal-Laws toy_http (env_at 120 "r-2") state_1 intent_1 carries_1
      "c" (env_at 130 "r-3") "d" reply_1 gate_1-IsTreasury settled_1 refl refl
      (omega arith, omega arith) (λ msg _. ideal-IsUnforged msg)

-- The loop through three doors: the fee settled by the frontend, an invocation, a request.
abbrev calls_1 : List (Env × Call)
calls_1 =
    (env_at 120 "r-2", settle_command "i-1")
    ∷ (env_at 121 "r-3", invocation unknown_1)
    ∷ (env_at 122 "r-4", http_request (post_execute (some "i-1") (some "r-2") (got intent_1)))
    ∷ []

abbrev start_1 : HandoffState
start_1 = start true (λ (s : String). none) (λ _. "noon")

delivered-le-accepted_example :
    delivered wire toy toy_http "r-2" start_1 calls_1
    ≤ accepted wire toy toy_http "r-2" start_1 calls_1
delivered-le-accepted_example =
    delivered-le-accepted wire toy toy_http true (λ (s : String). none) (λ _. "noon") "r-2" calls_1
