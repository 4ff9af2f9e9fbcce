-- ===== src/Tests/Unread.antt =====
-- desktop/hammurabi-handoff/src/commands.rs at an intent whose id is no ASCII text.
use hammurabi_handoff.Prelude.{◌≡◌, refl, none, some, [], ◌∷◌, str_eq, ok, if◌then◌else◌}
use hammurabi_handoff.Prelude.Int.{pos}
use hammurabi_handoff.Prelude.Keyed.{lookup}
use hammurabi_handoff.Json.{find_field, get_field}
use hammurabi_handoff.Intent.{AgentIntent, mock_eth_limit_order, payload}
use hammurabi_handoff.Receipts.{PaymentReceipt}
use hammurabi_handoff.Backend.{mock, receipt_for}
use hammurabi_handoff.Gate.{redeem}
use hammurabi_handoff.Mesh
use hammurabi_handoff.Guard.{HandoffState, payment_guard, payment_required}
use hammurabi_handoff.Server.{handle}
use hammurabi_handoff.Bridge.{text_at, execute_headers}
use hammurabi_handoff.Bridge.Transport.{
  Wire, oneshot_json, headers_error, header, route, read_reply,
}
use hammurabi_handoff.Commands.{Dispatch, dispatch, request_execution}
use hammurabi_handoff.App.Unread.{IsUnread, unread_burns}
use hammurabi_handoff.Tests.Toy.{toy, toy_http, env_at, order_1, differ}
use hammurabi_handoff.Tests.Bridge.{wire}

unfoldable ascii : Wire
unfolding wire
ascii = record wire { to_str = λ s. if str_eq s "é" then none else some s }

abbrev intent_9 : AgentIntent
intent_9 = mock_eth_limit_order "é"

abbrev receipt_9 : PaymentReceipt
receipt_9 = receipt_for "r-9" "é" (pos 100)

abbrev state_9 : HandoffState
state_9 = record {
  mesh = Mesh.new;
  gate = record { receipts = ("r-9", receipt_9) ∷ []; backend = mock };
}

accent-IsUnread : IsUnread ascii "é" "r-9"
unfolding ascii wire
accent-IsUnread = record {
  intent_accepted = refl;
  receipt_accepted = refl;
  intent_unread = refl;
  receipt_read = refl;
}

abbrev reply_9 : Dispatch
reply_9 = record { status = 402; body = order_1 }

held_9 : lookup "r-9" state_9.gate.receipts ≡ some receipt_9
unfolding lookup
held_9 = refl

answered_9 :
    (request_execution ascii toy toy_http
      (env_at 120 "r-2")
      state_9
      (payload intent_9)
      (some "r-9")).1
    ≡ ok reply_9
unfolding ascii wire request_execution dispatch oneshot_json headers_error route header
    execute_headers text_at get_field find_field payload mock_eth_limit_order lookup handle
    payment_guard payment_required redeem read_reply
answered_9 = refl

unread_burns_example :
    (reply_9.status ≡ 402)
    × (lookup "r-9"
          (request_execution ascii toy toy_http
            (env_at 120 "r-2")
            state_9
            (payload intent_9)
            (some "r-9")).0.gate.receipts
        ≡ none)
unfolding mock_eth_limit_order
unread_burns_example =
    unread_burns ascii toy toy_http (env_at 120 "r-2") state_9 intent_9 "r-9" accent-IsUnread
      receipt_9 reply_9 held_9 refl (differ "é" "" refl) answered_9
