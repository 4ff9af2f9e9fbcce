-- ===== src/App/Unread.antt =====
-- desktop/hammurabi-handoff/src/x402.rs and commands.rs: an intent whose id is a header value that is not
-- read as text.
use hammurabi_handoff.Prelude.{
  ◌≡◌, ◌≢◌, refl, ap, ◌∙◌, arith, String, none, some, str_eq, eq_iff, eq_refl, false, ok, err,
}
use hammurabi_handoff.Prelude.Keyed.{Keyed, lookup}
use hammurabi_handoff.Json.{find_field, get_field}
use hammurabi_handoff.Crypto.{Primitives}
use hammurabi_handoff.Backend.{Http}
use hammurabi_handoff.Intent.{AgentIntent, payload}
use hammurabi_handoff.Receipts.{PaymentReceipt}
use hammurabi_handoff.Gate.{X402Gate, redeem, intent_mismatch}
use hammurabi_handoff.Gate.Burn.{redeem_result, lookup-redeem, serve}
use hammurabi_handoff.Guard.{HandoffState}
use hammurabi_handoff.Server.{HttpRequest, post_execute, Env, handle}
use hammurabi_handoff.Server.Trace.{gate-post_execute, status-refused}
use hammurabi_handoff.Bridge.{text_at, execute_headers}
use hammurabi_handoff.Bridge.Transport.{Wire, routed, post, route, header, headers_error, answer}
use hammurabi_handoff.Commands.{Dispatch, request_execution}
use hammurabi_handoff.App.Doors.{to, dispatch-answer, oneshot_json-none, state-dispatch}

-- http accepts both texts as header values; the receipt's is read back, the intent's is not.
pub record IsUnread (w : Wire) (intent_id receipt_id : String) : Type 0 where
  pub intent_accepted : w.header_error intent_id ≡ none
  pub receipt_accepted : w.header_error receipt_id ≡ none
  pub intent_unread : w.to_str intent_id ≡ none
  pub receipt_read : w.to_str receipt_id ≡ some receipt_id

module _ (w : Wire) (p : Primitives) (http : Http) (env : Env) (state : HandoffState)
    (i : AgentIntent) (receipt_id : String) (unread : IsUnread w i.intent_id receipt_id) where
  abbrev headers : Keyed String
  headers = execute_headers (text_at "intent_id" (payload i)) (some receipt_id)

  abbrev arrives : HttpRequest
  arrives = post_execute none (some receipt_id) (w.read_intent (w.print (payload i)))

  headers_pass : headers_error w headers ≡ none
  unfolding headers_error execute_headers text_at get_field find_field payload
  headers_pass = rw (unread.intent_accepted, unread.receipt_accepted) refl

  to-arrives : to w p http env state post "/execute" headers (some (payload i)) ≡ routed arrives
  unfolding to route header lookup execute_headers text_at get_field find_field payload
  to-arrives = rw (unread.intent_unread, unread.receipt_read) refl

  requested : HandoffState
  requested = (request_execution w p http env state (payload i) (some receipt_id)).0

  -- The state after the command is the router's after the request that arrives.
  requested-arrives : requested ≡ (handle p http env state arrives).0
  unfolding requested request_execution
  requested-arrives =
      state-dispatch w p http env state post "/execute" headers (some (payload i))
      ∙ oneshot_json-none w p http env state post "/execute" headers (some (payload i)) headers_pass
      ∙ ap (λ r. (answer w p http env state r).0) to-arrives

  answered_status :
      (d : Dispatch)
      → (request_execution w p http env state (payload i) (some receipt_id)).1 ≡ ok d
      → d.status ≡ (handle p http env state arrives).1.status
  unfolding request_execution
  answered_status d h =
      dispatch-answer w p http env state post "/execute" headers (some (payload i)) d headers_pass h
      ∙ ap (λ r. (answer w p http env state r).1.status) to-arrives

  -- An intent id that http accepts as a header value and does not read back as text: the command to execute
  -- that intent with a receipt that was settled for it, and that the treasury holds, is answered with 402,
  -- if the answer can be read, and the receipt is burned.
  pub unread_burns :
      (r : PaymentReceipt) (d : Dispatch)
      → lookup receipt_id state.gate.receipts ≡ some r
      → r.intent_id ≡ i.intent_id
      → i.intent_id ≢ ""
      → (request_execution w p http env state (payload i) (some receipt_id)).1 ≡ ok d
      → (d.status ≡ 402)
        × (lookup receipt_id
              (request_execution w p http env state (payload i) (some receipt_id)).0.gate.receipts
            ≡ none)
  unfolding requested serve
  unread_burns r d held bound named answered =
      let wrong : str_eq r.intent_id "" ≡ false =
        ground (arith, eq_iff r.intent_id "", bound, named) in
      let refused : (redeem state.gate receipt_id "").1 ≡ err intent_mismatch =
        redeem_result state.gate receipt_id "" ∙ rw (held, wrong) refl in
      let body = w.read_intent (w.print (payload i)) in
      (
        answered_status d answered
            ∙ status-refused p http env state none receipt_id body intent_mismatch refused,
        ap (λ (s : HandoffState). lookup receipt_id s.gate.receipts) requested-arrives
            ∙ ap (λ (g : X402Gate). lookup receipt_id g.receipts)
                (gate-post_execute p http env state none receipt_id body)
            ∙ lookup-redeem state.gate receipt_id "" receipt_id
            ∙ rw (eq_refl receipt_id) refl,
      )
