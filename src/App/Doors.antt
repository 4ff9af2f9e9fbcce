-- ===== src/App/Doors.antt =====
-- desktop/hammurabi-handoff/src: the three doors to the pipeline, the loopback server, the frontend's
-- commands and the marketplace bridge, over one state.
use hammurabi_handoff.Prelude.{
  ℕ, ◌≡◌, ◌⊎◌, refl, ap, arith, String, Bool, Option, Option-cases, none, some, List, [], ◌∷◌, ok,
  inl, inr,
}
use mathlib.Core.Option
use hammurabi_handoff.Prelude.Keyed.{Keyed, lookup}
use hammurabi_handoff.Json.{Value, string, object, fields}
use hammurabi_handoff.Crypto.{Primitives}
use hammurabi_handoff.Backend.{Http}
use hammurabi_handoff.Gate.Burn.{held}
use hammurabi_handoff.Gate.Treasury.{IsTreasury}
use hammurabi_handoff.Guard.{HandoffState, narrate}
use hammurabi_handoff.Server.{HttpRequest, Env, handle}
use hammurabi_handoff.Server.Trace.{run}
use hammurabi_handoff.Oka.Interop.{OkxInvocation}
use hammurabi_handoff.Bridge.{execute_headers, text_at, dispatch_okx}
use hammurabi_handoff.Bridge.Transport.{
  Wire, Method, post, Routed, routed, unrouted, route, headers_error, answer, read_reply,
  oneshot_json,
}
use hammurabi_handoff.Bridge.Capability.{dispatch_okx-IsServed}
use hammurabi_handoff.Commands.Agreement.{dispatch-oneshot_json}
use hammurabi_handoff.Commands.{Dispatch, dispatch, agent_announce, x402_settle, request_execution}
use hammurabi_handoff.App.{start}

-- What may come in.
pub data Call : Type 0 where
  http_request : HttpRequest → Call
  invocation : OkxInvocation → Call
  announce_command : Call
  settle_command : String → Call
  execute_command : Value → Option String → Call

-- At the start the treasury is empty.
module _ (x402_live : Bool) (vars : String → Option String) (stamp : ℕ → String) where
  start-IsTreasury : IsTreasury (start x402_live vars stamp).gate.receipts
  unfolding start narrate lookup
  start-IsTreasury = record { distinct = tt; own_id = λ k r h. cc h; full_fee = λ k r h. cc h }

  pub start-held : (id : String) → held id (start x402_live vars stamp).gate.receipts ≡ 0
  unfolding start narrate held lookup
  start-held id = refl

module _ (w : Wire) (p : Primitives) (http : Http) where
  -- The state after a call; the command `mesh_feed` reads it only.
  unfoldable pub serve : Env → HandoffState → Call → HandoffState
  serve env state (http_request q) = (handle p http env state q).0
  serve env state (invocation inv) = (dispatch_okx w p http env state inv).0
  serve env state announce_command = (agent_announce w p http env state).0
  serve env state (settle_command intent_id) = (x402_settle w p http env state intent_id).0
  serve env state (execute_command intent receipt_id) =
      (request_execution w p http env state intent receipt_id).0

  unfoldable pub serve_all : HandoffState → List (Env × Call) → HandoffState
  serve_all state [] = state
  serve_all state ((env, c) ∷ cs) = serve_all (serve env state c) cs

  -- One request, or none.
  abbrev IsRequest : Env → HandoffState → HandoffState → Type 0
  IsRequest env state state' =
      ((q : HttpRequest) × (state' ≡ (handle p http env state q).0)) ⊎ (state' ≡ state)

  answer-IsRequest :
      (env : Env) (state : HandoffState) (r : Routed)
      → IsRequest env state (answer w p http env state r).0
  answer-IsRequest env state (routed q) = inl (q, refl)
  answer-IsRequest env state (unrouted response) = inr refl

  module _ (env : Env) (state : HandoffState) (method : Method) (uri : String)
      (headers : Keyed String) (body : Option Value) where
    unfoldable pub to : Routed
    to = route w method uri headers (Option.map w.print body)

    pub oneshot_json-none :
        headers_error w headers ≡ none
        → (oneshot_json w p http env state method uri headers body).0
          ≡ (answer w p http env state to).0
    unfolding oneshot_json to
    oneshot_json-none good = rw (good, oneshot_json) refl

    pub oneshot_json-some :
        (e : String)
        → headers_error w headers ≡ some e
        → (oneshot_json w p http env state method uri headers body).0 ≡ state
    unfolding oneshot_json
    oneshot_json-some e bad = rw (bad, oneshot_json) refl

    pub state-dispatch :
        (dispatch w p http env state method uri headers body).0
        ≡ (oneshot_json w p http env state method uri headers body).0
    state-dispatch =
        ap (λ s. s.0) (dispatch-oneshot_json w p http env state method uri headers body)

    pub dispatch-answer :
        (d : Dispatch)
        → headers_error w headers ≡ none
        → (dispatch w p http env state method uri headers body).1 ≡ ok d
        → d.status ≡ (answer w p http env state to).1.status
    unfolding oneshot_json read_reply to
    dispatch-answer d good h =
        let sent = rw (dispatch-oneshot_json w p http env state method uri headers body) at h in
        ground (arith, good, sent)

    dispatch-IsRequest : IsRequest env state (dispatch w p http env state method uri headers body).0
    dispatch-IsRequest = rw state-dispatch (elim (Option-cases (headers_error w headers)) [
      | inl good ↦ rw (oneshot_json-none good) (answer-IsRequest env state to)
      | inr (e, bad) ↦ inr (oneshot_json-some e bad)
    ])

  serve-IsRequest :
      (env : Env) (state : HandoffState) (c : Call) → IsRequest env state (serve env state c)
  unfolding serve agent_announce x402_settle request_execution
  serve-IsRequest env state (http_request q) = inl (q, refl)
  serve-IsRequest env state (invocation inv) = elim (dispatch_okx-IsServed w inv p http env state) [
    | inl (q, _, done) ↦ inl (q, ap (λ s. s.0) done)
    | inr (_, e, done) ↦ inr (ap (λ s. s.0) done)
  ]
  serve-IsRequest env state announce_command =
      dispatch-IsRequest env state post "/agent/announce" [] none
  serve-IsRequest env state (settle_command intent_id) =
      dispatch-IsRequest env state post "/x402/settle" []
        (some (object (fields (("intent_id", string intent_id) ∷ []))))
  serve-IsRequest env state (execute_command intent receipt_id) =
      dispatch-IsRequest env state post "/execute"
        (execute_headers (text_at "intent_id" intent) receipt_id) (some intent)

  serve_all-run :
      (state : HandoffState) (cs : List (Env × Call))
      → (trace : List (Env × HttpRequest)) × (serve_all state cs ≡ run p http state trace)
  unfolding serve_all run
  serve_all-run state [] = ([], refl)
  serve_all-run state ((env, c) ∷ cs) = elim (serve-IsRequest env state c) [
    | inl (q, done) ↦
        let (trace, same) = serve_all-run (handle p http env state q).0 cs in
        ((env, q) ∷ trace, rw done same)
    | inr done ↦ let (trace, same) = serve_all-run state cs in (trace, rw done same)
  ]
