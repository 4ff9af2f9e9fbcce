-- ===== src/App/Covered.antt =====
-- desktop/hammurabi-handoff/src: each of the three doors, and any calls through them.
use hammurabi_handoff.Prelude.{
  ℕ, ◌+◌, ◌≤◌, ◌≡◌, refl, sym, ap, ◌∙◌, arith, String, Bool, true, str_eq, eq_iff, Bool-cases,
  Option, Option-cases, none, some, and_then, List, [], ◌∷◌, Result, ok, err, inl, inr,
}
use hammurabi_handoff.Prelude.Keyed.{lookup}
use hammurabi_handoff.Json.{Value, string, object, fields}
use hammurabi_handoff.Crypto.{Primitives}
use hammurabi_handoff.Backend.{Http}
use hammurabi_handoff.Gate.Burn.{held}
use hammurabi_handoff.Guard.{HandoffState, Response}
use hammurabi_handoff.Server.{
  SettleRequest, got, HttpRequest, get_feed, post_announce, post_settle, post_execute, Env, handle,
}
use hammurabi_handoff.Server.Trace.{settles}
use hammurabi_handoff.Oka.Interop.{OkxInvocation, OkxResult, for_invocation}
use hammurabi_handoff.Bridge.{
  execute_headers, text_at, split_minting_params, plan, mint_plan, dispatch_okx,
}
use hammurabi_handoff.Bridge.Capability.{
  Serves, feeds, announces, settles as paying, mints, echoed, sent, unsent, dispatch_okx-IsServed,
}
use hammurabi_handoff.Bridge.Transport.{
  Wire, post, routed, intent_header, header, route, headers_error, answer, read_reply,
}
use hammurabi_handoff.Commands.{Dispatch, dispatch, agent_announce, x402_settle, request_execution}
use hammurabi_handoff.App.{start}
use hammurabi_handoff.App.Doors.{
  Call, http_request, invocation, announce_command, settle_command, execute_command, serve, to,
  state-dispatch, oneshot_json-none, oneshot_json-some, dispatch-answer, start-held,
}
use hammurabi_handoff.App.Answers.{
  command_status, invocation_status, pays, covered_of_request, covered_of_refusal, no_answer,
  delivers-executes, silent-covered, request-covered, IsCovered, presented, delivered, accepted,
}

module _ (w : Wire) (p : Primitives) (http : Http) where
  announce-covered :
      (id : String) (env : Env) (state : HandoffState)
      → IsCovered w p http id env state announce_command
  unfolding serve agent_announce to route headers_error
  announce-covered id env state =
      silent-covered w p http id env state announce_command (post_announce none) refl
        (state-dispatch w p http env state post "/agent/announce" [] none
          ∙ oneshot_json-none w p http env state post "/agent/announce" [] none refl)
        (λ req e. cc e)

  settle-covered :
      (id : String) (env : Env) (state : HandoffState) (intent_id : String)
      → IsCovered w p http id env state (settle_command intent_id)
  unfolding serve x402_settle to route headers_error
  settle-covered id env state intent_id =
      let body = object (fields (("intent_id", string intent_id) ∷ [])) in
      silent-covered w p http id env state (settle_command intent_id)
        (post_settle (w.read_settle (w.print body))) refl
        (state-dispatch w p http env state post "/x402/settle" [] (some body)
          ∙ oneshot_json-none w p http env state post "/x402/settle" [] (some body) refl)
        (λ req e. refl)

  -- The request that an attempt to execute by command becomes.
  to-execute :
      (env : Env) (state : HandoffState) (intent : Value) (receipt_id : Option String)
      → to w p http env state post "/execute"
          (execute_headers (text_at "intent_id" intent) receipt_id)
          (some intent)
        ≡ routed (
            post_execute
              (header w intent_header (execute_headers (text_at "intent_id" intent) receipt_id))
              (and_then receipt_id w.to_str)
              (w.read_intent (w.print intent)))
  unfolding to route header lookup execute_headers
  to-execute env state intent none = refl
  to-execute env state intent (some r) = refl

  command_status-some :
      (r : Result String Dispatch) (n : ℕ)
      → command_status r ≡ some n
      → (d : Dispatch) × (r ≡ ok d) × (n ≡ d.status)
  command_status-some (ok d) n h = (d, refl, cc h)
  command_status-some (err e) n h = cc h

  command-covered :
      (id : String) (env : Env) (state : HandoffState) (intent : Value) (receipt_id : Option String)
      → IsCovered w p http id env state (execute_command intent receipt_id)
  unfolding serve request_execution settles dispatch
  command-covered id env state intent receipt_id =
      let headers = execute_headers (text_at "intent_id" intent) receipt_id in
      let c = execute_command intent receipt_id in
      let arrives = to-execute env state intent receipt_id in
      elim (Option-cases (headers_error w headers)) [
        | inr (e, bad) ↦
            covered_of_refusal w p http id env state c
              (state-dispatch w p http env state post "/execute" headers (some intent)
                ∙ oneshot_json-some w p http env state post "/execute" headers (some intent) e bad)
              (no_answer w p http id env state c (rw (bad, dispatch) refl))
        | inl good ↦
            covered_of_request w p http id env state c
              (post_execute (header w intent_header headers) (presented w p http c)
                (w.read_intent (w.print intent)))
              (state-dispatch w p http env state post "/execute" headers (some intent)
                ∙ oneshot_json-none w p http env state post "/execute" headers (some intent) good
                ∙ ap (λ r. (answer w p http env state r).0) arrives)
              (delivers-executes w p http id env state c (header w intent_header headers)
                (w.read_intent (w.print intent))
                (λ n seen.
                  let (d, done, same) =
                    command_status-some (request_execution w p http env state intent receipt_id).1 n
                      seen in
                  same
                  ∙ dispatch-answer w p http env state post "/execute" headers (some intent) d good
                      done
                  ∙ ap (λ r. (answer w p http env state r).1.status) arrives))
              (omega arith)
      ]

  invocation_status-some :
      (r : Result String OkxResult) (n : ℕ)
      → invocation_status r ≡ some n
      → (d : OkxResult) × (r ≡ ok d) × (n ≡ d.status)
  invocation_status-some (ok d) n h = (d, refl, cc h)
  invocation_status-some (err e) n h = cc h

  echoed_status :
      (inv : OkxInvocation) (response : Response) (d : OkxResult)
      → echoed w inv response ≡ ok d
      → d.status ≡ response.status
  unfolding read_reply for_invocation
  echoed_status inv response d h = ground (arith, h)

  -- An invocation that asks for a credential.
  minting-covered :
      (id : String) (env : Env) (state : HandoffState) (inv : OkxInvocation)
      → inv.capability ≡ "credential_minting"
      → IsCovered w p http id env state (invocation inv)
  unfolding serve settles plan to
  minting-covered id env state inv minting =
      let intent = (split_minting_params inv.params).0 in
      let receipt_id = (split_minting_params inv.params).1 in
      let headers = execute_headers (text_at "intent_id" intent) receipt_id in
      let c = invocation inv in
      let arrives = to-execute env state intent receipt_id in
      let planned : plan inv ≡ ok (mint_plan inv.params) = rw minting refl in
      let shows : presented w p http c ≡ and_then receipt_id w.to_str = rw minting refl in
      elim (Option-cases (headers_error w headers)) [
        | inr (e, bad) ↦
            let lost = unsent w inv p http env state (mint_plan inv.params) e planned bad in
            covered_of_refusal w p http id env state c (ap (λ s. s.0) lost)
              (no_answer w p http id env state c (ap (λ s. invocation_status s.1) lost))
        | inl good ↦
            let q =
              post_execute (header w intent_header headers) (presented w p http c)
                (w.read_intent (w.print intent)) in
            let done =
              sent w inv p http env state (mint_plan inv.params) q planned
                (arrives
                  ∙ ap
                      (λ r. routed (
                        post_execute (header w intent_header headers) r
                          (w.read_intent (w.print intent))))
                      (sym shows))
                good in
            covered_of_request w p http id env state c q (ap (λ s. s.0) done)
              (delivers-executes w p http id env state c (header w intent_header headers)
                (w.read_intent (w.print intent))
                (λ n seen.
                  let (d, answered, same) =
                    invocation_status-some (dispatch_okx w p http env state inv).1 n seen in
                  same
                  ∙ echoed_status inv (handle p http env state q).1 d
                      (sym (ap (λ s. s.1) done) ∙ answered)))
              (omega arith)
      ]

  -- Of the capabilities, only that of payments becomes a settlement.
  Serves-pays :
      (inv : OkxInvocation) (q : HttpRequest) (req : SettleRequest)
      → Serves inv.capability q
      → q ≡ post_settle (got req)
      → pays (invocation inv) ≡ true
  Serves-pays inv get_feed req (feeds h) e = cc e
  Serves-pays inv (post_announce _) req (announces body h) e = cc e
  Serves-pays inv (post_settle _) req (paying body h) e = rw h refl
  Serves-pays inv (post_execute _ _ _) req (mints i r body h) e = cc e

  invocation-covered :
      (id : String) (env : Env) (state : HandoffState) (inv : OkxInvocation)
      → IsCovered w p http id env state (invocation inv)
  unfolding serve
  invocation-covered id env state inv =
      elim (Bool-cases (str_eq inv.capability "credential_minting")) [
        | inl minting ↦
            minting-covered id env state inv
              ((eq_iff inv.capability "credential_minting").0 minting)
        | inr other ↦ elim (dispatch_okx-IsServed w inv p http env state) [
          | inl (q, serves, done) ↦
              silent-covered w p http id env state (invocation inv) q (rw other refl)
                (ap (λ s. s.0) done) (λ req e. Serves-pays inv q req serves e)
          | inr (_, e, done) ↦
              covered_of_refusal w p http id env state (invocation inv) (ap (λ s. s.0) done) (
                no_answer w p http id env state (invocation inv)
                  (ap (λ s. invocation_status s.1) done))
        ]
      ]

  call-covered :
      (id : String) (env : Env) (state : HandoffState) (c : Call)
      → IsCovered w p http id env state c
  call-covered id env state (http_request q) = request-covered w p http id env state q
  call-covered id env state (invocation inv) = invocation-covered id env state inv
  call-covered id env state announce_command = announce-covered id env state
  call-covered id env state (settle_command intent_id) = settle-covered id env state intent_id
  call-covered id env state (execute_command intent receipt_id) =
      command-covered id env state intent receipt_id

  delivered-held :
      (id : String) (state : HandoffState) (cs : List (Env × Call))
      → delivered w p http id state cs ≤ held id state.gate.receipts + accepted w p http id state cs
  unfolding delivered accepted
  delivered-held id state [] = omega arith
  delivered-held id state ((env, c) ∷ cs) =
      omega (arith, call-covered id env state c, delivered-held id (serve w p http env state c) cs)

  -- From start-up, under any backend, whatever calls come in by the three doors, requests to the server,
  -- commands of the frontend and invocations of the marketplace, in any order: the calls that present a
  -- receipt id for an execution and whose callers are answered with 200 are no more than the payments, by
  -- any door, that were made under that fresh id and after which the treasury holds it.
  pub delivered-le-accepted :
      (x402_live : Bool) (vars : String → Option String) (stamp : ℕ → String) (id : String)
      (cs : List (Env × Call))
      → delivered w p http id (start x402_live vars stamp) cs
        ≤ accepted w p http id (start x402_live vars stamp) cs
  delivered-le-accepted x402_live vars stamp id cs =
      omega (
        arith,
        delivered-held id (start x402_live vars stamp) cs,
        start-held x402_live vars stamp id,
      )
