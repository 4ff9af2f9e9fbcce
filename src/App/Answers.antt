-- ===== src/App/Answers.antt =====
-- desktop/hammurabi-handoff/src: what the callers at the three doors are answered.
use hammurabi_handoff.Prelude.{
  ℕ, ◌+◌, ◌≤◌, ◌≡◌, refl, arith, String, Bool, true, false, ◌&&◌, ◌==◌, str_eq, Option,
  Option-cases, none, some, and_then, List, [], ◌∷◌, Result, Result-cases, ok, err, inl, inr,
  if◌then◌else◌,
}
use hammurabi_handoff.Prelude.Keyed.{lookup-insert}
use hammurabi_handoff.Crypto.{Primitives}
use hammurabi_handoff.Backend
use hammurabi_handoff.Backend.{Http, receipt_for}
use hammurabi_handoff.Gate.{settle, record_receipt, evict_stale}
use hammurabi_handoff.Gate.Burn
use hammurabi_handoff.Gate.Burn.{held, issues, settle_for}
use hammurabi_handoff.Gate.Treasury.{settle-receipt_for}
use hammurabi_handoff.Guard.{HandoffState}
use hammurabi_handoff.Intent.{AgentIntent}
use hammurabi_handoff.Server.{
  Extracted, SettleRequest, got, refused, HttpRequest, get_feed, post_announce, post_settle,
  post_execute, Env, handle,
}
use hammurabi_handoff.Server.Trace.{executes, settles, gate-settle, executes-held}
use hammurabi_handoff.Oka.Interop.{OkxResult}
use hammurabi_handoff.Bridge.{split_minting_params, dispatch_okx}
use hammurabi_handoff.Bridge.Transport.{Wire}
use hammurabi_handoff.Commands.{Dispatch, agent_announce, x402_settle, request_execution}
use hammurabi_handoff.App.Doors.{
  Call, http_request, invocation, announce_command, settle_command, execute_command, serve,
}

abbrev pub is_200 : Option ℕ → Bool
is_200 none = false
is_200 (some n) = n == 200

abbrev pub is_id : String → Option String → Bool
is_id id none = false
is_id id (some s) = str_eq s id

-- A payment.
abbrev pub pays : Call → Bool
pays (http_request (post_settle body)) = true
pays (http_request get_feed) = false
pays (http_request (post_announce body)) = false
pays (http_request (post_execute h r body)) = false
pays (invocation inv) = str_eq inv.capability "payment_settlement"
pays announce_command = false
pays (settle_command intent_id) = true
pays (execute_command intent receipt_id) = false

abbrev pub command_status : Result String Dispatch → Option ℕ
command_status (ok d) = some d.status
command_status (err e) = none

abbrev pub invocation_status : Result String OkxResult → Option ℕ
invocation_status (ok r) = some r.status
invocation_status (err e) = none

module _ (w : Wire) (p : Primitives) (http : Http) where
  -- The status that the caller gets to see, if any.
  abbrev pub status : Env → HandoffState → Call → Option ℕ
  status env state (http_request q) = some (handle p http env state q).1.status
  status env state (invocation inv) = invocation_status (dispatch_okx w p http env state inv).1
  status env state announce_command = command_status (agent_announce w p http env state).1
  status env state (settle_command intent_id) =
      command_status (x402_settle w p http env state intent_id).1
  status env state (execute_command intent receipt_id) =
      command_status (request_execution w p http env state intent receipt_id).1

  -- The receipt id that an attempt to execute presents, as a header reads back.
  abbrev pub presented : Call → Option String
  presented (http_request (post_execute h receipt_id body)) = receipt_id
  presented (http_request get_feed) = none
  presented (http_request (post_announce body)) = none
  presented (http_request (post_settle body)) = none
  presented (invocation inv) =
      if str_eq inv.capability "credential_minting"
      then and_then (split_minting_params inv.params).1 w.to_str
      else none
  presented announce_command = none
  presented (settle_command intent_id) = none
  presented (execute_command intent receipt_id) = and_then receipt_id w.to_str

  -- 1 if the caller presents the id and is answered with 200.
  unfoldable pub delivers : String → Env → HandoffState → Call → ℕ
  delivers id env state c = if is_200 (status env state c) && is_id id (presented c) then 1 else 0

  -- 1 if the call is a payment under this fresh id, and the treasury holds the id afterwards.
  unfoldable pub accepts : String → Env → HandoffState → Call → ℕ
  accepts id env state c =
      if pays c && (str_eq env.ulid id && (held id (serve w p http env state c).gate.receipts == 1))
      then 1
      else 0

  unfoldable pub delivered : String → HandoffState → List (Env × Call) → ℕ
  delivered id state [] = 0
  delivered id state ((env, c) ∷ cs) =
      delivers id env state c + delivered id (serve w p http env state c) cs

  unfoldable pub accepted : String → HandoffState → List (Env × Call) → ℕ
  accepted id state [] = 0
  accepted id state ((env, c) ∷ cs) =
      accepts id env state c + accepted id (serve w p http env state c) cs

  -- A settlement is under the fresh id, and its receipt is held afterwards.
  settles-held :
      (id : String) (env : Env) (state : HandoffState) (req : SettleRequest)
      → settles p http id state env (post_settle (got req)) ≤ (
          if str_eq env.ulid id
            && (held id (handle p http env state (post_settle (got req))).0.gate.receipts == 1)
          then 1
          else 0)
  unfolding settles issues held Burn.serve settle record_receipt
  settles-held id env state req =
      rw (gate-settle p http env state req)
        (elim (Result-cases
          (Backend.settle http state.gate.backend req.intent_id req.payment env.now env.ulid)) [
            | inl (r, e) ↦
                let made =
                  settle-receipt_for http state.gate.backend req.intent_id req.payment env.now
                    env.ulid r e in
                rw (e, settles, issues, held, Burn.serve, settle)
                  (ground (
                    arith,
                    made,
                    lookup-insert r.receipt_id id r (evict_stale env.now state.gate.receipts),
                  ))
            | inr (x, e) ↦ rw (e, settles, issues, held, Burn.serve, settle) (ground arith)
          ])

  module _ (id : String) (env : Env) (state : HandoffState) (c : Call) where
    abbrev pub after : HandoffState
    after = serve w p http env state c

    -- What a call delivers and leaves in the treasury was there, or was paid for by it.
    abbrev pub IsCovered : Type 0
    IsCovered =
        delivers id env state c + held id after.gate.receipts
        ≤ held id state.gate.receipts + accepts id env state c

    pub covered_of_request :
        (q : HttpRequest)
        → after ≡ (handle p http env state q).0
        → delivers id env state c ≤ executes p http id state env q
        → settles p http id state env q ≤ accepts id env state c
        → IsCovered
    covered_of_request q same answered paid =
        rw same (omega (arith, answered, paid, executes-held p http id env state q))

    pub covered_of_refusal : after ≡ state → delivers id env state c ≡ 0 → IsCovered
    covered_of_refusal same silent = rw same (omega (arith, silent))

    no_delivery : is_id id (presented c) ≡ false → delivers id env state c ≡ 0
    unfolding delivers
    no_delivery other = ground (arith, other)

    pub no_answer : status env state c ≡ none → delivers id env state c ≡ 0
    unfolding delivers
    no_answer unread = ground (arith, unread)

    -- An attempt to execute that reached the router as a request with the id that it presents.
    pub delivers-executes :
        (h : Option String) (body : Extracted AgentIntent)
        → ((n : ℕ)
            → status env state c ≡ some n
            → n ≡ (handle p http env state (post_execute h (presented c) body)).1.status)
        → delivers id env state c ≤ executes p http id state env (post_execute h (presented c) body)
    unfolding delivers executes
    delivers-executes h body agrees = elim (Option-cases (presented c)) [
      | inl nothing ↦ omega (arith, no_delivery (rw nothing refl))
      | inr (t, shows) ↦ elim (Option-cases (status env state c)) [
        | inl unread ↦ rw unread (omega arith)
        | inr (n, seen) ↦
            let same = rw shows at (agrees n seen) in
            rw (seen, shows, executes) (ground (arith, same))
      ]
    ]

  pub request-covered :
      (id : String) (env : Env) (state : HandoffState) (q : HttpRequest)
      → IsCovered id env state (http_request q)
  unfolding delivers executes settles accepts serve
  request-covered id env state get_feed =
      covered_of_request id env state (http_request get_feed) get_feed refl (ground arith)
        (omega arith)
  request-covered id env state (post_announce body) =
      covered_of_request id env state (http_request (post_announce body)) (post_announce body) refl
        (ground arith) (omega arith)
  request-covered id env state (post_settle (refused response)) =
      covered_of_request id env state (http_request (post_settle (refused response)))
        (post_settle (refused response)) refl (ground arith) (omega arith)
  request-covered id env state (post_settle (got req)) =
      covered_of_request id env state (http_request (post_settle (got req))) (post_settle (got req))
        refl (ground arith) (settles-held id env state req)
  request-covered id env state (post_execute h none body) =
      covered_of_request id env state (http_request (post_execute h none body))
        (post_execute h none body) refl (ground arith) (omega arith)
  request-covered id env state (post_execute h (some r) body) =
      covered_of_request id env state (http_request (post_execute h (some r) body))
        (post_execute h (some r) body) refl (ground arith) (omega arith)

  -- An invocation or command that becomes a request other than an attempt to execute.
  pub silent-covered :
      (id : String) (env : Env) (state : HandoffState) (c : Call) (q : HttpRequest)
      → presented c ≡ none
      → serve w p http env state c ≡ (handle p http env state q).0
      → ((req : SettleRequest) → q ≡ post_settle (got req) → pays c ≡ true)
      → IsCovered id env state c
  unfolding settles accepts
  silent-covered id env state c get_feed hidden same kind =
      covered_of_request id env state c get_feed same
        (omega (arith, no_delivery id env state c (rw hidden refl))) (omega arith)
  silent-covered id env state c (post_announce body) hidden same kind =
      covered_of_request id env state c (post_announce body) same
        (omega (arith, no_delivery id env state c (rw hidden refl))) (omega arith)
  silent-covered id env state c (post_execute h r body) hidden same kind =
      covered_of_request id env state c (post_execute h r body) same
        (omega (arith, no_delivery id env state c (rw hidden refl))) (omega arith)
  silent-covered id env state c (post_settle (refused response)) hidden same kind =
      covered_of_request id env state c (post_settle (refused response)) same
        (omega (arith, no_delivery id env state c (rw hidden refl))) (omega arith)
  silent-covered id env state c (post_settle (got req)) hidden same kind =
      covered_of_request id env state c (post_settle (got req)) same
        (omega (arith, no_delivery id env state c (rw hidden refl)))
        (rw (accepts, kind req refl, same) (settles-held id env state req))
