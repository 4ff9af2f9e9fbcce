-- ===== src/Bridge/Loop.antt =====
-- desktop/hammurabi-handoff/src/okx_bridge.rs: payment and execution through invocations.
use hammurabi_handoff.Prelude.{
  ◌≡◌, refl, sym, Bool, true, false, ap, ◌∙◌, arith, String, none, some, [], ◌∷◌, ok, is_ok, inl,
  inr, if◌then◌else◌, Result-cases,
}
use hammurabi_handoff.Prelude.Keyed.{lookup}
use hammurabi_handoff.Json.{Value, string, object, fields, find_field, get_field}
use hammurabi_handoff.Crypto.{Primitives}
use hammurabi_handoff.Backend.{Http, receipt_for}
use hammurabi_handoff.Intent.{AgentIntent, payload}
use hammurabi_handoff.Gate.Treasury.{IsTreasury}
use hammurabi_handoff.Vault.{mint}
use hammurabi_handoff.Guard.{HandoffState, Response}
use hammurabi_handoff.Server.{SettleRequest, got, post_settle, post_execute, Env, handle}
use hammurabi_handoff.Server.Pipeline.{settle_then_execute}
use hammurabi_handoff.Oka.Interop.{OkxInvocation, OkxResult, for_invocation, needs_payment}
use hammurabi_handoff.Bridge.{
  text_at, execute_headers, split_minting_params, plan, settle_plan, mint_plan, dispatch_okx,
}
use hammurabi_handoff.Bridge.Transport.{Wire, routed, read_reply, headers_error, route, header}
use hammurabi_handoff.Bridge.Capability.{echoed, sent}

-- An invocation to settle the fee of an intent, and one to mint with a receipt.
abbrev pub settling : String → String → OkxInvocation
settling request_id intent_id = record {
  capability = "payment_settlement";
  request_id = request_id;
  params = object (fields (("intent_id", string intent_id) ∷ []));
}

abbrev pub paid_minting : String → Value → String → OkxInvocation
paid_minting request_id intent receipt_id = record {
  capability = "credential_minting";
  request_id = request_id;
  params = object (fields (("intent", intent) ∷ ("receipt_id", string receipt_id) ∷ []));
}

module _ (w : Wire) where
  -- What http and axum do with these texts: a header value is accepted and read back, and the derived
  -- serde implementations read what was printed.
  pub record Carries (i : AgentIntent) (receipt_id : String) : Type 0 where
    pub intent_header : w.header_error i.intent_id ≡ none
    pub receipt_header : w.header_error receipt_id ≡ none
    pub intent_text : w.to_str i.intent_id ≡ some i.intent_id
    pub receipt_text : w.to_str receipt_id ≡ some receipt_id
    pub settle_body :
        w.read_settle (w.print (object (fields (("intent_id", string i.intent_id) ∷ []))))
        ≡ got (record { intent_id = i.intent_id; payment = none })
    pub intent_body : w.read_intent (w.print (payload i)) ≡ got i

  module _ (p : Primitives) (http : Http) (i : AgentIntent) (receipt_id : String)
      (carries : Carries i receipt_id) where
    settling-handle :
        (env : Env) (state : HandoffState) (request_id : String)
        → dispatch_okx w p http env state (settling request_id i.intent_id) ≡ (
          (handle p http env state
              (post_settle (got (record { intent_id = i.intent_id; payment = none })))).0,
          echoed w
              (settling request_id i.intent_id)
              (handle p http env state
                (post_settle (got (record { intent_id = i.intent_id; payment = none })))).1,
        )
    unfolding plan headers_error route text_at get_field find_field
    settling-handle env state request_id =
        sent w (settling request_id i.intent_id) p http env state
          (settle_plan (settling request_id i.intent_id).params)
          (post_settle (got (record { intent_id = i.intent_id; payment = none }))) refl
          (ap (λ b. routed (post_settle b)) carries.settle_body) refl

    minting-handle :
        (env : Env) (state : HandoffState) (request_id : String)
        → dispatch_okx w p http env state (paid_minting request_id (payload i) receipt_id) ≡ (
          (handle p http env state (post_execute (some i.intent_id) (some receipt_id) (got i))).0,
          echoed w
              (paid_minting request_id (payload i) receipt_id)
              (handle p http env state
                (post_execute (some i.intent_id) (some receipt_id) (got i))).1,
        )
    unfolding plan headers_error route header text_at get_field find_field payload
        split_minting_params execute_headers lookup
    minting-handle env state request_id =
        sent w (paid_minting request_id (payload i) receipt_id) p http env state
          (mint_plan (paid_minting request_id (payload i) receipt_id).params)
          (post_execute (some i.intent_id) (some receipt_id) (got i)) refl
          (rw (carries.intent_text, carries.receipt_text)
            (ap (λ b. routed (post_execute (some i.intent_id) (some receipt_id) b))
              carries.intent_body))
          (rw (carries.intent_header, carries.receipt_header) refl)

  echoed-status :
      (inv : OkxInvocation) (response : Response) (r : OkxResult)
      → echoed w inv response ≡ ok r
      → r.status ≡ response.status
  unfolding read_reply for_invocation
  echoed-status inv response r h = ground arith

  echoed-is_ok :
      (inv : OkxInvocation) (response : Response)
      → is_ok (read_reply w response) ≡ true
      → (r : OkxResult) × (echoed w inv response ≡ ok r)
  unfolding read_reply
  echoed-is_ok inv response h = elim (Result-cases (read_reply w response)) [
    | inl ((status, body), e) ↦ (for_invocation inv status body, rw (e, echoed) refl)
    | inr (x, e) ↦ absurd (ground (arith, e))
  ]

  not_402 :
      (r : OkxResult) (b : Bool) → r.status ≡ (if b then 200 else 422) → needs_payment r ≡ false
  unfolding needs_payment
  not_402 r b h = ground arith

  module _ (p : Primitives) (http : Http) (env : Env) (state : HandoffState) (i : AgentIntent)
      (carries : Carries i env.ulid) (settle_id : String) where
    abbrev pub settled_state : HandoffState
    settled_state = (dispatch_okx w p http env state (settling settle_id i.intent_id)).0

    abbrev pub execution : Env → HandoffState × Response
    execution env' =
        handle p http env' settled_state (post_execute (some i.intent_id) (some env.ulid) (got i))

    abbrev pub mints : Env → Bool
    mints env' =
        is_ok (mint p env'.entropy (payload i) (receipt_for env.ulid i.intent_id env.now) env'.now)

    -- What an invocation to mint with the fresh receipt comes to.
    abbrev pub IsMinted : Env → String → Type 0
    IsMinted env' mint_id =
        let done =
          dispatch_okx w p http env' settled_state (paid_minting mint_id (payload i) env.ulid) in
        (r : OkxResult) × (done.1 ≡ ok r)
        × (r.status ≡ (if mints env' then 200 else 422))
        × (needs_payment r ≡ false)
        × (lookup env.ulid done.0.gate.receipts ≡ none)

    executed_once :
        (env' : Env) (paid : OkxResult)
        → IsTreasury state.gate.receipts
        → (dispatch_okx w p http env state (settling settle_id i.intent_id)).1 ≡ ok paid
        → paid.status ≡ 200
        → ((execution env').1.status ≡ (if mints env' then 200 else 422))
          × (lookup env.ulid (execution env').0.gate.receipts ≡ none)
    executed_once env' paid treasury answered accepted =
        let req : SettleRequest = record { intent_id = i.intent_id; payment = none } in
        let settled = settling-handle p http i env.ulid carries env state settle_id in
        let shown = sym (ap (λ s. s.1) settled) ∙ answered in
        let status = echoed-status (settling settle_id i.intent_id) _ paid shown in
        rw (ap (λ s. s.0) settled)
          (settle_then_execute p http env state req env' i treasury (sym status ∙ accepted) refl)

    -- Where the treasury is in order, the texts are carried and the settlement of an intent's fee was
    -- answered with 200, an invocation to mint with the fresh receipt and that intent, if its reply can be
    -- read, is answered with 200 if the vault mints and with 422 if it refuses; no further payment is
    -- asked for, and the receipt is spent.
    pub settle_then_mint :
        (env' : Env) (mint_id : String) (paid : OkxResult)
        → IsTreasury state.gate.receipts
        → (dispatch_okx w p http env state (settling settle_id i.intent_id)).1 ≡ ok paid
        → paid.status ≡ 200
        → is_ok (read_reply w (execution env').1) ≡ true
        → IsMinted env' mint_id
    settle_then_mint env' mint_id paid treasury answered accepted readable =
        let inv = paid_minting mint_id (payload i) env.ulid in
        let minted = minting-handle p http i env.ulid carries env' settled_state mint_id in
        let (r, shown) = echoed-is_ok inv (execution env').1 readable in
        let (status, gone) = executed_once env' paid treasury answered accepted in
        let status' = echoed-status inv (execution env').1 r shown ∙ status in
        (r, ap (λ s. s.1) minted ∙ shown, status', not_402 r (mints env') status', rw minted gone)
