-- ===== src/Server/Paid.antt =====
-- desktop/hammurabi-handoff/src/server.rs and x402.rs: requests to `/execute`.
use hammurabi_handoff.Prelude.{
  ◌≡◌, ◌≢◌, refl, ap, ◌∙◌, arith, String, Option, none, some, str_eq, eq_iff, eq_refl, Result-cases,
  Bool-cases, ok, err, is_ok, inl, inr, if◌then◌else◌,
}
use hammurabi_handoff.Prelude.Keyed.{lookup}
use hammurabi_handoff.Crypto.{Primitives}
use hammurabi_handoff.Intent.{AgentIntent, payload}
use hammurabi_handoff.Receipts.{PaymentReceipt}
use hammurabi_handoff.Backend.{Http}
use hammurabi_handoff.Gate.{X402Gate, X402Error, redeem, terms_for}
use hammurabi_handoff.Gate.Burn.{redeem_result, lookup-redeem, redeem_again}
use hammurabi_handoff.Mesh.{restriction}
use hammurabi_handoff.Vault.{EphemeralCredential, mint}
use hammurabi_handoff.Settlement.{package_envelope, to_broadcast_json}
use hammurabi_handoff.Guard.{
  HandoffState, Response, or_empty, narrate, payment_required, payment_guard, gate_handle,
  x402_restriction_notice,
}
use hammurabi_handoff.Server.{
  Extracted, got, post_execute, Env, intent_conflict, execute_intent, handle,
}

-- `execute` behind the guard: what an answer of 200 comes from. The gate is left as it is on every branch.
pub execute_intent_ok :
    (p : Primitives) (env : Env) (state : HandoffState) (receipt : PaymentReceipt) (i : AgentIntent)
    → (execute_intent p env state receipt i).1.status ≡ 200
    → (receipt.intent_id ≡ i.intent_id)
      × ((cred : EphemeralCredential) × (mint p env.entropy (payload i) receipt env.now ≡ ok cred)
          × ((execute_intent p env state receipt i).1.body
              ≡ to_broadcast_json (package_envelope (payload i) cred receipt)))
unfolding execute_intent
execute_intent_ok p env state receipt i h =
    elim (Bool-cases (str_eq receipt.intent_id i.intent_id)) [
      | inl e ↦ (
        (eq_iff receipt.intent_id i.intent_id).0 e,
        elim (Result-cases (mint p env.entropy (payload i) receipt env.now)) [
          | inl (c, m) ↦ (c, m, rw (e, m, execute_intent) refl)
          | inr (x, m) ↦ absurd (omega (arith, rw (e, m, execute_intent) at h))
        ],
      )
      | inr e ↦ absurd (omega (arith, rw (e, execute_intent) at h))
    ]

pub gate-execute_intent :
    (p : Primitives) (env : Env) (state : HandoffState) (receipt : PaymentReceipt) (i : AgentIntent)
    → (execute_intent p env state receipt i).0.gate ≡ state.gate
unfolding execute_intent narrate
gate-execute_intent p env state receipt i = ground arith

module _ (p : Primitives) (http : Http) (env : Env) (state : HandoffState)
    (intent_header : Option String) where
  -- A request to execute without a receipt is refused with 402 and the terms for its intent, the gate is
  -- as it was, and the refusal is narrated to the feed.
  pub execute_unpaid :
      (body : Extracted AgentIntent)
      → handle p http env state (post_execute intent_header none body) ≡ (
        narrate env.stamp state gate_handle restriction x402_restriction_notice,
        payment_required (terms_for (or_empty intent_header)),
      )
  unfolding handle
  execute_unpaid body = refl

  module _ (receipt_id : String) (i : AgentIntent) where
    -- The outcome of a successful execution: who paid, for what, and what is left.
    pub record PaidFor (r : HandoffState × Response) : Type 0 where
      pub receipt : PaymentReceipt
      pub was_held : lookup receipt_id state.gate.receipts ≡ some receipt
      pub for_header : receipt.intent_id ≡ or_empty intent_header
      pub for_body : receipt.intent_id ≡ i.intent_id
      pub burned : lookup receipt_id r.0.gate.receipts ≡ none
      pub cred : EphemeralCredential
      pub minted : mint p env.entropy (payload i) receipt env.now ≡ ok cred
      pub answer : r.1.body ≡ to_broadcast_json (package_envelope (payload i) cred receipt)

    -- The request, once its receipt is redeemed.
    pub handle_redeemed :
        (r : PaymentReceipt)
        → (redeem state.gate receipt_id (or_empty intent_header)).1 ≡ ok r
        → handle p http env state (post_execute intent_header (some receipt_id) (got i))
          ≡ execute_intent p env
              (record state { gate = (redeem state.gate receipt_id (or_empty intent_header)).0 })
              r
              i
    unfolding handle
    handle_redeemed r e = rw (e, payment_guard) refl

    handle_refused :
        (x : X402Error)
        → (redeem state.gate receipt_id (or_empty intent_header)).1 ≡ err x
        → (handle p http env state (post_execute intent_header (some receipt_id) (got i))).1.status
          ≡ 402
    unfolding handle payment_required
    handle_refused x e = rw (e, payment_guard) refl

    redeemed_held :
        (r : PaymentReceipt)
        → (redeem state.gate receipt_id (or_empty intent_header)).1 ≡ ok r
        → (lookup receipt_id state.gate.receipts ≡ some r) × (r.intent_id ≡ or_empty intent_header)
    redeemed_held r e =
        let (_, first) = redeem_again state.gate receipt_id (or_empty intent_header) "" in
        let (bound, found) = first r e in (found, bound)

    -- If a request to execute an intent is answered with 200, then the treasury held the receipt that it
    -- presents, bound to the intent of its header and of its body, the vault minted a credential for that
    -- receipt and that intent, the answer is the envelope of that credential, and the receipt is gone.
    pub execute_paid :
        (handle p http env state (post_execute intent_header (some receipt_id) (got i))).1.status
          ≡ 200
        → PaidFor (handle p http env state (post_execute intent_header (some receipt_id) (got i)))
    execute_paid h = elim (Result-cases (redeem state.gate receipt_id (or_empty intent_header)).1) [
      | inl (r, e) ↦
          let gate' = (redeem state.gate receipt_id (or_empty intent_header)).0 in
          let state' : HandoffState = record state { gate = gate' } in
          let eq = handle_redeemed r e in
          let (held, bound) = redeemed_held r e in
          let (same, (cred, minted, answer)) = execute_intent_ok p env state' r i (rw eq at h) in
          rw eq (record {
            receipt = r;
            was_held = held;
            for_header = bound;
            for_body = same;
            burned =
                ap (λ (g : X402Gate). lookup receipt_id g.receipts)
                  (gate-execute_intent p env state' r i)
                ∙ lookup-redeem state.gate receipt_id (or_empty intent_header) receipt_id
                ∙ rw (eq_refl receipt_id) refl;
            cred = cred;
            minted = minted;
            answer = answer;
          })
      | inr (x, e) ↦ absurd (omega (arith, handle_refused x e))
    ]

    -- A receipt that the treasury holds, presented for the intent that it is bound to, with that intent in
    -- the body: the answer is 200 if the vault mints, and 422 if it refuses; the receipt is burned in both
    -- cases.
    pub execute_held :
        (r : PaymentReceipt)
        → lookup receipt_id state.gate.receipts ≡ some r
        → r.intent_id ≡ or_empty intent_header
        → i.intent_id ≡ r.intent_id
        → ((handle p http env state (post_execute intent_header (some receipt_id) (got i))).1.status
            ≡ (if is_ok (mint p env.entropy (payload i) r env.now) then 200 else 422))
          × (lookup receipt_id
                (handle p http env state
                  (post_execute intent_header (some receipt_id) (got i))).0.gate.receipts
              ≡ none)
    unfolding execute_intent narrate
    execute_held r held bound same =
        let found : (redeem state.gate receipt_id (or_empty intent_header)).1 ≡ ok r = ground (
          arith,
          redeem_result state.gate receipt_id (or_empty intent_header),
          eq_iff r.intent_id (or_empty intent_header),
        ) in
        rw (handle_redeemed r found) (
          ground (arith, eq_iff r.intent_id i.intent_id),
          ground (
            arith,
            eq_refl receipt_id,
            lookup-redeem state.gate receipt_id (or_empty intent_header) receipt_id,
          ),
        )

    -- A receipt presented for the intent that it is bound to, with another intent in the body, is burned,
    -- the request is refused with 402, and the feed has no line about it.
    pub execute_conflict :
        (r : PaymentReceipt)
        → lookup receipt_id state.gate.receipts ≡ some r
        → r.intent_id ≡ or_empty intent_header
        → i.intent_id ≢ r.intent_id
        → ((handle p http env state (post_execute intent_header (some receipt_id) (got i))).1
            ≡ intent_conflict)
          × (lookup receipt_id
                (handle p http env state
                  (post_execute intent_header (some receipt_id) (got i))).0.gate.receipts
              ≡ none)
          × ((handle p http env state (post_execute intent_header (some receipt_id) (got i))).0.mesh
              ≡ state.mesh)
    unfolding execute_intent
    execute_conflict r held bound differ =
        let found : (redeem state.gate receipt_id (or_empty intent_header)).1 ≡ ok r = ground (
          arith,
          redeem_result state.gate receipt_id (or_empty intent_header),
          eq_iff r.intent_id (or_empty intent_header),
        ) in
        rw (handle_redeemed r found) (
          ground (arith, eq_iff r.intent_id i.intent_id),
          ground (
            arith,
            eq_refl receipt_id,
            eq_iff r.intent_id i.intent_id,
            lookup-redeem state.gate receipt_id (or_empty intent_header) receipt_id,
          ),
          ground (arith, eq_iff r.intent_id i.intent_id),
        )
