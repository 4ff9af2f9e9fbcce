-- ===== src/Server/Pipeline.antt =====
-- desktop/hammurabi-handoff/src/server.rs: a payment, and the execution that it pays for.
use hammurabi_handoff.Prelude.{
  ◌≡◌, refl, ap, ◌∙◌, arith, some, none, eq_refl, Result-cases, ok, is_ok, inl, inr, if◌then◌else◌,
}
use hammurabi_handoff.Prelude.Keyed.{lookup}
use hammurabi_handoff.Crypto.{Primitives}
use hammurabi_handoff.Intent.{AgentIntent, payload}
use hammurabi_handoff.Backend.{Http, receipt_for}
use hammurabi_handoff.Receipts.{PaymentReceipt}
use hammurabi_handoff.Gate.{settle}
use hammurabi_handoff.Gate.Burn.{serve}
use hammurabi_handoff.Gate.Treasury.{IsTreasury, lookup-settle}
use hammurabi_handoff.Vault.{mint}
use hammurabi_handoff.Guard.{HandoffState}
use hammurabi_handoff.Server.{
  SettleRequest, got, post_settle, post_execute, Env, x402_settle, handle,
}
use hammurabi_handoff.Server.Paid.{execute_held}
use hammurabi_handoff.Server.Trace.{gate-settle}

module _ (p : Primitives) (http : Http) (env : Env) (state : HandoffState)
    (req : SettleRequest) where
  -- An answer of 200 to a settlement means that the gate settled.
  settled_ok :
      (handle p http env state (post_settle (got req))).1.status ≡ 200
      → (r : PaymentReceipt) × ((settle http state.gate req.intent_id req.payment env.now
            env.ulid).1
          ≡ ok r)
  unfolding handle
  settled_ok h =
      elim (Result-cases (settle http state.gate req.intent_id req.payment env.now env.ulid).1) [
        | inl (r, e) ↦ (r, e)
        | inr (x, e) ↦ absurd (omega (arith, rw (e, x402_settle) at h))
      ]

  held_after_settle :
      IsTreasury state.gate.receipts
      → (handle p http env state (post_settle (got req))).1.status ≡ 200
      → lookup env.ulid (handle p http env state (post_settle (got req))).0.gate.receipts
        ≡ some (receipt_for env.ulid req.intent_id env.now)
  unfolding serve
  held_after_settle t h =
      let (r, e) = settled_ok h in
      let (made, found) =
        lookup-settle http state.gate req.intent_id req.payment env.now env.ulid env.ulid r t e in
      rw (gate-settle p http env state req) (found ∙ rw (eq_refl env.ulid) (ap some made))

  -- After a settlement that was answered with 200, from a treasury in order, the next request to execute
  -- the intent that was paid for, with the fresh receipt and that intent in the body, passes the guard:
  -- the answer is 200 if the vault mints and 422 if it refuses, and the receipt is spent.
  pub settle_then_execute :
      (env' : Env) (i : AgentIntent)
      → IsTreasury state.gate.receipts
      → (handle p http env state (post_settle (got req))).1.status ≡ 200
      → i.intent_id ≡ req.intent_id
      → ((handle p http env'
            (handle p http env state (post_settle (got req))).0
            (post_execute (some req.intent_id) (some env.ulid) (got i))).1.status
          ≡ (if is_ok (
                mint p env'.entropy
                  (payload i)
                  (receipt_for env.ulid req.intent_id env.now)
                  env'.now)
              then 200
              else 422))
        × (lookup env.ulid
              (handle p http env'
                (handle p http env state (post_settle (got req))).0
                (post_execute (some req.intent_id) (some env.ulid) (got i))).0.gate.receipts
            ≡ none)
  settle_then_execute env' i t h same =
      execute_held p http env' (handle p http env state (post_settle (got req))).0
        (some req.intent_id) env.ulid i (receipt_for env.ulid req.intent_id env.now)
        (held_after_settle t h) refl same
