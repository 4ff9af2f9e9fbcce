-- ===== src/Server/Trace.antt =====
-- desktop/hammurabi-handoff/src/server.rs: any sequence of requests to the router.
use hammurabi_handoff.Prelude.{
  ℕ, ◌+◌, ◌≤◌, ◌≡◌, refl, arith, String, Option, none, some, List, [], ◌∷◌, str_eq, ◌==◌, ◌&&◌,
  Result-cases, err, inl, inr, if◌then◌else◌,
}
use hammurabi_handoff.Crypto.{Primitives}
use hammurabi_handoff.Intent.{AgentIntent}
use hammurabi_handoff.Backend.{Http}
use hammurabi_handoff.Gate.{X402Gate, X402Error, redeem}
use hammurabi_handoff.Gate.Burn.{settle_for, redeem_for, serve, issues, spends, held, spends-held}
use hammurabi_handoff.Gate.Treasury.{IsTreasury, settle-IsTreasury, redeem-IsTreasury}
use hammurabi_handoff.Guard.{HandoffState, or_empty, narrate, payment_required, payment_guard}
use hammurabi_handoff.Server.{
  SettleRequest, Extracted, got, refused, HttpRequest, get_feed, post_announce, post_settle,
  post_execute, Env, mesh_feed, agent_announce, x402_settle, execute_intent, execute, handle,
}

module _ (p : Primitives) (http : Http) where
  -- The requests in the order in which the server takes them, each with its environment.
  unfoldable pub run : HandoffState → List (Env × HttpRequest) → HandoffState
  run state [] = state
  run state ((env, q) ∷ qs) = run (handle p http env state q).0 qs

  -- 1 if the request settles a payment with a receipt of this id.
  unfoldable pub settles : String → HandoffState → Env → HttpRequest → ℕ
  settles id state env (post_settle (got req)) =
      issues http id state.gate (settle_for req.intent_id req.payment env.now env.ulid)
  settles id state env _ = 0

  -- 1 if the request presents this id to `/execute` and is answered with 200.
  unfoldable pub executes : String → HandoffState → Env → HttpRequest → ℕ
  executes id state env (post_execute h (some receipt_id) body) =
      if ((handle p http env state (post_execute h (some receipt_id) body)).1.status == 200)
        && str_eq receipt_id id
      then 1
      else 0
  executes id state env _ = 0

  unfoldable pub settled : String → HandoffState → List (Env × HttpRequest) → ℕ
  settled id state [] = 0
  settled id state ((env, q) ∷ qs) =
      settles id state env q + settled id (handle p http env state q).0 qs

  unfoldable pub executed : String → HandoffState → List (Env × HttpRequest) → ℕ
  executed id state [] = 0
  executed id state ((env, q) ∷ qs) =
      executes id state env q + executed id (handle p http env state q).0 qs

  pub gate-settle :
      (env : Env) (state : HandoffState) (req : SettleRequest)
      → (handle p http env state (post_settle (got req))).0.gate
        ≡ serve http state.gate (settle_for req.intent_id req.payment env.now env.ulid)
  unfolding handle x402_settle narrate serve
  gate-settle env state req = ground arith

  pub gate-post_execute :
      (env : Env) (state : HandoffState) (h : Option String) (receipt_id : String)
      (body : Extracted AgentIntent)
      → (handle p http env state (post_execute h (some receipt_id) body)).0.gate
        ≡ serve http state.gate (redeem_for receipt_id (or_empty h))
  unfolding handle narrate serve payment_guard execute execute_intent
  gate-post_execute env state h receipt_id body = ground arith

  pub status-refused :
      (env : Env) (state : HandoffState) (h : Option String) (receipt_id : String)
      (body : Extracted AgentIntent) (x : X402Error)
      → (redeem state.gate receipt_id (or_empty h)).1 ≡ err x
      → (handle p http env state (post_execute h (some receipt_id) body)).1.status ≡ 402
  unfolding handle payment_required
  status-refused env state h receipt_id body x e = rw (e, payment_guard) refl

  executes-le-spends :
      (id : String) (env : Env) (state : HandoffState) (h : Option String) (receipt_id : String)
      (body : Extracted AgentIntent)
      → executes id state env (post_execute h (some receipt_id) body)
        ≤ spends http id state.gate (redeem_for receipt_id (or_empty h))
  unfolding executes spends
  executes-le-spends id env state h receipt_id body =
      elim (Result-cases (redeem state.gate receipt_id (or_empty h)).1) [
        | inl (r, e) ↦ rw (e, spends) (ground arith)
        | inr (x, e) ↦ ground (arith, status-refused env state h receipt_id body x e)
      ]

  executes-held_settle :
      (id : String) (env : Env) (state : HandoffState) (req : SettleRequest)
      → held id (handle p http env state (post_settle (got req))).0.gate.receipts
        ≤ held id state.gate.receipts + settles id state env (post_settle (got req))
  unfolding settles
  executes-held_settle id env state req = rw (gate-settle env state req) (
      omega (
        arith,
        spends-held http id state.gate (settle_for req.intent_id req.payment env.now env.ulid),
      ))

  issues-redeem_for :
      (id : String) (gate : X402Gate) (receipt_id intent_id : String)
      → issues http id gate (redeem_for receipt_id intent_id) ≡ 0
  unfolding issues
  issues-redeem_for id gate receipt_id intent_id = refl

  executes-held_execute :
      (id : String) (env : Env) (state : HandoffState) (h : Option String) (receipt_id : String)
      (body : Extracted AgentIntent)
      → executes id state env (post_execute h (some receipt_id) body)
          + held id
              (handle p http env state (post_execute h (some receipt_id) body)).0.gate.receipts
        ≤ held id state.gate.receipts
  executes-held_execute id env state h receipt_id body =
      rw (gate-post_execute env state h receipt_id body) (
        omega (
          arith,
          executes-le-spends id env state h receipt_id body,
          spends-held http id state.gate (redeem_for receipt_id (or_empty h)),
          issues-redeem_for id state.gate receipt_id (or_empty h),
        ))

  pub executes-held :
      (id : String) (env : Env) (state : HandoffState) (q : HttpRequest)
      → executes id state env q + held id (handle p http env state q).0.gate.receipts
        ≤ held id state.gate.receipts + settles id state env q
  unfolding executes settles handle mesh_feed agent_announce narrate payment_guard
  executes-held id env state get_feed = omega arith
  executes-held id env state (post_announce body) = omega arith
  executes-held id env state (post_settle (refused response)) = omega arith
  executes-held id env state (post_settle (got req)) =
      omega (arith, executes-held_settle id env state req)
  executes-held id env state (post_execute h none body) = omega arith
  executes-held id env state (post_execute h (some receipt_id) body) =
      omega (arith, executes-held_execute id env state h receipt_id body)

  -- In any sequence of requests from any state, an id is answered with 200 by `/execute` at most as often
  -- as a payment was settled under it, counting the receipt that the treasury may hold at the start.
  pub executed-le-settled :
      (id : String) (state : HandoffState) (qs : List (Env × HttpRequest))
      → executed id state qs ≤ held id state.gate.receipts + settled id state qs
  unfolding executed settled
  executed-le-settled id state [] = omega arith
  executed-le-settled id state ((env, q) ∷ qs) =
      omega (
        arith,
        executes-held id env state q,
        executed-le-settled id (handle p http env state q).0 qs,
      )

  handle-IsTreasury :
      (env : Env) (state : HandoffState) (q : HttpRequest)
      → IsTreasury state.gate.receipts
      → IsTreasury (handle p http env state q).0.gate.receipts
  unfolding handle mesh_feed agent_announce narrate payment_guard serve
  handle-IsTreasury env state get_feed t = t
  handle-IsTreasury env state (post_announce body) t = t
  handle-IsTreasury env state (post_settle (refused response)) t = t
  handle-IsTreasury env state (post_settle (got req)) t =
      rw (gate-settle env state req)
        (settle-IsTreasury http state.gate req.intent_id req.payment env.now env.ulid t)
  handle-IsTreasury env state (post_execute h none body) t = t
  handle-IsTreasury env state (post_execute h (some receipt_id) body) t =
      rw (gate-post_execute env state h receipt_id body)
        (redeem-IsTreasury state.gate receipt_id (or_empty h) t)

  -- Whatever requests come, in whatever order, a treasury that is in order stays in order: each id once,
  -- every receipt under its own id and over the full fee.
  pub run-IsTreasury :
      (state : HandoffState) (qs : List (Env × HttpRequest))
      → IsTreasury state.gate.receipts
      → IsTreasury (run state qs).gate.receipts
  unfolding run
  run-IsTreasury state [] t = t
  run-IsTreasury state ((env, q) ∷ qs) t =
      run-IsTreasury (handle p http env state q).0 qs (handle-IsTreasury env state q t)
