-- ===== src/Tests/Router.antt =====
-- desktop/hammurabi-handoff/src/server.rs at concrete inputs.
use hammurabi_handoff.Prelude.{◌+◌, ◌≤◌, ◌≡◌, ◌∙◌, refl, none, some, List, [], ◌∷◌}
use hammurabi_handoff.Prelude.Keyed.{lookup}
use hammurabi_handoff.Intent.{AgentIntent, mock_eth_limit_order}
use hammurabi_handoff.Gate.Burn.{held}
use hammurabi_handoff.Gate.Treasury.{IsTreasury}
use hammurabi_handoff.Server.{
  got, HttpRequest, post_settle, post_execute, Env, intent_conflict, handle,
}
use hammurabi_handoff.Server.Paid.{PaidFor, execute_paid, execute_held, execute_conflict}
use hammurabi_handoff.Server.Trace.{run, executed, settled, executed-le-settled, run-IsTreasury}
use hammurabi_handoff.Tests.Toy.{
  toy, toy_http, intent_1, receipt_1, state_1, gate_1, env_at, settle_1, differ,
}
use hammurabi_handoff.Tests.Mint.{mint_1_ok}
use hammurabi_handoff.Tests.Gate.{gate_1-IsTreasury}

-- The request that presents the receipt that the treasury holds.
abbrev execute_1 : HttpRequest
execute_1 = post_execute (some "i-1") (some "r-1") (got intent_1)

found_1 : lookup "r-1" gate_1.receipts ≡ some receipt_1
unfolding lookup
found_1 = refl

abbrev env_1 : Env
env_1 = env_at 120 "r-2"

status_1 : (handle toy toy_http env_1 state_1 execute_1).1.status ≡ 200
unfolding mock_eth_limit_order
status_1 =
    (execute_held toy toy_http env_1 state_1 (some "i-1") "r-1" intent_1 receipt_1 found_1 refl
      refl).0
    ∙ rw mint_1_ok refl

execute_paid_example :
    PaidFor toy toy_http env_1 state_1
      (some "i-1")
      "r-1"
      intent_1
      (handle toy toy_http env_1 state_1 execute_1)
execute_paid_example = execute_paid toy toy_http env_1 state_1 (some "i-1") "r-1" intent_1 status_1

abbrev intent_2 : AgentIntent
intent_2 = mock_eth_limit_order "i-2"

execute_conflict_example :
    ((handle toy toy_http env_1 state_1 (post_execute (some "i-1") (some "r-1") (got intent_2))).1
      ≡ intent_conflict)
    × (lookup "r-1"
          (handle toy toy_http env_1 state_1
            (post_execute (some "i-1") (some "r-1") (got intent_2))).0.gate.receipts
        ≡ none)
    × ((handle toy toy_http env_1 state_1
          (post_execute (some "i-1") (some "r-1") (got intent_2))).0.mesh
        ≡ state_1.mesh)
unfolding mock_eth_limit_order
execute_conflict_example =
    execute_conflict toy toy_http env_1 state_1 (some "i-1") "r-1" intent_2 receipt_1 found_1 refl
      (differ "i-2" "i-1" refl)

-- A receipt that is presented twice, and a payment in between.
abbrev trace_1 : List (Env × HttpRequest)
trace_1 =
    (env_1, execute_1) ∷ (env_at 125 "r-4", post_settle (got settle_1)) ∷ (env_1, execute_1) ∷ []

executed-le-settled_example :
    executed toy toy_http "r-1" state_1 trace_1
    ≤ held "r-1" gate_1.receipts + settled toy toy_http "r-1" state_1 trace_1
executed-le-settled_example = executed-le-settled toy toy_http "r-1" state_1 trace_1

run-IsTreasury_example : IsTreasury (run toy toy_http state_1 trace_1).gate.receipts
run-IsTreasury_example = run-IsTreasury toy toy_http state_1 trace_1 gate_1-IsTreasury
