-- ===== src/Tests/Gate.antt =====
-- desktop/hammurabi-handoff/src/x402.rs at concrete inputs.
use hammurabi_handoff.Prelude.{List, ◌+◌, ◌≤◌, ◌≡◌, refl, arith, eq_iff, none, [], ◌∷◌}
use hammurabi_handoff.Prelude.Int.{pos}
use hammurabi_handoff.Prelude.Keyed.{lookup, insert, remove}
use hammurabi_handoff.Backend
use hammurabi_handoff.Backend.{receipt_for}
use hammurabi_handoff.Gate.{
  X402Gate, unknown_receipt, intent_mismatch, evict_stale, is_fresh, record_receipt, settle, redeem,
}
use hammurabi_handoff.Gate.Burn.{
  Request, serve, settle_for, redeem_for, issued, spent, held, spent-le-issued,
}
use hammurabi_handoff.Gate.Treasury.{IsTreasury}
use hammurabi_handoff.Gate.Outside.{
  settled, rejected, redeemed, answer, answers, run, view, IsSound,
}
use hammurabi_handoff.Gate.Refinement.{answers-run}
use hammurabi_handoff.Tests.Toy.{toy_http, gate_1}

pub gate_1-IsTreasury : IsTreasury gate_1.receipts
unfolding lookup
gate_1-IsTreasury = record {
  distinct = (refl, tt);
  own_id = λ k r h. ground (arith, h, eq_iff "r-1" k);
  full_fee = λ k r h. ground (arith, h, eq_iff "r-1" k);
}

-- A settlement under a new id, that id redeemed twice, and the old one once.
spent-le-issued_example :
    spent toy_http "r-2" gate_1 (
      settle_for "i-2" none (pos 120) "r-2"
      ∷ redeem_for "r-2" "i-2"
      ∷ redeem_for "r-2" "i-2"
      ∷ redeem_for "r-1" "i-1"
      ∷ [])
    ≤ 0
      + issued toy_http "r-2" gate_1 (
          settle_for "i-2" none (pos 120) "r-2"
          ∷ redeem_for "r-2" "i-2"
          ∷ redeem_for "r-2" "i-2"
          ∷ redeem_for "r-1" "i-1"
          ∷ [])
unfolding held lookup
spent-le-issued_example = spent-le-issued toy_http "r-2" gate_1 (
    settle_for "i-2" none (pos 120) "r-2"
    ∷ redeem_for "r-2" "i-2"
    ∷ redeem_for "r-2" "i-2"
    ∷ redeem_for "r-1" "i-1"
    ∷ [])

abbrev gate_2 : X402Gate
gate_2 = (settle toy_http gate_1 "i-2" none (pos 650) "r-2").0

gate_1-IsSound : IsSound gate_1
unfolding lookup
gate_1-IsSound = record {
  treasury = gate_1-IsTreasury;
  timed = λ k r h. ground (arith, h, eq_iff "r-1" k);
}

-- A second receipt, the first one for the wrong intent and again, and the second one.
abbrev requests_1 : List Request
requests_1 =
    settle_for "i-2" none (pos 650) "r-2"
    ∷ redeem_for "r-1" "i-2"
    ∷ redeem_for "r-1" "i-1"
    ∷ redeem_for "r-2" "i-2"
    ∷ []

answers-run_example :
    answers toy_http gate_1 requests_1 ≡ run toy_http Backend.mock (view gate_1) requests_1
answers-run_example =
    answers-run toy_http gate_1 requests_1 gate_1-IsSound
      ((omega arith, omega arith), (tt, (tt, (tt, tt))))

answers_1 :
    answers toy_http gate_1 requests_1
    ≡ settled (receipt_for "r-2" "i-2" (pos 650))
      ∷ rejected intent_mismatch
      ∷ rejected unknown_receipt
      ∷ redeemed (receipt_for "r-2" "i-2" (pos 650))
      ∷ []
unfolding answers answer serve settle redeem record_receipt lookup remove insert evict_stale
    is_fresh Backend.settle
answers_1 = refl
