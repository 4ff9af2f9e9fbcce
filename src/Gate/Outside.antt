-- ===== src/Gate/Outside.antt =====
-- desktop/hammurabi-handoff/src/x402.rs: the gate as its clients see it, a receipt for an id and no map.
use hammurabi_handoff.Prelude.{
  ◌≡◌, String, Option, none, some, List, [], ◌∷◌, str_eq, ok, err, if◌then◌else◌,
}
use hammurabi_handoff.Prelude.Int.{ℤ, pos, InI64, ◌+ℤ◌, ltb_ℤ}
use hammurabi_handoff.Prelude.Keyed.{lookup}
use hammurabi_handoff.Receipts.{PaymentReceipt}
use hammurabi_handoff.Backend
use hammurabi_handoff.Backend.{SettlementBackend, SettlementError, Http, receipt_for}
use hammurabi_handoff.Gate.{X402Gate, X402Error, unknown_receipt, intent_mismatch, settle, redeem}
use hammurabi_handoff.Gate.Burn.{Request, settle_for, redeem_for, serve}
use hammurabi_handoff.Gate.Treasury.{IsTreasury}

-- What a client is told.
pub data Answer : Type 0 where
  settled : PaymentReceipt → Answer
  refused : SettlementError → Answer
  redeemed : PaymentReceipt → Answer
  rejected : X402Error → Answer

unfoldable pub answer : Http → X402Gate → Request → Answer
answer http gate (settle_for intent_id payment now ulid) =
    elim (settle http gate intent_id payment now ulid).1 [ ok r ↦ settled r | err e ↦ refused e ]
answer http gate (redeem_for id intent_id) = elim (redeem gate id intent_id).1 [
  | ok r ↦ redeemed r
  | err x ↦ rejected x
]

-- The answers to requests, one after the other.
unfoldable pub answers : Http → X402Gate → List Request → List Answer
answers http gate [] = []
answers http gate (q ∷ qs) = answer http gate q ∷ answers http (serve http gate q) qs

-- The gate from outside: the receipt that an id buys an execution with, if it does.
abbrev pub Live : Type 0
Live = String → Option PaymentReceipt

-- A receipt dies when a later payment is accepted 600 seconds after it, or more.
abbrev pub outlives : ℤ → Option PaymentReceipt → Option PaymentReceipt
outlives now none = none
outlives now (some r) = if ltb_ℤ now (r.cleared_at +ℤ pos 600) then some r else none

abbrev pub verdict : String → Option PaymentReceipt → Answer
verdict intent_id none = rejected unknown_receipt
verdict intent_id (some r) =
    if str_eq r.intent_id intent_id then redeemed r else rejected intent_mismatch

module _ (http : Http) (backend : SettlementBackend) where
  -- An accepted payment makes one id live, and a redemption, whatever its outcome, makes one dead.
  unfoldable pub step : Live → Request → Live × Answer
  step live (settle_for intent_id payment now ulid) =
      elim (Backend.settle http backend intent_id payment now ulid) [
        | ok _ ↦ (
          λ j.
              if str_eq ulid j
              then some (receipt_for ulid intent_id now)
              else outlives now (live j),
          settled (receipt_for ulid intent_id now),
        )
        | err e ↦ (live, refused e)
      ]
  step live (redeem_for id intent_id) =
      (λ j. if str_eq id j then none else live j, verdict intent_id (live id))

  unfoldable pub run : Live → List Request → List Answer
  run live [] = []
  run live (q ∷ qs) = (step live q).1 ∷ run (step live q).0 qs

abbrev pub view : X402Gate → Live
view gate k = lookup k gate.receipts

-- The time of a request is an `i64`.
abbrev pub IsTimed : Request → Type 0
IsTimed (settle_for _ _ now _) = InI64 now
IsTimed (redeem_for _ _) = Unit

-- A treasury in order whose receipts were cleared at times that are `i64`s.
pub record IsSound (gate : X402Gate) : Type 0 where
  pub treasury : IsTreasury gate.receipts
  pub timed : (k : String) (r : PaymentReceipt) → view gate k ≡ some r → InI64 r.cleared_at
