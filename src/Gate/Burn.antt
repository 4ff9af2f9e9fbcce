-- ===== src/Gate/Burn.antt =====
-- desktop/hammurabi-handoff/src/x402.rs: redemptions, and sequences of requests.
use hammurabi_handoff.Prelude.{
  ℕ, ◌+◌, ◌≤◌, ◌≡◌, ◌↔◌, true, arith, String, Option, none, some, List, [], ◌∷◌, str_eq, eq_iff,
  eq_refl, Result-cases, ok, err, inl, inr, if◌then◌else◌,
}
use hammurabi_handoff.Prelude.Int.{ℤ}
use hammurabi_handoff.Prelude.Keyed.{Keyed, lookup, insert, lookup-remove, lookup-insert}
use hammurabi_handoff.Json.{Value}
use hammurabi_handoff.Receipts.{PaymentReceipt}
use hammurabi_handoff.Backend
use hammurabi_handoff.Backend.{SettlementError, Http}
use hammurabi_handoff.Gate.{
  X402Gate, unknown_receipt, intent_mismatch, evict_stale, record_receipt, settle, redeem,
}

module _ (gate : X402Gate) (id intent_id : String) where
  -- What `redeem` answers, by what the treasury holds under the id.
  pub redeem_result : (redeem gate id intent_id).1 ≡ elim (lookup id gate.receipts) [
    | none ↦ err unknown_receipt
    | some r ↦ if str_eq r.intent_id intent_id then ok r else err intent_mismatch
  ]
  unfolding redeem
  redeem_result = ground arith

  -- Whatever `redeem` answers, the id is gone from the treasury and every other id is as it was.
  pub lookup-redeem :
      (j : String)
      → lookup j (redeem gate id intent_id).0.receipts
        ≡ (if str_eq id j then none else lookup j gate.receipts)
  unfolding redeem
  lookup-redeem j = ground (arith, lookup-remove id j gate.receipts)

  -- Whoever presents an id again, for whatever intent, after any attempt to redeem it, is told that the
  -- receipt is unknown; and an attempt that succeeded was for the intent that the receipt is bound to.
  pub redeem_again :
      (other : String)
      → ((redeem (redeem gate id intent_id).0 id other).1 ≡ err unknown_receipt)
        × ((r : PaymentReceipt)
            → (redeem gate id intent_id).1 ≡ ok r
            → (r.intent_id ≡ intent_id) × (lookup id gate.receipts ≡ some r))
  unfolding redeem
  redeem_again other = (
    ground (arith, lookup-remove id id gate.receipts, eq_refl id),
    λ r h. ground (arith, r_intent r),
  )
    where
      r_intent :
          (r : PaymentReceipt) → (str_eq r.intent_id intent_id ≡ true) ↔ (r.intent_id ≡ intent_id)
      r_intent r = eq_iff r.intent_id intent_id

-- What clients ask of the gate, in the order in which it takes the lock.
pub data Request : Type 0 where
  settle_for : String → Option Value → ℤ → String → Request
  redeem_for : String → String → Request

module _ (http : Http) where
  unfoldable pub serve : X402Gate → Request → X402Gate
  serve gate (settle_for intent_id payment now ulid) =
      (settle http gate intent_id payment now ulid).0
  serve gate (redeem_for id intent_id) = (redeem gate id intent_id).0

  -- 1 if the request settles a payment with a receipt of this id, and 1 if it redeems one.
  unfoldable pub issues : String → X402Gate → Request → ℕ
  issues id gate (settle_for intent_id payment now ulid) =
      elim (settle http gate intent_id payment now ulid).1 [
        | ok r ↦ if str_eq r.receipt_id id then 1 else 0
        | err _ ↦ 0
      ]
  issues id gate (redeem_for _ _) = 0

  unfoldable pub spends : String → X402Gate → Request → ℕ
  spends id gate (settle_for _ _ _ _) = 0
  spends id gate (redeem_for rid intent_id) = elim (redeem gate rid intent_id).1 [
    | ok r ↦ if str_eq rid id then 1 else 0
    | err _ ↦ 0
  ]

  unfoldable pub issued : String → X402Gate → List Request → ℕ
  issued id gate [] = 0
  issued id gate (q ∷ qs) = issues id gate q + issued id (serve gate q) qs

  unfoldable pub spent : String → X402Gate → List Request → ℕ
  spent id gate [] = 0
  spent id gate (q ∷ qs) = spends id gate q + spent id (serve gate q) qs

-- 1 if the treasury holds a receipt under the id.
unfoldable pub held : String → Keyed PaymentReceipt → ℕ
held id m = elim (lookup id m) [ none ↦ 0 | some _ ↦ 1 ]

held-evict_stale-le :
    (id : String) (now : ℤ) (m : Keyed PaymentReceipt) → held id (evict_stale now m) ≤ held id m
unfolding held evict_stale lookup
held-evict_stale-le id now [] = omega arith
held-evict_stale-le id now ((k, r) ∷ m) = ground (arith, held-evict_stale-le id now m)

held-insert :
    (id k : String) (r : PaymentReceipt) (m : Keyed PaymentReceipt)
    → held id (insert k r m) ≤ held id m + (if str_eq k id then 1 else 0)
unfolding held
held-insert id k r m = ground (arith, lookup-insert k id r m)

module _ (http : Http) where
  pub spends-held :
      (id : String) (gate : X402Gate) (q : Request)
      → spends http id gate q + held id (serve http gate q).receipts
        ≤ held id gate.receipts + issues http id gate q
  unfolding spends issues serve settle record_receipt redeem held
  spends-held id gate (settle_for intent_id payment now ulid) =
      elim (Result-cases (Backend.settle http gate.backend intent_id payment now ulid)) [
        | inl (r, e) ↦
            rw (e, issues, serve, settle)
              (omega (
                arith,
                held-insert id r.receipt_id r (evict_stale now gate.receipts),
                held-evict_stale-le id now gate.receipts,
              ))
        | inr (e, p) ↦ rw (p, issues, serve, settle) (omega arith)
      ]
  spends-held id gate (redeem_for rid intent_id) =
      ground (arith, lookup-remove rid id gate.receipts, eq_iff rid id)

  -- In any sequence of settlements and redemptions, from any treasury, an id is redeemed at most as often
  -- as a receipt was settled under it, counting the one that the treasury may hold at the start.
  pub spent-le-issued :
      (id : String) (gate : X402Gate) (qs : List Request)
      → spent http id gate qs ≤ held id gate.receipts + issued http id gate qs
  unfolding spent issued
  spent-le-issued id gate [] = omega arith
  spent-le-issued id gate (q ∷ qs) =
      omega (arith, spends-held id gate q, spent-le-issued id (serve http gate q) qs)
