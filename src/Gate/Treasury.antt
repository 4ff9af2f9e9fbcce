-- ===== src/Gate/Treasury.antt =====
-- desktop/hammurabi-handoff/src/x402.rs: what the treasury holds, and how long.
use hammurabi_handoff.Prelude.{
  ◌≡◌, ◌↔◌, refl, arith, String, true, Option, none, some, [], ◌∷◌, str_eq, eq_iff, Result-cases,
  ok, inl, inr, if◌then◌else◌,
}
use hammurabi_handoff.Prelude.Int.{ℤ, pos, InI64, ◌<ℤ◌, ◌+ℤ◌}
use hammurabi_handoff.Prelude.Keyed.{
  Keyed, Distinct, lookup, remove, insert, lookup-remove, lookup-insert,
}
use hammurabi_handoff.Json.{Value}
use hammurabi_handoff.Receipts.{PaymentReceipt, execution_fee_micro_usdc}
use hammurabi_handoff.Backend
use hammurabi_handoff.Backend.{SettlementBackend, SettlementError, Http, receipt_for}
use hammurabi_handoff.Gate.{X402Gate, is_fresh, evict_stale, record_receipt, settle, redeem}

-- For two times that are `i64`s, the sweep keeps a receipt exactly if it is less than 600 seconds old in
-- exact integers: the saturating subtraction changes no answer.
pub is_fresh_iff :
    (now : ℤ) (r : PaymentReceipt)
    → InI64 now
    → InI64 r.cleared_at
    → (is_fresh now r ≡ true) ↔ (now <ℤ r.cleared_at +ℤ pos 600)
unfolding is_fresh ◌+ℤ◌
is_fresh_iff now r hn hr = ground arith

-- What survives a sweep at `now`.
abbrev pub kept : ℤ → Option PaymentReceipt → Option PaymentReceipt
kept now none = none
kept now (some r) = if is_fresh now r then some r else none

lookup-evict_stale :
    (j : String) (now : ℤ) (m : Keyed PaymentReceipt)
    → Distinct m
    → lookup j (evict_stale now m) ≡ kept now (lookup j m)
unfolding lookup evict_stale
lookup-evict_stale j now [] d = refl
lookup-evict_stale j now ((k, r) ∷ m) d =
    ground (arith, d.0, eq_iff k j, lookup-evict_stale j now m d.1)

evict_stale-Distinct :
    (now : ℤ) (m : Keyed PaymentReceipt) → Distinct m → Distinct (evict_stale now m)
unfolding evict_stale
evict_stale-Distinct now [] d = tt
evict_stale-Distinct now ((k, r) ∷ m) d =
    ground (arith, d.0, lookup-evict_stale k now m d.1, evict_stale-Distinct now m d.1)

insert-Distinct :
    (k : String) (r : PaymentReceipt) (m : Keyed PaymentReceipt)
    → Distinct m
    → Distinct (insert k r m)
unfolding insert lookup
insert-Distinct k r [] d = (refl, tt)
insert-Distinct k r ((j, x) ∷ m) d =
    ground (arith, d.0, eq_iff j k, eq_iff k j, lookup-insert k j r m, insert-Distinct k r m d.1)

remove-Distinct : (k : String) (m : Keyed PaymentReceipt) → Distinct m → Distinct (remove k m)
unfolding remove
remove-Distinct k [] d = tt
remove-Distinct k ((j, x) ∷ m) d = ground (arith, d.0, lookup-remove k j m, remove-Distinct k m d.1)

-- The treasury: each id once, every receipt under its own id, every receipt over the full fee.
pub record IsTreasury (m : Keyed PaymentReceipt) : Type 0 where
  pub distinct : Distinct m
  pub own_id : (k : String) (r : PaymentReceipt) → lookup k m ≡ some r → r.receipt_id ≡ k
  pub full_fee :
      (k : String) (r : PaymentReceipt)
      → lookup k m ≡ some r
      → r.amount_micro_usdc ≡ execution_fee_micro_usdc

-- Both backends make out a receipt for the intent that was asked for, over the full fee, at the
-- caller's time, under the fresh id.
pub settle-receipt_for :
    (http : Http) (b : SettlementBackend) (intent_id : String) (payment : Option Value) (now : ℤ)
    (ulid : String) (r : PaymentReceipt)
    → Backend.settle http b intent_id payment now ulid ≡ ok r
    → r ≡ receipt_for ulid intent_id now
unfolding Backend.settle Backend.settle_intent
settle-receipt_for http b intent_id payment now ulid r h = ground arith

record_receipt-IsTreasury :
    (gate : X402Gate) (r : PaymentReceipt) (now : ℤ)
    → r.amount_micro_usdc ≡ execution_fee_micro_usdc
    → IsTreasury gate.receipts
    → IsTreasury (record_receipt gate r now).receipts
unfolding record_receipt
record_receipt-IsTreasury gate r now fee h = record {
  distinct =
      insert-Distinct r.receipt_id r (evict_stale now gate.receipts)
        (evict_stale-Distinct now gate.receipts h.distinct);
  own_id = λ k x e. ground (
    arith,
    eq_iff r.receipt_id k,
    lookup-insert r.receipt_id k r (evict_stale now gate.receipts),
    lookup-evict_stale k now gate.receipts h.distinct,
    h.own_id k x,
  );
  full_fee = λ k x e. ground (
    arith,
    lookup-insert r.receipt_id k r (evict_stale now gate.receipts),
    lookup-evict_stale k now gate.receipts h.distinct,
    h.full_fee k x,
  );
}

-- A settlement keeps the treasury in order, whether the backend accepts the payment or not.
pub settle-IsTreasury :
    (http : Http) (gate : X402Gate) (intent_id : String) (payment : Option Value) (now : ℤ)
    (ulid : String)
    → IsTreasury gate.receipts
    → IsTreasury (settle http gate intent_id payment now ulid).0.receipts
unfolding settle
settle-IsTreasury http gate intent_id payment now ulid h =
    elim (Result-cases (Backend.settle http gate.backend intent_id payment now ulid)) [
      | inl (r, e) ↦
          let made = settle-receipt_for http gate.backend intent_id payment now ulid r e in
          rw (e, settle) (record_receipt-IsTreasury gate r now (cc made) h)
      | inr (e, p) ↦ rw (p, settle) h
    ]

receipts-redeem :
    (gate : X402Gate) (id intent_id : String)
    → (redeem gate id intent_id).0.receipts ≡ remove id gate.receipts
unfolding redeem
receipts-redeem gate id intent_id = ground arith

-- So does an attempt to redeem.
pub redeem-IsTreasury :
    (gate : X402Gate) (id intent_id : String)
    → IsTreasury gate.receipts
    → IsTreasury (redeem gate id intent_id).0.receipts
redeem-IsTreasury gate id intent_id h = rw receipts-redeem (record {
  distinct = remove-Distinct id gate.receipts h.distinct;
  own_id = λ k x e. ground (arith, lookup-remove id k gate.receipts, h.own_id k x);
  full_fee = λ k x e. ground (arith, lookup-remove id k gate.receipts, h.full_fee k x);
})

-- What a treasury in order holds after a settlement that the backend accepted: the new receipt under its
-- id, and of the others exactly those that are fresh.
pub lookup-settle :
    (http : Http) (gate : X402Gate) (intent_id : String) (payment : Option Value) (now : ℤ)
    (ulid j : String) (r : PaymentReceipt)
    → IsTreasury gate.receipts
    → (settle http gate intent_id payment now ulid).1 ≡ ok r
    → (r ≡ receipt_for ulid intent_id now)
      × (lookup j (settle http gate intent_id payment now ulid).0.receipts
          ≡ (if str_eq ulid j then some r else kept now (lookup j gate.receipts)))
unfolding settle record_receipt
lookup-settle http gate intent_id payment now ulid j r h e =
    elim (Result-cases (Backend.settle http gate.backend intent_id payment now ulid)) [
      | inl (x, p) ↦
          let made = settle-receipt_for http gate.backend intent_id payment now ulid x p in
          ground (
            arith,
            p,
            made,
            lookup-insert x.receipt_id j x (evict_stale now gate.receipts),
            lookup-evict_stale j now gate.receipts h.distinct,
          )
      | inr (x, p) ↦ ground arith
    ]
