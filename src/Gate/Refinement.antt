-- ===== src/Gate/Refinement.antt =====
-- desktop/hammurabi-handoff/src/x402.rs: the gate takes the steps that its clients see.
use mathlib.Core.Path.{subst, fun_ext}
use hammurabi_handoff.Prelude.{
  ◌≡◌, ◌↔◌, refl, sym, ap, ◌∙◌, arith, String, Bool, true, false, Option, none, some, List, [], ◌∷◌,
  All, str_eq, Bool-cases, Result-cases, Result, ok, err, inl, inr, if◌then◌else◌,
}
use hammurabi_handoff.Prelude.Int.{ℤ, pos, InI64, ◌<ℤ◌, ◌+ℤ◌, ltb_ℤ}
use hammurabi_handoff.Json.{Value}
use hammurabi_handoff.Receipts.{PaymentReceipt}
use hammurabi_handoff.Backend
use hammurabi_handoff.Backend.{SettlementBackend, SettlementError, Http, receipt_for}
use hammurabi_handoff.Gate.{X402Gate, is_fresh, settle, redeem, record_receipt}
use hammurabi_handoff.Gate.Burn.{
  Request, settle_for, redeem_for, serve, redeem_result, lookup-redeem,
}
use hammurabi_handoff.Gate.Treasury.{
  kept, is_fresh_iff, lookup-settle, settle-IsTreasury, redeem-IsTreasury,
}
use hammurabi_handoff.Gate.Outside.{
  settled, refused, answer, answers, outlives, step, run, view, IsTimed, IsSound,
}

ltb_ℤ_iff : (a b : ℤ) → (ltb_ℤ a b ≡ true) ↔ (a <ℤ b)
ltb_ℤ_iff a b = ground arith

same_test {ℓ} : {P : Type ℓ} (a b : Bool) → (a ≡ true) ↔ P → (b ≡ true) ↔ P → a ≡ b
same_test true true h k = refl
same_test true false h k = sym (k.1 (h.0 refl))
same_test false true h k = h.1 (k.0 refl)
same_test false false h k = refl

kept-outlives :
    (now : ℤ) (o : Option PaymentReceipt)
    → InI64 now
    → ((r : PaymentReceipt) → o ≡ some r → InI64 r.cleared_at)
    → kept now o ≡ outlives now o
kept-outlives now none fits timed = refl
kept-outlives now (some r) fits timed =
    ap (λ b. if b then some r else none)
      (same_test (is_fresh now r) (ltb_ℤ now (r.cleared_at +ℤ pos 600))
        (is_fresh_iff now r fits (timed r refl)) (ltb_ℤ_iff now (r.cleared_at +ℤ pos 600)))

timed_after :
    (now : ℤ) (b : Bool) (o : Option PaymentReceipt) (fresh x : PaymentReceipt)
    → fresh.cleared_at ≡ now
    → InI64 now
    → ((r : PaymentReceipt) → o ≡ some r → InI64 r.cleared_at)
    → (if b then some fresh else outlives now o) ≡ some x
    → InI64 x.cleared_at
timed_after now true o fresh x made fits timed h =
    let same : fresh ≡ x = cc h in
    subst (λ (r : PaymentReceipt). InI64 r.cleared_at) same (subst InI64 (sym made) fits)
timed_after now false none fresh x made fits timed h = cc h
timed_after now false (some r) fresh x made fits timed h =
    elim (Bool-cases (ltb_ℤ now (r.cleared_at +ℤ pos 600))) [
      | inl e ↦ timed x (rw e at h)
      | inr e ↦ cc (rw e at h)
    ]

-- One request: the gate and the view of it take the same step.
record Steps (http : Http) (gate : X402Gate) (q : Request) : Type 0 where
  pub same_view : view (serve http gate q) ≡ (step http gate.backend (view gate) q).0
  pub same_answer : answer http gate q ≡ (step http gate.backend (view gate) q).1
  pub same_backend : (serve http gate q).backend ≡ gate.backend
  pub sound : IsSound (serve http gate q)

module _ (http : Http) (gate : X402Gate) (intent_id : String) (payment : Option Value) (now : ℤ)
    (ulid : String) where
  abbrev accepted : Result SettlementError PaymentReceipt
  accepted = Backend.settle http gate.backend intent_id payment now ulid

  settle_ok :
      (r : PaymentReceipt)
      → accepted ≡ ok r
      → (settle http gate intent_id payment now ulid).1 ≡ ok r
  unfolding settle
  settle_ok r h = rw (h, settle) refl

  settle_err :
      (e : SettlementError)
      → accepted ≡ err e
      → settle http gate intent_id payment now ulid ≡ (gate, err e)
  unfolding settle
  settle_err e h = rw (h, settle) refl

  answer_settle :
      (r : PaymentReceipt)
      → accepted ≡ ok r
      → answer http gate (settle_for intent_id payment now ulid) ≡ settled r
  unfolding answer
  answer_settle r h = rw (settle_ok r h, answer) refl

  -- The step of the view, by what the backend answers.
  step_ok :
      (r : PaymentReceipt)
      → accepted ≡ ok r
      → step http gate.backend (view gate) (settle_for intent_id payment now ulid) ≡ (
        λ j.
            if str_eq ulid j
            then some (receipt_for ulid intent_id now)
            else outlives now (view gate j),
        settled (receipt_for ulid intent_id now),
      )
  unfolding step
  step_ok r h = rw (h, step) refl

  step_err :
      (e : SettlementError)
      → accepted ≡ err e
      → step http gate.backend (view gate) (settle_for intent_id payment now ulid)
        ≡ (view gate, refused e)
  unfolding step
  step_err e h = rw (h, step) refl

  backend-settle : (settle http gate intent_id payment now ulid).0.backend ≡ gate.backend
  unfolding settle record_receipt
  backend-settle = elim (Result-cases accepted) [
    | inl (r, h) ↦ rw (h, settle) refl
    | inr (e, h) ↦ rw (h, settle) refl
  ]

  Steps-accepted :
      (r : PaymentReceipt)
      → IsSound gate
      → InI64 now
      → accepted ≡ ok r
      → Steps http gate (settle_for intent_id payment now ulid)
  unfolding serve answer
  Steps-accepted r h fits e =
      let found = λ (j : String).
        lookup-settle http gate intent_id payment now ulid j r h.treasury (settle_ok r e) in
      let made : r ≡ receipt_for ulid intent_id now = (found "").0 in
      let lives = λ (j : String). kept-outlives now (view gate j) fits (h.timed j) in
      let seen = λ (j : String).
        (found j).1
        ∙ ap (λ x. if str_eq ulid j then some x else kept now (view gate j)) made
        ∙ ap (λ o. if str_eq ulid j then some (receipt_for ulid intent_id now) else o) (lives j) in
      record {
        same_view = fun_ext seen ∙ sym (ap (λ t. t.0) (step_ok r e));
        same_answer = answer_settle r e ∙ ap settled made ∙ sym (ap (λ t. t.1) (step_ok r e));
        same_backend = backend-settle;
        sound = record {
          treasury = settle-IsTreasury http gate intent_id payment now ulid h.treasury;
          timed = λ k x held.
              timed_after now (str_eq ulid k) (view gate k) (receipt_for ulid intent_id now) x refl
                fits (h.timed k) (sym (seen k) ∙ held);
        };
      }

  Steps-refused :
      (e : SettlementError)
      → IsSound gate
      → accepted ≡ err e
      → Steps http gate (settle_for intent_id payment now ulid)
  unfolding serve answer
  Steps-refused e h same = record {
    same_view = ap (λ t. view t.0) (settle_err e same) ∙ sym (ap (λ t. t.0) (step_err e same));
    same_answer = rw (settle_err e same, answer) refl ∙ sym (ap (λ t. t.1) (step_err e same));
    same_backend = backend-settle;
    sound = subst IsSound (sym (ap (λ t. t.0) (settle_err e same))) h;
  }

Steps-redeem :
    (http : Http) (gate : X402Gate) (id intent_id : String)
    → IsSound gate
    → Steps http gate (redeem_for id intent_id)
unfolding serve step answer redeem
Steps-redeem http gate id intent_id h = record {
  same_view = fun_ext (lookup-redeem gate id intent_id);
  same_answer = ground (arith, redeem_result gate id intent_id);
  same_backend = ground arith;
  sound = record {
    treasury = redeem-IsTreasury gate id intent_id h.treasury;
    timed = λ k x held. ground (arith, lookup-redeem gate id intent_id k, held, h.timed k x);
  };
}

every_step :
    (http : Http) (gate : X402Gate) (q : Request) → IsSound gate → IsTimed q → Steps http gate q
every_step http gate (settle_for intent_id payment now ulid) h fits =
    elim (Result-cases (Backend.settle http gate.backend intent_id payment now ulid)) [
      | inl (r, e) ↦ Steps-accepted http gate intent_id payment now ulid r h fits e
      | inr (e, p) ↦ Steps-refused http gate intent_id payment now ulid e h p
    ]
every_step http gate (redeem_for id intent_id) h fits = Steps-redeem http gate id intent_id h

-- Every sequence of payments and redemptions, at times that are `i64`s, gets from a gate in order,
-- whose receipts were cleared at such times, the answers that it gets from the view of that gate,
-- in which an accepted payment makes its fresh id live, any redemption makes its id dead, and a
-- receipt dies when a later payment is accepted at least 600 seconds, in exact integers, after its
-- own.
pub answers-run :
    (http : Http) (gate : X402Gate) (qs : List Request)
    → IsSound gate
    → All IsTimed qs
    → answers http gate qs ≡ run http gate.backend (view gate) qs
unfolding answers run
answers-run http gate [] h fits = refl
answers-run http gate (q ∷ qs) h fits =
    let s = every_step http gate q h fits.0 in
    let later =
      answers-run http (serve http gate q) qs s.sound fits.1
      ∙ ap (λ b. run http b (view (serve http gate q)) qs) s.same_backend
      ∙ ap (λ t. run http gate.backend t qs) s.same_view in
    cc (s.same_answer, later)
