-- ===== src/Backend/Accepted.antt =====
-- desktop/hammurabi-handoff/src/settlement_backend.rs: what was sent to a live facilitator, and answered,
-- for a receipt.
use hammurabi_handoff.Prelude.{
  ℕ, ◌≤◌, ◌<◌, ◌≡◌, ◌↔◌, refl, arith, String, Bool-cases, true, Option, some, none, ◌∷◌, [], ◌<>◌,
  show_ℕ, Result, ok, err, ◌>>=◌, >>=-eq-ok, if◌then◌else◌, map_err, map_err-eq-ok, inl, inr,
}
use hammurabi_handoff.Prelude.Int.{ℤ}
use hammurabi_handoff.Json.{Value, string, object, natural, fields}
use hammurabi_handoff.Receipts.{PaymentReceipt}
use hammurabi_handoff.Backend.{
  FacilitatorConfig, SettlementError, facilitator, transport, Http, VerifyResponse, SettleResponse,
  trim_slashes, is_success, requirements_value, post, requirements, settle_intent, settle,
}
use hammurabi_handoff.Backend.Url.{IsBase, trim_slashes-IsBase, trim_slashes_of_IsBase}

module _ (http : Http) (config : FacilitatorConfig) where
  -- The body of both requests.
  abbrev asked : Value → Value
  asked payment = object (
      fields (
        ("x402Version", natural 1)
        ∷ ("paymentPayload", payment)
        ∷ (
          "paymentRequirements",
          object (
              fields (
                ("scheme", string config.scheme)
                ∷ ("network", string config.network)
                ∷ ("maxAmountRequired", string "500000")
                ∷ ("resource", string config.resource)
                ∷ ("description", string "Hammurabi Handoff — credential mint fee")
                ∷ ("mimeType", string "application/json")
                ∷ ("payTo", string config.pay_to)
                ∷ ("maxTimeoutSeconds", natural 60)
                ∷ ("asset", string config.asset)
                ∷ [])),
        )
        ∷ []))

  -- A request to the facilitator that was answered with a status of success and a readable body.
  pub record Answered {ℓ} {R : Type ℓ} (decode : Value → Result String R) (url : String)
      (payment : Value) (answer : R) : Type ℓ where
    pub status : ℕ
    pub reply : Value
    pub sent : http.send url (asked payment) config.api_key ≡ ok (status, reply)
    pub at_least : 200 ≤ status
    pub below : status < 300
    pub decoded : decode reply ≡ ok answer

  module _ {ℓ} {R : Type ℓ} (decode : Value → Result String R) (path stem : String)
      (payment : Value) (answer : R) (base : IsBase config.base_url stem) where
    -- What `post` does with the reply.
    abbrev read : ℕ × Value → Result SettlementError R
    read (status, reply) =
        if is_success status
        then map_err transport (decode reply)
        else err (transport ("facilitator " <> (path <> (" → HTTP " <> http.status_text status))))

    post-send :
        post http decode config path payment (requirements config)
        ≡ (map_err transport (http.send (stem <> path) (asked payment) config.api_key) >>= read)
    unfolding post requirements requirements_value show_ℕ
    post-send = rw (trim_slashes_of_IsBase config.base_url stem base) refl

    post-Answered :
        post http decode config path payment (requirements config) ≡ ok answer
        → Answered decode (stem <> path) payment answer
    post-Answered h =
        let ((status, reply), replied, h₁) =
          >>=-eq-ok (map_err transport (http.send (stem <> path) (asked payment) config.api_key))
            read (rw post-send at h) in
        elim (Bool-cases (is_success status)) [
          | inl good ↦ record {
            status = status;
            reply = reply;
            sent =
                map_err-eq-ok transport (http.send (stem <> path) (asked payment) config.api_key)
                  replied;
            at_least = ground (arith, good);
            below = ground (arith, good);
            decoded = map_err-eq-ok transport (decode reply) (rw good at h₁);
          }
          | inr bad ↦ cc (rw bad at h₁)
        ]

    post_of_Answered :
        Answered decode (stem <> path) payment answer
        → post http decode config path payment (requirements config) ≡ ok answer
    post_of_Answered a =
        let good : is_success a.status ≡ true = ground (arith, a.at_least, a.below) in
        rw (post-send, a.sent, good, a.decoded) refl

  module _ (intent_id : String) (now : ℤ) (ulid : String) where
    -- The client sent a payment, the facilitator found it valid, and then settled it.
    pub record Cleared (payment : Option Value) (r : PaymentReceipt) : Type 0 where
      pub paid : Value
      pub presented : payment ≡ some paid
      pub stem : String
      pub base : IsBase config.base_url stem
      pub verdict : VerifyResponse
      pub verified : Answered http.decode_verify (stem <> "/verify") paid verdict
      pub valid : verdict.is_valid ≡ true
      pub outcome : SettleResponse
      pub settled : Answered http.decode_settle (stem <> "/settle") paid outcome
      pub success : outcome.success ≡ true
      pub receipt : r ≡ record {
        receipt_id = ulid;
        intent_id = intent_id;
        amount_micro_usdc = 500000;
        cleared_at = now;
      }

    settle_intent-Cleared :
        (paid : Value) (r : PaymentReceipt)
        → settle_intent http config intent_id paid now ulid ≡ ok r
        → Cleared (some paid) r
    unfolding settle_intent
    settle_intent-Cleared paid r h =
        let base = trim_slashes-IsBase config.base_url in
        let stem = trim_slashes config.base_url in
        let (v, ev, h₁) =
          >>=-eq-ok (post http http.decode_verify config "/verify" paid (requirements config)) _
            h in
        elim (Bool-cases v.is_valid) [
          | inl yes_ ↦
              let (s, es, h₂) =
                >>=-eq-ok (post http http.decode_settle config "/settle" paid (requirements config))
                  _ (rw yes_ at h₁) in
              elim (Bool-cases s.success) [
                | inl done ↦ record {
                  paid = paid;
                  presented = refl;
                  stem = stem;
                  base = base;
                  verdict = v;
                  verified = post-Answered http.decode_verify "/verify" stem paid v base ev;
                  valid = yes_;
                  outcome = s;
                  settled = post-Answered http.decode_settle "/settle" stem paid s base es;
                  success = done;
                  receipt = cc (rw done at h₂);
                }
                | inr fails ↦ cc (rw fails at h₂)
              ]
          | inr no_ ↦ cc (rw no_ at h₁)
        ]

    settle_if :
        (payment : Option Value) (r : PaymentReceipt)
        → Cleared payment r
        → settle http (facilitator config) intent_id payment now ulid ≡ ok r
    unfolding settle settle_intent
    settle_if payment r c =
        let verified =
          post_of_Answered http.decode_verify "/verify" c.stem c.paid c.verdict c.base c.verified in
        let settled =
          post_of_Answered http.decode_settle "/settle" c.stem c.paid c.outcome c.base c.settled in
        rw (c.presented, verified, c.valid, settled, c.success) (cc c.receipt)

    -- The live backend makes out a receipt exactly if the client sent a payment, and the facilitator
    -- answered two requests, each with a status from 200 to 299 and a readable body: one to its base
    -- address without slashes at the end and with `/verify` behind it, that the payment is valid, and one
    -- with `/settle` behind it, that it is settled; both requests carry that payment, the version 1, the
    -- configured requirements over 500000 units, and the configured key. The receipt is for the intent,
    -- over 500000, at the caller's time, under the fresh id.
    pub settle-Cleared_iff :
        (payment : Option Value) (r : PaymentReceipt)
        → (settle http (facilitator config) intent_id payment now ulid ≡ ok r) ↔ Cleared payment r
    unfolding settle
    settle-Cleared_iff none r = ((λ h. cc h), settle_if none r)
    settle-Cleared_iff (some paid) r = (settle_intent-Cleared paid r, settle_if (some paid) r)
