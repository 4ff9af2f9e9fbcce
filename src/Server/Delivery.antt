-- ===== src/Server/Delivery.antt =====
-- desktop/hammurabi-handoff/src/server.rs: what a paying agent gets.
use hammurabi_handoff.Prelude.{◌≡◌, refl, ◌∙◌, arith, some, none, ok, is_ok, true, false}
use hammurabi_handoff.Prelude.Int.{ℤ, pos, InI64, ◌+ℤ◌, ◌≤ℤ◌, ◌<ℤ◌}
use hammurabi_handoff.Prelude.Keyed.{lookup}
use hammurabi_handoff.Crypto.{Bytes, Primitives, Laws}
use hammurabi_handoff.Jcs.{canonical_message}
use hammurabi_handoff.Jcs.Integers.{has_float, keys_distinct}
use hammurabi_handoff.Json.{get_field, find_field}
use hammurabi_handoff.Intent.{AgentIntent, payload}
use hammurabi_handoff.Backend.{Http, receipt_for}
use hammurabi_handoff.Receipts.{PaymentReceipt}
use hammurabi_handoff.Gate.Treasury.{IsTreasury}
use hammurabi_handoff.Vault.{EphemeralCredential, MintEntropy, mint}
use hammurabi_handoff.Vault.Probes.{IsUnforged, is_marked}
use hammurabi_handoff.Vault.Chaos.{is_ok-mint}
use hammurabi_handoff.Vault.Mint.{verify-mint}
use hammurabi_handoff.Settlement.{package_envelope, verify_envelope, to_broadcast_json}
use hammurabi_handoff.Settlement.Agreement.{verify_envelope_iff}
use hammurabi_handoff.Guard.{HandoffState, Response}
use hammurabi_handoff.Server.{SettleRequest, got, post_settle, post_execute, Env, handle}
use hammurabi_handoff.Server.Paid.{execute_paid}
use hammurabi_handoff.Server.Pipeline.{settle_then_execute}

-- An intent's payload has distinct keys, no float, and not the member that probe 1 adds.
payload-keys_distinct : (i : AgentIntent) → keys_distinct (payload i) ≡ true
unfolding keys_distinct payload
payload-keys_distinct i = refl

payload-has_float : (i : AgentIntent) → has_float (payload i) ≡ false
unfolding has_float payload
payload-has_float i = refl

payload-is_marked : (i : AgentIntent) → is_marked (payload i) ≡ false
unfolding is_marked payload get_field find_field
payload-is_marked i = refl

-- The answer holds the envelope of a credential for the intent, which verifies from its issue until
-- 60 seconds later.
pub record Delivered (p : Primitives) (env : Env) (i : AgentIntent) (response : Response)
    : Type 0 where
  pub cred : EphemeralCredential
  pub receipt : PaymentReceipt
  pub body : response.body ≡ to_broadcast_json (package_envelope (payload i) cred receipt)
  pub verifies :
      (t : ℤ)
      → env.now ≤ℤ t
      → t <ℤ (env.now +ℤ pos 60)
      → verify_envelope p (package_envelope (payload i) cred receipt) t ≡ ok tt

module _ (p : Primitives) (laws : Laws p) where
  -- The vault mints for every intent.
  pub is_ok-mint-payload :
      (entropy : MintEntropy) (i : AgentIntent) (receipt : PaymentReceipt) (now : ℤ)
      → InI64 now
      → ((msg : Bytes) → canonical_message (payload i) now ≡ ok msg → IsUnforged p entropy msg)
      → is_ok (mint p entropy (payload i) receipt now) ≡ true
  is_ok-mint-payload entropy i receipt now fits unforged =
      is_ok-mint p laws entropy (payload i) receipt now (payload-keys_distinct i) fits unforged
      ∙ rw (payload-has_float i, payload-is_marked i) refl

  -- The answer of 200 to an execution delivers.
  execute-Delivered :
      (http : Http) (env : Env) (state : HandoffState) (intent_id receipt_id : _) (i : AgentIntent)
      → InI64 (env.now +ℤ pos 60)
      → (handle p http env state (post_execute intent_id (some receipt_id) (got i))).1.status ≡ 200
      → Delivered p env i
          (handle p http env state (post_execute intent_id (some receipt_id) (got i))).1
  execute-Delivered http env state intent_id receipt_id i fits h =
      let paid = execute_paid p http env state intent_id receipt_id i h in
      record {
        cred = paid.cred;
        receipt = paid.receipt;
        body = paid.answer;
        verifies = λ t after before.
            (verify_envelope_iff p (payload i) paid.cred paid.receipt t).1 (
              verify-mint p laws env.entropy (payload i) paid.receipt env.now t paid.cred fits
                paid.minted
              ∙ ground (arith, after, before));
      }

  module _ (http : Http) (env : Env) (state : HandoffState) (req : SettleRequest) where
    -- Where the crates are as documented (`Laws`): after a settlement that was answered with 200,
    -- from a treasury in order, the next request to execute the intent that was paid for, with the
    -- fresh receipt and that intent in the body, at a time that fits an `i64` with the 60 seconds
    -- after it, and with a signature that nobody forges, is answered with 200; the answer holds the
    -- envelope of a credential for that intent, which the envelope's verifier accepts from the time
    -- of the request until 60 seconds later, the end excluded; and the receipt is spent.
    pub settle_then_deliver :
        (env' : Env) (i : AgentIntent)
        → IsTreasury state.gate.receipts
        → (handle p http env state (post_settle (got req))).1.status ≡ 200
        → i.intent_id ≡ req.intent_id
        → InI64 env'.now
        → InI64 (env'.now +ℤ pos 60)
        → ((msg : Bytes)
            → canonical_message (payload i) env'.now ≡ ok msg
            → IsUnforged p env'.entropy msg)
        → let done =
            handle p http env'
              (handle p http env state (post_settle (got req))).0
              (post_execute (some req.intent_id) (some env.ulid) (got i)) in
          (done.1.status ≡ 200)
          × Delivered p env' i done.1
          × (lookup env.ulid done.0.gate.receipts ≡ none)
    settle_then_deliver env' i t h same fits fits' unforged =
        let (status, burned) = settle_then_execute p http env state req env' i t h same in
        let minted =
          is_ok-mint-payload env'.entropy i (receipt_for env.ulid req.intent_id env.now) env'.now
            fits unforged in
        let accepted = status ∙ rw minted refl in
        (
          accepted,
          execute-Delivered http env' (handle p http env state (post_settle (got req))).0
              (some req.intent_id) env.ulid i fits' accepted,
          burned,
        )
