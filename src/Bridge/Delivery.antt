-- ===== src/Bridge/Delivery.antt =====
-- desktop/hammurabi-handoff/src/okx_bridge.rs: what a paying agent gets through the bridge.
use hammurabi_handoff.Prelude.{◌≡◌, refl, ◌∙◌, String, true, false, none, ok, is_ok}
use hammurabi_handoff.Prelude.Int.{InI64}
use hammurabi_handoff.Prelude.Keyed.{lookup}
use hammurabi_handoff.Crypto.{Bytes, Primitives, Laws}
use hammurabi_handoff.Jcs.{canonical_message}
use hammurabi_handoff.Backend.{Http, receipt_for}
use hammurabi_handoff.Intent.{AgentIntent, payload}
use hammurabi_handoff.Gate.Treasury.{IsTreasury}
use hammurabi_handoff.Vault.Probes.{IsUnforged}
use hammurabi_handoff.Guard.{HandoffState}
use hammurabi_handoff.Server.{Env}
use hammurabi_handoff.Server.Delivery.{is_ok-mint-payload}
use hammurabi_handoff.Oka.Interop.{OkxResult, needs_payment}
use hammurabi_handoff.Bridge.{dispatch_okx}
use hammurabi_handoff.Bridge.Transport.{Wire, read_reply}
use hammurabi_handoff.Bridge.Loop.{
  settling, paid_minting, Carries, settled_state, execution, settle_then_mint,
}

module _ (w : Wire) (p : Primitives) (laws : Laws p) (http : Http) (env : Env)
    (state : HandoffState) (i : AgentIntent) (carries : Carries w i env.ulid)
    (settle_id : String) where
  -- Where the crates are as documented (`Laws`), the treasury is in order, the texts are carried,
  -- the settlement of an intent's fee was answered with 200, the time of the execution fits an
  -- `i64` and nobody forges the signature that is made then, an invocation to mint with the fresh
  -- receipt and that intent, if its reply can be read, is answered with 200; no further payment is
  -- asked for, and the receipt is spent.
  pub settle_then_receive :
      (env' : Env) (mint_id : String) (paid : OkxResult)
      → IsTreasury state.gate.receipts
      → (dispatch_okx w p http env state (settling settle_id i.intent_id)).1 ≡ ok paid
      → paid.status ≡ 200
      → is_ok (read_reply w (execution w p http env state i carries settle_id env').1) ≡ true
      → InI64 env'.now
      → ((msg : Bytes)
          → canonical_message (payload i) env'.now ≡ ok msg
          → IsUnforged p env'.entropy msg)
      → let done =
          dispatch_okx w p http env'
            (settled_state w p http env state i carries settle_id)
            (paid_minting mint_id (payload i) env.ulid) in
        (r : OkxResult) × (done.1 ≡ ok r)
        × (r.status ≡ 200)
        × (needs_payment r ≡ false)
        × (lookup env.ulid done.0.gate.receipts ≡ none)
  settle_then_receive env' mint_id paid treasury answered accepted readable fits unforged =
      let (r, shown, status, free, spent) =
        settle_then_mint w p http env state i carries settle_id env' mint_id paid treasury answered
          accepted readable in
      let minted =
        is_ok-mint-payload p laws env'.entropy i (receipt_for env.ulid i.intent_id env.now) env'.now
          fits unforged in
      (r, shown, status ∙ rw minted refl, free, spent)
