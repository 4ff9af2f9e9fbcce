-- ===== src/Commands/Marketplace.antt =====
-- desktop/hammurabi-handoff/src/commands.rs and okx_bridge.rs: two ways to `/execute`.
use hammurabi_handoff.Prelude.{String, ◌≡◌, none, some, [], ◌∷◌, Result, ok, err, arith}
use hammurabi_handoff.Json.{Value, string, object, fields, find_field, get_field}
use hammurabi_handoff.Crypto.{Primitives}
use hammurabi_handoff.Backend.{Http}
use hammurabi_handoff.Guard.{HandoffState}
use hammurabi_handoff.Server.{Env}
use hammurabi_handoff.Oka.Interop.{OkxInvocation, OkxResult, for_invocation}
use hammurabi_handoff.Bridge.{execute_headers, text_at, split_minting_params, plan, dispatch_okx}
use hammurabi_handoff.Bridge.Transport.{Wire, post, oneshot_json}
use hammurabi_handoff.Prelude.Keyed.{Keyed}
use hammurabi_handoff.Commands.Agreement.{as_dispatch, dispatch-oneshot_json}
use hammurabi_handoff.Commands.{Dispatch, dispatch, request_execution}

-- A command's outcome as the marketplace shows it.
abbrev pub shown :
    OkxInvocation → HandoffState × Result String Dispatch → HandoffState × Result String OkxResult
shown inv (state, err e) = (state, err e)
shown inv (state, ok d) = (state, ok (for_invocation inv d.status d.body))

-- The parameters of a paid attempt.
abbrev pub paid_params : Value → String → Value
paid_params intent receipt_id =
    object (fields (("intent", intent) ∷ ("receipt_id", string receipt_id) ∷ []))

abbrev pub minting : String → Value → OkxInvocation
minting request_id params = record {
  capability = "credential_minting";
  request_id = request_id;
  params = params;
}

module _ (w : Wire) (p : Primitives) (http : Http) (env : Env) (state : HandoffState) where
  agree :
      (headers : Keyed String) (intent : Value)
      → dispatch w p http env state post "/execute" headers (some intent) ≡ (
        (oneshot_json w p http env state post "/execute" headers (some intent)).0,
        as_dispatch (oneshot_json w p http env state post "/execute" headers (some intent)).1,
      )
  agree headers intent =
      dispatch-oneshot_json w p http env state post "/execute" headers (some intent)

  -- The marketplace's paid attempt does what the desktop's command does with the same intent and receipt;
  -- its unpaid attempt, on an intent without a field `intent`, what the command does without a receipt:
  -- the same new state, and the same error, or the same status and body under the request's id.
  pub dispatch_okx-request_execution :
      (request_id : String) (intent : Value)
      → ((receipt_id : String)
          → dispatch_okx w p http env state (minting request_id (paid_params intent receipt_id))
            ≡ shown
                (minting request_id (paid_params intent receipt_id))
                (request_execution w p http env state intent (some receipt_id)))
        × (get_field "intent" intent ≡ none
            → dispatch_okx w p http env state (minting request_id intent)
              ≡ shown
                  (minting request_id intent)
                  (request_execution w p http env state intent none))
  unfolding dispatch_okx plan split_minting_params get_field find_field request_execution
  dispatch_okx-request_execution request_id intent = (
    λ receipt_id.
        ground
          (arith, agree (execute_headers (text_at "intent_id" intent) (some receipt_id)) intent),
    λ bare. ground (arith, agree (execute_headers (text_at "intent_id" intent) none) intent),
  )
