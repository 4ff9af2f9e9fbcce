-- ===== src/Bridge.antt =====
-- desktop/hammurabi-handoff/src/okx_bridge.rs: marketplace invocations through the same router. What
-- http, axum and serde_json do with headers and bodies is a parameter, `Wire`.
pub mod Transport
pub mod Capability
pub mod Loop
pub mod Delivery
use hammurabi_handoff.Prelude.{
  String, Option, none, some, List, [], ◌∷◌, str_eq, ◌<>◌, Result, ok, err, and_then, if◌then◌else◌,
}
use hammurabi_handoff.Prelude.Keyed.{Keyed}
use hammurabi_handoff.Json.{Value, null, string, object, end, fields, get_field, as_str}
use hammurabi_handoff.Crypto.{Primitives}
use hammurabi_handoff.Backend.{Http}
use hammurabi_handoff.Guard.{HandoffState, or_empty}
use hammurabi_handoff.Server.{Env}
use hammurabi_handoff.Oka.Interop.{OkxInvocation, OkxResult, for_invocation}
use hammurabi_handoff.Bridge.Transport.{
  Wire, Method, get, post, intent_header, receipt_header, oneshot_json,
}

unfoldable pub announce_body : Value → Option Value
announce_body null = none
announce_body (object end) = none
announce_body other = some other

-- The intent, and the receipt if there is one.
unfoldable pub split_minting_params : Value → Value × Option String
split_minting_params params = elim (get_field "intent" params) [
  | some intent ↦ (intent, and_then (get_field "receipt_id" params) as_str)
  | none ↦ (params, none)
]

-- `value.get(key).and_then(Value::as_str).unwrap_or_default()`.
unfoldable pub text_at : String → Value → String
text_at key value = or_empty (and_then (get_field key value) as_str)

-- What the `match` on the capability assigns: the method, the path, the headers, the body.
pub record Plan : Type 0 where
  pub method : Method
  pub uri : String
  pub headers : Keyed String
  pub body : Option Value

-- The headers that both ways to `/execute` set.
unfoldable pub execute_headers : String → Option String → Keyed String
execute_headers intent_id none = (intent_header, intent_id) ∷ []
execute_headers intent_id (some receipt_id) =
    (intent_header, intent_id) ∷ (receipt_header, receipt_id) ∷ []

abbrev pub feed_plan : Plan
feed_plan = record { method = get; uri = "/mesh/feed"; headers = []; body = none }

abbrev pub announce_plan : Value → Plan
announce_plan params = record {
  method = post;
  uri = "/agent/announce";
  headers = [];
  body = announce_body params;
}

abbrev pub settle_plan : Value → Plan
settle_plan params = record {
  method = post;
  uri = "/x402/settle";
  headers = [];
  body = some (object (fields (("intent_id", string (text_at "intent_id" params)) ∷ [])));
}

abbrev pub mint_plan : Value → Plan
mint_plan params = record {
  method = post;
  uri = "/execute";
  headers =
      execute_headers (text_at "intent_id" (split_minting_params params).0)
        (split_minting_params params).1;
  body = some (split_minting_params params).0;
}

unfoldable pub plan : OkxInvocation → Result String Plan
plan inv =
    if str_eq inv.capability "audit_feed"
    then ok feed_plan
    else if str_eq inv.capability "intent_announce"
    then ok (announce_plan inv.params)
    else if str_eq inv.capability "payment_settlement"
    then ok (settle_plan inv.params)
    else if str_eq inv.capability "credential_minting"
    then ok (mint_plan inv.params)
    else err ("unknown OKX capability: " <> inv.capability)

module _ (w : Wire) (p : Primitives) (http : Http) where
  unfoldable pub dispatch_okx :
      Env → HandoffState → OkxInvocation → HandoffState × Result String OkxResult
  unfolding plan
  dispatch_okx env state inv = elim (plan inv) [
    | err e ↦ (state, err e)
    | ok q ↦
        let (state', reply) = oneshot_json w p http env state q.method q.uri q.headers q.body in
        elim reply [
          | err e ↦ (state', err e)
          | ok (status, body) ↦ (state', ok (for_invocation inv status body))
        ]
  ]
