-- ===== src/Bridge/Transport.antt =====
-- One request through the router in-process: `oneshot_json` of desktop/hammurabi-handoff/src/okx_bridge.rs,
-- which `dispatch` of commands.rs repeats. The body of an extractor's own response is text, which
-- stands as a `string`.
use mathlib.Core.Option
use hammurabi_handoff.Prelude.{
  ℕ, String, Option, none, some, [], ◌∷◌, str_eq, ◌<>◌, Result, ok, err, ◌>>=◌, map_err, and_then,
  if◌then◌else◌,
}
use hammurabi_handoff.Prelude.Keyed.{Keyed, lookup}
use hammurabi_handoff.Json.{Value, null}
use hammurabi_handoff.Crypto.{Bytes, Primitives}
use hammurabi_handoff.Backend.{Http}
use hammurabi_handoff.Intent.{AgentIntent}
use hammurabi_handoff.Guard.{HandoffState, Response}
use hammurabi_handoff.Server.{
  Extracted, refused, SettleRequest, HttpRequest, get_feed, post_announce, post_settle,
  post_execute, Env, handle,
}

abbrev pub intent_header : String
intent_header = "x-intent-id"

abbrev pub receipt_header : String
receipt_header = "x-402-receipt"

-- The two methods in use.
pub data Method : Type 0 where
  get post : Method

pub record Wire : Type 0 where
  -- The error of a text that is no header value, and `to_str` of one that is.
  pub header_error : String → Option String
  pub to_str : String → Option String
  -- `json.to_string()`.
  pub print : Value → Bytes
  -- axum's `Json` extractors under the body limit, and `Option<Json<_>>`; the answer without a body.
  pub read_intent : Bytes → Extracted AgentIntent
  pub read_settle : Bytes → Extracted SettleRequest
  pub read_announce : Bytes → Option AgentIntent
  pub no_body : Response
  -- The answer where no route is.
  pub no_route : Method → String → Response
  -- `to_bytes` of a response's body under its limit, and `serde_json::from_slice`.
  pub to_bytes : Response → Result String Bytes
  pub from_slice : Bytes → Result String Value

pub data Routed : Type 0 where
  routed : HttpRequest → Routed
  unrouted : Response → Routed

abbrev extracted {ℓ} : {A : Type ℓ} → Response → (Bytes → Extracted A) → Option Bytes → Extracted A
extracted missing read none = refused missing
extracted missing read (some bytes) = read bytes

module _ (w : Wire) where
  -- The first header value that is refused.
  unfoldable pub headers_error : Keyed String → Option String
  headers_error [] = none
  headers_error ((name, text) ∷ headers) = elim (w.header_error text) [
    | none ↦ headers_error headers
    | some e ↦ some e
  ]

  -- `headers().get(name).and_then(|v| v.to_str().ok())`.
  unfoldable pub header : String → Keyed String → Option String
  header name headers = and_then (lookup name headers) w.to_str

  -- The routes of `handoff_router`.
  unfoldable pub route : Method → String → Keyed String → Option Bytes → Routed
  route get uri headers body =
      if str_eq uri "/mesh/feed" then routed get_feed else unrouted (w.no_route get uri)
  route post uri headers body =
      if str_eq uri "/agent/announce"
      then routed (post_announce (and_then body w.read_announce))
      else if str_eq uri "/x402/settle"
      then routed (post_settle (extracted w.no_body w.read_settle body))
      else if str_eq uri "/execute"
      then routed (
          post_execute (header intent_header headers) (header receipt_header headers)
            (extracted w.no_body w.read_intent body))
      else unrouted (w.no_route post uri)

  abbrev pub read_value : Bytes → Result String Value
  read_value [] = ok null
  read_value (b ∷ bs) = map_err (λ e. "non-JSON response: " <> e) (w.from_slice (b ∷ bs))

  unfoldable pub read_reply : Response → Result String (ℕ × Value)
  read_reply response = do
    bytes ← map_err (λ e. "body read failed: " <> e) (w.to_bytes response)
    value ← read_value bytes
    ok (response.status, value)

  module _ (p : Primitives) (http : Http) where
    abbrev pub answer : Env → HandoffState → Routed → HandoffState × Response
    answer env state (routed q) = handle p http env state q
    answer env state (unrouted response) = (state, response)

    unfoldable pub oneshot_json :
        Env
        → HandoffState
        → Method
        → String
        → Keyed String
        → Option Value
        → HandoffState × Result String (ℕ × Value)
    unfolding headers_error route
    oneshot_json env state method uri headers body = elim (headers_error headers) [
      | some e ↦ (state, err ("request build failed: " <> e))
      | none ↦
          let (state', response) =
            answer env state (route method uri headers (Option.map w.print body)) in
          (state', read_reply response)
    ]
