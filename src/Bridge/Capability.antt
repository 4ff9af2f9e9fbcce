-- ===== src/Bridge/Capability.antt =====
-- desktop/hammurabi-handoff/src/okx_bridge.rs: an invocation and the request that it becomes.
use mathlib.Core.Option
use hammurabi_handoff.Prelude.{
  ◌≡◌, ◌≢◌, ◌⊎◌, refl, ap, arith, String, Bool-cases, Option, none, some, [], str_eq, eq_iff,
  Result, ok, err, Option-cases, inl, inr, ◌<>◌, Bool, false, ◌||◌,
}
use hammurabi_handoff.Prelude.Keyed.{Keyed}
use hammurabi_handoff.Crypto.{Primitives}
use hammurabi_handoff.Backend.{Http}
use hammurabi_handoff.Intent.{AgentIntent}
use hammurabi_handoff.Guard.{HandoffState, Response}
use hammurabi_handoff.Server.{
  Extracted, SettleRequest, HttpRequest, get_feed, post_announce, post_settle, post_execute, Env,
  handle,
}
use hammurabi_handoff.Oka.Interop.{OkxInvocation, OkxResult, for_invocation}
use hammurabi_handoff.Bridge.{
  feed_plan, announce_plan, settle_plan, mint_plan, text_at, execute_headers, split_minting_params,
  Plan, plan, dispatch_okx,
}
use hammurabi_handoff.Bridge.Transport.{
  Wire, routed, route, headers_error, read_reply, oneshot_json,
}

-- The requests that a capability may become.
pub data Serves (capability : String) : HttpRequest → Type 0 where
  feeds : capability ≡ "audit_feed" → Serves capability get_feed
  announces :
      (body : Option AgentIntent)
      → capability ≡ "intent_announce"
      → Serves capability (post_announce body)
  settles :
      (body : Extracted SettleRequest)
      → capability ≡ "payment_settlement"
      → Serves capability (post_settle body)
  mints :
      (intent_id receipt_id : Option String) (body : Extracted AgentIntent)
      → capability ≡ "credential_minting"
      → Serves capability (post_execute intent_id receipt_id body)

abbrev pub is_capability : String → Bool
is_capability c =
    str_eq c "audit_feed"
    || (str_eq c "intent_announce"
        || (str_eq c "payment_settlement" || str_eq c "credential_minting"))

-- How an invocation's answer is shown: what the router said, under the id of the invocation.
abbrev pub echoed : Wire → OkxInvocation → Response → Result String OkxResult
echoed w inv response = elim (read_reply w response) [
  | err e ↦ err e
  | ok (status, body) ↦ ok (for_invocation inv status body)
]

-- The headers of a minting request.
abbrev pub minting_headers : OkxInvocation → Keyed String
minting_headers inv =
    execute_headers (text_at "intent_id" (split_minting_params inv.params).0)
      (split_minting_params inv.params).1

module _ (w : Wire) (inv : OkxInvocation) where
  -- A plan is good if its path is a route that serves the capability, under no headers but those of a
  -- minting request.
  abbrev IsGood : Plan → Type 0
  IsGood q =
      (r : HttpRequest) × Serves inv.capability r
      × (route w q.method q.uri q.headers (Option.map w.print q.body) ≡ routed r)
      × ((q.headers ≡ [])
          ⊎ ((inv.capability ≡ "credential_minting") × (q.headers ≡ minting_headers inv)))

  plan-cases :
      ((q : Plan) × (plan inv ≡ ok q) × IsGood q)
      ⊎ ((is_capability inv.capability ≡ false) × ((e : String) × (plan inv ≡ err e)))
  unfolding route plan
  plan-cases = elim (Bool-cases (str_eq inv.capability "audit_feed")) [
    | inl h ↦ inl (
      feed_plan,
      rw (h, plan) refl,
      (_, feeds ((eq_iff inv.capability "audit_feed").0 h), refl, inl refl),
    )
    | inr a ↦ elim (Bool-cases (str_eq inv.capability "intent_announce")) [
      | inl h ↦ inl (
        announce_plan inv.params,
        rw (a, h, plan) refl,
        (_, announces _ ((eq_iff inv.capability "intent_announce").0 h), refl, inl refl),
      )
      | inr b ↦ elim (Bool-cases (str_eq inv.capability "payment_settlement")) [
        | inl h ↦ inl (
          settle_plan inv.params,
          rw (a, b, h, plan) refl,
          (_, settles _ ((eq_iff inv.capability "payment_settlement").0 h), refl, inl refl),
        )
        | inr c ↦ elim (Bool-cases (str_eq inv.capability "credential_minting")) [
          | inl h ↦
              let minting = (eq_iff inv.capability "credential_minting").0 h in
              inl (
                mint_plan inv.params,
                rw (a, b, c, h, plan) refl,
                (_, mints _ _ _ minting, refl, inr (minting, refl)),
              )
          | inr d ↦ inr (
            ground (arith, a, b, c, d),
            ("unknown OKX capability: " <> inv.capability, rw (a, b, c, d, plan) refl),
          )
        ]
      ]
    ]
  ]

  module _ (p : Primitives) (http : Http) (env : Env) (state : HandoffState) where
    pub sent :
        (q : Plan) (r : HttpRequest)
        → plan inv ≡ ok q
        → route w q.method q.uri q.headers (Option.map w.print q.body) ≡ routed r
        → headers_error w q.headers ≡ none
        → dispatch_okx w p http env state inv
          ≡ ((handle p http env state r).0, echoed w inv (handle p http env state r).1)
    unfolding dispatch_okx oneshot_json
    sent q r planned to good = ground (arith, planned, to, good)

    pub unsent :
        (q : Plan) (e : String)
        → plan inv ≡ ok q
        → headers_error w q.headers ≡ some e
        → dispatch_okx w p http env state inv ≡ (state, err ("request build failed: " <> e))
    unfolding dispatch_okx oneshot_json
    unsent q e planned bad = ground (arith, planned, bad)

    none-headers : (q : Plan) (e : String) → q.headers ≡ [] → headers_error w q.headers ≢ some e
    unfolding headers_error
    none-headers q e empty bad = cc (bad, ap (headers_error w) empty)

    unplanned :
        (e : String) → plan inv ≡ err e → dispatch_okx w p http env state inv ≡ (state, err e)
    unfolding dispatch_okx
    unplanned e h = rw (h, dispatch_okx) refl

    -- Refused: no such capability, or a header of a minting request that is no header value.
    abbrev pub IsRefused : Type 0
    IsRefused =
        (is_capability inv.capability ≡ false)
        ⊎ ((inv.capability ≡ "credential_minting") × (headers_error w (minting_headers inv) ≢ none))

    -- Either one request that serves the capability, or a refusal.
    abbrev pub IsServed : Type 0
    IsServed =
        ((r : HttpRequest) × Serves inv.capability r
          × (dispatch_okx w p http env state inv
              ≡ ((handle p http env state r).0, echoed w inv (handle p http env state r).1)))
        ⊎ (IsRefused × (e : String) × (dispatch_okx w p http env state inv ≡ (state, err e)))

    -- An invocation either is one request of the kind that its capability names, to the same router as
    -- every other request: the new state is the router's, and the answer is the router's, under the id of
    -- the invocation, or the error of reading it. Or it is refused, its capability unknown or its header
    -- no header value: then the answer is an error and the state is as it was.
    pub dispatch_okx-IsServed : IsServed
    dispatch_okx-IsServed = elim plan-cases [
      | inl (q, planned, (r, serves, to, from)) ↦ elim (Option-cases (headers_error w q.headers)) [
        | inl good ↦ inl (r, serves, sent q r planned to good)
        | inr (x, bad) ↦ elim from [
          | inl empty ↦ absurd (none-headers q x empty bad)
          | inr (minting, headers) ↦ inr (
            inr (minting, λ n. cc (n, bad, ap (headers_error w) headers)),
            _,
            unsent q x planned bad,
          )
        ]
      ]
      | inr (unknown, (e, h)) ↦ inr (inl unknown, e, unplanned e h)
    ]
