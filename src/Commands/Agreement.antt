-- ===== src/Commands/Agreement.antt =====
-- desktop/hammurabi-handoff/src/commands.rs and okx_bridge.rs: the two functions that send a request
-- through the router in-process.
use mathlib.Core.Option
use hammurabi_handoff.Prelude.{
  ℕ, ◌≡◌, refl, String, Option, Option-cases, Result, Result-cases, ok, err, inl, inr,
}
use hammurabi_handoff.Prelude.Keyed.{Keyed}
use hammurabi_handoff.Json.{Value}
use hammurabi_handoff.Crypto.{Primitives}
use hammurabi_handoff.Backend.{Http}
use hammurabi_handoff.Guard.{HandoffState}
use hammurabi_handoff.Server.{Env}
use hammurabi_handoff.Bridge.Transport.{
  Wire, Method, headers_error, route, read_value, read_reply, answer, oneshot_json,
}
use hammurabi_handoff.Commands.{Dispatch, dispatch}

-- A reply as a command gives it.
abbrev pub as_dispatch : Result String (ℕ × Value) → Result String Dispatch
as_dispatch (err e) = err e
as_dispatch (ok (status, body)) = ok (record { status = status; body = body })

module _ (w : Wire) (p : Primitives) (http : Http) (env : Env) (state : HandoffState)
    (method : Method) (uri : String) (headers : Keyed String) (body : Option Value) where
  -- A command's request is the bridge's request with the same parts.
  pub dispatch-oneshot_json : dispatch w p http env state method uri headers body ≡ (
    (oneshot_json w p http env state method uri headers body).0,
    as_dispatch (oneshot_json w p http env state method uri headers body).1,
  )
  unfolding dispatch oneshot_json read_reply
  dispatch-oneshot_json = elim (Option-cases (headers_error w headers)) [
    | inr (e, bad) ↦ rw (bad, dispatch, oneshot_json) refl
    | inl good ↦
        let response =
          (answer w p http env state (route w method uri headers (Option.map w.print body))).1 in
        elim (Result-cases (w.to_bytes response)) [
          | inr (e, lost) ↦ rw (good, dispatch, oneshot_json, lost) refl
          | inl (bytes, got) ↦ elim (Result-cases (read_value w bytes)) [
            | inr (e, unread) ↦ rw (good, dispatch, oneshot_json, got, unread) refl
            | inl (value, done) ↦ rw (good, dispatch, oneshot_json, got, done) refl
          ]
        ]
  ]
