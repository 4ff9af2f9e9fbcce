-- ===== src/Commands.antt =====
-- desktop/hammurabi-handoff/src/commands.rs: what the desktop's frontend can call. `IpcState` is the shared
-- state, with the router over it.
pub mod Agreement
pub mod Marketplace
use mathlib.Core.Option
use hammurabi_handoff.Prelude.{
  ℕ, String, Option, none, some, List, [], ◌∷◌, ◌<>◌, Result, ok, err, map_err, ◌>>=◌,
}
use hammurabi_handoff.Prelude.Keyed.{Keyed}
use hammurabi_handoff.Json.{Value, string, object, fields}
use hammurabi_handoff.Crypto.{Primitives}
use hammurabi_handoff.Mesh.{MeshMessage, feed}
use hammurabi_handoff.Backend.{Http}
use hammurabi_handoff.Guard.{HandoffState}
use hammurabi_handoff.Server.{Env}
use hammurabi_handoff.Bridge.{execute_headers, text_at}
use hammurabi_handoff.Bridge.Transport.{
  Wire, Method, post, headers_error, route, read_value, answer,
}

pub record Dispatch : Type 0 where
  pub status : ℕ
  pub body : Value

unfoldable pub mesh_feed : HandoffState → Result String (List MeshMessage)
mesh_feed state = ok (feed state.mesh)

module _ (w : Wire) (p : Primitives) (http : Http) (env : Env) (state : HandoffState) where
  unfoldable pub dispatch :
      Method → String → Keyed String → Option Value → HandoffState × Result String Dispatch
  dispatch method uri headers body = elim (headers_error w headers) [
    | some e ↦ (state, err ("request build failed: " <> e))
    | none ↦
        let (state', response) =
          answer w p http env state (route w method uri headers (Option.map w.print body)) in
        (
          state',
          (do
            bytes ← map_err (λ e. "body read failed: " <> e) (w.to_bytes response)
            body ← read_value w bytes
            ok (record { status = response.status; body = body })),
        )
  ]

  unfoldable pub agent_announce : HandoffState × Result String Dispatch
  unfolding dispatch
  agent_announce = dispatch post "/agent/announce" [] none

  unfoldable pub x402_settle : String → HandoffState × Result String Dispatch
  unfolding dispatch
  x402_settle intent_id =
      dispatch post "/x402/settle" []
        (some (object (fields (("intent_id", string intent_id) ∷ []))))

  unfoldable pub request_execution : Value → Option String → HandoffState × Result String Dispatch
  unfolding dispatch
  request_execution intent receipt_id =
      dispatch post "/execute" (execute_headers (text_at "intent_id" intent) receipt_id)
        (some intent)
