-- ===== src/App.antt =====
-- desktop/hammurabi-handoff/src/app.rs: the composition root, without the window: the state that it starts
-- from, and what its forwarder sends to the frontend.
pub mod Doors
pub mod Answers
pub mod Covered
pub mod Unread
use hammurabi_handoff.Prelude.{ℕ, String, Bool, Option, List, [], ◌∷◌, show_ℕ, ◌<>◌}
use hammurabi_handoff.Mesh.{MeshMessage, info}
use hammurabi_handoff.Backend.{SettlementBackend, from_env_or_default, label}
use hammurabi_handoff.Guard.{HandoffState, with_backend, narrate}

abbrev pub loopback_port : ℕ
loopback_port = 3402

-- The line that `run` posts.
abbrev pub online_notice : SettlementBackend → String
online_notice backend =
    "Hammurabi Handoff online — RAMesh live, x402 gate armed ("
    <> (label backend <> ("), loopback :" <> (show_ℕ loopback_port <> ".")))

-- `run`, up to the event loop: the backend from the feature and the environment, the state over it, and
-- the line in its feed.
unfoldable pub start : Bool → (String → Option String) → (ℕ → String) → HandoffState
start x402_live env stamp =
    let backend = from_env_or_default x402_live env in
    narrate stamp (with_backend backend) "system/handoff" info (online_notice backend)

-- What the broadcast channel gives to the forwarder: a message, a gap, or its end.
pub data Received : Type 0 where
  message : MeshMessage → Received
  lagged : ℕ → Received
  closed : Received

-- The messages that the forwarder emits.
unfoldable pub forward : List Received → List MeshMessage
forward [] = []
forward (message m ∷ rest) = m ∷ forward rest
forward (lagged n ∷ rest) = forward rest
forward (closed ∷ rest) = []
