-- ===== src/Oka/Client.antt =====
-- tooling/iedb-oka/src/client.rs: the live boundary, over the HTTP client as an argument.
use hammurabi_handoff.Prelude.{ℕ, String, ◌<>◌, Result, ok, ◌>>=◌, map_err}
use hammurabi_handoff.Json.{Value}
use hammurabi_handoff.Oka.{OkaResult, boundary}
use hammurabi_handoff.Oka.Interop.{OkxInvocation, OkxResult, for_invocation}

-- `http.post(url).json(inv).send()`: the status and what `resp.json()` reads, or the errors' texts.
abbrev pub Post : Type 0
Post = String → OkxInvocation → Result String (ℕ × Result String Value)

pub record OkxClient : Type 0 where
  pub base_url : String
  pub http : Post

unfoldable pub dispatch : OkxClient → String → OkxInvocation → OkaResult OkxResult
dispatch client path inv = do
  (status, read) ← map_err boundary (client.http (client.base_url <> path) inv)
  body ← map_err boundary read
  ok (for_invocation inv status body)
