-- ===== src/Oka/Interop.antt =====
-- tooling/iedb-oka/src/interop.rs: what the marketplace sends and gets. Parsing and printing belong to
-- serde_json.
use hammurabi_handoff.Prelude.{ℕ, String, Bool, ◌==◌}
use hammurabi_handoff.Json.{Value}

pub record OkxInvocation : Type 0 where
  pub capability : String
  pub request_id : String
  pub params : Value

pub record OkxResult : Type 0 where
  pub request_id : String
  pub status : ℕ
  pub body : Value

unfoldable pub intent_payload : OkxInvocation → Value
intent_payload inv = inv.params

unfoldable pub for_invocation : OkxInvocation → ℕ → Value → OkxResult
for_invocation inv status body = record {
  request_id = inv.request_id;
  status = status;
  body = body;
}

unfoldable pub needs_payment : OkxResult → Bool
needs_payment r = r.status == 402
