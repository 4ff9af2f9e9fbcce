-- ===== src/Tests/Fees.antt =====
-- desktop/hammurabi-handoff/src/settlement_backend.rs at concrete inputs.
use hammurabi_handoff.Prelude.{◌≡◌, ◌↔◌, none, some, ok}
use hammurabi_handoff.Prelude.Int.{pos}
use hammurabi_handoff.Json.{null}
use hammurabi_handoff.Backend.{FacilitatorConfig, facilitator, settle, receipt_for}
use hammurabi_handoff.Backend.Accepted.{Cleared, settle-Cleared_iff}
use hammurabi_handoff.Tests.Toy.{toy_http}

abbrev config_1 : FacilitatorConfig
config_1 = record {
  base_url = "https://pay/";
  network = "n";
  asset = "USDC";
  pay_to = "v";
  scheme = "exact";
  resource = "r";
  api_key = none;
}

settle-Cleared_iff_example :
    (settle toy_http (facilitator config_1) "i-1" (some null) (pos 5) "r-1"
      ≡ ok (receipt_for "r-1" "i-1" (pos 5)))
    ↔ Cleared toy_http config_1 "i-1" (pos 5) "r-1" (some null) (receipt_for "r-1" "i-1" (pos 5))
settle-Cleared_iff_example =
    settle-Cleared_iff toy_http config_1 "i-1" (pos 5) "r-1" (some null)
      (receipt_for "r-1" "i-1" (pos 5))
