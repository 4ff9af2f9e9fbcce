-- ===== src/Backend.antt =====
-- desktop/hammurabi-handoff/src/settlement_backend.rs: how a fee is settled, by the mock or by a live
-- facilitator (feature `x402-live`). HTTP, the environment and the decoding of JSON replies belong to
-- other crates and are arguments; a ULID is an argument.
pub mod Url
pub mod Accepted
use Prim.Native.Char.{code}
use hammurabi_handoff.Prelude.{
  ℕ, String, Bool, true, false, Option, none, some, List, [], ◌∷◌, ◌&&◌, ◌==◌, leb, ltb, str_eq,
  show_ℕ, ◌<>◌, Result, ok, err, ◌>>=◌, map_err, ok_or, if◌then◌else◌,
}
use hammurabi_handoff.Prelude.Int.{ℤ}
use hammurabi_handoff.Json.{Value, string, object, natural, fields}
use hammurabi_handoff.Receipts.{PaymentReceipt, execution_fee_micro_usdc}

pub data SettlementError : Type 0 where
  missing_payment : SettlementError
  rejected : String → SettlementError
  transport : String → SettlementError

unfoldable pub show_settlement_error : SettlementError → String
show_settlement_error missing_payment = "live settlement requires a client x402 payment payload"
show_settlement_error (rejected why) = "facilitator rejected payment: " <> why
show_settlement_error (transport why) = "facilitator transport error: " <> why

pub record FacilitatorConfig : Type 0 where
  pub base_url : String
  pub network : String
  pub asset : String
  pub pay_to : String
  pub scheme : String
  pub resource : String
  pub api_key : Option String

pub data SettlementBackend : Type 0 where
  mock : SettlementBackend
  facilitator : FacilitatorConfig → SettlementBackend

unfoldable pub label : SettlementBackend → String
label mock = "mock (offline, deterministic)"
label (facilitator _) = "live x402 facilitator"

-- `std::env::var(k)` of a required variable.
abbrev required : (String → Option String) → String → Result SettlementError String
required env k = ok_or (transport ("missing env " <> k)) (env k)

abbrev or_default : Option String → String → String
or_default none d = d
or_default (some s) d = s

-- `FacilitatorConfig::from_env`, over the environment.
unfoldable pub from_env : (String → Option String) → Result SettlementError FacilitatorConfig
from_env env = do
  base_url ← required env "HANDOFF_X402_FACILITATOR_URL"
  network ← required env "HANDOFF_X402_NETWORK"
  asset ← required env "HANDOFF_X402_ASSET"
  pay_to ← required env "HANDOFF_X402_PAY_TO"
  ok (record {
    base_url = base_url;
    network = network;
    asset = asset;
    pay_to = pay_to;
    scheme = or_default (env "HANDOFF_X402_SCHEME") "exact";
    resource = or_default (env "HANDOFF_X402_RESOURCE") "http://127.0.0.1:3402/execute";
    api_key = env "HANDOFF_X402_API_KEY";
  })

-- `from_env_or_default`, with the feature compiled in and without it.
unfoldable pub from_env_or_default : Bool → (String → Option String) → SettlementBackend
from_env_or_default true env = elim (from_env env) [ ok config ↦ facilitator config | err _ ↦ mock ]
from_env_or_default false env = mock

pub record VerifyResponse : Type 0 where
  pub is_valid : Bool
  pub invalid_reason : Option String

pub record SettleResponse : Type 0 where
  pub success : Bool
  pub transaction : Option String
  pub error_reason : Option String

-- The HTTP stack: the reply's status and body to a POST of a JSON body with an optional bearer token,
-- and the decoding of a body, and the text of a status (`StatusCode`'s `Display`). Errors are the texts
-- of the crates' errors.
pub record Http : Type 0 where
  pub send : String → Value → Option String → Result String (ℕ × Value)
  pub status_text : ℕ → String
  pub decode_verify : Value → Result String VerifyResponse
  pub decode_settle : Value → Result String SettleResponse

pub record PaymentRequirements : Type 0 where
  pub scheme : String
  pub network : String
  pub max_amount_required : String
  pub resource : String
  pub description : String
  pub mime_type : String
  pub pay_to : String
  pub max_timeout_seconds : ℕ
  pub asset : String
  pub extra : Option Value

-- The derived `Serialize`, in camelCase; `extra` is skipped if it is `None`.
abbrev extra_member : Option Value → List (String × Value)
extra_member none = []
extra_member (some v) = ("extra", v) ∷ []

unfoldable pub requirements_value : PaymentRequirements → Value
requirements_value r = object (
    fields (
      ("scheme", string r.scheme)
      ∷ ("network", string r.network)
      ∷ ("maxAmountRequired", string r.max_amount_required)
      ∷ ("resource", string r.resource)
      ∷ ("description", string r.description)
      ∷ ("mimeType", string r.mime_type)
      ∷ ("payTo", string r.pay_to)
      ∷ ("maxTimeoutSeconds", natural r.max_timeout_seconds)
      ∷ ("asset", string r.asset)
      ∷ extra_member r.extra))

unfoldable pub requirements : FacilitatorConfig → PaymentRequirements
requirements config = record {
  scheme = config.scheme;
  network = config.network;
  max_amount_required = show_ℕ execution_fee_micro_usdc;
  resource = config.resource;
  description = "Hammurabi Handoff — credential mint fee";
  mime_type = "application/json";
  pay_to = config.pay_to;
  max_timeout_seconds = 60;
  asset = config.asset;
  extra = none;
}

-- `trim_end_matches('/')`.
unfoldable pub trim_slashes : String → String
trim_slashes String.[] = ""
trim_slashes (String.◌∷◌ c s) =
    let rest = trim_slashes s in
    if str_eq rest "" && (code c == b'/') then "" else String.◌∷◌ c rest

abbrev is_success : ℕ → Bool
is_success status = leb 200 status && ltb status 300

-- The receipt that both backends make out.
abbrev pub receipt_for : String → String → ℤ → PaymentReceipt
receipt_for ulid intent_id now = record {
  receipt_id = ulid;
  intent_id = intent_id;
  amount_micro_usdc = execution_fee_micro_usdc;
  cleared_at = now;
}

module _ (http : Http) where
  -- `post`, with the decoder of its reply's type.
  unfoldable pub post {ℓ} :
      {R : Type ℓ}
      → (Value → Result String R)
      → FacilitatorConfig
      → String
      → Value
      → PaymentRequirements
      → Result SettlementError R
  unfolding trim_slashes requirements_value
  post decode config path payment requirements =
      let url = trim_slashes config.base_url <> path in
      let body = object (
        fields (
          ("x402Version", natural 1)
          ∷ ("paymentPayload", payment)
          ∷ ("paymentRequirements", requirements_value requirements)
          ∷ [])) in
      do
        (status, reply) ← map_err transport (http.send url body config.api_key)
        (if is_success status
            then map_err transport (decode reply)
            else err
                (transport ("facilitator " <> (path <> (" → HTTP " <> http.status_text status)))))

  unfoldable pub settle_intent :
      FacilitatorConfig → String → Value → ℤ → String → Result SettlementError PaymentReceipt
  unfolding requirements
  settle_intent config intent_id payment now ulid = do
    verify ← post http.decode_verify config "/verify" payment (requirements config)
    (if verify.is_valid
        then (do
          settle ← post http.decode_settle config "/settle" payment (requirements config)
          (if settle.success
              then ok (receipt_for ulid intent_id now)
              else err
                  (rejected (or_default settle.error_reason "facilitator declined settlement"))))
        else err (rejected (or_default verify.invalid_reason "payment failed verification")))

  -- `SettlementBackend::settle`.
  unfoldable pub settle :
      SettlementBackend → String → Option Value → ℤ → String → Result SettlementError PaymentReceipt
  settle mock intent_id payment now ulid = ok (receipt_for ulid intent_id now)
  settle (facilitator config) intent_id payment now ulid = do
    payment ← ok_or missing_payment payment
    settle_intent config intent_id payment now ulid
