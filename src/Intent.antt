-- ===== src/Intent.antt =====
-- desktop/hammurabi-handoff/src/intent.rs: the structured payload of an agent. The ULID of the mock
-- intent is an argument.
use hammurabi_handoff.Prelude.{ℕ, String, [], ◌∷◌}
use hammurabi_handoff.Json.{Value, string, object, natural, fields}

abbrev pub intent_announcement : String
intent_announcement = "Opportunity found: ETH limit order at $3,100. Requesting execution."

abbrev pub mock_agent_handle : String
mock_agent_handle = "agent/scout-1"

pub data OrderSide : Type 0 where
  buy sell : OrderSide

pub record LimitOrder : Type 0 where
  pub pair : String
  pub side : OrderSide
  pub limit_price_usd_cents : ℕ
  pub quantity_wei : String
  pub venue : String

pub record AgentIntent : Type 0 where
  pub intent_id : String
  pub agent_handle : String
  pub action : String
  pub order : LimitOrder

unfoldable pub mock_eth_limit_order : String → AgentIntent
mock_eth_limit_order ulid = record {
  intent_id = ulid;
  agent_handle = mock_agent_handle;
  action = "execute_limit_order";
  order = record {
    pair = "ETH/USDC";
    side = buy;
    limit_price_usd_cents = 310000;
    quantity_wei = "1000000000000000000";
    venue = "local-simulated";
  };
}

-- The derived `Serialize`, with `rename_all = "snake_case"` on the side.
abbrev side_text : OrderSide → String
side_text buy = "buy"
side_text sell = "sell"

abbrev order_value : LimitOrder → Value
order_value o = object (
    fields (
      ("limit_price_usd_cents", natural o.limit_price_usd_cents)
      ∷ ("pair", string o.pair)
      ∷ ("quantity_wei", string o.quantity_wei)
      ∷ ("side", string (side_text o.side))
      ∷ ("venue", string o.venue)
      ∷ []))

-- `payload()`: `serde_json::to_value` of the intent, whose maps are sorted by key.
unfoldable pub payload : AgentIntent → Value
payload i = object (
    fields (
      ("action", string i.action)
      ∷ ("agent_handle", string i.agent_handle)
      ∷ ("intent_id", string i.intent_id)
      ∷ ("order", order_value i.order)
      ∷ []))
