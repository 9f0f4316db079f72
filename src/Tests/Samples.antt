-- ===== src/Tests/Samples.antt =====
-- A platform, an order, a proposal and a provider that counts its calls.
use agents_reality_layer.Prelude.{ℕ, suc, String, true, false, none, some, List, ◌∷◌}
use agents_reality_layer.Prelude.Int.{pos}
use agents_reality_layer.Prelude.Time.{DateTime}
use agents_reality_layer.Json.{Platform, str}
use agents_reality_layer.Errors.{ok}
use agents_reality_layer.WorldState.Models.{OrderState, StateAttribute}
use agents_reality_layer.Actions.Models.{
  cancel_order, provider_accepted, ActionProposal, ApprovalRequest,
}
use agents_reality_layer.Actions.Policy.{Context}
use agents_reality_layer.Actions.Service.Lifecycle.{Fresh}
use agents_reality_layer.Actions.Calls
use agents_reality_layer.Actions.Calls.{Call, System, Provider}

abbrev pub py : Platform
py = record {
  dumps = λ v. "{}";
  sha256_hex = λ s. s;
  repr = λ v. "?";
  format_g = λ f. "1";
  isoformat = λ t. "0001-01-01T00:00:00Z";
  lower = λ s. s;
  capitalize = λ s. s;
}

abbrev pub noon : DateTime
noon = record { micros = 600000000; aware = true }

abbrev pub attribute : String → StateAttribute
attribute s = record {
  value = str s;
  confidence = record { mantissa = pos 1; scale = 0 };
  observed_at = noon;
  freshness = "fresh";
  source_observation_ids = List.[];
  connector = some "shopify";
}

abbrev pub order : String → OrderState
order status = record {
  tenant_id = "demo";
  entity_id = "order:7";
  entity_type = "Order";
  state_version = 1;
  attributes = ("status", attribute status) ∷ List.[];
  commit_id = "cmt_1";
}

abbrev pub proposal : ActionProposal
proposal = record {
  action_type = cancel_order;
  target_entity = "order:7";
  parameters = List.[];
  reason = "customer asked";
  evidence_refs = List.[];
  idempotency_key = "key-0001";
  expected_state_version = 1;
  expected_attributes = ("status", str "open") ∷ List.[];
}

abbrev pub context : Context
context = record {
  workspace_mode = "demo_proposal";
  order_value = none;
  value_limit = none;
  has_conflict = false;
}

abbrev pub fresh : Fresh
fresh = record { action_hex = "a"; event_hex = "e0" }

abbrev pub approval : ApprovalRequest
approval = record { reason = "fine" }

abbrev pub provider : Provider ℕ
provider action_id order_id key calls = (
  ok (record {
    action_id = action_id;
    status = provider_accepted;
    provider = "shopify";
    provider_request_id = "r";
    idempotency_key = key;
  }),
  suc calls,
)

-- a whole lifecycle
abbrev pub calls : List Call
calls =
    Calls.propose proposal "operations" "demo" context fresh
    ∷ Calls.approve "act_a" approval "operations" "demo" (some (order "open")) "e1"
    ∷ Calls.execute "act_a" "demo" (some (order "open")) "e2"
    ∷ Calls.verify "act_a" "demo" (some (order "cancelled")) true "e3"
    ∷ List.[]
