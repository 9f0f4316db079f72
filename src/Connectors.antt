-- ===== src/Connectors.antt =====
-- src/reality_layer/connectors/base.py, shopify.py and easypost.py: a payload of a source system
-- becomes an observation. `datetime.fromisoformat` after the replacement of `Z`, `re.sub` over a text
-- and the clock are parameters.
pub mod Readback
pub mod Intake
use Prim.Native.String.{◌++◌ as append, count}
use agents_reality_layer.Prelude.{
  string_eq, String, Bool, true, false, Option, none, some, List, [], ◌∷◌, ◌++◌, ◌==◌, any, leb,
  if◌then◌else◌,
}
use agents_reality_layer.Prelude.Time.{DateTime}
use agents_reality_layer.Prelude.Text.{truthy}
use agents_reality_layer.Dict
use agents_reality_layer.Json.{Platform, Value, null, str, Object, py_str}
use agents_reality_layer.Errors.{Result, ok, err, value_error, ◌>>=◌}
use agents_reality_layer.Onboarding.{value_at, or_value}
use agents_reality_layer.Actions.Models.{ExecutionReceipt, provider_accepted}
use agents_reality_layer.WorldState.Models.{Observation}

pub record Library : Type 0 where
  -- `datetime.fromisoformat(value.replace("Z", "+00:00"))`
  pub fromisoformat : String → Result DateTime
  -- `re.sub(r"[^A-Za-z0-9_-]", "_", value)`
  pub observation_token : String → String
  pub now : DateTime

-- `required_string`
unfoldable pub required_string : Object → String → Result String
required_string payload key = elim (value_at payload key) [
  | str s ↦
      if truthy s
      then ok s
      else err (value_error (append "Connector payload requires non-empty string field: " key))
  | _ ↦ err (value_error (append "Connector payload requires non-empty string field: " key))
]

abbrev pub time_of : Library → Value → Result DateTime
time_of lib null = ok lib.now
time_of lib (str s) = lib.fromisoformat s
time_of lib _ = err (value_error "Connector timestamp must be an ISO-8601 string")

-- `observed_at`
unfoldable pub observed_at : Library → Object → Result DateTime
observed_at lib payload =
    time_of lib (or_value (value_at payload "updated_at") (value_at payload "created_at"))

-- `{name: change(payload[name])} if payload.get(name) is not None else {}`
abbrev pub entry_unless_null : Object → String → (Value → Value) → Object
entry_unless_null payload name change = elim (value_at payload name) [
  | null ↦ []
  | v ↦ (name, change v) ∷ []
]

-- `{name: payload[name]} if name in payload else {}`
abbrev pub entry_if_there : Object → String → Object
entry_if_there payload name = elim (Dict.get payload name) [ none ↦ [] | some v ↦ (name, v) ∷ [] ]

abbrev pub shopify_status : Value → Result String
shopify_status (str s) =
    if truthy s
    then ok s
    else err (value_error "Shopify order payload requires status or financial_status")
shopify_status _ = err (value_error "Shopify order payload requires status or financial_status")

-- the payload of a Shopify observation
abbrev pub shopify_payload : Platform → Object → String → String → Object
shopify_payload py payload order_id status =
    (("id", str order_id) ∷ ("status", str status) ∷ [])
    ++ entry_if_there payload "currency"
    ++ entry_unless_null payload "total_price" (λ v. str (py_str py v))
    ++ entry_unless_null payload "fulfillment_status" (λ v. v)

-- The refusals of `Observation` that a connector can meet: the kind and the connector's name are fixed,
-- `re.sub` leaves no other characters in the id, and the object's id is not empty.
unfoldable pub validate_observation : Observation → Result Observation
validate_observation o = if leb (count o.object_id) 255 then ok o else err (value_error "object_id")

-- `ShopifyConnector.normalize`
unfoldable pub normalize_shopify : Platform → Library → Object → Result Observation
unfolding required_string observed_at validate_observation
normalize_shopify py lib payload = do
  order_id ← required_string payload "id"
  status ←
      shopify_status (or_value (value_at payload "status") (value_at payload "financial_status"))
  at ← observed_at lib payload
  validate_observation (record {
    observation_id = append "obs_shopify_" (lib.observation_token order_id);
    connector = "shopify";
    object_type = "order";
    object_id = order_id;
    observed_at = at;
    payload = shopify_payload py payload order_id status;
  })

-- `EasyPostConnector.normalize`
unfoldable pub normalize_easypost : Library → Object → Result Observation
unfolding required_string observed_at validate_observation
normalize_easypost lib payload = do
  shipment_id ← required_string payload "id"
  tracking_code ← required_string payload "tracking_code"
  status ← required_string payload "status"
  at ← observed_at lib payload
  validate_observation (record {
    observation_id = append "obs_easypost_" (lib.observation_token shipment_id);
    connector = "easypost";
    object_type = "shipment";
    object_id = shipment_id;
    observed_at = at;
    payload =
        ("id", str shipment_id)
        ∷ ("tracking_code", str tracking_code)
        ∷ ("status", str status)
        ∷ [];
  })

-- the orders that a `ShopifyConnector` has cancelled
abbrev pub CancelledOrders : Type 0
CancelledOrders = List String

-- `ShopifyConnector.cancel_order`; `hex` is what `uuid4` gives, cut to twelve digits
unfoldable pub cancel_order :
    CancelledOrders → String → String → String → String → ExecutionReceipt × CancelledOrders
cancel_order cancelled action_id order_id idempotency_key hex = (
  record {
    action_id = action_id;
    status = provider_accepted;
    provider = "shopify";
    provider_request_id = append "shopify-test-" hex;
    idempotency_key = idempotency_key;
  },
  if any (λ i. i == order_id) cancelled then cancelled else order_id ∷ cancelled,
)

-- `ShopifyConnector.read_order`
unfoldable pub read_order : CancelledOrders → String → Object
read_order cancelled order_id =
    ("id", str order_id)
    ∷ ("status", str (if any (λ i. i == order_id) cancelled then "cancelled" else "open"))
    ∷ []
