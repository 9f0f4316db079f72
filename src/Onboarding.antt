-- ===== src/Onboarding.antt =====
-- src/reality_layer/connectors/onboarding.py: what must hold before the live demo runs. The HTTP
-- clients are parameters. A dictionary of the result is a record; `asdict` copies a check.

pub mod Ready
use Prim.Native.String.{◌++◌ as append}
use agents_reality_layer.Prelude.{
  string_eq, nat_eq, ℕ, String, Bool, true, false, ◌&&◌, ◌||◌, not, Option, none, some, List, [],
  ◌∷◌, ◌++◌, ◌==◌, map, if◌then◌else◌,
}
use agents_reality_layer.Prelude.Int.{ℤ, pos, negsuc}
use agents_reality_layer.Prelude.Text.{truthy, lower_in}
use agents_reality_layer.Dict
use agents_reality_layer.Json.{
  Platform, Value, null, bool, int, flt, str, arr, obj, nil, end, Object, py_str,
}
use agents_reality_layer.Errors.{Error, value_error, Result, ok, err, ◌>>=◌}

-- A call of a client: an answer, one of the exceptions that are caught (`RuntimeError`,
-- `ValueError`, `OSError`), with its text, or another one.
pub data Reply {ℓ} (A : Type ℓ) : Type ℓ where
  answered : A → Reply A
  failed : String → Reply A
  escaped : Error → Reply A

-- the part of the settings that is read
pub record Settings : Type 0 where
  pub shopify_domain : String
  pub shopify_access_token : String
  pub easypost_api_key : String

-- the clients that the factories make of the settings, by their calls
pub record Clients : Type 0 where
  pub shopify_health : Reply Bool
  pub read_order : String → Reply Object
  pub easypost_health : Reply Bool
  pub read_tracker : String → Reply Object

pub record ConnectorCheck : Type 0 where
  pub connector : String
  pub authenticated : Bool
  pub read_capability : Bool
  pub write_capability : Bool
  pub error : Option String

abbrev pub unavailable : String → String → ConnectorCheck
unavailable name text = record {
  connector = name;
  authenticated = false;
  read_capability = false;
  write_capability = false;
  error = some text;
}

-- the check that a health check leads to; `writes` if the connector can write
abbrev pub checked : String → Bool → String → Reply Bool → Result ConnectorCheck
checked name writes text (answered healthy) = ok (record {
  connector = name;
  authenticated = healthy;
  read_capability = healthy;
  write_capability = writes && healthy;
  error = if healthy then none else some text;
})
checked name writes text (failed problem) = ok (unavailable name problem)
checked name writes text (escaped e) = err e

-- `check_connector`
unfoldable pub check_connector : String → Settings → Clients → Result ConnectorCheck
check_connector name settings clients =
    if name == "shopify"
    then if truthy settings.shopify_domain && truthy settings.shopify_access_token
      then checked name true "Shopify health check failed." clients.shopify_health
      else ok (unavailable name "Shopify credentials are not configured.")
    else if name == "easypost"
    then if truthy settings.easypost_api_key
      then checked name false "EasyPost health check failed." clients.easypost_health
      else ok (unavailable name "EasyPost API key is not configured.")
    else err (value_error (append "Unsupported connector: " name))

-- `check_connectors`
unfoldable pub check_connectors : List String → Settings → Clients → Result (List ConnectorCheck)
unfolding check_connector
check_connectors [] settings clients = ok []
check_connectors (name ∷ names) settings clients = do
  check ← check_connector name settings clients
  rest ← check_connectors names settings clients
  ok (check ∷ rest)

-- The result of a check of an order or a shipment: its further entries are `details`.
pub record TargetCheck : Type 0 where
  pub eligible : Bool
  pub target : String
  pub details : Object
  pub failures : List String

pub record Preflight : Type 0 where
  pub ready : Bool
  pub failures : List String
  pub connectors : List ConnectorCheck
  pub demo_order : Option TargetCheck
  pub demo_shipment : Option TargetCheck

-- `not failures`
abbrev pub is_nil {ℓ} : {A : Type ℓ} → List A → Bool
is_nil [] = true
is_nil (x ∷ xs) = false

-- a capability that is required and is missing
abbrev pub missing : Bool → String → List String
missing has name = if has then [] else name ∷ []

-- the list that `_preflight_connectors` makes of the requirements
abbrev pub missing_capabilities : ConnectorCheck → ConnectorCheck → List String
missing_capabilities shopify easypost =
    missing shopify.authenticated "shopify.authenticated"
    ++ missing shopify.read_capability "shopify.read_capability"
    ++ missing shopify.write_capability "shopify.write_capability"
    ++ missing easypost.authenticated "easypost.authenticated"
    ++ missing easypost.read_capability "easypost.read_capability"

-- `_preflight_connectors`
unfoldable pub preflight_connectors : Settings → Clients → Result Preflight
unfolding check_connector
preflight_connectors settings clients = do
  shopify ← check_connector "shopify" settings clients
  easypost ← check_connector "easypost" settings clients
  let failures = missing_capabilities shopify easypost
  ok (record {
    ready = is_nil failures;
    failures = failures;
    connectors = shopify ∷ easypost ∷ [];
    demo_order = none;
    demo_shipment = none;
  })

abbrev pub is_zero : ℤ → Bool
is_zero (pos n) = n == 0
is_zero (negsuc n) = false

-- the truth of a JSON value in Python
abbrev pub holds : Value → Bool
holds null = false
holds (bool b) = b
holds (int n) = not (is_zero n)
holds (flt m e) = not (is_zero m)
holds (str s) = truthy s
holds (arr nil) = false
holds (arr _) = true
holds (obj end) = false
holds (obj _) = true

-- `payload.get(key)`
abbrev pub value_at : Object → String → Value
value_at payload key = elim (Dict.get payload key) [ none ↦ null | some v ↦ v ]

-- `a or b`
abbrev pub or_value : Value → Value → Value
or_value a b = if holds a then a else b

-- `not isinstance(status, str) or status.lower() in {...}`
abbrev pub is_shut : Value → Bool
is_shut (str s) = lower_in s ("cancelled" ∷ "canceled" ∷ "closed" ∷ "voided" ∷ [])
is_shut _ = true

abbrev pub is_fulfilled : Value → Bool
is_fulfilled (str s) = lower_in s ("fulfilled" ∷ [])
is_fulfilled _ = false

-- a text that is not empty
abbrev pub is_text : Value → Bool
is_text (str s) = truthy s
is_text _ = false

-- `validate_demo_order`
unfoldable pub validate_demo_order : Platform → Object → String → TargetCheck
validate_demo_order py payload order_id =
    let status = or_value (value_at payload "financial_status") (value_at payload "status") in
    let fulfillment_status = value_at payload "fulfillment_status" in
    let failures =
      missing (py_str py (value_at payload "id") == order_id) "order.id_mismatch"
      ++ missing (not (is_shut status)) "order.not_open"
      ++ missing (not (is_fulfilled fulfillment_status)) "order.fulfilled" in
    record {
      eligible = is_nil failures;
      target = order_id;
      details = ("status", status) ∷ ("fulfillment_status", fulfillment_status) ∷ [];
      failures = failures;
    }

-- `validate_demo_shipment`
unfoldable pub validate_demo_shipment : Platform → Object → String → TargetCheck
validate_demo_shipment py payload shipment_id =
    let tracking_code = value_at payload "tracking_code" in
    let status = value_at payload "status" in
    let failures =
      missing (py_str py (value_at payload "id") == shipment_id) "shipment.id_mismatch"
      ++ missing (is_text tracking_code) "shipment.missing_tracking_code"
      ++ missing (is_text status) "shipment.missing_status" in
    record {
      eligible = is_nil failures;
      target = shipment_id;
      details = ("tracking_code", tracking_code) ∷ ("status", status) ∷ [];
      failures = failures;
    }

-- the check of a target that could not be read
abbrev pub failed_check : String → String → Object → TargetCheck
failed_check target failure details = record {
  eligible = false;
  target = target;
  details = details;
  failures = failure ∷ [];
}

-- the check of what a client read
abbrev pub judged :
    (Object → String → TargetCheck) → String → String → Reply Object → Result TargetCheck
judged validate failure target (answered payload) = ok (validate payload target)
judged validate failure target (failed problem) =
    ok (failed_check target failure (("error", str problem) ∷ []))
judged validate failure target (escaped e) = err e

-- `result[...] = check`, and what an failed_check target changes of the verdict
abbrev pub verdict : Preflight → TargetCheck → Preflight
verdict result check =
    if check.eligible
    then result
    else record result { ready = false; failures = result.failures ++ check.failures }

-- the connector with the name, as `next(...)` finds it
abbrev pub can_read : String → List ConnectorCheck → Bool
can_read name [] = false
can_read name (c ∷ cs) =
    let later = can_read name cs in
    if c.connector == name then c.authenticated && c.read_capability else later

-- the part of `preflight_demo` on the order
unfoldable pub check_order : Platform → Clients → Preflight → Option String → Result Preflight
unfolding validate_demo_order
check_order py clients result none = ok result
check_order py clients result (some order_id) = do
  check ←
      if can_read "shopify" result.connectors
      then judged (validate_demo_order py) "order.read_failed" order_id
          (clients.read_order order_id)
      else ok (failed_check order_id "order.connector_unavailable" [])
  ok (record (verdict result check) { demo_order = some check })

-- the part of `preflight_demo` on the shipment
unfoldable pub check_shipment : Platform → Clients → Preflight → Option String → Result Preflight
unfolding validate_demo_shipment
check_shipment py clients result none = ok result
check_shipment py clients result (some shipment_id) = do
  check ←
      if can_read "easypost" result.connectors
      then judged (validate_demo_shipment py) "shipment.read_failed" shipment_id
          (clients.read_tracker shipment_id)
      else ok (failed_check shipment_id "shipment.connector_unavailable" [])
  ok (record (verdict result check) { demo_shipment = some check })

-- `preflight_demo`
unfoldable pub preflight_demo :
    Platform → Settings → Clients → Option String → Option String → Result Preflight
unfolding preflight_connectors check_order check_shipment
preflight_demo py settings clients order_id shipment_id = do
  connectors ← preflight_connectors settings clients
  with_order ← check_order py clients connectors order_id
  check_shipment py clients with_order shipment_id
