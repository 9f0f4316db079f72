-- ===== src/Tests/Preflight.antt =====
-- A preflight of an order and a shipment that are fit for the demo.
use agents_reality_layer.Prelude.{
  string_eq, nat_eq, true, false, none, some, [], ◌∷◌, ◌≡◌, refl, ◌↔◌,
}
use agents_reality_layer.Prelude.Text.{lower_in}
use agents_reality_layer.Dict
use agents_reality_layer.Json.{str, null, Object}
use agents_reality_layer.Errors.{ok}
use agents_reality_layer.Onboarding.{
  answered, Settings, Clients, Preflight, preflight_demo, preflight_connectors, check_connector,
  check_order, check_shipment, validate_demo_order, validate_demo_shipment,
}
use agents_reality_layer.Onboarding.Ready.{
  IsEligibleOrder, preflight_demo-ready_iff, preflight_demo_safe,
}
use agents_reality_layer.Tests.Samples.{py}

abbrev settings : Settings
settings = record {
  shopify_domain = "shop";
  shopify_access_token = "key";
  easypost_api_key = "key";
}

abbrev open_order : Object
open_order = ("id", str "1001") ∷ ("financial_status", str "paid") ∷ []

abbrev parcel : Object
parcel = ("id", str "trk_1") ∷ ("tracking_code", str "EZ1") ∷ ("status", str "in_transit") ∷ []

abbrev clients : Clients
clients = record {
  shopify_health = answered true;
  read_order = λ i. answered open_order;
  easypost_health = answered true;
  read_tracker = λ i. answered parcel;
}

abbrev report : Preflight
report = record {
  ready = true;
  failures = [];
  connectors =
      record {
        connector = "shopify";
        authenticated = true;
        read_capability = true;
        write_capability = true;
        error = none;
      }
      ∷ record {
        connector = "easypost";
        authenticated = true;
        read_capability = true;
        write_capability = false;
        error = none;
      }
      ∷ [];
  demo_order = some (record {
    eligible = true;
    target = "1001";
    details = ("status", str "paid") ∷ ("fulfillment_status", null) ∷ [];
    failures = [];
  });
  demo_shipment = some (record {
    eligible = true;
    target = "trk_1";
    details = ("tracking_code", str "EZ1") ∷ ("status", str "in_transit") ∷ [];
    failures = [];
  });
}

report_is : preflight_demo py settings clients (some "1001") (some "trk_1") ≡ ok report
unfolding preflight_demo preflight_connectors check_connector check_order check_shipment
    validate_demo_order validate_demo_shipment lower_in Dict.get
report_is = refl

preflight_demo-ready_iff_example : (report.ready ≡ true) ↔ (report.failures ≡ [])
preflight_demo-ready_iff_example =
    preflight_demo-ready_iff py settings clients (some "1001") (some "trk_1") report_is

preflight_demo_safe_example :
    (payload : Object) × (clients.read_order "1001" ≡ answered payload)
    × IsEligibleOrder py payload "1001"
preflight_demo_safe_example =
    preflight_demo_safe py settings clients "1001" (some "trk_1") report_is refl

-- an order that is fulfilled in part, and whose money went back, is eligible
abbrev refunded_order : Object
refunded_order =
    ("id", str "1001")
    ∷ ("financial_status", str "refunded")
    ∷ ("fulfillment_status", str "partial")
    ∷ []

refunded_eligible : (validate_demo_order py refunded_order "1001").eligible ≡ true
unfolding validate_demo_order lower_in Dict.get
refunded_eligible = refl
