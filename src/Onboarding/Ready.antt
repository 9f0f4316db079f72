-- ===== src/Onboarding/Ready.antt =====
-- What the verdict of `preflight_demo` of src/reality_layer/connectors/onboarding.py says.
use agents_reality_layer.Prelude.{
  string_eq, String, Bool, true, false, ◌&&◌, Option, none, some, List, [], ◌∷◌, ◌++◌, ◌≡◌, refl,
  ◌↔◌, arith, if◌then◌else◌, sym, subst, ==_iff,
}
use agents_reality_layer.Prelude.Text.{lower_in}
use agents_reality_layer.Json.{Platform, Value, null, bool, int, flt, str, obj, arr, Object, py_str}
use agents_reality_layer.Errors.{Result, ok, err, ◌>>=◌, OkAll, OkAll->>=, OkAll-ok, OkAll-map}
use agents_reality_layer.Onboarding.{
  Reply, answered, failed, escaped, Settings, Clients, ConnectorCheck, TargetCheck, Preflight,
  is_nil, missing_capabilities, check_connector, preflight_connectors, validate_demo_order,
  validate_demo_shipment, failed_check, judged, verdict, can_read, check_order, check_shipment,
  preflight_demo, value_at, or_value, is_shut, is_fulfilled,
}

is_nil-append {ℓ} : {A : Type ℓ} (xs ys : List A) → is_nil (xs ++ ys) ≡ (is_nil xs && is_nil ys)
is_nil-append [] ys = refl
is_nil-append (x ∷ xs) ys = refl

is_nil_iff {ℓ} : {A : Type ℓ} (xs : List A) → (is_nil xs ≡ true) ↔ (xs ≡ [])
is_nil_iff [] = (λ _. refl, λ _. refl)
is_nil_iff (x ∷ xs) = (λ h. cc, λ h. cc)

-- a check is eligible when it lists no failure, and so is the whole verdict
Honest : TargetCheck → Type 0
Honest c = c.eligible ≡ is_nil c.failures

Reported : Preflight → Type 0
Reported r = r.ready ≡ is_nil r.failures

verdict-Reported :
    (r : Preflight) (c : TargetCheck) → Reported r → Honest c → Reported (verdict r c)
unfolding Reported Honest
verdict-Reported r c h k = ground (arith, h, k, is_nil-append r.failures c.failures)

judged-Honest :
    (validate : Object → String → TargetCheck) (failure target : String) (reply : Reply Object)
    → ((payload : Object) → Honest (validate payload target))
    → OkAll Honest (judged validate failure target reply)
unfolding Honest
judged-Honest validate failure target (answered payload) h = h payload
judged-Honest validate failure target (failed problem) h = refl
judged-Honest validate failure target (escaped e) h = tt

-- the check that is made if the connector can read
when_can-Honest :
    (b : Bool) (m : Result TargetCheck) (target failure : String)
    → OkAll Honest m
    → OkAll Honest (if b then m else ok (failed_check target failure []))
unfolding Honest
when_can-Honest true m target failure h = h
when_can-Honest false m target failure h = refl

-- an eligible check of a target was made of what the client read
IsRead : (Object → String → TargetCheck) → String → Reply Object → TargetCheck → Type 0
IsRead validate target reply c =
    c.eligible ≡ true
    → (payload : Object) × (reply ≡ answered payload) × ((validate payload target).eligible ≡ true)

when_can-IsRead :
    (b : Bool) (validate : Object → String → TargetCheck) (failure other target : String)
    (reply : Reply Object)
    → OkAll
        (IsRead validate target reply)
        (if b then judged validate failure target reply else ok (failed_check target other []))
unfolding IsRead
when_can-IsRead true validate failure other target (answered payload) = λ h. (payload, refl, h)
when_can-IsRead true validate failure other target (failed problem) = λ h. cc
when_can-IsRead true validate failure other target (escaped e) = tt
when_can-IsRead false validate failure other target reply = λ h. cc

verdict-ready : (r : Preflight) (c : TargetCheck) → (verdict r c).ready ≡ (c.eligible && r.ready)
verdict-ready r c = ground arith

module _ (py : Platform) (clients : Clients) (r : Preflight) where
  check_order-Reported :
      (order_id : Option String) → Reported r → OkAll Reported (check_order py clients r order_id)
  unfolding check_order Reported Honest validate_demo_order
  check_order-Reported none h = h
  check_order-Reported (some i) h =
      OkAll->>= Honest Reported _ _
        (when_can-Honest (can_read "shopify" r.connectors) _ i "order.connector_unavailable" (
          judged-Honest (validate_demo_order py) "order.read_failed" i (clients.read_order i)
            (λ payload. refl)))
        (λ c k. verdict-Reported r c h k)

  check_shipment-Reported :
      (shipment_id : Option String)
      → Reported r
      → OkAll Reported (check_shipment py clients r shipment_id)
  unfolding check_shipment Reported Honest validate_demo_shipment
  check_shipment-Reported none h = h
  check_shipment-Reported (some i) h =
      OkAll->>= Honest Reported _ _
        (when_can-Honest (can_read "easypost" r.connectors) _ i "shipment.connector_unavailable" (
          judged-Honest (validate_demo_shipment py) "shipment.read_failed" i
            (clients.read_tracker i) (λ payload. refl)))
        (λ c k. verdict-Reported r c h k)

  check_order-IsRead :
      (i : String)
      → OkAll
          (λ r'.
            r'.ready ≡ true
            → (payload : Object) × (clients.read_order i ≡ answered payload)
              × ((validate_demo_order py payload i).eligible ≡ true))
          (check_order py clients r (some i))
  unfolding check_order IsRead
  check_order-IsRead i =
      OkAll->>= (IsRead (validate_demo_order py) i (clients.read_order i)) _ _ _
        (when_can-IsRead (can_read "shopify" r.connectors) (validate_demo_order py)
          "order.read_failed" "order.connector_unavailable" i (clients.read_order i))
        (λ c k h. k (ground (arith, h, verdict-ready r c)))

  check_shipment-ready :
      (shipment_id : Option String)
      → OkAll (λ r'. r'.ready ≡ true → r.ready ≡ true) (check_shipment py clients r shipment_id)
  unfolding check_shipment
  check_shipment-ready none = λ h. h
  check_shipment-ready (some i) =
      OkAll->>= (λ c. Unit {0}) _
        (if can_read "easypost" r.connectors
          then judged (validate_demo_shipment py) "shipment.read_failed" i (clients.read_tracker i)
          else ok (failed_check i "shipment.connector_unavailable" []))
        _ (all_units _) (λ c _ h. ground (arith, h, verdict-ready r c))
    where
      all_units : (m : Result TargetCheck) → OkAll (λ c. Unit {0}) m
      all_units (ok c) = tt
      all_units (err e) = tt

preflight_connectors-Reported :
    (settings : Settings) (clients : Clients)
    → OkAll Reported (preflight_connectors settings clients)
unfolding preflight_connectors Reported
preflight_connectors-Reported settings clients =
    by_checks (check_connector "shopify" settings clients)
      (check_connector "easypost" settings clients)
  where
    by_checks :
        (a b : Result ConnectorCheck)
        → OkAll Reported (do
          shopify ← a
          easypost ← b
          let failures = missing_capabilities shopify easypost
          ok (record {
            ready = is_nil failures;
            failures = failures;
            connectors = shopify ∷ easypost ∷ [];
            demo_order = none;
            demo_shipment = none;
          }))
    by_checks (ok a) (ok b) = refl
    by_checks (ok a) (err e) = tt
    by_checks (err e) b = tt

-- A demo preflight that has a result is ready exactly when its list of failures is empty.
pub preflight_demo-ready_iff :
    (py : Platform) (settings : Settings) (clients : Clients) (order_id shipment_id : Option String)
    {r : Preflight}
    → preflight_demo py settings clients order_id shipment_id ≡ ok r
    → (r.ready ≡ true) ↔ (r.failures ≡ [])
unfolding preflight_demo Reported
preflight_demo-ready_iff py settings clients order_id shipment_id {r} e =
    let reported =
      OkAll-ok Reported
        (OkAll->>= Reported Reported (preflight_connectors settings clients) _
          (preflight_connectors-Reported settings clients)
          (λ a h.
            OkAll->>= Reported Reported (check_order py clients a order_id) _
              (check_order-Reported py clients a order_id h)
              (λ b k. check_shipment-Reported py clients b shipment_id k)))
        e in
    subst (λ b. (b ≡ true) ↔ (r.failures ≡ [])) (sym reported) (is_nil_iff r.failures)

-- a status that does not end the demo is a text
is_shut-false :
    (v : Value)
    → is_shut v ≡ false
    → (s : String) × (v ≡ str s)
      × (lower_in s ("cancelled" ∷ "canceled" ∷ "closed" ∷ "voided" ∷ []) ≡ false)
is_shut-false (str s) h = (s, refl, h)
is_shut-false null h = absurd cc
is_shut-false (bool b) h = absurd cc
is_shut-false (int n) h = absurd cc
is_shut-false (flt m e) h = absurd cc
is_shut-false (obj fs) h = absurd cc
is_shut-false (arr xs) h = absurd cc

-- The order has the id; its financial status, or its status where the first is missing or empty, is
-- a text and none of four, whatever the case; and its fulfillment status is not fulfilled.
pub record IsEligibleOrder (py : Platform) (payload : Object) (order_id : String) : Type 0 where
  pub same_id : py_str py (value_at payload "id") ≡ order_id
  pub status : String
  pub has_status :
      or_value (value_at payload "financial_status") (value_at payload "status") ≡ str status
  pub not_shut : lower_in status ("cancelled" ∷ "canceled" ∷ "closed" ∷ "voided" ∷ []) ≡ false
  pub not_fulfilled : is_fulfilled (value_at payload "fulfillment_status") ≡ false

validate_demo_order-IsEligibleOrder :
    (py : Platform) (payload : Object) (i : String)
    → (validate_demo_order py payload i).eligible ≡ true
    → IsEligibleOrder py payload i
unfolding validate_demo_order
validate_demo_order-IsEligibleOrder py payload i h =
    let status = or_value (value_at payload "financial_status") (value_at payload "status") in
    let (s, text, unshut) = is_shut-false status (ground (arith, h)) in
    record {
      same_id = ground (arith, h, ==_iff (py_str py (value_at payload "id")) i);
      status = s;
      has_status = text;
      not_shut = unshut;
      not_fulfilled = ground (arith, h);
    }

-- A demo preflight of an order that comes out ready has read the order from the shop, and the order
-- has the id that was asked for, a status text that is none of cancelled, canceled, closed and
-- voided, and a fulfillment status other than fulfilled.
pub preflight_demo_safe :
    (py : Platform) (settings : Settings) (clients : Clients) (order_id : String)
    (shipment_id : Option String) {r : Preflight}
    → preflight_demo py settings clients (some order_id) shipment_id ≡ ok r
    → r.ready ≡ true
    → (payload : Object) × (clients.read_order order_id ≡ answered payload)
      × IsEligibleOrder py payload order_id
unfolding preflight_demo
preflight_demo_safe py settings clients i shipment_id {r} e ready =
    let P : Preflight → Type 0 = λ r'.
      r'.ready ≡ true
      → (payload : Object) × (clients.read_order i ≡ answered payload)
        × ((validate_demo_order py payload i).eligible ≡ true) in
    let (payload, read, fit) =
      OkAll-ok P
        (OkAll->>= Reported P (preflight_connectors settings clients) _
          (preflight_connectors-Reported settings clients)
          (λ a h.
            OkAll->>= P P (check_order py clients a (some i)) _ (check_order-IsRead py clients a i)
              (λ b k.
                OkAll-map (λ r'. r'.ready ≡ true → b.ready ≡ true) P _
                  (check_shipment-ready py clients b shipment_id) (λ c l m. k (l m)))))
        e ready in
    (payload, read, validate_demo_order-IsEligibleOrder py payload i fit)
