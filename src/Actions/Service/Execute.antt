-- ===== src/Actions/Service/Execute.antt =====
-- `execute` and `_require_eligible_test_order` of actions/service.py. The provider is a function
-- of the caller: it may change the world outside, and may raise.
use Prim.Native.String.{◌++◌ as append}
use agents_reality_layer.Prelude.{
  string_eq, pair_eq, String, Bool, false, Option, none, some, List, [], ◌∷◌, ◌!=◌, if◌then◌else◌,
}
use agents_reality_layer.Prelude.Text.{lower_in, remove_prefix}
use agents_reality_layer.Dict
use agents_reality_layer.Json.{Platform, Value, null, str}
use agents_reality_layer.Errors.{Result, ok, err, value_error}
use agents_reality_layer.WorldState.Models.{OrderState}
use agents_reality_layer.Actions.Models.{
  cancel_order, approved, provider_accepted, status_eq, action_type_eq, ExecutionReceipt,
}
use agents_reality_layer.Actions.Events.{dump_receipt}
use agents_reality_layer.Actions.Service.{
  StoredAction, ActionService, append_event, owned_action, set_status,
}

abbrev pub terminal_order_statuses : List String
terminal_order_statuses = "cancelled" ∷ "canceled" ∷ "closed" ∷ "voided" ∷ []

abbrev attribute_value : OrderState → String → Value
attribute_value state name = elim (Dict.get state.attributes name) [
  | none ↦ null
  | some attribute ↦ attribute.value
]

-- `isinstance(value, str) and value.lower() in words`
abbrev pub text_lower_in : Value → List String → Bool
text_lower_in (str s) words = lower_in s words
text_lower_in _ words = false

abbrev text_of : Value → String
text_of (str s) = s
text_of _ = ""

-- why the order may not be cancelled, if so
unfoldable pub ineligible : Option OrderState → Option String
ineligible none = some "Target order is not present in World State."
ineligible (some state) =
    let status = attribute_value state "status" in
    let fulfillment = attribute_value state "fulfillment_status" in
    if text_lower_in status terminal_order_statuses
    then some (
        append "Target order is already "
          (append (text_of status) "; test cancellation is not eligible."))
    else if text_lower_in fulfillment ("fulfilled" ∷ [])
    then some "Target order is fulfilled and not eligible for test cancellation."
    else none

-- from the guards on: the provider is called, and what it accepted is written down
unfoldable pub run_provider {ℓ} :
    {W : Type ℓ}
    → Platform
    → ActionService
    → String
    → StoredAction
    → String
    → Result ExecutionReceipt × W
    → String
    → Result ExecutionReceipt × ActionService × W
run_provider py s action_id action tenant_id (err e, world) hex = (err e, s, world)
run_provider py s action_id action tenant_id (ok receipt, world) hex =
    let accepted = set_status s action_id action provider_accepted "Provider accepted write." in
    let kept = record accepted {
      executions =
          Dict.put accepted.executions (tenant_id, action.proposal.idempotency_key) receipt;
    } in
    (
      ok receipt,
      append_event py kept tenant_id action_id "provider_accepted" "system" (dump_receipt receipt)
          hex,
      world,
    )

unfoldable pub execute {ℓ} :
    {W : Type ℓ}
    → Platform
    → ActionService
    → String
    → String
    → (String → String → String → W → Result ExecutionReceipt × W)
    → Option OrderState
    → String
    → W
    → Result ExecutionReceipt × ActionService × W
execute py s action_id tenant_id provider current_state hex world =
    elim (owned_action s action_id tenant_id) [
      | err e ↦ (err e, s, world)
      | ok action ↦ elim (Dict.get s.executions (tenant_id, action.proposal.idempotency_key)) [
        | some existing ↦ (ok existing, s, world)
        | none ↦
            if action.decision.status != approved
            then (err (value_error "Only approved actions can be executed."), s, world)
            else if action.proposal.action_type != cancel_order
            then (err (value_error "Only cancel_order is executable in the MVP."), s, world)
            else elim (ineligible current_state) [
              | some reason ↦ (
                err (value_error reason),
                append_event py s tenant_id action_id "precondition_failed" "system"
                    (("reason", str reason) ∷ ("stage", str "execution") ∷ []) hex,
                world,
              )
              | none ↦
                  run_provider py s action_id action tenant_id
                    (provider action_id (remove_prefix "order:" action.proposal.target_entity)
                      action.proposal.idempotency_key world)
                    hex
            ]
      ]
    ]
