-- ===== src/Actions/Policy.antt =====
-- src/reality_layer/actions/policy.py: the ladder of rules that decides on a proposal.
pub mod Rules
use Prim.Native.String.{◌++◌ as append}
use agents_reality_layer.Prelude.{
  string_eq, String, Bool, true, false, ◌&&◌, ◌||◌, not, Option, none, some, List, [], ◌∷◌, ◌==◌,
  any, if◌then◌else◌,
}
use agents_reality_layer.Prelude.Float.{Float, float_gt}
use agents_reality_layer.Json.{Platform}
use agents_reality_layer.Actions.Models.{
  ActionType, cancel_order, hold_order, update_shipping_address, ActionStatus, denied,
  approval_required, ActionProposal, ActionDecision, action_type_eq,
}

abbrev pub known_roles : List String
known_roles = "observer" ∷ "operations" ∷ "finance" ∷ "system" ∷ []

abbrev pub observe_only_mode : String
observe_only_mode = "observe_only"

-- What the caller of the policy knows of the workspace and of the order.
pub record Context : Type 0 where
  pub workspace_mode : String
  pub order_value : Option Float
  pub value_limit : Option Float
  pub has_conflict : Bool

-- `value_limit is not None and order_value is not None and order_value > value_limit`
abbrev pub exceeds_limit : Option Float → Option Float → Bool
exceeds_limit (some value) (some limit) = float_gt value limit
exceeds_limit _ _ = false

-- the text of a refusal by value; the branch that uses it has both numbers
abbrev limit_reason : Platform → Option Float → Option Float → String
limit_reason py (some value) (some limit) = append "Order value " (
    append (py.format_g value)
      (append " exceeds the configured write threshold " (append (py.format_g limit) ".")))
limit_reason py _ _ = ""

abbrev pub denial : String → String → String → Option String → ActionDecision
denial action_id version reason rule = record {
  action_id = action_id;
  status = denied;
  reason = reason;
  matched_rule = rule;
  policy_version = version;
  required_role = none;
}

abbrev pub needs_approval : String → String → String → String → ActionDecision
needs_approval action_id version reason rule = record {
  action_id = action_id;
  status = approval_required;
  reason = reason;
  matched_rule = some rule;
  policy_version = version;
  required_role = some "operations";
}

unfoldable pub evaluate_policy :
    Platform → String → ActionProposal → String → Context → String → ActionDecision
evaluate_policy py action_id proposal role context version =
    if not (any (λ known. known == role) known_roles)
    then denial action_id version "Unknown roles cannot propose actions." none
    else if role == "observer"
    then denial action_id version "Observers cannot propose write actions."
        (some "deny.observer.write")
    else if context.workspace_mode == observe_only_mode
    then denial action_id version
        "Workspace is in observe-only mode; enable demo proposal mode before proposing writes."
        (some "deny.workspace.observe_only")
    else if context.has_conflict
    then denial action_id version
        "The target entity has an unresolved conflict between sources; resolve it before proposing actions against it."
        (some "deny.conflict.unresolved")
    else if exceeds_limit context.order_value context.value_limit
    then denial action_id version (limit_reason py context.order_value context.value_limit)
        (some "deny.threshold.value")
    else if (proposal.action_type == cancel_order) && (role == "operations")
    then needs_approval action_id version "Cancelling an order requires Operations approval."
        "approval.operations.cancel_order"
    else if (proposal.action_type == hold_order)
        || (proposal.action_type == update_shipping_address)
    then needs_approval action_id version "This action is proposal-only in the MVP."
        "approval.mvp.proposal_only"
    else denial action_id version "No explicit policy permits this action." (some "deny.default")
