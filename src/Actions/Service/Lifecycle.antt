-- ===== src/Actions/Service/Lifecycle.antt =====
-- `propose`, `approve`, `reject`, `verify` and the queries of actions/service.py.
use Prim.Native.String.{◌++◌ as append}
use agents_reality_layer.Prelude.{
  nat_eq, string_eq, pair_eq, option_eq, String, Bool, true, false, not, Option, none, some, List,
  [], ◌∷◌, ◌==◌, ◌!=◌, map, filter, if◌then◌else◌,
}
use agents_reality_layer.Dict
use agents_reality_layer.Dict.{Dict}
use agents_reality_layer.Json.{Platform, Value, null, str, py_eq}
use agents_reality_layer.Errors.{Result, ok, err, key_error, value_error}
use agents_reality_layer.WorldState.Models.{OrderState}
use agents_reality_layer.Actions.Models.{
  ActionStatus, approval_required, approved, rejected, denied, precondition_failed,
  provider_accepted, verification_pending, verified, verification_failed, state_diverged,
  status_value, status_eq, ActionProposal, ActionDecision, ApprovalRequest,
}
use agents_reality_layer.Actions.Events.{ActionEventRecord, dump_decision, dump_proposal}
use agents_reality_layer.Actions.Policy.{Context, evaluate_policy}
use agents_reality_layer.Actions.Service.{
  StoredAction, ActionService, append_event, owned_action, set_status, check_preconditions,
  events_of,
}

-- The hexadecimal digits that the two calls of `uuid4` in `propose` give.
pub record Fresh : Type 0 where
  pub action_hex : String
  pub event_hex : String

-- the part of `propose` after the lookup of the idempotency key
unfoldable pub propose_new :
    Platform
    → ActionService
    → ActionProposal
    → String
    → String
    → Context
    → Fresh
    → Result ActionDecision × ActionService
propose_new py s proposal role tenant_id context fresh =
    let action_id = append "act_" fresh.action_hex in
    let decision = evaluate_policy py action_id proposal role context "mvp-1" in
    let stored = record s {
      actions = Dict.put s.actions action_id (record {
        proposal = proposal;
        decision = decision;
        proposer_role = role;
        tenant_id = tenant_id;
      });
      idempotency = Dict.put s.idempotency (tenant_id, proposal.idempotency_key) action_id;
    } in
    (
      ok decision,
      append_event py stored tenant_id action_id "policy_evaluated" role
          (("decision", dump_decision decision) ∷ ("proposal", dump_proposal proposal) ∷ [])
          fresh.event_hex,
    )

unfoldable pub propose :
    Platform
    → ActionService
    → ActionProposal
    → String
    → String
    → Context
    → Fresh
    → Result ActionDecision × ActionService
propose py s proposal role tenant_id context fresh =
    elim (Dict.get s.idempotency (tenant_id, proposal.idempotency_key)) [
      | some existing_id ↦ elim (Dict.get s.actions existing_id) [
        | none ↦ (err (key_error existing_id), s)
        | some action ↦ (ok action.decision, s)
      ]
      | none ↦ propose_new py s proposal role tenant_id context fresh
    ]

-- a write of the status and the reason, its event, and the new decision
unfoldable pub transition :
    Platform
    → ActionService
    → String
    → StoredAction
    → ActionStatus
    → String
    → String
    → String
    → String
    → String
    → Result ActionDecision × ActionService
transition py s action_id action status reason event_type tenant_id role hex = (
  ok (record action.decision { status = status; reason = reason }),
  append_event py (set_status s action_id action status reason) tenant_id action_id event_type role
      (("reason", str reason) ∷ []) hex,
)

unfoldable pub approve :
    Platform
    → ActionService
    → String
    → ApprovalRequest
    → String
    → String
    → Option OrderState
    → String
    → Result ActionDecision × ActionService
approve py s action_id approval role tenant_id current_state hex =
    elim (owned_action s action_id tenant_id) [
      | err e ↦ (err e, s)
      | ok action ↦
          if action.decision.status != approval_required
          then (ok action.decision, s)
          else if some role != action.decision.required_role
          then transition py s action_id action denied "Approver does not have the required role."
              "approval_denied" tenant_id role hex
          else elim (check_preconditions action.proposal current_state) [
            | some failure ↦
                transition py s action_id action precondition_failed failure "precondition_failed"
                  tenant_id role hex
            | none ↦
                transition py s action_id action approved approval.reason "approved" tenant_id role
                  hex
          ]
    ]

unfoldable pub reject :
    Platform
    → ActionService
    → String
    → ApprovalRequest
    → String
    → String
    → Result ActionDecision × ActionService
reject py s action_id rejection tenant_id hex = elim (owned_action s action_id tenant_id) [
  | err e ↦ (err e, s)
  | ok action ↦
      if action.decision.status != approval_required
      then (ok action.decision, s)
      else transition py s action_id action rejected rejection.reason "rejected" tenant_id
          "approver" hex
]

abbrev pub verifiable : ActionStatus → Bool
verifiable provider_accepted = true
verifiable verification_pending = true
verifiable _ = false

abbrev pub terminal_verification : ActionStatus → Bool
terminal_verification verified = true
terminal_verification verification_failed = true
terminal_verification state_diverged = true
terminal_verification _ = false

-- the value of the order's `status`, `None` where there is no state or no such attribute
abbrev pub observed_status : Option OrderState → Value
observed_status none = null
observed_status (some state) = elim (Dict.get state.attributes "status") [
  | none ↦ null
  | some attribute ↦ attribute.value
]

-- `observed is not None`
abbrev pub present : Value → Bool
present null = false
present _ = true

-- the ladder of `verify`: the status and the reason
unfoldable pub judge : Platform → Value → Bool → ActionStatus × String
judge py observed is_final =
    if py_eq observed (str "cancelled")
    then (verified, "Independent read-after-write verification succeeded.")
    else if not is_final
    then (
      verification_pending,
      if present observed
          then "Verification read has not yet observed the expected cancelled state."
          else "Verification read did not return an order status yet.",
    )
    else if not (present observed)
    then (verification_failed, "Verification read did not return an order status before timeout.")
    else (
      state_diverged,
      append "Verification read diverged from the expected cancelled state (observed "
          (append (py.repr observed) ")."),
    )

unfoldable pub verify :
    Platform
    → ActionService
    → String
    → String
    → Option OrderState
    → Bool
    → String
    → Result ActionDecision × ActionService
verify py s action_id tenant_id state is_final hex = elim (owned_action s action_id tenant_id) [
  | err e ↦ (err e, s)
  | ok action ↦
      if not (verifiable action.decision.status)
      then (err (value_error "Only provider-accepted actions can be verified."), s)
      else let observed = observed_status state in
        let (status, reason) = judge py observed is_final in
        (
          ok (record action.decision { status = status; reason = reason }),
          append_event py (set_status s action_id action status reason) tenant_id action_id
              (status_value status) "verifier"
              (("reason", str reason)
                ∷ ("commit_id", elim state [ none ↦ null | some st ↦ str st.commit_id ])
                ∷ ("observed_status", observed)
                ∷ [])
              hex,
        )
]

-- the queries
unfoldable pub events : ActionService → String → String → Result (List ActionEventRecord)
events s action_id tenant_id = elim (owned_action s action_id tenant_id) [
  | err e ↦ err e
  | ok _ ↦ ok (events_of s action_id)
]

unfoldable pub get_proposal : ActionService → String → String → Result ActionProposal
get_proposal s action_id tenant_id = elim (owned_action s action_id tenant_id) [
  | err e ↦ err e
  | ok action ↦ ok action.proposal
]

unfoldable pub get_decision : ActionService → String → String → Result ActionDecision
get_decision s action_id tenant_id = elim (owned_action s action_id tenant_id) [
  | err e ↦ err e
  | ok action ↦ ok action.decision
]

unfoldable pub list_actions : ActionService → String → List ActionDecision
list_actions s tenant_id =
    map (λ a. a.decision) (filter (λ a. a.tenant_id == tenant_id) (Dict.values s.actions))

unfoldable pub pending_verifications : ActionService → List (String × String)
pending_verifications s =
    map (λ e. (e.1.tenant_id, e.0)) (filter (λ e. verifiable e.1.decision.status) s.actions)
