-- ===== src/Actions/Service/Restore.antt =====
-- `restore` of actions/service.py: the state is rebuilt from persisted events, one at a time.
use agents_reality_layer.Prelude.{
  string_eq, pair_eq, String, Bool, Option, none, some, [], ◌∷◌, ◌++◌, ◌==◌, any, if◌then◌else◌,
}
use agents_reality_layer.Dict
use agents_reality_layer.Json.{Platform, Value, obj, Fields, py_str}
use agents_reality_layer.Errors.{Result, ok, err, value_error, ◌>>=◌}
use agents_reality_layer.Actions.Models.{
  ActionStatus, approved, rejected, denied, precondition_failed, provider_accepted,
  verification_pending, verified, verification_failed, state_diverged, ActionProposal,
  ActionDecision,
}
use agents_reality_layer.Actions.Events.{ActionEventRecord, decision_of, proposal_of, receipt_of}
use agents_reality_layer.Actions.Service.{StoredAction, ActionService, events_of, set_status}

-- `status_map.get(event_type)`
unfoldable pub status_of_event : String → Option ActionStatus
status_of_event t =
    if t == "approved"
    then some approved
    else if t == "rejected"
    then some rejected
    else if t == "approval_denied"
    then some denied
    else if t == "precondition_failed"
    then some precondition_failed
    else if t == "provider_accepted"
    then some provider_accepted
    else if t == "verification_pending"
    then some verification_pending
    else if t == "verified"
    then some verified
    else if t == "verification_failed"
    then some verification_failed
    else if t == "state_diverged"
    then some state_diverged
    else none

-- `str(event.payload.get("reason", event.event_type))`
abbrev pub restored_reason : Platform → ActionEventRecord → String
restored_reason py event = elim (Dict.get event.payload "reason") [
  | none ↦ event.event_type
  | some v ↦ py_str py v
]

-- `_apply_restored_event`
unfoldable pub apply_restored :
    Platform → ActionService → StoredAction → ActionEventRecord → ActionService
apply_restored py s action event = elim (status_of_event event.event_type) [
  | none ↦ s
  | some status ↦ set_status s event.action_id action status (restored_reason py event)
]

-- `self._events.setdefault(event.action_id, []).append(event)`
unfoldable pub keep_event : ActionService → ActionEventRecord → ActionService
keep_event s event = record s {
  log = Dict.put s.log event.action_id (events_of s event.action_id ++ event ∷ []);
}

-- the ids of all the events that are held
unfoldable pub holds_event : ActionService → String → Bool
holds_event s event_id = any (λ held. any (λ e. e.event_id == event_id) held) (Dict.values s.log)

-- the branch for an event of the lifecycle, of an action that is known
unfoldable pub restore_step :
    Platform → ActionService → StoredAction → ActionEventRecord → Result (Unit {0}) × ActionService
restore_step py s action event =
    let kept = keep_event (apply_restored py s action event) event in
    if event.event_type == "provider_accepted"
    then elim (receipt_of event.payload) [
      | err e ↦ (err e, kept)
      | ok receipt ↦ (
        ok tt,
        record kept {
          executions = Dict.put kept.executions (event.tenant_id, receipt.idempotency_key) receipt;
        },
      )
    ]
    else (ok tt, kept)

abbrev missing : String
missing = "Policy evaluation event is missing proposal or decision."

-- `isinstance(data, dict)`
abbrev as_dict : Option Value → Result Fields
as_dict (some (obj fs)) = ok fs
as_dict _ = err (value_error missing)

abbrev pub evaluated : ActionEventRecord → Result (ActionProposal × ActionDecision)
evaluated event = do
  proposal_data ← as_dict (Dict.get event.payload "proposal")
  decision_data ← as_dict (Dict.get event.payload "decision")
  proposal ← proposal_of proposal_data
  decision ← decision_of decision_data
  ok (proposal, decision)

-- the branch for `policy_evaluated`, which makes the action
unfoldable pub restore_proposal :
    ActionService → ActionEventRecord → Result (Unit {0}) × ActionService
restore_proposal s event = elim (evaluated event) [
  | err e ↦ (err e, s)
  | ok (proposal, decision) ↦ (
    ok tt,
    keep_event
        (record s {
          actions = Dict.put s.actions event.action_id (record {
            proposal = proposal;
            decision = decision;
            proposer_role = event.actor_role;
            tenant_id = event.tenant_id;
          });
          idempotency =
              Dict.put s.idempotency (event.tenant_id, proposal.idempotency_key) event.action_id;
        })
        event,
  )
]

unfoldable pub restore :
    Platform → ActionService → ActionEventRecord → Result (Unit {0}) × ActionService
restore py s event =
    if holds_event s event.event_id
    then (ok tt, s)
    else if event.event_type == "policy_evaluated"
    then restore_proposal s event
    else elim (Dict.get s.actions event.action_id) [
      | none ↦ (ok tt, s)
      | some action ↦ restore_step py s action event
    ]
