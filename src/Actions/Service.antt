-- ===== src/Actions/Service.antt =====
-- `ActionService` of src/reality_layer/actions/service.py: its state, and the private helpers.
-- A method returns its result, or the exception it raises, beside the state it leaves. What
-- `uuid4` gives is an argument. Stored actions are changed in place in Python; no other object
-- holds them, so a change is a write of the dictionary.
pub mod Lifecycle
pub mod Execute
pub mod Restore
use Prim.Native.String.{◌++◌ as append}
use agents_reality_layer.Prelude.{
  nat_eq, string_eq, pair_eq, ℕ, String, Bool, true, false, ◌&&◌, not, Option, none, some, List, [],
  ◌∷◌, ◌++◌, ◌==◌, ◌!=◌, get_last?, if◌then◌else◌, ◌≡◌, arith,
}
use agents_reality_layer.Dict
use agents_reality_layer.Dict.{Dict}
use agents_reality_layer.Json.{
  Platform, Value, null, str, obj, end, field, Object, fields_of, hash_json, py_eq,
}
use agents_reality_layer.Errors.{Error, key_error, Result, ok, err, ◌>>=◌}
use agents_reality_layer.WorldState.Models.{OrderState, StateAttribute}
use agents_reality_layer.Actions.Models.{
  ActionStatus, ActionProposal, ActionDecision, ExecutionReceipt,
}
use agents_reality_layer.Actions.Events.{ActionEventRecord, optional}

pub record StoredAction : Type 0 where
  pub proposal : ActionProposal
  pub decision : ActionDecision
  pub proposer_role : String
  pub tenant_id : String

pub record ActionService : Type 0 where
  pub actions : Dict String StoredAction
  pub idempotency : Dict (String × String) String
  pub log : Dict String (List ActionEventRecord)
  pub executions : Dict (String × String) ExecutionReceipt

abbrev pub init : ActionService
init = record { actions = []; idempotency = []; log = []; executions = [] }

-- the dictionary whose hash an event carries
abbrev pub event_body : String → String → String → String → String → Object → Option String → Value
event_body event_id tenant_id action_id event_type actor_role payload previous = obj (
    field "event_id" (str event_id) (
      field "tenant_id" (str tenant_id) (
        field "action_id" (str action_id) (
          field "event_type" (str event_type) (
            field "actor_role" (str actor_role) (
              field "payload" (obj (fields_of payload))
                (field "previous_event_hash" (optional previous) end)))))))

abbrev pub or_nil {ℓ} : {A : Type ℓ} → Option (List A) → List A
or_nil none = []
or_nil (some xs) = xs

-- `self._events.get(action_id, [])`
abbrev pub events_of : ActionService → String → List ActionEventRecord
events_of s action_id = or_nil (Dict.get s.log action_id)

-- `action_events[-1].event_hash if action_events else None`
abbrev pub last_hash : List ActionEventRecord → Option String
last_hash events = elim (get_last? events) [ none ↦ none | some e ↦ some e.event_hash ]

unfoldable pub next_event :
    Platform
    → List ActionEventRecord
    → String
    → String
    → String
    → String
    → Object
    → String
    → ActionEventRecord
next_event py prior tenant_id action_id event_type actor_role payload hex =
    let previous = last_hash prior in
    let event_id = append "evt_" hex in
    record {
      event_id = event_id;
      tenant_id = tenant_id;
      action_id = action_id;
      event_type = event_type;
      actor_role = actor_role;
      payload = payload;
      previous_event_hash = previous;
      event_hash =
          hash_json py
            (event_body event_id tenant_id action_id event_type actor_role payload previous);
    }

-- `_append_event`; `hex` is what `uuid4` gives
unfoldable pub append_event :
    Platform → ActionService → String → String → String → String → Object → String → ActionService
append_event py s tenant_id action_id event_type actor_role payload hex =
    let prior = events_of s action_id in
    record s {
      log =
          Dict.put s.log action_id (
            prior
            ++ next_event py prior tenant_id action_id event_type actor_role payload hex ∷ []);
    }

-- `_get`
unfoldable pub find_action : ActionService → String → Result StoredAction
find_action s action_id = elim (Dict.get s.actions action_id) [
  | none ↦ err (key_error (append "Unknown action: " action_id))
  | some action ↦ ok action
]

-- `_get` and then `_check_tenant`, the first two lines of the public methods
unfoldable pub owned_action : ActionService → String → String → Result StoredAction
unfolding find_action
owned_action s action_id tenant_id = do
  action ← find_action s action_id
  if action.tenant_id != tenant_id then err (key_error "Unknown action") else ok action

-- `action.decision = action.decision.model_copy(update={"status": …, "reason": …})`
unfoldable pub set_status :
    ActionService → String → StoredAction → ActionStatus → String → ActionService
set_status s action_id action status reason = record s {
  actions =
      Dict.put s.actions action_id
        (record action { decision = record action.decision { status = status; reason = reason } });
}

-- the loop over the expected attributes: the first name whose value differs
abbrev pub mismatch : Object → Dict String StateAttribute → Option String
mismatch [] attributes = none
mismatch ((name, expected) ∷ rest) attributes =
    let later = mismatch rest attributes in
    elim (Dict.get attributes name) [
      | none ↦ some name
      | some attribute ↦ if py_eq attribute.value expected then later else some name
    ]

-- `_check_preconditions`
unfoldable pub check_preconditions : ActionProposal → Option OrderState → Option String
check_preconditions p none = some "Target order does not exist in World State."
check_preconditions p (some state) =
    if state.state_version != p.expected_state_version
    then some "Target state version changed since proposal."
    else elim (mismatch p.expected_attributes state.attributes) [
      | none ↦ none
      | some name ↦
          some (append "Expected attribute does not match current state: " (append name "."))
    ]
