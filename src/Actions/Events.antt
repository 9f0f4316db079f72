-- ===== src/Actions/Events.antt =====
-- `ActionEventRecord` of actions/models.py, the dumps of the models that events carry, and
-- `model_validate`, which reads them back. Coercions that pydantic makes for other types of JSON
-- value (a numeral text for an integer) are refusals here.
pub mod Roundtrip
use agents_reality_layer.Prelude.{
  nat_eq, string_eq, ℕ, String, Bool, true, ◌&&◌, Option, none, some, List, [], ◌∷◌, map, ◌==◌, any,
  if◌then◌else◌,
}
use agents_reality_layer.Prelude.Int.{pos}
use agents_reality_layer.Json.{
  Value, Items, Fields, null, int, str, arr, obj, nil, cons, end, field, Object, fields_of,
  items_of, lookup_field,
}
use agents_reality_layer.Errors.{Result, ok, err, value_error, ◌>>=◌}
use agents_reality_layer.Actions.Models.{
  ActionType, cancel_order, hold_order, update_shipping_address, ActionStatus, proposed,
  approval_required, approved, rejected, denied, precondition_failed, provider_accepted,
  verification_pending, verified, verification_failed, state_diverged, status_value, ActionProposal,
  ActionDecision, ExecutionReceipt, validate_proposal,
}

pub record ActionEventRecord : Type 0 where
  pub event_id : String
  pub tenant_id : String
  pub action_id : String
  pub event_type : String
  pub actor_role : String
  pub payload : Object
  pub previous_event_hash : Option String
  pub event_hash : String

-- `None` is JSON's null.
abbrev pub optional : Option String → Value
optional none = null
optional (some s) = str s

abbrev pub action_type_value : ActionType → String
action_type_value cancel_order = "cancel_order"
action_type_value hold_order = "hold_order"
action_type_value update_shipping_address = "update_shipping_address"

-- `decision.model_dump(mode="json")`
abbrev pub dump_decision : ActionDecision → Value
dump_decision d = obj (
    field "action_id" (str d.action_id) (
      field "status" (str (status_value d.status)) (
        field "reason" (str d.reason) (
          field "matched_rule" (optional d.matched_rule) (
            field "policy_version" (str d.policy_version)
              (field "required_role" (optional d.required_role) end))))))

-- `proposal.model_dump(mode="json")`
abbrev pub dump_proposal : ActionProposal → Value
dump_proposal p = obj (
    field "action_type" (str (action_type_value p.action_type)) (
      field "target_entity" (str p.target_entity) (
        field "parameters" (obj (fields_of p.parameters)) (
          field "reason" (str p.reason) (
            field "evidence_refs" (arr (items_of (map str p.evidence_refs))) (
              field "idempotency_key" (str p.idempotency_key) (
                field "expected_state_version" (int (pos p.expected_state_version))
                  (field "expected_attributes" (obj (fields_of p.expected_attributes)) end))))))))

-- `receipt.model_dump(mode="json")`, a payload of its own
abbrev pub dump_receipt : ExecutionReceipt → Object
dump_receipt r =
    ("action_id", str r.action_id)
    ∷ ("status", str (status_value r.status))
    ∷ ("provider", str r.provider)
    ∷ ("provider_request_id", str r.provider_request_id)
    ∷ ("idempotency_key", str r.idempotency_key)
    ∷ []

-- What a field of a model may be.
abbrev pub as_text : Option Value → Result String
as_text (some (str s)) = ok s
as_text _ = err (value_error "text")

-- a field of type `str | None = None`
abbrev pub as_optional : Option Value → Result (Option String)
as_optional none = ok none
as_optional (some null) = ok none
as_optional (some (str s)) = ok (some s)
as_optional _ = err (value_error "text or null")

abbrev pub as_status : Option Value → Result ActionStatus
as_status (some (str s)) =
    if s == "proposed"
    then ok proposed
    else if s == "approval_required"
    then ok approval_required
    else if s == "approved"
    then ok approved
    else if s == "rejected"
    then ok rejected
    else if s == "denied"
    then ok denied
    else if s == "precondition_failed"
    then ok precondition_failed
    else if s == "provider_accepted"
    then ok provider_accepted
    else if s == "verification_pending"
    then ok verification_pending
    else if s == "verified"
    then ok verified
    else if s == "verification_failed"
    then ok verification_failed
    else if s == "state_diverged"
    then ok state_diverged
    else err (value_error "status")
as_status _ = err (value_error "status")

abbrev pub as_action_type : Option Value → Result ActionType
as_action_type (some (str s)) =
    if s == "cancel_order"
    then ok cancel_order
    else if s == "hold_order"
    then ok hold_order
    else if s == "update_shipping_address"
    then ok update_shipping_address
    else err (value_error "action_type")
as_action_type _ = err (value_error "action_type")

-- a field of type `int` with `ge=1`; the bound is checked with the other constraints
abbrev pub as_natural : Option Value → Result ℕ
as_natural (some (int (pos n))) = ok n
as_natural _ = err (value_error "integer")

abbrev pub object_of : Fields → Object
object_of end = []
object_of (field k v fs) = (k, v) ∷ object_of fs

-- a field of type `dict[str, Any]` with an empty default
abbrev pub as_object : Option Value → Result Object
as_object none = ok []
as_object (some (obj fs)) = ok (object_of fs)
as_object _ = err (value_error "object")

abbrev pub texts_of : Items → Result (List String)
texts_of nil = ok []
texts_of (cons (str s) vs) = do rest ← texts_of vs; ok (s ∷ rest)
texts_of (cons _ vs) = err (value_error "text")

abbrev pub as_texts : Option Value → Result (List String)
as_texts none = ok []
as_texts (some (arr xs)) = texts_of xs
as_texts _ = err (value_error "texts")

-- `extra="forbid"`
abbrev pub only : List String → Fields → Bool
only names end = true
only names (field k v fs) = any (λ n. n == k) names && only names fs

unfoldable pub decision_of : Fields → Result ActionDecision
decision_of fs = do
  action_id ← as_text (lookup_field "action_id" fs)
  status ← as_status (lookup_field "status" fs)
  reason ← as_text (lookup_field "reason" fs)
  matched_rule ← as_optional (lookup_field "matched_rule" fs)
  policy_version ← as_text (lookup_field "policy_version" fs)
  required_role ← as_optional (lookup_field "required_role" fs)
  if only
        ("action_id" ∷ "status" ∷ "reason" ∷ "matched_rule" ∷ "policy_version" ∷ "required_role"
          ∷ [])
        fs
      then ok (record {
        action_id = action_id;
        status = status;
        reason = reason;
        matched_rule = matched_rule;
        policy_version = policy_version;
        required_role = required_role;
      })
      else err (value_error "extra field")

unfoldable pub proposal_of : Fields → Result ActionProposal
proposal_of fs = do
  action_type ← as_action_type (lookup_field "action_type" fs)
  target_entity ← as_text (lookup_field "target_entity" fs)
  parameters ← as_object (lookup_field "parameters" fs)
  reason ← as_text (lookup_field "reason" fs)
  evidence_refs ← as_texts (lookup_field "evidence_refs" fs)
  idempotency_key ← as_text (lookup_field "idempotency_key" fs)
  expected_state_version ← as_natural (lookup_field "expected_state_version" fs)
  expected_attributes ← as_object (lookup_field "expected_attributes" fs)
  if only
        ("action_type" ∷ "target_entity" ∷ "parameters" ∷ "reason" ∷ "evidence_refs"
          ∷ "idempotency_key" ∷ "expected_state_version" ∷ "expected_attributes" ∷ [])
        fs
      then validate_proposal (record {
        action_type = action_type;
        target_entity = target_entity;
        parameters = parameters;
        reason = reason;
        evidence_refs = evidence_refs;
        idempotency_key = idempotency_key;
        expected_state_version = expected_state_version;
        expected_attributes = expected_attributes;
      })
      else err (value_error "extra field")

unfoldable pub receipt_of : Object → Result ExecutionReceipt
receipt_of payload = do
  let fs = fields_of payload
  action_id ← as_text (lookup_field "action_id" fs)
  status ← as_status (lookup_field "status" fs)
  provider ← as_text (lookup_field "provider" fs)
  provider_request_id ← as_text (lookup_field "provider_request_id" fs)
  idempotency_key ← as_text (lookup_field "idempotency_key" fs)
  if only ("action_id" ∷ "status" ∷ "provider" ∷ "provider_request_id" ∷ "idempotency_key" ∷ []) fs
      then ok (record {
        action_id = action_id;
        status = status;
        provider = provider;
        provider_request_id = provider_request_id;
        idempotency_key = idempotency_key;
      })
      else err (value_error "extra field")
