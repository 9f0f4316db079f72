-- ===== src/Actions/Events/Roundtrip.antt =====
-- What an event carries of a proposal and its decision reads back as they were.
use agents_reality_layer.Prelude.{
  nat_eq, string_eq, String, Option, none, some, List, [], ◌∷◌, map, ◌≡◌, refl,
}
use agents_reality_layer.Dict
use agents_reality_layer.Json.{str, Object, fields_of, items_of}
use agents_reality_layer.Errors.{ok}
use agents_reality_layer.Actions.Models.{
  ActionType, cancel_order, hold_order, update_shipping_address, ActionStatus, proposed,
  approval_required, approved, rejected, denied, precondition_failed, provider_accepted,
  verification_pending, verified, verification_failed, state_diverged, status_value, ActionProposal,
  ActionDecision, validate_proposal,
}
use agents_reality_layer.Actions.Events.{
  ActionEventRecord, optional, action_type_value, dump_decision, dump_proposal, as_status,
  as_action_type, as_optional, object_of, texts_of, decision_of, proposal_of,
}
use agents_reality_layer.Actions.Service.Restore.{evaluated}

pub texts_of-items_of : (xs : List String) → texts_of (items_of (map str xs)) ≡ ok xs
texts_of-items_of [] = refl
texts_of-items_of (x ∷ xs) = rw (texts_of-items_of xs) refl

pub as_optional-optional : (o : Option String) → as_optional (some (optional o)) ≡ ok o
as_optional-optional none = refl
as_optional-optional (some s) = refl

object_of-fields_of : (o : Object) → object_of (fields_of o) ≡ o
object_of-fields_of [] = refl
object_of-fields_of ((k, v) ∷ o) = rw (object_of-fields_of o) refl

as_status-status_value : (st : ActionStatus) → as_status (some (str (status_value st))) ≡ ok st
as_status-status_value proposed = refl
as_status-status_value approval_required = refl
as_status-status_value approved = refl
as_status-status_value rejected = refl
as_status-status_value denied = refl
as_status-status_value precondition_failed = refl
as_status-status_value provider_accepted = refl
as_status-status_value verification_pending = refl
as_status-status_value verified = refl
as_status-status_value verification_failed = refl
as_status-status_value state_diverged = refl

as_action_type-action_type_value :
    (t : ActionType) → as_action_type (some (str (action_type_value t))) ≡ ok t
as_action_type-action_type_value cancel_order = refl
as_action_type-action_type_value hold_order = refl
as_action_type-action_type_value update_shipping_address = refl

-- the branch of a restored proposal reads the event of a proposal that the model accepts
pub evaluated_dumped :
    (e : ActionEventRecord) (p : ActionProposal) (d : ActionDecision)
    → e.payload ≡ ("decision", dump_decision d) ∷ ("proposal", dump_proposal p) ∷ []
    → validate_proposal p ≡ ok p
    → evaluated e ≡ ok (p, d)
unfolding proposal_of decision_of Dict.get
evaluated_dumped e p d h valid =
    rw
      (
        h,
        as_action_type-action_type_value p.action_type,
        object_of-fields_of p.parameters,
        texts_of-items_of p.evidence_refs,
        object_of-fields_of p.expected_attributes,
        valid,
        as_status-status_value d.status,
        as_optional-optional d.matched_rule,
        as_optional-optional d.required_role,
      )
      refl
