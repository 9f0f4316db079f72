-- ===== src/Actions/Models.antt =====
-- src/reality_layer/actions/models.py: the records of the action lifecycle, and the checks that
-- pydantic makes when an `ActionProposal` is built.
use Prim.Native.String.{count}
use agents_reality_layer.Prelude.{
  nat_eq, string_eq, ℕ, String, Bool, true, false, not, ◌&&◌, ◌||◌, Option, none, some, List, [],
  ◌∷◌, leb, length, Eq, Eq_of_Discrete, if◌then◌else◌,
}
use agents_reality_layer.Prelude.Text.{lower_in, strip_prefix, after_first}
use agents_reality_layer.Json.{
  Value, Items, Fields, arr, obj, nil, cons, end, field, Object, fields_of,
}
use agents_reality_layer.Errors.{Result, ok, err, value_error}

pub data ActionType : Type 0 where
  cancel_order hold_order update_shipping_address : ActionType

pub data ActionStatus : Type 0 where
  proposed approval_required approved rejected denied precondition_failed : ActionStatus
  provider_accepted verification_pending verified verification_failed state_diverged : ActionStatus

unfoldable pub ActionType-discrete : Discrete ActionType
ActionType-discrete = hlevel

unfoldable pub ActionStatus-discrete : Discrete ActionStatus
ActionStatus-discrete = hlevel

instance abbrev pub action_type_eq : Eq ActionType
action_type_eq = Eq_of_Discrete ActionType-discrete

instance abbrev pub status_eq : Eq ActionStatus
status_eq = Eq_of_Discrete ActionStatus-discrete

-- The members of a `StrEnum` are their names.
abbrev pub status_value : ActionStatus → String
status_value proposed = "proposed"
status_value approval_required = "approval_required"
status_value approved = "approved"
status_value rejected = "rejected"
status_value denied = "denied"
status_value precondition_failed = "precondition_failed"
status_value provider_accepted = "provider_accepted"
status_value verification_pending = "verification_pending"
status_value verified = "verified"
status_value verification_failed = "verification_failed"
status_value state_diverged = "state_diverged"

pub record ExecutionReceipt : Type 0 where
  pub action_id : String
  pub status : ActionStatus
  pub provider : String
  pub provider_request_id : String
  pub idempotency_key : String

pub record ActionProposal : Type 0 where
  pub action_type : ActionType
  pub target_entity : String
  pub parameters : Object
  pub reason : String
  pub evidence_refs : List String
  pub idempotency_key : String
  pub expected_state_version : ℕ
  pub expected_attributes : Object

pub record ActionDecision : Type 0 where
  pub action_id : String
  pub status : ActionStatus
  pub reason : String
  pub matched_rule : Option String
  pub policy_version : String
  pub required_role : Option String

pub record ApprovalRequest : Type 0 where
  pub reason : String

-- The names that a credential may have.
abbrev pub sensitive_names : List String
sensitive_names =
    "access_token" ∷ "api_key" ∷ "authorization" ∷ "password" ∷ "secret" ∷ "token" ∷ []

unfoldable mutual
  pub contains_sensitive_key : Value → Bool
  contains_sensitive_key (obj fs) = any_sensitive_field fs
  contains_sensitive_key (arr xs) = any_sensitive_item xs
  contains_sensitive_key _ = false

  pub any_sensitive_item : Items → Bool
  any_sensitive_item nil = false
  any_sensitive_item (cons v vs) = contains_sensitive_key v || any_sensitive_item vs

  pub any_sensitive_field : Fields → Bool
  any_sensitive_field end = false
  any_sensitive_field (field k v fs) =
      lower_in k sensitive_names || contains_sensitive_key v || any_sensitive_field fs

-- `^order:[^:]+$`
unfoldable pub target_matches : String → Bool
target_matches s = elim (strip_prefix "order:" s) [
  | none ↦ false
  | some rest ↦ leb 1 (count rest) && elim (after_first b':' rest) [ none ↦ true | some _ ↦ false ]
]

-- The constraints of the fields, and the validator that runs after them.
unfoldable pub validate_proposal : ActionProposal → Result ActionProposal
validate_proposal p =
    if not (target_matches p.target_entity)
    then err (value_error "target_entity")
    else if not (leb 1 (count p.reason) && leb (count p.reason) 2000)
    then err (value_error "reason")
    else if not (leb (length p.evidence_refs) 50)
    then err (value_error "evidence_refs")
    else if not (leb 8 (count p.idempotency_key) && leb (count p.idempotency_key) 255)
    then err (value_error "idempotency_key")
    else if not (leb 1 p.expected_state_version)
    then err (value_error "expected_state_version")
    else if contains_sensitive_key (obj (fields_of p.parameters))
    then err (value_error "Action parameters cannot contain credential-like fields.")
    else ok p
