-- ===== src/Actions/Proof.antt =====
-- `ActionService.proof` of src/reality_layer/actions/service.py: the evidence of one action, read from its
-- events.
pub mod Assured
use Prim.Native.String.{◌++◌ as append}
use agents_reality_layer.Prelude.{
  string_eq, pair_eq, ℕ, String, Bool, true, false, not, Option, none, some, List, [], ◌∷◌, ◌++◌,
  map, filter, any, length, get_last?, ◌==◌, ◌≡◌, ◌↔◌, refl, sym, ap, subst, ◌∙◌, ==_iff, inl, inr,
  Bool-cases, if◌then◌else◌,
}
use agents_reality_layer.Dict
use agents_reality_layer.Json.{
  Platform, Value, Fields, str, obj, end, field, Object, fields_of, lookup_field, py_str, hash_json,
}
use agents_reality_layer.Errors.{
  Result, ok, err, key_error, Result-cases, OkAll, OkAll-ok, OkAll->>=, ◌>>=◌,
}
use agents_reality_layer.Actions.Models.{
  ActionStatus, verified, status_value, status_eq, ActionProposal,
}
use agents_reality_layer.Actions.Events.{
  ActionEventRecord, action_type_value, as_status, as_text, as_optional,
}
use agents_reality_layer.Actions.Audit.{validate_event_chain}
use agents_reality_layer.Actions.Calls.{Call, Provider, run}
use agents_reality_layer.Actions.Calls.Status.{AllFresh}
use agents_reality_layer.Actions.Calls.Chains.{run-validate}
use agents_reality_layer.Actions.Service.{
  StoredAction, ActionService, init, owned_action, events_of,
}
use agents_reality_layer.WorldState.Models.{CommitRecord}

pub record ActorIdentity : Type 0 where
  pub role : String
  pub reason : Option String
  pub event_id : String
  pub event_hash : String

pub record PolicyEvidence : Type 0 where
  pub status : ActionStatus
  pub matched_rule : Option String
  pub reason : String
  pub policy_version : String
  pub required_role : Option String

pub record ProviderEvidence : Type 0 where
  pub provider : String
  pub provider_request_id : String
  pub request_fingerprint : String
  pub idempotency_key : String
  pub accepted_status : String

pub record VerificationEvidence : Type 0 where
  pub result : ActionStatus
  pub reason : String
  pub observed_status : Option String
  pub attempts : ℕ
  pub verification_commit_id : Option String

pub record ProjectionDelta : Type 0 where
  pub commit_id : String
  pub commit_hash : String
  pub previous_hash : Option String
  pub before : Object
  pub after : Object
  pub semantic_diff : Object

pub record HashChainLink : Type 0 where
  pub event_id : String
  pub event_type : String
  pub previous_event_hash : Option String
  pub event_hash : String

pub record ProofBundle : Type 0 where
  pub action_id : String
  pub tenant_id : String
  pub status : ActionStatus
  pub assurance_level : String
  pub proposal : ActionProposal
  pub proposer : Option ActorIdentity
  pub approver : Option ActorIdentity
  pub policy : Option PolicyEvidence
  pub idempotency_key : String
  pub provider : Option ProviderEvidence
  pub verification : Option VerificationEvidence
  pub projection : Option ProjectionDelta
  pub hash_chain : List HashChainLink
  pub warnings : List String
  pub events : List ActionEventRecord
  pub verification_commit_id : Option String

-- `latest_by_type.get(event_type)`
abbrev pub latest_of : String → List ActionEventRecord → Option ActionEventRecord
latest_of event_type events = get_last? (filter (λ e. e.event_type == event_type) events)

-- `value if isinstance(value, str) else None`
abbrev pub text_or_none : Option Value → Option String
text_or_none (some (str s)) = some s
text_or_none _ = none

-- `str(payload.get(name, default))`
abbrev pub text_or : Platform → Object → String → String → String
text_or py payload name default = elim (Dict.get payload name) [
  | none ↦ default
  | some v ↦ py_str py v
]

abbrev pub or_event : Option ActionEventRecord → Option ActionEventRecord → Option ActionEventRecord
or_event none e = e
or_event (some e) _ = some e

-- `_actor_from`
abbrev pub actor_from : Option ActionEventRecord → Option ActorIdentity
actor_from none = none
actor_from (some e) = some (record {
  role = e.actor_role;
  reason = text_or_none (Dict.get e.payload "reason");
  event_id = e.event_id;
  event_hash = e.event_hash;
})

-- `decision[name]`
abbrev pub item_of : String → Fields → Result Value
item_of name fs = elim (lookup_field name fs) [ none ↦ err (key_error name) | some v ↦ ok v ]

abbrev pub policy_of : Fields → Result (Option PolicyEvidence)
policy_of fs = do
  status_item ← item_of "status" fs
  status ← as_status (some status_item)
  reason_item ← item_of "reason" fs
  version_item ← item_of "policy_version" fs
  matched_rule ← as_optional (lookup_field "matched_rule" fs)
  reason ← as_text (some reason_item)
  policy_version ← as_text (some version_item)
  required_role ← as_optional (lookup_field "required_role" fs)
  ok (
      some (record {
        status = status;
        matched_rule = matched_rule;
        reason = reason;
        policy_version = policy_version;
        required_role = required_role;
      }))

-- `_policy_evidence`
abbrev pub policy_evidence : Option ActionEventRecord → Result (Option PolicyEvidence)
policy_evidence none = ok none
policy_evidence (some e) = elim (Dict.get e.payload "decision") [
  | some (obj fs) ↦ policy_of fs
  | _ ↦ ok none
]

-- `_provider_evidence`
abbrev pub provider_evidence :
    Platform → ActionProposal → Option ActionEventRecord → Option ProviderEvidence
provider_evidence py proposal none = none
provider_evidence py proposal (some e) = some (record {
  provider = text_or py e.payload "provider" "";
  provider_request_id = text_or py e.payload "provider_request_id" "";
  request_fingerprint = hash_json py (
      obj (
        field "action_type" (str (action_type_value proposal.action_type)) (
          field "target_entity" (str proposal.target_entity) (
            field "idempotency_key" (str proposal.idempotency_key)
              (field "parameters" (obj (fields_of proposal.parameters)) end)))));
  idempotency_key = proposal.idempotency_key;
  accepted_status = text_or py e.payload "status" "";
})

abbrev pub is_verification : ActionEventRecord → Bool
is_verification e =
    any (λ x. x == e.event_type)
      ("verified" ∷ "verification_failed" ∷ "state_diverged" ∷ "verification_pending" ∷ [])

-- the last attempt that ended the verification, or else the last attempt
abbrev pub last_attempt : List ActionEventRecord → Option ActionEventRecord
last_attempt attempts =
    or_event (get_last? (filter (λ e. not (e.event_type == "verification_pending")) attempts))
      (get_last? attempts)

-- `_verification_evidence`
abbrev pub verification_evidence :
    Platform → List ActionEventRecord → Result (Option VerificationEvidence)
verification_evidence py events =
    let attempts = filter is_verification events in
    elim (last_attempt attempts) [
      | none ↦ ok none
      | some last ↦ do
        result ← as_status (some (str last.event_type))
        ok (
            some (record {
              result = result;
              reason = text_or py last.payload "reason" "";
              observed_status = text_or_none (Dict.get last.payload "observed_status");
              attempts = length attempts;
              verification_commit_id = text_or_none (Dict.get last.payload "commit_id");
            }))
    ]

abbrev pub projection_of : Option CommitRecord → Option ProjectionDelta
projection_of none = none
projection_of (some c) = some (record {
  commit_id = c.commit_id;
  commit_hash = c.hash;
  previous_hash = c.previous_hash;
  before = c.before;
  after = c.after;
  semantic_diff = c.semantic_diff;
})

-- how far the action is assured
abbrev pub assurance : ActionStatus → Option ProviderEvidence → String
assurance status provider =
    if status == verified
    then "verified"
    else elim provider [ none ↦ "observed" | some _ ↦ "accepted" ]

abbrev pub same_role : Option ActorIdentity → Option ActorIdentity → List String
same_role (some proposer) (some approver) =
    if proposer.role == approver.role
    then append "Same role (" (
        append proposer.role
          ") proposed and approved this action (demo-mode separation-of-duties exception).")
      ∷ []
    else []
same_role _ _ = []

abbrev pub not_verified : ActionStatus → List String
not_verified status =
    if status == verified
    then []
    else append "Action did not reach 'verified'; current status is '"
        (append (status_value status) "'.")
      ∷ []

abbrev pub failed_precondition : Platform → Option ActionEventRecord → List String
failed_precondition py none = []
failed_precondition py (some e) =
    append "A precondition failed at " (
      append (text_or py e.payload "stage" "lifecycle")
        (append ": " (text_or py e.payload "reason" "unspecified")))
    ∷ []

abbrev pub chain_link : ActionEventRecord → HashChainLink
chain_link e = record {
  event_id = e.event_id;
  event_type = e.event_type;
  previous_event_hash = e.previous_event_hash;
  event_hash = e.event_hash;
}

abbrev pub commit_verified : Option VerificationEvidence → Option String
commit_verified none = none
commit_verified (some v) = v.verification_commit_id

-- the document, of the evidence that may fail to be read
abbrev pub bundle :
    Platform
    → ActionService
    → String
    → String
    → Option CommitRecord
    → StoredAction
    → Option PolicyEvidence
    → Option VerificationEvidence
    → ProofBundle
bundle py s action_id tenant_id commit action policy verification =
    let events = events_of s action_id in
    let proposer = actor_from (latest_of "policy_evaluated" events) in
    let approver =
      actor_from (or_event (latest_of "approved" events) (latest_of "rejected" events)) in
    let provider = provider_evidence py action.proposal (latest_of "provider_accepted" events) in
    let status = action.decision.status in
    record {
      action_id = action_id;
      tenant_id = tenant_id;
      status = status;
      assurance_level = assurance status provider;
      proposal = action.proposal;
      proposer = proposer;
      approver = approver;
      policy = policy;
      idempotency_key = action.proposal.idempotency_key;
      provider = provider;
      verification = verification;
      projection = projection_of commit;
      hash_chain = map chain_link events;
      warnings =
          same_role proposer approver
          ++ not_verified status
          ++ failed_precondition py (latest_of "precondition_failed" events);
      events = events;
      verification_commit_id = commit_verified verification;
    }

-- `proof`
unfoldable pub proof :
    Platform → ActionService → String → String → Option CommitRecord → Result ProofBundle
unfolding owned_action
proof py s action_id tenant_id commit = do
  action ← owned_action s action_id tenant_id
  policy ← policy_evidence (latest_of "policy_evaluated" (events_of s action_id))
  verification ← verification_evidence py (events_of s action_id)
  ok (bundle py s action_id tenant_id commit action policy verification)
