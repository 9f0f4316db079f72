-- ===== src/Actions/Calls/Owned.antt =====
-- What an action that is found shows, and which parts of the state the two writers leave alone.
use Prim.Native.String.{◌++◌ as append}
use agents_reality_layer.Prelude.{
  string_eq, String, none, some, ◌≡◌, refl, ◌==◌, ==_iff, arith, if◌then◌else◌,
}
use agents_reality_layer.Dict
use agents_reality_layer.Dict.Laws.{get-put}
use agents_reality_layer.Json.{Platform, Object}
use agents_reality_layer.Errors.{ok}
use agents_reality_layer.Actions.Models.{ActionStatus, ActionProposal}
use agents_reality_layer.Actions.Policy.{Context, evaluate_policy}
use agents_reality_layer.Actions.Service.Lifecycle.{Fresh, propose_new}
use agents_reality_layer.Actions.Service.{
  StoredAction, ActionService, owned_action, append_event, set_status,
}

module _ (s : ActionService) (action_id tenant_id : String) where
  pub owned_action_found :
      {a : StoredAction}
      → owned_action s action_id tenant_id ≡ ok a
      → (Dict.get s.actions action_id ≡ some a) × (a.tenant_id ≡ tenant_id)
  unfolding owned_action
  owned_action_found {a} h = ground (arith, ==_iff a.tenant_id tenant_id)

  pub owned_action_intro :
      {a : StoredAction}
      → Dict.get s.actions action_id ≡ some a
      → a.tenant_id ≡ tenant_id
      → owned_action s action_id tenant_id ≡ ok a
  unfolding owned_action
  owned_action_intro {a} h t = ground (arith, ==_iff a.tenant_id tenant_id)

-- the action that a change of the status leaves
abbrev pub with_status : StoredAction → ActionStatus → String → StoredAction
with_status a status reason = record a {
  decision = record a.decision { status = status; reason = reason };
}

pub get-set_status :
    (s : ActionService) (i : String) (a : StoredAction) (status : ActionStatus) (reason j : String)
    → Dict.get (set_status s i a status reason).actions j
      ≡ (if i == j then some (with_status a status reason) else Dict.get s.actions j)
unfolding set_status
get-set_status s i a status reason j = get-put s.actions i j (with_status a status reason)

module _ (py : Platform) (s : ActionService) (tenant_id action_id event_type role : String)
    (payload : Object) (hex : String) where
  pub actions-append_event :
      (append_event py s tenant_id action_id event_type role payload hex).actions ≡ s.actions
  unfolding append_event
  actions-append_event = refl

  pub executions-append_event :
      (append_event py s tenant_id action_id event_type role payload hex).executions ≡ s.executions
  unfolding append_event
  executions-append_event = refl

  pub idempotency-append_event :
      (append_event py s tenant_id action_id event_type role payload hex).idempotency
      ≡ s.idempotency
  unfolding append_event
  idempotency-append_event = refl

-- the action that `propose` stores under a new id
abbrev pub new_action : Platform → ActionProposal → String → String → Context → Fresh → StoredAction
new_action py proposal role tenant_id context fresh = record {
  proposal = proposal;
  decision = evaluate_policy py (append "act_" fresh.action_hex) proposal role context "mvp-1";
  proposer_role = role;
  tenant_id = tenant_id;
}

module _ (py : Platform) (s : ActionService) (proposal : ActionProposal) (role tenant_id : String)
    (context : Context) (fresh : Fresh) where
  pub get-propose_new :
      (j : String)
      → Dict.get (propose_new py s proposal role tenant_id context fresh).1.actions j ≡ (
          if append "act_" fresh.action_hex == j
          then some (new_action py proposal role tenant_id context fresh)
          else Dict.get s.actions j)
  unfolding propose_new append_event
  get-propose_new j =
      get-put s.actions (append "act_" fresh.action_hex) j
        (new_action py proposal role tenant_id context fresh)

  -- an action that was stored is stored as it was
  pub get-propose_new_ne :
      (j : String) {a : StoredAction}
      → Dict.get s.actions (append "act_" fresh.action_hex) ≡ none
      → Dict.get s.actions j ≡ some a
      → Dict.get (propose_new py s proposal role tenant_id context fresh).1.actions j ≡ some a
  get-propose_new_ne j new g =
      ground (arith, get-propose_new j, ==_iff (append "act_" fresh.action_hex) j)
