-- ===== src/Tests/Api.antt =====
-- The handlers of the API on small states: a cancellation, a rejection that is stored, and a verification
-- that judges what was read before.
use agents_reality_layer.Prelude.{
  string_eq, pair_eq, triple_eq, nat_eq, String, Bool, true, false, none, some, List, [], ◌∷◌, ◌≡◌,
  refl,
}
use agents_reality_layer.Dict
use agents_reality_layer.Json.{str}
use agents_reality_layer.Errors.{ok, err, key_error}
use agents_reality_layer.Actions.Events.{ActionEventRecord}
use agents_reality_layer.Actions.Service.Restore.{restore, holds_event}
use agents_reality_layer.WorldState.Service.Commit.{latest_hash}
use agents_reality_layer.Actions.Models.{
  ActionStatus, approved, approval_required, provider_accepted, state_diverged,
}
use agents_reality_layer.Actions.Persistence.{persist_event, events_for_tenant}
use agents_reality_layer.Actions.Service.{StoredAction, ActionService}
use agents_reality_layer.Actions.Service
use agents_reality_layer.Actions.Service.Lifecycle
use agents_reality_layer.Actions.Service.Lifecycle.{get_proposal, events}
use agents_reality_layer.Api.{App, Answer, Outside, answer, not_found_or_conflict, may_operate}
use agents_reality_layer.Api.State.{
  restore_actions, restore_events, persist_action_events, resolve_order_state,
}
use agents_reality_layer.Api.World.{set_workspace_mode}
use agents_reality_layer.Api.Conflicts.{resolve_conflict}
use agents_reality_layer.Api.Execution.{execute_action, execute_proposal, verify_action}
use agents_reality_layer.Api.ActionReads.{restored_or}
use agents_reality_layer.Api.Actions.{reject_action}
use agents_reality_layer.Api.Cancels.{
  is_cancelled, order_of, Licensed, Permitted, execute_action_cancels,
}
use agents_reality_layer.Actions.Models.{ActionDecision}
use agents_reality_layer.Actions.Policy.{evaluate_policy}
use agents_reality_layer.Api.Actions.{propose_action}
use agents_reality_layer.Api.State.{order_value_for, has_conflict_for}
use agents_reality_layer.Prelude.Text.{partition_colon}
use agents_reality_layer.Workspaces.{policy}
use agents_reality_layer.WorldState.Persistence.Store.{has_open_conflict_for_entity}
use agents_reality_layer.Api.Proposed.{propose_action-AllStored}
use agents_reality_layer.Tests.Samples.{fresh}
use agents_reality_layer.Api.Roles.{Guarded, operators_only}
use agents_reality_layer.Api.Stored.{handle, rejecting, AllStored, handle-AllStored}
use agents_reality_layer.Connectors.{
  normalize_shopify, required_string, observed_at, read_order, cancel_order,
}
use agents_reality_layer.Connectors.Readback.{reported}
use agents_reality_layer.Database.{demo_proposal}
use agents_reality_layer.Database.Laws.{list_sql, list_sql-IsSql}
use agents_reality_layer.WorldState.Service.{init}
use agents_reality_layer.WorldState.Service.Queries
use agents_reality_layer.Tests.Lifecycle.{program}
use agents_reality_layer.Tests.Orders.{library}
use agents_reality_layer.Tests.Samples.{py, noon, order, proposal, approval}
use agents_reality_layer.Tests.Stored.{empty, no_float, read_noon}
use agents_reality_layer.Tests.World.{chance}

abbrev out : Outside
out = record {
  py = py;
  library = library;
  to_float = no_float;
  read_time = read_noon;
  model_dump_json = λ o. "{}";
  put_raw_payload =
      λ t payload kind. ok (record { ref = "local://7"; payload_hash = "0"; size_bytes = 2 });
}

abbrev stored : ActionStatus → StoredAction
stored status = record {
  proposal = proposal;
  decision = record {
    action_id = "act_a";
    status = status;
    reason = "because";
    matched_rule = none;
    policy_version = "mvp-1";
    required_role = some "operations";
  };
  proposer_role = "operations";
  tenant_id = "demo";
}

-- an application with one action, and the order that it is about
abbrev app_with : ActionStatus → Bool → List String → App list_sql
app_with status persistent cancelled = record {
  settings = record {
    persistence_enabled = persistent;
    workspace_mode = "demo_proposal";
    write_value_limit = none;
  };
  actions = record Service.init { actions = ("act_a", stored status) ∷ [] };
  world_state = record init {
    states = (("demo", "order", "7"), order "open") ∷ [];
    observations = (("demo", "obs_shopify_7"), reported library "7" "open") ∷ [];
  };
  shopify = cancelled;
  db = empty;
}

handlers : Unit {0}
unfolding program execute_action execute_proposal get_proposal resolve_order_state
    Queries.get_entity cancel_order restore_actions restore_events events_for_tenant handle
    reject_action verify_action persist_action_events events persist_event normalize_shopify
    required_string observed_at read_order
handlers = tt

order_cancelled :
    is_cancelled "7"
      (execute_action list_sql out (app_with approved false []) "act_a" "demo" "e2" "f0").1.shopify
    ≡ true
unfolding handlers
order_cancelled = refl

execute_action_cancels_example :
    (action : StoredAction) × Licensed list_sql out
      (restored_or list_sql out (app_with approved false []) "demo").1
      "act_a"
      "demo"
      action
    × (order_of action ≡ "7")
    × Permitted list_sql out (app_with approved false []) "demo"
execute_action_cancels_example =
    execute_action_cancels list_sql out (app_with approved false []) "act_a" "demo" "e2" "f0" "7"
      refl order_cancelled

rejection_answered :
    (handle list_sql out
      (app_with approval_required true [])
      "act_a"
      "demo"
      (rejecting approval "e1")).0
    ≡ true
unfolding handlers
rejection_answered = refl

handle-AllStored_example :
    AllStored list_sql list_sql-IsSql out
      (handle list_sql out
        (app_with approval_required true [])
        "act_a"
        "demo"
        (rejecting approval "e1")).1
      "act_a"
handle-AllStored_example =
    handle-AllStored list_sql list_sql-IsSql out (app_with approval_required true []) "act_a" "demo"
      (rejecting approval "e1") refl rejection_answered

-- no workspace is made for the tenant, so the proposal is denied
abbrev denial : ActionDecision
denial =
    evaluate_policy py "act_a" proposal "operations"
      (record {
        workspace_mode = "observe_only";
        order_value = none;
        value_limit = none;
        has_conflict = false;
      })
      "mvp-1"

denial_answered :
    (propose_action list_sql out
      (app_with approval_required true [])
      proposal
      "operations"
      "demo"
      fresh).0
    ≡ answer denial
unfolding handlers propose_action order_value_for has_conflict_for has_open_conflict_for_entity
    partition_colon policy
denial_answered = refl

propose_action-AllStored_example :
    AllStored list_sql list_sql-IsSql out
      (propose_action list_sql out
        (app_with approval_required true [])
        proposal
        "operations"
        "demo"
        fresh).1
      denial.action_id
propose_action-AllStored_example =
    propose_action-AllStored list_sql list_sql-IsSql out (app_with approval_required true [])
      proposal "operations" "demo" fresh refl denial_answered

operators_only_example :
    Guarded
      (app_with approved true [])
      (may_operate "observer")
      (set_workspace_mode list_sql out (app_with approved true []) demo_proposal "demo" "observer")
    × Guarded (app_with approved true []) (may_operate "observer") (
        resolve_conflict list_sql out
          (app_with approved true [])
          "cnf_1"
          (record { resolved_value = str "open"; reason = "phoned" })
          "demo"
          "observer"
          noon
          "3")
operators_only_example =
    operators_only list_sql out (app_with approved true []) demo_proposal "cnf_1"
      (record { resolved_value = str "open"; reason = "phoned" }) "demo" "observer" noon "3"

-- an application that has not read the order, with two actions of it
abbrev unread : App list_sql
unread = record (app_with provider_accepted false []) {
  actions = record Service.init {
    actions = ("act_a", stored provider_accepted) ∷ ("act_b", stored provider_accepted) ∷ [];
  };
  world_state = init;
}

-- the first verification reads the open order, and then the order is cancelled
abbrev first_verified : Answer ActionDecision × App list_sql
first_verified = verify_action list_sql out unread "act_a" "demo" (chance "4") "c0" "e3" noon

abbrev cancelled_since : App list_sql
cancelled_since = record first_verified.1 { shopify = "7" ∷ [] }

abbrev decision_of_first : ActionDecision
decision_of_first = record (stored state_diverged).decision {
  reason = "Verification read diverged from the expected cancelled state (observed ?).";
}

diverged :
    not_found_or_conflict py
      (Lifecycle.verify py
        (app_with provider_accepted false []).actions
        "act_a"
        "demo"
        (some (order "open"))
        true
        "e3").0
    ≡ answer (record (stored state_diverged).decision {
      reason = "Verification read diverged from the expected cancelled state (observed ?).";
    })
unfolding handlers
diverged = refl

-- a state that is taken over without the hash of its commit: no commit can follow
no_commit_follows :
    latest_hash (Queries.hydrate py init (order "open") none none) "demo" ≡ err (key_error "cmt_1")
unfolding handlers Queries.hydrate Queries.latest_after latest_hash Dict.put Dict.get
no_commit_follows = refl

-- an event that is restored before its action is dropped
abbrev approval_event : ActionEventRecord
approval_event = record {
  event_id = "evt_2";
  tenant_id = "demo";
  action_id = "act_a";
  event_type = "approved";
  actor_role = "operations";
  payload = ("reason", str "fine") ∷ [];
  previous_event_hash = some "0";
  event_hash = "1";
}

early_event_dropped : restore py Service.init approval_event ≡ (ok tt, Service.init)
unfolding handlers restore holds_event
early_event_dropped = refl
