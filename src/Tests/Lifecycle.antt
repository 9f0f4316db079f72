-- ===== src/Tests/Lifecycle.antt =====
-- The action lifecycle at a concrete run.
use agents_reality_layer.Prelude.{
  string_eq, pair_eq, true, false, ◌≢◌, arith, ==_iff, ℕ, none, some, List, [], ◌∷◌, ◌≡◌, refl,
}
use agents_reality_layer.Dict
use mathlib.Core.Option
use agents_reality_layer.Dict.{get, put}
use agents_reality_layer.Json.{hash_json, canonicalize, insert_field, py_eq}
use agents_reality_layer.Errors.{ok}
use agents_reality_layer.Actions.Models.{
  ActionType-discrete, ActionStatus-discrete, ActionStatus, verified,
}
use agents_reality_layer.Actions.Policy.{evaluate_policy}
use agents_reality_layer.Actions.Audit.{validate_event_chain}
use agents_reality_layer.RealityGit.{check_from}
use agents_reality_layer.Actions.Service.{
  StoredAction, init, events_of, next_event, append_event, owned_action, set_status,
  check_preconditions,
}
use agents_reality_layer.Actions.Service.Lifecycle
use agents_reality_layer.Actions.Service.Lifecycle.{propose_new, transition, judge}
use agents_reality_layer.Actions.Service.Execute
use agents_reality_layer.Actions.Service.Execute.{ineligible, run_provider}
use agents_reality_layer.Actions.Calls.{Call, System, step, run}
use agents_reality_layer.Actions.Calls.Status.{AllFresh, run-final}
use agents_reality_layer.Actions.Calls.Chains.{run-validate}
use agents_reality_layer.Actions.Calls.Status.{StoredMoved, step-Moved}
use agents_reality_layer.Actions.Calls.Keys.{IsConsistent}
use agents_reality_layer.Actions.Calls.Keys.Run.{run-IsConsistent}
use agents_reality_layer.Actions.Calls.Tenants.{Untouched, step-Untouched}
use agents_reality_layer.Actions.Calls.Once.{propose_twice, propose_answers}
use agents_reality_layer.Actions.Calls.Receipts.{execute_once}
use agents_reality_layer.Actions.Calls.Replay.{Replayed, step-Replayed}
use agents_reality_layer.Actions.Calls
use agents_reality_layer.Actions.Models.{
  ActionDecision, ActionStatus, ExecutionReceipt, validate_proposal, contains_sensitive_key,
  any_sensitive_field, target_matches,
}
use agents_reality_layer.Actions.Service.Lifecycle.{propose}
use agents_reality_layer.Actions.Service.Execute.{execute}
use agents_reality_layer.Actions.Service.Restore.{holds_event}
use agents_reality_layer.Actions.Calls.Owned.{with_status}
use agents_reality_layer.Tests.Samples.{approval, order, noon}
use agents_reality_layer.Json.{str}
use agents_reality_layer.Errors.{Result, err}
use agents_reality_layer.Actions.Service.{ActionService}
use agents_reality_layer.Actions.Service.Lifecycle.{terminal_verification}
use agents_reality_layer.WorldState.Service
use agents_reality_layer.WorldState.Service.{project}
use agents_reality_layer.WorldState.Service.Commit.{create_commit, latest_hash}
use agents_reality_layer.WorldState.Service.Ingest.{ingest, merge, compile, contradicts}
use agents_reality_layer.Worker.Verifier.{
  Attempt, Worker, verify_action, verify_loop, attempt_round, ingest_verification_read,
}
use agents_reality_layer.Worker.Verifier.Ends.{verify_action-ends}
use agents_reality_layer.Prelude.Text.{lower_in, remove_prefix, after_first}
use agents_reality_layer.Tests.Samples.{py, proposal, context, fresh, provider, calls}

unfoldable pub program : Unit {0}
unfolding get put hash_json canonicalize insert_field py_eq ActionType-discrete
    ActionStatus-discrete evaluate_policy check_from next_event append_event owned_action set_status
    check_preconditions Lifecycle.propose propose_new transition Lifecycle.approve Lifecycle.reject
    judge Lifecycle.verify ineligible run_provider Execute.execute step run lower_in remove_prefix
program = tt

abbrev pub start : System ℕ
start = record { service = init; world = 0 }

ends_verified :
    Option.map
      (λ a. a.decision.status)
      (Dict.get (run py provider start calls).service.actions "act_a")
    ≡ some verified
unfolding program
ends_verified = refl

pub calls-AllFresh : AllFresh py provider start calls
unfolding program
calls-AllFresh = (refl, (tt, (tt, (tt, tt))))

run-validate_example :
    validate_event_chain py (events_of (run py provider start calls).service "act_a") ≡ ok tt
run-validate_example = run-validate py provider 0 calls "act_a" calls-AllFresh

-- the state after the proposal, and the action that it stored
abbrev proposed_system : System ℕ
proposed_system = step py provider start (Calls.propose proposal "operations" "demo" context fresh)

abbrev stored : StoredAction
stored = record {
  proposal = proposal;
  decision = evaluate_policy py "act_a" proposal "operations" context "mvp-1";
  proposer_role = "operations";
  tenant_id = "demo";
}

abbrev rejection : Call
rejection = Calls.reject "act_a" approval "demo" "e1"

stored_found : Dict.get proposed_system.service.actions "act_a" ≡ some stored
unfolding program
stored_found = refl

step-Moved_example :
    StoredMoved stored
      (Dict.get (step py provider proposed_system rejection).service.actions "act_a")
step-Moved_example = step-Moved py provider proposed_system rejection "act_a" tt stored_found

-- a rejected action, and calls that would go on with it
abbrev rejected_system : System ℕ
rejected_system = step py provider proposed_system rejection

abbrev rejected_action : StoredAction
rejected_action = with_status stored ActionStatus.rejected "fine"

abbrev late : List Call
late =
    Calls.approve "act_a" approval "operations" "demo" (some (order "open")) "e4"
    ∷ Calls.execute "act_a" "demo" (some (order "open")) "e5"
    ∷ []

rejected_found : Dict.get rejected_system.service.actions "act_a" ≡ some rejected_action
unfolding program
rejected_found = refl

run-final_example :
    Dict.get (run py provider rejected_system late).service.actions "act_a" ≡ some rejected_action
run-final_example =
    run-final py provider rejected_system late "act_a" (tt, (tt, tt)) rejected_found refl

foreign : stored.tenant_id ≢ "other"
foreign = ground (arith, ==_iff stored.tenant_id "other")

step-Untouched_example :
    Untouched proposed_system.service
      (step py provider proposed_system (Calls.reject "act_a" approval "other" "e1")).service
      "act_a"
      stored
step-Untouched_example =
    step-Untouched py provider proposed_system (Calls.reject "act_a" approval "other" "e1") "act_a"
      tt stored_found foreign

run-IsConsistent_example : IsConsistent (run py provider start calls).service
run-IsConsistent_example = run-IsConsistent py provider 0 calls calls-AllFresh

init-IsConsistent : IsConsistent (run py provider start []).service
init-IsConsistent = run-IsConsistent py provider 0 [] tt

start-IsConsistent : IsConsistent init
unfolding program
start-IsConsistent = init-IsConsistent

propose_twice_example :
    propose py
      (propose py init proposal "operations" "demo" context fresh).1
      proposal
      "finance"
      "demo"
      context
      (record { action_hex = "b"; event_hex = "e9" })
    ≡ propose py init proposal "operations" "demo" context fresh
propose_twice_example =
    propose_twice py init "demo" "operations" "finance" context context fresh
      (record { action_hex = "b"; event_hex = "e9" }) proposal proposal start-IsConsistent refl

propose_answers_example :
    (d : ActionDecision) × ((propose py init proposal "operations" "demo" context fresh).0 ≡ ok d)
propose_answers_example =
    propose_answers py init proposal "operations" "demo" context fresh start-IsConsistent

-- the state after the approval, in which the action may be executed
abbrev approved_system : System ℕ
approved_system =
    step py provider proposed_system
      (Calls.approve "act_a" approval "operations" "demo" (some (order "open")) "e1")

abbrev receipt : ExecutionReceipt
receipt = record {
  action_id = "act_a";
  status = ActionStatus.provider_accepted;
  provider = "shopify";
  provider_request_id = "r";
  idempotency_key = "key-0001";
}

executed :
    (execute py approved_system.service "act_a" "demo" provider
      (some (order "open"))
      "e2"
      approved_system.world).0
    ≡ ok receipt
unfolding program
executed = refl

-- calls after the execution: a verification that is not final, and another proposal
abbrev later : List Call
later =
    Calls.verify "act_a" "demo" none false "e3"
    ∷ Calls.propose (record proposal { idempotency_key = "key-0002" }) "operations" "demo" context
        (record { action_hex = "b"; event_hex = "e4" })
    ∷ []

abbrev execution : Call
execution = Calls.execute "act_a" "demo" (some (order "open")) "e2"

later-AllFresh : AllFresh py provider (step py provider approved_system execution) later
unfolding program
later-AllFresh = (tt, (refl, tt))

abbrev later_system : System ℕ
later_system = run py provider (step py provider approved_system execution) later

execute_once_example :
    execute py later_system.service "act_a" "demo" provider none "e5" later_system.world
    ≡ (ok receipt, later_system.service, later_system.world)
execute_once_example =
    execute_once py provider approved_system "act_a" "demo" (some (order "open")) none "e2" "e5"
      provider later receipt executed later-AllFresh

-- a replica that has restored nothing yet
unknown_event : holds_event init "evt_e0" ≡ false
unfolding program holds_event
unknown_event = refl

accepted_by_model : validate_proposal proposal ≡ ok proposal
unfolding program validate_proposal contains_sensitive_key any_sensitive_field target_matches
    after_first
accepted_by_model = refl

step-Replayed_example :
    Replayed py init "act_a" init proposed_system.service (Dict.get init.actions "act_a") stored
step-Replayed_example =
    step-Replayed py provider start (Calls.propose proposal "operations" "demo" context fresh)
      "act_a" init (calls-AllFresh.0) unknown_event refl stored_found accepted_by_model

-- the worker reads the cancelled order back after the provider has accepted
abbrev accepted_service : ActionService
accepted_service =
    (execute py approved_system.service "act_a" "demo" provider (some (order "open")) "e2" 0).1

abbrev pub attempts : ℕ → Attempt
attempts n = record {
  read = λ i. ok (record {
    observation_id = "obs_1";
    connector = "shopify";
    object_type = "order";
    object_id = i;
    observed_at = noon;
    payload = ("status", str "cancelled") ∷ [];
  });
  read_hex = "r1";
  fresh = record { now = noon; commit_hex = "c1"; conflict_hex = λ s. s; detected_at = λ s. noon };
  out_of_time = false;
  event_hex = "e3";
}

abbrev pub worker : Worker
worker = record { actions = accepted_service; world_state = Service.init }

abbrev decision_or : ActionDecision → Result ActionDecision → ActionDecision
decision_or d (ok d') = d'
decision_or d (err e) = d

abbrev pub final_decision : ActionDecision
final_decision = decision_or stored.decision (verify_action py worker "demo" "act_a" 3 attempts).0

verification_answers : (verify_action py worker "demo" "act_a" 3 attempts).0 ≡ ok final_decision
unfolding program verify_action verify_loop attempt_round ingest_verification_read ingest merge
    compile project create_commit latest_hash contradicts
verification_answers = refl

verify_action-ends_example : terminal_verification final_decision.status ≡ true
verify_action-ends_example =
    verify_action-ends py worker "demo" "act_a" 3 attempts verification_answers
