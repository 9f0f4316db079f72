-- ===== src/Actions/Calls.antt =====
-- The public methods of `ActionService` that change its state, as the calls of one machine, and
-- what a call may do to the state.
pub mod Provided
pub mod Effects
pub mod Owned
pub mod Status
pub mod Chains
pub mod Keys
pub mod Tenants
pub mod Once
pub mod Receipts
pub mod Created
pub mod Changed
pub mod Replay
use Prim.Native.String.{◌++◌ as append}
use agents_reality_layer.Prelude.{
  string_eq, pair_eq, String, Bool, true, Option, none, some, List, [], ◌∷◌, ◌≡◌,
}
use agents_reality_layer.Dict
use agents_reality_layer.Json.{Platform, str, Object}
use agents_reality_layer.Errors.{Result, ok}
use agents_reality_layer.WorldState.Models.{OrderState}
use agents_reality_layer.Actions.Models.{
  ActionStatus, approval_required, approved, rejected, denied, precondition_failed,
  provider_accepted, verification_pending, verified, verification_failed, state_diverged,
  ActionProposal, ApprovalRequest, ExecutionReceipt,
}
use agents_reality_layer.Actions.Policy.{Context}
use agents_reality_layer.Actions.Events.{dump_receipt}
use agents_reality_layer.Actions.Service.{
  StoredAction, ActionService, append_event, owned_action, set_status,
}
use agents_reality_layer.Actions.Service.Lifecycle
use agents_reality_layer.Actions.Service.Lifecycle.{Fresh, verifiable, propose_new}
use agents_reality_layer.Actions.Service.Execute
use agents_reality_layer.Actions.Service.Restore.{status_of_event}

pub data Call : Type 0 where
  propose : ActionProposal → String → String → Context → Fresh → Call
  approve : String → ApprovalRequest → String → String → Option OrderState → String → Call
  reject : String → ApprovalRequest → String → String → Call
  verify : String → String → Option OrderState → Bool → String → Call
  execute : String → String → Option OrderState → String → Call

-- The service and the world that the provider changes.
pub record System (W : Type 0) : Type 0 where
  pub service : ActionService
  pub world : W

-- `CancelOrderExecutor`: the action, the order and the idempotency key
abbrev pub Provider : Type 0 → Type 0
Provider W = String → String → String → W → Result ExecutionReceipt × W

module _ {W : Type 0} (py : Platform) (provider : Provider W) where
  unfoldable pub step : System W → Call → System W
  step t (propose proposal role tenant_id context fresh) = record t {
    service = (Lifecycle.propose py t.service proposal role tenant_id context fresh).1;
  }
  step t (approve action_id approval role tenant_id current_state hex) = record t {
    service =
        (Lifecycle.approve py t.service action_id approval role tenant_id current_state hex).1;
  }
  step t (reject action_id rejection tenant_id hex) = record t {
    service = (Lifecycle.reject py t.service action_id rejection tenant_id hex).1;
  }
  step t (verify action_id tenant_id state is_final hex) = record t {
    service = (Lifecycle.verify py t.service action_id tenant_id state is_final hex).1;
  }
  step t (execute action_id tenant_id current_state hex) =
      let (_, service, world) =
        Execute.execute py t.service action_id tenant_id provider current_state hex t.world in
      record { service = service; world = world }

  unfoldable pub run : System W → List Call → System W
  run t [] = t
  run t (c ∷ calls) = run (step t c) calls

-- `uuid4` does not repeat the id of an action that is stored.
abbrev pub IsFresh : ActionService → Call → Type 0
IsFresh s (propose _ _ _ _ fresh) = Dict.get s.actions (append "act_" fresh.action_hex) ≡ none
IsFresh s _ = Unit

abbrev pub tenant_of : Call → String
tenant_of (propose _ _ tenant_id _ _) = tenant_id
tenant_of (approve _ _ _ tenant_id _ _) = tenant_id
tenant_of (reject _ _ tenant_id _) = tenant_id
tenant_of (verify _ tenant_id _ _ _) = tenant_id
tenant_of (execute _ tenant_id _ _) = tenant_id

-- what `uuid4` gives for the event of a call
abbrev pub hex_of : Call → String
hex_of (propose _ _ _ _ fresh) = fresh.event_hex
hex_of (approve _ _ _ _ _ hex) = hex
hex_of (reject _ _ _ hex) = hex
hex_of (verify _ _ _ _ hex) = hex
hex_of (execute _ _ _ hex) = hex

-- The moves of one action that the service makes by itself.
pub data Turn : ActionStatus → ActionStatus → Type 0 where
  approve : Turn approval_required approved
  deny : Turn approval_required denied
  fail_precondition : Turn approval_required precondition_failed
  reject : Turn approval_required rejected
  confirm : {a : ActionStatus} → verifiable a ≡ true → Turn a verified
  postpone : {a : ActionStatus} → verifiable a ≡ true → Turn a verification_pending
  time_out : {a : ActionStatus} → verifiable a ≡ true → Turn a verification_failed
  diverge : {a : ActionStatus} → verifiable a ≡ true → Turn a state_diverged

-- The lifecycle of one action: these, and the acceptance by the provider.
pub data Edge : ActionStatus → ActionStatus → Type 0 where
  turn : {a b : ActionStatus} → Turn a b → Edge a b
  accept : Edge approved provider_accepted

-- What one call may do: nothing, one move along an edge with its event, an accepted write with its
-- receipt where there was none, the note of a refused execution, or one new action; all for one tenant,
-- with one value of `uuid4` for the event.
pub data Effect (py : Platform) (s : ActionService) (tenant_id hex : String)
    : ActionService → Type 0 where
  same : Effect py s tenant_id hex s
  moved :
      (action_id : String) (action : StoredAction) (status : ActionStatus)
      (reason event_type role : String) (payload : Object)
      → owned_action s action_id tenant_id ≡ ok action
      → Turn action.decision.status status
      → status_of_event event_type ≡ some status
      → Effect py s tenant_id hex (
          append_event py
            (set_status s action_id action status reason)
            tenant_id
            action_id
            event_type
            role
            payload
            hex)
  accepted :
      (action_id : String) (action : StoredAction) (receipt : ExecutionReceipt)
      → owned_action s action_id tenant_id ≡ ok action
      → action.decision.status ≡ approved
      → Dict.get s.executions (tenant_id, action.proposal.idempotency_key) ≡ none
      → Effect py s tenant_id hex (
          append_event py
            (record (set_status s action_id action provider_accepted "Provider accepted write.") {
              executions =
                  Dict.put s.executions (tenant_id, action.proposal.idempotency_key) receipt;
            })
            tenant_id
            action_id
            "provider_accepted"
            "system"
            (dump_receipt receipt)
            hex)
  noted :
      (action_id : String) (action : StoredAction) (payload : Object)
      → owned_action s action_id tenant_id ≡ ok action
      → action.decision.status ≡ approved
      → Effect py s tenant_id hex
          (append_event py s tenant_id action_id "precondition_failed" "system" payload hex)
  created :
      (proposal : ActionProposal) (role : String) (context : Context) (fresh : Fresh)
      → Dict.get s.actions (append "act_" fresh.action_hex) ≡ none
      → Dict.get s.idempotency (tenant_id, proposal.idempotency_key) ≡ none
      → fresh.event_hex ≡ hex
      → Effect py s tenant_id hex (propose_new py s proposal role tenant_id context fresh).1
