-- ===== src/Api/Actions.antt =====
-- The handlers of src/reality_layer/api/app.py for actions. What `uuid4` and the clocks give to a handler
-- are its last arguments.
use agents_reality_layer.Prelude.{string_eq, String, Option, none, some, if◌then◌else◌}
use agents_reality_layer.Prelude.Float.{Float}
use agents_reality_layer.Prelude.Text.{remove_prefix}
use agents_reality_layer.Errors.{Result, ok, err}
use agents_reality_layer.Actions.Models.{ActionProposal, ActionDecision, ApprovalRequest}
use agents_reality_layer.Actions.Service.{ActionService}
use agents_reality_layer.WorldState.Service.{WorldStateService}
use agents_reality_layer.Actions.Service.Lifecycle
use agents_reality_layer.Actions.Service.Lifecycle.{Fresh, get_proposal, get_decision}
use agents_reality_layer.Api.{App, AppSettings, Outside, Answer, failed, not_found, uncaught}
use agents_reality_layer.Api.State.{
  restore_actions, persist_action_events, resolve_order_state, order_value_for, has_conflict_for,
}
use agents_reality_layer.Api.World.{mode_value}
use agents_reality_layer.Database.{Sql, Db}
use agents_reality_layer.Workspaces.{policy}
use agents_reality_layer.WorldState.Models.{OrderState}

-- the workspace's limit, or else the setting
abbrev pub or_limit : Option Float → Option Float → Option Float
or_limit none limit = limit
or_limit (some limit) _ = some limit

module _ {sql : Sql} where
  -- a statement that may raise, and the rest of the handler
  abbrev pub and_then :
      {A B : Type 0} → Result A × App sql → (A → App sql → Result B × App sql) → Result B × App sql
  and_then (err e, app) rest = (err e, app)
  and_then (ok a, app) rest = rest a app

  -- the action service after one of its methods
  abbrev pub with_actions : {A : Type 0} → App sql → Result A × ActionService → Result A × App sql
  with_actions app (result, actions) = (result, record app { actions = actions })

  -- the world state after `ingest`
  abbrev pub with_world : {A : Type 0} → App sql → Result A × WorldStateService → Result A × App sql
  with_world app (result, world_state) = (result, record app { world_state = world_state })

  -- the application after `hydrate_persisted_state`
  abbrev pub hydrated :
      App sql → Result (Option OrderState × App sql) → Result (Option OrderState) × App sql
  hydrated app (err e) = (err e, app)
  hydrated app (ok (existing, app')) = (ok existing, app')

  -- a session that is closed without a commit
  abbrev pub rolled_back : {A : Type 0} → Db sql → Result A → App sql → App sql
  rolled_back before (ok _) app = app
  rolled_back before (err _) app = record app { db = before }

module _ (sql : Sql) (out : Outside) where
  -- the end of the handlers that write an action: its events are stored and committed
  abbrev pub commit_action :
      {A : Type 0} → String → String → Result A × App sql → Result A × App sql
  commit_action tenant_id action_id (err e, app) = (err e, app)
  commit_action tenant_id action_id (ok a, app) =
      elim (persist_action_events sql out app tenant_id action_id) [
        | err e ↦ (err e, app)
        | ok db ↦ (ok a, record app { db = db })
      ]

  -- a handler with persistence: the actions are restored, and what it writes is stored
  abbrev pub with_restored :
      {A : Type 0} → App sql → String → (App sql → Result A × App sql) → Result A × App sql
  with_restored app tenant_id body =
      if app.settings.persistence_enabled
      then and_then (restore_actions sql out app tenant_id) (λ _ app'. body app')
      else body app

  abbrev pub committed_if_persistent :
      {A : Type 0} → AppSettings → String → String → Result A × App sql → Result A × App sql
  committed_if_persistent settings tenant_id action_id r =
      if settings.persistence_enabled then commit_action tenant_id action_id r else r

  -- the mode and the limit that a proposal is judged by
  abbrev pub proposal_policy : App sql → String → Result (String × Option Float)
  proposal_policy app tenant_id =
      if app.settings.persistence_enabled
      then elim (policy sql out.to_float app.db tenant_id) [
        | err e ↦ err e
        | ok p ↦ ok (mode_value p.mode, or_limit p.value_limit app.settings.write_value_limit)
      ]
      else ok (app.settings.workspace_mode, app.settings.write_value_limit)

  -- `run` of `propose_action`
  abbrev pub run_proposal :
      ActionProposal
      → String
      → String
      → String × Option Float
      → Fresh
      → App sql
      → Result ActionDecision × App sql
  run_proposal proposal role tenant_id (workspace_mode, value_limit) fresh app =
      and_then (order_value_for sql out app tenant_id proposal.target_entity, app)
        (λ order_value app. with_actions app (
          Lifecycle.propose out.py app.actions proposal role tenant_id
            (record {
              workspace_mode = workspace_mode;
              order_value = order_value;
              value_limit = value_limit;
              has_conflict = has_conflict_for sql out app tenant_id proposal.target_entity;
            })
            fresh))

  abbrev pub commit_decision :
      AppSettings → String → Result ActionDecision × App sql → Result ActionDecision × App sql
  commit_decision settings tenant_id (err e, app) = (err e, app)
  commit_decision settings tenant_id (ok decision, app) =
      committed_if_persistent settings tenant_id decision.action_id (ok decision, app)

  -- `POST /v1/actions`
  unfoldable pub propose_action :
      App sql → ActionProposal → String → String → Fresh → Answer ActionDecision × App sql
  unfolding Lifecycle.propose
  propose_action app proposal role tenant_id fresh = elim (proposal_policy app tenant_id) [
    | err e ↦ (failed e, app)
    | ok limits ↦
        let (result, app') =
          commit_decision app.settings tenant_id
            (with_restored app tenant_id (run_proposal proposal role tenant_id limits fresh)) in
        (uncaught result, app')
  ]

  -- `approve_action_impl`
  abbrev pub approve_action_impl :
      String
      → ApprovalRequest
      → String
      → String
      → String
      → App sql
      → Result ActionDecision × App sql
  approve_action_impl action_id approval role tenant_id hex app =
      and_then (get_proposal app.actions action_id tenant_id, app)
        (λ proposal app.
          and_then
            (resolve_order_state sql out app tenant_id
              (remove_prefix "order:" proposal.target_entity))
            (λ current_state app'. with_actions app' (
              Lifecycle.approve out.py app'.actions action_id approval role tenant_id current_state
                hex)))

  -- `POST /v1/actions/{action_id}/approve`
  unfoldable pub approve_action :
      App sql
      → String
      → ApprovalRequest
      → String
      → String
      → String
      → Answer ActionDecision × App sql
  unfolding Lifecycle.approve
  approve_action app action_id approval role tenant_id hex =
      let (result, app') =
        committed_if_persistent app.settings tenant_id action_id (
          with_restored app tenant_id
            (approve_action_impl action_id approval role tenant_id hex)) in
      (not_found out.py result, app')

  -- `POST /v1/actions/{action_id}/reject`
  unfoldable pub reject_action :
      App sql → String → ApprovalRequest → String → String → Answer ActionDecision × App sql
  unfolding Lifecycle.reject
  reject_action app action_id rejection tenant_id hex =
      let (result, app') = committed_if_persistent app.settings tenant_id action_id (
        with_restored app tenant_id (λ a.
          with_actions a (Lifecycle.reject out.py a.actions action_id rejection tenant_id hex))) in
      (not_found out.py result, app')
