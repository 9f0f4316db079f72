-- ===== src/Api/Execution.antt =====
-- The handlers of src/reality_layer/api/app.py that execute and verify an action.
use agents_reality_layer.Prelude.{string_eq, String, Bool, true, false, not, some, if◌then◌else◌}
use agents_reality_layer.Prelude.Text.{remove_prefix}
use agents_reality_layer.Prelude.Time.{DateTime}
use agents_reality_layer.Errors.{Result, ok, err, value_error}
use agents_reality_layer.Actions.Models.{ActionDecision, ExecutionReceipt}
use agents_reality_layer.Actions.Service.{ActionService}
use agents_reality_layer.Actions.Service.Lifecycle
use agents_reality_layer.Actions.Service.Lifecycle.{Fresh, get_proposal, get_decision}
use agents_reality_layer.Actions.Service.Execute
use agents_reality_layer.Api.{App, Outside, Answer, not_found_or_conflict}
use agents_reality_layer.Api.State.{resolve_order_state, hydrate_persisted_state}
use agents_reality_layer.Api.World.{entity_name, persist_observation, persist_state}
use agents_reality_layer.Connectors.{CancelledOrders, cancel_order, read_order, normalize_shopify}
use agents_reality_layer.Database.{Sql, Db, shopify}
use agents_reality_layer.Workspaces.{has_capability}
use agents_reality_layer.WorldState.Models.{Observation, OrderState}
use agents_reality_layer.WorldState.Service.Ingest
use agents_reality_layer.WorldState.Service.Ingest.{ingest}
use agents_reality_layer.Api.Actions.{
  and_then, with_actions, with_world, hydrated, rolled_back, with_restored, committed_if_persistent,
}

module _ (sql : Sql) (out : Outside) where
  -- what is stored of a read whose observation is a new one
  abbrev pub stored_read :
      Bool → App sql → Db sql → String → OrderState → DateTime → Result (Db sql)
  stored_read false app db tenant_id state now = ok db
  stored_read true app db tenant_id state now = persist_state sql out app db tenant_id state now

  -- `raise ValueError(...)` where the workspace lacks a capability; without persistence there are none
  abbrev pub require_capability : App sql → String → String → String → Result (Unit {0}) × App sql
  require_capability app tenant_id capability message =
      if not app.settings.persistence_enabled
      then (ok tt, app)
      else if has_capability sql app.db tenant_id shopify capability
      then (ok tt, app)
      else (err (value_error message), app)

  -- the action service and the connector after `execute`
  abbrev pub with_execution :
      {A : Type 0} → App sql → Result A × ActionService × CancelledOrders → Result A × App sql
  with_execution app (result, actions, cancelled) =
      (result, record app { actions = actions; shopify = cancelled })

  -- `shopify_connector.cancel_order`, as a provider
  abbrev pub cancel_with :
      String
      → String
      → String
      → String
      → CancelledOrders
      → Result ExecutionReceipt × CancelledOrders
  cancel_with request_hex action_id order_id idempotency_key cancelled =
      let (receipt, after) =
        cancel_order cancelled action_id order_id idempotency_key request_hex in
      (ok receipt, after)

  -- from the lookup of the proposal to the call of `execute`
  unfoldable pub execute_proposal :
      String → String → String → String → App sql → Result ExecutionReceipt × App sql
  unfolding Execute.execute
  execute_proposal action_id tenant_id hex request_hex app =
      and_then (get_proposal app.actions action_id tenant_id, app)
        (λ proposal app.
          and_then
            (resolve_order_state sql out app tenant_id
              (remove_prefix "order:" proposal.target_entity))
            (λ current_state app'. with_execution app' (
              Execute.execute out.py app'.actions action_id tenant_id (cancel_with request_hex)
                current_state hex app'.shopify)))

  -- `POST /v1/actions/{action_id}/execute`
  unfoldable pub execute_action :
      App sql → String → String → String → String → Answer ExecutionReceipt × App sql
  unfolding execute_proposal
  execute_action app action_id tenant_id hex request_hex =
      let (result, app') = committed_if_persistent sql out app.settings tenant_id action_id (
        and_then
          (require_capability app tenant_id "write"
            "Shopify write capability is not enabled for this workspace.")
          (λ _ app.
            with_restored sql out app tenant_id
              (execute_proposal action_id tenant_id hex request_hex))) in
      (not_found_or_conflict out.py result, app')

  -- the read of the order, ingested, and what is stored of it; the database is committed by the caller
  unfoldable pub ingest_read :
      App sql
      → Observation
      → String
      → Ingest.Fresh
      → String
      → DateTime
      → Result OrderState × App sql
  unfolding ingest
  ingest_read app o tenant_id fresh hex now =
      if not app.settings.persistence_enabled
      then with_world app
          (ingest out.py app.world_state tenant_id o "verified_action" "verified" fresh)
      else and_then (persist_observation sql out app tenant_id o hex, app)
          (λ (persisted, db) app.
            and_then
              (hydrated app (
                hydrate_persisted_state sql out app tenant_id
                  (entity_name o.object_type o.object_id)))
              (λ _ app.
                and_then
                  (with_world app
                    (ingest out.py app.world_state tenant_id o "verified_action" "verified" fresh))
                  (λ state app.
                    and_then (stored_read persisted.created app db tenant_id state now, app)
                      (λ db app. (ok state, record app { db = db })))))

  -- from the lookup of the proposal to the call of `verify`
  unfoldable pub verify_proposal :
      String
      → String
      → Ingest.Fresh
      → String
      → String
      → DateTime
      → App sql
      → Result ActionDecision × App sql
  unfolding ingest_read
  verify_proposal action_id tenant_id fresh hex event_hex now app =
      and_then (get_proposal app.actions action_id tenant_id, app)
        (λ proposal app.
          and_then
            (
              normalize_shopify out.py out.library
                  (read_order app.shopify (remove_prefix "order:" proposal.target_entity)),
              app,
            )
            (λ o app. and_then (ingest_read app o tenant_id fresh hex now) (λ state app.
              with_actions app (
                Lifecycle.verify out.py app.actions action_id tenant_id (some state) true
                  event_hex))))

  -- `POST /v1/actions/{action_id}/verify`: what is not committed is not stored
  unfoldable pub verify_action :
      App sql
      → String
      → String
      → Ingest.Fresh
      → String
      → String
      → DateTime
      → Answer ActionDecision × App sql
  unfolding verify_proposal
  verify_action app action_id tenant_id fresh hex event_hex now =
      let (result, app') = committed_if_persistent sql out app.settings tenant_id action_id (
        and_then
          (require_capability app tenant_id "read"
            "Shopify read capability is not enabled for this workspace.")
          (λ _ app.
            with_restored sql out app tenant_id
              (verify_proposal action_id tenant_id fresh hex event_hex now))) in
      (not_found_or_conflict out.py result, rolled_back app.db result app')
