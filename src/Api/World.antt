-- ===== src/Api/World.antt =====
-- The handlers of src/reality_layer/api/app.py for workspaces, observations, states, commits and
-- conflicts. The times and the results of `uuid4` that a handler draws are its last arguments.
use Prim.Native.String.{◌++◌ as append}
use agents_reality_layer.Prelude.{
  nat_eq, string_eq, String, Bool, true, false, ◌&&◌, ◌||◌, not, Option, none, some, List, [], ◌∷◌,
  ◌==◌, if◌then◌else◌,
}
use agents_reality_layer.Prelude.Float.{Float}
use agents_reality_layer.Prelude.Time.{DateTime}
use agents_reality_layer.Errors.{value_error, Result, ok, err, ◌>>=◌}
use agents_reality_layer.Api.{
  App, Outside, Answer, answer, http_exception, failed, not_found, uncaught, may_operate,
}
use agents_reality_layer.Api.State.{
  hydrate_conflicts, persist_conflicts, hydrate_persisted_state, resolve_commit,
}
use agents_reality_layer.Connectors.Intake
use agents_reality_layer.Connectors.Intake.{ObservationLog, PersistedObservation}
use agents_reality_layer.Database.{Sql, Db, first, WorkspaceMode, observe_only, demo_proposal}
use agents_reality_layer.Workspaces.{ConnectorStatus, set_mode, policy, connector_statuses}
use agents_reality_layer.WorldState.Models.{Observation, OrderState, CommitRecord}
use agents_reality_layer.WorldState.Service.Ingest.{Fresh, ingest}
use agents_reality_layer.WorldState.Service.Queries
use agents_reality_layer.WorldState.Service.Queries.{get_commit_for_state, list_commits}
use agents_reality_layer.WorldState.Persistence.Store.{
  persist, load_state, list_states, stored_commits,
}

pub record WorkspaceView : Type 0 where
  pub tenant_id : String
  pub mode : String
  pub persistent : Bool
  pub write_value_limit : Option Float

pub record ModeChange : Type 0 where
  pub tenant_id : String
  pub mode : String
  pub persistent : Bool

abbrev pub mode_value : WorkspaceMode → String
mode_value observe_only = "observe_only"
mode_value demo_proposal = "demo_proposal"

abbrev pub entity_name : String → String → String
entity_name entity_type entity_id = append entity_type (append ":" entity_id)

abbrev pub is_observation : String → String → ObservationLog → Bool
is_observation tenant_id observation_id row =
    row.tenant_id == tenant_id && row.observation_id == observation_id

abbrev pub non_empty {ℓ} : {A : Type ℓ} → List A → List A → List A
non_empty [] ys = ys
non_empty (x ∷ xs) ys = x ∷ xs

module _ (sql : Sql) (out : Outside) where
  -- `GET /v1/connectors`
  unfoldable pub connector_status : App sql → String → List ConnectorStatus
  connector_status app tenant_id =
      if app.settings.persistence_enabled then connector_statuses sql app.db tenant_id else []

  -- `GET /v1/workspace`
  unfoldable pub workspace_view : App sql → String → Answer WorkspaceView
  workspace_view app tenant_id =
      if app.settings.persistence_enabled
      then elim (policy sql out.to_float app.db tenant_id) [
        | err e ↦ failed e
        | ok p ↦ answer (record {
          tenant_id = tenant_id;
          mode = mode_value p.mode;
          persistent = true;
          write_value_limit = p.value_limit;
        })
      ]
      else answer (record {
        tenant_id = tenant_id;
        mode = app.settings.workspace_mode;
        persistent = false;
        write_value_limit = app.settings.write_value_limit;
      })

  -- `POST /v1/workspace/mode`; `str` of the `ValueError` is its message
  unfoldable pub set_workspace_mode :
      App sql → WorkspaceMode → String → String → Answer ModeChange × App sql
  set_workspace_mode app mode tenant_id role =
      if not (may_operate role)
      then (
        http_exception 403 "Only operations, admin, or system may change the workspace mode.",
        app,
      )
      else if not app.settings.persistence_enabled
      then (
        http_exception 409
            "Workspace mode is not persistent; set REALITY_PERSISTENCE_ENABLED=true.",
        app,
      )
      else let (result, db) = set_mode sql app.db tenant_id mode in
        elim result [
          | err (value_error m) ↦ (http_exception 404 m, app)
          | err e ↦ (failed e, app)
          | ok bootstrap ↦ (
            answer (record {
              tenant_id = tenant_id;
              mode = mode_value bootstrap.mode;
              persistent = true;
            }),
            record app { db = db },
          )
        ]

  -- the raw payload in the object store, and the row of the observation
  abbrev pub add_row : Db sql → Option ObservationLog → Db sql
  add_row db none = db
  add_row db (some row) = record db { observations = sql.insert db.observations row }

  abbrev pub kept_observation :
      Db sql → PersistedObservation × Option ObservationLog → PersistedObservation × Db sql
  kept_observation db (persisted, row) = (persisted, add_row db row)

  unfoldable pub persist_observation :
      App sql → String → Observation → String → Result (PersistedObservation × Db sql)
  unfolding Intake.persist
  persist_observation app tenant_id o hex = do
    stored ← out.put_raw_payload tenant_id (out.model_dump_json o) "application/json"
    ok (
        kept_observation app.db (
          Intake.persist (λ t i. first (sql.select app.db.observations (is_observation t i)))
            tenant_id (record { observation = o; raw_payload = stored }) "mvp-1"
            "order-to-cash/1.0.0" hex))

  -- `compiler.persist(state, world_state_service.get_commit_for_state(tenant_id, state))`
  unfoldable pub persist_state : App sql → Db sql → String → OrderState → DateTime → Result (Db sql)
  persist_state app db tenant_id state now = do
    commit ← get_commit_for_state app.world_state tenant_id state
    ok (persist sql out.py out.read_time db state commit now)

  -- what is stored after an ingestion, where the observation is a new one
  abbrev pub persist_ingested :
      Bool → App sql → Db sql → String → OrderState → DateTime → Result (Db sql)
  persist_ingested false app db tenant_id state now = ok db
  persist_ingested true app db tenant_id state now = do
    db' ← persist_state app db tenant_id state now
    persist_conflicts sql out app db' tenant_id

  -- from `hydrate_conflicts` on
  unfoldable pub ingest_and_persist :
      App sql
      → Db sql
      → Bool
      → String
      → Observation
      → Fresh
      → DateTime
      → Answer OrderState × App sql
  unfolding ingest
  ingest_and_persist app db created tenant_id o fresh now =
      elim (hydrate_conflicts sql out app tenant_id) [
        | err e ↦ (failed e, app)
        | ok app' ↦
            let (result, world_state) =
              ingest out.py app'.world_state tenant_id o "observation" "observed" fresh in
            let app'' : App sql = record app' { world_state = world_state } in
            elim result [
              | err e ↦ (failed e, app'')
              | ok state ↦ elim (persist_ingested created app'' db tenant_id state now) [
                | err e ↦ (failed e, app'')
                | ok db' ↦ (answer state, record app'' { db = db' })
              ]
            ]
      ]

  -- an observation that is known, of an entity that is known, changes nothing
  abbrev pub finish_ingest :
      App sql
      → Db sql
      → Bool
      → Option OrderState
      → String
      → Observation
      → Fresh
      → DateTime
      → Answer OrderState × App sql
  finish_ingest app db false (some existing) tenant_id o fresh now =
      (answer existing, record app { db = db })
  finish_ingest app db created existing tenant_id o fresh now =
      ingest_and_persist app db created tenant_id o fresh now

  -- `POST /v1/observations`
  unfoldable pub ingest_observation :
      App sql → Observation → String → Fresh → String → DateTime → Answer OrderState × App sql
  unfolding ingest
  ingest_observation app o tenant_id fresh hex now =
      let (result, world_state) =
        ingest out.py app.world_state tenant_id o "observation" "observed" fresh in
      if not app.settings.persistence_enabled
      then (uncaught result, record app { world_state = world_state })
      else elim (persist_observation app tenant_id o hex) [
        | err e ↦ (failed e, app)
        | ok (persisted, db) ↦
            elim (hydrate_persisted_state sql out app tenant_id
              (entity_name o.object_type o.object_id)) [
                | err e ↦ (failed e, app)
                | ok (existing, app') ↦
                    finish_ingest app' db persisted.created existing tenant_id o fresh now
              ]
      ]

  -- a stored state, or else the one in memory
  unfoldable pub read_entity : App sql → String → String → String → Result OrderState
  read_entity app tenant_id entity_type entity_id =
      let in_memory = Queries.get_entity app.world_state tenant_id entity_type entity_id in
      if app.settings.persistence_enabled
      then elim (load_state sql out.py out.read_time app.db tenant_id
          (entity_name entity_type entity_id)) [
            | err e ↦ err e
            | ok none ↦ in_memory
            | ok (some state) ↦ ok state
          ]
      else in_memory

  -- `GET /v1/orders/{order_id}`
  unfoldable pub get_order : App sql → String → String → Answer OrderState
  unfolding read_entity
  get_order app order_id tenant_id = not_found out.py (read_entity app tenant_id "order" order_id)

  -- `GET /v1/entities/{entity_type}/{entity_id}`
  unfoldable pub get_entity : App sql → String → String → String → Answer OrderState
  unfolding read_entity
  get_entity app entity_type entity_id tenant_id =
      if not (entity_type == "order" || entity_type == "shipment")
      then http_exception 404 (append "Unknown entity type: " entity_type)
      else not_found out.py (read_entity app tenant_id entity_type entity_id)

  -- `GET /v1/shipments/{shipment_id}`
  unfoldable pub get_shipment : App sql → String → String → Answer OrderState
  unfolding read_entity
  get_shipment app shipment_id tenant_id =
      not_found out.py (read_entity app tenant_id "shipment" shipment_id)

  -- `list_world_state`, for `GET /v1/world-state` and `GET /v1/entities`
  unfoldable pub list_world_state :
      App sql
      → String
      → Option String
      → Option String
      → Option String
      → Option Float
      → Answer (List OrderState)
  list_world_state app tenant_id entity_type state freshness min_confidence =
      let in_memory =
        Queries.list_entities out.py app.world_state tenant_id entity_type state freshness
          min_confidence in
      if app.settings.persistence_enabled
      then elim (list_states sql out.py out.read_time app.db tenant_id entity_type state freshness
          min_confidence) [ err e ↦ failed e | ok states ↦ answer (non_empty states in_memory) ]
      else answer in_memory

  -- `GET /v1/commits/{commit_id}`
  unfoldable pub get_commit : App sql → String → String → Answer CommitRecord
  unfolding resolve_commit
  get_commit app commit_id tenant_id =
      not_found out.py (resolve_commit sql out app tenant_id commit_id)

  -- `GET /v1/diffs`
  unfoldable pub list_diffs : App sql → Option String → String → Answer (List CommitRecord)
  list_diffs app since_commit tenant_id =
      if app.settings.persistence_enabled
      then not_found out.py (stored_commits sql app.db tenant_id since_commit)
      else not_found out.py (list_commits app.world_state tenant_id since_commit)
