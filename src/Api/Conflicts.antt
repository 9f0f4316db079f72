-- ===== src/Api/Conflicts.antt =====
-- The handlers of src/reality_layer/api/app.py for conflicts.
use Prim.Native.String.{◌++◌ as append}
use agents_reality_layer.Prelude.{
  string_eq, String, not, Option, none, some, List, ◌==◌, if◌then◌else◌,
}
use agents_reality_layer.Prelude.Time.{DateTime}
use agents_reality_layer.Json.{Value}
use agents_reality_layer.Errors.{Result, ok, err, ◌>>=◌}
use agents_reality_layer.Api.{
  App, Outside, Answer, answer, http_exception, failed, not_found, uncaught, may_operate,
}
use agents_reality_layer.Api.State.{hydrate_persisted_state}
use agents_reality_layer.Api.World.{entity_name, persist_state}
use agents_reality_layer.Database.{Sql, Db}
use agents_reality_layer.WorldState.Models.{OrderState, Conflict}
use agents_reality_layer.WorldState.Service.Queries.{get_entity}
use agents_reality_layer.WorldState.Service.Conflicts
use agents_reality_layer.WorldState.Service.Conflicts.{hydrate_conflict}
use agents_reality_layer.WorldState.Persistence.Store.{
  persist_conflict, load_conflict, stored_conflicts,
}

-- `ConflictResolutionRequest`
pub record ConflictResolutionRequest : Type 0 where
  pub resolved_value : Value
  pub reason : String

abbrev pub unknown_conflict {ℓ} : {A : Type ℓ} → String → Answer A
unknown_conflict conflict_id = http_exception 404 (append "Unknown conflict: " conflict_id)

abbrev pub object_of {ℓ} : {A : Type ℓ} {B : Type 0} → Result (B × A) → Result A
object_of (ok (_, a)) = ok a
object_of (err e) = err e

module _ (sql : Sql) (out : Outside) where
  -- `GET /v1/conflicts`
  unfoldable pub list_conflicts : App sql → Option String → String → Answer (List Conflict)
  list_conflicts app status tenant_id =
      if app.settings.persistence_enabled
      then uncaught (stored_conflicts sql out.py out.read_time app.db tenant_id status)
      else uncaught (Conflicts.list_conflicts app.world_state tenant_id status)

  -- `GET /v1/conflicts/{conflict_id}`
  unfoldable pub get_conflict : App sql → String → String → Answer Conflict
  get_conflict app conflict_id tenant_id =
      if app.settings.persistence_enabled
      then elim (load_conflict sql out.py out.read_time app.db tenant_id conflict_id) [
        | err e ↦ failed e
        | ok none ↦ unknown_conflict conflict_id
        | ok (some stored) ↦ answer stored
      ]
      else not_found out.py
          (object_of (Conflicts.get_conflict app.world_state tenant_id conflict_id))

  -- what is stored after a resolution
  abbrev pub persist_resolution :
      App sql → Option OrderState → Conflict → Conflict → String → DateTime → Result (Db sql)
  persist_resolution app none stored resolved tenant_id now =
      ok (persist_conflict sql out.py out.read_time app.db resolved)
  persist_resolution app (some existing) stored resolved tenant_id now = do
    new_state ← get_entity app.world_state tenant_id stored.entity_type stored.entity_id
    db ← persist_state sql out app app.db tenant_id new_state now
    ok (persist_conflict sql out.py out.read_time db resolved)

  -- a stored conflict that is open: no exception but the database's is caught
  unfoldable pub resolve_stored :
      App sql
      → Conflict
      → String
      → ConflictResolutionRequest
      → String
      → String
      → DateTime
      → String
      → Answer Conflict × App sql
  unfolding Conflicts.resolve_conflict hydrate_conflict
  resolve_stored app stored conflict_id request tenant_id role now hex =
      elim (hydrate_persisted_state sql out app tenant_id
        (entity_name stored.entity_type stored.entity_id)) [
          | err e ↦ (failed e, app)
          | ok (existing, app') ↦
              let (result, world_state) =
                Conflicts.resolve_conflict out.py (hydrate_conflict app'.world_state stored)
                  tenant_id conflict_id request.resolved_value role request.reason now hex in
              let app'' : App sql = record app' { world_state = world_state } in
              elim result [
                | err e ↦ (failed e, app'')
                | ok resolved ↦
                    elim (persist_resolution app'' existing stored resolved tenant_id now) [
                      | err e ↦ (failed e, app'')
                      | ok db ↦ (answer resolved, record app'' { db = db })
                    ]
              ]
        ]

  -- `POST /v1/conflicts/{conflict_id}/resolve`
  unfoldable pub resolve_conflict :
      App sql
      → String
      → ConflictResolutionRequest
      → String
      → String
      → DateTime
      → String
      → Answer Conflict × App sql
  unfolding resolve_stored
  resolve_conflict app conflict_id request tenant_id role now hex =
      let (result, world_state) =
        Conflicts.resolve_conflict out.py app.world_state tenant_id conflict_id
          request.resolved_value role request.reason now hex in
      if not (may_operate role)
      then (http_exception 403 "Only operations, admin, or system may resolve a conflict.", app)
      else if not app.settings.persistence_enabled
      then (not_found out.py result, record app { world_state = world_state })
      else elim (load_conflict sql out.py out.read_time app.db tenant_id conflict_id) [
        | err e ↦ (failed e, app)
        | ok none ↦ (unknown_conflict conflict_id, app)
        | ok (some stored) ↦
            if stored.status == "resolved"
            then (answer stored, app)
            else resolve_stored app stored conflict_id request tenant_id role now hex
      ]
