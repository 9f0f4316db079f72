-- ===== src/Api/State.antt =====
-- The functions inside `create_app` of src/reality_layer/api/app.py that the handlers share.
use Prim.Native.String.{◌++◌ as append}
use agents_reality_layer.Prelude.{
  string_eq, triple_eq, String, Bool, false, not, Option, none, some, List, [], ◌∷◌, if◌then◌else◌,
}
use agents_reality_layer.Prelude.Float.{Float, number, refused, overflow}
use agents_reality_layer.Prelude.Text.{truthy, remove_prefix, partition_colon}
use agents_reality_layer.Dict
use agents_reality_layer.Json.{Platform}
use agents_reality_layer.Errors.{raised, Result, ok, err, key_error, ◌>>=◌}
use agents_reality_layer.Actions.Events.{ActionEventRecord}
use agents_reality_layer.Actions.Service.{ActionService}
use agents_reality_layer.Actions.Service.Lifecycle.{events}
use agents_reality_layer.Actions.Service.Restore.{restore}
use agents_reality_layer.Actions.Persistence.{persist_all, events_for_tenant}
use agents_reality_layer.Api.{App, Outside}
use agents_reality_layer.Database.{Sql, Db}
use agents_reality_layer.WorldState.Models.{OrderState, CommitRecord, Conflict}
use agents_reality_layer.WorldState.Service.{WorldStateService}
use agents_reality_layer.WorldState.Service.Conflicts.{
  has_open_conflicts, hydrate_conflict, list_conflicts,
}
use agents_reality_layer.WorldState.Service.Queries.{get_order, get_commit, hydrate}
use agents_reality_layer.WorldState.Persistence.Store.{
  load_state, load_commit, persist_conflict, stored_conflicts, has_open_conflict_for_entity,
}

-- the loop of `restore_actions`: an event that cannot be restored ends it
unfoldable pub restore_events :
    Platform → ActionService → List ActionEventRecord → Result (Unit {0}) × ActionService
unfolding restore
restore_events py s [] = (ok tt, s)
restore_events py s (e ∷ rest) =
    let (result, s') = restore py s e in
    let next = restore_events py s' rest in elim result [ err x ↦ (err x, s') | ok _ ↦ next ]

-- the loop of `hydrate_conflicts`
abbrev pub hydrate_all : WorldStateService → List Conflict → WorldStateService
hydrate_all s [] = s
hydrate_all s (c ∷ conflicts) = hydrate_all (hydrate_conflict s c) conflicts

-- the commit id of a state that came from the database, `""` where the row has none
abbrev pub commit_id_of : OrderState → Option String
commit_id_of state = some state.commit_id

module _ (sql : Sql) (out : Outside) where
  -- `restore_actions`
  unfoldable pub restore_actions : App sql → String → Result (Unit {0}) × App sql
  unfolding restore_events
  restore_actions app tenant_id =
      let (result, actions) =
        restore_events out.py app.actions (events_for_tenant sql out.py app.db tenant_id) in
      (result, record app { actions = actions })

  -- `persist_action_events`
  unfoldable pub persist_action_events : App sql → String → String → Result (Db sql)
  persist_action_events app tenant_id action_id = do
    written ← events app.actions action_id tenant_id
    ok (persist_all sql app.db written)

  -- `hydrate_conflicts`
  unfoldable pub hydrate_conflicts : App sql → String → Result (App sql)
  hydrate_conflicts app tenant_id = do
    conflicts ← stored_conflicts sql out.py out.read_time app.db tenant_id none
    ok (record app { world_state = hydrate_all app.world_state conflicts })

  -- the loop of `persist_conflicts`
  abbrev pub persist_all_conflicts : Db sql → List Conflict → Db sql
  persist_all_conflicts db [] = db
  persist_all_conflicts db (c ∷ conflicts) =
      persist_all_conflicts (persist_conflict sql out.py out.read_time db c) conflicts

  -- `persist_conflicts`
  unfoldable pub persist_conflicts : App sql → Db sql → String → Result (Db sql)
  persist_conflicts app db tenant_id = do
    conflicts ← list_conflicts app.world_state tenant_id none
    ok (persist_all_conflicts db conflicts)

  -- the hash of the commit that made a stored state
  abbrev pub producing_hash : Db sql → String → OrderState → Option String
  producing_hash db tenant_id state =
      if truthy state.commit_id
      then elim (load_commit sql db tenant_id state.commit_id) [
        | none ↦ none
        | some commit ↦ some commit.hash
      ]
      else none

  -- a state of the database, taken over with its commit
  abbrev pub hydrate_state : App sql → String → OrderState → App sql
  hydrate_state app tenant_id state = record app {
    world_state =
        hydrate out.py app.world_state state (commit_id_of state)
          (producing_hash app.db tenant_id state);
  }

  -- `hydrate_persisted_state`
  unfoldable pub hydrate_persisted_state :
      App sql → String → String → Result (Option OrderState × App sql)
  hydrate_persisted_state app tenant_id entity_id = do
    existing ← load_state sql out.py out.read_time app.db tenant_id entity_id
    ok (elim existing [
      | none ↦ (none, app)
      | some state ↦ (some state, hydrate_state app tenant_id state)
    ])

  -- `get_order`, with `None` for the `KeyError`
  abbrev pub known_order : Result OrderState → Result (Option OrderState)
  known_order (ok state) = ok (some state)
  known_order (err (key_error m)) = ok none
  known_order (err e) = err e

  -- `resolve_order_state`
  unfoldable pub resolve_order_state :
      App sql → String → String → Result (Option OrderState) × App sql
  resolve_order_state app tenant_id order_id =
      let in_memory = known_order (get_order app.world_state tenant_id order_id) in
      if app.settings.persistence_enabled
      then elim (load_state sql out.py out.read_time app.db tenant_id (append "order:" order_id)) [
        | err e ↦ (err e, app)
        | ok none ↦ (in_memory, app)
        | ok (some state) ↦ (
          ok (some state),
          record app { world_state = hydrate out.py app.world_state state none none },
        )
      ]
      else (in_memory, app)

  -- `order_value_for`: the handler of `KeyError` is around the lookup only, that of `TypeError` and
  -- `ValueError` around `float`
  unfoldable pub order_value_for : App sql → String → String → Result (Option Float)
  order_value_for app tenant_id target_entity =
      elim (known_order
        (get_order app.world_state tenant_id (remove_prefix "order:" target_entity))) [
          | err e ↦ err e
          | ok none ↦ ok none
          | ok (some state) ↦ elim (Dict.get state.attributes "total_price") [
            | none ↦ ok none
            | some attribute ↦ elim (out.to_float attribute.value) [
              | number value ↦ ok (some value)
              | refused ↦ ok none
              | overflow ↦ err (raised "OverflowError")
            ]
          ]
        ]

  -- `has_conflict_for`
  unfoldable pub has_conflict_for : App sql → String → String → Bool
  has_conflict_for app tenant_id target_entity = elim (partition_colon target_entity) [
    | none ↦ false
    | some (entity_type, entity_id) ↦
        if not (truthy entity_id)
        then false
        else if app.settings.persistence_enabled
        then has_open_conflict_for_entity sql app.db tenant_id entity_type entity_id
        else has_open_conflicts app.world_state (tenant_id, entity_type, entity_id)
  ]

  -- `resolve_commit`
  unfoldable pub resolve_commit : App sql → String → String → Result CommitRecord
  resolve_commit app tenant_id commit_id =
      let in_memory = get_commit app.world_state tenant_id commit_id in
      if app.settings.persistence_enabled
      then elim (load_commit sql app.db tenant_id commit_id) [
        | some commit ↦ ok commit
        | none ↦ in_memory
      ]
      else in_memory
