-- ===== src/Actions/Persistence.antt =====
-- `ActionEventPersistenceService` of src/reality_layer/actions/persistence.py, over
-- `ActionEventRepository` of src/reality_layer/db/repositories.py.
use agents_reality_layer.Prelude.{
  string_eq, String, Bool, ◌&&◌, Option, none, some, List, [], ◌∷◌, map, ◌≡◌, refl, ◌==◌, beq_refl,
  arith, inl, inr, Option-cases, Bool-cases, if◌then◌else◌, subst, ap,
}
use mathlib.Core.List.{Perm}
use mathlib.Core.List.Perm
use agents_reality_layer.Dict
use agents_reality_layer.Json.{Platform, str, py_str}
use agents_reality_layer.Actions.Events.{ActionEventRecord}
use agents_reality_layer.Database.{Sql, Db, first, ActionEvent}
use agents_reality_layer.Database.Laws.{IsSql}

abbrev pub event_row : ActionEventRecord → ActionEvent
event_row e = record {
  tenant_id = e.tenant_id;
  event_id = e.event_id;
  action_id = e.action_id;
  event_type = e.event_type;
  schema_version = "actions/1.0.0";
  actor = ("type", str "role") ∷ ("id", str e.actor_role) ∷ [];
  correlation_id = e.action_id;
  payload = e.payload;
  evidence_refs = [];
  previous_event_hash = e.previous_event_hash;
  event_hash = e.event_hash;
}

-- `str(row.actor.get("id", "system"))`
unfoldable pub role_of : Platform → ActionEvent → String
role_of py row = elim (Dict.get row.actor "id") [ none ↦ "system" | some v ↦ py_str py v ]

abbrev pub event_of_row : Platform → ActionEvent → ActionEventRecord
event_of_row py row = record {
  event_id = row.event_id;
  tenant_id = row.tenant_id;
  action_id = row.action_id;
  event_type = row.event_type;
  actor_role = role_of py row;
  payload = row.payload;
  previous_event_hash = row.previous_event_hash;
  event_hash = row.event_hash;
}

abbrev pub is_event : String → String → ActionEvent → Bool
is_event tenant_id event_id row = row.tenant_id == tenant_id && row.event_id == event_id

module _ (sql : Sql) where
  -- `session.get(ActionEvent, (tenant_id, event_id))`
  abbrev pub get_event : Db sql → String → String → Option ActionEvent
  get_event db tenant_id event_id = first (sql.select db.events (is_event tenant_id event_id))

  -- `persist`
  unfoldable pub persist_event : Db sql → ActionEventRecord → Db sql
  persist_event db e = elim (get_event db e.tenant_id e.event_id) [
    | some _ ↦ db
    | none ↦ record db { events = sql.insert db.events (event_row e) }
  ]

  abbrev pub persist_all : Db sql → List ActionEventRecord → Db sql
  persist_all db [] = db
  persist_all db (e ∷ events) = persist_all (persist_event db e) events

  -- `list_for_action`; the query names no order
  unfoldable pub events_for_action : Platform → Db sql → String → String → List ActionEventRecord
  events_for_action py db tenant_id action_id =
      map (event_of_row py)
        (sql.select db.events (λ row. row.tenant_id == tenant_id && row.action_id == action_id))

  -- `list_for_tenant`; the query names no order
  unfoldable pub events_for_tenant : Platform → Db sql → String → List ActionEventRecord
  events_for_tenant py db tenant_id =
      map (event_of_row py) (sql.select db.events (λ row. row.tenant_id == tenant_id))

  module _ (laws : IsSql sql) where
    pub get_event-persist_event :
        (db : Db sql) (e : ActionEventRecord)
        → (row : ActionEvent) × (get_event (persist_event db e) e.tenant_id e.event_id ≡ some row)
    unfolding persist_event
    get_event-persist_event db e = elim (Option-cases (get_event db e.tenant_id e.event_id)) [
      | inr (row, h) ↦ rw (h, persist_event) (row, h)
      | inl h ↦
          rw (h, persist_event)
            (
              event_row e,
              ap first (
                  laws.select-insert_only db.events (event_row e) (is_event e.tenant_id e.event_id)
                    (ground (arith, beq_refl e.tenant_id, beq_refl e.event_id))
                    (none_selected (sql.select db.events (is_event e.tenant_id e.event_id)) h)),
            )
    ]
      where
        none_selected : {A : Type 0} (rows : List A) → first rows ≡ none → rows ≡ []
        none_selected [] h = refl
        none_selected (r ∷ rows) h = cc

    -- Persisting an event again, or another one under its key, changes nothing.
    pub persist_event_twice :
        (db : Db sql) (e again : ActionEventRecord)
        → again.tenant_id ≡ e.tenant_id
        → again.event_id ≡ e.event_id
        → persist_event (persist_event db e) again ≡ persist_event db e
    unfolding persist_event
    persist_event_twice db e again p q =
        let (row, h) = get_event-persist_event db e in rw (p, q, h, persist_event) refl

-- the columns of an event give the event back
event_of_row-event_row : (py : Platform) (e : ActionEventRecord) → event_of_row py (event_row e) ≡ e
unfolding role_of Dict.get
event_of_row-event_row py e = refl

module _ (sql : Sql) (laws : IsSql sql) (py : Platform) where
  -- a query after an insert, read back
  insert-listed :
      (db : Db sql) (e : ActionEventRecord) (p : ActionEvent → Bool)
      → Perm (map (event_of_row py) (sql.select (sql.insert db.events (event_row e)) p)) (
          if p (event_row e)
          then e ∷ map (event_of_row py) (sql.select db.events p)
          else map (event_of_row py) (sql.select db.events p))
  insert-listed db e p = elim (Bool-cases (p (event_row e))) [
    | inl h ↦ rw h (
        subst
          (λ x.
            Perm (map (event_of_row py) (sql.select (sql.insert db.events (event_row e)) p))
              (x ∷ map (event_of_row py) (sql.select db.events p)))
          (event_of_row-event_row py e)
          (Perm.map (event_of_row py) (laws.select-insert_hit db.events (event_row e) p h)))
    | inr h ↦ rw (h, laws.select-insert_miss db.events (event_row e) p h) (Perm.refl _)
  ]

  -- Persisting an event under a new key, and reading the events of an action and those of a tenant
  -- back: the event is added, as it is, to the lists of its action and its tenant, in any order,
  -- and the lists of the others stay as they were.
  pub persist_event-listed :
      (db : Db sql) (e : ActionEventRecord) (t i : String)
      → get_event sql db e.tenant_id e.event_id ≡ none
      → Perm (events_for_action sql py (persist_event sql db e) t i) (
          if e.tenant_id == t && e.action_id == i
          then e ∷ events_for_action sql py db t i
          else events_for_action sql py db t i)
        × Perm (events_for_tenant sql py (persist_event sql db e) t) (
            if e.tenant_id == t
            then e ∷ events_for_tenant sql py db t
            else events_for_tenant sql py db t)
  unfolding persist_event events_for_action events_for_tenant
  persist_event-listed db e t i new =
      rw (new, persist_event)
        (
          insert-listed db e (λ row. row.tenant_id == t && row.action_id == i),
          insert-listed db e (λ row. row.tenant_id == t),
        )
