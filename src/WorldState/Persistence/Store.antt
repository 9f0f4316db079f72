-- ===== src/WorldState/Persistence/Store.antt =====
-- The repositories of src/reality_layer/db/repositories.py for commits, projections and conflicts, and the
-- methods of `CompilerPersistenceService` of src/reality_layer/world_state/persistence.py.
use agents_reality_layer.Prelude.{
  nat_eq, string_eq, String, Bool, true, false, ◌&&◌, Option, none, some, List, [], ◌∷◌, map, ◌==◌,
  filter,
}
use agents_reality_layer.Prelude.Float.{Float}
use agents_reality_layer.Prelude.Time.{DateTime}
use agents_reality_layer.Json.{Platform}
use agents_reality_layer.Errors.{Result, ok, ◌>>=◌}
use agents_reality_layer.WorldState.Models.{OrderState, CommitRecord, Conflict}
use agents_reality_layer.WorldState.Service.Queries.{matches_filters, known_commits, commits_after}
use agents_reality_layer.WorldState.Persistence.{
  commit_row, commit_of_row, projection_row, state_of_row, conflict_row, to_conflict,
}
use agents_reality_layer.Database.{
  Sql, Db, first, sort_by, text_le, time_text_le, StateProjection, CommitLog, ConflictRecord,
}

-- the conditions of the queries
abbrev pub is_commit : String → String → CommitLog → Bool
is_commit tenant_id commit_id row = row.tenant_id == tenant_id && row.commit_id == commit_id

abbrev pub is_projection : String → String → StateProjection → Bool
is_projection tenant_id entity_id row = row.tenant_id == tenant_id && row.entity_id == entity_id

abbrev pub is_conflict : String → String → ConflictRecord → Bool
is_conflict tenant_id conflict_id row = row.tenant_id == tenant_id && row.conflict_id == conflict_id

abbrev pub of_type : Option String → StateProjection → Bool
of_type none row = true
of_type (some entity_type) row = row.entity_type == entity_type

abbrev pub has_status : Option String → ConflictRecord → Bool
has_status none row = true
has_status (some status) row = row.status == status

-- the columns that `save` assigns
abbrev pub assign_projection : StateProjection → StateProjection → StateProjection
assign_projection new old = record old {
  entity_type = new.entity_type;
  attributes = new.attributes;
  confidence = new.confidence;
  freshness = new.freshness;
  provenance = new.provenance;
  producing_commit_id = new.producing_commit_id;
  state_version = new.state_version;
}

abbrev pub assign_conflict : ConflictRecord → ConflictRecord → ConflictRecord
assign_conflict new old = record old {
  entity_type = new.entity_type;
  entity_id = new.entity_id;
  attribute = new.attribute;
  candidates = new.candidates;
  status = new.status;
  detected_at = new.detected_at;
  resolved_value = new.resolved_value;
  resolved_by = new.resolved_by;
  resolved_at = new.resolved_at;
  resolution_reason = new.resolution_reason;
}

module _ (sql : Sql) where
  -- `CommitRepository.get`
  abbrev pub get_commit_row : Db sql → String → String → Option CommitLog
  get_commit_row db tenant_id commit_id =
      first (sql.select db.commits (is_commit tenant_id commit_id))

  -- `StateProjectionRepository.get`
  abbrev pub get_projection : Db sql → String → String → Option StateProjection
  get_projection db tenant_id entity_id =
      first (sql.select db.projections (is_projection tenant_id entity_id))

  -- `ConflictRepository.get`
  abbrev pub get_conflict_row : Db sql → String → String → Option ConflictRecord
  get_conflict_row db tenant_id conflict_id =
      first (sql.select db.conflicts (is_conflict tenant_id conflict_id))

  -- `StateProjectionRepository.save`
  unfoldable pub save_projection : Db sql → StateProjection → Db sql
  save_projection db row = elim (get_projection db row.tenant_id row.entity_id) [
    | none ↦ record db { projections = sql.insert db.projections row }
    | some _ ↦ record db {
      projections =
          sql.update db.projections (is_projection row.tenant_id row.entity_id)
            (assign_projection row);
    }
  ]

  -- `ConflictRepository.save`
  unfoldable pub save_conflict : Db sql → ConflictRecord → Db sql
  save_conflict db row = elim (get_conflict_row db row.tenant_id row.conflict_id) [
    | none ↦ record db { conflicts = sql.insert db.conflicts row }
    | some _ ↦ record db {
      conflicts =
          sql.update db.conflicts (is_conflict row.tenant_id row.conflict_id) (assign_conflict row);
    }
  ]

  -- `StateProjectionRepository.list_for_tenant`
  abbrev pub projections_for_tenant : Db sql → String → Option String → List StateProjection
  projections_for_tenant db tenant_id entity_type =
      sort_by (λ a b. text_le a.entity_id b.entity_id)
        (sql.select db.projections (λ row. row.tenant_id == tenant_id && of_type entity_type row))

  -- `CommitRepository.list_for_tenant`
  abbrev pub commits_for_tenant : Db sql → String → List CommitLog
  commits_for_tenant db tenant_id =
      sort_by (λ a b. time_text_le (a.created_at, a.commit_id) (b.created_at, b.commit_id))
        (sql.select db.commits (λ row. row.tenant_id == tenant_id))

  -- `ConflictRepository.list_for_tenant`
  abbrev pub conflicts_for_tenant : Db sql → String → Option String → List ConflictRecord
  conflicts_for_tenant db tenant_id status =
      sort_by (λ a b. time_text_le (a.detected_at, a.conflict_id) (b.detected_at, b.conflict_id))
        (sql.select db.conflicts (λ row. row.tenant_id == tenant_id && has_status status row))

  -- `ConflictRepository.list_open_for_entity`
  abbrev pub open_for_entity : Db sql → String → String → String → List ConflictRecord
  open_for_entity db tenant_id entity_type entity_id = sql.select db.conflicts (λ row.
      row.tenant_id == tenant_id
      && row.entity_type == entity_type
      && row.entity_id == entity_id
      && row.status == "open")

  module _ (py : Platform) (read_time : String → Result DateTime) where
    -- `persist`; `now` is the time that the database puts on the row
    unfoldable pub persist : Db sql → OrderState → CommitRecord → DateTime → Db sql
    unfolding save_projection
    persist db state commit now = elim (get_commit_row db commit.tenant_id commit.commit_id) [
      | some _ ↦ db
      | none ↦
          let db' : Db sql = record db {
            commits = sql.insert db.commits (commit_row commit now);
          } in
          save_projection db' (projection_row py state)
    ]

    -- `load_state`
    unfoldable pub load_state : Db sql → String → String → Result (Option OrderState)
    load_state db tenant_id entity_id = elim (get_projection db tenant_id entity_id) [
      | none ↦ ok none
      | some row ↦ do state ← state_of_row read_time tenant_id row; ok (some state)
    ]

    abbrev pub states_of_rows : String → List StateProjection → Result (List OrderState)
    states_of_rows tenant_id [] = ok []
    states_of_rows tenant_id (row ∷ rows) = do
      state ← state_of_row read_time tenant_id row
      states ← states_of_rows tenant_id rows
      ok (state ∷ states)

    -- `list_states`
    unfoldable pub list_states :
        Db sql
        → String
        → Option String
        → Option String
        → Option String
        → Option Float
        → Result (List OrderState)
    unfolding matches_filters
    list_states db tenant_id entity_type state freshness min_confidence = do
      states ← states_of_rows tenant_id (projections_for_tenant db tenant_id entity_type)
      ok (filter (λ e. matches_filters py e state freshness min_confidence) states)

    -- `persist_conflict`
    unfoldable pub persist_conflict : Db sql → Conflict → Db sql
    unfolding save_conflict
    persist_conflict db conflict = save_conflict db (conflict_row py conflict)

    -- `load_conflict`
    unfoldable pub load_conflict : Db sql → String → String → Result (Option Conflict)
    load_conflict db tenant_id conflict_id = elim (get_conflict_row db tenant_id conflict_id) [
      | none ↦ ok none
      | some row ↦ do conflict ← to_conflict read_time row; ok (some conflict)
    ]

    abbrev pub conflicts_of_rows : List ConflictRecord → Result (List Conflict)
    conflicts_of_rows [] = ok []
    conflicts_of_rows (row ∷ rows) = do
      conflict ← to_conflict read_time row
      conflicts ← conflicts_of_rows rows
      ok (conflict ∷ conflicts)

    -- `list_conflicts`
    unfoldable pub stored_conflicts : Db sql → String → Option String → Result (List Conflict)
    stored_conflicts db tenant_id status =
        conflicts_of_rows (conflicts_for_tenant db tenant_id status)

  -- `has_open_conflict_for_entity`
  unfoldable pub has_open_conflict_for_entity : Db sql → String → String → String → Bool
  has_open_conflict_for_entity db tenant_id entity_type entity_id =
      elim (open_for_entity db tenant_id entity_type entity_id) [ [] ↦ false | _ ∷ _ ↦ true ]

  -- `load_commit`
  unfoldable pub load_commit : Db sql → String → String → Option CommitRecord
  load_commit db tenant_id commit_id = elim (get_commit_row db tenant_id commit_id) [
    | none ↦ none
    | some row ↦ some (commit_of_row row)
  ]

  -- `list_commits`
  unfoldable pub stored_commits : Db sql → String → Option String → Result (List CommitRecord)
  stored_commits db tenant_id none = ok (map commit_of_row (commits_for_tenant db tenant_id))
  stored_commits db tenant_id (some since) =
      known_commits since
        (commits_after since (map commit_of_row (commits_for_tenant db tenant_id)))
