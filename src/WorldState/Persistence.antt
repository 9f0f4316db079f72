-- ===== src/WorldState/Persistence.antt =====
-- The rows of `CompilerPersistenceService` of src/reality_layer/world_state/persistence.py. `read_time` reads a time of JSON, as pydantic does;
-- `StateAttribute` and `ConflictCandidate` are read back from JSON with the refusals of their models.
pub mod Store
pub mod Roundtrip
use agents_reality_layer.Prelude.{
  nat_eq, string_eq, ℕ, String, Bool, true, false, ◌&&◌, Option, none, some, List, [], ◌∷◌, ◌++◌,
  map, ◌==◌, filter, if◌then◌else◌,
}
use agents_reality_layer.Prelude.Int.{pos}
use agents_reality_layer.Prelude.Float.{Float, float_ge}
use agents_reality_layer.Prelude.Text.{truthy}
use agents_reality_layer.Prelude.Time.{DateTime}
use agents_reality_layer.Dict
use agents_reality_layer.Json.{
  Platform, Value, Fields, null, int, flt, str, arr, obj, end, field, Object, lookup_field,
}
use agents_reality_layer.Errors.{Result, ok, err, value_error, ◌>>=◌}
use agents_reality_layer.Actions.Events.{as_text, as_optional, as_texts, only}
use agents_reality_layer.WorldState.Models.{
  StateAttribute, Attributes, OrderState, CommitRecord, ConflictCandidate, Conflict, dump_attribute,
  optional,
}
use agents_reality_layer.WorldState.Service.{dump_attributes}
use agents_reality_layer.WorldState.Service.Queries.{
  matches_filters, known_commits, commits_after, or_text,
}
use agents_reality_layer.Database.{Sql, Db, first, StateProjection, CommitLog, ConflictRecord}

-- a field of type `Any`
abbrev pub as_any : Option Value → Result Value
as_any none = err (value_error "missing")
as_any (some v) = ok v

-- a field of type `float` with `ge=0, le=1`
abbrev pub in_unit : Float → Bool
in_unit c =
    float_ge c (record { mantissa = pos 0; scale = 0 })
    && float_ge (record { mantissa = pos 1; scale = 0 }) c

abbrev pub unit_float : Float → Result Float
unit_float c = if in_unit c then ok c else err (value_error "confidence")

abbrev pub as_confidence : Option Value → Result Float
as_confidence (some (flt m e)) = unit_float (record { mantissa = m; scale = e })
as_confidence (some (int n)) = unit_float (record { mantissa = n; scale = 0 })
as_confidence _ = err (value_error "number")

abbrev pub as_time : (String → Result DateTime) → Option Value → Result DateTime
as_time read_time (some (str s)) = read_time s
as_time read_time _ = err (value_error "time")

-- a field of type `list[str]` that must be there
abbrev pub required_texts : Option Value → Result (List String)
required_texts none = err (value_error "missing")
required_texts (some v) = as_texts (some v)

-- `StateAttribute.model_validate`; other entries are ignored
unfoldable pub read_attribute : (String → Result DateTime) → Value → Result StateAttribute
read_attribute read_time (obj fs) = do
  value ← as_any (lookup_field "value" fs)
  confidence ← as_confidence (lookup_field "confidence" fs)
  observed_at ← as_time read_time (lookup_field "observed_at" fs)
  freshness ← as_text (lookup_field "freshness" fs)
  source_observation_ids ← required_texts (lookup_field "source_observation_ids" fs)
  connector ← as_optional (lookup_field "connector" fs)
  ok (record {
    value = value;
    confidence = confidence;
    observed_at = observed_at;
    freshness = freshness;
    source_observation_ids = source_observation_ids;
    connector = connector;
  })
read_attribute read_time _ = err (value_error "object")

-- `candidate.model_dump(mode="json")`
abbrev pub dump_candidate : Platform → ConflictCandidate → Value
dump_candidate py c = obj (
    field "value" c.value (
      field "connector" (optional c.connector) (
        field "observation_id" (optional c.observation_id) (
          field "observed_at" (str (py.isoformat c.observed_at))
            (field "confidence" (flt c.confidence.mantissa c.confidence.scale) end)))))

-- `ConflictCandidate.model_validate`
unfoldable pub read_candidate : (String → Result DateTime) → Value → Result ConflictCandidate
read_candidate read_time (obj fs) = do
  value ← as_any (lookup_field "value" fs)
  connector ← as_optional (lookup_field "connector" fs)
  observation_id ← as_optional (lookup_field "observation_id" fs)
  observed_at ← as_time read_time (lookup_field "observed_at" fs)
  confidence ← as_confidence (lookup_field "confidence" fs)
  if only ("value" ∷ "connector" ∷ "observation_id" ∷ "observed_at" ∷ "confidence" ∷ []) fs
      then ok (record {
        value = value;
        connector = connector;
        observation_id = observation_id;
        observed_at = observed_at;
        confidence = confidence;
      })
      else err (value_error "extra field")
read_candidate read_time _ = err (value_error "object")

abbrev pub read_attributes : (String → Result DateTime) → Object → Result Attributes
read_attributes read_time [] = ok []
read_attributes read_time ((name, v) ∷ rest) = do
  attribute ← read_attribute read_time v
  others ← read_attributes read_time rest
  ok ((name, attribute) ∷ others)

abbrev pub read_candidates :
    (String → Result DateTime) → List Value → Result (List ConflictCandidate)
read_candidates read_time [] = ok []
read_candidates read_time (v ∷ rest) = do
  candidate ← read_candidate read_time v
  others ← read_candidates read_time rest
  ok (candidate ∷ others)

-- the row of a commit
abbrev pub commit_row : CommitRecord → DateTime → CommitLog
commit_row c now = record {
  tenant_id = c.tenant_id;
  commit_id = c.commit_id;
  parent_commit_id = c.parent_commit_id;
  entity_type = c.entity_type;
  entity_id = c.entity_id;
  actor = ("type", str "system") ∷ ("id", str "reality-compiler") ∷ [];
  cause = c.cause;
  observation_ids = c.observation_ids;
  action_id = none;
  mapping_version = "mvp-1";
  before = c.before;
  after = c.after;
  semantic_diff = c.semantic_diff;
  assurance_level = c.assurance_level;
  previous_hash = c.previous_hash;
  hash = c.hash;
  created_at = now;
}

-- the commit of a row
abbrev pub commit_of_row : CommitLog → CommitRecord
commit_of_row row = record {
  commit_id = row.commit_id;
  tenant_id = row.tenant_id;
  parent_commit_id = row.parent_commit_id;
  entity_type = row.entity_type;
  entity_id = row.entity_id;
  cause = row.cause;
  observation_ids = row.observation_ids;
  before = row.before;
  after = row.after;
  semantic_diff = row.semantic_diff;
  assurance_level = row.assurance_level;
  previous_hash = row.previous_hash;
  hash = row.hash;
}

abbrev pub provenance_of : Attributes → List String
provenance_of [] = []
provenance_of ((_, a) ∷ rest) = a.source_observation_ids ++ provenance_of rest

-- the row of a state
abbrev pub projection_row : Platform → OrderState → StateProjection
projection_row py state = record {
  tenant_id = state.tenant_id;
  entity_id = state.entity_id;
  entity_type = state.entity_type;
  attributes = dump_attributes py state.attributes;
  confidence =
      map (λ (name, a). (name, flt a.confidence.mantissa a.confidence.scale)) state.attributes;
  freshness = map (λ (name, a). (name, str a.freshness)) state.attributes;
  provenance = provenance_of state.attributes;
  producing_commit_id = some state.commit_id;
  state_version = state.state_version;
}

-- the state of a row
abbrev pub state_of_row : (String → Result DateTime) → String → StateProjection → Result OrderState
state_of_row read_time tenant_id row = do
  attributes ← read_attributes read_time row.attributes
  ok (record {
    tenant_id = tenant_id;
    entity_id = row.entity_id;
    entity_type = row.entity_type;
    state_version = row.state_version;
    attributes = attributes;
    commit_id = or_text row.producing_commit_id "";
  })

abbrev pub conflict_row : Platform → Conflict → ConflictRecord
conflict_row py c = record {
  tenant_id = c.tenant_id;
  conflict_id = c.conflict_id;
  entity_type = c.entity_type;
  entity_id = c.entity_id;
  attribute = c.attribute;
  candidates = map (dump_candidate py) c.candidates;
  status = c.status;
  detected_at = c.detected_at;
  resolved_value = c.resolved_value;
  resolved_by = c.resolved_by;
  resolved_at = c.resolved_at;
  resolution_reason = c.resolution_reason;
}

-- `_to_conflict`
abbrev pub to_conflict : (String → Result DateTime) → ConflictRecord → Result Conflict
to_conflict read_time row = do
  candidates ← read_candidates read_time row.candidates
  ok (record {
    conflict_id = row.conflict_id;
    tenant_id = row.tenant_id;
    entity_type = row.entity_type;
    entity_id = row.entity_id;
    attribute = row.attribute;
    candidates = candidates;
    status = row.status;
    detected_at = row.detected_at;
    resolved_value = row.resolved_value;
    resolved_by = row.resolved_by;
    resolved_at = row.resolved_at;
    resolution_reason = row.resolution_reason;
  })
