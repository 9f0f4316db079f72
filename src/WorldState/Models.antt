-- ===== src/WorldState/Models.antt =====
-- src/reality_layer/world_state/models.py
use agents_reality_layer.Prelude.{ℕ, String, Option, none, some, List, map}
use agents_reality_layer.Prelude.Float.{Float}
use agents_reality_layer.Prelude.Time.{DateTime}
use agents_reality_layer.Dict.{Dict}
use agents_reality_layer.Json.{
  Platform, Value, null, flt, str, arr, obj, end, field, Object, items_of,
}

pub record Observation : Type 0 where
  pub observation_id : String
  pub connector : String
  pub object_type : String
  pub object_id : String
  pub observed_at : DateTime
  pub payload : Object

pub record StateAttribute : Type 0 where
  pub value : Value
  pub confidence : Float
  pub observed_at : DateTime
  pub freshness : String
  pub source_observation_ids : List String
  pub connector : Option String

abbrev pub Attributes : Type 0
Attributes = Dict String StateAttribute

pub record OrderState : Type 0 where
  pub tenant_id : String
  pub entity_id : String
  pub entity_type : String
  pub state_version : ℕ
  pub attributes : Attributes
  pub commit_id : String

-- `hash` is Python's field of that name.
pub record CommitRecord : Type 0 where
  pub commit_id : String
  pub tenant_id : String
  pub parent_commit_id : Option String
  pub entity_type : String
  pub entity_id : String
  pub cause : String
  pub observation_ids : List String
  pub before : Object
  pub after : Object
  pub semantic_diff : Object
  pub assurance_level : String
  pub previous_hash : Option String
  pub hash : String

pub record ConflictCandidate : Type 0 where
  pub value : Value
  pub connector : Option String
  pub observation_id : Option String
  pub observed_at : DateTime
  pub confidence : Float

pub record Conflict : Type 0 where
  pub conflict_id : String
  pub tenant_id : String
  pub entity_type : String
  pub entity_id : String
  pub attribute : String
  pub candidates : List ConflictCandidate
  pub status : String
  pub detected_at : DateTime
  pub resolved_value : Option Value
  pub resolved_by : Option String
  pub resolved_at : Option DateTime
  pub resolution_reason : Option String

abbrev pub optional : Option String → Value
optional none = null
optional (some s) = str s

-- `attribute.model_dump(mode="json")`
unfoldable pub dump_attribute : Platform → StateAttribute → Value
dump_attribute py a = obj (
    field "value" a.value (
      field "confidence" (flt a.confidence.mantissa a.confidence.scale) (
        field "observed_at" (str (py.isoformat a.observed_at)) (
          field "freshness" (str a.freshness) (
            field "source_observation_ids" (arr (items_of (map str a.source_observation_ids)))
              (field "connector" (optional a.connector) end))))))
