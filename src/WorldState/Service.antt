-- ===== src/WorldState/Service.antt =====
-- `WorldStateService` of src/reality_layer/world_state/service.py: its state, and the private
-- helpers. A conflict is one object that two dictionaries hold, so it lives in a store of its own
-- and the dictionaries hold its place. What `uuid4` and the clock give is an argument.
pub mod Commit
pub mod Ingest
pub mod Conflicts
pub mod Queries
pub mod Frame
pub mod Calls
pub mod Lineage
pub mod History
pub mod Fuel
pub mod Outcome
pub mod Dedup
pub mod Merge
pub mod Protect
pub mod Versions
pub mod Resolve
use Prim.Native.String.{compare}
use Prim.Native.Nat.{Ordering}
use agents_reality_layer.Prelude.{
  nat_eq, string_eq, option_eq, pair_eq, ℕ, ◌+◌, String, Bool, true, false, ◌&&◌, ◌||◌, not, Option,
  none, some, List, [], ◌∷◌, ◌++◌, map, ◌==◌, ◌!=◌, leb, get_last?, any, filter, if◌then◌else◌,
  is_some,
}
use agents_reality_layer.Prelude.Int.{pos}
use agents_reality_layer.Prelude.Float.{Float}
use agents_reality_layer.Prelude.Time.{DateTime}
use agents_reality_layer.Dict
use agents_reality_layer.Dict.{Dict}
use agents_reality_layer.Json.{
  Platform, Value, null, str, arr, obj, Object, items_of, lookup_field, py_eq,
}
use agents_reality_layer.Errors.{Result, ok, err, raised, key_error}
use agents_reality_layer.WorldState.Models.{
  Observation, StateAttribute, Attributes, OrderState, CommitRecord, ConflictCandidate, Conflict,
  dump_attribute,
}

-- tenant, type and id of an entity
abbrev pub EntityKey : Type 0
EntityKey = String × String × String

-- and the name of an attribute of it
abbrev pub ConflictKey : Type 0
ConflictKey = EntityKey × String

pub record WorldStateService : Type 0 where
  pub observations : Dict (String × String) Observation
  pub states : Dict EntityKey OrderState
  pub commits : Dict (String × String) CommitRecord
  pub latest_commit : Dict String String
  pub open_conflicts : Dict ConflictKey ℕ
  pub conflicts_by_id : Dict (String × String) ℕ
  -- the conflict objects by their place
  pub store : Dict ℕ Conflict

abbrev pub init : WorldStateService
init = record {
  observations = [];
  states = [];
  commits = [];
  latest_commit = [];
  open_conflicts = [];
  conflicts_by_id = [];
  store = [];
}

-- 0.98, 0.9 and 0.95 as doubles
abbrev pub high_confidence : Float
high_confidence = record { mantissa = pos 8827055269646172; scale = 53 }

abbrev pub usual_confidence : Float
usual_confidence = record { mantissa = pos 8106479329266893; scale = 53 }

abbrev pub default_confidence : Float
default_confidence = record { mantissa = pos 8556839292003942; scale = 53 }

-- timedelta(minutes=5)
abbrev pub five_minutes : ℕ
five_minutes = 300000000

abbrev pub projected : Observation → String → Object → Attributes
projected o freshness = map λ (name, value). (
  name,
  record {
    value = value;
    confidence = if name == "id" || name == "status" then high_confidence else usual_confidence;
    observed_at = o.observed_at;
    freshness = freshness;
    source_observation_ids = o.observation_id ∷ [];
    connector = some o.connector;
  },
)

-- `_project`: the clock has a zone, so an observed time without one cannot be subtracted from it
unfoldable pub project : DateTime → Observation → Result Attributes
project now o =
    if not o.observed_at.aware
    then err (raised "can't subtract offset-naive and offset-aware datetimes")
    else ok (
        projected o
          (if leb now.micros (o.observed_at.micros + five_minutes) then "fresh" else "stale")
          o.payload)

-- `{name: attribute.model_dump(mode="json") for ...}`
abbrev pub dump_attributes : Platform → Attributes → Object
dump_attributes py = map λ (name, attribute). (name, dump_attribute py attribute)

-- `_attributes_for`
abbrev pub attributes_for : Platform → Option OrderState → Object
attributes_for py none = []
attributes_for py (some state) = dump_attributes py state.attributes

abbrev pub or_null : Option Value → Value
or_null none = null
or_null (some v) = v

-- `_attribute_value`, of what `get` gives
abbrev pub attribute_value : Option Value → Value
attribute_value none = null
attribute_value (some (obj fs)) = or_null (lookup_field "value" fs)
attribute_value (some v) = v

-- a name in the order of the code points
abbrev pub insert_name : String → List String → List String
insert_name n [] = n ∷ []
insert_name n (m ∷ ms) =
    let rest = insert_name n ms in elim (compare n m) [ Ordering.gt ↦ m ∷ rest | _ ↦ n ∷ m ∷ ms ]

abbrev pub sort_names : List String → List String
sort_names [] = []
sort_names (n ∷ ns) = insert_name n (sort_names ns)

-- `set(before) | set(after)`
abbrev pub union_names : Object → Object → List String
union_names before after =
    Dict.keys before ++ filter (λ n. not (Dict.contains before n)) (Dict.keys after)

abbrev pub differs : Object → Object → String → Bool
differs before after name =
    not (py_eq (attribute_value (Dict.get before name)) (attribute_value (Dict.get after name)))

-- the names that `_diff` lists
unfoldable pub changed_names : Object → Object → List String
changed_names before after = sort_names (filter (differs before after) (union_names before after))

-- `_diff`
unfoldable pub diff : Object → Object → Object
unfolding changed_names
diff before after =
    ("attributes_changed", arr (items_of (map str (changed_names before after)))) ∷ []

-- `_last_observation_id`
abbrev pub last_observation_id : StateAttribute → Option String
last_observation_id a = get_last? a.source_observation_ids
