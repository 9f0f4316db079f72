-- ===== src/WorldState/Service/Ingest.antt =====
-- `ingest` and `_record_conflict` of src/reality_layer/world_state/service.py.
use Prim.Native.String.{◌++◌ as append}
use agents_reality_layer.Prelude.{
  nat_eq, string_eq, option_eq, pair_eq, triple_eq, ℕ, ◌+◌, String, Bool, true, false, ◌&&◌, not,
  Option, none, some, [], ◌∷◌, ◌++◌, ◌==◌, ◌!=◌, any, length, if◌then◌else◌, is_some,
}
use agents_reality_layer.Prelude.Time.{DateTime}
use agents_reality_layer.Dict
use agents_reality_layer.Json.{Platform, py_eq}
use agents_reality_layer.Errors.{Result, ok, err, key_error}
use agents_reality_layer.WorldState.Models.{
  Observation, StateAttribute, Attributes, OrderState, CommitRecord, ConflictCandidate, Conflict,
}
use agents_reality_layer.WorldState.Service.{
  WorldStateService, EntityKey, project, attributes_for, dump_attributes, changed_names, diff,
  last_observation_id,
}
use agents_reality_layer.WorldState.Service.Commit.{Change, create_commit}

-- What `uuid4` and the clock give in one call: for the commit, and for the conflict over a name.
pub record Fresh : Type 0 where
  pub now : DateTime
  pub commit_hex : String
  pub conflict_hex : String → String
  pub detected_at : String → DateTime

abbrev pub candidate_of : StateAttribute → ConflictCandidate
candidate_of a = record {
  value = a.value;
  connector = a.connector;
  observation_id = last_observation_id a;
  observed_at = a.observed_at;
  confidence = a.confidence;
}

-- the test of `already_seen`, on one candidate
abbrev pub same_claim : ConflictCandidate → ConflictCandidate → Bool
same_claim incoming c = c.connector == incoming.connector && py_eq c.value incoming.value

-- an open conflict learns a candidate that it has not seen
abbrev pub add_candidate : ConflictCandidate → Conflict → Conflict
add_candidate incoming conflict =
    if any (same_claim incoming) conflict.candidates
    then conflict
    else record conflict { candidates = conflict.candidates ++ incoming ∷ [] }

abbrev pub new_conflict : EntityKey → String → StateAttribute → StateAttribute → Fresh → Conflict
new_conflict (tenant_id, entity_type, entity_id) attribute existing incoming fresh = record {
  conflict_id = append "cnf_" (fresh.conflict_hex attribute);
  tenant_id = tenant_id;
  entity_type = entity_type;
  entity_id = entity_id;
  attribute = attribute;
  candidates = candidate_of existing ∷ candidate_of incoming ∷ [];
  status = "open";
  detected_at = fresh.detected_at attribute;
  resolved_value = none;
  resolved_by = none;
  resolved_at = none;
  resolution_reason = none;
}

-- the conflict object at a place, changed
abbrev pub update_conflict : WorldStateService → ℕ → (Conflict → Conflict) → WorldStateService
update_conflict s place change = elim (Dict.get s.store place) [
  | none ↦ s
  | some conflict ↦ record s { store = Dict.put s.store place (change conflict) }
]

-- a new conflict object, held by both dictionaries
abbrev pub hold_conflict : WorldStateService → EntityKey → String → Conflict → WorldStateService
hold_conflict s key attribute conflict = record s {
  open_conflicts = Dict.put s.open_conflicts (key, attribute) (length s.store);
  conflicts_by_id = Dict.put s.conflicts_by_id (key.0, conflict.conflict_id) (length s.store);
  store = Dict.put s.store (length s.store) conflict;
}

-- `_record_conflict`
unfoldable pub record_conflict :
    WorldStateService
    → EntityKey
    → String
    → StateAttribute
    → StateAttribute
    → Fresh
    → WorldStateService
record_conflict s key attribute existing incoming fresh =
    elim (Dict.get s.open_conflicts (key, attribute)) [
      | some place ↦ update_conflict s place (add_candidate (candidate_of incoming))
      | none ↦ hold_conflict s key attribute (new_conflict key attribute existing incoming fresh)
    ]

-- the five conditions under which an incoming value does not replace the existing one
unfoldable pub contradicts : StateAttribute → StateAttribute → Bool
contradicts existing incoming =
    not (py_eq existing.value incoming.value)
    && existing.freshness == "fresh"
    && is_some existing.connector
    && existing.connector != incoming.connector

-- the loop over the incoming attributes
unfoldable pub merge :
    WorldStateService
    → EntityKey
    → Attributes
    → Attributes
    → Attributes
    → Fresh
    → WorldStateService × Attributes
unfolding record_conflict contradicts
merge s key previous attributes [] fresh = (s, attributes)
merge s key previous attributes ((name, incoming) ∷ rest) fresh = elim (Dict.get previous name) [
  | none ↦ merge s key previous (Dict.put attributes name incoming) rest fresh
  | some existing ↦ elim (contradicts existing incoming) [
    | true ↦
        merge (record_conflict s key name existing incoming fresh) key previous attributes rest
          fresh
    | false ↦ merge s key previous (Dict.put attributes name incoming) rest fresh
  ]
]

abbrev pub attributes_before : Option OrderState → Attributes
attributes_before none = []
attributes_before (some state) = state.attributes

abbrev pub next_version : Option OrderState → ℕ
next_version none = 1
next_version (some state) = state.state_version + 1

abbrev pub key_of : String → Observation → EntityKey
key_of tenant_id o = (tenant_id, o.object_type, o.object_id)

-- the state that a commit of an observation makes
abbrev pub compiled :
    Platform → String → Observation → Option OrderState → Attributes → CommitRecord → OrderState
compiled py tenant_id o previous attributes commit = record {
  tenant_id = tenant_id;
  entity_id = append o.object_type (append ":" o.object_id);
  entity_type = py.capitalize o.object_type;
  state_version = next_version previous;
  attributes = attributes;
  commit_id = commit.commit_id;
}

-- the state of a commit, stored
abbrev pub store_state :
    Platform
    → String
    → Observation
    → Option OrderState
    → Attributes
    → Result CommitRecord × WorldStateService
    → Result OrderState × WorldStateService
store_state py tenant_id o previous attributes (err e, s) = (err e, s)
store_state py tenant_id o previous attributes (ok commit, s) =
    let state = compiled py tenant_id o previous attributes commit in
    (ok state, record s { states = Dict.put s.states (key_of tenant_id o) state })

-- the commit of `ingest` and the state that it makes
abbrev pub commit_state :
    Platform
    → WorldStateService
    → String
    → Observation
    → String
    → String
    → Option OrderState
    → Attributes
    → String
    → Result OrderState × WorldStateService
commit_state py s tenant_id o cause assurance_level previous attributes hex =
    let before = attributes_for py previous in
    let after = dump_attributes py attributes in
    let change : Change = record {
      tenant_id = tenant_id;
      entity_type = o.object_type;
      entity_id = o.object_id;
      cause = cause;
      observation_ids = o.observation_id ∷ [];
      before = before;
      after = after;
      semantic_diff = diff before after;
      assurance_level = assurance_level;
    } in
    store_state py tenant_id o previous attributes (create_commit py s change hex)

-- what follows the merge: nothing changed, or a commit
unfoldable pub compile :
    Platform
    → WorldStateService
    → String
    → Observation
    → String
    → String
    → Option OrderState
    → Attributes
    → String
    → Result OrderState × WorldStateService
unfolding create_commit changed_names diff
compile py s tenant_id o cause assurance_level none attributes hex =
    commit_state py s tenant_id o cause assurance_level none attributes hex
compile py s tenant_id o cause assurance_level (some state) attributes hex =
    elim (changed_names (dump_attributes py state.attributes) (dump_attributes py attributes)) [
      | [] ↦ (ok state, s)
      | _ ∷ _ ↦ commit_state py s tenant_id o cause assurance_level (some state) attributes hex
    ]

-- `self._observations[key] = observation`
abbrev pub note_observation : WorldStateService → String → Observation → WorldStateService
note_observation s tenant_id o = record s {
  observations = Dict.put s.observations (tenant_id, o.observation_id) o;
}

-- an observation that is not known yet
abbrev pub ingest_new :
    Platform
    → WorldStateService
    → String
    → Observation
    → String
    → String
    → Fresh
    → Attributes
    → Result OrderState × WorldStateService
ingest_new py s tenant_id o cause assurance_level fresh incoming =
    let key = key_of tenant_id o in
    let previous = Dict.get s.states key in
    let before = attributes_before previous in
    let (s', attributes) =
      merge (note_observation s tenant_id o) key before before incoming fresh in
    compile py s' tenant_id o cause assurance_level previous attributes fresh.commit_hex

-- `ingest`; the observation is noted before its time is looked at
unfoldable pub ingest :
    Platform
    → WorldStateService
    → String
    → Observation
    → String
    → String
    → Fresh
    → Result OrderState × WorldStateService
unfolding project merge compile
ingest py s tenant_id o cause assurance_level fresh =
    elim (Dict.get s.observations (tenant_id, o.observation_id)) [
      | some _ ↦ elim (Dict.get s.states (key_of tenant_id o)) [
        | none ↦ (err (key_error o.object_id), s)
        | some state ↦ (ok state, s)
      ]
      | none ↦ elim (project fresh.now o) [
        | err e ↦ (err e, note_observation s tenant_id o)
        | ok incoming ↦ ingest_new py s tenant_id o cause assurance_level fresh incoming
      ]
    ]
