-- ===== src/WorldState/Service/Conflicts.antt =====
-- Conflicts in src/reality_layer/world_state/service.py: `has_open_conflicts`, `get_conflict`,
-- `list_conflicts`, `resolve_conflict` and `hydrate_conflict`.
use Prim.Native.String.{◌++◌ as append}
use agents_reality_layer.Prelude.{
  nat_eq, string_eq, option_eq, pair_eq, triple_eq, ℕ, ◌+◌, String, Bool, true, ◌&&◌, ◌||◌, not,
  Option, none, some, List, [], ◌∷◌, ◌==◌, any, filter, length, leb, if◌then◌else◌,
}
use agents_reality_layer.Prelude.Float.{Float, float_gt}
use agents_reality_layer.Prelude.Time.{DateTime}
use agents_reality_layer.Prelude.Text.{truthy}
use agents_reality_layer.Dict
use agents_reality_layer.Json.{Platform, Value, py_eq}
use agents_reality_layer.Errors.{Result, ok, err, key_error, raised}
use agents_reality_layer.WorldState.Models.{
  StateAttribute, Attributes, OrderState, CommitRecord, ConflictCandidate, Conflict,
}
use agents_reality_layer.WorldState.Service.{
  WorldStateService, EntityKey, ConflictKey, default_confidence, dump_attributes, diff,
}
use agents_reality_layer.WorldState.Service.Commit.{Change, create_commit}

-- `has_open_conflicts`
unfoldable pub has_open_conflicts : WorldStateService → EntityKey → Bool
has_open_conflicts s key = any (λ k. k.0 == key) (Dict.keys s.open_conflicts)

abbrev pub object_at : WorldStateService → Option ℕ → Option (ℕ × Conflict)
object_at s none = none
object_at s (some place) = elim (Dict.get s.store place) [
  | none ↦ none
  | some conflict ↦ some (place, conflict)
]

-- `get_conflict`, with the place of the object
unfoldable pub get_conflict : WorldStateService → String → String → Result (ℕ × Conflict)
get_conflict s tenant_id conflict_id =
    elim (object_at s (Dict.get s.conflicts_by_id (tenant_id, conflict_id))) [
      | none ↦ err (key_error (append "Unknown conflict: " conflict_id))
      | some found ↦ ok found
    ]

-- the conflicts of a tenant, with the status if one is asked for
abbrev pub selected :
    WorldStateService → String → Option String → List ((String × String) × ℕ) → List Conflict
selected s tenant_id status [] = []
selected s tenant_id status ((key, place) ∷ rest) =
    let others = selected s tenant_id status rest in
    elim (Dict.get s.store place) [
      | none ↦ others
      | some c ↦
          if key.0 == tenant_id && elim status [ none ↦ true | some x ↦ c.status == x ]
          then c ∷ others
          else others
    ]

-- in the order of the times; of two at one time, the one that comes first stays first
abbrev pub insert_conflict : Conflict → List Conflict → List Conflict
insert_conflict c [] = c ∷ []
insert_conflict c (d ∷ ds) =
    let rest = insert_conflict c ds in
    if leb c.detected_at.micros d.detected_at.micros then c ∷ d ∷ ds else d ∷ rest

abbrev pub sort_conflicts : List Conflict → List Conflict
sort_conflicts [] = []
sort_conflicts (c ∷ cs) = insert_conflict c (sort_conflicts cs)

-- a time with a zone and one without cannot be compared
abbrev pub comparable : List Conflict → Bool
comparable cs =
    not (any (λ c. c.detected_at.aware) cs) || not (any (λ c. not c.detected_at.aware) cs)

-- `list_conflicts`
unfoldable pub list_conflicts : WorldStateService → String → Option String → Result (List Conflict)
list_conflicts s tenant_id status =
    let conflicts = selected s tenant_id status s.conflicts_by_id in
    if comparable conflicts
    then ok (sort_conflicts conflicts)
    else err (raised "can't compare offset-naive and offset-aware datetimes")

-- the observations that the candidates name
abbrev pub observation_ids : List ConflictCandidate → List String
observation_ids [] = []
observation_ids (c ∷ cs) =
    let rest = observation_ids cs in
    elim c.observation_id [ none ↦ rest | some i ↦ if truthy i then i ∷ rest else rest ]

-- `xs or ys`
abbrev pub or_else : List String → List String → List String
or_else [] ys = ys
or_else (x ∷ xs) ys = x ∷ xs

-- `max` of the confidences after the first, which keeps the first of equal ones
abbrev pub max_confidence : Float → List ConflictCandidate → Float
max_confidence best [] = best
max_confidence best (c ∷ cs) =
    max_confidence (if float_gt c.confidence best then c.confidence else best) cs

abbrev pub confidence_of : List ConflictCandidate → Float
confidence_of [] = default_confidence
confidence_of (c ∷ cs) = max_confidence c.confidence cs

-- the attribute that the operator's decision puts in place
unfoldable pub resolved_attribute : Conflict → Value → DateTime → StateAttribute
resolved_attribute conflict resolved_value now =
    let matching = filter (λ c. py_eq c.value resolved_value) conflict.candidates in
    record {
      value = resolved_value;
      confidence = confidence_of matching;
      observed_at = now;
      freshness = "fresh";
      source_observation_ids =
          or_else (observation_ids matching) (observation_ids conflict.candidates);
      connector = some "operator";
    }

abbrev pub key_of_conflict : String → Conflict → EntityKey
key_of_conflict tenant_id c = (tenant_id, c.entity_type, c.entity_id)

-- the state of the commit of a resolution, stored
abbrev pub store_resolved :
    String
    → Conflict
    → OrderState
    → Attributes
    → Result CommitRecord × WorldStateService
    → Result (Unit {0}) × WorldStateService
store_resolved tenant_id conflict state attributes (err e, s) = (err e, s)
store_resolved tenant_id conflict state attributes (ok commit, s) = (
  ok tt,
  record s {
    states = Dict.put s.states (key_of_conflict tenant_id conflict) (record state {
      tenant_id = tenant_id;
      state_version = state.state_version + 1;
      attributes = attributes;
      commit_id = commit.commit_id;
    });
  },
)

-- the commit of a resolution, and the state that it makes
unfoldable pub resolve_state :
    Platform
    → WorldStateService
    → String
    → Conflict
    → Value
    → DateTime
    → OrderState
    → String
    → Result (Unit {0}) × WorldStateService
unfolding resolved_attribute create_commit diff
resolve_state py s tenant_id conflict resolved_value now state hex =
    let attribute = resolved_attribute conflict resolved_value now in
    let attributes : Attributes = Dict.put state.attributes conflict.attribute attribute in
    let before = dump_attributes py state.attributes in
    let after = dump_attributes py attributes in
    let change : Change = record {
      tenant_id = tenant_id;
      entity_type = conflict.entity_type;
      entity_id = conflict.entity_id;
      cause = append "conflict_resolved:" conflict.conflict_id;
      observation_ids = attribute.source_observation_ids;
      before = before;
      after = after;
      semantic_diff = diff before after;
      assurance_level = "operator_resolved";
    } in
    store_resolved tenant_id conflict state attributes (create_commit py s change hex)

-- the conflict as `resolve_conflict` leaves it
abbrev pub resolved_as : Conflict → Value → String → DateTime → String → Conflict
resolved_as conflict resolved_value resolved_by now reason = record conflict {
  status = "resolved";
  resolved_value = some resolved_value;
  resolved_by = some resolved_by;
  resolved_at = some now;
  resolution_reason = some reason;
}

-- the last lines of `resolve_conflict`: the object is changed, and no longer open
abbrev pub close_conflict : WorldStateService → String → ℕ → Conflict → Conflict → WorldStateService
close_conflict s tenant_id place conflict closed = record s {
  store = Dict.put s.store place closed;
  open_conflicts =
      Dict.pop s.open_conflicts (key_of_conflict tenant_id conflict, conflict.attribute);
}

-- what `resolve_conflict` does once the state is written
abbrev pub finish_resolution :
    String
    → ℕ
    → Conflict
    → Conflict
    → Result (Unit {0}) × WorldStateService
    → Result Conflict × WorldStateService
finish_resolution tenant_id place conflict closed (err e, s) = (err e, s)
finish_resolution tenant_id place conflict closed (ok _, s) =
    (ok closed, close_conflict s tenant_id place conflict closed)

-- the resolution of a conflict that is not resolved yet
unfoldable pub resolve_open :
    Platform
    → WorldStateService
    → String
    → ℕ
    → Conflict
    → Value
    → String
    → String
    → DateTime
    → String
    → Result Conflict × WorldStateService
unfolding resolve_state
resolve_open py s tenant_id place conflict resolved_value resolved_by reason now hex =
    let closed = resolved_as conflict resolved_value resolved_by now reason in
    elim (Dict.get s.states (key_of_conflict tenant_id conflict)) [
      | none ↦ (ok closed, close_conflict s tenant_id place conflict closed)
      | some state ↦
          finish_resolution tenant_id place conflict closed
            (resolve_state py s tenant_id conflict resolved_value now state hex)
    ]

-- `resolve_conflict`
unfoldable pub resolve_conflict :
    Platform
    → WorldStateService
    → String
    → String
    → Value
    → String
    → String
    → DateTime
    → String
    → Result Conflict × WorldStateService
unfolding get_conflict resolve_open
resolve_conflict py s tenant_id conflict_id resolved_value resolved_by reason now hex =
    elim (get_conflict s tenant_id conflict_id) [
      | err e ↦ (err e, s)
      | ok (place, conflict) ↦
          if conflict.status == "resolved"
          then (ok conflict, s)
          else resolve_open py s tenant_id place conflict resolved_value resolved_by reason now hex
    ]

-- `hydrate_conflict`, of an object that the service does not hold yet
unfoldable pub hydrate_conflict : WorldStateService → Conflict → WorldStateService
hydrate_conflict s conflict =
    let place = length s.store in
    let key : ConflictKey = (key_of_conflict conflict.tenant_id conflict, conflict.attribute) in
    record s {
      store = Dict.put s.store place conflict;
      conflicts_by_id = Dict.put s.conflicts_by_id (conflict.tenant_id, conflict.conflict_id) place;
      open_conflicts =
          if conflict.status == "open"
          then Dict.put s.open_conflicts key place
          else Dict.pop s.open_conflicts key;
    }
