-- ===== src/WorldState/Service/Queries.antt =====
-- `get_entity`, `list_entities`, `get_commit`, `list_commits` and `hydrate` of
-- src/reality_layer/world_state/service.py. The walk along the parents does not visit a commit
-- twice, so it visits at most as many as there are: that number and one more is its fuel.
use Prim.Native.String.{◌++◌ as append, compare}
use Prim.Native.Nat.{Ordering}
use agents_reality_layer.Prelude.{
  nat_eq, string_eq, pair_eq, triple_eq, ℕ, zero, suc, String, Bool, true, false, ◌&&◌, Option,
  none, some, List, [], ◌∷◌, ◌==◌, any, length, if◌then◌else◌,
}
use agents_reality_layer.Prelude.Float.{Float, float_ge}
use agents_reality_layer.Prelude.Text.{truthy, after_colon}
use agents_reality_layer.Dict
use agents_reality_layer.Json.{Platform, arr, nil, py_str}
use agents_reality_layer.Errors.{Result, ok, err, key_error}
use agents_reality_layer.WorldState.Models.{StateAttribute, OrderState, CommitRecord}
use agents_reality_layer.WorldState.Service.{WorldStateService, EntityKey}

-- `get_entity`
unfoldable pub get_entity : WorldStateService → String → String → String → Result OrderState
get_entity s tenant_id entity_type entity_id =
    elim (Dict.get s.states (tenant_id, entity_type, entity_id)) [
      | none ↦ err (key_error (append "Unknown " (append entity_type (append ": " entity_id))))
      | some state ↦ ok state
    ]

-- `get_order`
abbrev pub get_order : WorldStateService → String → String → Result OrderState
get_order s tenant_id order_id = get_entity s tenant_id "order" order_id

-- a filter that is not given, or that some attribute passes
abbrev pub passes {ℓ} : {A : Type ℓ} → (A → StateAttribute → Bool) → Option A → OrderState → Bool
passes test none entity = true
passes test (some x) entity = any (test x) (Dict.values entity.attributes)

-- `_matches_filters`
unfoldable pub matches_filters :
    Platform → OrderState → Option String → Option String → Option Float → Bool
matches_filters py entity state_filter freshness_filter min_confidence =
    passes (λ x a. py_str py a.value == x) state_filter entity
    && passes (λ x a. a.freshness == x) freshness_filter entity
    && passes (λ x a. float_ge a.confidence x) min_confidence entity

abbrev pub insert_entity : OrderState → List OrderState → List OrderState
insert_entity e [] = e ∷ []
insert_entity e (d ∷ ds) =
    let rest = insert_entity e ds in
    elim (compare e.entity_id d.entity_id) [ Ordering.gt ↦ d ∷ rest | _ ↦ e ∷ d ∷ ds ]

abbrev pub is_type : Platform → Option String → String → Bool
is_type py none state_type = true
is_type py (some entity_type) state_type = state_type == py.lower entity_type

-- the states that `list_entities` selects, sorted by the id
abbrev pub select_entities :
    Platform
    → List (EntityKey × OrderState)
    → String
    → Option String
    → Option String
    → Option String
    → Option Float
    → List OrderState
select_entities py [] tenant_id entity_type state freshness min_confidence = []
select_entities py (((t, ty, i), e) ∷ rest) tenant_id entity_type state freshness min_confidence =
    let others = select_entities py rest tenant_id entity_type state freshness min_confidence in
    if t == tenant_id
      && is_type py entity_type ty
      && matches_filters py e state freshness min_confidence
    then insert_entity e others
    else others

-- `list_entities`
unfoldable pub list_entities :
    Platform
    → WorldStateService
    → String
    → Option String
    → Option String
    → Option String
    → Option Float
    → List OrderState
unfolding matches_filters
list_entities py s = select_entities py s.states

-- `get_commit`
unfoldable pub get_commit : WorldStateService → String → String → Result CommitRecord
get_commit s tenant_id commit_id = elim (Dict.get s.commits (tenant_id, commit_id)) [
  | none ↦ err (key_error (append "Unknown commit: " commit_id))
  | some commit ↦ ok commit
]

-- `get_commit_for_state`
abbrev pub get_commit_for_state : WorldStateService → String → OrderState → Result CommitRecord
get_commit_for_state s tenant_id state = get_commit s tenant_id state.commit_id

-- the loop of `list_commits`, the newest commit first
unfoldable pub walk :
    ℕ → WorldStateService → String → List String → Option String → List CommitRecord
walk zero s tenant_id seen current = []
walk (suc fuel) s tenant_id seen none = []
walk (suc fuel) s tenant_id seen (some i) = elim (any (λ j. j == i) seen) [
  | true ↦ []
  | false ↦ elim (Dict.get s.commits (tenant_id, i)) [
    | none ↦ []
    | some commit ↦ commit ∷ walk fuel s tenant_id (i ∷ seen) commit.parent_commit_id
  ]
]

abbrev pub reverse_onto {ℓ} : {A : Type ℓ} → List A → List A → List A
reverse_onto [] ys = ys
reverse_onto (x ∷ xs) ys = reverse_onto xs (x ∷ ys)

-- the commits of a tenant, the oldest first
unfoldable pub history : WorldStateService → String → List CommitRecord
unfolding walk
history s tenant_id =
    reverse_onto (walk (suc (length s.commits)) s tenant_id [] (Dict.get s.latest_commit tenant_id))
      []

abbrev pub commits_after : String → List CommitRecord → Option (List CommitRecord)
commits_after since [] = none
commits_after since (c ∷ cs) =
    let rest = commits_after since cs in if c.commit_id == since then some cs else rest

abbrev pub known_commits : String → Option (List CommitRecord) → Result (List CommitRecord)
known_commits since none = err (key_error (append "Unknown commit: " since))
known_commits since (some cs) = ok cs

-- `list_commits`; a tenant without commits has none after an unknown one either
unfoldable pub list_commits :
    WorldStateService → String → Option String → Result (List CommitRecord)
unfolding history
list_commits s tenant_id none = ok (history s tenant_id)
list_commits s tenant_id (some since) = elim (Dict.get s.latest_commit tenant_id) [
  | none ↦ ok []
  | some _ ↦ known_commits since (commits_after since (history s tenant_id))
]

-- the loop of `_is_ancestor`
unfoldable pub ancestor_from :
    ℕ → WorldStateService → String → String → List String → Option String → Bool
ancestor_from zero s tenant_id candidate seen current = false
ancestor_from (suc fuel) s tenant_id candidate seen none = false
ancestor_from (suc fuel) s tenant_id candidate seen (some i) = elim (any (λ j. j == i) seen) [
  | true ↦ false
  | false ↦ elim (i == candidate) [
    | true ↦ true
    | false ↦ elim (Dict.get s.commits (tenant_id, i)) [
      | none ↦ false
      | some commit ↦ ancestor_from fuel s tenant_id candidate (i ∷ seen) commit.parent_commit_id
    ]
  ]
]

-- `_is_ancestor`
abbrev pub is_ancestor : WorldStateService → String → String → String → Bool
is_ancestor s tenant_id candidate descendant =
    ancestor_from (suc (suc (length s.commits))) s tenant_id candidate [] (some descendant)

-- `x or y` of a text that may be missing
abbrev pub or_text : Option String → String → String
or_text none y = y
or_text (some x) y = if truthy x then x else y

abbrev pub set_latest : WorldStateService → String → String → WorldStateService
set_latest s tenant_id commit_id = record s {
  latest_commit = Dict.put s.latest_commit tenant_id commit_id;
}

-- the parent that is known by its hash only
abbrev pub stub : Platform → OrderState → String → String → CommitRecord
stub py state parent_commit_id parent_hash = record {
  commit_id = parent_commit_id;
  tenant_id = state.tenant_id;
  parent_commit_id = none;
  entity_type = py.lower state.entity_type;
  entity_id = after_colon state.entity_id;
  cause = "hydrated";
  observation_ids = [];
  before = [];
  after = [];
  semantic_diff = ("attributes_changed", arr nil) ∷ [];
  assurance_level = "observed";
  previous_hash = none;
  hash = parent_hash;
}

abbrev pub add_stub :
    Platform → WorldStateService → OrderState → Option String → Option String → WorldStateService
add_stub py s state (some parent) (some hash) =
    if truthy parent && truthy hash
    then record s {
      commits = Dict.put s.commits (state.tenant_id, parent) (stub py state parent hash);
    }
    else s
add_stub py s state _ _ = s

-- the latest commit of the tenant after `hydrate`
unfoldable pub latest_after : WorldStateService → OrderState → Option String → String
unfolding ancestor_from
latest_after s state parent = elim (Dict.get s.latest_commit state.tenant_id) [
  | none ↦ or_text parent state.commit_id
  | some current ↦
      if is_ancestor s state.tenant_id state.commit_id current
      then current
      else or_text parent state.commit_id
]

-- `hydrate`
unfoldable pub hydrate :
    Platform → WorldStateService → OrderState → Option String → Option String → WorldStateService
unfolding latest_after
hydrate py s state parent_commit_id parent_hash =
    let key : EntityKey =
      (state.tenant_id, py.lower state.entity_type, after_colon state.entity_id) in
    let s' : WorldStateService = record s { states = Dict.put s.states key state } in
    add_stub py (set_latest s' state.tenant_id (latest_after s state parent_commit_id)) state
      parent_commit_id parent_hash
