-- ===== src/WorldState/Service/Outcome.antt =====
-- The ways in which a call of `ingest` of src/reality_layer/world_state/service.py can end.
use agents_reality_layer.Prelude.{
  string_eq, pair_eq, triple_eq, String, none, some, [], ◌∷◌, ◌≡◌, refl, inl, inr, Option,
  Option-cases, List-cases, subst, sym,
}
use agents_reality_layer.Dict
use agents_reality_layer.Json.{Platform}
use agents_reality_layer.Errors.{Error, Result, ok, err, key_error, Result-cases}
use agents_reality_layer.WorldState.Models.{Observation, Attributes, OrderState, CommitRecord}
use agents_reality_layer.WorldState.Service.{
  WorldStateService, EntityKey, project, changed_names, dump_attributes, attributes_for, diff,
}
use agents_reality_layer.WorldState.Service.Commit.{
  Change, latest_hash, draft, sealed, store_commit,
}
use agents_reality_layer.WorldState.Service.Ingest.{
  Fresh, ingest, compile, commit_state, store_state, compiled, key_of, merge, note_observation,
  attributes_before,
}
use agents_reality_layer.WorldState.Service.Frame.{create_commit-ok, create_commit-err}

-- the change that `ingest` commits
abbrev pub change_of :
    Platform → String → Observation → String → String → Option OrderState → Attributes → Change
change_of py t o cause level previous attributes = record {
  tenant_id = t;
  entity_type = o.object_type;
  entity_id = o.object_id;
  cause = cause;
  observation_ids = o.observation_id ∷ [];
  before = attributes_for py previous;
  after = dump_attributes py attributes;
  semantic_diff = diff (attributes_for py previous) (dump_attributes py attributes);
  assurance_level = level;
}

-- the service with a new commit and the state of it
abbrev pub with_state :
    WorldStateService → EntityKey → CommitRecord → OrderState → WorldStateService
with_state s key commit state = record (store_commit s commit) {
  states = Dict.put s.states key state;
}

module _ (py : Platform) (s : WorldStateService) (t : String) (o : Observation)
    (cause level : String) where
  -- the commit that `ingest` makes in a service
  abbrev pub commit_of :
      WorldStateService → Option OrderState → Attributes → Option String → String → CommitRecord
  commit_of s' previous attributes p hex =
      sealed py (draft s' (change_of py t o cause level previous attributes) p hex)

  -- How the commit and the state of it can end.
  pub data Compiled (previous : Option OrderState) (attributes : Attributes) (hex : String)
      : Result OrderState × WorldStateService → Type 0 where
    unchanged :
        (state : OrderState)
        → previous ≡ some state
        → changed_names (dump_attributes py state.attributes) (dump_attributes py attributes) ≡ []
        → Compiled previous attributes hex (ok state, s)
    orphaned : (x : Error) → Compiled previous attributes hex (err x, s)
    committed :
        (p : Option String)
        → latest_hash s t ≡ ok p
        → Compiled previous attributes hex (
          ok (compiled py t o previous attributes (commit_of s previous attributes p hex)),
          with_state s
              (key_of t o)
              (commit_of s previous attributes p hex)
              (compiled py t o previous attributes (commit_of s previous attributes p hex)),
        )

  commit_state-Compiled :
      (previous : Option OrderState) (attributes : Attributes) (hex : String)
      → Compiled previous attributes hex (commit_state py s t o cause level previous attributes hex)
  commit_state-Compiled previous attributes hex =
      let change = change_of py t o cause level previous attributes in
      elim (Result-cases (latest_hash s t)) [
        | inl (p, e) ↦
            subst (λ x. Compiled previous attributes hex (store_state py t o previous attributes x))
              (sym (create_commit-ok py s change hex p e)) (committed p e)
        | inr (x, e) ↦
            subst (λ x. Compiled previous attributes hex (store_state py t o previous attributes x))
              (sym (create_commit-err py s change hex x e)) (orphaned x)
      ]

  pub compile-Compiled :
      (previous : Option OrderState) (attributes : Attributes) (hex : String)
      → Compiled previous attributes hex (compile py s t o cause level previous attributes hex)
  unfolding compile
  compile-Compiled none attributes hex = commit_state-Compiled none attributes hex
  compile-Compiled (some state) attributes hex =
      elim (List-cases
        (changed_names (dump_attributes py state.attributes) (dump_attributes py attributes))) [
          | inl e ↦ rw (e, compile) (unchanged state refl e)
          | inr (_, _, e) ↦ rw (e, compile) (commit_state-Compiled (some state) attributes hex)
        ]

-- the service and the attributes after the merge of an observation
abbrev pub merged :
    WorldStateService → String → Observation → Attributes → Fresh → WorldStateService × Attributes
merged s t o incoming fresh =
    let before = attributes_before (Dict.get s.states (key_of t o)) in
    merge (note_observation s t o) (key_of t o) before before incoming fresh

module _ (py : Platform) (s : WorldStateService) (t : String) (o : Observation)
    (cause level : String) (fresh : Fresh) where
  -- How `ingest` can end.
  pub data Ingested : Result OrderState × WorldStateService → Type 0 where
    known :
        (old : Observation) (state : OrderState)
        → Dict.get s.observations (t, o.observation_id) ≡ some old
        → Dict.get s.states (key_of t o) ≡ some state
        → Ingested (ok state, s)
    lost :
        (old : Observation)
        → Dict.get s.observations (t, o.observation_id) ≡ some old
        → Ingested (err (key_error o.object_id), s)
    refused : (x : Error) → project fresh.now o ≡ err x → Ingested (err x, note_observation s t o)
    fresh_one :
        (incoming : Attributes)
        → project fresh.now o ≡ ok incoming
        → Dict.get s.observations (t, o.observation_id) ≡ none
        → {r : Result OrderState × WorldStateService}
        → Compiled py
            (merged s t o incoming fresh).0
            t
            o
            cause
            level
            (Dict.get s.states (key_of t o))
            (merged s t o incoming fresh).1
            fresh.commit_hex
            r
        → Ingested r

  pub ingest-Ingested : Ingested (ingest py s t o cause level fresh)
  unfolding ingest
  ingest-Ingested = elim (Option-cases (Dict.get s.observations (t, o.observation_id))) [
    | inr (old, e) ↦ elim (Option-cases (Dict.get s.states (key_of t o))) [
      | inl e' ↦ rw (e, e', ingest) (lost old e)
      | inr (state, e') ↦ rw (e, e', ingest) (known old state e e')
    ]
    | inl e ↦ elim (Result-cases (project fresh.now o)) [
      | inr (x, e') ↦ rw (e, e', ingest) (refused x e')
      | inl (incoming, e') ↦
          rw (e, e', ingest)
            (fresh_one incoming e' e (
              compile-Compiled py _ t o cause level (Dict.get s.states (key_of t o))
                (merged s t o incoming fresh).1 fresh.commit_hex))
    ]
  ]
