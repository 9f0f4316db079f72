-- ===== src/WorldState/Service/Versions.antt =====
-- The versions that `ingest` of src/reality_layer/world_state/service.py makes of an entity.
use agents_reality_layer.Prelude.{
  string_eq, pair_eq, triple_eq, String, some, ◌≡◌, refl, ◌⊎◌, inl, inr, Option, sym, ◌∙◌, ap,
  subst,
}
use agents_reality_layer.Dict
use agents_reality_layer.Dict.Laws.{get-put_self}
use agents_reality_layer.Json.{Platform, hash_json}
use agents_reality_layer.Errors.{Result, ok, ok_injective}
use agents_reality_layer.WorldState.Models.{Observation, Attributes, OrderState, CommitRecord}
use agents_reality_layer.WorldState.Service.{WorldStateService, attributes_for, dump_attributes}
use agents_reality_layer.WorldState.Service.Commit.{latest_hash, commit_body}
use agents_reality_layer.WorldState.Service.Ingest.{
  Fresh, ingest, key_of, note_observation, attributes_before, next_version, compiled,
}
use agents_reality_layer.WorldState.Service.Frame.{SameLedger, merge-SameLedger}
use agents_reality_layer.WorldState.Service.Outcome.{
  Compiled, unchanged, orphaned, committed, Ingested, known, lost, refused, fresh_one, commit_of,
  with_state, ingest-Ingested,
}

-- The state of an entity is the next version, made by a new commit that is the tenant's latest:
-- its parent is the latest one before, it names the hash of that and carries its own, and it shows the
-- attributes before and after.
pub record Advanced (py : Platform) (s s' : WorldStateService) (t : String)
    (previous : Option OrderState) (state : OrderState) : Type 0 where
  pub commit : CommitRecord
  pub found : Dict.get s'.commits (t, state.commit_id) ≡ some commit
  pub latest : Dict.get s'.latest_commit t ≡ some state.commit_id
  pub parent : commit.parent_commit_id ≡ Dict.get s.latest_commit t
  pub link : latest_hash s t ≡ ok commit.previous_hash
  pub seal : commit.hash ≡ hash_json py (commit_body commit)
  pub version : state.state_version ≡ next_version previous
  pub before : commit.before ≡ attributes_for py previous
  pub after : commit.after ≡ dump_attributes py state.attributes

-- Nothing of the states and of the commits changes.
pub record Still (s s' : WorldStateService) : Type 0 where
  pub states : s'.states ≡ s.states
  pub commits : s'.commits ≡ s.commits
  pub latest_commit : s'.latest_commit ≡ s.latest_commit

pub latest_hash-Still :
    {s s' : WorldStateService} (t : String) → Still s s' → latest_hash s' t ≡ latest_hash s t
unfolding latest_hash
latest_hash-Still {s} {s'} t h =
    subst
      (λ c.
        latest_hash (record s { commits = c; latest_commit = s'.latest_commit }) t
        ≡ latest_hash s t)
      (sym h.commits)
      (subst (λ l. latest_hash (record s { latest_commit = l }) t ≡ latest_hash s t)
        (sym h.latest_commit) refl)

module _ {py : Platform} {s s' : WorldStateService} {t : String} {o : Observation}
    {cause level : String} where
  Compiled-Advanced :
      {previous : Option OrderState} {attributes : Attributes} {hex : String}
      {r : Result OrderState × WorldStateService} {state : OrderState}
      → Still s s'
      → Compiled py s' t o cause level previous attributes hex r
      → r.0 ≡ ok state
      → ((previous ≡ some state) × Still s r.1) ⊎ Advanced py s r.1 t previous state
  Compiled-Advanced same (unchanged state p _) h = inl (p ∙ ap some (ok_injective h), same)
  Compiled-Advanced same (orphaned x) h = cc
  Compiled-Advanced {previous} {attributes} {hex} same (committed q e) h =
      let made = commit_of py s t o cause level s' previous attributes q hex in
      inr (
        subst
          (λ x.
            Advanced py s
              (with_state s' (key_of t o) made (compiled py t o previous attributes made)) t
              previous x)
          (ok_injective h)
          (record {
            commit = made;
            found = get-put_self s'.commits (t, made.commit_id) made;
            latest = get-put_self s'.latest_commit t made.commit_id;
            parent = ap (λ d. Dict.get d t) same.latest_commit;
            link = sym (latest_hash-Still t same) ∙ e;
            seal = refl;
            version = refl;
            before = refl;
            after = refl;
          }))

-- When `ingest` answers with a state, the state is the entity's state before, and states and
-- commits are as before, or the state is the next version of the entity and is made by a new commit that
-- follows the tenant's latest commit, names its hash, and carries its own.
pub ingest_advances :
    (py : Platform) (s : WorldStateService) (t : String) (o : Observation) (cause level : String)
    (fresh : Fresh) {state : OrderState}
    → (ingest py s t o cause level fresh).0 ≡ ok state
    → ((Dict.get s.states (key_of t o) ≡ some state)
        × Still s (ingest py s t o cause level fresh).1)
      ⊎ Advanced py s (ingest py s t o cause level fresh).1 t (Dict.get s.states (key_of t o)) state
ingest_advances py s t o cause level fresh {state} h =
    by_outcome (ingest-Ingested py s t o cause level fresh) h
  where
    still_of : {s' : WorldStateService} → SameLedger (note_observation s t o) s' → Still s s'
    still_of m = record {
      states = m.same_states;
      commits = m.same_commits;
      latest_commit = m.same_latest;
    }

    by_outcome :
        {r : Result OrderState × WorldStateService}
        → Ingested py s t o cause level fresh r
        → r.0 ≡ ok state
        → ((Dict.get s.states (key_of t o) ≡ some state) × Still s r.1)
          ⊎ Advanced py s r.1 t (Dict.get s.states (key_of t o)) state
    by_outcome (known old st e e') h = inl (
      e' ∙ ap some (ok_injective h),
      record { states = refl; commits = refl; latest_commit = refl },
    )
    by_outcome (lost old e) h = cc
    by_outcome (refused x e) h = cc
    by_outcome (fresh_one incoming e new c) h =
        let before = attributes_before (Dict.get s.states (key_of t o)) in
        Compiled-Advanced
          (still_of
            (merge-SameLedger (note_observation s t o) (key_of t o) before before incoming fresh))
          c h
