-- ===== src/WorldState/Service/Calls.antt =====
-- The methods of `WorldStateService` that change it, as the calls of one machine, and what a call does
-- to the commits. `hydrate`, which takes a state of another service over, is not among them.
use agents_reality_layer.Prelude.{
  string_eq, pair_eq, triple_eq, ℕ, String, [], ◌∷◌, List, ◌≡◌, refl, inl, inr, Bool-cases,
  Option-cases, ◌==◌, sym, ap, ◌∙◌, Option,
}
use agents_reality_layer.Prelude.Time.{DateTime}
use agents_reality_layer.Dict
use agents_reality_layer.Json.{Platform, Value}
use agents_reality_layer.Errors.{Result, ok, err, Result-cases}
use agents_reality_layer.WorldState.Models.{
  Observation, Attributes, OrderState, CommitRecord, Conflict,
}
use agents_reality_layer.WorldState.Service.{WorldStateService}
use agents_reality_layer.WorldState.Service.Commit.{
  Change, create_commit, latest_hash, draft, sealed,
}
use agents_reality_layer.WorldState.Service.Ingest
use agents_reality_layer.WorldState.Service.Conflicts
use agents_reality_layer.WorldState.Service.Ingest.{
  Fresh, key_of, note_observation, attributes_before,
}
use agents_reality_layer.WorldState.Service.Conflicts.{
  get_conflict, resolve_open, resolve_state, finish_resolution, store_resolved, resolved_as,
  key_of_conflict,
}
use agents_reality_layer.WorldState.Service.Frame.{
  merge-SameLedger, create_commit-ok, create_commit-err,
}
use agents_reality_layer.WorldState.Service.Outcome.{
  Compiled, unchanged, orphaned, committed, Ingested, known, lost, refused, fresh_one,
  ingest-Ingested, change_of, commit_of,
}
use agents_reality_layer.WorldState.Service.Versions.{Still, latest_hash-Still}

pub data Call : Type 0 where
  ingest : String → Observation → String → String → Fresh → Call
  resolve_conflict : String → String → Value → String → String → DateTime → String → Call
  hydrate_conflict : Conflict → Call

module _ (py : Platform) where
  unfoldable pub step : WorldStateService → Call → WorldStateService
  unfolding Ingest.ingest Conflicts.resolve_conflict Conflicts.hydrate_conflict
  step s (ingest tenant_id o cause level fresh) =
      (Ingest.ingest py s tenant_id o cause level fresh).1
  step s (resolve_conflict tenant_id conflict_id value by reason now hex) =
      (Conflicts.resolve_conflict py s tenant_id conflict_id value by reason now hex).1
  step s (hydrate_conflict conflict) = Conflicts.hydrate_conflict s conflict

  unfoldable pub run : WorldStateService → List Call → WorldStateService
  run s [] = s
  run s (c ∷ calls) = run (step s c) calls

-- the tenant of the commit that a call may make, and its part of the id
abbrev pub tenant_of : Call → String
tenant_of (ingest tenant_id _ _ _ _) = tenant_id
tenant_of (resolve_conflict tenant_id _ _ _ _ _ _) = tenant_id
tenant_of (hydrate_conflict conflict) = conflict.tenant_id

abbrev pub hex_of : Call → String
hex_of (ingest _ _ _ _ fresh) = fresh.commit_hex
hex_of (resolve_conflict _ _ _ _ _ _ hex) = hex
hex_of (hydrate_conflict _) = ""

-- What a call does to the commits: nothing, or one commit more, which is the latest.
pub data Grown (py : Platform) (s : WorldStateService) (t hex : String) (s' : WorldStateService)
    : Type 0 where
  same : s'.commits ≡ s.commits → s'.latest_commit ≡ s.latest_commit → Grown py s t hex s'
  more :
      (change : Change) (p : Option String) (c : CommitRecord)
      → change.tenant_id ≡ t
      → c ≡ sealed py (draft s change p hex)
      → latest_hash s t ≡ ok p
      → s'.commits ≡ Dict.put s.commits (t, c.commit_id) c
      → s'.latest_commit ≡ Dict.put s.latest_commit t c.commit_id
      → Grown py s t hex s'

create_commit-Grown :
    (py : Platform) (s : WorldStateService) (change : Change) (hex : String)
    → Grown py s change.tenant_id hex (create_commit py s change hex).1
create_commit-Grown py s change hex = elim (Result-cases (latest_hash s change.tenant_id)) [
  | inl (p, e) ↦
      rw (create_commit-ok py s change hex p e)
        (more change p (sealed py (draft s change p hex)) refl refl e refl refl)
  | inr (x, e) ↦ rw (create_commit-err py s change hex x e) (same refl refl)
]

store_resolved-Grown :
    {py : Platform} {s : WorldStateService} {t hex : String} (t' : String) (c : Conflict)
    (state : OrderState) (attributes : Attributes) (r : Result CommitRecord × WorldStateService)
    → Grown py s t hex r.1
    → Grown py s t hex (store_resolved t' c state attributes r).1
store_resolved-Grown t' c state attributes (err e, s') g = g
store_resolved-Grown t' c state attributes (ok commit, s') (same a b) = same a b
store_resolved-Grown t' c state attributes (ok commit, s') (more change p d a b e f g) =
    more change p d a b e f g

finish_resolution-Grown :
    {py : Platform} {s : WorldStateService} {t hex : String} (t' : String) (place : ℕ)
    (conflict closed : Conflict) (r : Result (Unit {0}) × WorldStateService)
    → Grown py s t hex r.1
    → Grown py s t hex (finish_resolution t' place conflict closed r).1
finish_resolution-Grown t' place conflict closed (err e, s') g = g
finish_resolution-Grown t' place conflict closed (ok _, s') (same a b) = same a b
finish_resolution-Grown t' place conflict closed (ok _, s') (more change p d a b e f g) =
    more change p d a b e f g

module _ (py : Platform) (s : WorldStateService) (t : String) where
  resolve_open-Grown :
      (place : ℕ) (conflict : Conflict) (v : Value) (who why : String) (now : DateTime)
      (hex : String)
      → Grown py s t hex (resolve_open py s t place conflict v who why now hex).1
  unfolding resolve_open resolve_state
  resolve_open-Grown place conflict v who why now hex =
      elim (Option-cases (Dict.get s.states (key_of_conflict t conflict))) [
        | inl e ↦ rw (e, resolve_open) (same refl refl)
        | inr (state, e) ↦
            rw (e, resolve_open)
              (finish_resolution-Grown t place conflict (resolved_as conflict v who now why) _
                (store_resolved-Grown t conflict state _ _ (create_commit-Grown py s _ hex)))
      ]

  resolve_conflict-Grown :
      (i : String) (v : Value) (who why : String) (now : DateTime) (hex : String)
      → Grown py s t hex (Conflicts.resolve_conflict py s t i v who why now hex).1
  unfolding Conflicts.resolve_conflict
  resolve_conflict-Grown i v who why now hex = elim (Result-cases (get_conflict s t i)) [
    | inr (e, h) ↦ rw (h, Conflicts.resolve_conflict) (same refl refl)
    | inl ((place, conflict), h) ↦ elim (Bool-cases (conflict.status == "resolved")) [
      | inl r ↦ rw (h, r, Conflicts.resolve_conflict) (same refl refl)
      | inr r ↦
          rw (h, r, Conflicts.resolve_conflict)
            (resolve_open-Grown place conflict v who why now hex)
    ]
  ]

module _ {py : Platform} {s m : WorldStateService} {t : String} {o : Observation}
    {cause level : String} where
  Compiled-Grown :
      {previous : Option OrderState} {attributes : Attributes} {hex : String}
      {r : Result OrderState × WorldStateService}
      → Still s m
      → Compiled py m t o cause level previous attributes hex r
      → Grown py s t hex r.1
  Compiled-Grown k (unchanged state _ _) = same k.commits k.latest_commit
  Compiled-Grown k (orphaned x) = same k.commits k.latest_commit
  Compiled-Grown {previous} {attributes} {hex} k (committed p e) =
      let change = change_of py t o cause level previous attributes in
      let c = commit_of py m t o cause level m previous attributes p hex in
      more change p c refl
        (ap (λ l. sealed py (draft (record s { latest_commit = l }) change p hex)) k.latest_commit)
        (sym (latest_hash-Still t k) ∙ e) (ap (λ d. Dict.put d (t, c.commit_id) c) k.commits)
        (ap (λ d. Dict.put d t c.commit_id) k.latest_commit)

module _ {py : Platform} {s : WorldStateService} {t : String} {o : Observation}
    {cause level : String} {fresh : Fresh} where
  Ingested-Grown :
      {r : Result OrderState × WorldStateService}
      → Ingested py s t o cause level fresh r
      → Grown py s t fresh.commit_hex r.1
  Ingested-Grown (known old state _ _) = same refl refl
  Ingested-Grown (lost old _) = same refl refl
  Ingested-Grown (refused x _) = same refl refl
  Ingested-Grown (fresh_one incoming _ _ c) =
      let before = attributes_before (Dict.get s.states (key_of t o)) in
      let kept =
        merge-SameLedger (note_observation s t o) (key_of t o) before before incoming fresh in
      Compiled-Grown
        (record {
          states = kept.same_states;
          commits = kept.same_commits;
          latest_commit = kept.same_latest;
        })
        c

-- every call of the machine
pub step-Grown :
    (py : Platform) (s : WorldStateService) (c : Call)
    → Grown py s (tenant_of c) (hex_of c) (step py s c)
unfolding step Conflicts.hydrate_conflict
step-Grown py s (ingest t o cause level fresh) =
    Ingested-Grown (ingest-Ingested py s t o cause level fresh)
step-Grown py s (resolve_conflict t i v by why now hex) =
    resolve_conflict-Grown py s t i v by why now hex
step-Grown py s (hydrate_conflict conflict) = same refl refl
