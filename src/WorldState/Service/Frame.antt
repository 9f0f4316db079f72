-- ===== src/WorldState/Service/Frame.antt =====
-- What the steps of `ingest` leave alone: the merge writes conflicts only. What a commit writes.
use agents_reality_layer.Prelude.{
  nat_eq, string_eq, pair_eq, triple_eq, String, Option, [], ◌∷◌, ◌≡◌, refl, inl, inr, Bool-cases,
  Option-cases,
}
use agents_reality_layer.Dict
use agents_reality_layer.Json.{Platform}
use agents_reality_layer.Errors.{Error, ok, err}
use agents_reality_layer.WorldState.Models.{StateAttribute, Attributes}
use agents_reality_layer.WorldState.Service.{WorldStateService, EntityKey}
use agents_reality_layer.WorldState.Service.Commit.{
  Change, create_commit, latest_hash, sealed, draft, store_commit,
}
use agents_reality_layer.WorldState.Service.Ingest.{
  Fresh, record_conflict, contradicts, merge, update_conflict,
}

-- the same observations, states and commits
pub record SameLedger (s s' : WorldStateService) : Type 0 where
  pub same_observations : s'.observations ≡ s.observations
  pub same_states : s'.states ≡ s.states
  pub same_commits : s'.commits ≡ s.commits
  pub same_latest : s'.latest_commit ≡ s.latest_commit

pub SameLedger-refl : (s : WorldStateService) → SameLedger s s
SameLedger-refl s = record {
  same_observations = refl;
  same_states = refl;
  same_commits = refl;
  same_latest = refl;
}

pub record_conflict-SameLedger :
    (s : WorldStateService) (key : EntityKey) (name : String) (existing incoming : StateAttribute)
    (fresh : Fresh)
    → SameLedger s (record_conflict s key name existing incoming fresh)
unfolding record_conflict
record_conflict-SameLedger s key name existing incoming fresh =
    elim (Option-cases (Dict.get s.open_conflicts (key, name))) [
      | inl e ↦
          rw (e, record_conflict)
            (record {
              same_observations = refl;
              same_states = refl;
              same_commits = refl;
              same_latest = refl;
            })
      | inr (place, e) ↦
          rw (e, record_conflict)
            (elim (Option-cases (Dict.get s.store place)) [
              | inl e' ↦ rw (e', update_conflict) (SameLedger-refl s)
              | inr (c, e') ↦
                  rw (e', update_conflict)
                    (record {
                      same_observations = refl;
                      same_states = refl;
                      same_commits = refl;
                      same_latest = refl;
                    })
            ])
    ]

pub SameLedger-trans :
    {s t u : WorldStateService} → SameLedger s t → SameLedger t u → SameLedger s u
SameLedger-trans h k = record {
  same_observations = cc;
  same_states = cc;
  same_commits = cc;
  same_latest = cc;
}

pub merge-SameLedger :
    (s : WorldStateService) (key : EntityKey) (previous attributes incoming : Attributes)
    (fresh : Fresh)
    → SameLedger s (merge s key previous attributes incoming fresh).0
unfolding merge
merge-SameLedger s key previous attributes [] fresh = SameLedger-refl s
merge-SameLedger s key previous attributes ((name, i) ∷ rest) fresh =
    elim (Option-cases (Dict.get previous name)) [
      | inl e ↦
          rw (e, merge) (merge-SameLedger s key previous (Dict.put attributes name i) rest fresh)
      | inr (a, e) ↦
          rw (e, merge)
            (elim (Bool-cases (contradicts a i)) [
              | inl t ↦ rw t (
                  SameLedger-trans (record_conflict-SameLedger s key name a i fresh) (
                    merge-SameLedger (record_conflict s key name a i fresh) key previous attributes
                      rest fresh))
              | inr f ↦
                  rw f (merge-SameLedger s key previous (Dict.put attributes name i) rest fresh)
            ])
    ]

-- what `create_commit` gives, by the hash that it names
pub create_commit-ok :
    (py : Platform) (s : WorldStateService) (c : Change) (hex : String) (p : Option String)
    → latest_hash s c.tenant_id ≡ ok p
    → create_commit py s c hex
      ≡ (ok (sealed py (draft s c p hex)), store_commit s (sealed py (draft s c p hex)))
unfolding create_commit
create_commit-ok py s c hex p e = rw (e, create_commit) refl

pub create_commit-err :
    (py : Platform) (s : WorldStateService) (c : Change) (hex : String) (x : Error)
    → latest_hash s c.tenant_id ≡ err x
    → create_commit py s c hex ≡ (err x, s)
unfolding create_commit
create_commit-err py s c hex x e = rw (e, create_commit) refl
