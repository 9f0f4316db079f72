-- ===== src/WorldState/Service/History.antt =====
-- The history that `list_commits` of src/reality_layer/world_state/service.py gives after any calls.
use Prim.Native.String.{◌++◌ as append}
use agents_reality_layer.Prelude.{
  string_eq, pair_eq, ℕ, suc, ◌≤◌, ◌<◌, String, false, Option, none, some, List, [], ◌∷◌, ◌≡◌, refl,
  sym, ap, subst, ◌∙◌, ◌==◌, ==_iff, length, arith, inl, inr, Bool-cases,
}
use agents_reality_layer.Prelude.Text.{truthy-append}
use agents_reality_layer.Dict
use agents_reality_layer.Dict.{Dict}
use agents_reality_layer.Dict.Laws.{get-put, length-put_new, get-put_self}
use agents_reality_layer.Json.{Platform}
use agents_reality_layer.Errors.{ok, ok_injective}
use agents_reality_layer.WorldState.Models.{CommitRecord}
use agents_reality_layer.WorldState.Service.{WorldStateService, init}
use agents_reality_layer.WorldState.Service.Calls.{
  Call, step, run, tenant_of, hex_of, Grown, same, more, step-Grown,
}
use agents_reality_layer.WorldState.Service.Commit.{
  Change, draft, sealed, latest_hash, validate_commit_chain,
}
use agents_reality_layer.WorldState.Service.Lineage.{
  Lineage, root, next, Lineage-put, Lineage-Absent, Lineage-latest_hash, Lineage-walk, Unseen,
  Lineage-check_from,
}
use agents_reality_layer.WorldState.Service.Queries.{history, list_commits, reverse_onto}

-- Every tenant's commits form one lineage back from the latest, no longer than the dictionary.
pub record TenantHistory (py : Platform) (s : WorldStateService) (t : String) : Type 0 where
  pub commits : List CommitRecord
  pub lineage : Lineage py s.commits t (Dict.get s.latest_commit t) commits
  pub bounded : length commits ≤ length s.commits

pub Histories : Platform → WorldStateService → Type 0
Histories py s = (t : String) → TenantHistory py s t

-- `uuid4` does not repeat the id of a commit of the tenant
abbrev pub IsNew : WorldStateService → Call → Type 0
IsNew s c = Dict.get s.commits (tenant_of c, append "cmt_" (hex_of c)) ≡ none

module _ {py : Platform} (s : WorldStateService) (t hex : String) where
  -- the lineage of the tenant of the call, with the commit that it makes
  extend :
      (change : Change) (p : Option String)
      → Dict.get s.commits (t, append "cmt_" hex) ≡ none
      → change.tenant_id ≡ t
      → latest_hash s t ≡ ok p
      → (h : TenantHistory py s t)
      → Lineage py
          (Dict.put s.commits (t, append "cmt_" hex) (sealed py (draft s change p hex)))
          t
          (some (append "cmt_" hex))
          (sealed py (draft s change p hex) ∷ h.commits)
  extend change p new tenant hash h =
      let c = sealed py (draft s change p hex) in
      next c h.commits
        (Lineage-put (t, c.commit_id) c new
          (subst (λ x. Lineage py s.commits t (Dict.get s.latest_commit x) h.commits) (sym tenant)
            h.lineage))
        (get-put_self s.commits (t, c.commit_id) c) (truthy-append "cmt_" hex refl)
        (Lineage-Absent c.commit_id new h.lineage)
        (ok_injective (sym hash ∙ Lineage-latest_hash s t h.lineage refl)) refl

  -- the lineage of a tenant after a call that makes a commit
  grown_lineage :
      (change : Change) (p : Option String)
      → Dict.get s.commits (t, append "cmt_" hex) ≡ none
      → change.tenant_id ≡ t
      → latest_hash s t ≡ ok p
      → {s' : WorldStateService}
      → s'.commits ≡ Dict.put s.commits (t, append "cmt_" hex) (sealed py (draft s change p hex))
      → s'.latest_commit ≡ Dict.put s.latest_commit t (append "cmt_" hex)
      → ((t' : String) → TenantHistory py s t')
      → (t' : String) → TenantHistory py s' t'
  grown_lineage change p new tenant hash {s'} a b h t' =
      let c = sealed py (draft s change p hex) in
      elim (Bool-cases (t == t')) [
        | inl e ↦
            subst (λ x. TenantHistory py s' x) ((==_iff t t').0 e)
              (record {
                commits = c ∷ (h t).commits;
                lineage =
                    subst (λ d. Lineage py d t (Dict.get s'.latest_commit t) (c ∷ (h t).commits))
                      (sym a)
                      (subst
                        (λ o.
                          Lineage py (Dict.put s.commits (t, append "cmt_" hex) c) t o
                            (c ∷ (h t).commits))
                        (sym (
                          ap (λ l. Dict.get l t) b
                          ∙ get-put_self s.latest_commit t (append "cmt_" hex)))
                        (extend change p new tenant hash (h t)));
                bounded = longer c a (h t).bounded;
              })
        | inr e ↦ record {
          commits = (h t').commits;
          lineage =
              subst (λ d. Lineage py d t' (Dict.get s'.latest_commit t') (h t').commits) (sym a)
                (subst
                  (λ o.
                    Lineage py (Dict.put s.commits (t, append "cmt_" hex) c) t' o (h t').commits)
                  (sym (ap (λ l. Dict.get l t') b ∙ other_latest t' e))
                  (Lineage-put (t, append "cmt_" hex) c new (h t').lineage));
          bounded = weaker (longer c a (h t').bounded);
        }
      ]
    where
      other_latest :
          (t' : String)
          → (t == t') ≡ false
          → Dict.get (Dict.put s.latest_commit t (append "cmt_" hex)) t'
            ≡ Dict.get s.latest_commit t'
      other_latest t' e = ground (arith, e, get-put s.latest_commit t t' (append "cmt_" hex))

      longer :
          (c : CommitRecord)
          → s'.commits ≡ Dict.put s.commits (t, append "cmt_" hex) c
          → {n : ℕ} → n ≤ length s.commits
          → suc n ≤ length s'.commits
      longer c a le =
          rw a (omega (arith, length-put_new s.commits (t, append "cmt_" hex) c new, le))

      weaker : {n m : ℕ} → suc n ≤ m → n ≤ m
      weaker le = omega arith

  grow :
      {s' : WorldStateService}
      → Dict.get s.commits (t, append "cmt_" hex) ≡ none
      → Grown py s t hex s'
      → Histories py s
      → Histories py s'
  unfolding Histories
  grow {s' = s'} new (same a b) h t' = record {
    commits = (h t').commits;
    lineage =
        subst (λ d. Lineage py d t' (Dict.get s'.latest_commit t') (h t').commits) (sym a)
          (subst (λ l. Lineage py s.commits t' (Dict.get l t') (h t').commits) (sym b)
            (h t').lineage);
    bounded = rw a (h t').bounded;
  }
  grow {s' = s'} new (more change p c tenant is_c hash a b) h t' =
      grown_lineage change p new tenant hash
        (a ∙ ap (λ x. Dict.put s.commits (t, x.commit_id) x) is_c)
        (b ∙ ap (λ x. Dict.put s.latest_commit t x.commit_id) is_c) h t'

module _ (py : Platform) where
  -- every call is given an id that is not in use
  abbrev pub AllNew : WorldStateService → List Call → Type 0
  AllNew s [] = Unit
  AllNew s (c ∷ calls) = IsNew s c × AllNew (step py s c) calls

  pub run-Histories :
      (s : WorldStateService) (calls : List Call)
      → AllNew s calls
      → Histories py s
      → Histories py (run py s calls)
  unfolding run
  run-Histories s [] new h = h
  run-Histories s (c ∷ calls) new h =
      run-Histories (step py s c) calls new.1
        (grow s (tenant_of c) (hex_of c) new.0 (step-Grown py s c) h)

  init-Histories : Histories py init
  unfolding Histories
  init-Histories t = record {
    commits = [];
    lineage = unfold Dict.get in root;
    bounded = omega arith;
  }

-- what a lineage says of `list_commits`
list_commits-TenantHistory :
    (py : Platform) (s : WorldStateService) (t : String) (h : TenantHistory py s t)
    → list_commits s t none ≡ ok (reverse_onto h.commits [])
unfolding list_commits history
list_commits-TenantHistory py s t h =
    ap (λ cs. ok (reverse_onto cs []))
      (Lineage-walk s t (suc (length s.commits)) [] h.lineage (all_unseen h.commits)
        (le_suc h.bounded))
  where
    all_unseen : (cs : List CommitRecord) → Unseen [] cs
    all_unseen [] = tt
    all_unseen (c ∷ cs) = (refl, all_unseen cs)

    le_suc : {n m : ℕ} → n ≤ m → n < suc m
    le_suc h = omega arith

-- After any calls of a new service, each with an id for its commit that is not in use,
-- `list_commits` answers for every tenant, and what it answers passes `validate_commit_chain`.
pub run-list_commits :
    (py : Platform) (calls : List Call) (t : String)
    → AllNew py init calls
    → (commits : List CommitRecord) × (list_commits (run py init calls) t none ≡ ok commits)
      × (validate_commit_chain py commits ≡ ok tt)
unfolding Histories
run-list_commits py calls t new =
    let h = run-Histories py init calls new (init-Histories py) t in
    (
      reverse_onto h.commits [],
      list_commits-TenantHistory py (run py init calls) t h,
      Lineage-check_from h.lineage,
    )
