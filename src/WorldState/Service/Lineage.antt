-- ===== src/WorldState/Service/Lineage.antt =====
-- The commits of a tenant from its latest one back to the first, as a list that the dictionary holds.
use agents_reality_layer.Prelude.{
  string_eq, pair_eq, ℕ, zero, suc, ◌<◌, String, Bool, true, false, Option, none, some, List, [],
  ◌∷◌, ◌++◌, ◌≡◌, refl, sym, ap, subst, ◌∙◌, ◌==◌, ==_iff, any, length, arith,
}
use mathlib.Core.List.{append_assoc}
use agents_reality_layer.Prelude.Text.{truthy}
use agents_reality_layer.Dict
use agents_reality_layer.Dict.{Dict}
use agents_reality_layer.Dict.Laws.{get-put}
use agents_reality_layer.Json.{Platform, hash_json}
use agents_reality_layer.Errors.{ok}
use agents_reality_layer.RealityGit.{check_from, head_hash}
use agents_reality_layer.RealityGit.Chain.{check_from-snoc, head_hash-snoc}
use agents_reality_layer.WorldState.Models.{CommitRecord}
use agents_reality_layer.WorldState.Service.{WorldStateService}
use agents_reality_layer.WorldState.Service.Commit.{
  commit_body, commit_link, latest_hash, hash_of_commit,
}
use agents_reality_layer.WorldState.Service.Queries.{walk, reverse_onto}

-- the hash of the newest commit
abbrev pub newest_hash : List CommitRecord → Option String
newest_hash [] = none
newest_hash (c ∷ cs) = some c.hash

-- the id is none of those of the commits
abbrev pub Absent : String → List CommitRecord → Type 0
Absent i [] = Unit
Absent i (c ∷ cs) = ((c.commit_id == i) ≡ false) × Absent i cs

-- From the commit with the id back to the first: every commit is held under its id, has an id of its
-- own, names its parent and the parent's hash, and carries the hash of its content.
pub data Lineage (py : Platform) (commits : Dict (String × String) CommitRecord) (t : String)
    : Option String → List CommitRecord → Type 0 where
  root : Lineage py commits t none []
  next :
      (c : CommitRecord) (cs : List CommitRecord)
      → Lineage py commits t c.parent_commit_id cs
      → Dict.get commits (t, c.commit_id) ≡ some c
      → truthy c.commit_id ≡ true
      → Absent c.commit_id cs
      → c.previous_hash ≡ newest_hash cs
      → c.hash ≡ hash_json py (commit_body c)
      → Lineage py commits t (some c.commit_id) (c ∷ cs)

-- a commit with a new id leaves the lineages alone
pub Lineage-put :
    {py : Platform} {commits : Dict (String × String) CommitRecord} {t : String}
    {latest : Option String} {cs : List CommitRecord} (k : String × String) (v : CommitRecord)
    → Dict.get commits k ≡ none
    → Lineage py commits t latest cs
    → Lineage py (Dict.put commits k v) t latest cs
Lineage-put k v new root = root
Lineage-put {commits = commits} {t} k v new (next c cs up held named absent link seal) =
    next c cs (Lineage-put k v new up)
      (ground (arith, get-put commits k (t, c.commit_id) v, ==_iff k (t, c.commit_id))) named absent
      link seal

-- the new id itself is not among the commits of a lineage
pub Lineage-Absent :
    {py : Platform} {commits : Dict (String × String) CommitRecord} {t : String}
    {latest : Option String} {cs : List CommitRecord} (i : String)
    → Dict.get commits (t, i) ≡ none
    → Lineage py commits t latest cs
    → Absent i cs
Lineage-Absent i new root = tt
Lineage-Absent {t = t} i new (next c cs up held named absent link seal) =
    (ground (arith, ==_iff c.commit_id i), Lineage-Absent i new up)

pub Lineage-latest_hash :
    {py : Platform} (s : WorldStateService) (t : String) {latest : Option String}
    {cs : List CommitRecord}
    → Lineage py s.commits t latest cs
    → Dict.get s.latest_commit t ≡ latest
    → latest_hash s t ≡ ok (newest_hash cs)
unfolding latest_hash
Lineage-latest_hash s t root e = rw (e, latest_hash) refl
Lineage-latest_hash s t (next c cs up held named absent link seal) e =
    rw (e, named, held, latest_hash, hash_of_commit) refl

-- an id that was seen
abbrev pub seen : List String → String → Bool
seen ids i = any (λ j. j == i) ids

-- the ids of the commits are not among those seen
abbrev pub Unseen : List String → List CommitRecord → Type 0
Unseen ids [] = Unit
Unseen ids (c ∷ cs) = (seen ids c.commit_id ≡ false) × Unseen ids cs

Unseen-cons :
    (i : String) (ids : List String) (cs : List CommitRecord)
    → Unseen ids cs
    → Absent i cs
    → Unseen (i ∷ ids) cs
Unseen-cons i ids [] u a = tt
Unseen-cons i ids (c ∷ cs) u a = (
  ground (arith, ==_iff i c.commit_id, ==_iff c.commit_id i, u.0, a.0),
  Unseen-cons i ids cs u.1 a.1,
)

-- the walk visits exactly the lineage
pub Lineage-walk :
    {py : Platform} (s : WorldStateService) (t : String) {latest : Option String}
    {cs : List CommitRecord} (fuel : ℕ) (ids : List String)
    → Lineage py s.commits t latest cs
    → Unseen ids cs
    → length cs < fuel
    → walk fuel s t ids latest ≡ cs
unfolding walk
Lineage-walk s t zero ids l u h = absurd (omega arith)
Lineage-walk s t (suc fuel) ids root u h = refl
Lineage-walk s t (suc fuel) ids (next c cs up held named absent link seal) u h =
    rw (u.0, walk, held)
      (ap (λ xs. c ∷ xs)
        (Lineage-walk s t fuel (c.commit_id ∷ ids) up (Unseen-cons c.commit_id ids cs u.1 absent)
          (omega arith)))

reverse_onto-append : (xs ys : List CommitRecord) → reverse_onto xs ys ≡ reverse_onto xs [] ++ ys
reverse_onto-append [] ys = refl
reverse_onto-append (x ∷ xs) ys =
    reverse_onto-append xs (x ∷ ys)
    ∙ (sym (append_assoc (reverse_onto xs []) (x ∷ []) ys)
        ∙ ap (λ zs. zs ++ ys) (sym (reverse_onto-append xs (x ∷ []))))

-- the head of the reversed list
head_hash-reverse :
    (py : Platform) (cs : List CommitRecord)
    → head_hash commit_link none (reverse_onto cs []) ≡ newest_hash cs
head_hash-reverse py [] = refl
head_hash-reverse py (c ∷ cs) =
    ap (head_hash commit_link none) (reverse_onto-append cs (c ∷ []))
    ∙ head_hash-snoc py commit_link none (reverse_onto cs []) c

-- a lineage, the oldest commit first, is a valid chain
pub Lineage-check_from :
    {py : Platform} {commits : Dict (String × String) CommitRecord} {t : String}
    {latest : Option String} {cs : List CommitRecord}
    → Lineage py commits t latest cs
    → check_from py commit_link none (reverse_onto cs []) ≡ ok tt
unfolding check_from
Lineage-check_from root = refl
Lineage-check_from {py} (next c cs up held named absent link seal) =
    subst (λ xs. check_from py commit_link none xs ≡ ok tt) (sym (reverse_onto-append cs (c ∷ [])))
      (check_from-snoc py commit_link none (reverse_onto cs []) c (Lineage-check_from up)
        (link ∙ sym (head_hash-reverse py cs)) seal)
