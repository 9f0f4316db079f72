-- ===== src/WorldState/Service/Fuel.antt =====
-- The walks along the parents of commits in src/reality_layer/world_state/service.py end by
-- themselves: fuel for one commit more than there are is enough, whatever the parents are.
use agents_reality_layer.Prelude.{
  string_eq, pair_eq, ℕ, zero, suc, ◌≤◌, ◌<◌, String, true, false, Option, none, some, List, [],
  ◌∷◌, ◌≡◌, refl, sym, subst, ap, ◌==◌, ==_iff, length, arith, inl, inr, Bool-cases, Option-cases,
}
use agents_reality_layer.Dict
use agents_reality_layer.Dict.{Dict}
use agents_reality_layer.WorldState.Models.{CommitRecord}
use agents_reality_layer.WorldState.Service.{WorldStateService}
use agents_reality_layer.WorldState.Service.Lineage.{seen}
use agents_reality_layer.WorldState.Service.Queries.{walk, ancestor_from, is_ancestor}

-- how many commits have an id that was not seen
abbrev unseen_count : List String → Dict (String × String) CommitRecord → ℕ
unseen_count ids [] = 0
unseen_count ids ((k, c) ∷ d) =
    let rest = unseen_count ids d in elim (seen ids k.1) [ true ↦ rest | false ↦ suc rest ]

unseen_count-le-length :
    (ids : List String) (d : Dict (String × String) CommitRecord) → unseen_count ids d ≤ length d
unseen_count-le-length ids [] = omega arith
unseen_count-le-length ids ((k, c) ∷ d) = ground (arith, unseen_count-le-length ids d)

unseen_count_mono :
    (i : String) (ids : List String) (d : Dict (String × String) CommitRecord)
    → unseen_count (i ∷ ids) d ≤ unseen_count ids d
unseen_count_mono i ids [] = omega arith
unseen_count_mono i ids ((k, c) ∷ d) = ground (arith, unseen_count_mono i ids d)

-- a commit that is found and was not seen is one less that is left
unseen_count-lt :
    (t i : String) (ids : List String) (d : Dict (String × String) CommitRecord) (c : CommitRecord)
    → Dict.get d (t, i) ≡ some c
    → seen ids i ≡ false
    → unseen_count (i ∷ ids) d < unseen_count ids d
unfolding Dict.get
unseen_count-lt t i ids [] c h u = cc
unseen_count-lt t i ids (((t', j), w) ∷ d) c h u = elim (Bool-cases (j == i)) [
  | inl e ↦
      let same : j ≡ i = (==_iff j i).0 e in
      let before : seen ids j ≡ false = subst (λ x. seen ids x ≡ false) (sym same) u in
      let after : (i == j) ≡ true = (==_iff i j).1 (sym same) in
      ground (arith, before, after, unseen_count_mono i ids d)
  | inr e ↦
      let other : (i == j) ≡ false = ground (arith, ==_iff i j, ==_iff j i, e) in
      let rest : Dict.get d (t, i) ≡ some c = ground (arith, h, e) in
      ground (arith, other, unseen_count-lt t i ids d c rest u)
]

module _ (s : WorldStateService) (t : String) where
  walk_fuel :
      (a b : ℕ) (ids : List String) (current : Option String)
      → unseen_count ids s.commits < a
      → unseen_count ids s.commits < b
      → walk a s t ids current ≡ walk b s t ids current
  unfolding walk
  walk_fuel zero b ids current h k = absurd (omega arith)
  walk_fuel (suc a) zero ids current h k = absurd (omega arith)
  walk_fuel (suc a) (suc b) ids none h k = refl
  walk_fuel (suc a) (suc b) ids (some i) h k = elim (Bool-cases (seen ids i)) [
    | inl u ↦ rw (u, walk) refl
    | inr u ↦ elim (Option-cases (Dict.get s.commits (t, i))) [
      | inl e ↦ rw (u, e, walk) refl
      | inr (c, e) ↦
          let less = unseen_count-lt t i ids s.commits c e u in
          rw (u, e, walk)
            (ap (λ cs. c ∷ cs)
              (walk_fuel a b (i ∷ ids) c.parent_commit_id (omega arith) (omega arith)))
    ]
  ]

  -- The walk of `list_commits` has enough fuel: from any commit, with any commits, however their
  -- parents are linked, more fuel than one unit for every commit and one gives the same list.
  pub walk_enough :
      (fuel : ℕ) (current : Option String)
      → length s.commits < fuel
      → walk fuel s t [] current ≡ walk (suc (length s.commits)) s t [] current
  walk_enough fuel current h =
      let most = unseen_count-le-length [] s.commits in
      walk_fuel fuel (suc (length s.commits)) [] current (omega arith) (omega arith)

  ancestor_fuel :
      (candidate : String) (a b : ℕ) (ids : List String) (current : Option String)
      → unseen_count ids s.commits < a
      → unseen_count ids s.commits < b
      → ancestor_from a s t candidate ids current ≡ ancestor_from b s t candidate ids current
  unfolding ancestor_from
  ancestor_fuel candidate zero b ids current h k = absurd (omega arith)
  ancestor_fuel candidate (suc a) zero ids current h k = absurd (omega arith)
  ancestor_fuel candidate (suc a) (suc b) ids none h k = refl
  ancestor_fuel candidate (suc a) (suc b) ids (some i) h k = elim (Bool-cases (seen ids i)) [
    | inl u ↦ rw (u, ancestor_from) refl
    | inr u ↦ elim (Bool-cases (i == candidate)) [
      | inl f ↦ rw (u, f, ancestor_from) refl
      | inr f ↦ elim (Option-cases (Dict.get s.commits (t, i))) [
        | inl e ↦ rw (u, f, e, ancestor_from) refl
        | inr (c, e) ↦
            let less = unseen_count-lt t i ids s.commits c e u in
            rw (u, f, e, ancestor_from)
              (ancestor_fuel candidate a b (i ∷ ids) c.parent_commit_id (omega arith) (omega arith))
      ]
    ]
  ]

  -- The walk of `_is_ancestor` has enough fuel too: more fuel gives the same answer.
  pub is_ancestor_enough :
      (candidate descendant : String) (fuel : ℕ)
      → length s.commits < fuel
      → ancestor_from fuel s t candidate [] (some descendant) ≡ is_ancestor s t candidate descendant
  is_ancestor_enough candidate descendant fuel h =
      let most = unseen_count-le-length [] s.commits in
      ancestor_fuel candidate fuel (suc (suc (length s.commits))) [] (some descendant) (omega arith)
        (omega arith)
