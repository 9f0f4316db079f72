-- ===== src/WorldState/Service/Merge.antt =====
-- What the loop of `ingest` of src/reality_layer/world_state/service.py makes of every attribute.
use agents_reality_layer.Prelude.{
  string_eq, pair_eq, triple_eq, nat_eq, String, Bool, true, none, some, [], ◌∷◌, ◌≡◌, refl, inl,
  inr, Option, Bool-cases, Option-cases, arith, ==_iff, ◌==◌, if◌then◌else◌, sym, ap, subst,
  is_some, length,
}
use agents_reality_layer.Dict
use agents_reality_layer.Dict.Laws.{get-put, get-put_self}
use agents_reality_layer.WorldState.Models.{StateAttribute, Attributes}
use agents_reality_layer.WorldState.Service.{WorldStateService, EntityKey}
use agents_reality_layer.WorldState.Service.Ingest.{
  Fresh, merge, contradicts, record_conflict, update_conflict,
}

-- A dictionary has a key once.
abbrev pub Distinct : Attributes → Type 0
Distinct [] = Unit
Distinct ((name, _) ∷ rest) = (Dict.get rest name ≡ none) × Distinct rest

-- Which value an attribute has after an observation, from the entity's value before, the incoming
-- value, and what stands if neither decides.
abbrev pub chosen :
    Option StateAttribute → Option StateAttribute → Option StateAttribute → Option StateAttribute
chosen existing none current = current
chosen none (some incoming) current = some incoming
chosen (some existing) (some incoming) current =
    if contradicts existing incoming then current else some incoming

pub merge-get :
    (s : WorldStateService) (key : EntityKey) (previous attributes incoming : Attributes)
    (fresh : Fresh) (name : String)
    → Distinct incoming
    → Dict.get (merge s key previous attributes incoming fresh).1 name
      ≡ chosen (Dict.get previous name) (Dict.get incoming name) (Dict.get attributes name)
unfolding merge Dict.get
merge-get s key previous attributes [] fresh name d = refl
merge-get s key previous attributes ((n, i) ∷ rest) fresh name d =
    let ih = merge-get s key previous (Dict.put attributes n i) rest fresh name d.1 in
    elim (Option-cases (Dict.get previous n)) [
      | inl e ↦ rw (e, merge) (ground (arith, ih, get-put attributes n name i, ==_iff n name))
      | inr (a, e) ↦ elim (Bool-cases (contradicts a i)) [
        | inl c ↦
            rw (e, c, merge)
              (ground (
                arith,
                merge-get (record_conflict s key n a i fresh) key previous attributes rest fresh
                    name d.1,
                ==_iff n name,
              ))
        | inr c ↦ rw (e, c, merge) (ground (arith, ih, get-put attributes n name i, ==_iff n name))
      ]
    ]

-- a conflict that is open
abbrev pub is_open : WorldStateService → EntityKey → String → Bool
is_open s key name = Dict.contains s.open_conflicts (key, name)

module _ (s : WorldStateService) (key : EntityKey) (n : String) (a i : StateAttribute)
    (fresh : Fresh) where
  record_conflict-is_open : is_open (record_conflict s key n a i fresh) key n ≡ true
  unfolding record_conflict
  record_conflict-is_open = elim (Option-cases (Dict.get s.open_conflicts (key, n))) [
    | inl e ↦
        rw (e, record_conflict)
          (ap (λ o. is_some o) (get-put_self s.open_conflicts (key, n) (length s.store)))
    | inr (place, e) ↦
        rw (e, record_conflict)
          (elim (Option-cases (Dict.get s.store place)) [
            | inl e' ↦ rw (e', update_conflict) (ap (λ o. is_some o) e)
            | inr (c, e') ↦ rw (e', update_conflict) (ap (λ o. is_some o) e)
          ])
  ]

  record_conflict_keeps :
      (name : String)
      → is_open s key name ≡ true
      → is_open (record_conflict s key n a i fresh) key name ≡ true
  unfolding record_conflict
  record_conflict_keeps name h = elim (Option-cases (Dict.get s.open_conflicts (key, n))) [
    | inl e ↦
        rw (e, record_conflict)
          (ground (arith, get-put s.open_conflicts (key, n) (key, name) (length s.store)))
    | inr (place, e) ↦
        rw (e, record_conflict)
          (elim (Option-cases (Dict.get s.store place)) [
            | inl e' ↦ rw (e', update_conflict) h
            | inr (c, e') ↦ rw (e', update_conflict) h
          ])
  ]

pub merge_keeps :
    (s : WorldStateService) (key : EntityKey) (previous attributes incoming : Attributes)
    (fresh : Fresh) (name : String)
    → is_open s key name ≡ true
    → is_open (merge s key previous attributes incoming fresh).0 key name ≡ true
unfolding merge
merge_keeps s key previous attributes [] fresh name h = h
merge_keeps s key previous attributes ((n, i) ∷ rest) fresh name h =
    elim (Option-cases (Dict.get previous n)) [
      | inl e ↦
          rw (e, merge) (merge_keeps s key previous (Dict.put attributes n i) rest fresh name h)
      | inr (a, e) ↦ elim (Bool-cases (contradicts a i)) [
        | inl c ↦
            rw (e, c, merge)
              (merge_keeps (record_conflict s key n a i fresh) key previous attributes rest fresh
                name (record_conflict_keeps s key n a i fresh name h))
        | inr c ↦
            rw (e, c, merge)
              (merge_keeps s key previous (Dict.put attributes n i) rest fresh name h)
      ]
    ]

-- an attribute that an observation contradicts has an open conflict after it
pub merge-is_open :
    (s : WorldStateService) (key : EntityKey) (previous attributes incoming : Attributes)
    (fresh : Fresh) (name : String) {existing claimed : StateAttribute}
    → Dict.get previous name ≡ some existing
    → Dict.get incoming name ≡ some claimed
    → contradicts existing claimed ≡ true
    → is_open (merge s key previous attributes incoming fresh).0 key name ≡ true
unfolding merge Dict.get
merge-is_open s key previous attributes [] fresh name p q c = cc
merge-is_open s key previous attributes ((n, i) ∷ rest) fresh name {existing} {claimed} p q c =
    elim (Bool-cases (n == name)) [
      | inl same ↦
          let n_is : n ≡ name = (==_iff n name).0 same in
          let i_is : i ≡ claimed = ground arith in
          rw
            (
              subst (λ x. Dict.get previous x ≡ some existing) (sym n_is) p,
              subst (λ x. contradicts existing x ≡ true) (sym i_is) c,
              merge,
            )
            (merge_keeps (record_conflict s key n existing i fresh) key previous attributes rest
              fresh name
              (subst (λ x. is_open (record_conflict s key n existing i fresh) key x ≡ true) n_is
                (record_conflict-is_open s key n existing i fresh)))
      | inr other ↦
          let later = λ (s' : WorldStateService) (attrs : Attributes).
            merge-is_open s' key previous attrs rest fresh name {existing = existing}
              {claimed = claimed} p (ground (arith, q)) c in
          elim (Option-cases (Dict.get previous n)) [
            | inl e ↦ rw (e, merge) (later s (Dict.put attributes n i))
            | inr (a, e) ↦ elim (Bool-cases (contradicts a i)) [
              | inl k ↦ rw (e, k, merge) (later (record_conflict s key n a i fresh) attributes)
              | inr k ↦ rw (e, k, merge) (later s (Dict.put attributes n i))
            ]
          ]
    ]
