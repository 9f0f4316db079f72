-- ===== src/WorldState/Service/Resolve.antt =====
-- `resolve_conflict` of src/reality_layer/world_state/service.py: the conflict is closed for good.
use agents_reality_layer.Prelude.{
  string_eq, pair_eq, triple_eq, nat_eq, ℕ, String, some, ◌≡◌, refl, inl, inr, Bool-cases,
  Option-cases, arith, ==_iff, ◌==◌, ◌∙◌, ap, subst,
}
use agents_reality_layer.Prelude.Time.{DateTime}
use agents_reality_layer.Dict
use agents_reality_layer.Dict.Laws.{get-put_self}
use agents_reality_layer.Json.{Platform, Value}
use agents_reality_layer.Errors.{Result, ok, err, Result-cases, ok_injective}
use agents_reality_layer.WorldState.Models.{Attributes, OrderState, CommitRecord, Conflict}
use agents_reality_layer.WorldState.Service.{WorldStateService}
use agents_reality_layer.WorldState.Service.Conflicts.{
  get_conflict, resolve_conflict, resolve_open, resolve_state, finish_resolution, store_resolved,
  close_conflict, resolved_as, key_of_conflict,
}
use agents_reality_layer.WorldState.Service.Commit.{Change, create_commit, latest_hash}
use agents_reality_layer.WorldState.Service.Frame.{create_commit-ok, create_commit-err}

-- how a successful resolution leaves the service
pub record Resolved (s : WorldStateService) (t i : String) (c : Conflict) : Type 0 where
  pub place : ℕ
  pub held : get_conflict s t i ≡ ok (place, c)
  pub closed : c.status ≡ "resolved"

-- a resolved conflict stays as it is
pub resolve_conflict-Resolved :
    (py : Platform) (s : WorldStateService) (t i : String) {c : Conflict} (v : Value)
    (who why : String) (now : DateTime) (hex : String)
    → Resolved s t i c
    → resolve_conflict py s t i v who why now hex ≡ (ok c, s)
unfolding resolve_conflict
resolve_conflict-Resolved py s t i {c} v who why now hex r =
    rw (r.held, (==_iff c.status "resolved").1 r.closed, resolve_conflict) refl

-- what `resolve_state` leaves alone
record SameConflicts (s s' : WorldStateService) : Type 0 where
  pub same_open : s'.open_conflicts ≡ s.open_conflicts
  pub same_ids : s'.conflicts_by_id ≡ s.conflicts_by_id
  pub same_store : s'.store ≡ s.store

create_commit-SameConflicts :
    (py : Platform) (s : WorldStateService) (c : Change) (hex : String)
    → SameConflicts s (create_commit py s c hex).1
create_commit-SameConflicts py s c hex = elim (Result-cases (latest_hash s c.tenant_id)) [
  | inl (p, e) ↦
      rw (create_commit-ok py s c hex p e)
        (record { same_open = refl; same_ids = refl; same_store = refl })
  | inr (x, e) ↦
      rw (create_commit-err py s c hex x e)
        (record { same_open = refl; same_ids = refl; same_store = refl })
]

store_resolved-SameConflicts :
    {s : WorldStateService} (t : String) (c : Conflict) (state : OrderState)
    (attributes : Attributes) (r : Result CommitRecord × WorldStateService)
    → SameConflicts s r.1
    → SameConflicts s (store_resolved t c state attributes r).1
store_resolved-SameConflicts t c state attributes (err e, s') h = h
store_resolved-SameConflicts t c state attributes (ok commit, s') h = record {
  same_open = h.same_open;
  same_ids = h.same_ids;
  same_store = h.same_store;
}

resolve_state-SameConflicts :
    (py : Platform) (s : WorldStateService) (t : String) (c : Conflict) (v : Value) (now : DateTime)
    (state : OrderState) (hex : String)
    → SameConflicts s (resolve_state py s t c v now state hex).1
unfolding resolve_state
resolve_state-SameConflicts py s t c v now state hex =
    store_resolved-SameConflicts t c state _ _ (create_commit-SameConflicts py s _ hex)

-- the object of a conflict, once it is closed
close_conflict-Resolved :
    (s : WorldStateService) (t i : String) (place : ℕ) (c closed : Conflict)
    → Dict.get s.conflicts_by_id (t, i) ≡ some place
    → closed.status ≡ "resolved"
    → Resolved (close_conflict s t place c closed) t i closed
unfolding get_conflict
close_conflict-Resolved s t i place c closed p h = record {
  place = place;
  held = rw (p, get-put_self s.store place closed, get_conflict) refl;
  closed = h;
}

get_conflict-place :
    (s : WorldStateService) (t i : String) (place : ℕ) (c : Conflict)
    → get_conflict s t i ≡ ok (place, c)
    → Dict.get s.conflicts_by_id (t, i) ≡ some place
unfolding get_conflict
get_conflict-place s t i place c h = elim (Option-cases (Dict.get s.conflicts_by_id (t, i))) [
  | inl e ↦ ground (arith, e, h)
  | inr (p, e) ↦ elim (Option-cases (Dict.get s.store p)) [
    | inl e' ↦ ground (arith, e, e', h)
    | inr (d, e') ↦ ground (arith, e, e', h)
  ]
]

-- a resolution that answers with a conflict leaves it resolved
Closes : String → String → Result Conflict × WorldStateService → Type 0
Closes t i r = (c : Conflict) → r.0 ≡ ok c → Resolved r.1 t i c

finish_resolution-Closes :
    (s : WorldStateService) (t i : String) (place : ℕ) (conflict closed : Conflict)
    (r : Result (Unit {0}) × WorldStateService)
    → SameConflicts s r.1
    → Dict.get s.conflicts_by_id (t, i) ≡ some place
    → closed.status ≡ "resolved"
    → Closes t i (finish_resolution t place conflict closed r)
unfolding Closes
finish_resolution-Closes s t i place conflict closed (err e, s') same p q c h = cc
finish_resolution-Closes s t i place conflict closed (ok _, s') same p q c h =
    subst (λ x. Resolved (close_conflict s' t place conflict closed) t i x) (ok_injective h)
      (close_conflict-Resolved s' t i place conflict closed
        (ap (λ d. Dict.get d (t, i)) same.same_ids ∙ p) q)

module _ (py : Platform) (s : WorldStateService) (t i : String) (v : Value) (who why : String)
    (now : DateTime) (hex : String) where
  resolve_open-Closes :
      (place : ℕ) (conflict : Conflict)
      → Dict.get s.conflicts_by_id (t, i) ≡ some place
      → Closes t i (resolve_open py s t place conflict v who why now hex)
  unfolding resolve_open
  resolve_open-Closes place conflict p =
      elim (Option-cases (Dict.get s.states (key_of_conflict t conflict))) [
        | inl e ↦
            rw (e, resolve_open)
              (finish_resolution-Closes s t i place conflict (resolved_as conflict v who now why)
                (ok tt, s) (record { same_open = refl; same_ids = refl; same_store = refl }) p refl)
        | inr (state, e) ↦
            rw (e, resolve_open)
              (finish_resolution-Closes s t i place conflict (resolved_as conflict v who now why)
                (resolve_state py s t conflict v now state hex)
                (resolve_state-SameConflicts py s t conflict v now state hex) p refl)
      ]

  resolve_conflict-Closes : Closes t i (resolve_conflict py s t i v who why now hex)
  unfolding resolve_conflict Closes
  resolve_conflict-Closes = elim (Result-cases (get_conflict s t i)) [
    | inr (e, h) ↦ rw (h, resolve_conflict) (λ c k. cc)
    | inl ((place, conflict), h) ↦ elim (Bool-cases (conflict.status == "resolved")) [
      | inl r ↦
          rw (h, r, resolve_conflict)
            (λ c k.
              subst (λ x. Resolved s t i x) (ok_injective k)
                (record {
                  place = place;
                  held = h;
                  closed = (==_iff conflict.status "resolved").0 r;
                }))
      | inr r ↦
          rw (h, r, resolve_conflict)
            (resolve_open-Closes place conflict (get_conflict-place s t i place conflict h))
    ]
  ]

-- When `resolve_conflict` has answered with a conflict, the conflict is resolved, and whatever
-- resolution of it is tried afterwards answers with the same conflict and changes nothing.
pub resolve_once :
    (py : Platform) (s : WorldStateService) (t i : String) (v : Value) (who why : String)
    (now : DateTime) (hex : String) {c : Conflict}
    → (resolve_conflict py s t i v who why now hex).0 ≡ ok c
    → (c.status ≡ "resolved")
      × ((v' : Value) (who' why' : String) (now' : DateTime) (hex' : String)
          → resolve_conflict py
              (resolve_conflict py s t i v who why now hex).1
              t
              i
              v'
              who'
              why'
              now'
              hex'
            ≡ (ok c, (resolve_conflict py s t i v who why now hex).1))
unfolding Closes
resolve_once py s t i v who why now hex {c} h =
    let r = resolve_conflict-Closes py s t i v who why now hex c h in
    (
      r.closed,
      λ v' who' why' now' hex'.
          resolve_conflict-Resolved py (resolve_conflict py s t i v who why now hex).1 t i v' who'
            why' now' hex' r,
    )
