-- ===== src/WorldState/Service/Dedup.antt =====
-- An observation that `ingest` of src/reality_layer/world_state/service.py has taken is known from
-- then on.
use agents_reality_layer.Prelude.{
  string_eq, pair_eq, triple_eq, String, some, ◌≡◌, refl, Option, sym, ◌∙◌, ap,
}
use agents_reality_layer.Dict
use agents_reality_layer.Dict.Laws.{get-put_self}
use agents_reality_layer.Json.{Platform}
use agents_reality_layer.Errors.{Result, ok}
use agents_reality_layer.WorldState.Models.{Observation, Attributes, OrderState}
use agents_reality_layer.WorldState.Service.{WorldStateService}
use agents_reality_layer.WorldState.Service.Ingest.{
  Fresh, ingest, key_of, note_observation, attributes_before,
}
use agents_reality_layer.WorldState.Service.Frame.{merge-SameLedger}
use agents_reality_layer.WorldState.Service.Outcome.{
  Compiled, unchanged, orphaned, committed, Ingested, known, lost, refused, fresh_one,
  ingest-Ingested,
}

-- An observation with the id is noted, and the entity has the state.
pub record Known (s : WorldStateService) (t : String) (o : Observation) (state : OrderState)
    : Type 0 where
  pub old : Observation
  pub noted : Dict.get s.observations (t, o.observation_id) ≡ some old
  pub stored : Dict.get s.states (key_of t o) ≡ some state

-- what `ingest` answers for a known observation
pub ingest-Known :
    (py : Platform) (s : WorldStateService) (t : String) (o : Observation) (cause level : String)
    (fresh : Fresh) {state : OrderState}
    → Known s t o state
    → ingest py s t o cause level fresh ≡ (ok state, s)
unfolding ingest
ingest-Known py s t o cause level fresh k = rw (k.noted, k.stored, ingest) refl

module _ {py : Platform} {s : WorldStateService} {t : String} {o : Observation}
    {cause level : String} where
  -- a commit stores the state it answers with
  Compiled-Known :
      {previous : Option OrderState} {attributes : Attributes} {hex : String}
      {r : Result OrderState × WorldStateService} {state : OrderState}
      → Compiled py s t o cause level previous attributes hex r
      → previous ≡ Dict.get s.states (key_of t o)
      → Dict.get s.observations (t, o.observation_id) ≡ some o
      → r.0 ≡ ok state
      → Known r.1 t o state
  Compiled-Known (unchanged state e _) p n h = record { old = o; noted = n; stored = cc }
  Compiled-Known (orphaned x) p n h = cc
  Compiled-Known (committed q e) p n h = record {
    old = o;
    noted = n;
    stored = get-put_self s.states (key_of t o) _ ∙ (cc);
  }

module _ {py : Platform} {s : WorldStateService} {t : String} {o : Observation}
    {cause level : String} where
  Ingested-Known :
      {fresh : Fresh} {r : Result OrderState × WorldStateService} {state : OrderState}
      → Ingested py s t o cause level fresh r
      → r.0 ≡ ok state
      → Known r.1 t o state
  Ingested-Known (known old state e e') h = record { old = old; noted = e; stored = cc }
  Ingested-Known (lost old e) h = cc
  Ingested-Known (refused x e) h = cc
  Ingested-Known {fresh} (fresh_one incoming e new c) h =
      let before = attributes_before (Dict.get s.states (key_of t o)) in
      let same =
        merge-SameLedger (note_observation s t o) (key_of t o) before before incoming fresh in
      Compiled-Known c (ap (λ d. Dict.get d (key_of t o)) (sym same.same_states))
        (ap (λ d. Dict.get d (t, o.observation_id)) same.same_observations
          ∙ get-put_self s.observations (t, o.observation_id) o)
        h

-- what `ingest` has answered for is known
pub ingest-Known_after :
    (py : Platform) (s : WorldStateService) (t : String) (o : Observation) (cause level : String)
    (fresh : Fresh) {state : OrderState}
    → (ingest py s t o cause level fresh).0 ≡ ok state
    → Known (ingest py s t o cause level fresh).1 t o state
ingest-Known_after py s t o cause level fresh h =
    Ingested-Known (ingest-Ingested py s t o cause level fresh) h

-- When `ingest` has answered with a state, ingesting the observation again, with whatever content,
-- cause and level, answers with the same state and changes nothing.
pub ingest_twice :
    (py : Platform) (s : WorldStateService) (t : String) (o : Observation) (cause level : String)
    (fresh : Fresh) {state : OrderState}
    → (ingest py s t o cause level fresh).0 ≡ ok state
    → (again : Observation) (cause' level' : String) (fresh' : Fresh)
    → again.observation_id ≡ o.observation_id
    → key_of t again ≡ key_of t o
    → ingest py (ingest py s t o cause level fresh).1 t again cause' level' fresh'
      ≡ (ok state, (ingest py s t o cause level fresh).1)
ingest_twice py s t o cause level fresh h again cause' level' fresh' same_id same_key =
    let k = ingest-Known_after py s t o cause level fresh h in
    ingest-Known py _ t again cause' level' fresh'
      (record { old = k.old; noted = rw same_id k.noted; stored = rw same_key k.stored })
