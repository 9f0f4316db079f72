-- ===== src/WorldState/Service/Protect.antt =====
-- `ingest` of src/reality_layer/world_state/service.py on a value that another source contradicts.
use agents_reality_layer.Prelude.{
  string_eq, pair_eq, triple_eq, nat_eq, String, true, none, some, ◌≡◌, refl, Option, sym,
  some_injective, ◌∙◌, subst,
}
use agents_reality_layer.Dict
use agents_reality_layer.Json.{Platform}
use agents_reality_layer.Errors.{Result, ok, ok_injective}
use agents_reality_layer.WorldState.Models.{Observation, StateAttribute, Attributes, OrderState}
use agents_reality_layer.WorldState.Service.{WorldStateService, project}
use agents_reality_layer.WorldState.Service.Ingest.{
  Fresh, ingest, key_of, note_observation, contradicts, attributes_before,
}
use agents_reality_layer.WorldState.Service.Merge.{
  Distinct, chosen, is_open, merge-get, merge-is_open,
}
use agents_reality_layer.WorldState.Service.Outcome.{
  Compiled, unchanged, orphaned, committed, Ingested, known, lost, refused, fresh_one, merged,
  ingest-Ingested,
}

module _ {py : Platform} {s : WorldStateService} {t : String} {o : Observation}
    {cause level : String} where
  Compiled-keeps :
      {previous : Option OrderState} {old : OrderState} {attributes : Attributes} {hex : String}
      {r : Result OrderState × WorldStateService} {state : OrderState} (name : String)
      {existing : StateAttribute}
      → Compiled py s t o cause level previous attributes hex r
      → previous ≡ some old
      → Dict.get old.attributes name ≡ some existing
      → Dict.get attributes name ≡ some existing
      → is_open s (key_of t o) name ≡ true
      → r.0 ≡ ok state
      → (Dict.get state.attributes name ≡ some existing) × (is_open r.1 (key_of t o) name ≡ true)
  Compiled-keeps name {existing} (unchanged st p _) w a b k h = (
    subst (λ x. Dict.get x.attributes name ≡ some existing)
        (some_injective (sym w ∙ p) ∙ ok_injective h) a,
    k,
  )
  Compiled-keeps name (orphaned x) w a b k h = cc
  Compiled-keeps name {existing} (committed q e) w a b k h =
      (subst (λ x. Dict.get x.attributes name ≡ some existing) (ok_injective h) b, k)

module _ (s : WorldStateService) (t : String) (o : Observation) (incoming : Attributes)
    (fresh : Fresh) (name : String) {old : OrderState} {existing claimed : StateAttribute}
    (before : Dict.get s.states (key_of t o) ≡ some old)
    (held : Dict.get old.attributes name ≡ some existing)
    (claims : Dict.get incoming name ≡ some claimed)
    (against : contradicts existing claimed ≡ true) where
  before_get : Dict.get (attributes_before (Dict.get s.states (key_of t o))) name ≡ some existing
  before_get = subst (λ x. Dict.get (attributes_before x) name ≡ some existing) (sym before) held

  merged-get : Distinct incoming → Dict.get (merged s t o incoming fresh).1 name ≡ some existing
  merged-get distinct =
      let found = attributes_before (Dict.get s.states (key_of t o)) in
      merge-get (note_observation s t o) (key_of t o) found found incoming fresh name distinct
      ∙ choice
    where
      choice :
          chosen
            (Dict.get (attributes_before (Dict.get s.states (key_of t o))) name)
            (Dict.get incoming name)
            (Dict.get (attributes_before (Dict.get s.states (key_of t o))) name)
          ≡ some existing
      choice = rw (before_get, claims, against) refl

  merged-open : is_open (merged s t o incoming fresh).0 (key_of t o) name ≡ true
  merged-open =
      let found = attributes_before (Dict.get s.states (key_of t o)) in
      merge-is_open (note_observation s t o) (key_of t o) found found incoming fresh name before_get
        claims against

-- A new observation that contradicts a fresh value of another connector does not overwrite it: when
-- `ingest` answers with a state, the attribute in that state is the one before, and a conflict over it
-- is open. The names of the observation are distinct, as the keys of a dictionary are.
pub ingest_protects :
    (py : Platform) (s : WorldStateService) (t : String) (o : Observation) (cause level : String)
    (fresh : Fresh) (name : String) {old state : OrderState} {existing claimed : StateAttribute}
    {incoming : Attributes}
    → Dict.get s.observations (t, o.observation_id) ≡ none
    → Dict.get s.states (key_of t o) ≡ some old
    → Dict.get old.attributes name ≡ some existing
    → project fresh.now o ≡ ok incoming
    → Distinct incoming
    → Dict.get incoming name ≡ some claimed
    → contradicts existing claimed ≡ true
    → (ingest py s t o cause level fresh).0 ≡ ok state
    → (Dict.get state.attributes name ≡ some existing)
      × (is_open (ingest py s t o cause level fresh).1 (key_of t o) name ≡ true)
ingest_protects py s t o cause level fresh name {old} {state} {existing} {claimed} {incoming} new
      before held read distinct claims against h =
    by_outcome (ingest-Ingested py s t o cause level fresh) h
  where
    by_outcome :
        {r : Result OrderState × WorldStateService}
        → Ingested py s t o cause level fresh r
        → r.0 ≡ ok state
        → (Dict.get state.attributes name ≡ some existing) × (is_open r.1 (key_of t o) name ≡ true)
    by_outcome (known seen st e e') h = cc
    by_outcome (lost seen e) h = cc
    by_outcome (refused x e) h = cc
    by_outcome {r} (fresh_one incoming' e unseen c) h =
        let same : incoming' ≡ incoming = ok_injective (sym e ∙ read) in
        let claims' = subst (λ x. Dict.get x name ≡ some claimed) (sym same) claims in
        Compiled-keeps name c before held
          (merged-get s t o incoming' fresh name before held claims' against
            (subst (λ x. Distinct x) (sym same) distinct))
          (merged-open s t o incoming' fresh name before held claims' against) h
