-- ===== src/Tests/World.antt =====
-- Two sources that disagree about an order, and the operator who decides.
use agents_reality_layer.Prelude.{
  nat_eq, string_eq, pair_eq, triple_eq, option_eq, String, true, false, none, some, [], ◌∷◌, ◌≡◌,
  refl, ◌⊎◌,
}
use agents_reality_layer.Prelude.Int.{pos}
use agents_reality_layer.Prelude.Time.{DateTime}
use mathlib.Core.Option
use agents_reality_layer.Dict
use agents_reality_layer.Json.{Value, str, py_eq}
use agents_reality_layer.Errors.{Result, ok, err, key_error}
use agents_reality_layer.WorldState.Models.{
  Observation, StateAttribute, Attributes, OrderState, Conflict, dump_attribute,
}
use agents_reality_layer.WorldState.Service.{WorldStateService, init, project, changed_names, diff}
use agents_reality_layer.WorldState.Service.Commit.{latest_hash, create_commit}
use agents_reality_layer.WorldState.Service.Ingest.{
  Fresh, ingest, merge, compile, record_conflict, contradicts, key_of, candidate_of,
}
use agents_reality_layer.WorldState.Service.Conflicts.{
  resolve_conflict, resolve_open, resolve_state, get_conflict, resolved_attribute,
}
use agents_reality_layer.WorldState.Service.Merge.{is_open, Distinct}
use agents_reality_layer.WorldState.Service.Dedup.{ingest_twice}
use agents_reality_layer.WorldState.Service.Protect.{ingest_protects}
use agents_reality_layer.WorldState.Service.Versions.{ingest_advances, Still, Advanced}
use agents_reality_layer.WorldState.Service.Resolve.{resolve_once}
use agents_reality_layer.Tests.Samples.{py, noon}

abbrev pub report : String → String → String → Observation
report id connector status = record {
  observation_id = id;
  connector = connector;
  object_type = "order";
  object_id = "1001";
  observed_at = noon;
  payload = ("status", str status) ∷ [];
}

abbrev pub chance : String → Fresh
chance hex = record {
  now = noon;
  commit_hex = hex;
  conflict_hex = λ name. hex;
  detected_at = λ name. noon;
}

abbrev pub answer : Result OrderState × WorldStateService
answer =
    ingest py init "demo" (report "obs_1" "shopify" "open") "observation" "observed" (chance "1")

abbrev status_from : String → String → StateAttribute
status_from id status = record {
  value = str status;
  confidence = record { mantissa = pos 8827055269646172; scale = 53 };
  observed_at = noon;
  freshness = "fresh";
  source_observation_ids = id ∷ [];
  connector = some "shopify";
}

abbrev pub first_state : OrderState
first_state = record {
  tenant_id = "demo";
  entity_id = "order:1001";
  entity_type = "order";
  state_version = 1;
  attributes = ("status", status_from "obs_1" "open") ∷ [];
  commit_id = "cmt_1";
}

world : Unit {0}
unfolding ingest compile merge project create_commit latest_hash Dict.get Dict.put Dict.pop
    contradicts record_conflict changed_names diff py_eq resolve_conflict resolve_open resolve_state
    get_conflict resolved_attribute dump_attribute
world = tt

answer_is : answer.0 ≡ ok first_state
unfolding world
answer_is = refl

abbrev pub claim : Observation
claim = report "obs_2" "easypost" "cancelled"

abbrev claimed : StateAttribute
claimed = record (status_from "obs_2" "cancelled") { connector = some "easypost" }

-- the state stands: the sources disagree, and an operator must decide
abbrev disputed : Result OrderState × WorldStateService
disputed = ingest py answer.1 "demo" claim "observation" "observed" (chance "2")

disputed_is : disputed.0 ≡ ok first_state
unfolding world
disputed_is = refl

abbrev settled : Result Conflict × WorldStateService
settled = resolve_conflict py disputed.1 "demo" "cnf_2" (str "cancelled") "ops" "phoned" noon "3"

abbrev pub decided : Conflict
decided = record {
  conflict_id = "cnf_2";
  tenant_id = "demo";
  entity_type = "order";
  entity_id = "1001";
  attribute = "status";
  candidates = candidate_of (status_from "obs_1" "open") ∷ candidate_of claimed ∷ [];
  status = "resolved";
  detected_at = noon;
  resolved_value = some (str "cancelled");
  resolved_by = some "ops";
  resolved_at = some noon;
  resolution_reason = some "phoned";
}

settled_is : settled.0 ≡ ok decided
unfolding world
settled_is = refl

-- the operator's value is the next version of the order
settled_version :
    Option.map (λ e. e.state_version) (Dict.get settled.1.states ("demo", "order", "1001")) ≡ some 2
unfolding world
settled_version = refl

-- a time without a zone: the observation is noted and yet has no state
abbrev naive : Observation
naive = record (report "obs_9" "shopify" "open") {
  observed_at = record { micros = 0; aware = false };
}

naive_lost :
    (ingest py
      (ingest py init "demo" naive "observation" "observed" (chance "9")).1
      "demo"
      naive
      "observation"
      "observed"
      (chance "9")).0
    ≡ err (key_error "1001")
unfolding world
naive_lost = refl

ingest_twice_example :
    ingest py answer.1 "demo" (report "obs_1" "shopify" "paid") "retry" "observed" (chance "7")
    ≡ (ok first_state, answer.1)
ingest_twice_example =
    ingest_twice py init "demo" (report "obs_1" "shopify" "open") "observation" "observed"
      (chance "1") answer_is (report "obs_1" "shopify" "paid") "retry" "observed" (chance "7") refl
      refl

ingest_advances_example :
    ((Dict.get init.states (key_of "demo" (report "obs_1" "shopify" "open")) ≡ some first_state)
      × Still init answer.1)
    ⊎ Advanced py init answer.1 "demo"
        (Dict.get init.states (key_of "demo" (report "obs_1" "shopify" "open")))
        first_state
ingest_advances_example =
    ingest_advances py init "demo" (report "obs_1" "shopify" "open") "observation" "observed"
      (chance "1") answer_is

claim_new : Dict.get answer.1.observations ("demo", "obs_2") ≡ none
unfolding world
claim_new = refl

order_known : Dict.get answer.1.states ("demo", "order", "1001") ≡ some first_state
unfolding world
order_known = refl

status_known : Dict.get first_state.attributes "status" ≡ some (status_from "obs_1" "open")
unfolding world
status_known = refl

claim_read : project noon claim ≡ ok (("status", claimed) ∷ [])
unfolding world
claim_read = refl

abbrev claims : Attributes
claims = ("status", claimed) ∷ []

claim_Distinct : Distinct claims
unfolding world
claim_Distinct = (refl, tt)

status_claimed : Dict.get claims "status" ≡ some claimed
unfolding world
status_claimed = refl

claim_contradicts : contradicts (status_from "obs_1" "open") claimed ≡ true
unfolding world
claim_contradicts = refl

ingest_protects_example :
    (Dict.get first_state.attributes "status" ≡ some (status_from "obs_1" "open"))
    × (is_open disputed.1 ("demo", "order", "1001") "status" ≡ true)
ingest_protects_example =
    ingest_protects py answer.1 "demo" claim "observation" "observed" (chance "2") "status"
      {incoming = claims} claim_new order_known status_known claim_read claim_Distinct
      status_claimed claim_contradicts disputed_is

resolve_once_example :
    (decided.status ≡ "resolved")
    × ((v' : Value) (who' why' : String) (now' : DateTime) (hex' : String)
        → resolve_conflict py settled.1 "demo" "cnf_2" v' who' why' now' hex'
          ≡ (ok decided, settled.1))
resolve_once_example =
    resolve_once py disputed.1 "demo" "cnf_2" (str "cancelled") "ops" "phoned" noon "3" settled_is
