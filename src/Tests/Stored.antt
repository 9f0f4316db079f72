-- ===== src/Tests/Stored.antt =====
-- States, conflicts, events and workspaces in a database of lists.
use agents_reality_layer.Prelude.{
  String, true, false, none, some, List, [], ◌∷◌, ◌≡◌, refl, inl, filter, ap, string_eq,
}
use mathlib.Core.List.{Perm}
use agents_reality_layer.Prelude.Float.{Conversion, refused}
use agents_reality_layer.Prelude.Time.{DateTime}
use agents_reality_layer.Dict
use agents_reality_layer.Json.{Value, str, bool, Object}
use agents_reality_layer.Errors.{Result, ok}
use agents_reality_layer.Onboarding.{holds, value_at}
use agents_reality_layer.Actions.Events.{ActionEventRecord}
use agents_reality_layer.Actions.Persistence.{
  persist_event, persist_event_twice, get_event, events_for_action, events_for_tenant,
  persist_event-listed,
}
use agents_reality_layer.WorldState.Models.{CommitRecord}
use agents_reality_layer.WorldState.Persistence.Store.{
  persist, load_state, load_commit, persist_conflict, load_conflict,
}
use agents_reality_layer.WorldState.Persistence.Roundtrip.{
  load_state-persist, load_conflict-persist_conflict,
}
use agents_reality_layer.Workspaces.{
  initialize, set_mode, policy, has_capability, record_connector_checks, new_workspace,
  new_connector, checked_name, of_tenant, in_workspace, is_connector,
}
use agents_reality_layer.Workspaces.Grants.{
  initialize_twice, set_mode-policy, initialize_grants_nothing,
  record_connector_checks-has_capability,
}
use agents_reality_layer.Database.{
  Db, observe_only, demo_proposal, ConnectorKind, shopify, easypost, Workspace, Connector,
}
use agents_reality_layer.Database.Laws.{list_sql, list_sql-IsSql}
use agents_reality_layer.Tests.Samples.{py, noon}
use agents_reality_layer.Tests.World.{first_state, decided}

abbrev pub empty : Db list_sql
empty = record {
  workspaces = [];
  connectors = [];
  observations = [];
  projections = [];
  commits = [];
  events = [];
  conflicts = [];
}

-- every sample is of one time
abbrev pub read_noon : String → Result DateTime
read_noon s = ok noon

abbrev first_commit : CommitRecord
first_commit = record {
  commit_id = "cmt_1";
  tenant_id = "demo";
  parent_commit_id = none;
  entity_type = "order";
  entity_id = "1001";
  cause = "observation";
  observation_ids = "obs_1" ∷ [];
  before = [];
  after = ("status", str "open") ∷ [];
  semantic_diff = [];
  assurance_level = "observed";
  previous_hash = none;
  hash = "0";
}

load_state-persist_example :
    (load_state list_sql py read_noon
        (persist list_sql py read_noon empty first_state first_commit noon)
        "demo"
        "order:1001"
      ≡ ok (some first_state))
    × (load_commit list_sql
          (persist list_sql py read_noon empty first_state first_commit noon)
          "demo"
          "cmt_1"
        ≡ some first_commit)
load_state-persist_example =
    load_state-persist list_sql list_sql-IsSql py read_noon empty first_state first_commit noon
      ((refl, refl), tt) refl (inl refl)

load_conflict-persist_conflict_example :
    load_conflict list_sql py read_noon
      (persist_conflict list_sql py read_noon empty decided)
      "demo"
      "cnf_2"
    ≡ ok (some decided)
load_conflict-persist_conflict_example =
    load_conflict-persist_conflict list_sql list_sql-IsSql py read_noon empty decided
      ((refl, refl), ((refl, refl), tt)) (inl refl)

abbrev proposed : ActionEventRecord
proposed = record {
  event_id = "evt_1";
  tenant_id = "demo";
  action_id = "act_1";
  event_type = "proposed";
  actor_role = "operations";
  payload = ("reason", str "customer asked") ∷ [];
  previous_event_hash = none;
  event_hash = "0";
}

persist_event_twice_example :
    persist_event list_sql (persist_event list_sql empty proposed) proposed
    ≡ persist_event list_sql empty proposed
persist_event_twice_example =
    persist_event_twice list_sql list_sql-IsSql empty proposed proposed refl refl

nothing_stored : get_event list_sql empty "demo" "evt_1" ≡ none
nothing_stored = refl

persist_event-listed_example :
    Perm
      (events_for_action list_sql py (persist_event list_sql empty proposed) "demo" "act_1")
      (proposed ∷ events_for_action list_sql py empty "demo" "act_1")
    × Perm
        (events_for_tenant list_sql py (persist_event list_sql empty proposed) "demo")
        (proposed ∷ events_for_tenant list_sql py empty "demo")
persist_event-listed_example =
    persist_event-listed list_sql list_sql-IsSql py empty proposed "demo" "act_1" nothing_stored

abbrev both : List ConnectorKind
both = shopify ∷ easypost ∷ []

abbrev pub no_float : Value → Conversion
no_float v = refused

abbrev made : Db list_sql
made = (initialize list_sql empty "demo" (some "ws_1") both "0" noon).1

abbrev workspace : Workspace
workspace = new_workspace "demo" "ws_1" noon

initialize_twice_example :
    ((initialize list_sql made "demo" (some "ws_1") both "7" noon).0.workspace_id
      ≡ (initialize list_sql empty "demo" (some "ws_1") both "0" noon).0.workspace_id)
    × ((initialize list_sql made "demo" (some "ws_1") both "7" noon).1 ≡ made)
initialize_twice_example =
    initialize_twice list_sql list_sql-IsSql empty "demo" (some "ws_1") both both "0" "7" noon noon
      refl

initialize_grants_nothing_example :
    (policy list_sql no_float made "demo" ≡ ok (record { mode = observe_only; value_limit = none }))
    × (has_capability list_sql made "demo" shopify "write" ≡ false)
initialize_grants_nothing_example =
    initialize_grants_nothing list_sql list_sql-IsSql no_float empty "demo" (some "ws_1") both "0"
      noon shopify "write" refl refl refl

made_workspace : made.workspaces ≡ workspace ∷ []
unfolding initialize
made_workspace = refl

set_mode-policy_example :
    policy list_sql no_float (set_mode list_sql made "demo" demo_proposal).1 "demo"
    ≡ ok (record { mode = demo_proposal; value_limit = none })
unfolding Dict.get
set_mode-policy_example =
    set_mode-policy list_sql list_sql-IsSql no_float made "demo" demo_proposal workspace
      (ap (filter (of_tenant "demo")) made_workspace) refl

abbrev shopify_check : Object
shopify_check =
    ("connector", str "shopify")
    ∷ ("read_capability", bool true)
    ∷ ("write_capability", bool false)
    ∷ []

abbrev shop : Connector
shop = new_connector "demo" "ws_1" shopify

made_both : made.connectors ≡ shop ∷ new_connector "demo" "ws_1" easypost ∷ []
unfolding initialize
made_both = refl

record_connector_checks-has_capability_example :
    (has_capability list_sql
        (record_connector_checks list_sql py made "demo" (shopify_check ∷ [])).1
        "demo"
        shopify
        "read"
      ≡ holds (value_at shopify_check "read_capability"))
    × (has_capability list_sql
          (record_connector_checks list_sql py made "demo" (shopify_check ∷ [])).1
          "demo"
          shopify
          "write"
        ≡ holds (value_at shopify_check "write_capability"))
unfolding Dict.get
record_connector_checks-has_capability_example =
    record_connector_checks-has_capability list_sql list_sql-IsSql py made "demo" shopify_check
      workspace shop (ap (filter (of_tenant "demo")) made_workspace)
      (ap (λ cs. checked_name shopify_check (filter (in_workspace "demo" "ws_1") cs)) made_both)
      (ap (filter (is_connector "demo" "ws_1" shopify)) made_both)
