-- ===== src/Tests/History.antt =====
-- The commits of a service after a few calls: the operator's decision of Tests/World.antt, and the walks
-- along the parents of the commits.
use agents_reality_layer.Prelude.{
  nat_eq, string_eq, pair_eq, triple_eq, option_eq, suc, true, false, none, some, List, [], ◌∷◌,
  ◌≡◌, refl, length, arith, ◌<◌,
}
use agents_reality_layer.Dict
use agents_reality_layer.Json.{str, py_eq}
use agents_reality_layer.Errors.{ok}
use agents_reality_layer.WorldState.Models.{CommitRecord, dump_attribute}
use agents_reality_layer.WorldState.Service.{WorldStateService, init, project, changed_names, diff}
use agents_reality_layer.WorldState.Service.Commit.{
  latest_hash, create_commit, validate_commit_chain,
}
use agents_reality_layer.WorldState.Service.Ingest.{merge, compile, record_conflict, contradicts}
use agents_reality_layer.WorldState.Service.Ingest
use agents_reality_layer.WorldState.Service.Conflicts
use agents_reality_layer.WorldState.Service.Conflicts.{
  resolve_open, resolve_state, get_conflict, resolved_attribute,
}
use agents_reality_layer.WorldState.Service.Calls
use agents_reality_layer.WorldState.Service.Calls.{Call, step, run}
use agents_reality_layer.WorldState.Service.Queries.{list_commits, walk, ancestor_from, is_ancestor}
use agents_reality_layer.WorldState.Service.History.{AllNew, run-list_commits}
use agents_reality_layer.WorldState.Service.Fuel.{walk_enough, is_ancestor_enough}
use agents_reality_layer.Tests.Samples.{py, noon}
use agents_reality_layer.Tests.World.{report, chance, claim}

abbrev decision_calls : List Call
decision_calls =
    Calls.ingest "demo" (report "obs_1" "shopify" "open") "observation" "observed" (chance "1")
    ∷ Calls.ingest "demo" claim "observation" "observed" (chance "2")
    ∷ Calls.resolve_conflict "demo" "cnf_2" (str "cancelled") "ops" "phoned" noon "3"
    ∷ []

ran : Unit {0}
unfolding Ingest.ingest compile merge project create_commit latest_hash Dict.get Dict.put Dict.pop
    contradicts record_conflict changed_names diff py_eq Conflicts.resolve_conflict resolve_open
    resolve_state get_conflict resolved_attribute dump_attribute step run walk ancestor_from
ran = tt

decision_calls-AllNew : AllNew py init decision_calls
unfolding ran
decision_calls-AllNew = (refl, (refl, (refl, tt)))

run-list_commits_example :
    (commits : List CommitRecord) × (list_commits (run py init decision_calls) "demo" none
      ≡ ok commits)
    × (validate_commit_chain py commits ≡ ok tt)
run-list_commits_example = run-list_commits py decision_calls "demo" decision_calls-AllNew

abbrev service : WorldStateService
service = run py init decision_calls

two_commits : length service.commits ≡ 2
unfolding ran
two_commits = refl

few : length service.commits < 10
few = rw two_commits (omega arith)

walk_enough_example :
    walk 10 service "demo" [] (some "cmt_3")
    ≡ walk (suc (length service.commits)) service "demo" [] (some "cmt_3")
walk_enough_example = walk_enough service "demo" 10 (some "cmt_3") few

is_ancestor_enough_example :
    ancestor_from 10 service "demo" "cmt_1" [] (some "cmt_3")
    ≡ is_ancestor service "demo" "cmt_1" "cmt_3"
is_ancestor_enough_example = is_ancestor_enough service "demo" "cmt_1" "cmt_3" 10 few

-- the first commit is an ancestor of the operator's, and not the other way round
first_is_ancestor : is_ancestor service "demo" "cmt_1" "cmt_3" ≡ true
unfolding ran
first_is_ancestor = refl

last_is_no_ancestor : is_ancestor service "demo" "cmt_3" "cmt_1" ≡ false
unfolding ran
last_is_no_ancestor = refl
