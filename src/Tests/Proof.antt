-- ===== src/Tests/Proof.antt =====
-- The proof of the action that went through the whole lifecycle.
use agents_reality_layer.Prelude.{string_eq, pair_eq, none, ◌≡◌, ◌↔◌, refl}
use agents_reality_layer.Errors.{Result, ok, err}
use agents_reality_layer.Actions.Audit.{validate_event_chain}
use agents_reality_layer.Actions.Calls.{run}
use agents_reality_layer.Actions.Models.{verified}
use agents_reality_layer.Actions.Proof.{ProofBundle, bundle, proof}
use agents_reality_layer.Actions.Proof.Assured.{run-proof}
use agents_reality_layer.Actions.Service.{ActionService, StoredAction, init}
use agents_reality_layer.Tests.Lifecycle.{program, start, calls-AllFresh}
use agents_reality_layer.Tests.Samples.{py, proposal, provider, calls}

abbrev service : ActionService
service = (run py provider start calls).service

abbrev nothing : StoredAction
nothing = record {
  proposal = proposal;
  decision = record {
    action_id = "";
    status = verified;
    reason = "";
    matched_rule = none;
    policy_version = "";
    required_role = none;
  };
  proposer_role = "";
  tenant_id = "";
}

abbrev bundle_of : Result ProofBundle → ProofBundle
bundle_of (ok b) = b
bundle_of (err e) = bundle py init "" "" none nothing none none

abbrev proven : ProofBundle
proven = bundle_of (proof py service "act_a" "demo" none)

proof_answered : proof py service "act_a" "demo" none ≡ ok proven
unfolding program proof
proof_answered = refl

assured : proven.assurance_level ≡ "verified"
unfolding program proof
assured = refl

run-proof_example :
    (validate_event_chain py proven.events ≡ ok tt)
    × ((proven.assurance_level ≡ "verified") ↔ (proven.status ≡ verified))
run-proof_example = run-proof py provider 0 calls "act_a" "demo" none calls-AllFresh proof_answered
