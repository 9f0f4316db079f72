-- ===== src/Tests/Rules.antt =====
-- The policy and the audit trail at concrete inputs.
use agents_reality_layer.Prelude.{string_eq, ◌≡◌, ◌↔◌, ◌⊎◌, refl, none, some, List, [], ◌∷◌}
use agents_reality_layer.Json.{hash_json, canonicalize, insert_field}
use agents_reality_layer.Errors.{ok}
use agents_reality_layer.RealityGit.{check_from}
use agents_reality_layer.RealityGit.Tamper.{Pairwise, Clash}
use agents_reality_layer.Actions.Models.{cancel_order, approval_required, denied}
use agents_reality_layer.Actions.Policy.{evaluate_policy}
use agents_reality_layer.Actions.Policy.Rules.{
  MayAsk, IsOpen, evaluate_policy-approval_iff, evaluate_policy_denies,
}
use agents_reality_layer.Actions.Events.{ActionEventRecord}
use agents_reality_layer.Actions.Service.{next_event}
use agents_reality_layer.Actions.Audit.{event_link, validate_event_chain}
use agents_reality_layer.Actions.Audit.Tamper.{SameEvent, event_chain_tamper}
use agents_reality_layer.Tests.Samples.{py, proposal, context}

evaluate_policy-approval_iff_example :
    ((evaluate_policy py "act_a" proposal "operations" context "mvp-1").status ≡ approval_required)
    ↔ (MayAsk cancel_order "operations" × IsOpen context)
evaluate_policy-approval_iff_example =
    evaluate_policy-approval_iff py "act_a" proposal "operations" context "mvp-1"

evaluate_policy_denies_example :
    ((evaluate_policy py "act_a" proposal "finance" context "mvp-1").status ≡ approval_required)
      × ((evaluate_policy py "act_a" proposal "finance" context "mvp-1").required_role
          ≡ some "operations")
    ⊎ ((evaluate_policy py "act_a" proposal "finance" context "mvp-1").status ≡ denied)
      × ((evaluate_policy py "act_a" proposal "finance" context "mvp-1").required_role ≡ none)
evaluate_policy_denies_example =
    evaluate_policy_denies py "act_a" proposal "finance" context "mvp-1"

abbrev first : ActionEventRecord
first = next_event py [] "demo" "act_a" "policy_evaluated" "operations" [] "e0"

abbrev history : List ActionEventRecord
history = first ∷ next_event py (first ∷ []) "demo" "act_a" "approved" "operations" [] "e1" ∷ []

history_valid : validate_event_chain py history ≡ ok tt
unfolding next_event check_from hash_json canonicalize insert_field
history_valid = refl

event_chain_tamper_example :
    Pairwise SameEvent history history ⊎ Clash py event_link history history
event_chain_tamper_example =
    event_chain_tamper py history history refl history_valid history_valid refl
