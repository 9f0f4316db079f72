-- ===== src/Actions/Proof/Assured.antt =====
-- What the proof of an action of src/reality_layer/actions/service.py assures after a run of calls.
use agents_reality_layer.Prelude.{
  string_eq, pair_eq, String, Bool, true, false, Option, none, some, List, ◌==◌, ◌≡◌, ◌↔◌, refl,
  sym, ap, subst, ◌∙◌, ==_iff, inl, inr, Bool-cases, if◌then◌else◌,
}
use agents_reality_layer.Json.{Platform}
use agents_reality_layer.Errors.{Result, ok, err, Result-cases, OkAll, OkAll-ok, OkAll->>=}
use agents_reality_layer.Actions.Models.{ActionStatus, verified, status_eq}
use agents_reality_layer.Actions.Audit.{validate_event_chain}
use agents_reality_layer.Actions.Calls.{Call, Provider, run}
use agents_reality_layer.Actions.Calls.Status.{AllFresh}
use agents_reality_layer.Actions.Calls.Chains.{run-validate}
use agents_reality_layer.Actions.Service.{
  StoredAction, ActionService, init, owned_action, events_of,
}
use agents_reality_layer.WorldState.Models.{CommitRecord}
use agents_reality_layer.Actions.Proof.{
  ProviderEvidence, PolicyEvidence, VerificationEvidence, ProofBundle, latest_of, policy_evidence,
  provider_evidence, verification_evidence, assurance, bundle, proof,
}

-- what `proof` answers is the document of an action that the tenant owns
IsBundle : Platform → ActionService → String → String → Option CommitRecord → ProofBundle → Type 0
IsBundle py s i t commit b =
    (a : StoredAction) × (policy : Option PolicyEvidence) × (v : Option VerificationEvidence)
    × (owned_action s i t ≡ ok a)
    × (b ≡ bundle py s i t commit a policy v)

any_answer : {A : Type 0} (m : Result A) → OkAll (λ a. Unit {0}) m
any_answer (ok a) = tt
any_answer (err e) = tt

proof-IsBundle :
    (py : Platform) (s : ActionService) (i t : String) (commit : Option CommitRecord)
    → OkAll (IsBundle py s i t commit) (proof py s i t commit)
unfolding proof IsBundle
proof-IsBundle py s i t commit = elim (Result-cases (owned_action s i t)) [
  | inr (e, h) ↦ rw (h, proof) tt
  | inl (a, h) ↦
      rw (h, proof)
        (OkAll->>= (λ p. Unit {0}) (IsBundle py s i t commit)
          (policy_evidence (latest_of "policy_evaluated" (events_of s i))) _
          (any_answer (policy_evidence (latest_of "policy_evaluated" (events_of s i))))
          (λ policy _.
            OkAll->>= (λ v. Unit {0}) (IsBundle py s i t commit)
              (verification_evidence py (events_of s i)) _
              (any_answer (verification_evidence py (events_of s i)))
              (λ v _. (a, policy, v, h, refl))))
]

abbrev level : Bool → Option ProviderEvidence → String
level b provider =
    if b then "verified" else elim provider [ none ↦ "observed" | some _ ↦ "accepted" ]

assurance-verified :
    (x : ActionStatus) (provider : Option ProviderEvidence)
    → ((assurance x provider ≡ "verified") ↔ (x ≡ verified))
assurance-verified x provider = elim (Bool-cases (x == verified)) [
  | inl e ↦ ((λ h. (==_iff x verified).0 e), (λ h. rw e refl))
  | inr e ↦ (
    (λ h. absurd (lesser provider (sym (ap (λ b. level b provider) e) ∙ h))),
    (λ h. absurd (differ (sym ((==_iff x verified).1 h) ∙ e))),
  )
]
  where
    differ : true ≡ false → ⊥
    differ h = cc

    lesser : (p : Option ProviderEvidence) → level false p ≡ "verified" → ⊥
    lesser none h = differ (sym ((==_iff "observed" "verified").1 h))
    lesser (some e) h = differ (sym ((==_iff "accepted" "verified").1 h))

-- After any calls of a new service, each new id being one that is not in use, the events of every proof
-- pass `validate_event_chain`, and its assurance is `verified` exactly when the status of the action is.
pub run-proof :
    {W : Type 0} (py : Platform) (provider : Provider W) (world : W) (calls : List Call)
    (i t : String) (commit : Option CommitRecord) {b : ProofBundle}
    → AllFresh py provider (record { service = init; world = world }) calls
    → proof py (run py provider (record { service = init; world = world }) calls).service i t commit
      ≡ ok b
    → (validate_event_chain py b.events ≡ ok tt)
      × ((b.assurance_level ≡ "verified") ↔ (b.status ≡ verified))
unfolding IsBundle
run-proof py provider world calls i t commit new h =
    let s = (run py provider (record { service = init; world = world }) calls).service in
    let (a, policy, v, owned, same) =
      OkAll-ok (IsBundle py s i t commit) (proof-IsBundle py s i t commit) h in
    (
      ap (λ x. validate_event_chain py x.events) same ∙ run-validate py provider world calls i new,
      subst (λ x. (x.assurance_level ≡ "verified") ↔ (x.status ≡ verified)) (sym same)
          (assurance-verified a.decision.status
            (provider_evidence py a.proposal (latest_of "provider_accepted" (events_of s i)))),
    )
