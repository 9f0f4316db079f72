-- ===== src/Api/Proposed.antt =====
-- What `POST /v1/actions` of src/reality_layer/api/app.py has stored when it answers.
use agents_reality_layer.Prelude.{String, true, ◌≡◌, subst, ap, inl, inr}
use agents_reality_layer.Errors.{Result, ok, err, Result-cases, ok_injective}
use agents_reality_layer.Actions.Models.{ActionProposal, ActionDecision}
use agents_reality_layer.Actions.Service.Lifecycle.{Fresh}
use agents_reality_layer.Api.{App, AppSettings, Outside, answer, uncaught}
use agents_reality_layer.Api.State.{persist_action_events}
use agents_reality_layer.Api.Actions.{
  commit_action, committed_if_persistent, commit_decision, proposal_policy, propose_action,
  with_restored, run_proposal,
}
use agents_reality_layer.Api.Stored.{AllStored, committed-AllStored}
use agents_reality_layer.Database.{Sql}
use agents_reality_layer.Database.Laws.{IsSql}

uncaught-answer : {A : Type 0} (r : Result A) {a : A} → uncaught r ≡ answer a → r ≡ ok a
uncaught-answer (ok b) h = ap ok (answer_injective h)
  where
    answer_injective : {B : Type 0} {x y : B} → answer x ≡ answer y → x ≡ y
    answer_injective h = cc
uncaught-answer (err e) h = cc

module _ (sql : Sql) (laws : IsSql sql) (out : Outside) where
  -- the answer is the one that was committed
  answer-commit_action :
      {A : Type 0} (t i : String) (a : A) (app : App sql) {b : A}
      → (commit_action sql out t i (ok a, app)).0 ≡ ok b
      → a ≡ b
  answer-commit_action t i a app = elim (Result-cases (persist_action_events sql out app t i)) [
    | inl (db, k) ↦ rw (k, commit_action) (λ h. ok_injective h)
    | inr (e, k) ↦ rw (k, commit_action) (λ h. cc)
  ]

  answer-committed :
      {A : Type 0} (settings : AppSettings) (t i : String) (a : A) (app : App sql) {b : A}
      → settings.persistence_enabled ≡ true
      → (committed_if_persistent sql out settings t i (ok a, app)).0 ≡ ok b
      → a ≡ b
  answer-committed settings t i a app p = rw p (answer-commit_action t i a app)

  commit_decision-AllStored :
      (settings : AppSettings) (t : String) (r : Result ActionDecision × App sql)
      {d : ActionDecision}
      → settings.persistence_enabled ≡ true
      → (commit_decision sql out settings t r).0 ≡ ok d
      → AllStored sql laws out (commit_decision sql out settings t r).1 d.action_id
  commit_decision-AllStored settings t (err e, app) p h = cc
  commit_decision-AllStored settings t (ok decision, app) p h =
      let same = answer-committed settings t decision.action_id decision app p h in
      subst
        (λ x.
          AllStored sql laws out
            (committed_if_persistent sql out settings t decision.action_id (ok decision, app)).1
            x.action_id)
        same (committed-AllStored sql laws out settings t decision.action_id (ok decision, app) p h)

  -- With persistence, when a proposal is answered with a decision, every event that the application keeps
  -- of the action of the decision has a row.
  pub propose_action-AllStored :
      (app : App sql) (proposal : ActionProposal) (role t : String) (fresh : Fresh)
      {d : ActionDecision}
      → app.settings.persistence_enabled ≡ true
      → (propose_action sql out app proposal role t fresh).0 ≡ answer d
      → AllStored sql laws out (propose_action sql out app proposal role t fresh).1 d.action_id
  unfolding propose_action
  propose_action-AllStored app proposal role t fresh {d} p =
      elim (Result-cases (proposal_policy sql out app t)) [
        | inr (e, k) ↦ rw (k, propose_action) (λ h. cc)
        | inl (limits, k) ↦
            rw (k, propose_action)
              (λ h.
                commit_decision-AllStored app.settings t
                  (with_restored sql out app t (run_proposal sql out proposal role t limits fresh))
                  p (uncaught-answer _ h))
      ]
