-- ===== src/Worker/Verifier/Sweep.antt =====
-- `run_once` of src/reality_layer/worker/verifier.py: one sweep over the pending actions, and what it
-- leaves of them.
use agents_reality_layer.Prelude.{
  string_eq, ℕ, String, List, [], ◌∷◌, ◌≡◌, refl, sym, subst, ap, ◌∙◌, All, inl, inr,
}
use agents_reality_layer.Json.{Platform}
use agents_reality_layer.Errors.{Error, Result, ok, err, Result-cases}
use agents_reality_layer.Actions.Models.{ActionDecision}
use agents_reality_layer.Actions.Service.Lifecycle.{pending_verifications}
use agents_reality_layer.Worker.Verifier.{Attempt, Worker, verify_action}
use agents_reality_layer.Worker.Verifier.Kept.{
  HasEnded, verify_action-HasEnded, verify_action_ends_it,
}

-- the decision of one more action
abbrev pub add_decision :
    ActionDecision → Result (List ActionDecision) × Worker → Result (List ActionDecision) × Worker
add_decision d (err e, w) = (err e, w)
add_decision d (ok results, w) = (ok (d ∷ results), w)

-- the loop of `run_once`: an exception ends the sweep
unfoldable pub sweep :
    Platform
    → Worker
    → ℕ
    → (String → String → ℕ → Attempt)
    → List (String × String)
    → Result (List ActionDecision) × Worker
unfolding verify_action
sweep py w max_attempts attempts [] = (ok [], w)
sweep py w max_attempts attempts ((tenant_id, action_id) ∷ rest) =
    let (result, w') =
      verify_action py w tenant_id action_id max_attempts (attempts tenant_id action_id) in
    let next = sweep py w' max_attempts attempts rest in
    elim result [ err e ↦ (err e, w') | ok d ↦ add_decision d next ]

-- `run_once`, without a database
unfoldable pub run_once :
    Platform → Worker → ℕ → (String → String → ℕ → Attempt) → Result (List ActionDecision) × Worker
unfolding sweep pending_verifications
run_once py w max_attempts attempts =
    sweep py w max_attempts attempts (pending_verifications w.actions)

worker-add_decision :
    (d : ActionDecision) (r : Result (List ActionDecision) × Worker) → (add_decision d r).1 ≡ r.1
worker-add_decision d (err e, w) = refl
worker-add_decision d (ok results, w) = refl

answer-add_decision :
    (d : ActionDecision) (r : Result (List ActionDecision) × Worker) {results : List ActionDecision}
    → (add_decision d r).0 ≡ ok results
    → (others : List ActionDecision) × (r.0 ≡ ok others)
answer-add_decision d (err e, w) h = cc
answer-add_decision d (ok others, w) h = (others, refl)

module _ (py : Platform) (max_attempts : ℕ) (attempts : String → String → ℕ → Attempt) where
  -- what a sweep over more actions leaves, where it answers
  sweep-HasEnded :
      (w : Worker) (pending : List (String × String)) (j : String)
      → HasEnded w.actions j
      → HasEnded (sweep py w max_attempts attempts pending).1.actions j
  unfolding sweep
  sweep-HasEnded w [] j h = h
  sweep-HasEnded w ((t, i) ∷ rest) j h =
      let r = verify_action py w t i max_attempts (attempts t i) in
      let kept = verify_action-HasEnded py j w t i max_attempts (attempts t i) h in
      elim (Result-cases r.0) [
        | inr (e, k) ↦ rw (k, sweep) kept
        | inl (d, k) ↦
            rw (k, sweep)
              (subst (λ x. HasEnded x.actions j)
                (sym (worker-add_decision d (sweep py r.1 max_attempts attempts rest)))
                (sweep-HasEnded r.1 rest j kept))
      ]

  sweep-AllEnded :
      (w : Worker) (pending : List (String × String)) {results : List ActionDecision}
      → (sweep py w max_attempts attempts pending).0 ≡ ok results
      → All (λ (t, i). HasEnded (sweep py w max_attempts attempts pending).1.actions i) pending
  unfolding sweep
  sweep-AllEnded w [] = λ h. tt
  sweep-AllEnded w ((t, i) ∷ rest) {results} =
      let r = verify_action py w t i max_attempts (attempts t i) in
      elim (Result-cases r.0) [
        | inr (e, k) ↦
            let stopped : sweep py w max_attempts attempts ((t, i) ∷ rest) ≡ (err e, r.1) =
              rw (k, sweep) refl in
            λ h. absurd (no_answer (sym (ap (λ x. x.0) stopped) ∙ h))
        | inl (d, k) ↦
            let next = sweep py r.1 max_attempts attempts rest in
            let went : sweep py w max_attempts attempts ((t, i) ∷ rest) ≡ add_decision d next =
              rw (k, sweep) refl in
            let same = sym (ap (λ x. x.1) went ∙ worker-add_decision d next) in
            λ h.
              let (others, answered) = answer-add_decision d next (sym (ap (λ x. x.0) went) ∙ h) in
              (
                subst (λ x. HasEnded x.actions i) same
                    (sweep-HasEnded r.1 rest i
                      (verify_action_ends_it py i t w max_attempts (attempts t i) k)),
                subst (λ x. All (λ (u, j). HasEnded x.actions j) rest) same
                    (sweep-AllEnded r.1 rest answered),
              )
      ]
    where
      no_answer : {A : Type 0} {e : Error} {a : A} → err e ≡ ok a → ⊥
      no_answer h = cc

  -- When a sweep answers, every action that was waiting for its verification has a final status
  -- afterwards, whatever the attempts meet.
  pub run_once-AllEnded :
      (w : Worker) {results : List ActionDecision}
      → (run_once py w max_attempts attempts).0 ≡ ok results
      → All
          (λ (t, i). HasEnded (run_once py w max_attempts attempts).1.actions i)
          (pending_verifications w.actions)
  unfolding run_once
  run_once-AllEnded w h = sweep-AllEnded w (pending_verifications w.actions) h
