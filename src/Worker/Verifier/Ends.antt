-- ===== src/Worker/Verifier/Ends.antt =====
-- A verification that answers has ended: the answer is a final one.
use agents_reality_layer.Prelude.{
  ℕ, zero, suc, String, Bool, Option, ◌⊎◌, true, false, some, ◌≡◌, refl, inl, inr, Bool-cases, sym,
  subst, if◌then◌else◌,
}
use agents_reality_layer.Prelude.Text.{remove_prefix}
use agents_reality_layer.Json.{Platform, Value, str, py_eq}
use agents_reality_layer.Errors.{Result, ok, err, Error, Result-cases, OkAll, OkAll-ok}
use agents_reality_layer.Actions.Models.{ActionDecision}
use agents_reality_layer.Actions.Service.{ActionService, StoredAction, owned_action}
use agents_reality_layer.Actions.Service.Lifecycle.{
  terminal_verification, judge, verify, verifiable, observed_status, present,
}
use agents_reality_layer.WorldState.Models.{OrderState}
use agents_reality_layer.Worker.Verifier.{
  Attempt, Worker, ingest_verification_read, attempt_round, verify_loop, verify_action,
  rounds_after_first,
}

judge-final :
    (py : Platform) (observed : Value) → terminal_verification (judge py observed true).0 ≡ true
unfolding judge
judge-final py observed = elim (Bool-cases (py_eq observed (str "cancelled"))) [
  | inl e ↦ rw (e, judge) refl
  | inr e ↦ elim (Bool-cases (present observed)) [
    | inl p ↦ rw (e, p, judge) refl
    | inr p ↦ rw (e, p, judge) refl
  ]
]

-- the answer, if there is one, is final
Ended : Result ActionDecision → Type 0
Ended = OkAll (λ d. terminal_verification d.status ≡ true)

verify-Ended :
    (py : Platform) (s : ActionService) (i t : String) (state : Option OrderState) (hex : String)
    → Ended (verify py s i t state true hex).0
unfolding verify Ended
verify-Ended py s i t state hex = elim (Result-cases (owned_action s i t)) [
  | inr (e, h) ↦ rw (h, verify) tt
  | inl (action, h) ↦ elim (Bool-cases (verifiable action.decision.status)) [
    | inl v ↦ rw (h, v, verify) (judge-final py (observed_status state))
    | inr v ↦ rw (h, v, verify) tt
  ]
]

if-Ended :
    (b : Bool) (x y : Result ActionDecision × Worker)
    → (b ≡ true → Ended x.0)
    → Ended y.0
    → Ended (if b then x else y).0
if-Ended true x y h k = h refl
if-Ended false x y h k = k

module _ (py : Platform) (t i order_id : String) where
  attempt_round-Ended :
      (w : Worker) (a : Attempt) → Ended (attempt_round py w t i order_id a true).0
  unfolding attempt_round Ended
  attempt_round-Ended w a =
      elim (Result-cases (ingest_verification_read py w.world_state t order_id a).0) [
        | inr (e, h) ↦ rw (h, attempt_round) tt
        | inl (state, h) ↦
            rw (h, attempt_round) (verify-Ended py w.actions i t (some state) a.event_hex)
      ]

  last_round :
      (w : Worker) (a : Attempt) (d : ActionDecision)
      → a.out_of_time ≡ true
      → (attempt_round py w t i order_id a a.out_of_time).0 ≡ ok d
      → terminal_verification d.status ≡ true
  unfolding Ended
  last_round w a d o h =
      OkAll-ok (λ x. terminal_verification x.status ≡ true)
        (subst (λ b. Ended (attempt_round py w t i order_id a b).0) (sym o)
          (attempt_round-Ended w a))
        h

  verify_loop-Ended :
      (w : Worker) (attempts : ℕ → Attempt) (later : ℕ)
      → Ended (verify_loop py w t i order_id attempts later).0
  unfolding verify_loop Ended
  verify_loop-Ended w attempts zero = attempt_round-Ended w (attempts zero)
  verify_loop-Ended w attempts (suc later) =
      let a = attempts (suc later) in
      let r = attempt_round py w t i order_id a a.out_of_time in
      elim (Result-cases r.0) [
        | inr (e, h) ↦ rw (h, verify_loop) tt
        | inl (d, h) ↦ elim (Bool-cases (terminal_verification d.status)) [
          | inl k ↦ rw (h, k, verify_loop) k
          | inr k ↦
              rw (h, k, verify_loop)
                (if-Ended a.out_of_time (ok d, r.1) (verify_loop py r.1 t i order_id attempts later)
                  (λ o. last_round w a d o h) (verify_loop-Ended r.1 attempts later))
        ]
      ]

-- When `verify_action` answers, whatever the attempts meet and however many are allowed, its
-- answer is a final one: verified, failed or diverged, and never still pending.
pub verify_action-ends :
    (py : Platform) (w : Worker) (t i : String) (max_attempts : ℕ) (attempts : ℕ → Attempt)
    {d : ActionDecision}
    → (verify_action py w t i max_attempts attempts).0 ≡ ok d
    → terminal_verification d.status ≡ true
unfolding verify_action Ended
verify_action-ends py w t i max_attempts attempts e =
    OkAll-ok (λ d. terminal_verification d.status ≡ true)
      (ends (Result-cases (owned_action w.actions i t))) e
  where
    ends :
        ((action : StoredAction) × (owned_action w.actions i t ≡ ok action))
          ⊎ ((x : Error) × (owned_action w.actions i t ≡ err x))
        → Ended (verify_action py w t i max_attempts attempts).0
    ends (inr (x, h)) = rw (h, verify_action) tt
    ends (inl (action, h)) =
        rw (h, verify_action)
          (verify_loop-Ended py t i (remove_prefix "order:" action.proposal.target_entity) w
            attempts (rounds_after_first max_attempts))
