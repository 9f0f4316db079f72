-- ===== src/Worker/Verifier/Kept.antt =====
-- What `verify_action` of src/reality_layer/worker/verifier.py leaves of an action: its decision, and a final
-- status for good.
use agents_reality_layer.Prelude.{
  string_eq, ℕ, zero, suc, String, Bool, true, false, Option, some, [], ◌∷◌, ◌≡◌, refl, sym, subst,
  inl, inr, Bool-cases, if◌then◌else◌,
}
use agents_reality_layer.Prelude.Text.{remove_prefix}
use agents_reality_layer.Dict
use agents_reality_layer.Dict.Laws.{get-put_self}
use agents_reality_layer.Json.{Platform}
use agents_reality_layer.Errors.{Result, ok, err, raised, Result-cases, OkAll, OkAll-ok}
use agents_reality_layer.Actions.Models.{
  ActionStatus, verified, verification_failed, state_diverged, ActionDecision,
}
use agents_reality_layer.Actions.Service.{
  StoredAction, ActionService, owned_action, set_status, append_event,
}
use agents_reality_layer.Actions.Service.Lifecycle
use agents_reality_layer.Actions.Service.Lifecycle.{
  terminal_verification, verifiable, pending_verifications,
}
use agents_reality_layer.Actions.Calls
use agents_reality_layer.Actions.Calls.{Provider, step, run}
use agents_reality_layer.Actions.Calls.Status.{final, run-final}
use agents_reality_layer.WorldState.Models.{OrderState}
use agents_reality_layer.Worker.Verifier.{
  Attempt, Worker, ingest_verification_read, attempt_round, verify_loop, verify_action,
  rounds_after_first,
}
use agents_reality_layer.Worker.Verifier.Ends.{verify_action-ends}

-- An action whose status is final.
pub record HasEnded (s : ActionService) (i : String) : Type 0 where
  pub action : StoredAction
  pub stored : Dict.get s.actions i ≡ some action
  pub ended : final action.decision.status ≡ true

terminal-final : (x : ActionStatus) → terminal_verification x ≡ true → final x ≡ true
terminal-final verified h = refl
terminal-final verification_failed h = refl
terminal-final state_diverged h = refl
terminal-final _ h = cc

no_provider : Provider (Unit {0})
no_provider i order_id key w = (err (raised ""), w)

module _ (py : Platform) (j : String) where
  verify-HasEnded :
      (s : ActionService) (i t : String) (state : Option OrderState) (last : Bool) (hex : String)
      → HasEnded s j
      → HasEnded (Lifecycle.verify py s i t state last hex).1 j
  unfolding step run
  verify-HasEnded s i t state last hex h = record {
    action = h.action;
    stored =
        run-final py no_provider (record { service = s; world = tt })
          (Calls.verify i t state last hex ∷ []) j (tt, tt) h.stored h.ended;
    ended = h.ended;
  }

  attempt_round-HasEnded :
      (w : Worker) (t i order_id : String) (a : Attempt) (last : Bool)
      → HasEnded w.actions j
      → HasEnded (attempt_round py w t i order_id a last).1.actions j
  unfolding attempt_round
  attempt_round-HasEnded w t i order_id a last h =
      elim (Result-cases (ingest_verification_read py w.world_state t order_id a).0) [
        | inr (e, k) ↦ rw (k, attempt_round) h
        | inl (state, k) ↦
            rw (k, attempt_round) (verify-HasEnded w.actions i t (some state) last a.event_hex h)
      ]

  if-HasEnded :
      (b : Bool) (x y : Result ActionDecision × Worker)
      → HasEnded x.1.actions j
      → HasEnded y.1.actions j
      → HasEnded (if b then x else y).1.actions j
  if-HasEnded true x y h k = h
  if-HasEnded false x y h k = k

  verify_loop-HasEnded :
      (w : Worker) (t i order_id : String) (attempts : ℕ → Attempt) (later : ℕ)
      → HasEnded w.actions j
      → HasEnded (verify_loop py w t i order_id attempts later).1.actions j
  unfolding verify_loop
  verify_loop-HasEnded w t i order_id attempts zero h =
      attempt_round-HasEnded w t i order_id (attempts zero) true h
  verify_loop-HasEnded w t i order_id attempts (suc later) h =
      let a = attempts (suc later) in
      let r = attempt_round py w t i order_id a a.out_of_time in
      let kept = attempt_round-HasEnded w t i order_id a a.out_of_time h in
      elim (Result-cases r.0) [
        | inr (e, k) ↦ rw (k, verify_loop) kept
        | inl (d, k) ↦
            rw (k, verify_loop)
              (if-HasEnded (terminal_verification d.status) (ok d, r.1) _ kept
                (if-HasEnded a.out_of_time (ok d, r.1)
                  (verify_loop py r.1 t i order_id attempts later) kept
                  (verify_loop-HasEnded r.1 t i order_id attempts later kept)))
      ]

  pub verify_action-HasEnded :
      (w : Worker) (t i : String) (max_attempts : ℕ) (attempts : ℕ → Attempt)
      → HasEnded w.actions j
      → HasEnded (verify_action py w t i max_attempts attempts).1.actions j
  unfolding verify_action
  verify_action-HasEnded w t i max_attempts attempts h =
      elim (Result-cases (owned_action w.actions i t)) [
        | inr (e, k) ↦ rw (k, verify_action) h
        | inl (action, k) ↦
            rw (k, verify_action)
              (verify_loop-HasEnded w t i (remove_prefix "order:" action.proposal.target_entity)
                attempts (rounds_after_first max_attempts) h)
      ]

-- the decision that is answered is the stored one
Kept : String → Result ActionDecision × Worker → Type 0
Kept i r =
    OkAll (λ d. (a : StoredAction) × (Dict.get r.1.actions.actions i ≡ some a) × (a.decision ≡ d))
      r.0

module _ (py : Platform) (i t : String) where
  attempt_round-Kept :
      (w : Worker) (order_id : String) (a : Attempt) (last : Bool)
      → Kept i (attempt_round py w t i order_id a last)
  unfolding attempt_round Lifecycle.verify Kept append_event set_status
  attempt_round-Kept w order_id a last =
      elim (Result-cases (ingest_verification_read py w.world_state t order_id a).0) [
        | inr (e, k) ↦ rw (k, attempt_round) tt
        | inl (state, k) ↦ elim (Result-cases (owned_action w.actions i t)) [
          | inr (e, h) ↦ rw (k, attempt_round) (rw (h, Lifecycle.verify) tt)
          | inl (action, h) ↦ elim (Bool-cases (verifiable action.decision.status)) [
            | inr v ↦ rw (k, attempt_round) (rw (h, v, Lifecycle.verify) tt)
            | inl v ↦
                rw (k, attempt_round)
                  (rw (h, v, Lifecycle.verify) (_, get-put_self w.actions.actions i _, refl))
          ]
        ]
      ]

  if-Kept :
      (b : Bool) (x y : Result ActionDecision × Worker)
      → Kept i x
      → Kept i y
      → Kept i (if b then x else y)
  if-Kept true x y h k = h
  if-Kept false x y h k = k

  verify_loop-Kept :
      (w : Worker) (order_id : String) (attempts : ℕ → Attempt) (later : ℕ)
      → Kept i (verify_loop py w t i order_id attempts later)
  unfolding verify_loop Kept
  verify_loop-Kept w order_id attempts zero = attempt_round-Kept w order_id (attempts zero) true
  verify_loop-Kept w order_id attempts (suc later) =
      let a = attempts (suc later) in
      let r = attempt_round py w t i order_id a a.out_of_time in
      let kept = attempt_round-Kept w order_id a a.out_of_time in
      elim (Result-cases r.0) [
        | inr (e, k) ↦ rw (k, verify_loop) tt
        | inl (d, k) ↦
            let held : Kept i (ok d, r.1) = subst (λ x. Kept i (x, r.1)) k kept in
            rw (k, verify_loop)
              (if-Kept (terminal_verification d.status) (ok d, r.1) _ held
                (if-Kept a.out_of_time (ok d, r.1) (verify_loop py r.1 t i order_id attempts later)
                  held (verify_loop-Kept r.1 order_id attempts later)))
      ]

  verify_action-Kept :
      (w : Worker) (max_attempts : ℕ) (attempts : ℕ → Attempt)
      → Kept i (verify_action py w t i max_attempts attempts)
  unfolding verify_action Kept
  verify_action-Kept w max_attempts attempts = elim (Result-cases (owned_action w.actions i t)) [
    | inr (e, k) ↦ rw (k, verify_action) tt
    | inl (action, k) ↦
        rw (k, verify_action)
          (verify_loop-Kept w (remove_prefix "order:" action.proposal.target_entity) attempts
            (rounds_after_first max_attempts))
  ]

  -- an action that `verify_action` answers for has ended
  pub verify_action_ends_it :
      (w : Worker) (max_attempts : ℕ) (attempts : ℕ → Attempt) {d : ActionDecision}
      → (verify_action py w t i max_attempts attempts).0 ≡ ok d
      → HasEnded (verify_action py w t i max_attempts attempts).1.actions i
  unfolding Kept
  verify_action_ends_it w max_attempts attempts {d} h =
      let (a, stored, same) = OkAll-ok _ (verify_action-Kept w max_attempts attempts) h in
      record {
        action = a;
        stored = stored;
        ended =
            subst (λ x. final x.status ≡ true) (sym same)
              (terminal-final d.status (verify_action-ends py w t i max_attempts attempts h));
      }
