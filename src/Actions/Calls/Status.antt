-- ===== src/Actions/Calls/Status.antt =====
-- The lifecycle of an action: what a call, and a run of calls, does to its status.
use agents_reality_layer.Prelude.{
  string_eq, String, Bool, true, false, Option, some, List, [], ◌∷◌, ◌≡◌, refl, sym, subst, ap, ◌∙◌,
  ◌==◌, ==_iff, inl, inr, Bool-cases, arith,
}
use agents_reality_layer.Dict
use agents_reality_layer.Json.{Platform}
use agents_reality_layer.Errors.{ok}
use agents_reality_layer.Actions.Models.{
  ActionStatus, rejected, denied, precondition_failed, verified, verification_failed,
  state_diverged, provider_accepted,
}
use agents_reality_layer.Actions.Service.{
  StoredAction, ActionService, owned_action, append_event, set_status,
}
use agents_reality_layer.Actions.Calls.{
  Call, System, Provider, step, run, IsFresh, Turn, Edge, turn, Effect, same, moved, accepted,
  noted, created,
}
use agents_reality_layer.Actions.Calls.Effects.{step-Effect}
use agents_reality_layer.Actions.Calls.Owned.{
  owned_action_found, with_status, get-set_status, get-propose_new_ne,
}

-- What a call may make of a stored action: nothing, or one move along an edge that keeps all but
-- the status and the reason.
pub data Moved (a : StoredAction) : StoredAction → Type 0 where
  kept : Moved a a
  went :
      (status : ActionStatus) (reason : String)
      → Edge a.decision.status status
      → Moved a (with_status a status reason)

abbrev pub StoredMoved : StoredAction → Option StoredAction → Type 0
StoredMoved a found = (b : StoredAction) × (found ≡ some b) × Moved a b

-- one written status
write-Moved :
    (s : ActionService) (i tenant_id j : String) (action : StoredAction) (status : ActionStatus)
    (reason : String) {a : StoredAction}
    → owned_action s i tenant_id ≡ ok action
    → Edge action.decision.status status
    → Dict.get s.actions j ≡ some a
    → StoredMoved a (Dict.get (set_status s i action status reason).actions j)
write-Moved s i tenant_id j action status reason {a} h e g =
    rw get-set_status (elim (Bool-cases (i == j)) [
      | inr n ↦ rw n (a, g, kept)
      | inl y ↦ rw y (
          let same_action : a ≡ action =
            ground (arith, owned_action_found s i tenant_id h, ==_iff i j) in
          (
            with_status action status reason,
            refl,
            subst (λ x. Moved x (with_status action status reason)) (sym same_action)
                (went status reason e),
          ))
    ])

Effect-Moved :
    {py : Platform} {s : ActionService} {t hex : String} {s' : ActionService} {a : StoredAction}
    (j : String)
    → Effect py s t hex s'
    → Dict.get s.actions j ≡ some a
    → StoredMoved a (Dict.get s'.actions j)
unfolding append_event
Effect-Moved {a = a} j same g = (a, g, kept)
Effect-Moved {s = s} {t} j (moved i action status reason _ _ _ h e _) g =
    write-Moved s i t j action status reason h (turn e) g
Effect-Moved {s = s} {t} j (accepted i action receipt h e _) g =
    write-Moved s i t j action provider_accepted "Provider accepted write." h
      (subst (λ x. Edge x provider_accepted) (sym e) Edge.accept) g
Effect-Moved {a = a} j (noted i action _ h e) g = (a, g, kept)
Effect-Moved {py} {s = s} {t} {a = a} j (created proposal role context fresh new _ _) g =
    (a, get-propose_new_ne py s proposal role t context fresh j new g, kept)

-- The statuses that no call leaves.
abbrev pub final : ActionStatus → Bool
final rejected = true
final denied = true
final precondition_failed = true
final verified = true
final verification_failed = true
final state_diverged = true
final _ = false

no-Turn_from_final : {a b : ActionStatus} → final a ≡ true → Turn a b → ⊥
no-Turn_from_final f Turn.approve = cc
no-Turn_from_final f Turn.deny = cc
no-Turn_from_final f Turn.fail_precondition = cc
no-Turn_from_final f Turn.reject = cc
no-Turn_from_final {a} f (Turn.confirm v) = ground arith
no-Turn_from_final {a} f (Turn.postpone v) = ground arith
no-Turn_from_final {a} f (Turn.time_out v) = ground arith
no-Turn_from_final {a} f (Turn.diverge v) = ground arith

no-Edge_from_final : {a b : ActionStatus} → final a ≡ true → Edge a b → ⊥
no-Edge_from_final f (turn e) = no-Turn_from_final f e
no-Edge_from_final f Edge.accept = cc

Moved-final : {a b : StoredAction} → final a.decision.status ≡ true → Moved a b → a ≡ b
Moved-final f kept = refl
Moved-final f (went status reason e) = absurd (no-Edge_from_final f e)

module _ {W : Type 0} (py : Platform) (provider : Provider W) where
  -- Whatever call is made, from any state: an action that is stored stays stored, with its proposal,
  -- its tenant and the rest of its record, and its status either stays or moves along one edge of
  -- the lifecycle. The id that `uuid4` gives to a new action is assumed not to be in use.
  pub step-Moved :
      (t : System W) (c : Call) (j : String) {a : StoredAction}
      → IsFresh t.service c
      → Dict.get t.service.actions j ≡ some a
      → StoredMoved a (Dict.get (step py provider t c).service.actions j)
  step-Moved t c j new g = Effect-Moved j (step-Effect py t.service provider t.world c new) g

  -- every call of a run meets a fresh id
  abbrev pub AllFresh : System W → List Call → Type 0
  AllFresh t [] = Unit
  AllFresh t (c ∷ calls) = IsFresh t.service c × AllFresh (step py provider t c) calls

  -- An action with a final status is never changed again, by any run of calls: its whole record
  -- stays.
  pub run-final :
      (t : System W) (calls : List Call) (j : String) {a : StoredAction}
      → AllFresh t calls
      → Dict.get t.service.actions j ≡ some a
      → final a.decision.status ≡ true
      → Dict.get (run py provider t calls).service.actions j ≡ some a
  unfolding run
  run-final t [] j new g f = g
  run-final t (c ∷ calls) j new g f =
      let (b, g', m) = step-Moved t c j new.0 g in
      run-final (step py provider t c) calls j new.1 (g' ∙ ap some (sym (Moved-final f m))) f
