-- ===== src/Actions/Calls/Effects.antt =====
-- Every call has one of the effects.
use agents_reality_layer.Prelude.{
  string_eq, pair_eq, option_eq, String, Bool, true, false, not, Option, none, some, ◌≡◌, ◌!=◌,
  ==_iff, refl, sym, subst, of_dec, inl, inr, Bool-cases, Option-cases, arith,
}
use agents_reality_layer.Dict
use agents_reality_layer.Json.{Platform, str, py_eq, Value}
use agents_reality_layer.Errors.{Result, ok, err, Result-cases}
use agents_reality_layer.WorldState.Models.{OrderState}
use agents_reality_layer.Actions.Models.{
  ActionStatus, status_value, approval_required, approved, rejected, cancel_order, ActionProposal,
  ApprovalRequest, ActionStatus-discrete, status_eq, action_type_eq, ExecutionReceipt,
}
use agents_reality_layer.Actions.Policy.{Context}
use agents_reality_layer.Actions.Service.{
  StoredAction, ActionService, owned_action, check_preconditions, set_status,
}
use agents_reality_layer.Actions.Service.Lifecycle
use agents_reality_layer.Actions.Service.Lifecycle.{
  Fresh, transition, judge, verifiable, observed_status, present,
}
use agents_reality_layer.Actions.Service.Execute
use agents_reality_layer.Actions.Service.Execute.{ineligible, run_provider}
use agents_reality_layer.Actions.Service.Restore.{status_of_event}
use agents_reality_layer.Actions.Calls.{
  Call, propose, approve, reject, verify, execute, Provider, step, IsFresh, hex_of, tenant_of, Turn,
  Effect, same, moved, accepted, noted, created,
}

-- an edge from what the test has found
edge_from :
    {a b c : ActionStatus} → not (of_dec (ActionStatus-discrete a b)) ≡ false → Turn b c → Turn a c
edge_from {a} {b} {c} h e = subst (λ x. Turn x c) (sym ((==_iff a b).0 (ground arith))) e

module _ (py : Platform) (s : ActionService) where
  propose-Effect :
      (proposal : ActionProposal) (role tenant_id : String) (context : Context) (fresh : Fresh)
      → IsFresh s (propose proposal role tenant_id context fresh)
      → Effect py s tenant_id fresh.event_hex
          (Lifecycle.propose py s proposal role tenant_id context fresh).1
  unfolding Lifecycle.propose
  propose-Effect proposal role tenant_id context fresh new =
      elim (Option-cases (Dict.get s.idempotency (tenant_id, proposal.idempotency_key))) [
        | inl e ↦ rw (e, Lifecycle.propose) (created proposal role context fresh new e refl)
        | inr (id, e) ↦
            rw (e, Lifecycle.propose)
              (elim (Option-cases (Dict.get s.actions id)) [
                | inl n ↦ rw n same
                | inr (a, h) ↦ rw h same
              ])
      ]

  reject-Effect :
      (action_id : String) (rejection : ApprovalRequest) (tenant_id hex : String)
      → Effect py s tenant_id hex (Lifecycle.reject py s action_id rejection tenant_id hex).1
  unfolding Lifecycle.reject transition status_of_event
  reject-Effect action_id rejection tenant_id hex =
      elim (Result-cases (owned_action s action_id tenant_id)) [
        | inr (e, h) ↦ rw (h, Lifecycle.reject) same
        | inl (action, h) ↦
            rw (h, Lifecycle.reject)
              (elim (Bool-cases (action.decision.status != approval_required)) [
                | inl n ↦ rw n same
                | inr y ↦ rw y (
                    moved action_id action rejected rejection.reason _ _ _ h
                      (edge_from y Turn.reject) refl)
              ])
      ]

  approve-Effect :
      (action_id : String) (approval : ApprovalRequest) (role tenant_id : String)
      (state : Option OrderState) (hex : String)
      → Effect py s tenant_id hex
          (Lifecycle.approve py s action_id approval role tenant_id state hex).1
  unfolding Lifecycle.approve transition status_of_event
  approve-Effect action_id approval role tenant_id state hex =
      elim (Result-cases (owned_action s action_id tenant_id)) [
        | inr (e, h) ↦ rw (h, Lifecycle.approve) same
        | inl (action, h) ↦
            rw (h, Lifecycle.approve)
              (elim (Bool-cases (action.decision.status != approval_required)) [
                | inl n ↦ rw n same
                | inr y ↦ rw y (elim (Bool-cases (some role != action.decision.required_role)) [
                  | inl n ↦ rw n (moved _ action _ _ _ _ _ h (edge_from y Turn.deny) refl)
                  | inr r ↦ rw r (elim (Option-cases (check_preconditions action.proposal state)) [
                    | inl c ↦ rw c (moved _ action _ _ _ _ _ h (edge_from y Turn.approve) refl)
                    | inr (f, c) ↦
                        rw c (moved _ action _ _ _ _ _ h (edge_from y Turn.fail_precondition) refl)
                  ])
                ])
              ])
      ]

  -- the verdicts of a verification are edges from a status that may be verified
  judge-Turn :
      (observed : Value) (is_final : Bool) {a : ActionStatus}
      → verifiable a ≡ true
      → Turn a (judge py observed is_final).0
  unfolding judge
  judge-Turn observed is_final v = elim (Bool-cases (py_eq observed (str "cancelled"))) [
    | inl y ↦ rw (y, judge) (Turn.confirm v)
    | inr n ↦
        rw (n, judge)
          (elim (Bool-cases is_final) [
            | inr f ↦ rw f (Turn.postpone v)
            | inl f ↦ rw f (elim (Bool-cases (present observed)) [
              | inl p ↦ rw p (Turn.diverge v)
              | inr p ↦ rw p (Turn.time_out v)
            ])
          ])
  ]

  -- the event of a verdict is named after it
  judge_announced :
      (observed : Value) (is_final : Bool)
      → status_of_event (status_value (judge py observed is_final).0)
        ≡ some (judge py observed is_final).0
  unfolding judge status_of_event
  judge_announced observed is_final = elim (Bool-cases (py_eq observed (str "cancelled"))) [
    | inl y ↦ rw (y, judge) refl
    | inr n ↦
        rw (n, judge)
          (elim (Bool-cases is_final) [
            | inr f ↦ rw f refl
            | inl f ↦
                rw f
                  (elim (Bool-cases (present observed)) [ inl p ↦ rw p refl | inr p ↦ rw p refl ])
          ])
  ]

  verify-Effect :
      (action_id tenant_id : String) (state : Option OrderState) (is_final : Bool) (hex : String)
      → Effect py s tenant_id hex (Lifecycle.verify py s action_id tenant_id state is_final hex).1
  unfolding Lifecycle.verify
  verify-Effect action_id tenant_id state is_final hex =
      elim (Result-cases (owned_action s action_id tenant_id)) [
        | inr (e, h) ↦ rw (h, Lifecycle.verify) same
        | inl (action, h) ↦
            rw (h, Lifecycle.verify)
              (elim (Bool-cases (verifiable action.decision.status)) [
                | inr n ↦ rw n same
                | inl v ↦ rw v (
                    moved _ action _ _ _ _ _ h (judge-Turn (observed_status state) is_final v)
                      (judge_announced (observed_status state) is_final))
              ])
      ]

  module _ {W : Type 0} (provider : Provider W) (world : W) where
    run_provider-Effect :
        (action_id tenant_id : String) (action : StoredAction) (hex : String)
        → owned_action s action_id tenant_id ≡ ok action
        → action.decision.status ≡ approved
        → Dict.get s.executions (tenant_id, action.proposal.idempotency_key) ≡ none
        → (answer : Result ExecutionReceipt × W)
        → Effect py s tenant_id hex (run_provider py s action_id action tenant_id answer hex).1
    unfolding run_provider set_status
    run_provider-Effect action_id tenant_id action hex h a g (err e, w) = same
    run_provider-Effect action_id tenant_id action hex h a g (ok receipt, w) =
        accepted action_id action receipt h a g

    execute-Effect :
        (action_id tenant_id : String) (state : Option OrderState) (hex : String)
        → Effect py s tenant_id hex
            (Execute.execute py s action_id tenant_id provider state hex world).1
    unfolding Execute.execute
    execute-Effect action_id tenant_id state hex =
        elim (Result-cases (owned_action s action_id tenant_id)) [
          | inr (e, h) ↦ rw (h, Execute.execute) same
          | inl (action, h) ↦
              rw (h, Execute.execute)
                (elim (Option-cases
                  (Dict.get s.executions (tenant_id, action.proposal.idempotency_key))) [
                    | inr (r, g) ↦ rw g same
                    | inl g ↦ rw g (elim (Bool-cases (action.decision.status != approved)) [
                      | inl n ↦ rw n same
                      | inr y ↦
                          rw y (elim (Bool-cases (action.proposal.action_type != cancel_order)) [
                            | inl n ↦ rw n same
                            | inr t ↦ rw t (elim (Option-cases (ineligible state)) [
                              | inr (reason, i) ↦ rw i (
                                  noted action_id action _ h
                                    ((==_iff action.decision.status approved).0 (ground arith)))
                              | inl i ↦ rw i (
                                  run_provider-Effect action_id tenant_id action hex h
                                    ((==_iff action.decision.status approved).0 (ground arith)) g _)
                            ])
                          ])
                    ])
                  ])
        ]

  pub step-Effect :
      {W : Type 0} (provider : Provider W) (world : W) (c : Call)
      → IsFresh s c
      → Effect py s
          (tenant_of c)
          (hex_of c)
          (step py provider (record { service = s; world = world }) c).service
  unfolding step
  step-Effect provider world (propose proposal role tenant_id context fresh) new =
      propose-Effect proposal role tenant_id context fresh new
  step-Effect provider world (approve action_id approval role tenant_id state hex) new =
      approve-Effect action_id approval role tenant_id state hex
  step-Effect provider world (reject action_id rejection tenant_id hex) new =
      reject-Effect action_id rejection tenant_id hex
  step-Effect provider world (verify action_id tenant_id state is_final hex) new =
      verify-Effect action_id tenant_id state is_final hex
  step-Effect provider world (execute action_id tenant_id state hex) new =
      execute-Effect provider world action_id tenant_id state hex
