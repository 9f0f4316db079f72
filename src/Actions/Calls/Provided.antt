-- ===== src/Actions/Calls/Provided.antt =====
-- When `execute` of src/reality_layer/actions/service.py calls its provider.
use agents_reality_layer.Prelude.{
  string_eq, pair_eq, String, Option, none, ◌≡◌, refl, ◌!=◌, ==_iff, arith, inl, inr, Bool-cases,
  Option-cases,
}
use agents_reality_layer.Prelude.Text.{remove_prefix}
use agents_reality_layer.Dict
use agents_reality_layer.Json.{Platform}
use agents_reality_layer.Errors.{Result, ok, err, Result-cases}
use agents_reality_layer.WorldState.Models.{OrderState}
use agents_reality_layer.Actions.Models.{
  ExecutionReceipt, approved, cancel_order, status_eq, action_type_eq,
}
use agents_reality_layer.Actions.Service.{StoredAction, ActionService, owned_action}
use agents_reality_layer.Actions.Service.Execute.{execute, run_provider, ineligible}
use agents_reality_layer.Actions.Calls.{Provider}

-- an action of the tenant that may be executed
pub record Executable (s : ActionService) (i t : String) (state : Option OrderState)
    (action : StoredAction) : Type 0 where
  pub owned : owned_action s i t ≡ ok action
  pub is_approved : action.decision.status ≡ approved
  pub cancels : action.proposal.action_type ≡ cancel_order
  pub eligible : ineligible state ≡ none

-- The world after `execute`: the one of before, or the one that the provider makes of it.
pub data Provided {W : Type 0} (s : ActionService) (i t : String) (provider : Provider W)
    (state : Option OrderState) (world : W) : W → Type 0 where
  untouched : Provided s i t provider state world world
  called :
      (action : StoredAction)
      → Executable s i t state action
      → Provided s i t provider state world
          (provider i
            (remove_prefix "order:" action.proposal.target_entity)
            action.proposal.idempotency_key
            world).1

module _ {W : Type 0} (py : Platform) (s : ActionService) (i t : String) (provider : Provider W)
    (state : Option OrderState) (hex : String) (world : W) where
  world-run_provider :
      (action : StoredAction) (answer : Result ExecutionReceipt × W)
      → (run_provider py s i action t answer hex).2 ≡ answer.1
  unfolding run_provider
  world-run_provider action (err e, w) = refl
  world-run_provider action (ok receipt, w) = refl

  pub execute-Provided :
      Provided s i t provider state world (execute py s i t provider state hex world).2
  unfolding execute
  execute-Provided = elim (Result-cases (owned_action s i t)) [
    | inr (e, h) ↦ rw (h, execute) untouched
    | inl (a, h) ↦
        rw (h, execute)
          (elim (Option-cases (Dict.get s.executions (t, a.proposal.idempotency_key))) [
            | inr (x, g) ↦ rw g untouched
            | inl g ↦ rw g (elim (Bool-cases (a.decision.status != approved)) [
              | inl n ↦ rw n untouched
              | inr n ↦ rw n (elim (Bool-cases (a.proposal.action_type != cancel_order)) [
                | inl m ↦ rw m untouched
                | inr m ↦ rw m (elim (Option-cases (ineligible state)) [
                  | inr (x, u) ↦ rw u untouched
                  | inl u ↦
                      rw (u, world-run_provider)
                        (called a (record {
                          owned = h;
                          is_approved = (==_iff a.decision.status approved).0 (ground arith);
                          cancels = (==_iff a.proposal.action_type cancel_order).0 (ground arith);
                          eligible = u;
                        }))
                ])
              ])
            ])
          ])
  ]
