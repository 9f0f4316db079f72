-- ===== src/Actions/Calls/Receipts.antt =====
-- Receipts: what the service keeps of a write, after any further calls.
use agents_reality_layer.Prelude.{
  string_eq, pair_eq, String, Option, none, some, List, [], ◌∷◌, ◌≡◌, refl, sym, subst, ◌∙◌, ◌==◌,
  ==_iff, inl, inr, Bool-cases, arith,
}
use agents_reality_layer.Dict
use agents_reality_layer.Dict.Laws.{get-put}
use agents_reality_layer.Json.{Platform}
use agents_reality_layer.Errors.{ok}
use agents_reality_layer.WorldState.Models.{OrderState}
use agents_reality_layer.Actions.Models.{ExecutionReceipt}
use agents_reality_layer.Actions.Service.{
  StoredAction, ActionService, owned_action, append_event, set_status,
}
use agents_reality_layer.Actions.Service.Lifecycle.{propose_new}
use agents_reality_layer.Actions.Service.Execute.{execute}
use agents_reality_layer.Actions.Calls.{
  Call, System, Provider, step, run, Effect, same, moved, accepted, noted, created,
}
use agents_reality_layer.Actions.Calls.Effects.{step-Effect}
use agents_reality_layer.Actions.Calls.Owned.{owned_action_found, owned_action_intro}
use agents_reality_layer.Actions.Calls.Status.{Moved, kept, went, step-Moved, AllFresh}
use agents_reality_layer.Actions.Calls.Once.{execute_known, execute_keeps}

-- a receipt is never replaced
Effect-receipt :
    {py : Platform} {s : ActionService} {t hex : String} {s' : ActionService} {r : ExecutionReceipt}
    (k : String × String)
    → Effect py s t hex s'
    → Dict.get s.executions k ≡ some r
    → Dict.get s'.executions k ≡ some r
unfolding append_event set_status propose_new
Effect-receipt k same g = g
Effect-receipt k (moved j action status reason event_type role payload h e _) g = g
Effect-receipt {s = s} {t} k (accepted j action receipt h e n) g =
    elim (Bool-cases ((t, action.proposal.idempotency_key) == k)) [
      | inr m ↦ get-put s.executions (t, action.proposal.idempotency_key) k receipt ∙ rw m g
      | inl y ↦ absurd (
          let eq : (t, action.proposal.idempotency_key) ≡ k =
            (==_iff (t, action.proposal.idempotency_key) k).0 y in
          ground (arith, subst (λ x. Dict.get s.executions x ≡ none) eq n))
    ]
Effect-receipt k (noted j action payload h e) g = g
Effect-receipt k (created proposal role context fresh new _ _) g = g

-- The action is there, and its receipt is kept.
abbrev Held : ActionService → String → String → ExecutionReceipt → Type 0
Held s i t r =
    (a : StoredAction) × (owned_action s i t ≡ ok a)
    × (Dict.get s.executions (t, a.proposal.idempotency_key) ≡ some r)

-- a move keeps the tenant and the key
owned-Moved :
    (s s' : ActionService) (i t : String) {a b : StoredAction}
    → owned_action s i t ≡ ok a
    → Dict.get s'.actions i ≡ some b
    → Moved a b
    → (owned_action s' i t ≡ ok b) × (b.proposal.idempotency_key ≡ a.proposal.idempotency_key)
owned-Moved s s' i t h g kept = (owned_action_intro s' i t g (owned_action_found s i t h).1, refl)
owned-Moved s s' i t h g (went status reason e) =
    (owned_action_intro s' i t g (owned_action_found s i t h).1, refl)

module _ {W : Type 0} (py : Platform) (provider : Provider W) where
  -- the receipt of an action and the action itself outlive any run of calls
  run-Held :
      (y : System W) (calls : List Call) (i t : String) (r : ExecutionReceipt)
      → AllFresh py provider y calls
      → Held y.service i t r
      → Held (run py provider y calls).service i t r
  unfolding run
  run-Held y [] i t r new h = h
  run-Held y (c ∷ calls) i t r new (a, h, g) =
      let (b, found, m) =
        step-Moved py provider y c i new.0 (owned_action_found y.service i t h).0 in
      let (owned, key) = owned-Moved y.service (step py provider y c).service i t h found m in
      run-Held (step py provider y c) calls i t r new.1 (
        b,
        owned,
        Effect-receipt (t, b.proposal.idempotency_key)
            (step-Effect py y.service provider y.world c new.0)
            (subst (λ u. Dict.get y.service.executions (t, u) ≡ some r) (sym key) g),
      )

  -- Once `execute` has answered with a receipt, any further calls may follow, of any kind and of
  -- any tenant, whose new actions get fresh ids: an `execute` of the action after them answers with
  -- that receipt and changes neither the service nor the world, so it does not call the provider,
  -- whichever provider and state it is given.
  pub execute_once :
      (y : System W) (i t : String) (state state' : Option OrderState) (hex hex' : String)
      (provider' : Provider W) (calls : List Call) (r : ExecutionReceipt)
      → (execute py y.service i t provider state hex y.world).0 ≡ ok r
      → let y' = step py provider y (Call.execute i t state hex) in
        AllFresh py provider y' calls
        → execute py
            (run py provider y' calls).service
            i
            t
            provider'
            state'
            hex'
            (run py provider y' calls).world
          ≡ (ok r, (run py provider y' calls).service, (run py provider y' calls).world)
  unfolding step
  execute_once y i t state state' hex hex' provider' calls r h new =
      let y' = step py provider y (Call.execute i t state hex) in
      let (b, owned, held) =
        run-Held y' calls i t r new
          (execute_keeps py y.service i t provider state hex y.world r h) in
      execute_known py (run py provider y' calls).service i t provider' state' hex'
        (run py provider y' calls).world b r owned held
