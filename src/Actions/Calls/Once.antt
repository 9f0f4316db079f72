-- ===== src/Actions/Calls/Once.antt =====
-- Idempotency: a proposal is made once for its key, and an answer of `execute` keeps its receipt.
use Prim.Native.String.{◌++◌ as append}
use agents_reality_layer.Prelude.{
  string_eq, pair_eq, String, Option, none, some, ◌≡◌, refl, sym, subst, ap, ◌∙◌, ◌!=◌, beq_refl,
  inl, inr, Bool-cases, Option-cases, arith,
}
use agents_reality_layer.Dict
use agents_reality_layer.Dict.Laws.{get-put_self}
use agents_reality_layer.Json.{Platform}
use agents_reality_layer.Errors.{Result, ok, err, Result-cases}
use agents_reality_layer.WorldState.Models.{OrderState}
use agents_reality_layer.Actions.Models.{
  ActionProposal, ActionDecision, ExecutionReceipt, approved, cancel_order, status_eq,
  action_type_eq, provider_accepted,
}
use agents_reality_layer.Actions.Policy.{Context}
use agents_reality_layer.Actions.Service.{
  StoredAction, ActionService, owned_action, append_event, set_status,
}
use agents_reality_layer.Actions.Service.Lifecycle.{Fresh, propose_new, propose}
use agents_reality_layer.Actions.Service.Execute.{execute, run_provider, ineligible}
use agents_reality_layer.Actions.Calls.{Provider}
use agents_reality_layer.Actions.Calls.Owned.{
  owned_action_found, owned_action_intro, with_status, new_action, get-propose_new,
}
use agents_reality_layer.Actions.Calls.Keys.{IsConsistent}

module _ (py : Platform) (s : ActionService) (p : ActionProposal) (role tenant_id : String)
    (context : Context) (fresh : Fresh) where
  propose_known :
      (i : String) (a : StoredAction)
      → Dict.get s.idempotency (tenant_id, p.idempotency_key) ≡ some i
      → Dict.get s.actions i ≡ some a
      → propose py s p role tenant_id context fresh ≡ (ok a.decision, s)
  unfolding propose
  propose_known i a k g = rw (k, propose) (rw g refl)

  propose_unknown :
      Dict.get s.idempotency (tenant_id, p.idempotency_key) ≡ none
      → propose py s p role tenant_id context fresh
        ≡ propose_new py s p role tenant_id context fresh
  unfolding propose
  propose_unknown n = rw (n, propose) refl

  answer-propose_new :
      (propose_new py s p role tenant_id context fresh).0
      ≡ ok (new_action py p role tenant_id context fresh).decision
  unfolding propose_new
  answer-propose_new = refl

  key-propose_new :
      Dict.get
        (propose_new py s p role tenant_id context fresh).1.idempotency
        (tenant_id, p.idempotency_key)
      ≡ some (append "act_" fresh.action_hex)
  unfolding propose_new append_event
  key-propose_new =
      get-put_self s.idempotency (tenant_id, p.idempotency_key) (append "act_" fresh.action_hex)

  action-propose_new :
      Dict.get
        (propose_new py s p role tenant_id context fresh).1.actions
        (append "act_" fresh.action_hex)
      ≡ some (new_action py p role tenant_id context fresh)
  action-propose_new =
      get-propose_new py s p role tenant_id context fresh (append "act_" fresh.action_hex)
      ∙ (rw (beq_refl (append "act_" fresh.action_hex)) refl)

  -- In a consistent service `propose` always answers with a decision: its lookups do not fail.
  pub propose_answers :
      IsConsistent s
      → (d : ActionDecision) × ((propose py s p role tenant_id context fresh).0 ≡ ok d)
  propose_answers c = elim (Option-cases (Dict.get s.idempotency (tenant_id, p.idempotency_key))) [
    | inr (i, k) ↦
        let (a, g, _) = c.keyed (tenant_id, p.idempotency_key) i k in
        (a.decision, rw (propose_known i a k g))
    | inl n ↦ (
      (new_action py p role tenant_id context fresh).decision,
      rw (propose_unknown n) (answer-propose_new),
    )
  ]

module _ (py : Platform) (s : ActionService) (tenant_id role role' : String)
    (context context' : Context) (fresh fresh' : Fresh) (p q : ActionProposal) where
  -- In a consistent service, a second proposal of the tenant under the same key, whatever else it
  -- asks for and whether or not the first found the key in use, has the answer of the first and
  -- changes nothing.
  pub propose_twice :
      IsConsistent s
      → p.idempotency_key ≡ q.idempotency_key
      → propose py (propose py s p role tenant_id context fresh).1 q role' tenant_id context' fresh'
        ≡ propose py s p role tenant_id context fresh
  propose_twice c e = elim (Option-cases (Dict.get s.idempotency (tenant_id, p.idempotency_key))) [
    | inr (i, k) ↦
        let (a, g, _) = c.keyed (tenant_id, p.idempotency_key) i k in
        rw (propose_known py s p role tenant_id context fresh i a k g) (
          propose_known py s q role' tenant_id context' fresh' i a
            (subst (λ u. Dict.get s.idempotency (tenant_id, u) ≡ some i) e k) g)
    | inl n ↦ rw (propose_unknown py s p role tenant_id context fresh n) (
        propose_known py (propose_new py s p role tenant_id context fresh).1 q role' tenant_id
          context' fresh' (append "act_" fresh.action_hex)
          (new_action py p role tenant_id context fresh)
          (subst
            (λ u.
              Dict.get (propose_new py s p role tenant_id context fresh).1.idempotency
                (tenant_id, u)
              ≡ some (append "act_" fresh.action_hex))
            e (key-propose_new py s p role tenant_id context fresh))
          (action-propose_new py s p role tenant_id context fresh)
        ∙ ap (λ r. (r, (propose_new py s p role tenant_id context fresh).1))
            (sym (answer-propose_new py s p role tenant_id context fresh)))
  ]

module _ {W : Type 0} (py : Platform) (s : ActionService) (i t : String) where
  -- a receipt that is held is the answer, and the provider is not called
  pub execute_known :
      (provider : Provider W) (state : Option OrderState) (hex : String) (world : W)
      (a : StoredAction) (r : ExecutionReceipt)
      → owned_action s i t ≡ ok a
      → Dict.get s.executions (t, a.proposal.idempotency_key) ≡ some r
      → execute py s i t provider state hex world ≡ (ok r, s, world)
  unfolding execute
  execute_known provider state hex world a r h g = rw (h, execute) (rw g refl)

-- the state after a write of the provider holds the receipt
run_provider_known :
    {W : Type 0} (py : Platform) (s : ActionService) (i t : String) (a : StoredAction)
    (hex : String) (answer : Result ExecutionReceipt × W) (r : ExecutionReceipt)
    → owned_action s i t ≡ ok a
    → (run_provider py s i a t answer hex).0 ≡ ok r
    → (b : StoredAction) × (owned_action (run_provider py s i a t answer hex).1 i t ≡ ok b)
      × (Dict.get (run_provider py s i a t answer hex).1.executions (t, b.proposal.idempotency_key)
          ≡ some r)
unfolding run_provider append_event set_status
run_provider_known py s i t a hex (err e, w) r h k = cc
run_provider_known py s i t a hex (ok receipt, w) r h k = (
  with_status a provider_accepted "Provider accepted write.",
  owned_action_intro _ i t
      (get-put_self s.actions i (with_status a provider_accepted "Provider accepted write."))
      (owned_action_found s i t h).1,
  get-put_self s.executions (t, a.proposal.idempotency_key) receipt ∙ ground arith,
)

module _ {W : Type 0} (py : Platform) (s : ActionService) (i t : String) (provider : Provider W)
    (state : Option OrderState) (hex : String) (world : W) where
  -- What an answer of `execute` leaves: the action is still there, and its receipt is kept.
  abbrev Kept : ActionService → ExecutionReceipt → Type 0
  Kept s' r =
      (b : StoredAction) × (owned_action s' i t ≡ ok b)
      × (Dict.get s'.executions (t, b.proposal.idempotency_key) ≡ some r)

  pub execute_keeps :
      (r : ExecutionReceipt)
      → (execute py s i t provider state hex world).0 ≡ ok r
      → Kept (execute py s i t provider state hex world).1 r
  unfolding execute
  execute_keeps r = elim (Result-cases (owned_action s i t)) [
    | inr (e, h) ↦ rw (h, execute) (λ k. cc)
    | inl (a, h) ↦
        rw (h, execute)
          (elim (Option-cases (Dict.get s.executions (t, a.proposal.idempotency_key))) [
            | inr (x, g) ↦ rw g (λ k. (a, h, g ∙ ground arith))
            | inl g ↦ rw g (elim (Bool-cases (a.decision.status != approved)) [
              | inl n ↦ rw n (λ k. cc)
              | inr n ↦ rw n (elim (Bool-cases (a.proposal.action_type != cancel_order)) [
                | inl m ↦ rw m (λ k. cc)
                | inr m ↦ rw m (elim (Option-cases (ineligible state)) [
                  | inr (x, u) ↦ rw u (λ k. cc)
                  | inl u ↦ rw u (λ k. run_provider_known py s i t a hex _ r h k)
                ])
              ])
            ])
          ])
  ]
