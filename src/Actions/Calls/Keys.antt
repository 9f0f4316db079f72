-- ===== src/Actions/Calls/Keys.antt =====
-- Idempotency keys: a key leads to its action, and an action has a receipt exactly when its status
-- says that the provider has accepted it.
pub mod Run
use Prim.Native.String.{◌++◌ as append}
use agents_reality_layer.Prelude.{
  string_eq, pair_eq, String, Bool, true, false, Option, none, some, List, [], ◌∷◌, ◌≡◌, ◌≢◌, refl,
  sym, subst, ap, ◌∙◌, ◌==◌, ==_iff, inl, inr, ◌⊎◌, Bool-cases, Option-cases, arith, if◌then◌else◌,
  is_some,
}
use agents_reality_layer.Dict
use agents_reality_layer.Dict.Laws.{get-put, get-put_self}
use agents_reality_layer.Json.{Platform}
use agents_reality_layer.Errors.{Result, ok}
use agents_reality_layer.Actions.Models.{
  ActionStatus, provider_accepted, verification_pending, verified, verification_failed,
  state_diverged, ActionProposal, ActionDecision, approved, denied, approval_required,
  ExecutionReceipt,
}
use agents_reality_layer.Actions.Policy.{Context, evaluate_policy}
use agents_reality_layer.Actions.Service.{
  StoredAction, ActionService, init, owned_action, append_event, set_status,
}
use agents_reality_layer.Actions.Service.Lifecycle
use agents_reality_layer.Actions.Service.Lifecycle.{Fresh, propose_new, verifiable}
use agents_reality_layer.Actions.Calls.{
  Call, System, Provider, step, run, Turn, Effect, same, moved, accepted, noted, created,
}
use agents_reality_layer.Actions.Calls.Effects.{step-Effect}
use agents_reality_layer.Actions.Calls.Owned.{
  owned_action_found, with_status, get-set_status, new_action, get-propose_new, get-propose_new_ne,
}
use agents_reality_layer.Actions.Calls.Status.{AllFresh}

-- the statuses after the provider's acceptance
abbrev pub was_accepted : ActionStatus → Bool
was_accepted provider_accepted = true
was_accepted verification_pending = true
was_accepted verified = true
was_accepted verification_failed = true
was_accepted state_diverged = true
was_accepted _ = false

abbrev pub key_of : StoredAction → String × String
key_of a = (a.tenant_id, a.proposal.idempotency_key)

pub record IsConsistent (s : ActionService) : Type 0 where
  -- a key leads to an action that carries it
  pub keyed :
      (k : String × String) (i : String)
      → Dict.get s.idempotency k ≡ some i
      → (a : StoredAction) × (Dict.get s.actions i ≡ some a) × (key_of a ≡ k)
  -- every action is the one that its key leads to
  pub registered :
      (i : String) (a : StoredAction)
      → Dict.get s.actions i ≡ some a
      → Dict.get s.idempotency (key_of a) ≡ some i
  -- a receipt is held exactly for an accepted action
  pub received :
      (i : String) (a : StoredAction)
      → Dict.get s.actions i ≡ some a
      → is_some (Dict.get s.executions (key_of a)) ≡ was_accepted a.decision.status
  -- a receipt belongs to a key that is in use
  pub receipted :
      (k : String × String)
      → is_some (Dict.get s.executions k) ≡ true
      → is_some (Dict.get s.idempotency k) ≡ true

pub turn-was_accepted : {a b : ActionStatus} → Turn a b → was_accepted a ≡ was_accepted b
turn-was_accepted Turn.approve = refl
turn-was_accepted Turn.deny = refl
turn-was_accepted Turn.fail_precondition = refl
turn-was_accepted Turn.reject = refl
turn-was_accepted {a} (Turn.confirm v) = ground arith
turn-was_accepted {a} (Turn.postpone v) = ground arith
turn-was_accepted {a} (Turn.time_out v) = ground arith
turn-was_accepted {a} (Turn.diverge v) = ground arith

-- One written status keeps the invariant, if it says of the provider what the status before said.
module _ (s : ActionService) (i tenant_id : String) (action : StoredAction) (status : ActionStatus)
    (reason : String) (h : owned_action s i tenant_id ≡ ok action) where
  -- the action that stood where one is found after the write
  before_write :
      (j : String) (a : StoredAction)
      → Dict.get (set_status s i action status reason).actions j ≡ some a
      → (i ≡ j) × (a ≡ with_status action status reason)
        ⊎ ((i ≢ j) × (Dict.get s.actions j ≡ some a))
  before_write j a e = elim (Bool-cases (i == j)) [
    | inr n ↦
        inr (
          λ p. ground (arith, ==_iff i j),
          ground (arith, get-set_status s i action status reason j),
        )
    | inl y ↦ inl ((==_iff i j).0 y, ground (arith, get-set_status s i action status reason j))
  ]

  -- what a key leads to after the write
  after_write :
      (j : String) (k : String × String)
      → ((a : StoredAction) × (Dict.get s.actions j ≡ some a) × (key_of a ≡ k))
      → (a : StoredAction) × (Dict.get (set_status s i action status reason).actions j ≡ some a)
        × (key_of a ≡ k)
  after_write j k (a, g, e) = elim (Bool-cases (i == j)) [
    | inr n ↦ (a, ground (arith, get-set_status s i action status reason j), e)
    | inl y ↦ (
      with_status action status reason,
      ground (arith, get-set_status s i action status reason j),
      ground (arith, owned_action_found s i tenant_id h, ==_iff i j),
    )
  ]

  registered_write :
      IsConsistent s
      → (j : String) (a : StoredAction)
      → Dict.get (set_status s i action status reason).actions j ≡ some a
      → Dict.get s.idempotency (key_of a) ≡ some j
  registered_write c j a e = elim (before_write j a e) [
    | inr (_, g) ↦ c.registered j a g
    | inl (p, q) ↦
        subst (λ x. Dict.get s.idempotency (key_of x) ≡ some j) (sym q)
          (c.registered i action (owned_action_found s i tenant_id h).0 ∙ ap some p)
  ]

  pub set_status-IsConsistent :
      was_accepted action.decision.status ≡ was_accepted status
      → IsConsistent s
      → IsConsistent (set_status s i action status reason)
  unfolding set_status
  set_status-IsConsistent side c = record {
    keyed = λ k j e. after_write j k (c.keyed k j e);
    registered = registered_write c;
    received = λ j a e. elim (before_write j a e) [
      | inr (_, g) ↦ c.received j a g
      | inl (p, q) ↦
          subst (λ x. is_some (Dict.get s.executions (key_of x)) ≡ was_accepted x.decision.status)
            (sym q) (c.received i action (owned_action_found s i tenant_id h).0 ∙ side)
    ];
    receipted = c.receipted;
  }

  -- the write of the acceptance, with its receipt
  pub accept-IsConsistent :
      (receipt : ExecutionReceipt)
      → was_accepted status ≡ true
      → IsConsistent s
      → IsConsistent (record (set_status s i action status reason) {
        executions = Dict.put s.executions (key_of action) receipt;
      })
  unfolding set_status
  accept-IsConsistent receipt side c = record {
    keyed = λ k j e. after_write j k (c.keyed k j e);
    registered = registered_write c;
    received = λ j a e. elim (before_write j a e) [
      | inl (p, q) ↦
          subst
            (λ x.
              is_some (Dict.get (Dict.put s.executions (key_of action) receipt) (key_of x))
              ≡ was_accepted x.decision.status)
            (sym q) (ap is_some (get-put_self s.executions (key_of action) receipt) ∙ sym side)
      | inr (n, g) ↦ ground (
        arith,
        get-put s.executions (key_of action) (key_of a) receipt,
        ==_iff (key_of action) (key_of a),
        c.registered j a g,
        c.registered i action (owned_action_found s i tenant_id h).0,
        c.received j a g,
      )
    ];
    receipted = λ k e. ground (
      arith,
      get-put s.executions (key_of action) k receipt,
      ==_iff (key_of action) k,
      c.registered i action (owned_action_found s i tenant_id h).0,
      c.receipted k,
    );
  }
