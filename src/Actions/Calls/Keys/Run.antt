-- ===== src/Actions/Calls/Keys/Run.antt =====
-- The invariant of the keys holds after every run of calls of a new service.
use Prim.Native.String.{◌++◌ as append}
use agents_reality_layer.Prelude.{
  string_eq, pair_eq, String, false, none, some, List, [], ◌∷◌, ◌≡◌, refl, sym, subst, ap, ◌∙◌,
  ◌==◌, ==_iff, inl, inr, ◌⊎◌, Bool-cases, Option-cases, arith, is_some,
}
use agents_reality_layer.Dict
use agents_reality_layer.Dict.Laws.{get-put, get-put_self}
use agents_reality_layer.Json.{Platform, Object}
use agents_reality_layer.Actions.Models.{ActionProposal, provider_accepted}
use agents_reality_layer.Actions.Policy.{Context, evaluate_policy}
use agents_reality_layer.Actions.Service.{
  StoredAction, ActionService, init, append_event, set_status,
}
use agents_reality_layer.Actions.Service.Lifecycle.{Fresh, propose_new}
use agents_reality_layer.Actions.Calls.{
  Call, System, Provider, step, run, Effect, same, moved, accepted, noted, created,
}
use agents_reality_layer.Actions.Calls.Effects.{step-Effect}
use agents_reality_layer.Actions.Calls.Owned.{
  owned_action_found, new_action, get-propose_new, get-propose_new_ne,
}
use agents_reality_layer.Actions.Calls.Status.{AllFresh}
use agents_reality_layer.Actions.Calls.Keys.{
  was_accepted, key_of, IsConsistent, turn-was_accepted, set_status-IsConsistent,
  accept-IsConsistent,
}

-- the policy does not speak for the provider
policy_not_accepted :
    (py : Platform) (id : String) (p : ActionProposal) (role : String) (context : Context)
    (version : String)
    → was_accepted (evaluate_policy py id p role context version).status ≡ false
unfolding evaluate_policy
policy_not_accepted py id p role context version = ground arith

module _ (py : Platform) (s : ActionService) (proposal : ActionProposal) (role tenant_id : String)
    (context : Context) (fresh : Fresh)
    (new_id : Dict.get s.actions (append "act_" fresh.action_hex) ≡ none)
    (new_key : Dict.get s.idempotency (tenant_id, proposal.idempotency_key) ≡ none)
    (c : IsConsistent s) where
  abbrev id : String
  id = append "act_" fresh.action_hex

  abbrev key : String × String
  key = (tenant_id, proposal.idempotency_key)

  abbrev action : StoredAction
  action = new_action py proposal role tenant_id context fresh

  abbrev after : ActionService
  after = (propose_new py s proposal role tenant_id context fresh).1

  created_keyed :
      (k : String × String) (i : String)
      → Dict.get (Dict.put s.idempotency key id) k ≡ some i
      → (a : StoredAction) × (Dict.get after.actions i ≡ some a) × (key_of a ≡ k)
  created_keyed k i e = elim (Bool-cases (key == k)) [
    | inl y ↦ (
      action,
      ground (
        arith,
        get-put s.idempotency key k id,
        ==_iff key k,
        ==_iff id i,
        get-propose_new py s proposal role tenant_id context fresh i,
      ),
      (==_iff key k).0 y,
    )
    | inr n ↦
        let (a, g, h) = c.keyed k i (ground (arith, get-put s.idempotency key k id)) in
        (a, get-propose_new_ne py s proposal role tenant_id context fresh i new_id g, h)
  ]

  -- an action that is found is the new one or an old one
  created_cases :
      (i : String) (a : StoredAction)
      → Dict.get after.actions i ≡ some a
      → ((id ≡ i) × (a ≡ action)) ⊎ (Dict.get s.actions i ≡ some a)
  created_cases i a e = elim (Bool-cases (id == i)) [
    | inl y ↦ inl (
      (==_iff id i).0 y,
      ground (arith, get-propose_new py s proposal role tenant_id context fresh i),
    )
    | inr n ↦ inr (ground (arith, get-propose_new py s proposal role tenant_id context fresh i))
  ]

  no_receipt : Dict.get s.executions key ≡ none
  no_receipt = elim (Option-cases (Dict.get s.executions key)) [
    | inl n ↦ n
    | inr (r, g) ↦ absurd (ground (arith, c.receipted key))
  ]

  propose_new-IsConsistent : IsConsistent after
  unfolding propose_new append_event
  propose_new-IsConsistent = record {
    keyed = created_keyed;
    registered = λ i a e. elim (created_cases i a e) [
      | inl (p, q) ↦
          subst (λ x. Dict.get (Dict.put s.idempotency key id) (key_of x) ≡ some i) (sym q)
            (get-put_self s.idempotency key id ∙ ap some p)
      | inr g ↦ ground (
        arith,
        get-put s.idempotency key (key_of a) id,
        ==_iff key (key_of a),
        c.registered i a g,
      )
    ];
    received = λ i a e. elim (created_cases i a e) [
      | inl (p, q) ↦
          subst (λ x. is_some (Dict.get s.executions (key_of x)) ≡ was_accepted x.decision.status)
            (sym q)
            (ap is_some no_receipt ∙ sym (policy_not_accepted py id proposal role context "mvp-1"))
      | inr g ↦ c.received i a g
    ];
    receipted = λ k e. ground (arith, get-put s.idempotency key k id, c.receipted k);
  }

append_event-IsConsistent :
    (py : Platform) (s : ActionService) (t i event_type role : String) (payload : Object)
    (hex : String)
    → IsConsistent s
    → IsConsistent (append_event py s t i event_type role payload hex)
unfolding append_event
append_event-IsConsistent py s t i event_type role payload hex c = record {
  keyed = c.keyed;
  registered = c.registered;
  received = c.received;
  receipted = c.receipted;
}

Effect-IsConsistent :
    {py : Platform} {s : ActionService} {t hex : String} {s' : ActionService}
    → Effect py s t hex s'
    → IsConsistent s
    → IsConsistent s'
Effect-IsConsistent same c = c
Effect-IsConsistent {py} {s = s} {t} (moved i a status reason _ _ _ h e _) c =
    append_event-IsConsistent py _ t i _ _ _ _
      (set_status-IsConsistent s i t a status reason h (turn-was_accepted e) c)
Effect-IsConsistent {py} {s = s} {t} (accepted i a receipt h e _) c =
    append_event-IsConsistent py _ t i _ _ _ _ (
      subst
        (λ u. IsConsistent (record (set_status s i a provider_accepted "Provider accepted write.") {
          executions = Dict.put s.executions (u, a.proposal.idempotency_key) receipt;
        }))
        (owned_action_found s i t h).1
        (accept-IsConsistent s i t a provider_accepted "Provider accepted write." h receipt refl c))
Effect-IsConsistent {py} {s = s} {t} (noted i a _ h e) c =
    append_event-IsConsistent py s t i _ _ _ _ c
Effect-IsConsistent {py} {s = s} {t} (created proposal role context fresh n k _) c =
    propose_new-IsConsistent py s proposal role t context fresh n k c

init-IsConsistent : IsConsistent init
unfolding Dict.get
init-IsConsistent = record {
  keyed = λ k i e. ground arith;
  registered = λ i a e. cc;
  received = λ i a e. ground arith;
  receipted = λ k e. cc;
}

module _ {W : Type 0} (py : Platform) (provider : Provider W) where
  run_keeps :
      (t : System W) (calls : List Call)
      → AllFresh py provider t calls
      → IsConsistent t.service
      → IsConsistent (run py provider t calls).service
  unfolding run
  run_keeps t [] new v = v
  run_keeps t (c ∷ calls) new v =
      run_keeps (step py provider t c) calls new.1
        (Effect-IsConsistent (step-Effect py t.service provider t.world c new.0) v)

  -- Whatever calls are made of a new service, each new id being one that is not in use: a key leads
  -- to the one action of its tenant that carries it, and the receipt of an execution is held exactly
  -- for the actions whose status says that the provider has accepted them.
  pub run-IsConsistent :
      (world : W) (calls : List Call)
      → AllFresh py provider (record { service = init; world = world }) calls
      → IsConsistent (run py provider (record { service = init; world = world }) calls).service
  run-IsConsistent world calls new =
      run_keeps (record { service = init; world = world }) calls new init-IsConsistent
