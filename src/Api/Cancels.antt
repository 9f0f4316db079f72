-- ===== src/Api/Cancels.antt =====
-- When a handler of src/reality_layer/api/app.py cancels an order.
use agents_reality_layer.Prelude.{
  string_eq, String, Bool, true, false, not, Option, none, some, ◌≡◌, refl, sym, subst, ap, ◌∙◌,
  ◌⊎◌, ◌==◌, ==_iff, any, if◌then◌else◌, arith, inl, inr, Bool-cases,
}
use Prim.Native.String.{◌++◌ as append}
use agents_reality_layer.Prelude.Text.{remove_prefix}
use agents_reality_layer.Errors.{Result, ok, err, Result-cases, ok_injective, value_error}
use agents_reality_layer.Actions.Models.{ActionProposal}
use agents_reality_layer.Actions.Service.{StoredAction, ActionService, owned_action}
use agents_reality_layer.Actions.Service.Execute
use agents_reality_layer.Actions.Service.Lifecycle.{get_proposal}
use agents_reality_layer.Actions.Calls.Provided.{
  Executable, Provided, untouched, called, execute-Provided,
}
use agents_reality_layer.Api.{App, AppSettings, Outside}
use agents_reality_layer.Api.State.{restore_actions, persist_action_events, resolve_order_state}
use agents_reality_layer.Api.Actions.{
  and_then, with_restored, commit_action, committed_if_persistent,
}
use agents_reality_layer.Api.ActionReads.{restored_or}
use agents_reality_layer.Api.Execution.{
  require_capability, cancel_with, with_execution, execute_proposal, execute_action,
}
use agents_reality_layer.Connectors.{CancelledOrders, cancel_order}
use agents_reality_layer.Connectors.Readback.{any-cancel_order}
use agents_reality_layer.Database.{Sql, shopify}
use agents_reality_layer.WorldState.Models.{OrderState}
use agents_reality_layer.WorldState.Persistence.Store.{load_state}
use agents_reality_layer.Workspaces.{has_capability}

abbrev pub is_cancelled : String → CancelledOrders → Bool
is_cancelled order_id cancelled = any (λ i. i == order_id) cancelled

-- the order that an action is about
abbrev pub order_of : StoredAction → String
order_of action = remove_prefix "order:" action.proposal.target_entity

-- `and_then`, on both branches
and_then-cases :
    {sql : Sql} {A B : Type 0} (r : Result A × App sql) (rest : A → App sql → Result B × App sql)
    → ((and_then r rest).1 ≡ r.1) ⊎ ((a : A) × (r.0 ≡ ok a) × (and_then r rest ≡ rest a r.1))
and_then-cases (err e, app) rest = inl refl
and_then-cases (ok a, app) rest = inr (a, refl, refl)

module _ (sql : Sql) (out : Outside) where
  shopify-restored_or :
      (app : App sql) (t : String) → (restored_or sql out app t).1.shopify ≡ app.shopify
  unfolding restore_actions
  shopify-restored_or app t = elim (Bool-cases app.settings.persistence_enabled) [
    | inl h ↦ rw h refl
    | inr h ↦ rw h refl
  ]

  resolve_order_state-Same :
      (app : App sql) (t j : String)
      → ((resolve_order_state sql out app t j).1.shopify ≡ app.shopify)
        × ((resolve_order_state sql out app t j).1.actions ≡ app.actions)
  unfolding resolve_order_state
  resolve_order_state-Same app t j = elim (Bool-cases app.settings.persistence_enabled) [
    | inr p ↦ rw (p, resolve_order_state) (refl, refl)
    | inl p ↦
        rw (p, resolve_order_state)
          (elim (Result-cases (load_state sql out.py out.read_time app.db t (append "order:" j))) [
            | inr (e, h) ↦ rw h (refl, refl)
            | inl (none, h) ↦ rw h (refl, refl)
            | inl (some state, h) ↦ rw h (refl, refl)
          ])
  ]

  shopify-commit_action :
      {A : Type 0} (t i : String) (r : Result A × App sql)
      → (commit_action sql out t i r).1.shopify ≡ r.1.shopify
  shopify-commit_action t i (err e, app) = refl
  shopify-commit_action t i (ok a, app) =
      elim (Result-cases (persist_action_events sql out app t i)) [
        | inl (db, h) ↦ rw (h, commit_action) refl
        | inr (e, h) ↦ rw (h, commit_action) refl
      ]

  shopify-committed :
      {A : Type 0} (settings : AppSettings) (t i : String) (r : Result A × App sql)
      → (committed_if_persistent sql out settings t i r).1.shopify ≡ r.1.shopify
  shopify-committed settings t i r =
      either settings.persistence_enabled (commit_action sql out t i r) r
        (shopify-commit_action t i r) refl
    where
      either :
          {A : Type 0} (b : Bool) (x y : Result A × App sql) {c : CancelledOrders}
          → x.1.shopify ≡ c
          → y.1.shopify ≡ c
          → (if b then x else y).1.shopify ≡ c
      either true x y h k = h
      either false x y h k = k

  -- the state of the order of an action, as `execute` is given it
  abbrev pub current_state : App sql → String → StoredAction → Result (Option OrderState)
  current_state app t action = (resolve_order_state sql out app t (order_of action)).0

  -- What allows a cancellation: the tenant's approved action, of an order that is eligible.
  pub record Licensed (app : App sql) (i t : String) (action : StoredAction) : Type 0 where
    pub state : Option OrderState
    pub known : current_state app t action ≡ ok state
    pub executable : Executable app.actions i t state action

  -- the orders that are cancelled after a call
  data Cancelling (app : App sql) (i t : String) : CancelledOrders → Type 0 where
    none_more : Cancelling app i t app.shopify
    one_more :
        (action : StoredAction)
        → Licensed app i t action
        → (key hex : String)
        → Cancelling app i t (cancel_order app.shopify i (order_of action) key hex).1

  get_proposal-owned :
      (app : App sql) (i t : String) {p : ActionProposal}
      → get_proposal app.actions i t ≡ ok p
      → (action : StoredAction) × (owned_action app.actions i t ≡ ok action) × (p ≡ action.proposal)
  unfolding get_proposal
  get_proposal-owned app i t h = elim (Result-cases (owned_action app.actions i t)) [
    | inr (e, o) ↦ cc
    | inl (action, o) ↦ (action, o, ok_injective (sym h ∙ rw (o, get_proposal) refl))
  ]

  module _ (app : App sql) (i t hex request_hex : String) where
    after_execution :
        {st : Option OrderState} {s' : ActionService} {world w : CancelledOrders}
        → s' ≡ app.actions
        → world ≡ app.shopify
        → ((action : StoredAction)
            → owned_action app.actions i t ≡ ok action
            → current_state app t action ≡ ok st)
        → Provided s' i t (cancel_with sql out request_hex) st world w
        → Cancelling app i t w
    after_execution a c k untouched = subst (λ x. Cancelling app i t x) (sym c) none_more
    after_execution {st} a c k (called action e) =
        let e' = subst (λ x. Executable x i t st action) a e in
        subst
          (λ x.
            Cancelling app i t
              (cancel_order x i (order_of action) action.proposal.idempotency_key request_hex).1)
          (sym c)
          (one_more action (record { state = st; known = k action e'.owned; executable = e' })
            action.proposal.idempotency_key request_hex)

    after_state :
        (r : Result (Option OrderState) × App sql)
        → r.1.actions ≡ app.actions
        → r.1.shopify ≡ app.shopify
        → ((action : StoredAction)
            → owned_action app.actions i t ≡ ok action
            → current_state app t action ≡ r.0)
        → Cancelling app i t
            (and_then r (λ state app'. with_execution sql out app' (
              Execute.execute out.py app'.actions i t
                (cancel_with sql out request_hex)
                state
                hex
                app'.shopify))).1.shopify
    after_state (err e, app') a c k = subst (λ x. Cancelling app i t x) (sym c) none_more
    after_state (ok st, app') a c k = after_execution a c k (
        execute-Provided out.py app'.actions i t (cancel_with sql out request_hex) st hex
          app'.shopify)

    execute_proposal-Cancelling :
        Cancelling app i t (execute_proposal sql out i t hex request_hex app).1.shopify
    unfolding execute_proposal
    execute_proposal-Cancelling = elim (Result-cases (get_proposal app.actions i t)) [
      | inr (e, h) ↦ rw (h, execute_proposal) none_more
      | inl (p, h) ↦
          let (action, o, same) = get_proposal-owned app i t h in
          let (c, a) = resolve_order_state-Same app t (remove_prefix "order:" p.target_entity) in
          rw (h, execute_proposal)
            (after_state
              (resolve_order_state sql out app t (remove_prefix "order:" p.target_entity)) a c
              (λ other o'.
                ap (λ x. current_state app t x) (ok_injective (sym o' ∙ o))
                ∙ ap
                    (λ q.
                      (resolve_order_state sql out app t
                        (remove_prefix "order:" q.target_entity)).0)
                    (sym same)))
    ]

  -- without persistence there are no capabilities to ask for
  abbrev pub Permitted : App sql → String → Type 0
  Permitted app t =
      app.settings.persistence_enabled ≡ true → has_capability sql app.db t shopify "write" ≡ true

  require_capability-cases :
      (app : App sql) (t message : String)
      → ((require_capability sql out app t "write" message ≡ (ok tt, app)) × Permitted app t)
        ⊎ (require_capability sql out app t "write" message ≡ (err (value_error message), app))
  require_capability-cases app t message =
      decide app.settings.persistence_enabled (has_capability sql app.db t shopify "write")
    where
      decide :
          (b c : Bool)
          → ((Path
                (Result (Unit {0}) × App sql)
                (if not b
                  then (ok tt, app)
                  else if c
                  then (ok tt, app)
                  else (err (value_error message), app))
                (ok tt, app))
              × (b ≡ true → c ≡ true))
            ⊎ (Path
                (Result (Unit {0}) × App sql)
                (if not b
                  then (ok tt, app)
                  else if c
                  then (ok tt, app)
                  else (err (value_error message), app))
                (err (value_error message), app))
      decide false c = inl (refl, λ h. cc)
      decide true true = inl (refl, λ h. refl)
      decide true false = inr refl

  with_restored-cases :
      {A : Type 0} (app : App sql) (t : String) (body : App sql → Result A × App sql)
      → ((with_restored sql out app t body).1.shopify ≡ app.shopify)
        ⊎ (with_restored sql out app t body ≡ body (restored_or sql out app t).1)
  unfolding restore_actions
  with_restored-cases app t body = decide app.settings.persistence_enabled
    where
      decide :
          (b : Bool)
          → ((if b
                then and_then (restore_actions sql out app t) (λ _ a. body a)
                else body app).1.shopify
              ≡ app.shopify)
            ⊎ ((if b then and_then (restore_actions sql out app t) (λ _ a. body a) else body app)
                ≡ body (if b then restore_actions sql out app t else (ok tt, app)).1)
      decide false = inr refl
      decide true = elim (and_then-cases (restore_actions sql out app t) (λ _ a. body a)) [
        | inl h ↦ inl (ap (λ a. a.shopify) h)
        | inr (a, e, same) ↦ inr same
      ]

  execute_action-Cancelling :
      (app : App sql) (i t hex request_hex : String)
      → ((execute_action sql out app i t hex request_hex).1.shopify ≡ app.shopify)
        ⊎ (Permitted app t
            × Cancelling
                (restored_or sql out app t).1
                i
                t
                (execute_action sql out app i t hex request_hex).1.shopify)
  unfolding execute_action
  execute_action-Cancelling app i t hex request_hex =
      let body = execute_proposal sql out i t hex request_hex in
      let message : String = "Shopify write capability is not enabled for this workspace." in
      let r =
        and_then (require_capability sql out app t "write" message)
          (λ _ a. with_restored sql out a t body) in
      let committed = shopify-committed app.settings t i r in
      elim (require_capability-cases app t message) [
        | inr h ↦
            inl (
              committed
              ∙ ap (λ x. (and_then x (λ _ a. with_restored sql out a t body)).1.shopify) h)
        | inl (h, permitted) ↦
            let whole =
              committed
              ∙ ap (λ x. (and_then x (λ _ a. with_restored sql out a t body)).1.shopify) h in
            elim (with_restored-cases app t body) [
              | inl same ↦ inl (whole ∙ same)
              | inr ran ↦ inr (
                permitted,
                subst (λ c. Cancelling (restored_or sql out app t).1 i t c)
                    (sym (whole ∙ ap (λ x. x.1.shopify) ran))
                    (execute_proposal-Cancelling (restored_or sql out app t).1 i t hex request_hex),
              )
            ]
      ]

  -- An order that `POST /v1/actions/{action_id}/execute` cancels was not cancelled before, and is the order
  -- of that action, which the tenant owns, once its stored events are restored, and which is an
  -- approved cancellation of an order that is there and eligible; with persistence, Shopify's
  -- capability to write is enabled.
  pub execute_action_cancels :
      (app : App sql) (i t hex request_hex j : String)
      → is_cancelled j app.shopify ≡ false
      → is_cancelled j (execute_action sql out app i t hex request_hex).1.shopify ≡ true
      → (action : StoredAction) × Licensed (restored_or sql out app t).1 i t action
        × (order_of action ≡ j)
        × Permitted app t
  execute_action_cancels app i t hex request_hex j before after =
      elim (execute_action-Cancelling app i t hex request_hex) [
        | inl same ↦ cc
        | inr (permitted, c) ↦ found permitted (shopify-restored_or app t) c after
      ]
    where
      found :
          {c : CancelledOrders}
          → Permitted app t
          → (restored_or sql out app t).1.shopify ≡ app.shopify
          → Cancelling (restored_or sql out app t).1 i t c
          → is_cancelled j c ≡ true
          → (action : StoredAction) × Licensed (restored_or sql out app t).1 i t action
            × (order_of action ≡ j)
            × Permitted app t
      found permitted same none_more h = let h' = subst (λ x. is_cancelled j x ≡ true) same h in cc
      found permitted same (one_more action licensed key hex) h =
          let now =
            any-cancel_order (restored_or sql out app t).1.shopify i (order_of action) key hex j in
          let before' = subst (λ x. is_cancelled j x ≡ false) (sym same) before in
          elim (Bool-cases (order_of action == j)) [
            | inl e ↦ (action, licensed, (==_iff (order_of action) j).0 e, permitted)
            | inr e ↦ absurd (ground (arith, e, now, before', h))
          ]
