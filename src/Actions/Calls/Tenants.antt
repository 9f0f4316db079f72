-- ===== src/Actions/Calls/Tenants.antt =====
-- Tenants are kept apart.
use Prim.Native.String.{◌++◌ as append}
use agents_reality_layer.Prelude.{string_eq, String, some, ◌≡◌, ◌≢◌, refl, ◌∙◌, ==_iff, arith}
use agents_reality_layer.Dict
use agents_reality_layer.Json.{Platform, Object}
use agents_reality_layer.Errors.{ok}
use agents_reality_layer.Actions.Models.{ActionStatus, provider_accepted}
use agents_reality_layer.Actions.Audit.Append.{events_of-append_event}
use agents_reality_layer.Actions.Service.{
  StoredAction, ActionService, owned_action, events_of, append_event, set_status,
}
use agents_reality_layer.Actions.Service.Lifecycle.{propose_new}
use agents_reality_layer.Actions.Calls.{
  Call, System, Provider, step, IsFresh, tenant_of, Effect, same, moved, accepted, noted, created,
}
use agents_reality_layer.Actions.Calls.Effects.{step-Effect}
use agents_reality_layer.Actions.Calls.Owned.{
  owned_action_found, get-set_status, get-propose_new_ne, actions-append_event,
}

-- The action and its events are as they were.
abbrev pub Untouched : ActionService → ActionService → String → StoredAction → Type 0
Untouched s s' j a = (Dict.get s'.actions j ≡ some a) × (events_of s' j ≡ events_of s j)

-- an event of one action is no event of another
other_events :
    (py : Platform) (s : ActionService) (t i event_type role : String) (payload : Object)
    (hex j : String)
    → i ≢ j
    → events_of (append_event py s t i event_type role payload hex) j ≡ events_of s j
other_events py s t i event_type role payload hex j n =
    ground (arith, events_of-append_event py s t i event_type role payload hex j, ==_iff i j)

module _ (s : ActionService) (t : String) (j : String) (a : StoredAction)
    (g : Dict.get s.actions j ≡ some a) (foreign : a.tenant_id ≢ t) where
  other_action : (i : String) {action : StoredAction} → owned_action s i t ≡ ok action → i ≢ j
  other_action i h = λ p. ground (arith, owned_action_found s i t h)

  unwritten :
      (i : String) (action : StoredAction) (status : ActionStatus) (reason : String)
      → owned_action s i t ≡ ok action
      → Dict.get (set_status s i action status reason).actions j ≡ some a
  unwritten i action status reason h =
      ground
        (arith, get-set_status s i action status reason j, ==_iff i j, owned_action_found s i t h)

  log_kept :
      (py : Platform) (s' : ActionService) (i event_type role : String) (payload : Object)
      (hex : String)
      → i ≢ j
      → events_of s' j ≡ events_of s j
      → events_of (append_event py s' t i event_type role payload hex) j ≡ events_of s j
  log_kept py s' i event_type role payload hex n e =
      other_events py s' t i event_type role payload hex j n ∙ e

  Effect-Untouched :
      {py : Platform} {hex : String} {s' : ActionService}
      → Effect py s t hex s'
      → Untouched s s' j a
  unfolding set_status propose_new
  Effect-Untouched same = (g, refl)
  Effect-Untouched {py} {hex} (moved i action status reason event_type role payload h e _) = (
    rw actions-append_event (unwritten i action status reason h),
    log_kept py _ i event_type role payload hex (other_action i h) refl,
  )
  Effect-Untouched {py} {hex} (accepted i action receipt h e _) = (
    rw actions-append_event (unwritten i action provider_accepted "Provider accepted write." h),
    log_kept py _ i _ _ _ hex (other_action i h) refl,
  )
  Effect-Untouched {py} {hex} (noted i action payload h e) =
      (rw actions-append_event g, log_kept py _ i _ _ payload hex (other_action i h) refl)
  Effect-Untouched {py} (created proposal role context fresh new k _) = (
    get-propose_new_ne py s proposal role t context fresh j new g,
    log_kept py _ (append "act_" fresh.action_hex) _ _ _ _ (λ p. ground arith) refl,
  )

module _ {W : Type 0} (py : Platform) (provider : Provider W) where
  -- A call for one tenant leaves the actions of the others as they were, and their events too,
  -- whatever the call is; a new id is assumed not to be in use.
  pub step-Untouched :
      (y : System W) (c : Call) (j : String) {a : StoredAction}
      → IsFresh y.service c
      → Dict.get y.service.actions j ≡ some a
      → a.tenant_id ≢ tenant_of c
      → Untouched y.service (step py provider y c).service j a
  step-Untouched y c j {a} new g foreign =
      Effect-Untouched y.service (tenant_of c) j a g foreign
        (step-Effect py y.service provider y.world c new)
