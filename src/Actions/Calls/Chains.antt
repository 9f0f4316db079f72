-- ===== src/Actions/Calls/Chains.antt =====
-- The audit trail: the events of every action form a hash chain that validates.
use agents_reality_layer.Prelude.{string_eq, String, List, [], ◌∷◌, ◌≡◌, refl}
use agents_reality_layer.Json.{Platform}
use agents_reality_layer.Errors.{ok}
use agents_reality_layer.RealityGit.{check_from}
use agents_reality_layer.Dict
use agents_reality_layer.Actions.Service.{ActionService, init, events_of, set_status}
use agents_reality_layer.Actions.Service.Lifecycle.{propose_new}
use agents_reality_layer.Actions.Audit.{validate_event_chain}
use agents_reality_layer.Actions.Audit.Append.{ChainsValid, ChainsValid-append_event}
use agents_reality_layer.Actions.Calls.{
  Call, System, Provider, step, run, Effect, same, moved, accepted, noted, created,
}
use agents_reality_layer.Actions.Calls.Effects.{step-Effect}
use agents_reality_layer.Actions.Calls.Status.{AllFresh}

Effect-ChainsValid :
    {py : Platform} {s : ActionService} {t hex : String} {s' : ActionService}
    → Effect py s t hex s'
    → ChainsValid py s
    → ChainsValid py s'
unfolding propose_new set_status
Effect-ChainsValid same v = v
Effect-ChainsValid {py} {s = s} {t} {hex} (moved i a status reason event_type role payload h e _)
      v =
    ChainsValid-append_event py (set_status s i a status reason) t i event_type role payload hex
      (record { at = v.at })
Effect-ChainsValid {py} {s = s} {t} {hex} (accepted i a receipt h e _) v =
    ChainsValid-append_event py _ t i _ _ _ hex (record { at = v.at })
Effect-ChainsValid {py} {s = s} {t} {hex} (noted i a payload h e) v =
    ChainsValid-append_event py s t i _ _ payload hex v
Effect-ChainsValid {py} {s = s} {t} {hex} (created proposal role context fresh new _ _) v =
    ChainsValid-append_event py _ t _ _ _ _ _ (record { at = v.at })

-- Whatever calls are made of a new service, with fresh ids, the events of every action pass
-- `validate_event_chain`: each names the hash of the one before and carries the hash of its content.
module _ {W : Type 0} (py : Platform) (provider : Provider W) where
  run_keeps :
      (t : System W) (calls : List Call)
      → AllFresh py provider t calls
      → ChainsValid py t.service
      → ChainsValid py (run py provider t calls).service
  unfolding run
  run_keeps t [] new v = v
  run_keeps t (c ∷ calls) new v =
      run_keeps (step py provider t c) calls new.1
        (Effect-ChainsValid (step-Effect py t.service provider t.world c new.0) v)

  -- Whatever calls are made of a new service, each new id being one that is not in use, the events
  -- of every action pass `validate_event_chain`.
  pub run-validate :
      (world : W) (calls : List Call) (action_id : String)
      → AllFresh py provider (record { service = init; world = world }) calls
      → validate_event_chain py (
          events_of
            (run py provider (record { service = init; world = world }) calls).service
            action_id)
        ≡ ok tt
  run-validate world calls action_id new =
      (run_keeps (record { service = init; world = world }) calls new
          (record { at = λ j. unfold check_from Dict.get in refl })).at
        action_id
