-- ===== src/Actions/Calls/Replay.antt =====
-- The events tell a replica what happened: `restore` of an event that a call appended gives the
-- new action, or the status that the call gave, but for the note of a refused execution.
use Prim.Native.String.{◌++◌ as append}
use agents_reality_layer.Prelude.{
  string_eq, String, Option, true, false, is_some, none, some, ◌≡◌, refl, sym, subst, ap, ◌∙◌, inl,
  inr, Option-cases, arith,
}
use agents_reality_layer.Dict
use agents_reality_layer.Json.{Platform}
use agents_reality_layer.Errors.{ok}
use agents_reality_layer.Actions.Models.{validate_proposal}
use agents_reality_layer.Actions.Service.{StoredAction, ActionService}
use agents_reality_layer.Actions.Service.Restore.{holds_event}
use agents_reality_layer.Actions.Calls.{Call, System, Provider, step, IsFresh, hex_of, Effect}
use agents_reality_layer.Actions.Calls.Effects.{step-Effect}
use agents_reality_layer.Actions.Calls.Created.{Added, Effect-Added}
use agents_reality_layer.Actions.Calls.Changed.{Changed, Effect-Changed}

-- What an event tells of a new action, and of one that was there before the call.
abbrev pub Replayed :
    Platform
    → ActionService
    → String
    → ActionService
    → ActionService
    → Option StoredAction
    → StoredAction
    → Type 0
Replayed py r i s s' before a' = elim before [
  | none ↦ Added py r i s s' a'
  | some a ↦ Changed py r i s s' a a'
]

-- the replica has the action
found_as : {A : Type 0} (o : Option A) → is_some o ≡ true → (x : A) × (o ≡ some x)
found_as (some x) h = (x, refl)
found_as none h = absurd (ground arith)

Effect-Replayed :
    {py : Platform} {s : ActionService} {t hex : String} {s' : ActionService} {a' : StoredAction}
    (r : ActionService) (i : String)
    → Effect py s t hex s'
    → holds_event r (append "evt_" hex) ≡ false
    → is_some (Dict.get r.actions i) ≡ is_some (Dict.get s.actions i)
    → Dict.get s'.actions i ≡ some a'
    → validate_proposal a'.proposal ≡ ok a'.proposal
    → Replayed py r i s s' (Dict.get s.actions i) a'
Effect-Replayed {py} {s = s} {hex = hex} {s' = s'} {a' = a'} r i e unknown known g' valid =
    elim (Option-cases (Dict.get s.actions i)) [
      | inl g ↦
          subst (λ o. Replayed py r i s s' o a') (sym g) (Effect-Added r i e unknown g g' valid)
      | inr (a, g) ↦
          let (b, found) = found_as (Dict.get r.actions i) (known ∙ ap is_some g) in
          subst (λ o. Replayed py r i s s' o a') (sym g)
            (Effect-Changed py r i found hex unknown e g g')
    ]

module _ {W : Type 0} (py : Platform) (provider : Provider W) where
  -- A call, seen from an action that is there after it, whose proposal has the form that the model
  -- demands, and from a replica that holds the action exactly if the service did before the call,
  -- and does not hold the event of the call. If the call made the action, exactly one event was
  -- appended, and the replica that restores it holds the action with the same record. If the action
  -- was there, then either it and its events stay as they were; or exactly one event was appended,
  -- and restoring it gives the replica's action the status that the call gave; or the call was
  -- refused as an execution of an approved action, which stays as it was, while the event that was
  -- appended gives the replica's action the status precondition_failed. The id that `uuid4` gives
  -- to a new action is assumed not to be in use.
  pub step-Replayed :
      (y : System W) (c : Call) (i : String) (r : ActionService) {a' : StoredAction}
      → IsFresh y.service c
      → holds_event r (append "evt_" (hex_of c)) ≡ false
      → is_some (Dict.get r.actions i) ≡ is_some (Dict.get y.service.actions i)
      → Dict.get (step py provider y c).service.actions i ≡ some a'
      → validate_proposal a'.proposal ≡ ok a'.proposal
      → Replayed py r i y.service (step py provider y c).service (Dict.get y.service.actions i) a'
  step-Replayed y c i r new unknown known g' valid =
      Effect-Replayed r i (step-Effect py y.service provider y.world c new) unknown known g' valid
