-- ===== src/Actions/Calls/Changed.antt =====
-- An action that was there before a call, in the eyes of a replica that holds it: `restore` of the
-- event of the call gives the status that the call gave, but for the note of a refused execution.
use Prim.Native.String.{◌++◌ as append}
use agents_reality_layer.Prelude.{
  string_eq, String, true, false, none, some, [], ◌∷◌, ◌++◌, ◌≡◌, ◌⊎◌, refl, sym, subst, ◌∙◌, ◌==◌,
  ==_iff, beq_refl, inl, inr, Bool-cases, arith,
}
use agents_reality_layer.Dict
use agents_reality_layer.Json.{Platform, Object}
use agents_reality_layer.Errors.{Result-cases}
use agents_reality_layer.Actions.Models.{
  ActionStatus, approved, precondition_failed, provider_accepted,
}
use agents_reality_layer.Actions.Events.{ActionEventRecord, receipt_of}
use agents_reality_layer.Actions.Audit.Append.{events_of-append_event}
use agents_reality_layer.Actions.Service.{
  StoredAction, ActionService, events_of, next_event, append_event, set_status,
}
use agents_reality_layer.Actions.Service.Lifecycle.{propose_new}
use agents_reality_layer.Actions.Service.Restore.{
  status_of_event, restored_reason, apply_restored, keep_event, holds_event, restore_step, restore,
}
use agents_reality_layer.Actions.Calls.{Effect, same, moved, accepted, noted, created}
use agents_reality_layer.Actions.Calls.Owned.{
  owned_action_found, with_status, get-set_status, get-propose_new_ne, actions-append_event,
}

-- an event that names a status is no proposal
not_evaluated :
    (t : String) {st : ActionStatus}
    → status_of_event t ≡ some st
    → (t == "policy_evaluated") ≡ false
unfolding status_of_event
not_evaluated t {st} h = elim (Bool-cases (t == "policy_evaluated")) [
  | inr n ↦ n
  | inl y ↦ absurd (
      let e : status_of_event "policy_evaluated" ≡ some st =
        subst (λ x. status_of_event x ≡ some st) ((==_iff t "policy_evaluated").0 y) h in
      ground arith)
]

actions-restore_step :
    (py : Platform) (r : ActionService) (b : StoredAction) (e : ActionEventRecord)
    → (restore_step py r b e).1.actions ≡ (apply_restored py r b e).actions
unfolding restore_step keep_event
actions-restore_step py r b e = elim (Bool-cases (e.event_type == "provider_accepted")) [
  | inr n ↦ rw (n, restore_step) refl
  | inl y ↦
      rw (y, restore_step)
        (elim (Result-cases (receipt_of e.payload)) [
          | inl (x, h) ↦ rw h refl
          | inr (x, h) ↦ rw h refl
        ])
]

-- what a replica makes of an event of the lifecycle
get-restore :
    (py : Platform) (r : ActionService) (e : ActionEventRecord) {b : StoredAction}
    {st : ActionStatus}
    → Dict.get r.actions e.action_id ≡ some b
    → holds_event r e.event_id ≡ false
    → status_of_event e.event_type ≡ some st
    → Dict.get (restore py r e).1.actions e.action_id
      ≡ some (with_status b st (restored_reason py e))
unfolding restore
get-restore py r e {b} {st} g h k =
    rw (h, restore)
      (rw (not_evaluated e.event_type k) (
        rw g (
          rw actions-restore_step (
            unfold apply_restored in
            rw (k, apply_restored)
              (get-set_status r e.action_id b st (restored_reason py e) e.action_id
                ∙ rw (beq_refl e.action_id) refl)))))

-- an id that is not in use is not that of a stored action
other_id :
    (s : ActionService) (new_id i : String) {a : StoredAction}
    → Dict.get s.actions new_id ≡ none
    → Dict.get s.actions i ≡ some a
    → (new_id == i) ≡ false
other_id s new_id i new g = elim (Bool-cases (new_id == i)) [
  | inr n ↦ n
  | inl y ↦ absurd (ground (arith, ==_iff new_id i))
]

module _ (py : Platform) (r : ActionService) (i : String) where
  -- A replica that restores the event holds the action with the status.
  abbrev pub RestoresTo : ActionEventRecord → ActionStatus → Type 0
  RestoresTo e st =
      (b : StoredAction) × (Dict.get (restore py r e).1.actions i ≡ some b)
      × (b.decision.status ≡ st)

  -- One event was appended to those of the action, and it tells the status.
  abbrev pub Tells : ActionService → ActionService → ActionStatus → Type 0
  Tells s s' st =
      (e : ActionEventRecord) × (events_of s' i ≡ events_of s i ++ e ∷ []) × RestoresTo e st

  -- Nothing happened, or the event tells what did, or the execution of an approved action was
  -- refused and the event tells of a failed precondition.
  abbrev pub Changed : ActionService → ActionService → StoredAction → StoredAction → Type 0
  Changed s s' a a' =
      (a' ≡ a) × (events_of s' i ≡ events_of s i)
      ⊎ Tells s s' a'.decision.status
      ⊎ (a' ≡ a) × (a.decision.status ≡ approved) × Tells s s' precondition_failed

  module _ {b : StoredAction} (found : Dict.get r.actions i ≡ some b) (hex : String)
      (unknown : holds_event r (append "evt_" hex) ≡ false) where
    -- the event that an append makes, at the action it is for
    Tells-append :
        (s s' : ActionService) (t event_type role : String) (payload : Object) {st : ActionStatus}
        → events_of s' i ≡ events_of s i
        → status_of_event event_type ≡ some st
        → Tells s (append_event py s' t i event_type role payload hex) st
    unfolding next_event
    Tells-append s s' t event_type role payload {st} same_log k =
        let e = next_event py (events_of s' i) t i event_type role payload hex in
        (
          e,
          events_of-append_event py s' t i event_type role payload hex i
              ∙ rw (beq_refl i) (rw same_log refl),
          (with_status b st (restored_reason py e), get-restore py r e found unknown k, refl),
        )

    -- an append for another action
    quiet_append :
        (s s' : ActionService) (t j event_type role : String) (payload : Object)
        → events_of s' i ≡ events_of s i
        → (j == i) ≡ false
        → events_of (append_event py s' t j event_type role payload hex) i ≡ events_of s i
    quiet_append s s' t j event_type role payload same_log n =
        events_of-append_event py s' t j event_type role payload hex i ∙ rw n same_log

    Tells-append_at :
        (s s' : ActionService) (t j event_type role : String) (payload : Object)
        {st st' : ActionStatus}
        → events_of s' i ≡ events_of s i
        → status_of_event event_type ≡ some st
        → (j == i) ≡ true
        → st ≡ st'
        → Tells s (append_event py s' t j event_type role payload hex) st'
    Tells-append_at s s' t j event_type role payload {st} same_log k y p =
        subst (λ x. Tells s (append_event py s' t j event_type role payload hex) x) p
          (subst (λ x. Tells s (append_event py s' t x event_type role payload hex) st)
            (sym ((==_iff j i).0 y)) (Tells-append s s' t event_type role payload same_log k))

    -- what a written status makes of the action
    written_other :
        (s : ActionService) (j : String) (action : StoredAction) (st : ActionStatus)
        (reason : String) {a a' : StoredAction}
        → Dict.get s.actions i ≡ some a
        → Dict.get (set_status s j action st reason).actions i ≡ some a'
        → (j == i) ≡ false
        → a' ≡ a
    written_other s j action st reason g g' n =
        ground (arith, get-set_status s j action st reason i)

    written_own :
        (s : ActionService) (j : String) (action : StoredAction) (st : ActionStatus)
        (reason : String) {a' : StoredAction}
        → Dict.get (set_status s j action st reason).actions i ≡ some a'
        → (j == i) ≡ true
        → st ≡ a'.decision.status
    written_own s j action st reason g' y = ground (arith, get-set_status s j action st reason i)

    pub Effect-Changed :
        {s : ActionService} {t : String} {s' : ActionService} {a a' : StoredAction}
        → Effect py s t hex s'
        → Dict.get s.actions i ≡ some a
        → Dict.get s'.actions i ≡ some a'
        → Changed s s' a a'
    unfolding set_status propose_new status_of_event
    Effect-Changed same g g' = inl (ground arith, refl)
    Effect-Changed {s = s} {t} (moved j action status reason event_type role payload h e k) g g' =
        let w = rw actions-append_event at g' in
        elim (Bool-cases (j == i)) [
          | inr n ↦ inl (
            written_other s j action status reason g w n,
            quiet_append s (set_status s j action status reason) t j event_type role payload refl n,
          )
          | inl y ↦ inr (
              inl (
                Tells-append_at s (set_status s j action status reason) t j event_type role payload
                  refl k y (written_own s j action status reason w y)))
        ]
    Effect-Changed {s = s} {t} (accepted j action receipt h e _) g g' =
        let w = rw actions-append_event at g' in
        elim (Bool-cases (j == i)) [
          | inr n ↦ inl (
            written_other s j action provider_accepted "Provider accepted write." g w n,
            quiet_append s _ t j _ _ _ refl n,
          )
          | inl y ↦ inr (
              inl (
                Tells-append_at s _ t j _ _ _ refl refl y
                  (written_own s j action provider_accepted "Provider accepted write." w y)))
        ]
    Effect-Changed {s = s} {t} (noted j action payload h e) g g' =
        let w = rw actions-append_event at g' in
        elim (Bool-cases (j == i)) [
          | inr n ↦ inl (ground arith, quiet_append s s t j _ _ payload refl n)
          | inl y ↦ inr (
              inr (
                ground arith,
                ground (arith, owned_action_found s j t h, ==_iff j i),
                Tells-append_at s s t j _ _ payload refl refl y refl,
              ))
        ]
    Effect-Changed {s = s} {t} {a = a} (created proposal role context fresh new _ _) g g' = inl (
      ground (arith, get-propose_new_ne py s proposal role t context fresh i new g),
      events_of-append_event py _ t (append "act_" fresh.action_hex) "policy_evaluated" role _
            fresh.event_hex i
          ∙ rw (other_id s (append "act_" fresh.action_hex) i new g) refl,
    )
