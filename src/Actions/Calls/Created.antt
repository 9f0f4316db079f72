-- ===== src/Actions/Calls/Created.antt =====
-- A new action in the eyes of a replica: its event carries the whole record.
use Prim.Native.String.{◌++◌ as append}
use agents_reality_layer.Prelude.{
  string_eq, String, false, none, some, [], ◌∷◌, ◌++◌, ◌≡◌, refl, sym, subst, ◌∙◌, ◌==◌, ==_iff,
  beq_refl, inl, inr, Bool-cases, arith,
}
use agents_reality_layer.Dict
use agents_reality_layer.Dict.Laws.{get-put_self}
use agents_reality_layer.Json.{Platform, Object}
use agents_reality_layer.Errors.{ok}
use agents_reality_layer.Actions.Models.{ActionProposal, provider_accepted, validate_proposal}
use agents_reality_layer.Actions.Policy.{Context}
use agents_reality_layer.Actions.Events.{ActionEventRecord, dump_decision, dump_proposal}
use agents_reality_layer.Actions.Events.Roundtrip.{evaluated_dumped}
use agents_reality_layer.Actions.Audit.Append.{events_of-append_event}
use agents_reality_layer.Actions.Service.{
  StoredAction, ActionService, owned_action, events_of, next_event,
}
use agents_reality_layer.Actions.Service.Lifecycle.{Fresh, propose_new}
use agents_reality_layer.Actions.Service.Restore.{
  keep_event, holds_event, restore_proposal, restore,
}
use agents_reality_layer.Actions.Calls.{Effect, same, moved, accepted, noted, created}
use agents_reality_layer.Actions.Calls.Owned.{
  owned_action_found, get-set_status, actions-append_event, get-propose_new, new_action,
}

-- what a replica makes of the event of a proposal, whatever it held
get-restore_proposal :
    (py : Platform) (r : ActionService) (e : ActionEventRecord) (a : StoredAction)
    → e.event_type ≡ "policy_evaluated"
    → e.payload
      ≡ ("decision", dump_decision a.decision) ∷ ("proposal", dump_proposal a.proposal) ∷ []
    → e.actor_role ≡ a.proposer_role
    → e.tenant_id ≡ a.tenant_id
    → validate_proposal a.proposal ≡ ok a.proposal
    → holds_event r e.event_id ≡ false
    → Dict.get (restore py r e).1.actions e.action_id ≡ some a
unfolding restore keep_event restore_proposal Dict.get
get-restore_proposal py r e a kind payload role tenant valid new =
    rw (new, restore)
      (rw kind (
        rw (evaluated_dumped e a.proposal a.decision payload valid, restore_proposal)
          (get-put_self r.actions e.action_id _ ∙ rw (role, tenant) refl)))

module _ (py : Platform) (r : ActionService) (i : String) where
  -- One event was appended for the action, which a replica that restores it holds with the same
  -- record.
  abbrev pub Added : ActionService → ActionService → StoredAction → Type 0
  Added s s' a' =
      (e : ActionEventRecord) × (events_of s' i ≡ events_of s i ++ e ∷ [])
      × (Dict.get (restore py r e).1.actions i ≡ some a')

  -- a status is written for an action that is there
  not_written :
      (s : ActionService) (j t : String) {action : StoredAction}
      → Dict.get s.actions j ≡ some action
      → Dict.get s.actions i ≡ none
      → (j == i) ≡ false
  not_written s j t g n = ground (arith, ==_iff j i)

Added-propose_new :
    (py : Platform) (r s : ActionService) (proposal : ActionProposal) (role t : String)
    (context : Context) (fresh : Fresh)
    → holds_event r (append "evt_" fresh.event_hex) ≡ false
    → validate_proposal proposal ≡ ok proposal
    → Added py r
        (append "act_" fresh.action_hex)
        s
        (propose_new py s proposal role t context fresh).1
        (new_action py proposal role t context fresh)
unfolding propose_new next_event
Added-propose_new py r s proposal role t context fresh unknown valid =
    let i = append "act_" fresh.action_hex in
    let a = new_action py proposal role t context fresh in
    let payload : Object =
      ("decision", dump_decision a.decision) ∷ ("proposal", dump_proposal proposal) ∷ [] in
    let e = next_event py (events_of s i) t i "policy_evaluated" role payload fresh.event_hex in
    (
      e,
      events_of-append_event py _ t i "policy_evaluated" role payload fresh.event_hex i
          ∙ rw (beq_refl i) refl,
      get-restore_proposal py r e a refl refl refl refl valid unknown,
    )

-- a status is written for an action that is there
no_write :
    (s : ActionService) (i j t : String) {action : StoredAction}
    → owned_action s j t ≡ ok action
    → Dict.get s.actions i ≡ none
    → (j == i) ≡ false
no_write s i j t h n = ground (arith, owned_action_found s j t h, ==_iff j i)

pub Effect-Added :
    {py : Platform} {s : ActionService} {t hex : String} {s' : ActionService} {a' : StoredAction}
    (r : ActionService) (i : String)
    → Effect py s t hex s'
    → holds_event r (append "evt_" hex) ≡ false
    → Dict.get s.actions i ≡ none
    → Dict.get s'.actions i ≡ some a'
    → validate_proposal a'.proposal ≡ ok a'.proposal
    → Added py r i s s' a'
Effect-Added r i same unknown g g' valid = absurd (ground arith)
Effect-Added {s = s} {t} r i (moved j action status reason event_type role payload h e k) unknown g
      g' valid =
    let w = rw actions-append_event at g' in
    absurd (ground (arith, no_write s i j t h g, get-set_status s j action status reason i))
Effect-Added {s = s} {t} r i (accepted j action receipt h e n) unknown g g' valid =
    let w = rw actions-append_event at g' in
    absurd (
      ground (
        arith,
        no_write s i j t h g,
        get-set_status s j action provider_accepted "Provider accepted write." i,
      ))
Effect-Added {s = s} {t} r i (noted j action payload h e) unknown g g' valid =
    let w = rw actions-append_event at g' in absurd (ground arith)
Effect-Added {py} {s = s} {t} {s' = s'} {a' = a'} r i (created proposal role context fresh new n h)
      unknown g g' valid =
    let w = rw get-propose_new at g' in
    elim (Bool-cases (append "act_" fresh.action_hex == i)) [
      | inr m ↦ absurd (ground arith)
      | inl y ↦
          let made : new_action py proposal role t context fresh ≡ a' = ground arith in
          subst (λ x. Added py r x s (propose_new py s proposal role t context fresh).1 a')
            ((==_iff (append "act_" fresh.action_hex) i).0 y)
            (subst
              (λ x.
                Added py r (append "act_" fresh.action_hex) s
                  (propose_new py s proposal role t context fresh).1 x)
              made
              (Added-propose_new py r s proposal role t context fresh
                (subst (λ x. holds_event r (append "evt_" x) ≡ false) (sym h) unknown)
                (subst (λ x. validate_proposal x.proposal ≡ ok x.proposal) (sym made) valid)))
    ]
