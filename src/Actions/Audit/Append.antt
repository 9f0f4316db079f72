-- ===== src/Actions/Audit/Append.antt =====
-- An appended event extends a valid chain by a valid link.
use agents_reality_layer.Prelude.{
  string_eq, String, none, List, [], ◌∷◌, ◌++◌, ◌≡◌, refl, sym, ◌==◌, inl, inr, Bool-cases, arith,
  if◌then◌else◌,
}
use agents_reality_layer.Dict.Laws.{get-put}
use agents_reality_layer.Json.{Platform, Object}
use agents_reality_layer.Errors.{ok}
use agents_reality_layer.RealityGit.Chain.{check_from-snoc, head_hash-get_last?}
use agents_reality_layer.Actions.Events.{ActionEventRecord}
use agents_reality_layer.Actions.Service.{ActionService, events_of, next_event, append_event}
use agents_reality_layer.Actions.Audit.{event_link, validate_event_chain}

module _ (py : Platform) (prior : List ActionEventRecord)
    (tenant_id action_id event_type actor_role : String) (payload : Object) (hex : String) where
  pub validate-next_event :
      validate_event_chain py prior ≡ ok tt
      → validate_event_chain py
          (prior ++ next_event py prior tenant_id action_id event_type actor_role payload hex ∷ [])
        ≡ ok tt
  unfolding next_event
  validate-next_event valid =
      check_from-snoc py event_link none prior
        (next_event py prior tenant_id action_id event_type actor_role payload hex) valid
        (sym (head_hash-get_last? py event_link prior)) refl

-- The events of every action form a valid chain.
pub record ChainsValid (py : Platform) (s : ActionService) : Type 0 where
  pub at : (action_id : String) → validate_event_chain py (events_of s action_id) ≡ ok tt

-- what the appended event changes of the log
pub events_of-append_event :
    (py : Platform) (s : ActionService) (tenant_id action_id event_type role : String)
    (payload : Object) (hex j : String)
    → events_of (append_event py s tenant_id action_id event_type role payload hex) j ≡ (
        if action_id == j
        then events_of s action_id
          ++ next_event py (events_of s action_id) tenant_id action_id event_type role payload hex
            ∷ []
        else events_of s j)
unfolding append_event
events_of-append_event py s tenant_id action_id event_type role payload hex j = ground (
  arith,
  get-put s.log action_id j (
      events_of s action_id
      ++ next_event py (events_of s action_id) tenant_id action_id event_type role payload hex
        ∷ []),
)

pub ChainsValid-append_event :
    (py : Platform) (s : ActionService) (tenant_id action_id event_type role : String)
    (payload : Object) (hex : String)
    → ChainsValid py s
    → ChainsValid py (append_event py s tenant_id action_id event_type role payload hex)
ChainsValid-append_event py s tenant_id action_id event_type role payload hex v = record {
  at = λ j. rw events_of-append_event (elim (Bool-cases (action_id == j)) [
    | inl e ↦ rw e (
        validate-next_event py (events_of s action_id) tenant_id action_id event_type role payload
          hex (v.at action_id))
    | inr e ↦ rw e (v.at j)
  ]);
}
