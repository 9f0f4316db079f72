-- ===== src/Actions/Audit/Tamper.antt =====
-- What a head hash says of the events before it.
use agents_reality_layer.Prelude.{
  ap, String, Option, none, some, List, ◌≡◌, ◌⊎◌, inl, inr, refl, length,
}
use agents_reality_layer.Json.{
  Platform, str, obj, canonicalize, insert_field, lookup_field, Value, fields_of,
}
use agents_reality_layer.Errors.{ok}
use agents_reality_layer.RealityGit.{head_hash}
use agents_reality_layer.RealityGit.Tamper.{Pairwise, Clash, check_from-Pairwise}
use agents_reality_layer.Actions.Events.{ActionEventRecord, optional}
use agents_reality_layer.Actions.Audit.{event_link, validate_event_chain}

-- Two events that are the same in every field; the order of the keys in their payloads does not
-- matter.
pub record SameEvent (e f : ActionEventRecord) : Type 0 where
  pub same_event_id : e.event_id ≡ f.event_id
  pub same_tenant_id : e.tenant_id ≡ f.tenant_id
  pub same_action_id : e.action_id ≡ f.action_id
  pub same_event_type : e.event_type ≡ f.event_type
  pub same_actor_role : e.actor_role ≡ f.actor_role
  pub same_payload :
      canonicalize (obj (fields_of e.payload)) ≡ canonicalize (obj (fields_of f.payload))
  pub same_previous_event_hash : e.previous_event_hash ≡ f.previous_event_hash
  pub same_event_hash : e.event_hash ≡ f.event_hash

-- the value that a sorted body has for a field
named : String → Value → Option Value
named k (obj fs) = lookup_field k fs
named k _ = none

optional-injective :
    (o p : Option String)
    → some (canonicalize (optional o)) ≡ some (canonicalize (optional p))
    → o ≡ p
unfolding canonicalize
optional-injective none none h = refl
optional-injective (some s) (some t) h = cc
optional-injective none (some t) h = cc
optional-injective (some s) none h = cc

text-injective : {s t : String} → some (str s) ≡ some (str t) → s ≡ t
text-injective h = cc

value-injective : {v w : Value} → some v ≡ some w → v ≡ w
value-injective h = cc

body-SameEvent :
    (e f : ActionEventRecord)
    → canonicalize (event_link.body e) ≡ canonicalize (event_link.body f)
    → e.event_hash ≡ f.event_hash
    → SameEvent e f
unfolding canonicalize insert_field named
body-SameEvent e f h k = record {
  same_event_id = text-injective (ap (named "event_id") h);
  same_tenant_id = text-injective (ap (named "tenant_id") h);
  same_action_id = text-injective (ap (named "action_id") h);
  same_event_type = text-injective (ap (named "event_type") h);
  same_actor_role = text-injective (ap (named "actor_role") h);
  same_payload = value-injective (ap (named "payload") h);
  same_previous_event_hash =
      optional-injective e.previous_event_hash f.previous_event_hash
        (ap (named "previous_event_hash") h);
  same_event_hash = k;
}

-- If two histories of one length pass the validation and end in one head hash, they are the same
-- event by event and field by field, up to the order of the keys in the payloads; or else at one
-- place they have events whose hashed contents differ and have one hash.
pub event_chain_tamper :
    (py : Platform) (es fs : List ActionEventRecord)
    → length es ≡ length fs
    → validate_event_chain py es ≡ ok tt
    → validate_event_chain py fs ≡ ok tt
    → head_hash event_link none es ≡ head_hash event_link none fs
    → Pairwise SameEvent es fs ⊎ Clash py event_link es fs
event_chain_tamper py es fs n he hf h =
    elim (check_from-Pairwise py event_link SameEvent
      (λ e f c d. let same = body-SameEvent e f c d in (same, same.same_previous_event_hash)) none
      none es fs n he hf h) [ inl (_, same) ↦ inl same | inr c ↦ inr c ]
