-- ===== src/Actions/Audit.antt =====
-- `validate_event_chain` of src/reality_layer/reality_git/validation.py, over action events.
pub mod Append
pub mod Tamper
use agents_reality_layer.Prelude.{List}
use agents_reality_layer.Json.{Platform}
use agents_reality_layer.Errors.{Result}
use agents_reality_layer.RealityGit.{Link, check_chain}
use agents_reality_layer.Actions.Events.{ActionEventRecord}
use agents_reality_layer.Actions.Service.{event_body}

abbrev pub event_link : Link ActionEventRecord
event_link = record {
  kind = "Event";
  id_of = λ e. e.event_id;
  previous = λ e. e.previous_event_hash;
  digest = λ e. e.event_hash;
  body = λ e.
      event_body e.event_id e.tenant_id e.action_id e.event_type e.actor_role e.payload
        e.previous_event_hash;
}

abbrev pub validate_event_chain : Platform → List ActionEventRecord → Result (Unit {0})
validate_event_chain py = check_chain py event_link
