-- ===== src/Api/Reread.antt =====
-- What `POST /v1/actions/{action_id}/verify` of src/reality_layer/api/app.py makes of an order that the
-- connector has read before: the observation keeps its id, so the read is not taken.
use agents_reality_layer.Prelude.{string_eq, pair_eq, triple_eq, String, true, some}
use agents_reality_layer.Errors.{Result}
use agents_reality_layer.Actions.Models.{ActionDecision}
use agents_reality_layer.Actions.Service.Lifecycle
use agents_reality_layer.Dict
use agents_reality_layer.Api.{App, Answer, Outside, not_found_or_conflict}
use agents_reality_layer.Api.Actions.{and_then, with_actions, with_world}
use agents_reality_layer.Database.{Sql}
use agents_reality_layer.WorldState.Models.{OrderState}
use agents_reality_layer.WorldState.Service.{WorldStateService}

module _ (sql : Sql) (out : Outside) where
  -- the handler's answer and effect where it judges the state
  abbrev pub judged_by :
      App sql → String → String → String → OrderState → Answer ActionDecision × App sql
  judged_by app i t event_hex state = (
    not_found_or_conflict out.py
        (Lifecycle.verify out.py app.actions i t (some state) true event_hex).0,
    record app {
      actions = (Lifecycle.verify out.py app.actions i t (some state) true event_hex).1;
    },
  )

  -- the rest of the handler after the read was taken, or refused
  after_ingest :
      App sql
      → String
      → String
      → String
      → Result OrderState × WorldStateService
      → Result ActionDecision × App sql
  after_ingest app i t event_hex r = and_then (with_world app r) (λ state app'.
      with_actions app' (Lifecycle.verify out.py app'.actions i t (some state) true event_hex))
