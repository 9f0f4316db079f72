-- ===== src/Api/ActionReads.antt =====
-- The handlers of src/reality_layer/api/app.py that read actions, their events and their proofs.
use agents_reality_layer.Prelude.{
  string_eq, [], ◌∷◌, ◌==◌, ◌||◌, String, Option, none, some, List, if◌then◌else◌,
}
use agents_reality_layer.Errors.{Result, ok, err}
use agents_reality_layer.Actions.Models.{ActionDecision}
use agents_reality_layer.Actions.Events.{ActionEventRecord}
use agents_reality_layer.Actions.Service.Lifecycle
use agents_reality_layer.Actions.Service.Lifecycle.{Fresh, get_proposal, get_decision}
use agents_reality_layer.Dict
use agents_reality_layer.Actions.Proof.{ProofBundle, proof, text_or_none}
use agents_reality_layer.Actions.Persistence.{events_for_action}
use agents_reality_layer.Api.{App, Outside, Answer, not_found, uncaught}
use agents_reality_layer.Api.State.{restore_actions, restore_events, resolve_commit}
use agents_reality_layer.Database.{Sql}
use agents_reality_layer.WorldState.Models.{CommitRecord}
use agents_reality_layer.Api.Actions.{and_then, with_actions}

-- `ActionStatusResponse`
pub record ActionStatusResponse : Type 0 where
  pub decision : ActionDecision
  pub events : List ActionEventRecord

module _ (sql : Sql) (out : Outside) where
  -- the restored actions, whatever comes of the rest
  abbrev pub restored_or : App sql → String → Result (Unit {0}) × App sql
  restored_or app tenant_id =
      if app.settings.persistence_enabled
      then restore_actions sql out app tenant_id
      else (ok tt, app)

  -- `GET /v1/actions`
  unfoldable pub list_actions : App sql → String → Answer (List ActionDecision) × App sql
  list_actions app tenant_id =
      let (result, app') =
        and_then (restored_or app tenant_id)
          (λ _ app. (ok (Lifecycle.list_actions app.actions tenant_id), app)) in
      (uncaught result, app')

  -- `GET /v1/actions/{action_id}`
  unfoldable pub action_status : App sql → String → String → Answer ActionStatusResponse × App sql
  action_status app action_id tenant_id =
      let (result, app') = and_then (restored_or app tenant_id) (λ _ app.
        and_then (Lifecycle.events app.actions action_id tenant_id, app)
          (λ events app.
            and_then (get_decision app.actions action_id tenant_id, app)
              (λ decision app. (ok (record { decision = decision; events = events }), app)))) in
      (not_found out.py result, app')

  -- the commit that the last event of a verification names
  abbrev pub verification_commit : List ActionEventRecord → Option String
  verification_commit [] = none
  verification_commit (e ∷ rest) =
      let later = verification_commit rest in
      elim later [
        | some i ↦ some i
        | none ↦
            if e.event_type == "verified" || e.event_type == "state_diverged"
            then text_or_none (Dict.get e.payload "commit_id")
            else none
      ]

  -- the commit, if it is known
  abbrev pub known_commit : App sql → String → Option String → Option CommitRecord
  known_commit app tenant_id none = none
  known_commit app tenant_id (some commit_id) =
      elim (resolve_commit sql out app tenant_id commit_id) [
        | ok commit ↦ some commit
        | err e ↦ none
      ]

  -- `GET /v1/actions/{action_id}/proof`
  unfoldable pub action_proof : App sql → String → String → Answer ProofBundle × App sql
  unfolding proof
  action_proof app action_id tenant_id =
      let (result, app') = and_then (restored_or app tenant_id) (λ _ app.
        and_then (Lifecycle.events app.actions action_id tenant_id, app)
          (λ events app. (
            proof out.py app.actions action_id tenant_id
                (known_commit app tenant_id (verification_commit events)),
            app,
          ))) in
      (not_found out.py result, app')

  -- `GET /v1/actions/{action_id}/events`: the events of the action only are restored
  unfoldable pub action_events :
      App sql → String → String → Answer (List ActionEventRecord) × App sql
  action_events app action_id tenant_id =
      let (result, app') =
        and_then
          (if app.settings.persistence_enabled
            then with_actions app (
                restore_events out.py app.actions
                  (events_for_action sql out.py app.db tenant_id action_id))
            else (ok tt, app))
          (λ _ app. (Lifecycle.events app.actions action_id tenant_id, app)) in
      (not_found out.py result, app')
