-- ===== src/Api/Stored.antt =====
-- What the handlers of src/reality_layer/api/app.py that write an action have stored when they answer.
use agents_reality_layer.Prelude.{
  string_eq, String, Bool, true, false, none, some, List, [], ◌∷◌, ◌≡◌, refl, sym, subst, ap, ◌∙◌,
  ==_iff, arith, All, inl, inr, Bool-cases, Option-cases,
}
use agents_reality_layer.Prelude.Time.{DateTime}
use agents_reality_layer.Errors.{key_error, value_error, raised, Result, ok, err, Result-cases}
use agents_reality_layer.Actions.Models.{ApprovalRequest}
use agents_reality_layer.Actions.Events.{ActionEventRecord}
use agents_reality_layer.Actions.Service.{owned_action, events_of}
use agents_reality_layer.Actions.Service.Lifecycle.{events}
use agents_reality_layer.Actions.Persistence.{
  get_event, persist_event, get_event-persist_event, persist_all, event_row, is_event,
}
use agents_reality_layer.Api.{
  App, AppSettings, Outside, Answer, answer, not_found, not_found_or_conflict,
}
use agents_reality_layer.Api.State.{persist_action_events}
use agents_reality_layer.Api.Actions.{
  commit_action, committed_if_persistent, rolled_back, approve_action, reject_action,
}
use agents_reality_layer.Api.Execution.{execute_action, verify_action}
use agents_reality_layer.Database.{Sql, Db, first, ActionEvent}
use agents_reality_layer.Database.Laws.{IsSql}
use agents_reality_layer.WorldState.Service.Ingest.{Fresh}

-- a handler came to its answer
abbrev pub answered : {A : Type 0} → Answer A → Bool
answered (answer a) = true
answered _ = false

-- the requests that write an action
pub data Request : Type 0 where
  approving : ApprovalRequest → String → String → Request
  rejecting : ApprovalRequest → String → Request
  executing : String → String → Request
  verifying : Fresh → String → String → DateTime → Request

-- whether a request about an action was answered, and what it leaves
unfoldable pub handle : (sql : Sql) → Outside → App sql → String → String → Request → Bool × App sql
unfolding approve_action reject_action execute_action verify_action
handle sql out app i t (approving approval role hex) =
    let (r, app') = approve_action sql out app i approval role t hex in (answered r, app')
handle sql out app i t (rejecting rejection hex) =
    let (r, app') = reject_action sql out app i rejection t hex in (answered r, app')
handle sql out app i t (executing hex request_hex) =
    let (r, app') = execute_action sql out app i t hex request_hex in (answered r, app')
handle sql out app i t (verifying fresh hex event_hex now) =
    let (r, app') = verify_action sql out app i t fresh hex event_hex now in (answered r, app')

answered-not_found :
    {A : Type 0} (out : Outside) (r : Result A)
    → answered (not_found out.py r) ≡ true
    → (a : A) × (r ≡ ok a)
answered-not_found out (ok a) h = (a, refl)
answered-not_found out (err (key_error m)) h = cc
answered-not_found out (err (value_error m)) h = cc
answered-not_found out (err (raised m)) h = cc

answered-not_found_or_conflict :
    {A : Type 0} (out : Outside) (r : Result A)
    → answered (not_found_or_conflict out.py r) ≡ true
    → (a : A) × (r ≡ ok a)
answered-not_found_or_conflict out (ok a) h = (a, refl)
answered-not_found_or_conflict out (err (key_error m)) h = cc
answered-not_found_or_conflict out (err (value_error m)) h = cc
answered-not_found_or_conflict out (err (raised m)) h = cc

module _ (sql : Sql) where
  -- an event has a row
  abbrev pub IsStored : Db sql → ActionEventRecord → Type 0
  IsStored db e = (row : ActionEvent) × (get_event sql db e.tenant_id e.event_id ≡ some row)

  module _ (laws : IsSql sql) where
    -- persisting an event keeps the rows of the others
    get_event-persist_event_kept :
        (db : Db sql) (e : ActionEventRecord) (t i : String) {row : ActionEvent}
        → get_event sql db t i ≡ some row
        → get_event sql (persist_event sql db e) t i ≡ some row
    unfolding persist_event
    get_event-persist_event_kept db e t i h =
        elim (Option-cases (get_event sql db e.tenant_id e.event_id)) [
          | inr (old, f) ↦ rw (f, persist_event) h
          | inl f ↦ elim (Bool-cases (is_event t i (event_row e))) [
            | inr miss ↦
                rw (f, persist_event)
                  (ap first (laws.select-insert_miss db.events (event_row e) (is_event t i) miss)
                    ∙ h)
            | inl hit ↦
                let p : e.tenant_id ≡ t = (==_iff e.tenant_id t).0 (ground (arith, hit)) in
                let q : e.event_id ≡ i = (==_iff e.event_id i).0 (ground (arith, hit)) in
                absurd (
                  differ (
                    sym f
                    ∙ (ap (λ x. get_event sql db x e.event_id) p
                        ∙ (ap (get_event sql db t) q ∙ h))))
          ]
        ]
      where
        differ : {A : Type 0} {x : A} → none ≡ some x → ⊥
        differ k = cc

    IsStored-persist_all :
        (db : Db sql) (es : List ActionEventRecord) (e : ActionEventRecord)
        → IsStored db e
        → IsStored (persist_all sql db es) e
    IsStored-persist_all db [] e h = h
    IsStored-persist_all db (x ∷ es) e (row, h) =
        IsStored-persist_all (persist_event sql db x) es e
          (row, get_event-persist_event_kept db x e.tenant_id e.event_id h)

    persist_all-IsStored :
        (db : Db sql) (es : List ActionEventRecord) → All (IsStored (persist_all sql db es)) es
    persist_all-IsStored db [] = tt
    persist_all-IsStored db (e ∷ es) = (
      IsStored-persist_all (persist_event sql db e) es e (get_event-persist_event sql laws db e),
      persist_all-IsStored (persist_event sql db e) es,
    )

    module _ (out : Outside) where
      -- every event that the application keeps of an action has a row
      abbrev pub AllStored : App sql → String → Type 0
      AllStored app i = All (IsStored app.db) (events_of app.actions i)

      commit_action-AllStored :
          {A : Type 0} (t i : String) (r : Result A × App sql) {a : A}
          → (commit_action sql out t i r).0 ≡ ok a
          → AllStored (commit_action sql out t i r).1 i
      unfolding persist_action_events events
      commit_action-AllStored t i (err e, app) = λ h. cc
      commit_action-AllStored t i (ok a, app) = elim (Result-cases (owned_action app.actions i t)) [
        | inr (e, o) ↦ rw (o, commit_action, persist_action_events, events) (λ h. cc)
        | inl (action, o) ↦
            rw (o, commit_action, persist_action_events, events)
              (λ h. persist_all-IsStored app.db (events_of app.actions i))
      ]

      pub committed-AllStored :
          {A : Type 0} (settings : AppSettings) (t i : String) (r : Result A × App sql) {a : A}
          → settings.persistence_enabled ≡ true
          → (committed_if_persistent sql out settings t i r).0 ≡ ok a
          → AllStored (committed_if_persistent sql out settings t i r).1 i
      committed-AllStored settings t i r p = rw p (commit_action-AllStored t i r)

      -- a session that is committed is not rolled back
      rolled_back-ok :
          {A : Type 0} (db : Db sql) (r : Result A) (app : App sql) {a : A}
          → r ≡ ok a
          → rolled_back db r app ≡ app
      rolled_back-ok db (ok a) app h = refl
      rolled_back-ok db (err e) app h = cc

      -- With persistence, when a request to approve, reject, execute or verify an action is answered, every
      -- event that the application keeps of the action has a row.
      pub handle-AllStored :
          (app : App sql) (i t : String) (q : Request)
          → app.settings.persistence_enabled ≡ true
          → (handle sql out app i t q).0 ≡ true
          → AllStored (handle sql out app i t q).1 i
      unfolding handle
      handle-AllStored app i t (approving approval role hex) p h =
          let (d, k) = answered-not_found out _ h in committed-AllStored app.settings t i _ p k
      handle-AllStored app i t (rejecting rejection hex) p h =
          let (d, k) = answered-not_found out _ h in committed-AllStored app.settings t i _ p k
      handle-AllStored app i t (executing hex request_hex) p h =
          let (d, k) = answered-not_found_or_conflict out _ h in
          committed-AllStored app.settings t i _ p k
      handle-AllStored app i t (verifying fresh hex event_hex now) p h =
          let (d, k) = answered-not_found_or_conflict out _ h in
          subst (λ x. AllStored x i) (sym (rolled_back-ok app.db _ _ k))
            (committed-AllStored app.settings t i _ p k)
