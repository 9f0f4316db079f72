-- ===== src/Api/Roles.antt =====
-- Who may change the mode of a workspace and resolve a conflict, in src/reality_layer/api/app.py.
use agents_reality_layer.Prelude.{
  nat_eq, string_eq, String, Bool, true, false, not, none, some, ◌≡◌, refl, ◌⊎◌, ◌==◌, inl, inr,
  if◌then◌else◌,
}
use agents_reality_layer.Prelude.Time.{DateTime}
use agents_reality_layer.Errors.{key_error, value_error, raised, Result, ok, err, Result-cases}
use agents_reality_layer.Api.{
  App, Outside, Answer, answer, http_exception, failed, not_found, may_operate,
}
use agents_reality_layer.Api.State.{hydrate_persisted_state}
use agents_reality_layer.Api.World.{set_workspace_mode, entity_name}
use agents_reality_layer.Api.Conflicts.{ConflictResolutionRequest, resolve_conflict, resolve_stored}
use agents_reality_layer.Database.{Sql, Db, WorkspaceMode}
use agents_reality_layer.WorldState.Models.{Conflict}
use agents_reality_layer.WorldState.Service.Conflicts
use agents_reality_layer.WorldState.Service.Conflicts.{hydrate_conflict}
use agents_reality_layer.WorldState.Persistence.Store.{load_conflict}
use agents_reality_layer.Workspaces.{set_mode}

-- the status 403
abbrev pub is_forbidden : {A : Type 0} → Answer A → Bool
is_forbidden (http_exception code detail) = code == 403
is_forbidden _ = false

-- Forbidden where it is not allowed, with the application as it was.
pub record Guarded {sql : Sql} {A : Type 0} (app : App sql) (allowed : Bool)
    (r : Answer A × App sql) : Type 0 where
  pub forbidden : is_forbidden r.0 ≡ not allowed
  pub unchanged : (r.1 ≡ app) ⊎ (allowed ≡ true)

-- the guard at the beginning of a handler
if-Guarded :
    {sql : Sql} {A : Type 0} (app : App sql) (allowed : Bool) (x y : Answer A × App sql)
    → is_forbidden x.0 ≡ true
    → x.1 ≡ app
    → is_forbidden y.0 ≡ false
    → Guarded app allowed (if not allowed then x else y)
if-Guarded app true x y f same g = record { forbidden = g; unchanged = inr refl }
if-Guarded app false x y f same g = record { forbidden = f; unchanged = inl same }

if-is_forbidden :
    {sql : Sql} {A : Type 0} (b : Bool) (x y : Answer A × App sql)
    → is_forbidden x.0 ≡ false
    → is_forbidden y.0 ≡ false
    → is_forbidden (if b then x else y).0 ≡ false
if-is_forbidden true x y h k = h
if-is_forbidden false x y h k = k

is_forbidden-not_found :
    {A : Type 0} (out : Outside) (r : Result A) → is_forbidden (not_found out.py r) ≡ false
is_forbidden-not_found out (ok a) = refl
is_forbidden-not_found out (err (key_error m)) = refl
is_forbidden-not_found out (err (value_error m)) = refl
is_forbidden-not_found out (err (raised m)) = refl

module _ (sql : Sql) (out : Outside) (app : App sql) where
  set_workspace_mode-Guarded :
      (mode : WorkspaceMode) (t role : String)
      → Guarded app (may_operate role) (set_workspace_mode sql out app mode t role)
  unfolding set_workspace_mode
  set_workspace_mode-Guarded mode t role = if-Guarded app (may_operate role) _ _ refl refl (
      if-is_forbidden (not app.settings.persistence_enabled) _ _ refl
        (elim (Result-cases (set_mode sql app.db t mode).0) [
          | inl (b, h) ↦ rw h refl
          | inr (key_error m, h) ↦ rw h refl
          | inr (value_error m, h) ↦ rw h refl
          | inr (raised m, h) ↦ rw h refl
        ]))

  is_forbidden-committed :
      (resolved : Conflict) (before : App sql) (r : Result (Db sql)) (after : Db sql → App sql)
      → is_forbidden {A = Conflict}
          (elim r as (λ x. Answer Conflict × App sql) [
            | err e ↦ (failed e, before)
            | ok db ↦ (answer resolved, after db)
          ]).0
        ≡ false
  is_forbidden-committed resolved before (ok db) after = refl
  is_forbidden-committed resolved before (err e) after = refl

  resolve_stored-allowed :
      (stored : Conflict) (i : String) (request : ConflictResolutionRequest) (t role : String)
      (now : DateTime) (hex : String)
      → is_forbidden (resolve_stored sql out app stored i request t role now hex).0 ≡ false
  unfolding resolve_stored
  resolve_stored-allowed stored i request t role now hex =
      elim (Result-cases
        (hydrate_persisted_state sql out app t (entity_name stored.entity_type stored.entity_id))) [
          | inr (e, h) ↦ rw (h, resolve_stored) refl
          | inl ((existing, app'), h) ↦
              rw (h, resolve_stored)
                (elim (Result-cases
                  (Conflicts.resolve_conflict out.py (hydrate_conflict app'.world_state stored) t i
                    request.resolved_value role request.reason now hex).0) [
                      | inr (e, k) ↦ rw k refl
                      | inl (resolved, k) ↦ rw k (is_forbidden-committed resolved _ _ _)
                    ])
        ]

  resolve_conflict-Guarded :
      (i : String) (request : ConflictResolutionRequest) (t role : String) (now : DateTime)
      (hex : String)
      → Guarded app (may_operate role) (resolve_conflict sql out app i request t role now hex)
  unfolding resolve_conflict
  resolve_conflict-Guarded i request t role now hex =
      if-Guarded app (may_operate role) _ _ refl refl (
        if-is_forbidden (not app.settings.persistence_enabled) _ _ (is_forbidden-not_found out _)
          (elim (Result-cases (load_conflict sql out.py out.read_time app.db t i)) [
            | inr (e, h) ↦ rw h refl
            | inl (none, h) ↦ rw h refl
            | inl (some stored, h) ↦ rw h (
                if-is_forbidden (stored.status == "resolved") (answer stored, app)
                  (resolve_stored sql out app stored i request t role now hex) refl
                  (resolve_stored-allowed stored i request t role now hex))
          ]))

  -- The handlers that set the mode of a workspace and that resolve a conflict answer 403 exactly when the
  -- role is none of operations, admin and system, and then they change nothing.
  pub operators_only :
      (mode : WorkspaceMode) (i : String) (request : ConflictResolutionRequest) (t role : String)
      (now : DateTime) (hex : String)
      → Guarded app (may_operate role) (set_workspace_mode sql out app mode t role)
        × Guarded app (may_operate role) (resolve_conflict sql out app i request t role now hex)
  operators_only mode i request t role now hex =
      (set_workspace_mode-Guarded mode t role, resolve_conflict-Guarded i request t role now hex)
