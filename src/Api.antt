-- ===== src/Api.antt =====
-- `create_app` of src/reality_layer/api/app.py: the state that the handlers share, the answers they give,
-- and the helpers that read and write the database for them. A handler gets its own session: what it
-- leaves in the database is kept when it commits, and is that of before when it raises.
pub mod State
pub mod World
pub mod Conflicts
pub mod Actions
pub mod Execution
pub mod ActionReads
pub mod Cancels
pub mod Reread
pub mod Roles
pub mod Stored
pub mod Proposed
use agents_reality_layer.Prelude.{string_eq, ℕ, String, Bool, Option, List, [], ◌∷◌, any, ◌==◌}
use agents_reality_layer.Prelude.Float.{Float, Conversion}
use agents_reality_layer.Prelude.Time.{DateTime}
use agents_reality_layer.Json.{Platform, Value, str}
use agents_reality_layer.Errors.{Error, key_error, value_error, raised, Result, ok, err}
use agents_reality_layer.Actions.Service.{ActionService}
use agents_reality_layer.Connectors.{Library, CancelledOrders}
use agents_reality_layer.Connectors.Intake.{StoredObject}
use agents_reality_layer.Database.{Sql, Db}
use agents_reality_layer.WorldState.Models.{Observation}
use agents_reality_layer.WorldState.Service.{WorldStateService}

-- what the application reads of its settings
pub record AppSettings : Type 0 where
  pub persistence_enabled : Bool
  pub workspace_mode : String
  pub write_value_limit : Option Float

-- What comes from libraries: `float` of a JSON value; a time of JSON;
-- `model_dump_json` of an observation, as bytes; the object store's `put_raw_payload`.
pub record Outside : Type 0 where
  pub py : Platform
  pub library : Library
  pub to_float : Value → Conversion
  pub read_time : String → Result DateTime
  pub model_dump_json : Observation → String
  pub put_raw_payload : String → String → String → Result StoredObject

-- the objects that `create_app` makes, and the database
pub record App (sql : Sql) : Type 0 where
  pub settings : AppSettings
  pub actions : ActionService
  pub world_state : WorldStateService
  pub shopify : CancelledOrders
  pub db : Db sql

-- What a handler gives: its answer, an `HTTPException` with its status code and detail, or an exception
-- that no handler catches.
pub data Answer {ℓ} (A : Type ℓ) : Type ℓ where
  answer : A → Answer A
  http_exception : ℕ → String → Answer A
  failed : Error → Answer A

module _ (py : Platform) where
  -- `except KeyError as exc: raise HTTPException(status_code=404, detail=str(exc))`
  abbrev pub not_found {ℓ} : {A : Type ℓ} → Result A → Answer A
  not_found (ok a) = answer a
  not_found (err (key_error m)) = http_exception 404 (py.repr (str m))
  not_found (err e) = failed e

  -- with `except ValueError as exc: raise HTTPException(status_code=409, detail=str(exc))`
  abbrev pub not_found_or_conflict {ℓ} : {A : Type ℓ} → Result A → Answer A
  not_found_or_conflict (ok a) = answer a
  not_found_or_conflict (err (key_error m)) = http_exception 404 (py.repr (str m))
  not_found_or_conflict (err (value_error m)) = http_exception 409 m
  not_found_or_conflict (err (raised m)) = failed (raised m)

-- an exception that is not caught
abbrev pub uncaught {ℓ} : {A : Type ℓ} → Result A → Answer A
uncaught (ok a) = answer a
uncaught (err e) = failed e

-- `x_reality_role in {"operations", "admin", "system"}`
abbrev pub may_operate : String → Bool
may_operate role = any (λ r. r == role) ("operations" ∷ "admin" ∷ "system" ∷ [])
