-- ===== src/Database.antt =====
-- src/reality_layer/db/: the rows of src/reality_layer/db/models.py, as far as the program reads and
-- writes them, and the tables of a session. SQLAlchemy and the database are a parameter: what a query
-- selects, in which order, and what an insert or an update of rows makes of a table. A transaction that
-- is rolled back leaves the database of before.
pub mod Laws
use Prim.Native.String.{compare}
use Prim.Native.Nat.{Ordering}
use agents_reality_layer.Prelude.{
  nat_eq, ℕ, true, false, ◌&&◌, ◌||◌, ◌==◌, ltb, if◌then◌else◌, String, Bool, Option, none, some,
  List, [], ◌∷◌,
}
use agents_reality_layer.Prelude.Time.{DateTime}
use agents_reality_layer.Json.{Value, Object}
use agents_reality_layer.Connectors.Intake.{ObservationLog}

-- `select(model).where(...)`, `session.add(row)` and the assignment of columns of the rows that a
-- condition picks, each with its flush.
pub record Sql : Type 1 where
  pub Table : Type 0 → Type 0
  pub select : {Row : Type 0} → Table Row → (Row → Bool) → List Row
  pub insert : {Row : Type 0} → Table Row → Row → Table Row
  pub update : {Row : Type 0} → Table Row → (Row → Bool) → (Row → Row) → Table Row

-- `ORDER BY`: a stable sort of what is selected
abbrev pub insert_by {ℓ} : {A : Type ℓ} → (A → A → Bool) → A → List A → List A
insert_by le x [] = x ∷ []
insert_by le x (y ∷ ys) = let rest = insert_by le x ys in if le x y then x ∷ y ∷ ys else y ∷ rest

abbrev pub sort_by {ℓ} : {A : Type ℓ} → (A → A → Bool) → List A → List A
sort_by le [] = []
sort_by le (x ∷ xs) = insert_by le x (sort_by le xs)

-- the order of texts, and of times with texts for the times that are equal
abbrev pub text_le : String → String → Bool
text_le a b = elim (compare a b) [ Ordering.gt ↦ false | _ ↦ true ]

abbrev pub time_text_le : DateTime × String → DateTime × String → Bool
time_text_le (a, i) (b, j) = ltb a.micros b.micros || (a.micros == b.micros && text_le i j)

-- `.first()`
abbrev pub first {ℓ} : {A : Type ℓ} → List A → Option A
first [] = none
first (x ∷ xs) = some x

pub data WorkspaceMode : Type 0 where
  observe_only demo_proposal : WorkspaceMode

pub data ConnectorKind : Type 0 where
  shopify easypost : ConnectorKind

pub record Workspace : Type 0 where
  pub workspace_id : String
  pub tenant_id : String
  pub mode : WorkspaceMode
  pub thresholds : Object
  pub bounded_backfill : Object
  pub created_at : DateTime

pub record Connector : Type 0 where
  pub connector_id : String
  pub tenant_id : String
  pub workspace_id : String
  pub kind : ConnectorKind
  pub display_name : String
  pub capabilities : Object
  pub required_scopes : List String
  pub config_ref : String
  pub last_check : Object

pub record StateProjection : Type 0 where
  pub tenant_id : String
  pub entity_id : String
  pub entity_type : String
  pub attributes : Object
  pub confidence : Object
  pub freshness : Object
  pub provenance : List String
  pub producing_commit_id : Option String
  pub state_version : ℕ

pub record CommitLog : Type 0 where
  pub tenant_id : String
  pub commit_id : String
  pub parent_commit_id : Option String
  pub entity_type : String
  pub entity_id : String
  pub actor : Object
  pub cause : String
  pub observation_ids : List String
  pub action_id : Option String
  pub mapping_version : String
  pub before : Object
  pub after : Object
  pub semantic_diff : Object
  pub assurance_level : String
  pub previous_hash : Option String
  pub hash : String
  pub created_at : DateTime

pub record ActionEvent : Type 0 where
  pub tenant_id : String
  pub event_id : String
  pub action_id : String
  pub event_type : String
  pub schema_version : String
  pub actor : Object
  pub correlation_id : String
  pub payload : Object
  pub evidence_refs : List Value
  pub previous_event_hash : Option String
  pub event_hash : String

pub record ConflictRecord : Type 0 where
  pub tenant_id : String
  pub conflict_id : String
  pub entity_type : String
  pub entity_id : String
  pub attribute : String
  pub candidates : List Value
  pub status : String
  pub detected_at : DateTime
  pub resolved_value : Option Value
  pub resolved_by : Option String
  pub resolved_at : Option DateTime
  pub resolution_reason : Option String

-- the tables that a session sees
pub record Db (sql : Sql) : Type 0 where
  pub workspaces : sql.Table Workspace
  pub connectors : sql.Table Connector
  pub observations : sql.Table ObservationLog
  pub projections : sql.Table StateProjection
  pub commits : sql.Table CommitLog
  pub events : sql.Table ActionEvent
  pub conflicts : sql.Table ConflictRecord
