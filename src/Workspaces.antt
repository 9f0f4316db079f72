-- ===== src/Workspaces.antt =====
-- `WorkspaceService` of src/reality_layer/workspaces.py, over the tables of workspaces and connectors.
-- `float` of a JSON value is a parameter.
pub mod Grants
use Prim.Native.String.{◌++◌ as append}
use agents_reality_layer.Prelude.{
  nat_eq, string_eq, ℕ, String, Bool, true, false, ◌&&◌, Option, none, some, List, [], ◌∷◌, map,
  ◌==◌, leb, if◌then◌else◌,
}
use agents_reality_layer.Prelude.Float.{Float, Conversion, number, refused, overflow}
use agents_reality_layer.Prelude.Time.{DateTime}
use agents_reality_layer.Prelude.Text.{truthy}
use agents_reality_layer.Dict
use agents_reality_layer.Json.{Platform, Value, null, bool, str, Object}
use agents_reality_layer.Errors.{Result, ok, err, value_error, raised}
use agents_reality_layer.Onboarding.{holds, value_at}
use agents_reality_layer.Database.{
  Sql, Db, first, sort_by, WorkspaceMode, observe_only, demo_proposal, ConnectorKind, shopify,
  easypost, Workspace, Connector,
}

pub record WorkspaceBootstrap : Type 0 where
  pub workspace_id : String
  pub tenant_id : String
  pub mode : WorkspaceMode
  pub connector_ids : List String

pub record WorkspacePolicy : Type 0 where
  pub mode : WorkspaceMode
  pub value_limit : Option Float

pub record ConnectorStatus : Type 0 where
  pub connector_id : String
  pub kind : ConnectorKind
  pub display_name : String
  pub capabilities : Object
  pub last_check : Object

abbrev pub kind_value : ConnectorKind → String
kind_value shopify = "shopify"
kind_value easypost = "easypost"

-- `kind.value.title()`
abbrev pub kind_title : ConnectorKind → String
kind_title shopify = "Shopify"
kind_title easypost = "Easypost"

abbrev pub kind_eq : ConnectorKind → ConnectorKind → Bool
kind_eq shopify shopify = true
kind_eq easypost easypost = true
kind_eq _ _ = false

-- the conditions of the queries
abbrev pub of_tenant : String → Workspace → Bool
of_tenant tenant_id row = row.tenant_id == tenant_id

abbrev pub named : Option String → Workspace → Bool
named none row = true
named (some workspace_id) row = row.workspace_id == workspace_id

abbrev pub is_workspace : String → Option String → Workspace → Bool
is_workspace tenant_id workspace_id row = of_tenant tenant_id row && named workspace_id row

abbrev pub in_workspace : String → String → Connector → Bool
in_workspace tenant_id workspace_id row =
    row.tenant_id == tenant_id && row.workspace_id == workspace_id

abbrev pub is_connector : String → String → ConnectorKind → Connector → Bool
is_connector tenant_id workspace_id kind row =
    in_workspace tenant_id workspace_id row && kind_eq row.kind kind

abbrev pub connector_ids : List Connector → List String
connector_ids = map (λ c. c.connector_id)

-- a connector as `initialize` makes it
abbrev pub new_connector : String → String → ConnectorKind → Connector
new_connector tenant_id identifier kind = record {
  connector_id = append identifier (append "_" (kind_value kind));
  tenant_id = tenant_id;
  workspace_id = identifier;
  kind = kind;
  display_name = kind_title kind;
  capabilities = ("read", bool false) ∷ ("write", bool false) ∷ [];
  required_scopes = [];
  config_ref = append "settings:" (kind_value kind);
  last_check = [];
}

abbrev pub new_workspace : String → String → DateTime → Workspace
new_workspace tenant_id identifier now = record {
  workspace_id = identifier;
  tenant_id = tenant_id;
  mode = observe_only;
  thresholds = [];
  bounded_backfill = [];
  created_at = now;
}

-- `workspace_id or f"ws_{uuid4().hex[:16]}"`, where the id is not empty
abbrev pub identifier_or : Option String → String → String
identifier_or none hex = append "ws_" hex
identifier_or (some i) hex = if truthy i then i else append "ws_" hex

-- `{connector.kind: connector for connector in ...}[name]`: of two of one kind the later counts
abbrev pub of_kind : String → List Connector → Option Connector
of_kind name [] = none
of_kind name (c ∷ cs) = elim (of_kind name cs) [
  | some d ↦ some d
  | none ↦ if kind_value c.kind == name then some c else none
]

-- the connector that a result is about
abbrev pub checked_name : Object → List Connector → Option Connector
checked_name result connectors = elim (value_at result "connector") [
  | str name ↦ of_kind name connectors
  | _ ↦ none
]

abbrev pub checked_connector : Object → Connector → Connector
checked_connector result c = record c {
  capabilities =
      ("read", bool (holds (value_at result "read_capability")))
      ∷ ("write", bool (holds (value_at result "write_capability")))
      ∷ [];
  last_check =
      ("authenticated", bool (holds (value_at result "authenticated")))
      ∷ ("error", value_at result "error")
      ∷ [];
}

-- `capabilities.get(capability) is True`
abbrev pub is_true : Value → Bool
is_true (bool true) = true
is_true _ = false

abbrev pub limit_of : (Value → Conversion) → Value → Result (Option Float)
limit_of to_float null = ok none
limit_of to_float raw_limit = elim (to_float raw_limit) [
  | refused ↦ err (value_error "Workspace write value limit must be numeric.")
  | overflow ↦ err (raised "OverflowError")
  | number limit ↦ ok (some limit)
]

abbrev pub status_of : Connector → ConnectorStatus
status_of c = record {
  connector_id = c.connector_id;
  kind = c.kind;
  display_name = c.display_name;
  capabilities = c.capabilities;
  last_check = c.last_check;
}

module _ (sql : Sql) where
  abbrev pub connectors_of : Db sql → String → String → List Connector
  connectors_of db tenant_id workspace_id =
      sql.select db.connectors (in_workspace tenant_id workspace_id)

  abbrev pub add_connectors : Db sql → String → String → List ConnectorKind → Db sql
  add_connectors db tenant_id identifier [] = db
  add_connectors db tenant_id identifier (kind ∷ kinds) =
      add_connectors
        (record db {
          connectors = sql.insert db.connectors (new_connector tenant_id identifier kind);
        })
        tenant_id identifier kinds

  -- `initialize`; `hex` is what `uuid4` gives, `now` the time that the database puts on the row
  unfoldable pub initialize :
      Db sql
      → String
      → Option String
      → List ConnectorKind
      → String
      → DateTime
      → WorkspaceBootstrap × Db sql
  initialize db tenant_id workspace_id kinds hex now =
      elim (first (sql.select db.workspaces (is_workspace tenant_id workspace_id))) [
        | some existing ↦ (
          record {
            workspace_id = existing.workspace_id;
            tenant_id = tenant_id;
            mode = existing.mode;
            connector_ids = connector_ids (connectors_of db tenant_id existing.workspace_id);
          },
          db,
        )
        | none ↦
            let identifier = identifier_or workspace_id hex in
            let db' : Db sql = record db {
              workspaces = sql.insert db.workspaces (new_workspace tenant_id identifier now);
            } in
            (
              record {
                workspace_id = identifier;
                tenant_id = tenant_id;
                mode = observe_only;
                connector_ids =
                    map (λ kind. append identifier (append "_" (kind_value kind))) kinds;
              },
              add_connectors db' tenant_id identifier kinds,
            )
      ]

  -- `_primary_workspace`
  abbrev pub primary_workspace : Db sql → String → Option Workspace
  primary_workspace db tenant_id = first (
      sort_by (λ a b. leb a.created_at.micros b.created_at.micros)
        (sql.select db.workspaces (of_tenant tenant_id)))

  -- `set_mode`
  unfoldable pub set_mode : Db sql → String → WorkspaceMode → Result WorkspaceBootstrap × Db sql
  set_mode db tenant_id mode = elim (primary_workspace db tenant_id) [
    | none ↦ (
      err (value_error (append "No workspace is initialized for tenant " (append tenant_id "."))),
      db,
    )
    | some workspace ↦ (
      ok (record {
        workspace_id = workspace.workspace_id;
        tenant_id = tenant_id;
        mode = mode;
        connector_ids = connector_ids (connectors_of db tenant_id workspace.workspace_id);
      }),
      record db {
        workspaces =
            sql.update db.workspaces (λ row. row.workspace_id == workspace.workspace_id)
              (λ row. record row { mode = mode });
      },
    )
  ]

  -- `policy`
  unfoldable pub policy : (Value → Conversion) → Db sql → String → Result WorkspacePolicy
  policy to_float db tenant_id = elim (primary_workspace db tenant_id) [
    | none ↦ ok (record { mode = observe_only; value_limit = none })
    | some workspace ↦
        elim (limit_of to_float (value_at workspace.thresholds "write_value_limit")) [
          | err e ↦ err e
          | ok limit ↦ ok (record { mode = workspace.mode; value_limit = limit })
        ]
  ]

  -- the loop of `record_connector_checks`, over the connectors that were read before it
  abbrev pub record_checks :
      Platform → Db sql → List Connector → List Object → Result (Unit {0}) × Db sql
  record_checks py db connectors [] = (ok tt, db)
  record_checks py db connectors (result ∷ results) = elim (checked_name result connectors) [
    | none ↦ (
      err (
          value_error (
            append "Connector is not configured for workspace: "
              (append (py.repr (value_at result "connector")) "."))),
      db,
    )
    | some c ↦
        record_checks py
          (record db {
            connectors =
                sql.update db.connectors (λ row. row.connector_id == c.connector_id)
                  (checked_connector result);
          })
          connectors results
  ]

  -- `record_connector_checks`
  unfoldable pub record_connector_checks :
      Platform → Db sql → String → List Object → Result (Unit {0}) × Db sql
  record_connector_checks py db tenant_id results = elim (primary_workspace db tenant_id) [
    | none ↦ (
      err (value_error (append "No workspace is initialized for tenant " (append tenant_id "."))),
      db,
    )
    | some workspace ↦
        record_checks py db (connectors_of db tenant_id workspace.workspace_id) results
  ]

  -- `has_capability`
  unfoldable pub has_capability : Db sql → String → ConnectorKind → String → Bool
  has_capability db tenant_id kind capability = elim (primary_workspace db tenant_id) [
    | none ↦ false
    | some workspace ↦
        elim (first
          (sql.select db.connectors (is_connector tenant_id workspace.workspace_id kind))) [
            | none ↦ false
            | some connector ↦ is_true (value_at connector.capabilities capability)
          ]
  ]

  -- `connector_statuses`
  unfoldable pub connector_statuses : Db sql → String → List ConnectorStatus
  connector_statuses db tenant_id = elim (primary_workspace db tenant_id) [
    | none ↦ []
    | some workspace ↦ map status_of (connectors_of db tenant_id workspace.workspace_id)
  ]
