-- ===== src/Workspaces/Grants.antt =====
-- What a workspace of src/reality_layer/workspaces.py allows: nothing when it is new, and afterwards
-- what the mode and the checks of its connectors say.
use agents_reality_layer.Prelude.{
  string_eq, nat_eq, String, Bool, true, false, Option, none, some, List, [], ◌∷◌, ◌≡◌, refl, ◌==◌,
  beq_refl, All, leb, arith, inl, inr, Option-cases, ap, subst, sym, ◌∙◌,
}
use agents_reality_layer.Prelude.Float.{Float, Conversion}
use agents_reality_layer.Prelude.Text.{truthy}
use agents_reality_layer.Prelude.Time.{DateTime}
use agents_reality_layer.Dict
use agents_reality_layer.Json.{Platform, Value, bool, Object}
use agents_reality_layer.Errors.{ok}
use agents_reality_layer.Onboarding.{holds, value_at}
use agents_reality_layer.Database.{
  Sql, Db, first, sort_by, WorkspaceMode, observe_only, ConnectorKind, Workspace, Connector,
}
use agents_reality_layer.Database.Laws.{IsSql}
use agents_reality_layer.Workspaces.{
  initialize, identifier_or, is_workspace, of_tenant, new_workspace, new_connector, add_connectors,
  primary_workspace, set_mode, policy, has_capability, is_connector, is_true, connectors_of,
  limit_of, record_connector_checks, record_checks, checked_connector, checked_name,
}

-- an id that is given is not empty
abbrev pub IsNamed : Option String → Type 0
IsNamed none = Unit
IsNamed (some i) = truthy i ≡ true

new_workspace-named :
    (t : String) (w : Option String) (hex : String) (now : DateTime)
    → IsNamed w
    → is_workspace t w (new_workspace t (identifier_or w hex) now) ≡ true
new_workspace-named t none hex now h = ground (arith, beq_refl t)
new_workspace-named t (some i) hex now h = ground (arith, beq_refl t, beq_refl i, h)

nothing_first : {A : Type 0} (rows : List A) → first rows ≡ none → rows ≡ []
nothing_first [] h = refl
nothing_first (r ∷ rows) h = cc

module _ (sql : Sql) where
  -- adding connectors touches no other table
  add_connectors-workspaces :
      (db : Db sql) (t i : String) (kinds : List ConnectorKind)
      → (add_connectors sql db t i kinds).workspaces ≡ db.workspaces
  add_connectors-workspaces db t i [] = refl
  add_connectors-workspaces db t i (kind ∷ kinds) =
      add_connectors-workspaces
        (record db { connectors = sql.insert db.connectors (new_connector t i kind) }) t i kinds

  initialize-known :
      (db : Db sql) (t : String) (w : Option String) (kinds : List ConnectorKind) (hex : String)
      (now : DateTime) {row : Workspace}
      → first (sql.select db.workspaces (is_workspace t w)) ≡ some row
      → ((initialize sql db t w kinds hex now).0.workspace_id ≡ row.workspace_id)
        × ((initialize sql db t w kinds hex now).1 ≡ db)
  unfolding initialize
  initialize-known db t w kinds hex now e = (rw (e, initialize) refl, rw (e, initialize) refl)

  -- a tenant's only workspace is its primary one
  primary_workspace-only :
      (db : Db sql) (t : String) {row : Workspace}
      → sql.select db.workspaces (of_tenant t) ≡ row ∷ []
      → primary_workspace sql db t ≡ some row
  primary_workspace-only db t e =
      ap (λ rows. first (sort_by (λ a b. leb a.created_at.micros b.created_at.micros) rows)) e

  module _ (laws : IsSql sql) where
    initialize-finds :
        (db : Db sql) (t : String) (w : Option String) (kinds : List ConnectorKind) (hex : String)
        (now : DateTime)
        → IsNamed w
        → (row : Workspace) × (first
              (sql.select (initialize sql db t w kinds hex now).1.workspaces (is_workspace t w))
            ≡ some row)
          × ((initialize sql db t w kinds hex now).0.workspace_id ≡ row.workspace_id)
    unfolding initialize
    initialize-finds db t w kinds hex now h =
        elim (Option-cases (first (sql.select db.workspaces (is_workspace t w)))) [
          | inr (row, e) ↦ rw (e, initialize) (row, e, refl)
          | inl e ↦
              let row = new_workspace t (identifier_or w hex) now in
              rw (e, initialize)
                (
                  row,
                  ap (λ ws. first (sql.select ws (is_workspace t w)))
                        (add_connectors-workspaces
                          (record db { workspaces = sql.insert db.workspaces row }) t
                          (identifier_or w hex) kinds)
                      ∙ ap first (
                          laws.select-insert_only db.workspaces row (is_workspace t w)
                            (new_workspace-named t w hex now h)
                            (nothing_first (sql.select db.workspaces (is_workspace t w)) e)),
                  refl,
                )
        ]

    -- Initializing a workspace again, under the name it was given, if any, finds the workspace of
    -- the first time and changes nothing. A name that is given is not empty.
    pub initialize_twice :
        (db : Db sql) (t : String) (w : Option String) (kinds again : List ConnectorKind)
        (hex hex' : String) (now now' : DateTime)
        → IsNamed w
        → ((initialize sql
              (initialize sql db t w kinds hex now).1
              t
              w
              again
              hex'
              now').0.workspace_id
            ≡ (initialize sql db t w kinds hex now).0.workspace_id)
          × ((initialize sql (initialize sql db t w kinds hex now).1 t w again hex' now').1
              ≡ (initialize sql db t w kinds hex now).1)
    initialize_twice db t w kinds again hex hex' now now' h =
        let (row, found, id) = initialize-finds db t w kinds hex now h in
        let (id', same) =
          initialize-known (initialize sql db t w kinds hex now).1 t w again hex' now' found in
        (id' ∙ sym id, same)

    -- After the mode of a tenant's only workspace is set, the tenant's policy has that mode; its limit
    -- is the workspace's, which is not set or a number.
    pub set_mode-policy :
        (to_float : Value → Conversion) (db : Db sql) (t : String) (mode : WorkspaceMode)
        (row : Workspace) {limit : Option Float}
        → sql.select db.workspaces (of_tenant t) ≡ row ∷ []
        → limit_of to_float (value_at row.thresholds "write_value_limit") ≡ ok limit
        → policy sql to_float (set_mode sql db t mode).1 t
          ≡ ok (record { mode = mode; value_limit = limit })
    unfolding set_mode policy
    set_mode-policy to_float db t mode row only l =
        let db' : Db sql = record db {
          workspaces =
              sql.update db.workspaces (λ r. r.workspace_id == row.workspace_id)
                (λ r. record r { mode = mode });
        } in
        let changed =
          laws.select-update_only db.workspaces (λ r. r.workspace_id == row.workspace_id)
            (of_tenant t) (λ r. record r { mode = mode }) row (λ x. refl) only
            (beq_refl row.workspace_id) in
        rw (primary_workspace-only db t only, set_mode)
          (rw (primary_workspace-only db' t changed, l, policy) refl)

    -- no connector of a new workspace has a capability
    Powerless : Connector → Type 0
    Powerless c = c.capabilities ≡ ("read", bool false) ∷ ("write", bool false) ∷ []

    add_connectors-Powerless :
        (db : Db sql) (t i : String) (kinds : List ConnectorKind) (p : Connector → Bool)
        → All Powerless (sql.select db.connectors p)
        → All Powerless (sql.select (add_connectors sql db t i kinds).connectors p)
    unfolding Powerless
    add_connectors-Powerless db t i [] p h = h
    add_connectors-Powerless db t i (kind ∷ kinds) p h =
        add_connectors-Powerless
          (record db { connectors = sql.insert db.connectors (new_connector t i kind) }) t i kinds p
          (laws.select-insert_all Powerless db.connectors (new_connector t i kind) p h refl)

    powerless :
        (cs : List Connector) (capability : String)
        → All Powerless cs
        → (elim (first cs) [ none ↦ false | some c ↦ is_true (value_at c.capabilities capability) ])
          ≡ false
    unfolding Powerless Dict.get
    powerless [] capability h = refl
    powerless (c ∷ cs) capability h = rw h.0 (ground arith)

    -- A workspace that is made for a tenant that has none, under an id that no connector has, is for
    -- observing only, without a limit of its own, and gives no connector a capability.
    pub initialize_grants_nothing :
        (to_float : Value → Conversion) (db : Db sql) (t : String) (w : Option String)
        (kinds : List ConnectorKind) (hex : String) (now : DateTime) (kind : ConnectorKind)
        (capability : String)
        → sql.select db.workspaces (is_workspace t w) ≡ []
        → sql.select db.workspaces (of_tenant t) ≡ []
        → sql.select db.connectors (is_connector t (identifier_or w hex) kind) ≡ []
        → (policy sql to_float (initialize sql db t w kinds hex now).1 t
            ≡ ok (record { mode = observe_only; value_limit = none }))
          × (has_capability sql (initialize sql db t w kinds hex now).1 t kind capability ≡ false)
    unfolding initialize policy has_capability Dict.get
    initialize_grants_nothing to_float db t w kinds hex now kind capability none_named none_tenant
          none_connected =
        let row = new_workspace t (identifier_or w hex) now in
        let db' : Db sql = record db { workspaces = sql.insert db.workspaces row } in
        let made = add_connectors sql db' t (identifier_or w hex) kinds in
        let found : primary_workspace sql made t ≡ some row = primary_workspace-only made t (
          ap (λ ws. sql.select ws (of_tenant t))
            (add_connectors-workspaces db' t (identifier_or w hex) kinds)
          ∙ laws.select-insert_only db.workspaces row (of_tenant t) (beq_refl t) none_tenant) in
        let weak : All Powerless
            (sql.select db.connectors (is_connector t (identifier_or w hex) kind)) =
          subst (λ cs. All Powerless cs) (sym none_connected) tt in
        rw (none_named, initialize)
          (
            rw (found, policy) refl,
            rw (found, has_capability)
                (powerless (sql.select made.connectors (is_connector t (identifier_or w hex) kind))
                  capability
                  (add_connectors-Powerless db' t (identifier_or w hex) kinds
                    (is_connector t (identifier_or w hex) kind) weak)),
          )

    -- After the check of a connector is recorded in a tenant's only workspace, the connector has the
    -- capability to read and the one to write exactly as the check found them.
    pub record_connector_checks-has_capability :
        (py : Platform) (db : Db sql) (t : String) (result : Object) (row : Workspace)
        (c : Connector)
        → sql.select db.workspaces (of_tenant t) ≡ row ∷ []
        → checked_name result (connectors_of sql db t row.workspace_id) ≡ some c
        → sql.select db.connectors (is_connector t row.workspace_id c.kind) ≡ c ∷ []
        → (has_capability sql (record_connector_checks sql py db t (result ∷ [])).1 t c.kind "read"
            ≡ holds (value_at result "read_capability"))
          × (has_capability sql
                (record_connector_checks sql py db t (result ∷ [])).1
                t
                c.kind
                "write"
              ≡ holds (value_at result "write_capability"))
    unfolding record_connector_checks has_capability Dict.get
    record_connector_checks-has_capability py db t result row c only named_c only_c =
        let changed =
          laws.select-update_only db.connectors (λ r. r.connector_id == c.connector_id)
            (is_connector t row.workspace_id c.kind) (checked_connector result) c (λ x. refl) only_c
            (beq_refl c.connector_id) in
        let db' : Db sql = record db {
          connectors =
              sql.update db.connectors (λ r. r.connector_id == c.connector_id)
                (checked_connector result);
        } in
        let recorded : record_connector_checks sql py db t (result ∷ []) ≡ (ok tt, db') =
          rw (primary_workspace-only db t only, record_connector_checks)
            (rw (named_c, record_checks) refl) in
        rw recorded (
          rw (primary_workspace-only db' t only, changed, has_capability)
              (is_true-bool (holds (value_at result "read_capability"))),
          rw (primary_workspace-only db' t only, changed, has_capability)
              (is_true-bool (holds (value_at result "write_capability"))),
        )
      where
        is_true-bool : (b : Bool) → is_true (bool b) ≡ b
        is_true-bool true = refl
        is_true-bool false = refl
