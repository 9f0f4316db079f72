-- ===== src/WorldState/Persistence/Roundtrip.antt =====
-- What is stored by `CompilerPersistenceService` of src/reality_layer/world_state/persistence.py is read
-- back as it was.
use agents_reality_layer.Prelude.{
  nat_eq, string_eq, String, true, some, List, [], ◌∷◌, map, ◌≡◌, refl, inl, inr, Option-cases,
  Bool-cases, ==_iff, beq_refl, arith, All, ap, sym, ◌∙◌,
}
use agents_reality_layer.Prelude.Float.{Float}
use agents_reality_layer.Prelude.Text.{truthy, not_truthy}
use agents_reality_layer.Prelude.Time.{DateTime}
use agents_reality_layer.Json.{Platform}
use agents_reality_layer.Errors.{Result, ok}
use agents_reality_layer.WorldState.Models.{
  StateAttribute, Attributes, OrderState, CommitRecord, ConflictCandidate, Conflict, dump_attribute,
}
use agents_reality_layer.WorldState.Service.{dump_attributes}
use agents_reality_layer.WorldState.Service.Queries.{or_text}
use agents_reality_layer.WorldState.Persistence.{
  read_attribute, read_attributes, read_candidate, read_candidates, dump_candidate, in_unit,
  commit_row, projection_row, conflict_row, state_of_row, to_conflict,
}
use agents_reality_layer.WorldState.Persistence.Store.{
  is_commit, is_projection, is_conflict, assign_projection, assign_conflict, save_projection,
  save_conflict, persist, load_state, load_commit, get_projection, get_conflict_row,
  persist_conflict, load_conflict,
}
use agents_reality_layer.Database.{Sql, Db, first, StateProjection, ConflictRecord}
use agents_reality_layer.Database.Laws.{IsSql, AtMostOne}
use agents_reality_layer.Actions.Events.Roundtrip.{texts_of-items_of, as_optional-optional}

-- `x or ""`
or_text_nothing : (s : String) → or_text (some s) "" ≡ s
or_text_nothing s = elim (Bool-cases (truthy s)) [
  | inl h ↦ rw h refl
  | inr h ↦ rw h (sym (not_truthy s h))
]

module _ (py : Platform) (read_time : String → Result DateTime) where
  -- JSON keeps the time, and the confidence is one that the model allows
  abbrev pub IsReadable : DateTime → Float → Type 0
  IsReadable at c = (read_time (py.isoformat at) ≡ ok at) × (in_unit c ≡ true)

  read_attribute-dump_attribute :
      (a : StateAttribute)
      → IsReadable a.observed_at a.confidence
      → read_attribute read_time (dump_attribute py a) ≡ ok a
  unfolding read_attribute dump_attribute
  read_attribute-dump_attribute a h =
      rw (h.1, h.0, texts_of-items_of a.source_observation_ids, as_optional-optional a.connector)
        refl

  read_candidate-dump_candidate :
      (c : ConflictCandidate)
      → IsReadable c.observed_at c.confidence
      → read_candidate read_time (dump_candidate py c) ≡ ok c
  unfolding read_candidate
  read_candidate-dump_candidate c h =
      rw (h.1, h.0, as_optional-optional c.connector, as_optional-optional c.observation_id) refl

  read_attributes-dump_attributes :
      (attributes : Attributes)
      → All (λ (name, a). IsReadable a.observed_at a.confidence) attributes
      → read_attributes read_time (dump_attributes py attributes) ≡ ok attributes
  read_attributes-dump_attributes [] h = refl
  read_attributes-dump_attributes ((name, a) ∷ rest) h =
      rw (read_attribute-dump_attribute a h.0, read_attributes-dump_attributes rest h.1) refl

  read_candidates-dump_candidate :
      (candidates : List ConflictCandidate)
      → All (λ c. IsReadable c.observed_at c.confidence) candidates
      → read_candidates read_time (map (dump_candidate py) candidates) ≡ ok candidates
  read_candidates-dump_candidate [] h = refl
  read_candidates-dump_candidate (c ∷ rest) h =
      rw (read_candidate-dump_candidate c h.0, read_candidates-dump_candidate rest h.1) refl

  -- the rows of a state and of a conflict
  state_of_row-projection_row :
      (state : OrderState)
      → All (λ (name, a). IsReadable a.observed_at a.confidence) state.attributes
      → state_of_row read_time state.tenant_id (projection_row py state) ≡ ok state
  state_of_row-projection_row state h =
      rw (read_attributes-dump_attributes state.attributes h, or_text_nothing state.commit_id) refl

  to_conflict-conflict_row :
      (c : Conflict)
      → All (λ x. IsReadable x.observed_at x.confidence) c.candidates
      → to_conflict read_time (conflict_row py c) ≡ ok c
  to_conflict-conflict_row c h = rw (read_candidates-dump_candidate c.candidates h) refl

module _ (sql : Sql) (laws : IsSql sql) where
  get_projection-save_projection :
      (db : Db sql) (row : StateProjection)
      → AtMostOne (sql.select db.projections (is_projection row.tenant_id row.entity_id))
      → get_projection sql (save_projection sql db row) row.tenant_id row.entity_id ≡ some row
  unfolding save_projection
  get_projection-save_projection db row (inl e) =
      rw (e, save_projection)
        (ap first (
          laws.select-insert_only db.projections row (is_projection row.tenant_id row.entity_id)
            (ground (arith, beq_refl row.tenant_id, beq_refl row.entity_id)) e))
  get_projection-save_projection db row (inr (old, e)) =
      let meets =
        laws.select-meets db.projections (is_projection row.tenant_id row.entity_id) old [] e in
      rw (e, save_projection)
        (ap first (
            laws.select-update_only db.projections (is_projection row.tenant_id row.entity_id)
              (is_projection row.tenant_id row.entity_id) (assign_projection row) old (λ x. refl) e
              meets)
          ∙ assigned old (ground (arith, meets, ==_iff old.tenant_id row.tenant_id))
              (ground (arith, meets, ==_iff old.entity_id row.entity_id)))
    where
      assigned :
          (old : StateProjection)
          → old.tenant_id ≡ row.tenant_id
          → old.entity_id ≡ row.entity_id
          → some (assign_projection row old) ≡ some row
      assigned old p q =
          ap (λ x. some (record row { tenant_id = x; entity_id = old.entity_id })) p
          ∙ ap (λ x. some (record row { entity_id = x })) q

  get_conflict_row-save_conflict :
      (db : Db sql) (row : ConflictRecord)
      → AtMostOne (sql.select db.conflicts (is_conflict row.tenant_id row.conflict_id))
      → get_conflict_row sql (save_conflict sql db row) row.tenant_id row.conflict_id ≡ some row
  unfolding save_conflict
  get_conflict_row-save_conflict db row (inl e) =
      rw (e, save_conflict)
        (ap first (
          laws.select-insert_only db.conflicts row (is_conflict row.tenant_id row.conflict_id)
            (ground (arith, beq_refl row.tenant_id, beq_refl row.conflict_id)) e))
  get_conflict_row-save_conflict db row (inr (old, e)) =
      let meets =
        laws.select-meets db.conflicts (is_conflict row.tenant_id row.conflict_id) old [] e in
      rw (e, save_conflict)
        (ap first (
            laws.select-update_only db.conflicts (is_conflict row.tenant_id row.conflict_id)
              (is_conflict row.tenant_id row.conflict_id) (assign_conflict row) old (λ x. refl) e
              meets)
          ∙ assigned old (ground (arith, meets, ==_iff old.tenant_id row.tenant_id))
              (ground (arith, meets, ==_iff old.conflict_id row.conflict_id)))
    where
      assigned :
          (old : ConflictRecord)
          → old.tenant_id ≡ row.tenant_id
          → old.conflict_id ≡ row.conflict_id
          → some (assign_conflict row old) ≡ some row
      assigned old p q =
          ap (λ x. some (record row { tenant_id = x; conflict_id = old.conflict_id })) p
          ∙ ap (λ x. some (record row { conflict_id = x })) q

  save_projection-commits :
      (db : Db sql) (row : StateProjection) → (save_projection sql db row).commits ≡ db.commits
  unfolding save_projection
  save_projection-commits db row =
      elim (Option-cases (get_projection sql db row.tenant_id row.entity_id)) [
        | inl e ↦ rw (e, save_projection) refl
        | inr (old, e) ↦ rw (e, save_projection) refl
      ]

  -- a commit that is not stored yet
  persist-new :
      (py : Platform) (read_time : String → Result DateTime) (db : Db sql) (state : OrderState)
      (commit : CommitRecord) (now : DateTime)
      → sql.select db.commits (is_commit commit.tenant_id commit.commit_id) ≡ []
      → persist sql py read_time db state commit now
        ≡ save_projection sql
            (record db { commits = sql.insert db.commits (commit_row commit now) })
            (projection_row py state)
  unfolding persist
  persist-new py read_time db state commit now new = rw (new, persist) refl

  -- A commit that is not stored yet and its state are read back as they were, after `persist`, where
  -- times and confidences of the state survive JSON and the entity has one projection at most.
  pub load_state-persist :
      (py : Platform) (read_time : String → Result DateTime) (db : Db sql) (state : OrderState)
      (commit : CommitRecord) (now : DateTime)
      → All (λ (name, a). IsReadable py read_time a.observed_at a.confidence) state.attributes
      → sql.select db.commits (is_commit commit.tenant_id commit.commit_id) ≡ []
      → AtMostOne (sql.select db.projections (is_projection state.tenant_id state.entity_id))
      → (load_state sql py read_time
            (persist sql py read_time db state commit now)
            state.tenant_id
            state.entity_id
          ≡ ok (some state))
        × (load_commit sql
              (persist sql py read_time db state commit now)
              commit.tenant_id
              commit.commit_id
            ≡ some commit)
  unfolding load_state load_commit
  load_state-persist py read_time db state commit now readable new one =
      let db' : Db sql = record db { commits = sql.insert db.commits (commit_row commit now) } in
      let row = projection_row py state in
      let is_new = is_commit commit.tenant_id commit.commit_id in
      let meets : is_new (commit_row commit now) ≡ true =
        ground (arith, beq_refl commit.tenant_id, beq_refl commit.commit_id) in
      let stored = laws.select-insert_only db.commits (commit_row commit now) is_new meets new in
      rw (persist-new py read_time db state commit now new) (
        rw
            (
              get_projection-save_projection db' row one,
              load_state,
              state_of_row-projection_row py read_time state readable,
            )
            refl,
        rw (save_projection-commits db' row, stored, load_commit) refl,
      )

  -- A conflict that is stored is read back as it was, where the times and confidences of its
  -- candidates survive JSON and the conflict has one row at most.
  pub load_conflict-persist_conflict :
      (py : Platform) (read_time : String → Result DateTime) (db : Db sql) (c : Conflict)
      → All (λ x. IsReadable py read_time x.observed_at x.confidence) c.candidates
      → AtMostOne (sql.select db.conflicts (is_conflict c.tenant_id c.conflict_id))
      → load_conflict sql py read_time
          (persist_conflict sql py read_time db c)
          c.tenant_id
          c.conflict_id
        ≡ ok (some c)
  unfolding load_conflict persist_conflict
  load_conflict-persist_conflict py read_time db c readable one =
      rw
        (
          get_conflict_row-save_conflict db (conflict_row py c) one,
          load_conflict,
          to_conflict-conflict_row py read_time c readable,
        )
        refl
