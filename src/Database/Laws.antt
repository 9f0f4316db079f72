-- ===== src/Database/Laws.antt =====
-- What the program relies on of the database, and a database of lists that has it.
use agents_reality_layer.Prelude.{
  Bool, true, false, List, [], ◌∷◌, ◌++◌, ◌≡◌, refl, ◌⊎◌, filter, if◌then◌else◌, arith, inl, inr,
  Bool-cases, ap, All, subst, sym, ◌∙◌,
}
use mathlib.Core.List.{perm_append_singleton}
use mathlib.Core.List.{Perm}
use agents_reality_layer.Database.{Sql}

-- The documented behaviour: a query selects rows that meet its condition; an inserted row is
-- selected, with what was selected before and in any order, by the conditions that it meets and by
-- no others; a single row that an update picks is selected afterwards as it was changed; rows that
-- neither meet a condition before an update nor after it do not matter to it.
pub record IsSql (sql : Sql) : Type 1 where
  pub select-meets :
      {Row : Type 0} (t : sql.Table Row) (p : Row → Bool) (r : Row) (rs : List Row)
      → sql.select t p ≡ r ∷ rs
      → p r ≡ true
  pub select-insert_miss :
      {Row : Type 0} (t : sql.Table Row) (r : Row) (p : Row → Bool)
      → p r ≡ false
      → sql.select (sql.insert t r) p ≡ sql.select t p
  pub select-insert_hit :
      {Row : Type 0} (t : sql.Table Row) (r : Row) (p : Row → Bool)
      → p r ≡ true
      → Perm (sql.select (sql.insert t r) p) (r ∷ sql.select t p)
  pub select-insert_only :
      {Row : Type 0} (t : sql.Table Row) (r : Row) (p : Row → Bool)
      → p r ≡ true
      → sql.select t p ≡ []
      → sql.select (sql.insert t r) p ≡ r ∷ []
  pub select-insert_all :
      {Row : Type 0} (P : Row → Type 0) (t : sql.Table Row) (r : Row) (p : Row → Bool)
      → All P (sql.select t p)
      → P r
      → All P (sql.select (sql.insert t r) p)
  pub select-update_only :
      {Row : Type 0} (t : sql.Table Row) (q p : Row → Bool) (f : Row → Row) (r : Row)
      → ((x : Row) → p (f x) ≡ p x)
      → sql.select t p ≡ r ∷ []
      → q r ≡ true
      → sql.select (sql.update t q f) p ≡ f r ∷ []
  pub select-update_miss :
      {Row : Type 0} (t : sql.Table Row) (q p : Row → Bool) (f : Row → Row)
      → ((x : Row) → q x ≡ true → p x ≡ false)
      → ((x : Row) → p (f x) ≡ p x)
      → sql.select (sql.update t q f) p ≡ sql.select t p

-- tables as lists in the order of insertion
abbrev pub update_rows {ℓ} : {Row : Type ℓ} → List Row → (Row → Bool) → (Row → Row) → List Row
update_rows [] q f = []
update_rows (r ∷ rs) q f = (if q r then f r else r) ∷ update_rows rs q f

abbrev pub list_sql : Sql
list_sql = record {
  Table = List;
  select = λ t p. filter p t;
  insert = λ t r. t ++ r ∷ [];
  update = update_rows;
}

module _ {Row : Type 0} where
  filter-insert_miss :
      (t : List Row) (r : Row) (p : Row → Bool) → p r ≡ false → filter p (t ++ r ∷ []) ≡ filter p t
  filter-insert_miss [] r p h = ground (arith, h)
  filter-insert_miss (x ∷ t) r p h = ground (arith, filter-insert_miss t r p h)

  filter-insert_end :
      (t : List Row) (r : Row) (p : Row → Bool)
      → p r ≡ true
      → filter p (t ++ r ∷ []) ≡ filter p t ++ r ∷ []
  filter-insert_end [] r p h = ground (arith, h)
  filter-insert_end (x ∷ t) r p h = ground (arith, filter-insert_end t r p h)

  filter-insert_hit :
      (t : List Row) (r : Row) (p : Row → Bool)
      → p r ≡ true
      → Perm (filter p (t ++ r ∷ [])) (r ∷ filter p t)
  filter-insert_hit t r p h =
      subst (λ rows. Perm rows (r ∷ filter p t)) (sym (filter-insert_end t r p h))
        (perm_append_singleton r (filter p t))

  filter-insert_only :
      (t : List Row) (r : Row) (p : Row → Bool)
      → p r ≡ true
      → filter p t ≡ []
      → filter p (t ++ r ∷ []) ≡ r ∷ []
  filter-insert_only [] r p h e = ground (arith, h)
  filter-insert_only (x ∷ t) r p h e = ground (arith, filter-insert_only t r p h)

  -- rows changed in place, of which a condition picks the same ones
  filter-update :
      (t : List Row) (q p : Row → Bool) (f : Row → Row)
      → ((x : Row) → p (f x) ≡ p x)
      → filter p (update_rows t q f) ≡ update_rows (filter p t) q f
  filter-update [] q p f h = refl
  filter-update (x ∷ t) q p f h = ground (arith, filter-update t q p f h, h x)

  -- rows that an update does not pick
  update-filter_miss :
      (t : List Row) (q p : Row → Bool) (f : Row → Row)
      → ((x : Row) → q x ≡ true → p x ≡ false)
      → update_rows (filter p t) q f ≡ filter p t
  update-filter_miss [] q p f h = refl
  update-filter_miss (x ∷ t) q p f h = ground (arith, update-filter_miss t q p f h, h x)

  filter-first :
      (t : List Row) (p : Row → Bool) (r : Row) (rs : List Row) → filter p t ≡ r ∷ rs → p r ≡ true
  filter-first [] p r rs e = ground (arith, e)
  filter-first (x ∷ t) p r rs e = elim (Bool-cases (p x)) [
    | inl h ↦ subst (λ y. p y ≡ true) (heads (cut h ∙ e)) h
    | inr h ↦ filter-first t p r rs (ground (arith, h, e))
  ]
    where
      heads : {a b : Row} {xs ys : List Row} → a ∷ xs ≡ b ∷ ys → a ≡ b
      heads h = cc

      cut : p x ≡ true → x ∷ filter p t ≡ filter p (x ∷ t)
      cut h = ground (arith, h)

  filter-insert-All :
      (P : Row → Type 0) (t : List Row) (r : Row) (p : Row → Bool)
      → All P (filter p t)
      → P r
      → All P (filter p (t ++ r ∷ []))
  filter-insert-All P [] r p h k = elim (Bool-cases (p r)) [
    | inl e ↦ rw e (k, tt)
    | inr e ↦ rw e tt
  ]
  filter-insert-All P (x ∷ t) r p h k = elim (Bool-cases (p x)) [
    | inl e ↦
        let h' : P x × All P (filter p t) =
          subst (λ b. All P (elim b [ true ↦ x ∷ filter p t | false ↦ filter p t ])) e h in
        rw e (h'.0, filter-insert-All P t r p h'.1 k)
    | inr e ↦
        let h' : All P (filter p t) =
          subst (λ b. All P (elim b [ true ↦ x ∷ filter p t | false ↦ filter p t ])) e h in
        rw e (filter-insert-All P t r p h' k)
  ]

  update_rows-select :
      (t : List Row) (q p : Row → Bool) (f : Row → Row) (r : Row)
      → ((x : Row) → p (f x) ≡ p x)
      → filter p t ≡ r ∷ []
      → q r ≡ true
      → filter p (update_rows t q f) ≡ f r ∷ []
  update_rows-select t q p f r h e k =
      filter-update t q p f h ∙ (ap (λ rows. update_rows rows q f) e ∙ picked)
    where
      picked : update_rows (r ∷ []) q f ≡ f r ∷ []
      picked = ground (arith, k)

pub list_sql-IsSql : IsSql list_sql
list_sql-IsSql = record {
  select-meets = filter-first;
  select-insert_miss = filter-insert_miss;
  select-insert_hit = filter-insert_hit;
  select-insert_only = filter-insert_only;
  select-insert_all = filter-insert-All;
  select-update_only = update_rows-select;
  select-update_miss = λ t q p f h k. filter-update t q p f k ∙ update-filter_miss t q p f h;
}

-- What a condition on the primary key selects: one row at most.
abbrev pub AtMostOne : {Row : Type 0} → List Row → Type 0
AtMostOne {Row = Row} rows = (rows ≡ []) ⊎ ((r : Row) × (rows ≡ r ∷ []))
