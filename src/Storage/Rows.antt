-- ===== src/Storage/Rows.antt =====
-- Rows: what is read after a record was put.
use app_gocms.Prelude.{
  ◌≡◌, ◌≢◌, ◌⊎◌, inl, inr, refl, sym, ap, ◌∙◌, Error, Option, none, some, Result, ok, err, lift,
  require, Exec, ◌>>=◌, arith,
}
use app_gocms.Prelude.Errors.{continue}
use app_gocms.Text.{Text, codes, ◌==◌}
use app_gocms.Sql.{Engine, InsertLaws, StatementLaws, value_of, is_column}
use app_gocms.Domain.{text, Fields}
use app_gocms.Storage.{
  Columns, Json, row_key, row_values, conflict_key, updated_columns, upsert_row, select_row,
  table_for_record_type, set_field, get, put, columns_of, missing_record,
}

-- What the statements and `encoding/json` promise of a record that is put.
pub record RowLaws {DB : Type 0} (engine : Engine DB) (json : Json) : Type 0 where
  pub statements : InsertLaws engine
  pub unmarshal-marshal :
      (r : Fields) (payload : Text) → json.marshal r ≡ ok payload → json.unmarshal payload ≡ ok r

-- What the statements of the store do, by these promises.
module _ {DB : Type 0} {engine : Engine DB} where
  pub select-upsert :
      (laws : InsertLaws engine) (table workspace id : Text) (c : Columns) (s s' : DB)
      → upsert_row engine table workspace id c s ≡ (ok tt, s')
      → (select_row engine table workspace id s').0 ≡ ok (some c.payload)
  unfolding value_of is_column ◌==◌
  select-upsert laws table workspace id c s s' done =
      laws.select-insert table (row_values workspace id c) conflict_key updated_columns s s'
        (row_key workspace id) (codes "payload_json") c.payload done (refl, (refl, tt))
        ((workspace, refl), ((id, refl), tt)) refl refl

  -- Rows of other workspaces, of other ids and of other tables are kept.
  upsert_row_aside :
      (laws : StatementLaws engine) (table workspace id : Text) (c : Columns) (s s' : DB)
      (other_table other_workspace other : Text)
      → upsert_row engine table workspace id c s ≡ (ok tt, s')
      → other_workspace ≢ workspace
      → (select_row engine other_table other_workspace other s').0
        ≡ (select_row engine other_table other_workspace other s).0
  unfolding value_of is_column ◌==◌
  upsert_row_aside laws table workspace id c s s' other_table other_workspace other done differ =
      ap (λ p. (select_row engine other_table other_workspace other p.1).0) (sym done)
      ∙ laws.insert_elsewhere table (row_values workspace id c) conflict_key updated_columns s
          (codes "payload_json") other_table (row_key other_workspace other)
          (inr (record {
            column = codes "workspace_id";
            given = workspace;
            asked = other_workspace;
            in_key = refl;
            has = refl;
            wants = refl;
            differ = differ;
          }))

  pub upsert_row_elsewhere :
      (laws : StatementLaws engine) (table workspace id : Text) (c : Columns) (s : DB)
      (other_table other : Text)
      → (other_table ≢ table) ⊎ (other ≢ id)
      → (select_row engine other_table workspace other
          (upsert_row engine table workspace id c s).1).0
        ≡ (select_row engine other_table workspace other s).0
  unfolding value_of is_column ◌==◌
  upsert_row_elsewhere laws table workspace id c s other_table other apart =
      laws.insert_elsewhere table (row_values workspace id c) conflict_key updated_columns s
        (codes "payload_json") other_table (row_key workspace other)
        (elim apart [
          | inl t ↦ inl t
          | inr i ↦ inr (record {
            column = codes "id";
            given = id;
            asked = other;
            in_key = refl;
            has = refl;
            wants = refl;
            differ = i;
          })
        ])

module _ {DB : Type 0} (engine : Engine DB) (json : Json) (workspace : Text) where
  abbrev pub named : Text → Fields → Fields
  named id r = set_field (codes "id") (text id) r

  -- A put ends before it writes, or as its statement does.
  pub put_steps :
      (record_type id : Text) (r : Fields) (s : DB)
      → ((e : Error) × (put engine json workspace record_type id r s ≡ (err e, s)))
        ⊎ ((table : Text) × (payload : Text) × (table_for_record_type record_type ≡ ok table)
            × (json.marshal (named id r) ≡ ok payload)
            × (put engine json workspace record_type id r s
                ≡ upsert_row engine table workspace id
                    (columns_of engine json workspace record_type (named id r) payload)
                    s))
  unfolding put
  put_steps record_type id r s =
      from (table_for_record_type record_type) (json.marshal (named id r))
    where
      from :
          (t p : Result Text)
          → ((e : Error) × ((lift t >>= λ table. lift p >>= λ payload.
                    upsert_row engine table workspace id
                      (columns_of engine json workspace record_type (named id r) payload))
                  s
                ≡ (err e, s)))
            ⊎ ((table : Text) × (payload : Text) × (t ≡ ok table)
                × (p ≡ ok payload)
                × ((lift t >>= λ table. lift p >>= λ payload.
                        upsert_row engine table workspace id
                          (columns_of engine json workspace record_type (named id r) payload))
                      s
                    ≡ upsert_row engine table workspace id
                        (columns_of engine json workspace record_type (named id r) payload)
                        s))
      from (err e) p = inl (e, refl)
      from (ok t) (err e) = inl (e, refl)
      from (ok t) (ok p) = inr (t, p, refl, refl, refl)

  pub put_ok :
      (record_type id : Text) (r : Fields) (s s' : DB)
      → put engine json workspace record_type id r s ≡ (ok tt, s')
      → (table : Text) × (payload : Text) × (table_for_record_type record_type ≡ ok table)
        × (json.marshal (named id r) ≡ ok payload)
        × (upsert_row engine table workspace id
              (columns_of engine json workspace record_type (named id r) payload)
              s
            ≡ (ok tt, s'))
  put_ok record_type id r s s' h = elim (put_steps record_type id r s) [
    | inl (e, failed) ↦ absurd (ground (arith, sym failed ∙ h))
    | inr (t, p, named_table, made, same) ↦ (t, p, named_table, made, sym same ∙ h)
  ]

  abbrev unmarshal_found : Text → Text → Option Text → Exec DB Fields
  unmarshal_found record_type id found =
      require (missing_record engine json workspace record_type id) found >>= λ payload.
      lift (json.unmarshal payload)

  -- The record in a row that was selected.
  unfoldable pub row_record : Text → Text → Result (Option Text) → Result Fields
  unfolding missing_record
  row_record record_type id (err e) = err e
  row_record record_type id (ok none) = err (missing_record engine json workspace record_type id)
  row_record record_type id (ok (some payload)) = json.unmarshal payload

  pub get_row :
      (record_type id table : Text) (s : DB)
      → table_for_record_type record_type ≡ ok table
      → get engine json workspace record_type id s ≡ (
        row_record record_type id (select_row engine table workspace id s).0,
        (select_row engine table workspace id s).1,
      )
  unfolding get row_record
  get_row record_type id table s t = rw t (from (select_row engine table workspace id s).0)
    where
      from :
          (o : Result (Option Text))
          → continue o (unmarshal_found record_type id) (select_row engine table workspace id s).1
            ≡ (row_record record_type id o, (select_row engine table workspace id s).1)
      from (err e) = refl
      from (ok none) = refl
      from (ok (some payload)) = refl

  get_reads :
      (record_type id table payload : Text) (s : DB)
      → table_for_record_type record_type ≡ ok table
      → (select_row engine table workspace id s).0 ≡ ok (some payload)
      → (get engine json workspace record_type id s).0 ≡ json.unmarshal payload
  unfolding get
  get_reads record_type id table payload s t found = rw (t, found) refl

  found_alike :
      (record_type id : Text) (o : Result (Option Text)) (s t : DB)
      → (continue o (unmarshal_found record_type id) s).0
        ≡ (continue o (unmarshal_found record_type id) t).0
  found_alike record_type id (err e) s t = refl
  found_alike record_type id (ok none) s t = refl
  found_alike record_type id (ok (some payload)) s t = refl

  -- What is read depends on the rows that are selected alone.
  pub get_alike :
      (record_type id : Text) (s t : DB)
      → ((table : Text)
          → (select_row engine table workspace id t).0 ≡ (select_row engine table workspace id s).0)
      → (get engine json workspace record_type id t).0
        ≡ (get engine json workspace record_type id s).0
  unfolding get
  get_alike record_type id s t same = from (table_for_record_type record_type)
    where
      from :
          (r : Result Text)
          → ((lift r >>= λ table.
                select_row engine table workspace id >>= unmarshal_found record_type id)
              t).0
            ≡ ((lift r >>= λ table.
                  select_row engine table workspace id >>= unmarshal_found record_type id)
                s).0
      from (err e) = refl
      from (ok table) =
          ap
            (λ o.
              (continue o (unmarshal_found record_type id)
                (select_row engine table workspace id t).1).0)
            (same table)
          ∙ found_alike record_type id _ (select_row engine table workspace id t).1
              (select_row engine table workspace id s).1

module _ {DB : Type 0} (engine : Engine DB) (json : Json) (laws : RowLaws engine json) where
  -- Where the statements and the codec keep to the laws: a record that was put is read back, with
  -- the id that it was put under.
  pub get-put :
      (workspace record_type id : Text) (r : Fields) (s s' : DB)
      → put engine json workspace record_type id r s ≡ (ok tt, s')
      → (get engine json workspace record_type id s').0 ≡ ok (set_field (codes "id") (text id) r)
  get-put workspace record_type id r s s' h =
      let (table, payload, t, made, written) =
        put_ok engine json workspace record_type id r s s' h in
      get_reads engine json workspace record_type id table payload s' t
        (select-upsert laws.statements table workspace id _ s s' written)
      ∙ laws.unmarshal-marshal _ payload made

module _ {DB : Type 0} (engine : Engine DB) (json : Json) (laws : StatementLaws engine) where
  -- Where the statements keep to the laws: a record that was put into one workspace changes nothing
  -- that is read from another.
  pub get-put_other :
      (workspace other_workspace record_type other_type id other : Text) (r : Fields) (s s' : DB)
      → other_workspace ≢ workspace
      → put engine json workspace record_type id r s ≡ (ok tt, s')
      → (get engine json other_workspace other_type other s').0
        ≡ (get engine json other_workspace other_type other s).0
  get-put_other workspace other_workspace record_type other_type id other r s s' differ h =
      let (table, payload, t, made, written) =
        put_ok engine json workspace record_type id r s s' h in
      get_alike engine json other_workspace other_type other s s' (λ other_table.
        upsert_row_aside laws table workspace id _ s s' other_table other_workspace other written
          differ)
