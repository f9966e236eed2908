-- ===== src/Adapters/Cells.antt =====
-- One value in the rows of a table: what a look-up of an adapter reads, and what a write of another
-- changes of it.
use mathlib.Core.Path.{subst}
use app_gocms.Prelude.{
  ◌≡◌, ◌≢◌, ◌⊎◌, refl, sym, ap, ◌∙◌, inl, inr, Option, some, Result, ok, err, Error, Exec, lift,
  ◌>>=◌, arith,
}
use app_gocms.Prelude.Errors.{ok-injective}
use app_gocms.Text.{Text, codes}
use app_gocms.Domain.{Fields, text}
use app_gocms.Sql.{Engine, StatementLaws}
use app_gocms.Storage
use app_gocms.Storage.{
  Json, Columns, row_key, upsert_row, select_row, set_field, table_for_record_type, columns_of,
}
use app_gocms.Storage.Rows.{
  RowLaws, select-upsert, upsert_row_elsewhere, row_record, get_row, named,
}
use app_gocms.Storage.Rows
use app_gocms.Storage.Repositories.{record_repository}
use app_gocms.Adapters.{Codec, to_record, from_record, read_record, as_found, put, get}

-- What `encoding/json` promises of a type: a value that was written as a record, to which its id was
-- added as the field "id", is read back.
pub record CodecLaws {A : Type 0} (json : Json) (codec : Codec A) (id_of : A → Text) : Type 0 where
  pub from-to :
      (value : A) (r : Fields)
      → to_record json codec value ≡ ok r
      → from_record json codec (set_field (codes "id") (text (id_of value)) r) ≡ ok value

module _ {DB A : Type 0} (engine : Engine DB) (json : Json) (workspace : Text)
    (codec : Codec A) where
  -- The value in a row that was selected.
  unfoldable pub from_row : Text → Text → Result (Option Text) → Result (Option A)
  unfolding read_record from_record row_record
  from_row record_type id o =
      read_record json codec (row_record engine json workspace record_type id o)

  pub get_cell :
      (record_type id table : Text) (s : DB)
      → table_for_record_type record_type ≡ ok table
      → get json codec (record_repository engine json workspace record_type) id s ≡ (
        from_row record_type id (select_row engine table workspace id s).0,
        (select_row engine table workspace id s).1,
      )
  unfolding get from_row
  get_cell record_type id table s t =
      ap (λ p. (read_record json codec p.0, p.1))
        (get_row engine json workspace record_type id table s t)

  read_record_ok :
      (r : Fields) (value : A)
      → from_record json codec r ≡ ok value
      → read_record json codec (ok r) ≡ ok (some value)
  unfolding read_record
  read_record_ok r value h = ap as_found h

  abbrev columns : Text → Text → Fields → Text → Columns
  columns record_type id r payload =
      columns_of engine json workspace record_type (named engine json workspace id r) payload

  module _ (record_type table : Text) (known : table_for_record_type record_type ≡ ok table)
      (id : Text) (value : A) (s : DB) where
    abbrev write : Exec DB (Unit {0})
    write = put json codec (record_repository engine json workspace record_type) id value

    -- A write ends before its statement, or as the statement does.
    data Outcome : Type 0 where
      stopped : (e : Error) → write s ≡ (err e, s) → Outcome
      done :
          (r : Fields) (payload : Text)
          → to_record json codec value ≡ ok r
          → json.marshal (named engine json workspace id r) ≡ ok payload
          → write s ≡ upsert_row engine table workspace id (columns record_type id r payload) s
          → Outcome

    outcome_from :
        (o : Result Fields)
        → to_record json codec value ≡ o
        → write s ≡ (lift o >>= Storage.put engine json workspace record_type id) s
        → Outcome
    outcome_from (err e) made same = stopped e same
    outcome_from (ok r) made same = elim (Rows.put_steps engine json workspace record_type id r s) [
      | inl (e, failed) ↦ stopped e (same ∙ failed)
      | inr (t, payload, named_table, encoded, up) ↦ done r payload made encoded (
          same
          ∙ up
          ∙ ap (λ t'. upsert_row engine t' workspace id (columns record_type id r payload) s)
              (ok-injective t table (sym named_table ∙ known)))
    ]

    outcome : Outcome
    unfolding put
    outcome = outcome_from (to_record json codec value) refl refl

    module _ (laws : StatementLaws engine) where
      pub put_elsewhere :
          (other_table other : Text)
          → (other_table ≢ table) ⊎ (other ≢ id)
          → (select_row engine other_table workspace other (write s).1).0
            ≡ (select_row engine other_table workspace other s).0
      put_elsewhere other_table other apart = elim outcome [
        | stopped e same ↦ rw same refl
        | done r payload made encoded same ↦
            rw same (upsert_row_elsewhere laws table workspace id _ s other_table other apart)
      ]

      pub put_failed :
          (e : Error)
          → (write s).0 ≡ err e
          → (other_table other : Text)
          → (select_row engine other_table workspace other (write s).1).0
            ≡ (select_row engine other_table workspace other s).0
      put_failed e failed other_table other = elim outcome [
        | stopped x same ↦ rw same refl
        | done r payload made encoded same ↦ rw same (
            laws.insert_failed table _ _ _ s e (ap (λ p. p.0) (sym same) ∙ failed)
              (codes "payload_json") other_table (row_key workspace other))
      ]

    module _ (rows : RowLaws engine json) (id_of : A → Text)
        (codec_laws : CodecLaws json codec id_of) (own : id_of value ≡ id) where
      pub put_here :
          (write s).0 ≡ ok tt
          → from_row record_type id (select_row engine table workspace id (write s).1).0
            ≡ ok (some value)
      unfolding from_row row_record
      put_here written = elim outcome [
        | stopped e same ↦ absurd (ground (arith, sym (ap (λ p. p.0) same) ∙ written))
        | done r payload made encoded same ↦
            let ends : (upsert_row engine table workspace id (columns record_type id r payload) s).0
                ≡ ok tt =
              ap (λ p. p.0) (sym same) ∙ written in
            let read : from_record json codec (named engine json workspace id r) ≡ ok value =
              subst (λ k. from_record json codec (named engine json workspace k r) ≡ ok value) own
                (codec_laws.from-to value r made) in
            rw
              (
                same,
                select-upsert rows.statements table workspace id (columns record_type id r payload)
                    s _
                    (λ i. (
                      ends i,
                      (upsert_row engine table workspace id (columns record_type id r payload) s).1,
                    )),
                rows.unmarshal-marshal _ payload encoded,
              )
              (read_record_ok (named engine json workspace id r) value read)
      ]
