-- ===== src/Adapters/Values.antt =====
-- Values of any type through the adapters: a value that was put is got, and what reads leaves the
-- rows alone.
use app_gocms.Prelude.{◌≡◌, refl, ap, ◌∙◌, Option, none, some, Result, ok, err, arith}
use app_gocms.Prelude.Holds.{Holds, holds_rules}
use app_gocms.Text.{codes, Text}
use app_gocms.Storage
use app_gocms.Sql.{Engine, StatementLaws}
use app_gocms.Storage.{
  select_row, select_rows, Json, RecordQuery, list_records, table_for_record_type,
}
use app_gocms.Storage.Rows.{RowLaws}
use app_gocms.Storage.Repositories.{record_repository, list_page}
use app_gocms.Adapters.{Codec, put, get, list}
use app_gocms.Adapters.Cells.{CodecLaws, from_row, put_here}
use app_gocms.Adapters.Entries.{get_still}

abbrev value_or_none : {A : Type 0} → Result (Option A) → Option A
value_or_none (ok o) = o
value_or_none (err e) = none

module _ {DB A : Type 0} (engine : Engine DB) (json : Json) (workspace : Text) (codec : Codec A)
    (record_type table : Text) (known : table_for_record_type record_type ≡ ok table) where
  -- The value that stands under an id, if one can be read.
  pub value_at : DB → Text → Option A
  value_at s id = value_or_none (
      from_row engine json workspace codec record_type id
        (select_row engine table workspace id s).0)

  pub get-value_at :
      (statements : StatementLaws engine) (id : Text) (s : DB) (a : A)
      → value_at s id ≡ some a
      → get json codec (record_repository engine json workspace record_type) id s ≡ (ok (some a), s)
  unfolding value_at
  get-value_at statements id s a found =
      get_still engine json workspace statements codec record_type table id s known
      ∙ ap (λ o. (o, s)) (is_found _ found)
    where
      is_found : (o : Result (Option A)) → value_or_none o ≡ some a → o ≡ ok (some a)
      is_found (ok o) h = ap ok h
      is_found (err e) h = absurd (ground arith)

  pub value_at-put :
      (rows : RowLaws engine json) (id_of : A → Text) (laws : CodecLaws json codec id_of) (a : A)
      (s : DB)
      → (put json codec (record_repository engine json workspace record_type) (id_of a) a s).0
        ≡ ok tt
      → value_at
          (put json codec (record_repository engine json workspace record_type) (id_of a) a s).1
          (id_of a)
        ≡ some a
  unfolding value_at
  value_at-put rows id_of laws a s written = ap value_or_none (
      put_here engine json workspace codec record_type table known (id_of a) a s rows id_of laws
        refl written)

module _ {DB A : Type 0} (engine : Engine DB) (json : Json) (workspace : Text)
    (statements : StatementLaws engine) (codec : Codec A) (s : DB) where
  abbrev Same : DB → Type 0
  Same t = t ≡ s

  selects_still : (table : Text) → Holds Same (select_rows engine table workspace)
  selects_still table = record {
    after = λ t same. statements.select_all_keeps (codes "payload_json") table _ _ t ∙ same;
  }

  listing_still : (q : RecordQuery) → Holds Same (Storage.list engine json workspace q)
  unfolding Storage.list
  listing_still q = search (holds_rules, selects_still) depth 20

  records_still : (record_type : Text) → Holds Same (list_page engine json workspace record_type)
  unfolding list_page list_records
  records_still record_type = search (holds_rules, listing_still) depth 20

  pub list_still :
      (record_type : Text)
      → Holds Same (list json codec (record_repository engine json workspace record_type))
  unfolding list
  list_still record_type = search (holds_rules, records_still) depth 20
