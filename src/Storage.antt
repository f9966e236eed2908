-- ===== src/Storage.antt =====
-- internal/storage/sqlite/store.go and tables.go, and the record repositories of
-- internal/storage/storage.go: records of a workspace, as rows of a table. The database that runs the SQL
-- statements is an argument, and so are `encoding/json` and `fmt.Sprint`. A
-- record is the map of its fields, which is the list of the entries.
pub mod Rows
pub mod Limits
pub mod Repositories
pub mod Transactions
use app_gocms.Prelude.{
  ℕ, ℤ, pos, leb_ℤ, add64, sub64, mul64, Bool, true, false, not, ◌&&◌, Option, none, some, List, [],
  ◌∷◌, ◌++◌, length, if◌then◌else◌, Result, ok, err, Error, Exec, pure, raise, lift, require,
  fail_if, ◌>>=◌, ◌>>◌,
}
use app_gocms.Text.{Text, codes, ◌==◌, is_empty}
use app_gocms.Sql.{Binding, Engine}
use app_gocms.Text.Quote.{quote}
use app_gocms.Domain.{Value, null, text, Fields, end, field}
use app_gocms.Rest.Pagination.{slice, at_most}

unfoldable pub get_field : Text → Fields → Option Value
get_field key end = none
get_field key (field k v rest) = if k == key then some v else get_field key rest

-- `record[key] = value`
unfoldable pub set_field : Text → Value → Fields → Fields
set_field key value end = field key value end
set_field key value (field k v rest) =
    if k == key then field k value rest else field k v (set_field key value rest)

-- Record types and the names of their tables.
abbrev pub cms_tables : List (Text × Text)
cms_tables =
    (codes "post", codes "posts")
    ∷ (codes "page", codes "pages")
    ∷ (codes "content_type", codes "content_types")
    ∷ (codes "content_meta_definition", codes "content_meta_definitions")
    ∷ (codes "taxonomy", codes "taxonomies")
    ∷ (codes "term", codes "terms")
    ∷ (codes "media_asset", codes "media_assets")
    ∷ (codes "author", codes "authors")
    ∷ (codes "setting", codes "settings")
    ∷ (codes "menu", codes "menus")
    ∷ (codes "revision", codes "revisions")
    ∷ (codes "preview", codes "preview_access")
    ∷ []

table_in : List (Text × Text) → Text → Option Text
table_in [] record_type = none
table_in ((t, name) ∷ tables) record_type =
    if t == record_type then some name else table_in tables record_type

unfoldable pub table_for_record_type : Text → Result Text
unfolding table_in
table_for_record_type record_type = elim (table_in cms_tables record_type) [
  | some name ↦ ok name
  | none ↦ err (codes "unsupported AppCMS record type " ++ quote record_type)
]

-- The columns of a row besides its key.
pub record Columns : Type 0 where
  pub record_type : Text
  pub status : Text
  pub slug : Text
  pub updated_at : Text
  pub payload : Text

-- The key columns of a row: `WHERE workspace_id = ? AND id = ?`.
abbrev pub row_key : Text → Text → List Binding
row_key workspace id = (codes "workspace_id", workspace) ∷ (codes "id", id) ∷ []

-- The columns of a row that `Put` inserts, with their values.
abbrev pub row_values : Text → Text → Columns → List Binding
row_values workspace id c =
    (codes "workspace_id", workspace)
    ∷ (codes "id", id)
    ∷ (codes "record_type", c.record_type)
    ∷ (codes "status", c.status)
    ∷ (codes "slug", c.slug)
    ∷ (codes "updated_at", c.updated_at)
    ∷ (codes "payload_json", c.payload)
    ∷ []

-- `ON CONFLICT(workspace_id, id)`
abbrev pub conflict_key : List Text
conflict_key = codes "workspace_id" ∷ codes "id" ∷ []

-- `DO UPDATE SET …`
abbrev pub updated_columns : List Text
updated_columns =
    codes "record_type"
    ∷ codes "status"
    ∷ codes "slug"
    ∷ codes "updated_at"
    ∷ codes "payload_json"
    ∷ []

-- The statements of `Put`, `Get`, `List` and `Delete`.
module _ {DB : Type 0} (engine : Engine DB) (table workspace : Text) where
  abbrev pub upsert_row : Text → Columns → Exec DB (Unit {0})
  upsert_row id c = engine.insert table (row_values workspace id c) conflict_key updated_columns

  abbrev pub select_row : Text → Exec DB (Option Text)
  select_row id = engine.select_one (codes "payload_json") table (row_key workspace id)

  abbrev pub select_rows : Exec DB (List Text)
  select_rows =
      engine.select_all (codes "payload_json") table ((codes "workspace_id", workspace) ∷ [])
        (codes "id")

  abbrev pub delete_row : Text → Exec DB (Unit {0})
  delete_row id = engine.remove table (row_key workspace id)

pub record Json : Type 0 where
  pub marshal : Fields → Result Text
  pub unmarshal : Text → Result Fields
  pub sprint : Value → Text

pub record RecordQuery : Type 0 where
  pub workspace : Text
  pub record_type : Text
  pub page : ℤ
  pub per_page : ℤ

pub record PageResult : Type 0 where
  pub records : List Fields
  pub page : ℤ
  pub per_page : ℤ
  pub total_items : ℕ

-- The page and the size of a page, where none is asked for.
unfoldable pub normalize_pagination : ℤ → ℤ → ℤ × ℤ
normalize_pagination page per_page = (
  if leb_ℤ page (pos 0) then pos 1 else page,
  if leb_ℤ per_page (pos 0) then pos 50 else per_page,
)

-- The end of `List`; `none` is a panic of the slice.
unfoldable pub page_of_records : List Fields → ℤ × ℤ → Option PageResult
unfolding slice at_most
page_of_records records (page, per_page) =
    let total = pos (length records) in
    let start = at_most total (mul64 (sub64 page (pos 1)) per_page) in
    let stop = at_most total (add64 start per_page) in
    elim (slice records start stop) [
      | none ↦ none
      | some items ↦ some (record {
        records = items;
        page = page;
        per_page = per_page;
        total_items = length records;
      })
    ]

module _ {DB : Type 0} (engine : Engine DB) (json : Json) (workspace : Text) where
  string_or_empty : Option Value → Text
  string_or_empty none = []
  string_or_empty (some null) = []
  string_or_empty (some (text t)) = t
  string_or_empty (some other) = json.sprint other

  unfoldable pub string_field : Fields → Text → Text
  unfolding get_field string_or_empty
  string_field r key = string_or_empty (get_field key r)

  unfoldable pub decode_all : List Text → Result (List Fields)
  decode_all [] = ok []
  decode_all (payload ∷ payloads) =
      let rest = decode_all payloads in
      elim (json.unmarshal payload) [
        | err e ↦ err e
        | ok r ↦ elim rest [ err e ↦ err e | ok rs ↦ ok (r ∷ rs) ]
      ]

  -- A panic, in which the transaction is rolled back, is `none`.
  unfoldable pub list : RecordQuery → Exec DB (Option PageResult)
  unfolding table_for_record_type decode_all normalize_pagination page_of_records
  list q = do
    fail_if (not (is_empty q.workspace) && not (q.workspace == workspace)) (
        codes "query workspace "
        ++ (quote q.workspace ++ (codes " does not match tx workspace " ++ quote workspace)))
    table ← lift (table_for_record_type q.record_type)
    payloads ← select_rows engine table workspace
    records ← lift (decode_all payloads)
    pure (page_of_records records (normalize_pagination q.page q.per_page))

  missing_record : Text → Text → Error
  missing_record record_type id =
      record_type
      ++ (codes " record " ++ (quote id ++ (codes " not found in workspace " ++ quote workspace)))

  unfoldable pub get : Text → Text → Exec DB Fields
  unfolding table_for_record_type missing_record
  get record_type id = do
    table ← lift (table_for_record_type record_type)
    found ← select_row engine table workspace id
    payload ← require (missing_record record_type id) found
    lift (json.unmarshal payload)

  abbrev pub columns_of : Text → Fields → Text → Columns
  columns_of record_type r payload = record {
    record_type = record_type;
    status = string_field r (codes "status");
    slug = string_field r (codes "slug");
    updated_at = string_field r (codes "updated_at");
    payload = payload;
  }

  unfoldable pub put : Text → Text → Fields → Exec DB (Unit {0})
  unfolding table_for_record_type set_field
  put record_type id r = do
    table ← lift (table_for_record_type record_type)
    payload ← lift (json.marshal (set_field (codes "id") (text id) r))
    upsert_row engine table workspace id
        (columns_of record_type (set_field (codes "id") (text id) r) payload)

  unfoldable pub delete : Text → Text → Exec DB (Unit {0})
  unfolding table_for_record_type
  delete record_type id = do
    table ← lift (table_for_record_type record_type)
    delete_row engine table workspace id

  -- `recordRepository.List`: no page is asked for.
  unfoldable pub list_records : Text → Exec DB (Option PageResult)
  unfolding list
  list_records record_type =
      list (record {
        workspace = workspace;
        record_type = record_type;
        page = pos 0;
        per_page = pos 0;
      })
