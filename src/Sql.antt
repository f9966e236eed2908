-- ===== src/Sql.antt =====
-- The SQL statements that internal/storage/sqlite/store.go sends to its database. The database is
-- an argument: an engine that runs a statement, which is the list of its columns, its conditions and
-- its conflict key.
use app_gocms.Prelude.{
  ◌≡◌, ◌≢◌, ◌⊎◌, Bool, true, false, ◌||◌, Option, none, some, List, [], ◌∷◌, if◌then◌else◌, All, ok,
  err, Error, Exec,
}
use app_gocms.Text.{Text, ◌==◌}

-- A column and its value: one of a row that is inserted, or the test `column = ?` of a condition.
abbrev pub Binding : Type 0
Binding = Text × Text

pub record Engine (DB : Type 0) : Type 0 where
  -- `INSERT INTO table (columns) VALUES (…) ON CONFLICT(key) DO UPDATE SET` the columns of `update`
  -- to their new values.
  pub insert : (table : Text) → (row : List Binding) → (key update : List Text) → Exec DB (Unit {0})
  -- `SELECT column FROM table WHERE … ORDER BY order`
  pub select_all : (column table : Text) → List Binding → (order : Text) → Exec DB (List Text)
  -- `SELECT column FROM table WHERE …`, of which one row is read, or `sql.ErrNoRows`.
  pub select_one : (column table : Text) → List Binding → Exec DB (Option Text)
  -- `DELETE FROM table WHERE …`
  pub remove : (table : Text) → List Binding → Exec DB (Unit {0})

unfoldable pub value_of : Text → List Binding → Option Text
value_of column [] = none
value_of column ((name, value) ∷ row) = if name == column then some value else value_of column row

unfoldable pub is_column : Text → List Text → Bool
is_column column [] = false
is_column column (name ∷ names) = name == column || is_column column names

-- The row meets the conditions.
abbrev pub Meets : (conditions row : List Binding) → Type 0
Meets conditions row = All (λ (b : Binding). value_of b.0 row ≡ some b.1) conditions

-- The conditions name a value for every column of the key.
abbrev pub Fixes : (conditions : List Binding) → (key : List Text) → Type 0
Fixes conditions key = All (λ c. (v : Text) × (value_of c conditions ≡ some v)) key

-- Of some column of the key, the conditions ask for another value than the row has.
pub record IsApart (key : List Text) (row conditions : List Binding) : Type 0 where
  pub column : Text
  pub given : Text
  pub asked : Text
  pub in_key : is_column column key ≡ true
  pub has : value_of column row ≡ some given
  pub wants : value_of column conditions ≡ some asked
  pub differ : asked ≢ given

-- What a successful insert promises: the conditions that name the whole key, and that the row
-- meets, select this row; and a column that the update sets has the value that was inserted.
pub record InsertLaws {DB : Type 0} (engine : Engine DB) : Type 0 where
  pub select-insert :
      (table : Text) (row : List Binding) (key update : List Text) (s s' : DB)
      (conditions : List Binding) (column value : Text)
      → engine.insert table row key update s ≡ (ok tt, s')
      → Meets conditions row
      → Fixes conditions key
      → value_of column row ≡ some value
      → is_column column update ≡ true
      → (engine.select_one column table conditions s').0 ≡ ok (some value)

-- What the statements promise besides: a selection leaves the rows alone, an insert touches, of its
-- table, at most a row of its own key, and one that fails changes none.
pub record StatementLaws {DB : Type 0} (engine : Engine DB) : Type 0 where
  pub select_keeps :
      (column table : Text) (conditions : List Binding) (s : DB)
      → (engine.select_one column table conditions s).1 ≡ s
  pub select_all_keeps :
      (column table : Text) (conditions : List Binding) (order : Text) (s : DB)
      → (engine.select_all column table conditions order s).1 ≡ s
  pub insert_elsewhere :
      (table : Text) (row : List Binding) (key update : List Text) (s : DB)
      (column other_table : Text) (conditions : List Binding)
      → (other_table ≢ table) ⊎ IsApart key row conditions
      → (engine.select_one column other_table conditions (engine.insert table row key update s).1).0
        ≡ (engine.select_one column other_table conditions s).0
  pub insert_failed :
      (table : Text) (row : List Binding) (key update : List Text) (s : DB) (e : Error)
      → (engine.insert table row key update s).0 ≡ err e
      → (column other_table : Text) (conditions : List Binding)
      → (engine.select_one column other_table conditions (engine.insert table row key update s).1).0
        ≡ (engine.select_one column other_table conditions s).0
