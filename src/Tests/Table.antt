-- ===== src/Tests/Table.antt =====
-- Rows in memory, to evaluate the record storage on: the newest first, and a text format for records
-- whose fields are texts.
use mathlib.Core.Path.{subst}
use mathlib.Core.Option.{some-injective}
use app_gocms.Prelude.{
  ℕ, zero, suc, ◌≡◌, ◌≢◌, ◌⊎◌, refl, sym, ap, ◌∙◌, inl, inr, Bool, true, false, ◌&&◌, Option, none,
  some, List, [], ◌∷◌, ◌++◌, append-nil, find, filter, not, arith, Result, ok, err, Bool-cases,
}
use app_gocms.Prelude.Errors.{ok-injective}
use app_gocms.Text.{Text, codes, ◌==◌}
use app_gocms.Text.Laws.{==_iff, ==_refl}
use app_gocms.Domain.{Fields, end, field, text, null, bool, number, array, object}
use app_gocms.Sql.{Binding, Engine, StatementLaws, IsApart, Meets, Fixes, value_of, is_column}
use app_gocms.Storage.{Json}
use app_gocms.Storage.Rows.{RowLaws}

pub record Row : Type 0 where
  pub table : Text
  pub values : List Binding

unfoldable has_value : Text → Option Text → Bool
has_value value none = false
has_value value (some given) = given == value

unfoldable satisfies : List Binding → List Binding → Bool
unfolding has_value
satisfies row [] = true
satisfies row ((column, value) ∷ conditions) =
    has_value value (value_of column row) && satisfies row conditions

abbrev is_row : Text → List Binding → Row → Bool
is_row table conditions r = r.table == table && satisfies r.values conditions

abbrev column_of : Text → Option Row → Option Text
column_of column none = none
column_of column (some r) = value_of column r.values

abbrev columns_in : Text → List Row → List Text
columns_in column [] = []
columns_in column (r ∷ rs) = elim (value_of column r.values) [
  | some value ↦ value ∷ columns_in column rs
  | none ↦ columns_in column rs
]

-- The order of the rows is not kept.
unfoldable pub rows : Engine (List Row)
unfolding satisfies value_of
rows = record {
  insert = λ table row key update s. (ok tt, record { table = table; values = row } ∷ s);
  select_all = λ column table conditions order s.
      (ok (columns_in column (filter (is_row table conditions) s)), s);
  select_one =
      λ column table conditions s. (ok (column_of column (find (is_row table conditions) s)), s);
  remove = λ table conditions s. (ok tt, filter (λ (r : Row). not (is_row table conditions r)) s);
}

-- A text as it stands in a payload, before what follows it: 0 ends a value, and 1 a key.
unfoldable pub shifted : Text → Text → Text
shifted [] rest = rest
shifted (c ∷ cs) rest = suc (suc c) ∷ shifted cs rest

abbrev pub then_fields : Text → Text → Result Text → Result Text
then_fields key value (err e) = err e
then_fields key value (ok payload) = ok (1 ∷ shifted key (0 ∷ shifted value payload))

unfoldable pub flat : Fields → Result Text
unfolding shifted
flat end = ok []
flat (field key (text value) rest) = then_fields key value (flat rest)
flat (field key null rest) = err (codes "unsupported")
flat (field key (bool b) rest) = err (codes "unsupported")
flat (field key (number n) rest) = err (codes "unsupported")
flat (field key (array vs) rest) = err (codes "unsupported")
flat (field key (object fs) rest) = err (codes "unsupported")

-- What was read from the end on: the text that is begun, the value after it, and the fields.
record Reading : Type 0 where
  begun : Text
  value : Text
  fields : Fields

abbrev step : ℕ → Reading → Reading
step zero r = record { begun = []; value = r.begun; fields = r.fields }
step (suc zero) r = record {
  begun = [];
  value = [];
  fields = field r.begun (text r.value) r.fields;
}
step (suc (suc c)) r = record r { begun = c ∷ r.begun }

reading : Text → Reading
reading [] = record { begun = []; value = []; fields = end }
reading (c ∷ cs) = step c (reading cs)

unfoldable pub unflat : Text → Fields
unfolding reading
unflat payload = (reading payload).fields

reading-shifted :
    (t rest : Text)
    → reading (shifted t rest) ≡ record (reading rest) { begun = t ++ (reading rest).begun }
unfolding reading shifted
reading-shifted [] rest = refl
reading-shifted (c ∷ cs) rest = ap (step (suc (suc c))) (reading-shifted cs rest)

abbrev ended : Fields → Reading
ended r = record { begun = []; value = []; fields = r }

reading-field :
    (key value payload : Text) (rest : Fields)
    → reading payload ≡ ended rest
    → reading (1 ∷ shifted key (0 ∷ shifted value payload)) ≡ ended (field key (text value) rest)
unfolding reading
reading-field key value payload rest h =
    rw
      (
        reading-shifted key (0 ∷ shifted value payload),
        reading-shifted value payload,
        h,
        append-nil key,
        append-nil value,
      )
      refl

reading-flat : (r : Fields) (payload : Text) → flat r ≡ ok payload → reading payload ≡ ended r
unfolding flat reading
reading-flat end payload h = rw (sym (ok-injective [] payload h)) refl
reading-flat (field key (text value) rest) payload h = from (reading-flat rest) (flat rest) refl h
  where
    from :
        ((p : Text) → flat rest ≡ ok p → reading p ≡ ended rest)
        → (o : Result Text) → flat rest ≡ o
        → then_fields key value o ≡ ok payload
        → reading payload ≡ ended (field key (text value) rest)
    from reads (ok p) is made =
        ap reading (sym (ok-injective (1 ∷ shifted key (0 ∷ shifted value p)) payload made))
        ∙ reading-field key value p rest (reads p is)
    from reads (err e) is made = absurd (ground arith)
reading-flat (field key null rest) payload h = absurd (ground arith)
reading-flat (field key (bool b) rest) payload h = absurd (ground arith)
reading-flat (field key (number n) rest) payload h = absurd (ground arith)
reading-flat (field key (array vs) rest) payload h = absurd (ground arith)
reading-flat (field key (object fs) rest) payload h = absurd (ground arith)

pub unflat-flat : (r : Fields) (payload : Text) → flat r ≡ ok payload → ok (unflat payload) ≡ ok r
unfolding unflat
unflat-flat r payload h = ap (λ (x : Reading). ok x.fields) (reading-flat r payload h)

abbrev pub format : Json
format = record { marshal = flat; unmarshal = λ payload. ok (unflat payload); sprint = λ v. [] }

differs : (a b : Text) → a ≢ b → (b == a) ≡ false
differs a b h = elim (Bool-cases (b == a)) [
  | inl e ↦ absurd (h (sym ((==_iff b a).0 e)))
  | inr e ↦ e
]

and_false : (b : Bool) → (b && false) ≡ false
and_false true = refl
and_false false = refl

satisfies-Meets :
    (row conditions : List Binding) → Meets conditions row → satisfies row conditions ≡ true
unfolding satisfies has_value
satisfies-Meets row [] h = refl
satisfies-Meets row ((column, value) ∷ conditions) (has, h) =
    rw (has, ==_refl value) (satisfies-Meets row conditions h)

satisfies-IsApart :
    (row conditions : List Binding) (column given asked : Text)
    → value_of column row ≡ some given
    → value_of column conditions ≡ some asked
    → asked ≢ given
    → satisfies row conditions ≡ false
unfolding satisfies has_value value_of
satisfies-IsApart row [] column given asked has wants differ = absurd (ground arith)
satisfies-IsApart row ((name, value) ∷ conditions) column given asked has wants differ =
    elim (Bool-cases (name == column)) [
      | inl e ↦
          let same : value ≡ asked = some-injective value asked (rw e at wants) in
          rw ((==_iff name column).0 e, has, same, differs asked given differ) refl
      | inr e ↦
          rw (satisfies-IsApart row conditions column given asked has (rw e at wants) differ)
            (and_false _)
    ]

is_row-IsApart :
    (table other_table : Text) (row conditions : List Binding) (key : List Text)
    → (other_table ≢ table) ⊎ IsApart key row conditions
    → is_row other_table conditions (record { table = table; values = row }) ≡ false
is_row-IsApart table other_table row conditions key (inl t) = rw (differs other_table table t) refl
is_row-IsApart table other_table row conditions key (inr apart) =
    rw
      (satisfies-IsApart row conditions apart.column apart.given apart.asked apart.has apart.wants
        apart.differ)
      (and_false (table == other_table))

select-insert_rows :
    (table : Text) (row : List Binding) (key update : List Text) (s s' : List Row)
    (conditions : List Binding) (column value : Text)
    → rows.insert table row key update s ≡ (ok tt, s')
    → Meets conditions row
    → Fixes conditions key
    → value_of column row ≡ some value
    → is_column column update ≡ true
    → (rows.select_one column table conditions s').0 ≡ ok (some value)
unfolding rows
select-insert_rows table row key update s s' conditions column value done meets fixed has updated =
    subst (λ z. ok (column_of column (find (is_row table conditions) z)) ≡ ok (some value))
      (ap (λ x. x.1) done) (rw (==_refl table, satisfies-Meets row conditions meets, has) refl)

pub rows-RowLaws : RowLaws rows format
unfolding flat
rows-RowLaws = record {
  statements = record { select-insert = select-insert_rows };
  unmarshal-marshal = unflat-flat;
}

elsewhere :
    (table : Text) (row : List Binding) (key update : List Text) (s : List Row)
    (column other_table : Text) (conditions : List Binding)
    → (other_table ≢ table) ⊎ IsApart key row conditions
    → (rows.select_one column other_table conditions (rows.insert table row key update s).1).0
      ≡ (rows.select_one column other_table conditions s).0
unfolding rows
elsewhere table row key update s column other_table conditions apart =
    rw (is_row-IsApart table other_table row conditions key apart) refl

pub rows-StatementLaws : StatementLaws rows
unfolding rows
rows-StatementLaws = record {
  select_keeps = λ column table conditions s. refl;
  select_all_keeps = λ column table conditions order s. refl;
  insert_elsewhere = elsewhere;
  insert_failed = λ table row key update s e failed. absurd (ground arith);
}
