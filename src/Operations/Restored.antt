-- ===== src/Operations/Restored.antt =====
-- What an import of a snapshot restores in the rows of a workspace.
use app_gocms.Prelude.{◌≡◌, ◌≢◌, refl, sym, ap, ◌∙◌, inl, inr, [], if◌then◌else◌, Result, ok}
use mathlib.Core.Path.{subst}
use app_gocms.Prelude.Errors.{ok-injective}
use app_gocms.Text.{Text, codes, ◌==◌}
use app_gocms.Domain.{Fields}
use app_gocms.Sql.{Engine, StatementLaws}
use app_gocms.Storage.{Json, select_row, table_for_record_type, get, put}
use app_gocms.Storage.Rows.{
  RowLaws, named, put_ok, get_row, row_record, get-put, get_alike, upsert_row_elsewhere,
}
use app_gocms.Storage.Repositories.{Repository, repositories, record_repository}
use app_gocms.Operations.{Snapshot, id_of, import_snapshot}
use app_gocms.Operations.Collections.{
  Collection, content_types, taxonomies, terms, authors, posts, pages, media, settings, menus,
  items_of, repo_of, PutLaws,
}
use app_gocms.Operations.Imports.{last_with, import_snapshot_exact}

-- The type of the records of a collection, and their table.
abbrev pub type_of : Collection → Text
type_of content_types = codes "content_type"
type_of taxonomies = codes "taxonomy"
type_of terms = codes "term"
type_of authors = codes "author"
type_of posts = codes "post"
type_of pages = codes "page"
type_of media = codes "media_asset"
type_of settings = codes "setting"
type_of menus = codes "menu"

abbrev table_of : Collection → Text
table_of content_types = codes "content_types"
table_of taxonomies = codes "taxonomies"
table_of terms = codes "terms"
table_of authors = codes "authors"
table_of posts = codes "posts"
table_of pages = codes "pages"
table_of media = codes "media_assets"
table_of settings = codes "settings"
table_of menus = codes "menus"

known : (c : Collection) → table_for_record_type (type_of c) ≡ ok (table_of c)
unfolding table_for_record_type ◌==◌
known content_types = refl
known taxonomies = refl
known terms = refl
known authors = refl
known posts = refl
known pages = refl
known media = refl
known settings = refl
known menus = refl

abbrev of_table : Text → Collection
of_table name =
    if name == codes "content_types"
    then content_types
    else if name == codes "taxonomies"
    then taxonomies
    else if name == codes "terms"
    then terms
    else if name == codes "authors"
    then authors
    else if name == codes "posts"
    then posts
    else if name == codes "pages"
    then pages
    else if name == codes "media_assets"
    then media
    else if name == codes "settings"
    then settings
    else menus

of_table-table_of : (c : Collection) → of_table (table_of c) ≡ c
unfolding ◌==◌
of_table-table_of content_types = refl
of_table-table_of taxonomies = refl
of_table-table_of terms = refl
of_table-table_of authors = refl
of_table-table_of posts = refl
of_table-table_of pages = refl
of_table-table_of media = refl
of_table-table_of settings = refl
of_table-table_of menus = refl

module _ {DB : Type 0} (engine : Engine DB) (json : Json) (workspace : Text) where
  repo_of_type :
      (c : Collection)
      → repo_of (repositories engine json workspace) c
        ≡ record_repository engine json workspace (type_of c)
  repo_of_type content_types = refl
  repo_of_type taxonomies = refl
  repo_of_type terms = refl
  repo_of_type authors = refl
  repo_of_type posts = refl
  repo_of_type pages = refl
  repo_of_type media = refl
  repo_of_type settings = refl
  repo_of_type menus = refl

  -- What `Get` returns of a collection.
  abbrev pub read_of : Collection → DB → Text → Result Fields
  read_of c s id = (get engine json workspace (type_of c) id s).0

  put_of :
      (c : Collection) (id : Text) (r : Fields) (s s' : DB)
      → (repo_of (repositories engine json workspace) c).put id r s ≡ (ok tt, s')
      → put engine json workspace (type_of c) id r s ≡ (ok tt, s')
  put_of c id r s s' h =
      subst (λ (p : Repository DB Fields). p.put id r s ≡ (ok tt, s')) (repo_of_type c) h

  -- The record with the id that `Put` sets.
  abbrev pub restored : (Fields → Text → Text) → Fields → Result Fields
  restored field r = ok (named engine json workspace (id_of field r) r)

  module _ (field : Fields → Text → Text) (statements : StatementLaws engine)
      (rows : RowLaws engine json) where
    other_id_kept :
        (c : Collection) (other id : Text) (r : Fields) (s s' : DB)
        → put engine json workspace (type_of c) id r s ≡ (ok tt, s')
        → other ≢ id
        → read_of c s' other ≡ read_of c s other
    other_id_kept c other id r s s' h differ =
        let (table, payload, t, made, written) =
          put_ok engine json workspace (type_of c) id r s s' h in
        get_alike engine json workspace (type_of c) other s s' λ other_table.
          ap (λ p. (select_row engine other_table workspace other p.1).0) (sym written)
          ∙ upsert_row_elsewhere statements table workspace id _ s other_table other (inr differ)

    read_row :
        (c : Collection) (s : DB) (id : Text)
        → read_of c s id
          ≡ row_record engine json workspace
              (type_of c)
              id
              (select_row engine (table_of c) workspace id s).0
    read_row c s id =
        ap (λ p. p.0) (get_row engine json workspace (type_of c) id (table_of c) s (known c))

    elsewhere_kept :
        (c d : Collection) (other id : Text) (r : Fields) (s s' : DB)
        → put engine json workspace (type_of c) id r s ≡ (ok tt, s')
        → c ≢ d
        → read_of d s' other ≡ read_of d s other
    elsewhere_kept c d other id r s s' h apart =
        let (table, payload, t, made, written) =
          put_ok engine json workspace (type_of c) id r s s' h in
        let same : table ≡ table_of c = ok-injective table (table_of c) (sym t ∙ known c) in
        let tables_differ : table_of d ≢ table = λ e.
          apart (sym (sym (of_table-table_of d) ∙ ap of_table (e ∙ same) ∙ of_table-table_of c)) in
        read_row d s' other
        ∙ ap (row_record engine json workspace (type_of d) other) (
            ap (λ p. (select_row engine (table_of d) workspace other p.1).0) (sym written)
            ∙ upsert_row_elsewhere statements table workspace id _ s (table_of d) other
                (inl tables_differ))
        ∙ sym (read_row d s other)

    puts : PutLaws field (repositories engine json workspace) (restored field) read_of
    puts = record {
      here = λ c r s s' h.
          get-put engine json rows workspace (type_of c) (id_of field r) r s s'
            (put_of c (id_of field r) r s s' h);
      other_id = λ c other r s s' h differ.
          other_id_kept c other (id_of field r) r s s' (put_of c (id_of field r) r s s' h) differ;
      elsewhere = λ c d other r s s' h apart.
          elsewhere_kept c d other (id_of field r) r s s' (put_of c (id_of field r) r s s' h) apart;
    }

    -- Over SQL statements and a JSON codec that keep to their documented laws: after an import that
    -- succeeds, `Get` on each collection of the workspace returns, for an id that is not empty, the
    -- last record of the bundle's collection that has this id, with the id set; and where the bundle
    -- has none, what it returned before.
    pub import_snapshot_restores :
        (snapshot : Snapshot Fields) (c : Collection) (id : Text) (s s' : DB)
        → id ≢ []
        → import_snapshot field (repositories engine json workspace) snapshot s ≡ (ok tt, s')
        → read_of c s' id
          ≡ last_with field (restored field) id (items_of snapshot c) (read_of c s id)
    import_snapshot_restores snapshot c id s s' named_id h =
        import_snapshot_exact field (repositories engine json workspace) (restored field) read_of
          puts snapshot c id s s' named_id h
