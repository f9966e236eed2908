-- ===== src/Adapters/Refines.antt =====
-- The adapters over the rows of a workspace keep to what the services and the REST handlers rely on.
use app_gocms.Prelude.{
  ◌≡◌, refl, sym, ap, inl, inr, false, ◌||◌, Option, List, [], ◌∷◌, ◌++◌, All, All-append,
  Bool-cases, ok, pure, ◌>>=◌,
}
use app_gocms.Prelude.Errors.{ok-injective, bind_ok}
use app_gocms.Prelude.Holds.{Holds, holds_rules}
use app_gocms.Text.{Text, codes, ◌==◌, is_empty}
use app_gocms.Text.Laws.{==_iff}
use app_gocms.Domain.{Entry, Query, Access, Revision, kind_post, kind_page}
use app_gocms.Sql.{Engine, StatementLaws}
use app_gocms.Storage.{Json, table_for_record_type}
use app_gocms.Storage.Rows.{RowLaws}
use app_gocms.Adapters.{
  Codec, Codecs, Host, Source, get, list, asked, list_from, list_entries, sources_of, list_terms,
  get_menu_by_location, with_content_kind, application_repositories, get_entry,
}
use app_gocms.Storage.Repositories.{record_repository, repositories}
use app_gocms.Adapters.Cells.{CodecLaws}
use app_gocms.Adapters.Entries.{entry_at, PostsInOrder, get_still, from_posts}
use app_gocms.Adapters.Saves.{HostLaws, workspace_env, entry_laws, save_laws}
use app_gocms.Adapters.Values.{value_at, get-value_at, value_at-put, list_still}
use app_gocms.Content.Lifecycle.{EntryLaws}
use app_gocms.Content.Effects.{SaveLaws}
use app_gocms.Services.Previews.{PreviewLaws}
use app_gocms.Services.Revisions.RoundTrip.{RevisionLaws}
use app_gocms.Rest.Authorization.{ReadOnly}
use app_gocms.Rest.Visibility.{ListLaws}

abbrev HasStatus : Query → Entry → Type 0
HasStatus q e = e.status ≡ q.status

asked-HasStatus :
    (q : Query) (kind : Text) (es : List Entry)
    → is_empty q.status ≡ false
    → All (HasStatus q) (asked q kind es)
unfolding asked
asked-HasStatus q kind [] named = tt
asked-HasStatus q kind (e ∷ es) named =
    elim (Bool-cases ((with_content_kind e kind).status == q.status)) [
      | inl same ↦
          rw (named, same)
            (
              (==_iff (with_content_kind e kind).status q.status).0 same,
              asked-HasStatus q kind es named,
            )
      | inr other ↦ rw (named, other) (asked-HasStatus q kind es named)
    ]

module _ {S : Type 0} (json : Json) (codec : Codec Entry) (q : Query)
    (named : is_empty q.status ≡ false) where
  list_from-HasStatus :
      (sources : List (Source S)) (s : S) (items : List Entry)
      → (list_from json codec q sources s).0 ≡ ok items
      → All (HasStatus q) items
  unfolding list_from
  list_from-HasStatus [] s items h = rw (sym (ok-injective [] items h)) tt
  list_from-HasStatus ((repo, kind) ∷ sources) s items h =
      let (own, listed, rest) =
        bind_ok (list json codec repo)
          (λ own. list_from json codec q sources >>= λ others. pure (asked q kind own ++ others)) s
          items h in
      let (others, listed_others, whole) =
        bind_ok (list_from json codec q sources) (λ others. pure (asked q kind own ++ others))
          (list json codec repo s).1 items rest in
      rw (sym (ok-injective (asked q kind own ++ others) items whole)) (
        All-append (HasStatus q) (asked q kind own) others (asked-HasStatus q kind own named)
          (list_from-HasStatus sources _ others listed_others))

pub previews_known : table_for_record_type (codes "preview") ≡ ok (codes "preview_access")
unfolding table_for_record_type ◌==◌
previews_known = refl

authors_known : table_for_record_type (codes "author") ≡ ok (codes "authors")
unfolding table_for_record_type ◌==◌
authors_known = refl

assets_known : table_for_record_type (codes "media_asset") ≡ ok (codes "media_assets")
unfolding table_for_record_type ◌==◌
assets_known = refl

content_types_known : table_for_record_type (codes "content_type") ≡ ok (codes "content_types")
unfolding table_for_record_type ◌==◌
content_types_known = refl

pub revisions_known : table_for_record_type (codes "revision") ≡ ok (codes "revisions")
unfolding table_for_record_type ◌==◌
revisions_known = refl

module _ {DB : Type 0} (engine : Engine DB) (json : Json) (workspace : Text) (codecs : Codecs) where
  abbrev pub access_at : DB → Text → Option Access
  access_at =
      value_at engine json workspace codecs.access (codes "preview") (codes "preview_access")
        previews_known

  abbrev pub revision_at : DB → Text → Option Revision
  revision_at =
      value_at engine json workspace codecs.revision (codes "revision") (codes "revisions")
        revisions_known

module _ {DB : Type 0} (engine : Engine DB) (json : Json) (workspace : Text) (codecs : Codecs)
    (host : Host DB) (statements : StatementLaws engine) where
  list_laws : ListLaws (workspace_env engine json workspace codecs host)
  unfolding application_repositories list_entries
  list_laws = record {
    status = λ q s items named listed.
        list_from-HasStatus json codecs.entry q named
          (sources_of json codecs (repositories engine json workspace) q) s items listed;
  }

  preview_laws :
      RowLaws engine json
      → CodecLaws json codecs.access (λ (a : Access). a.token)
      → PreviewLaws
          (workspace_env engine json workspace codecs host)
          (access_at engine json workspace codecs)
  unfolding application_repositories
  preview_laws rows laws = record {
    get_reads =
        get-value_at engine json workspace codecs.access (codes "preview") (codes "preview_access")
          previews_known statements;
    save_ok =
        value_at-put engine json workspace codecs.access (codes "preview") (codes "preview_access")
          previews_known rows (λ (a : Access). a.token) laws;
  }

  revision_laws :
      RowLaws engine json
      → CodecLaws json codecs.revision (λ (r : Revision). r.id)
      → RevisionLaws
          (workspace_env engine json workspace codecs host)
          (revision_at engine json workspace codecs)
  unfolding application_repositories
  revision_laws rows laws = record {
    get_reads =
        get-value_at engine json workspace codecs.revision (codes "revision") (codes "revisions")
          revisions_known statements;
    save_ok =
        value_at-put engine json workspace codecs.revision (codes "revision") (codes "revisions")
          revisions_known rows (λ (r : Revision). r.id) laws;
  }

  get_leaves :
      {A : Type 0} (codec : Codec A) (record_type table id : Text) (s : DB)
      → table_for_record_type record_type ≡ ok table
      → (get json codec (record_repository engine json workspace record_type) id s).1 ≡ s
  get_leaves codec record_type table id s known =
      ap (λ p. p.1) (get_still engine json workspace statements codec record_type table id s known)

  list_leaves :
      {A : Type 0} (codec : Codec A) (record_type : Text) (s : DB)
      → (list json codec (record_repository engine json workspace record_type) s).1 ≡ s
  list_leaves codec record_type s =
      (list_still engine json workspace statements codec s record_type).after s refl

  entries_still :
      (s : DB) (record_type : Text)
      → Holds
          (λ t. t ≡ s)
          (list json codecs.entry (record_repository engine json workspace record_type))
  entries_still s = list_still engine json workspace statements codecs.entry s

  list_entries_still :
      (q : Query) (s : DB)
      → Holds (λ t. t ≡ s) (list_entries json codecs (repositories engine json workspace) q)
  unfolding list_entries sources_of list_from
  list_entries_still q s = elim (Bool-cases (is_empty q.kind || q.kind == kind_post)) [
    | inl posts ↦ elim (Bool-cases (is_empty q.kind || q.kind == kind_page)) [
      | inl pages ↦ rw (posts, pages) (search (holds_rules, entries_still) depth 20)
      | inr pages ↦ rw (posts, pages) (search (holds_rules, entries_still) depth 20)
    ]
    | inr posts ↦ elim (Bool-cases (is_empty q.kind || q.kind == kind_page)) [
      | inl pages ↦ rw (posts, pages) (search (holds_rules, entries_still) depth 20)
      | inr pages ↦ rw (posts, pages) (search holds_rules)
    ]
  ]

  listed_still :
      {A : Type 0} (codec : Codec A) (s : DB) (record_type : Text)
      → Holds (λ t. t ≡ s) (list json codec (record_repository engine json workspace record_type))
  listed_still codec s = list_still engine json workspace statements codec s

  terms_still :
      (taxonomy_type : Text) (s : DB)
      → Holds
          (λ t. t ≡ s)
          (list_terms json codecs (repositories engine json workspace) taxonomy_type)
  unfolding list_terms
  terms_still taxonomy_type s = search (holds_rules, listed_still codecs.term s) depth 20

  menu_still :
      (location : Text) (s : DB)
      → Holds
          (λ t. t ≡ s)
          (get_menu_by_location json codecs (repositories engine json workspace) location)
  unfolding get_menu_by_location
  menu_still location s = search (holds_rules, listed_still codecs.menu s) depth 20

  read_only : ReadOnly (workspace_env engine json workspace codecs host)
  unfolding application_repositories get_entry
  read_only = record {
    get = λ id s. ap (λ p. p.1) (from_posts engine json workspace statements codecs.entry id s);
    list = λ q s. (list_entries_still q s).after s refl;
    content_types = λ s. list_leaves codecs.content_type (codes "content_type") s;
    content_type = λ id s.
        get_leaves codecs.content_type (codes "content_type") (codes "content_types") id s
          content_types_known;
    settings = λ s. list_leaves codecs.setting (codes "setting") s;
    user = λ id s. get_leaves codecs.user (codes "author") (codes "authors") id s authors_known;
    terms = λ t s. (terms_still t s).after s refl;
    asset = λ id s.
        get_leaves codecs.asset (codes "media_asset") (codes "media_assets") id s assets_known;
    assets = λ s. list_leaves codecs.asset (codes "media_asset") s;
    menus = λ s. list_leaves codecs.menu (codes "menu") s;
    menu = λ location s. (menu_still location s).after s refl;
  }

  -- Over SQL statements and JSON codecs that keep to their documented laws: the repositories of the
  -- services, as the adapters make them of the rows of a workspace, keep to all that the theorems on
  -- the services and the REST handlers rely on. A look-up by an id shows the entry that a successful
  -- save wrote, a failed save changes nothing, other entries stay, what reads changes nothing, a
  -- list by a status holds entries of that status only, and preview accesses and revisions are read
  -- back. The one condition, that no row of the posts holds an entry of another kind, is kept by
  -- every save.
  pub application_repositories_refine :
      HostLaws engine host
      → RowLaws engine json
      → CodecLaws json codecs.entry (λ (e : Entry). e.id)
      → CodecLaws json codecs.access (λ (a : Access). a.token)
      → CodecLaws json codecs.revision (λ (r : Revision). r.id)
      → EntryLaws
          (workspace_env engine json workspace codecs host)
          (entry_at engine json workspace codecs.entry)
        × SaveLaws
            (workspace_env engine json workspace codecs host)
            (entry_at engine json workspace codecs.entry)
            (PostsInOrder engine json workspace codecs.entry)
        × ReadOnly (workspace_env engine json workspace codecs host)
        × ListLaws (workspace_env engine json workspace codecs host)
        × PreviewLaws
            (workspace_env engine json workspace codecs host)
            (access_at engine json workspace codecs)
        × RevisionLaws
            (workspace_env engine json workspace codecs host)
            (revision_at engine json workspace codecs)
  application_repositories_refine clock rows entries accesses revisions = (
    entry_laws engine json workspace codecs host statements clock rows entries,
    save_laws engine json workspace codecs host statements clock rows entries,
    read_only,
    list_laws,
    preview_laws rows accesses,
    revision_laws rows revisions,
  )
