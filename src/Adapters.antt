-- ===== src/Adapters.antt =====
-- internal/storage/adapters.go: the repositories of the application services, over repositories of
-- records. How `encoding/json` writes and reads the values of each type is an argument; a value that
-- is returned beside a call that fills it is the value after the call.
pub mod Cells
pub mod Entries
pub mod Refines
pub mod Saves
pub mod Values
pub mod Views
use app_gocms.Prelude.{
  Bool, ◌||◌, Option, none, some, List, [], ◌∷◌, ◌++◌, filter, find, if◌then◌else◌, Result, ok, err,
  Exec, pure, lift, ◌>>=◌, ◌>>◌,
}
use app_gocms.Text.{Text, codes, ◌==◌, is_empty}
use app_gocms.Text.Quote.{quote}
use app_gocms.Domain.{
  Fields, Entry, Query, ContentType, Setting, User, TaxonomyDefinition, Term, Asset, Menu, Revision,
  Access, Time, kind_post, kind_page,
}
use app_gocms.Env.{Env}
use app_gocms.Storage.{Json}
use app_gocms.Storage.Repositories.{Repository, Repositories}

-- `json.Marshal` and `json.Unmarshal` at a type.
pub record Codec (A : Type 0) : Type 0 where
  pub marshal : A → Result Text
  pub unmarshal : Text → Result A

pub record Codecs : Type 0 where
  pub entry : Codec Entry
  pub content_type : Codec ContentType
  pub setting : Codec Setting
  pub user : Codec User
  pub definition : Codec TaxonomyDefinition
  pub term : Codec Term
  pub asset : Codec Asset
  pub menu : Codec Menu
  pub revision : Codec Revision
  pub access : Codec Access

-- The clock and the random bytes of the services.
pub record Host (S : Type 0) : Type 0 where
  pub now : S → Time × S
  pub random_token : S → Text × S

-- `if err != nil { return err }` before what reads the value.
abbrev pub and_then : {A B : Type 0} → (A → Result B) → Result A → Result B
and_then f (err e) = err e
and_then f (ok a) = f a

abbrev pub as_found : {A : Type 0} → Result A → Result (Option A)
as_found (err e) = err e
as_found (ok value) = ok (some value)

module _ {A : Type 0} (json : Json) (codec : Codec A) where
  unfoldable pub to_record : A → Result Fields
  to_record value = and_then json.unmarshal (codec.marshal value)

  unfoldable pub from_record : Fields → Result A
  from_record r = and_then codec.unmarshal (json.marshal r)

  unfoldable pub from_records : List Fields → Result (List A)
  from_records [] = ok []
  from_records (r ∷ rs) =
      let rest = from_records rs in
      elim (from_record r) [
        | err e ↦ err e
        | ok value ↦ elim rest [ err e ↦ err e | ok values ↦ ok (value ∷ values) ]
      ]

  -- What a look-up of a record gives: one that fails finds nothing.
  unfoldable pub read_record : Result Fields → Result (Option A)
  read_record (err e) = ok none
  read_record (ok r) = as_found (from_record r)

  module _ {S : Type 0} (repo : Repository S Fields) where
    unfoldable pub put : Text → A → Exec S (Unit {0})
    unfolding to_record
    put id value = do r ← lift (to_record value); repo.put id r

    unfoldable pub get : Text → Exec S (Option A)
    unfolding read_record from_record
    get id s = let (found, s') = repo.get id s in (read_record found, s')

    unfoldable pub list : Exec S (List A)
    unfolding from_records from_record
    list = do records ← repo.list; lift (from_records records)

unfoldable pub with_content_kind : Entry → Text → Entry
with_content_kind e kind = if is_empty e.kind then record e { kind = kind } else e

unfoldable pub asked : Query → Text → List Entry → List Entry
unfolding with_content_kind
asked query kind [] = []
asked query kind (e ∷ es) =
    let entry = with_content_kind e kind in
    let rest = asked query kind es in
    if is_empty query.status || entry.status == query.status then entry ∷ rest else rest

-- A repository, and the kind of the entries in it that have none.
abbrev pub Source : Type 0 → Type 0
Source S = Repository S Fields × Text

module _ {S : Type 0} (json : Json) (codec : Codec Entry) where
  -- The entry, if one was read; else, also after an error, what the other repositories hold.
  unfoldable pub found_or :
      Text → Exec S (Option Entry) → Result (Option Entry) → Exec S (Option Entry)
  found_or kind others (ok (some e)) = pure (some (with_content_kind e kind))
  found_or kind others (ok none) = others
  found_or kind others (err e) = others

  unfoldable pub get_from : Text → List (Source S) → Exec S (Option Entry)
  unfolding get found_or
  get_from id [] = pure none
  get_from id ((repo, kind) ∷ sources) =
      let others = get_from id sources in
      λ s. (let (found, s') = get json codec repo id s in found_or kind others found s')

  unfoldable pub list_from : Query → List (Source S) → Exec S (List Entry)
  unfolding list asked
  list_from query [] = pure []
  list_from query ((repo, kind) ∷ sources) = do
    items ← list json codec repo
    others ← list_from query sources
    pure (asked query kind items ++ others)

module _ {S : Type 0} (json : Json) (codecs : Codecs) (repos : Repositories S Fields) where
  unfoldable pub content_repo : Text → Result (Repository S Fields)
  content_repo kind =
      if kind == kind_post
      then ok repos.posts
      else if kind == kind_page
      then ok repos.pages
      else err (codes "unsupported content kind " ++ quote kind)

  unfoldable pub save : Entry → Exec S (Unit {0})
  unfolding content_repo put
  save entry = do repo ← lift (content_repo entry.kind); put json codecs.entry repo entry.id entry

  unfoldable pub get_entry : Text → Exec S (Option Entry)
  unfolding get_from
  get_entry id =
      get_from json codecs.entry id ((repos.posts, kind_post) ∷ (repos.pages, kind_page) ∷ [])

  -- The repositories that a query reads.
  unfoldable pub sources_of : Query → List (Source S)
  sources_of query =
      (if is_empty query.kind || query.kind == kind_post then (repos.posts, kind_post) ∷ [] else [])
      ++ (if is_empty query.kind || query.kind == kind_page
          then (repos.pages, kind_page) ∷ []
          else [])

  unfoldable pub list_entries : Query → Exec S (List Entry)
  unfolding sources_of list_from
  list_entries query = list_from json codecs.entry query (sources_of query)

  unfoldable pub list_terms : Text → Exec S (List Term)
  unfolding list
  list_terms taxonomy_type = do
    terms ← list json codecs.term repos.terms
    pure (filter (λ (t : Term). is_empty taxonomy_type || t.taxonomy_type == taxonomy_type) terms)

  unfoldable pub get_menu_by_location : Text → Exec S (Option Menu)
  unfolding list
  get_menu_by_location location = do
    items ← list json codecs.menu repos.menus
    pure (find (λ (m : Menu). m.location == location) items)

module _ {S : Type 0} (json : Json) (codecs : Codecs) (host : Host S)
    (repos : Repositories S Fields) where
  unfoldable pub application_repositories : Env S
  unfolding save get_entry list_entries list_terms get_menu_by_location put get list
  application_repositories = record {
    save = save json codecs repos;
    get = get_entry json codecs repos;
    list = list_entries json codecs repos;
    save_content_type = λ item. put json codecs.content_type repos.content_types item.id item;
    get_content_type = get json codecs.content_type repos.content_types;
    list_content_types = list json codecs.content_type repos.content_types;
    save_setting = λ item. put json codecs.setting repos.settings item.key item;
    get_setting = get json codecs.setting repos.settings;
    list_settings = list json codecs.setting repos.settings;
    save_user = λ user. put json codecs.user repos.authors user.id user;
    get_user = get json codecs.user repos.authors;
    list_users = list json codecs.user repos.authors;
    save_definition = λ d. put json codecs.definition repos.taxonomies d.taxonomy_type d;
    get_definition = get json codecs.definition repos.taxonomies;
    save_term = λ term. put json codecs.term repos.terms term.id term;
    list_terms = list_terms json codecs repos;
    save_asset = λ asset. put json codecs.asset repos.media_assets asset.id asset;
    get_asset = get json codecs.asset repos.media_assets;
    list_assets = list json codecs.asset repos.media_assets;
    save_menu = λ menu. put json codecs.menu repos.menus menu.id menu;
    list_menus = list json codecs.menu repos.menus;
    get_menu_by_location = get_menu_by_location json codecs repos;
    save_revision = λ revision. put json codecs.revision repos.revisions revision.id revision;
    get_revision = get json codecs.revision repos.revisions;
    save_preview = λ access. put json codecs.access repos.previews access.token access;
    get_preview = get json codecs.access repos.previews;
    now = host.now;
    random_token = host.random_token;
  }
