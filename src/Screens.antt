-- ===== src/Screens.antt =====
-- internal/appschema: the screens of the administration, and what of the posts fills them (hydrate.go
-- and screens.go). The platform's constants and functions on pages, the encoder of JSON and the format
-- of an instant are arguments. A map is the list of its fields, the newest value of a key first.
pub mod Hydration
pub mod EditForms
use app_gocms.Prelude.{
  ℕ, ◌+◌, Bool, true, false, not, ◌&&◌, ◌||◌, Option, none, some, List, [], ◌∷◌, ◌++◌, length, map,
  eqb, ltb, if◌then◌else◌, Result, ok, err, Error, Exec, pure, raise, ◌>>=◌, ◌>>◌,
}
use app_gocms.Text.{
  Text, codes, ◌==◌, is_empty, is_slash, slash, trim_right, trim_suffix, has_suffix, split,
}
use app_gocms.Text.Quote.{quote}
use app_gocms.Domain.{Entry, Fields, Time, kind_post, kind_page}
use app_gocms.Env.{Env}
use app_gocms.Content
use app_gocms.Services.ContentTypes
use app_gocms.Storage.Transactions.{Transactions}
use app_gocms.Authn.Principals.{Principal, has, content_write}

abbrev pub TextMap : Type 0
TextMap = List (Text × Text)

unfoldable pub metadata_of : Text → TextMap → Text
metadata_of key [] = []
metadata_of key ((k, v) ∷ rest) = if k == key then v else metadata_of key rest

pub record RowAction : Type 0 where
  pub id : Text
  pub label : Text
  pub method : Text
  pub path : Text
  pub scope : Text
  pub capability : Text
  pub destructive : Bool

pub record Row : Type 0 where
  pub id : Text
  pub cells : TextMap
  pub capabilities : List Text
  pub actions : List RowAction

pub record PageInfo : Type 0 where
  pub page : ℕ
  pub per_page : ℕ
  pub total : ℕ

-- The parts of a screen that are read or filled here.
pub record ScreenModel : Type 0 where
  pub record_type : Text
  pub view : Text
  pub metadata : TextMap
  pub pagination : Option PageInfo
  pub rows : List Row
  pub empty_state : Option Text
  pub form_record : Option TextMap

pub record HydrateRequest : Type 0 where
  pub path : Text
  pub query : TextMap
  pub principal : Option Principal

-- The platform: its views, the pages of a list, and the words for an empty table; and
-- `json.Marshal` of two kinds of maps and `Format(time.RFC3339)`.
pub record Platform : Type 0 where
  pub view_table : Text
  pub view_form : Text
  pub paginate_slice : List Entry → TextMap → List Entry
  pub pagination_from_query : TextMap → ℕ → PageInfo
  pub table_empty_state : ScreenModel → Text
  pub marshal_texts : TextMap → Result Text
  pub marshal_fields : Fields → Result Text
  pub rfc3339 : Time → Text

abbrev pub cms_content_action_scope : Text
cms_content_action_scope = codes "admin.content.write"

unfoldable pub collection_for_record : Text → Text
collection_for_record id =
    if id == codes "post"
    then codes "posts"
    else if id == codes "page"
    then codes "pages"
    else if id == codes "media_asset"
    then codes "media"
    else if id == codes "taxonomy"
    then codes "taxonomies"
    else if id == codes "content_type"
    then codes "content-types"
    else if id == codes "author"
    then codes "authors"
    else if id == codes "setting"
    then codes "settings"
    else if id == codes "menu"
    then codes "menus"
    else id ++ codes "s"

-- What follows the last slash, if there is one.
last_segment : List Text → Text
last_segment [] = []
last_segment (only ∷ []) = []
last_segment (first ∷ second ∷ []) = second
last_segment (first ∷ second ∷ third ∷ rest) = last_segment (second ∷ third ∷ rest)

unfoldable pub record_id_from_edit_path : Text → Text
unfolding last_segment
record_id_from_edit_path path =
    let trimmed = trim_right is_slash path in
    if has_suffix trimmed (codes "/new")
    then []
    else last_segment (split slash (trim_suffix trimmed (codes "/edit")))

pub data Variant : Type 0 where
  new_form edit_form other_variant : Variant

form_action : Variant → Text → TextMap → TextMap
form_action new_form path meta = (codes "form_action", codes "/bff/actions/post.create") ∷ meta
form_action edit_form path meta =
    let id = record_id_from_edit_path path in
    if is_empty id
    then meta
    else (codes "form_action", codes "/bff/actions/post.update?id=" ++ id) ∷ meta
form_action other_variant path meta = meta

-- `cmsMetadata`, of the metadata `base` that the platform gives a screen.
unfoldable pub cms_metadata : TextMap → Text → Variant → Text → TextMap
unfolding collection_for_record form_action
cms_metadata base record_type variant path =
    if not (record_type == codes "post")
    then base
    else let collection = collection_for_record record_type in
      let with_rest =
        if is_empty collection
        then base
        else (codes "rest_form_action", codes "/go-json/go/v2/" ++ collection) ∷ base in
      form_action variant path ((codes "action_scope", cms_content_action_scope) ∷ with_rest)

unfoldable pub permalink_for : Entry → Text
permalink_for e =
    if is_empty e.slug
    then []
    else if e.kind == kind_post
    then codes "/posts/" ++ e.slug
    else if e.kind == kind_page
    then codes "/" ++ e.slug
    else []

module _ (platform : Platform) where
  abbrev json_or_empty : Result Text → Text
  json_or_empty (err e) = codes "{}"
  json_or_empty (ok payload) = payload

  unfoldable pub localized_json : Option TextMap → Text
  localized_json none = codes "{}"
  localized_json (some []) = codes "{}"
  localized_json (some (value ∷ values)) = json_or_empty (platform.marshal_texts (value ∷ values))

  unfoldable pub localized_slug_json : Text → Text
  unfolding localized_json
  localized_slug_json slug =
      if is_empty slug then codes "{}" else localized_json (some ((codes "en", slug) ∷ []))

  unfoldable pub metadata_json : Option Fields → Text
  metadata_json none = codes "{}"
  metadata_json (some Fields.end) = codes "{}"
  metadata_json (some (Fields.field k v rest)) =
      json_or_empty (platform.marshal_fields (Fields.field k v rest))

  format_time : Time → Text
  format_time at = if eqb at 0 then [] else platform.rfc3339 at

  -- The fields of a row and of a form, which differ in the slug.
  abbrev post_fields : Text → Entry → TextMap
  post_fields slug e =
      (codes "id", e.id)
      ∷ (codes "title", localized_json e.title)
      ∷ (codes "slug", slug)
      ∷ (codes "content", e.content)
      ∷ (codes "excerpt", e.excerpt)
      ∷ (codes "status", e.status)
      ∷ (codes "visibility", e.visibility)
      ∷ (codes "author_id", e.author_id)
      ∷ (codes "featured_media_id", e.featured_media_id)
      ∷ (codes "metadata", metadata_json e.metadata)
      ∷ (codes "permalink", permalink_for e)
      ∷ (codes "published_at", format_time e.published_at)
      ∷ (codes "scheduled_for", format_time e.scheduled_for)
      ∷ (codes "created_at", format_time e.created_at)
      ∷ (codes "updated_at", format_time e.updated_at)
      ∷ []

  unfoldable pub post_cells : Entry → TextMap
  unfolding localized_json metadata_json format_time
  post_cells e = post_fields e.slug e

  unfoldable pub post_form_values : Entry → TextMap
  unfolding localized_json localized_slug_json metadata_json format_time
  post_form_values e = post_fields (localized_slug_json e.slug) e

  abbrev actions_of : Text → List RowAction
  actions_of id =
      record {
        id = codes "edit";
        label = codes "Edit";
        method = codes "GET";
        path = codes "/go-admin/posts/" ++ (id ++ codes "/edit");
        scope = [];
        capability = content_write;
        destructive = false;
      }
      ∷ record {
        id = codes "trash";
        label = codes "Trash";
        method = codes "POST";
        path = codes "/bff/actions/post.trash?id=" ++ id;
        scope = cms_content_action_scope;
        capability = content_write;
        destructive = true;
      }
      ∷ []

  may_write : Option Principal → Bool
  may_write none = false
  may_write (some p) = has p content_write

  unfoldable pub post_row : Entry → HydrateRequest → Row
  unfolding post_cells may_write
  post_row e req = record {
    id = e.id;
    cells = post_cells e;
    capabilities = if may_write req.principal then content_write ∷ [] else [];
    actions = if may_write req.principal then actions_of e.id else [];
  }
