-- ===== src/Domain.antt =====
-- internal/domain: the data of the content management system. A Go string type is a text, also where
-- the source names some of its values, since a request may hold any other. A map is an association
-- list, `none` where it is nil. A `time.Time` is the number of nanoseconds since Go's zero time.
use app_gocms.Prelude.{
  ℕ, ◌&&◌, not, Bool, true, false, Option, none, List, [], ◌++◌, Result, ok, err, if◌then◌else◌,
}
use app_gocms.Text.{Text, codes, ◌==◌, is_empty}
use app_gocms.Text.Quote.{quote}

abbrev pub Time : Type 0
Time = ℕ

-- Go's `any` and its maps, as JSON gives them: a value, and the fields of an object.
mutual
  -- A number is kept as its literal.
  pub data Value : Type 0 where
    null : Value
    bool : Bool → Value
    number : Text → Value
    text : Text → Value
    array : Items → Value
    object : Fields → Value

  pub data Items : Type 0 where
    nil : Items
    cons : Value → Items → Items

  pub data Fields : Type 0 where
    end : Fields
    field : Text → Value → Fields → Fields

-- internal/domain/content/content.go
abbrev pub kind_post : Text
kind_post = codes "post"

abbrev pub kind_page : Text
kind_page = codes "page"

abbrev pub status_draft : Text
status_draft = codes "draft"

abbrev pub status_scheduled : Text
status_scheduled = codes "scheduled"

abbrev pub status_published : Text
status_published = codes "published"

abbrev pub status_archived : Text
status_archived = codes "archived"

abbrev pub status_trashed : Text
status_trashed = codes "trashed"

abbrev pub visibility_public : Text
visibility_public = codes "public"

abbrev pub visibility_private : Text
visibility_private = codes "private"

pub record Entry : Type 0 where
  pub id : Text
  pub kind : Text
  pub title : Option (List (Text × Text))
  pub slug : Text
  pub content : Text
  pub excerpt : Text
  pub status : Text
  pub visibility : Text
  pub author_id : Text
  pub featured_media_id : Text
  pub term_ids : List Text
  pub metadata : Option Fields
  pub published_at : Time
  pub scheduled_for : Time
  pub created_at : Time
  pub updated_at : Time

-- The `Entry{}` of the source.
abbrev pub zero_entry : Entry
zero_entry = record {
  id = [];
  kind = [];
  title = none;
  slug = [];
  content = [];
  excerpt = [];
  status = [];
  visibility = [];
  author_id = [];
  featured_media_id = [];
  term_ids = [];
  metadata = none;
  published_at = 0;
  scheduled_for = 0;
  created_at = 0;
  updated_at = 0;
}

pub record Query : Type 0 where
  pub kind : Text
  pub status : Text

unfoldable pub validate : Entry → Result (Unit {0})
validate e =
    if is_empty e.id
    then err (codes "content id is required")
    else if not (e.kind == kind_post) && not (e.kind == kind_page)
    then err (codes "unsupported content kind " ++ quote e.kind)
    else if is_empty e.status
    then err (codes "content status is required")
    else if is_empty e.visibility
    then err (codes "content visibility is required")
    else ok tt

-- internal/domain/contenttype/contenttype.go
pub record Supports : Type 0 where
  pub title : Bool
  pub editor : Bool
  pub excerpt : Bool
  pub featured_media : Bool

pub record ContentType : Type 0 where
  pub id : Text
  pub label : Text
  pub permalink_pattern : Text
  pub is_public : Bool
  pub supports : Supports

abbrev pub built_in_post : ContentType
built_in_post = record {
  id = kind_post;
  label = codes "Post";
  permalink_pattern = codes "/posts/{slug}";
  is_public = true;
  supports = record { title = true; editor = true; excerpt = true; featured_media = true };
}

abbrev pub built_in_page : ContentType
built_in_page = record {
  id = kind_page;
  label = codes "Page";
  permalink_pattern = codes "/{slug}";
  is_public = true;
  supports = record { title = true; editor = true; excerpt = false; featured_media = true };
}

-- internal/domain/media/media.go
pub record Asset : Type 0 where
  pub id : Text
  pub title : Text
  pub mime_type : Text
  pub public_url : Text
  pub provider_ref : Text
  pub alt_text : Text
  pub variants : Option Fields
  pub metadata : Option Fields

-- internal/domain/menus/menus.go
pub record MenuItem : Type 0 where
  pub id : Text
  pub label : Text
  pub url : Text
  pub parent_id : Text

pub record Menu : Type 0 where
  pub id : Text
  pub location : Text
  pub items : List MenuItem

-- internal/domain/preview/preview.go; the token is drawn by the caller of the model
pub record Access : Type 0 where
  pub token : Text
  pub entry_id : Text
  pub expires_at : Time

-- internal/domain/revisions/revisions.go
pub record Revision : Type 0 where
  pub id : Text
  pub entry_id : Text
  pub entry : Entry
  pub created_at : Time

-- internal/domain/settings/settings.go
pub record Setting : Type 0 where
  pub key : Text
  pub group : Text
  pub value : Value
  pub is_public : Bool
  pub is_private : Bool

pub record SettingDefinition : Type 0 where
  pub key : Text
  pub group : Text
  pub default_value : Value
  pub is_public : Bool

-- internal/domain/taxonomy/taxonomy.go
abbrev pub mode_flat : Text
mode_flat = codes "flat"

pub record TaxonomyDefinition : Type 0 where
  pub taxonomy_type : Text
  pub label : Text
  pub mode : Text
  pub assigned_kinds : List Text
  pub is_public : Bool

pub record Term : Type 0 where
  pub id : Text
  pub taxonomy_type : Text
  pub name : Text
  pub slug : Text
  pub parent_id : Text
  pub description : Text

-- internal/domain/users/users.go
pub record User : Type 0 where
  pub id : Text
  pub email : Text
  pub display_name : Text
  pub slug : Text
  pub bio : Text
  pub avatar_id : Text
  pub active : Bool

pub record AuthorProfile : Type 0 where
  pub id : Text
  pub display_name : Text
  pub slug : Text
  pub bio : Text
  pub avatar_id : Text
  pub active : Bool

unfoldable pub public_author : User → AuthorProfile
public_author u = record {
  id = u.id;
  display_name = u.display_name;
  slug = u.slug;
  bio = u.bio;
  avatar_id = u.avatar_id;
  active = u.active;
}
