-- ===== src/Storage/Repositories.antt =====
-- internal/storage/storage.go: the repositories of records that a transaction on a workspace is run
-- with. The reads and writes of each are those of the rows (internal/storage/sqlite/store.go).
use app_gocms.Prelude.{Option, none, some, List, [], Exec, pure, ◌>>=◌}
use app_gocms.Text.{Text, codes}
use app_gocms.Domain.{Fields}
use app_gocms.Sql.{Engine}
use app_gocms.Storage.{Json, PageResult, get, put, delete, list_records}

-- The records of a listing are those of its page.
pub record Repository (S R : Type 0) : Type 0 where
  pub put : Text → R → Exec S (Unit {0})
  pub get : Text → Exec S R
  pub list : Exec S (List R)
  pub delete : Text → Exec S (Unit {0})

pub record Repositories (S R : Type 0) : Type 0 where
  pub posts : Repository S R
  pub pages : Repository S R
  pub content_types : Repository S R
  pub content_meta_definitions : Repository S R
  pub taxonomies : Repository S R
  pub terms : Repository S R
  pub media_assets : Repository S R
  pub authors : Repository S R
  pub settings : Repository S R
  pub menus : Repository S R
  pub revisions : Repository S R
  pub previews : Repository S R

-- No page is asked for, so that the listing does not panic (`first_fifty`) and `none` is not met.
page_records : Option PageResult → List Fields
page_records none = []
page_records (some page) = page.records

module _ {DB : Type 0} (engine : Engine DB) (json : Json) (workspace : Text) where
  unfoldable pub list_page : Text → Exec DB (List Fields)
  unfolding page_records
  list_page record_type = do
    page ← list_records engine json workspace record_type
    pure (page_records page)

  abbrev pub record_repository : Text → Repository DB Fields
  record_repository record_type = record {
    put = put engine json workspace record_type;
    get = get engine json workspace record_type;
    list = list_page record_type;
    delete = delete engine json workspace record_type;
  }

  -- What `WithinTx` hands to its function.
  abbrev pub repositories : Repositories DB Fields
  repositories = record {
    posts = record_repository (codes "post");
    pages = record_repository (codes "page");
    content_types = record_repository (codes "content_type");
    content_meta_definitions = record_repository (codes "content_meta_definition");
    taxonomies = record_repository (codes "taxonomy");
    terms = record_repository (codes "term");
    media_assets = record_repository (codes "media_asset");
    authors = record_repository (codes "author");
    settings = record_repository (codes "setting");
    menus = record_repository (codes "menu");
    revisions = record_repository (codes "revision");
    previews = record_repository (codes "preview");
  }
