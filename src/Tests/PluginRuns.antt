-- ===== src/Tests/PluginRuns.antt =====
-- Runs of the GraphQL and of the operations plugin over the storage in memory, whose entries stand
-- for the records of posts and pages.
use app_gocms.Prelude.{◌≡◌, refl, Bool, none, [], ◌∷◌, filter, All, if◌then◌else◌, ok, err, arith}
use app_gocms.Text.{Text, codes, ◌==◌, contains, has_prefix, is_empty, to_lower}
use app_gocms.Domain.{
  Entry, zero_entry, kind_post, kind_page, status_draft, status_published, visibility_public,
  visibility_private,
}
use app_gocms.Services.ContentTypes
use app_gocms.Storage.Repositories.{Repository, Repositories}
use app_gocms.Storage.Transactions.{Transactions, within_tx}
use app_gocms.Operations.{
  Store, Snapshot, snapshot_version, id_of, import_groups, import_items, import_snapshot,
}
use app_gocms.Plugins.Graphql.{
  GraphRequest, query_of, is_shown, public_records, queried, replied, handle,
}
use app_gocms.Plugins.Graphql.Shown.{IsShown, handle-IsShown}
use app_gocms.Plugins.Ops.{OpsReply, concluded, answer_import}
use app_gocms.Plugins.Ops.Imports.{failed_import_keeps}
use app_gocms.Tests.Memory.{Memory, empty_memory, memory}

abbrev text_field : Entry → Text → Text
text_field e name =
    if name == codes "id"
    then e.id
    else if name == codes "status"
    then e.status
    else if name == codes "visibility"
    then e.visibility
    else []

abbrev held : Text → Repository Memory Entry
held kind = record {
  put = λ id e s.
      if id == codes "locked"
      then (err (codes "database is locked"), s)
      else (ok tt, record s { entries = e ∷ s.entries });
  get = λ id s. (err (codes "no rows"), s);
  list = λ s. (ok (filter (λ (e : Entry). e.kind == kind) s.entries), s);
  delete = λ id s. (ok tt, s);
}

abbrev held_all : Repositories Memory Entry
held_all = record {
  posts = held kind_post;
  pages = held kind_page;
  content_types = held [];
  content_meta_definitions = held [];
  taxonomies = held [];
  terms = held [];
  media_assets = held [];
  authors = held [];
  settings = held [];
  menus = held [];
  revisions = held [];
  previews = held [];
}

abbrev committed : Transactions Memory
committed = record { begin = λ s. ok tt; commit = λ s. ok tt }

abbrev post : Text → Text → Entry
post id status = record zero_entry {
  id = id;
  kind = kind_post;
  status = status;
  visibility = visibility_public;
}

abbrev blog : Memory
blog = record empty_memory {
  entries =
      post (codes "p1") status_draft
      ∷ post (codes "p2") status_published
      ∷ record (post (codes "p3") status_published) { visibility = visibility_private }
      ∷ [];
}

abbrev posts_query : GraphRequest
posts_query = record { method = codes "GET"; query = codes "{ Posts }"; decode = none }

handle-IsShown_example : All (IsShown text_field) (post (codes "p2") status_published ∷ [])
unfolding handle query_of queried replied within_tx ◌==◌ contains has_prefix public_records is_shown
    ContentTypes.install_built_ins memory to_lower is_empty
handle-IsShown_example =
    handle-IsShown text_field held_all committed memory posts_query blog (codes "posts")
      (post (codes "p2") status_published ∷ []) refl (λ e. ground arith) (λ e. ground arith)

abbrev bundle : Snapshot Entry
bundle = record {
  version = snapshot_version;
  exported_at = 0;
  posts = post (codes "p4") status_draft ∷ post (codes "locked") status_draft ∷ [];
  pages = [];
  content_types = [];
  taxonomies = [];
  terms = [];
  media = [];
  authors = [];
  settings = [];
  menus = [];
}

abbrev logs : Store Bool
logs = record { audit = []; errors = []; limit = 50 }

abbrev imported_blog : OpsReply Bool Entry × (Memory × Store Bool)
imported_blog = answer_import text_field committed held_all none 7 (ok bundle) (blog, logs)

failed_import_keeps_example : (imported_blog.1.0 ≡ blog) × (imported_blog.1.1.audit ≡ [])
unfolding answer_import concluded within_tx ◌==◌ is_empty import_snapshot import_groups import_items
    id_of
failed_import_keeps_example =
    failed_import_keeps text_field committed held_all none 7 (ok bundle) blog logs
      (λ e. ground arith)
