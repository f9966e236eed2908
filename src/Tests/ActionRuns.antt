-- ===== src/Tests/ActionRuns.antt =====
-- Runs of the actions on posts. A result is the id of its entry, and no body is read.
use app_gocms.Prelude.{◌≡◌, refl, true, none, some, List, [], ◌∷◌, if◌then◌else◌, ok, err}
use app_gocms.Text.{Text, codes, ◌==◌, is_empty, trim_space, split}
use app_gocms.Text.Quote.{quote}
use app_gocms.Domain.{Entry, zero_entry, kind_post, status_draft, visibility_public, validate}
use app_gocms.Content
use app_gocms.Services.ContentTypes
use app_gocms.Rest.Merge.{merge_content}
use app_gocms.Rest.Reply.{Request, respond, entry}
use app_gocms.Rest.Routes.{Authorizer, refusal, split_path}
use app_gocms.Rest.Dispatch.{handle}
use app_gocms.Storage.Transactions.{Transactions, within_tx}
use app_gocms.App.Actions.{
  merge_post_entry, ActionRequest, ValidationIssue, Bff, EntryJson, bind_post_entry, post_update,
  post_trash, executor_of, edit_path,
}
use app_gocms.App.Actions.Effects.{failure_rolls_back}
use app_gocms.App.Actions.Updates.{post_update-handle, form_without_title}
use app_gocms.Tests.Memory.{Memory, empty_memory, memory}

abbrev pub committed : Transactions Memory
committed = record { begin = λ s. ok tt; commit = λ s. ok tt }

abbrev pub ids : Bff Text
ids = record {
  action_path = λ id. id;
  required_fields = λ req key. [];
  success_result = λ status e. ok e.id;
}

abbrev pub no_json : EntryJson
no_json = record {
  unmarshal_entry = λ body. err (codes "invalid");
  unmarshal_title = λ value. err (codes "invalid");
}

abbrev pub titled : Entry
titled = record zero_entry {
  id = codes "p1";
  kind = kind_post;
  title = some ((codes "en", codes "Hello") ∷ []);
  slug = codes "hello";
  status = status_draft;
  visibility = visibility_public;
}

abbrev pub blog : Memory
blog = record empty_memory { entries = titled ∷ [] }

-- A form with an id and a slug.
abbrev pub slug_form : ActionRequest
slug_form = record {
  query = λ key. [];
  form = some (λ key.
      if key == codes "id"
      then codes "p1" ∷ []
      else if key == codes "slug"
      then codes "hi" ∷ []
      else []);
  json = [];
}

abbrev of_missing : ActionRequest
of_missing = record {
  query = λ key. if key == codes "id" then codes "p9" else [];
  form = none;
  json = [];
}

abbrev refusal_of_missing : List ValidationIssue
refusal_of_missing =
    record { field = []; code = codes "invalid"; message = codes "content \"p9\" not found" } ∷ []

failure_rolls_back_example : (post_trash ids no_json committed memory of_missing blog).1 ≡ blog
unfolding within_tx executor_of ◌==◌ post_trash is_empty trim_space ContentTypes.install_built_ins
    memory Content.trash Content.transition_status Content.transition Content.content_not_found
    quote
failure_rolls_back_example =
    failure_rolls_back ids no_json committed memory (codes "post.trash")
      (post_trash ids no_json committed memory) of_missing blog [] refusal_of_missing refl refl

abbrev patch_of_form : Entry
patch_of_form = record zero_entry { title = some []; id = codes "p1"; slug = codes "hi" }

abbrev updated_blog : Memory
updated_blog = (post_update ids no_json committed memory slug_form blog).1

abbrev patch_request : Request
patch_request = record {
  method = codes "PATCH";
  page = [];
  per_page = [];
  status = [];
  q = [];
  search = [];
  entry_body = ok patch_of_form;
  definition_body = err (codes "EOF");
  term_body = err (codes "EOF");
  asset_body = err (codes "EOF");
}

abbrev everyone : Authorizer
everyone = some (λ capability. (true, true))

post_update-handle_example :
    (existing : Entry) × (patch : Entry) × (existing.kind ≡ kind_post)
    × (bind_post_entry no_json slug_form ≡ ok patch)
    × (ids.success_result (codes "updated") (merge_content existing patch) ≡ ok (codes "p1"))
    × (edit_path titled ≡ edit_path (merge_content existing patch))
    × (handle committed memory everyone patch_request (codes "posts/p1") blog
        ≡ (respond 200 (entry (merge_content existing patch)), updated_blog))
unfolding within_tx split_path split refusal bind_post_entry post_update is_empty ◌==◌ trim_space
    ContentTypes.install_built_ins memory Content.get Content.update Content.ensure_type validate
    merge_content merge_post_entry
post_update-handle_example =
    post_update-handle ids no_json committed memory slug_form everyone patch_request
      (codes "posts/p1") blog updated_blog (codes "p1") (edit_path titled) refl refl refl refl refl

form_without_title_example :
    (e : Entry) × (ids.success_result (codes "updated") e ≡ ok (codes "p1"))
    × (e.title ≡ some [])
    × (t : Memory) × (Content.update memory e t ≡ (ok tt, updated_blog))
unfolding within_tx post_update is_empty ◌==◌ trim_space ContentTypes.install_built_ins memory
    Content.get Content.update Content.ensure_type validate merge_post_entry
form_without_title_example =
    form_without_title ids no_json committed memory slug_form blog updated_blog (codes "p1")
      (edit_path titled) refl refl refl
