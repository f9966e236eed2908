-- ===== src/Tests/RestRuns.antt =====
-- Runs of the REST handlers, of the pages of lists and of the paths.
use app_gocms.Prelude.{◌≡◌, ◌⊎◌, refl, false, none, some, [], ◌∷◌, arith, pos, ok, err}
use app_gocms.Text.{codes, ◌==◌, is_empty, to_lower}
use app_gocms.Domain.{
  Entry, zero_entry, kind_post, status_draft, status_published, visibility_public,
}
use app_gocms.Content
use app_gocms.Permalinks.{default_settings, resolve, entry_path}
use app_gocms.Permalinks.RoundTrip.{IsSlug, resolve-entry_path, candidate_for}
use app_gocms.Rest.Pagination.{
  ListEnvelope, list_envelope, pagination, parse_positive, with_page, with_per_page, accept, atoi,
  number_of, digits,
}
use app_gocms.Rest.Pagination.Pages.{told, walk, walk_all}
use app_gocms.Rest.Pagination.Overflow.{list_envelope_start_overflow}
use app_gocms.Rest.Reply.{Request, respond, entries}
use app_gocms.Rest.Routes.{Authorizer, refusal, reading}
use app_gocms.Rest.Content.{content, search as search_content}
use app_gocms.Rest.Dispatch.{handle}
use app_gocms.Rest.Authorization.{IsRefused}
use app_gocms.Rest.Handled.{handle_refused}
use app_gocms.Services.ContentTypes
use app_gocms.Storage.Transactions.{Transactions}
use app_gocms.Rest.Visibility.{by_slug_shown}
use app_gocms.Rest.Search.{search_later_page}
use app_gocms.Tests.Memory.{Memory, empty_memory, memory, memory-ReadOnly, memory-ListLaws}

abbrev hello : Entry
hello = record zero_entry {
  id = codes "p1";
  kind = kind_post;
  slug = codes "hello";
  status = status_published;
  visibility = visibility_public;
}

abbrev draft : Entry
draft = record hello { id = codes "p2"; slug = codes "later"; status = status_draft }

abbrev stored : Memory
stored = record empty_memory { entries = hello ∷ draft ∷ [] }

abbrev get_request : Request
get_request = record {
  method = codes "GET";
  page = [];
  per_page = [];
  status = [];
  q = [];
  search = [];
  entry_body = ok hello;
  definition_body = err (codes "EOF");
  term_body = err (codes "EOF");
  asset_body = err (codes "EOF");
}

abbrev delete_request : Request
delete_request = record get_request { method = codes "DELETE" }

abbrev nobody : Authorizer
nobody = some (λ capability. (false, false))

nobody-IsRefused : IsRefused nobody
unfolding refusal
nobody-IsRefused capability h = ground (arith, h)

abbrev committed : Transactions Memory
committed = record { begin = λ s. ok tt; commit = λ s. ok tt }

handle_refused_example :
    ((handle committed memory nobody delete_request (codes "/posts/p1") stored).1 ≡ stored)
    ⊎ ((handle committed memory nobody delete_request (codes "/posts/p1") stored).1
        ≡ (ContentTypes.install_built_ins memory stored).1)
handle_refused_example =
    handle_refused memory memory-ReadOnly nobody nobody-IsRefused delete_request committed
      (codes "/posts/p1") stored

by_slug_shown_example :
    (hello.status ≡ status_published)
    × (hello.visibility ≡ visibility_public)
    × (hello.slug ≡ codes "hello")
unfolding content Content.list memory ◌==◌ is_empty reading
by_slug_shown_example =
    by_slug_shown memory nobody get_request memory-ListLaws kind_post (codes "hello") stored hello
      refl refl

abbrev search_request : Request
search_request = record get_request {
  page = codes "2";
  per_page = codes "1";
  status = status_published;
  q = codes "hello";
}

abbrev both_published : Memory
both_published = record empty_memory {
  entries = hello ∷ record draft { status = status_published } ∷ [];
}

search_later_page_example :
    (e : ListEnvelope Entry) × ((search_content memory nobody search_request both_published).0
      ≡ respond 200 (entries e))
    × (e.items ≡ [])
unfolding pagination parse_positive with_page with_per_page accept atoi number_of digits memory ◌==◌
    is_empty to_lower
search_later_page_example =
    search_later_page memory nobody search_request 0 0 both_published
      (hello ∷ record draft { status = status_published } ∷ []) refl refl refl (omega arith)
      (omega arith) (omega arith) (omega arith)

walk_all_example :
    walk
      (hello ∷ draft ∷ hello ∷ [])
      1
      0
      (told (list_envelope (hello ∷ draft ∷ hello ∷ []) (pos 1) (pos 2)))
    ≡ hello ∷ draft ∷ hello ∷ []
walk_all_example = walk_all (hello ∷ draft ∷ hello ∷ []) 1 (omega arith)

list_envelope_start_overflow_example :
    list_envelope (hello ∷ []) (pos 4611686018427387905) (pos 2) ≡ none
list_envelope_start_overflow_example =
    list_envelope_start_overflow (hello ∷ []) 4611686018427387904 1 (omega arith) (omega arith)
      (omega arith)

hello-IsSlug : IsSlug hello.slug
hello-IsSlug = record {
  nonempty = λ h. ground (arith, h);
  one_segment = (refl, (refl, (refl, (refl, (refl, tt)))));
  no_percent = (refl, (refl, (refl, (refl, (refl, tt)))));
}

resolve-entry_path_example :
    resolve (entry_path hello default_settings) default_settings
    ≡ record { kind = candidate_for hello; slug = hello.slug } ∷ []
resolve-entry_path_example = resolve-entry_path hello hello-IsSlug
