-- ===== src/Rest/Content.antt =====
-- internal/delivery/rest/routes.go: the handlers of posts and pages, and the search.
use app_gocms.Prelude.{
  Bool, ◌&&◌, ◌||◌, Option, none, some, List, [], ◌∷◌, find, filter, ℤ, if◌then◌else◌, Result, ok,
  err, Exec, pure, ◌>>=◌,
}
use app_gocms.Text.{Text, codes, ◌==◌, is_empty, contains, to_lower}
use app_gocms.Domain.{Entry, status_published, visibility_public}
use app_gocms.Env.{Env}
use app_gocms.Content
use app_gocms.Rest.Pagination.{ListEnvelope, list_envelope, pagination}
use app_gocms.Rest.Reply.{
  Request, Reply, respond, panic, entry, entries, not_found, validation_error, server_error,
}
use app_gocms.Rest.Merge.{merge_content}
use app_gocms.Rest.Routes.{
  Handler, answer, is_get, is_post, is_patch, is_delete, Authorizer, refusal, guarded, decoded,
  answer_with, reading,
}

abbrev pub content_write : Text
content_write = codes "content.write"

abbrev pub route_not_found : Reply
route_not_found = not_found (codes "route not found")

-- `listEnvelope` in an answer; its panic is one of the handler.
unfoldable pub list_reply : Option (ListEnvelope Entry) → Reply
list_reply none = panic
list_reply (some e) = respond 200 (entries e)

-- The test of the loop over the published entries.
abbrev pub is_at_slug : Text → Entry → Bool
is_at_slug slug e = e.slug == slug && e.visibility == visibility_public

abbrev pub found_or : Text → Option Entry → Reply
found_or message none = not_found message
found_or message (some e) = respond 200 (entry e)

abbrev pub of_kind : Text → Option Entry → Option Entry
of_kind kind none = none
of_kind kind (some e) = if e.kind == kind then some e else none

title_in : Text → List (Text × Text) → Text
title_in locale [] = []
title_in locale ((l, title) ∷ titles) = if l == locale then title else title_in locale titles

-- `entry.Title["en"]`
english_title : Entry → Text
unfolding title_in
english_title e = elim e.title [ none ↦ [] | some titles ↦ title_in (codes "en") titles ]

-- The test of the loop of `search`.
unfoldable pub matches_query : Text → Entry → Bool
unfolding english_title
matches_query q e =
    contains (to_lower e.slug) q
    || contains (to_lower e.content) q
    || contains (to_lower (english_title e)) q

-- What `search` makes of the answer of `contentList`.
unfoldable pub filter_envelope : Text → Option (ListEnvelope Entry) → Reply
unfolding list_reply
filter_envelope q none = panic
filter_envelope q (some e) =
    if is_empty q
    then respond 200 (entries e)
    else list_reply
        (list_envelope (filter (matches_query q) e.items) e.pagination.page e.pagination.per_page)

module _ {S : Type 0} (env : Env S) (authorize : Authorizer) (r : Request) where
  unfoldable pub show_page :
      Text → (Option (ListEnvelope Entry) → Reply) → Result (ℤ × ℤ) → Handler S
  unfolding reading
  show_page kind show (err e) = answer (validation_error e)
  show_page kind show (ok (page, per_page)) =
      reading (Content.list env (record { kind = kind; status = r.status }))
        λ items. show (list_envelope items page per_page)

  -- The page that was asked for, of the entries that fit the query.
  unfoldable pub listed : Text → (Option (ListEnvelope Entry) → Reply) → Handler S
  unfolding show_page
  listed kind show = show_page kind show (pagination r.page r.per_page)

  unfoldable pub content_list : Text → Handler S
  unfolding listed list_reply
  content_list kind = listed kind list_reply

  unfoldable pub search : Handler S
  unfolding listed filter_envelope
  search = listed [] (filter_envelope (to_lower (if is_empty r.q then r.search else r.q)))

  -- `CreateDraft`, and `Publish` if the request asks for a published entry.
  create : Entry → Exec S Entry
  create e = do
    created ← Content.create_draft env e
    if e.status == status_published then Content.publish env created.id else pure created

  post_content : Text → Handler S
  unfolding create
  post_content kind =
      guarded (refusal authorize content_write)
        (decoded r.entry_body λ e. answer_with 201 entry (create (record e { kind = kind })))

  get_by_slug : Text → Text → Handler S
  get_by_slug slug kind =
      reading (Content.list env (record { kind = kind; status = status_published }))
        λ items. found_or (codes "content not found") (find (is_at_slug slug) items)

  get_by_id : Text → Text → Handler S
  get_by_id id kind =
      reading (Content.get env id)
        λ found. found_or (codes "content not found") (of_kind kind found)

  -- The rest of a PATCH, for the entry that was found.
  patch_found : Option Entry → Handler S
  patch_found none = answer (not_found (codes "content not found"))
  patch_found (some existing) = decoded r.entry_body (λ patch.
      let updated = merge_content existing patch in
      answer_with 200 (λ _. entry updated) (Content.update env updated))

  patch_after : Result (Option Entry) → Handler S
  unfolding patch_found
  patch_after (err e) = answer (server_error e)
  patch_after (ok found) = patch_found found

  patch_content : Text → Handler S
  unfolding patch_after
  patch_content id =
      guarded (refusal authorize content_write)
        λ s. let (found, s') = Content.get env id s in patch_after found s'

  delete_content : Text → Handler S
  delete_content id =
      guarded (refusal authorize content_write) (answer_with 200 entry (Content.trash env id))

  -- The collection's segment is matched by the caller; `segments` are those behind it.
  unfoldable pub content : List Text → Text → Handler S
  unfolding content_list post_content get_by_slug get_by_id patch_content delete_content
  content [] kind =
      if is_get r
      then content_list kind
      else if is_post r
      then post_content kind
      else answer route_not_found
  content (id ∷ []) kind =
      if is_get r
      then get_by_id id kind
      else if is_patch r
      then patch_content id
      else if is_delete r
      then delete_content id
      else answer route_not_found
  content (segment ∷ slug ∷ []) kind =
      if segment == codes "by-slug" && is_get r
      then get_by_slug slug kind
      else answer route_not_found
  content _ kind = answer route_not_found
