-- ===== src/Rest/Dispatch.antt =====
-- internal/delivery/rest: `dispatch`, the handlers of taxonomies and media, and `handle`, which runs
-- a request in one transaction (handler.go).
use app_gocms.Prelude.{true, ◌&&◌, ◌||◌, Option, none, some, List, [], ◌∷◌, if◌then◌else◌, ok, err}
use app_gocms.Text.{Text, codes, ◌==◌}
use app_gocms.Domain.{text, SettingDefinition}
use app_gocms.Env.{Env}
use app_gocms.Services.ContentTypes
use app_gocms.Services.Media
use app_gocms.Services.Menus
use app_gocms.Services.Settings
use app_gocms.Services.Taxonomy
use app_gocms.Services.Users
use app_gocms.Rest.Reply.{
  Request, Payload, Reply, respond, panic, content_types, definitions, definition, terms, term,
  assets, asset, author, settings, menus, menu, not_found, server_error,
}
use app_gocms.Rest.Routes.{
  Handler, answer, is_get, is_post, kind_for_collection, split_path, Authorizer, refusal, guarded,
  decoded, answer_with, reading,
}
use app_gocms.Rest.Content.{content, search, route_not_found}
use app_gocms.Storage.Transactions.{Transactions}

abbrev found_or {ℓ} : {A : Type ℓ} → Text → (A → Payload) → Option A → Reply
found_or message payload none = not_found message
found_or message payload (some a) = respond 200 (payload a)

-- The registry that `handle` builds.
abbrev pub rest_registry : List SettingDefinition
rest_registry =
    record {
      key = codes "site.title";
      group = codes "site";
      default_value = text (codes "AppCMS");
      is_public = true;
    }
    ∷ []

module _ {S : Type 0} (env : Env S) (authorize : Authorizer) (r : Request) where
  post_taxonomy : Handler S
  post_taxonomy =
      guarded (refusal authorize (codes "taxonomies.manage")) (
        decoded r.definition_body
          λ d. answer_with 201 (λ _. definition d) (Taxonomy.register env d))

  post_term : Text → Handler S
  post_term taxonomy_type = guarded (refusal authorize (codes "taxonomies.assign")) (
      decoded r.term_body λ t.
        let owned = record t { taxonomy_type = taxonomy_type } in
        answer_with 201 (λ _. term owned) (Taxonomy.create_term env owned))

  unfoldable pub taxonomies : List Text → Handler S
  unfolding post_taxonomy post_term
  taxonomies [] =
      if is_get r
      then answer (respond 200 (definitions []))
      else if is_post r
      then post_taxonomy
      else answer route_not_found
  taxonomies (taxonomy_type ∷ segment ∷ []) =
      if segment == codes "terms" && is_get r
      then answer_with 200 terms (Taxonomy.list_terms env taxonomy_type)
      else if segment == codes "terms" && is_post r
      then post_term taxonomy_type
      else answer route_not_found
  taxonomies _ = answer route_not_found

  post_media : Handler S
  post_media =
      guarded (refusal authorize (codes "media.upload"))
        (decoded r.asset_body λ a. answer_with 201 (λ _. asset a) (Media.save_metadata env a))

  unfoldable pub media : List Text → Handler S
  unfolding post_media
  media [] =
      if is_get r
      then answer_with 200 assets (Media.list env)
      else if is_post r
      then post_media
      else answer route_not_found
  media (id ∷ []) =
      if is_get r
      then reading (Media.get env id) (found_or (codes "media asset not found") asset)
      else answer route_not_found
  media _ = answer route_not_found

  unfoldable pub authors : List Text → Handler S
  authors (id ∷ []) =
      if is_get r
      then reading (Users.public_author env id) (found_or (codes "author not found") author)
      else answer route_not_found
  authors _ = answer route_not_found

  unfoldable pub get_menus : List Text → Handler S
  get_menus [] = if is_get r then answer_with 200 menus (Menus.list env) else answer route_not_found
  get_menus (location ∷ []) =
      if is_get r
      then reading (Menus.by_location env location) (found_or (codes "menu not found") menu)
      else answer route_not_found
  get_menus _ = answer route_not_found

  -- The handlers that answer only where nothing follows the collection's name.
  unfoldable pub only_get : List Text → Handler S → Handler S
  only_get [] h = if is_get r then h else answer route_not_found
  only_get (_ ∷ _) h = answer route_not_found

  unfoldable pub dispatch_parts : List Text → Handler S
  unfolding content search taxonomies media authors get_menus only_get
  dispatch_parts [] = answer route_not_found
  dispatch_parts (head ∷ rest) =
      if head == codes "posts" || head == codes "pages"
      then content env authorize r rest (kind_for_collection head)
      else if head == codes "content-types"
      then only_get rest (answer_with 200 content_types (ContentTypes.list env))
      else if head == codes "taxonomies"
      then taxonomies rest
      else if head == codes "media"
      then media rest
      else if head == codes "authors"
      then authors rest
      else if head == codes "settings"
      then only_get rest (answer_with 200 settings (Settings.public_settings env rest_registry))
      else if head == codes "menus"
      then get_menus rest
      else if head == codes "search" && is_get r
      then search env authorize r
      else answer route_not_found

  unfoldable pub dispatch : Text → Handler S
  unfolding dispatch_parts split_path
  dispatch path = dispatch_parts (split_path path)

module _ {S : Type 0} (tx : Transactions S) (env : Env S) (authorize : Authorizer)
    (r : Request) where
  -- The end of a transaction that began at `before`: a panic and a failed commit roll it back.
  unfoldable pub finish : S → Reply × S → Reply × S
  finish before (panic, s) = (panic, before)
  finish before (respond status payload, s) = elim (tx.commit s) [
    | err e ↦ (server_error e, before)
    | ok _ ↦ (respond status payload, s)
  ]

  -- The body of the transaction, from its state at the beginning.
  unfoldable pub within : Text → S → Reply × S
  unfolding finish
  within path s = elim (ContentTypes.install_built_ins env s).0 [
    | err e ↦ (server_error e, s)
    | ok _ ↦ finish s (dispatch env authorize r path (ContentTypes.install_built_ins env s).1)
  ]

  unfoldable pub handle : Text → Handler S
  unfolding within
  handle path s = elim (tx.begin s) [ err e ↦ (server_error e, s) | ok _ ↦ within path s ]
