-- ===== src/Screens/Hydration.antt =====
-- internal/appschema/hydrate.go: what fills the screens of the posts, each in one transaction of the
-- storage. `sort.Slice` by ids that are all different has one result, which an insertion gives too.
use app_gocms.Prelude.{
  Bool, true, false, not, ◌&&◌, ◌||◌, Option, none, some, List, [], ◌∷◌, length, map, eqb, ltb,
  if◌then◌else◌, Exec, pure, require, ◌>>=◌,
}
use app_gocms.Text.{Text, codes, ◌==◌, is_empty}
use app_gocms.Domain.{Entry, kind_post}
use app_gocms.Env.{Env}
use app_gocms.Content
use app_gocms.Content.{content_not_found}
use app_gocms.Storage.Transactions.{Transactions}
use app_gocms.App.Actions.{with_content_service}
use app_gocms.Screens.{
  Platform, ScreenModel, HydrateRequest, record_id_from_edit_path, post_row, post_form_values,
}

-- `<` of strings.
unfoldable pub before : Text → Text → Bool
before [] [] = false
before [] (d ∷ t) = true
before (c ∷ s) [] = false
before (c ∷ s) (d ∷ t) = ltb c d || (eqb c d && before s t)

unfoldable pub insert_by_id : Entry → List Entry → List Entry
insert_by_id e [] = e ∷ []
insert_by_id e (x ∷ xs) =
    let later = x ∷ insert_by_id e xs in if before x.id e.id then later else e ∷ x ∷ xs

unfoldable pub sort_by_id : List Entry → List Entry
unfolding insert_by_id
sort_by_id [] = []
sort_by_id (e ∷ es) = insert_by_id e (sort_by_id es)

-- `if entry.Kind == "" { entry.Kind = KindPost }`
abbrev pub as_post : Entry → Entry
as_post e = if is_empty e.kind then record e { kind = kind_post } else e

module _ {S : Type 0} (platform : Platform) (tx : Transactions S) (env : Env S) where
  filled_table : ScreenModel → HydrateRequest → List Entry → ScreenModel
  filled_table screen req entries =
      let paged = platform.paginate_slice entries req.query in
      let filled : ScreenModel = record screen {
        pagination = some (platform.pagination_from_query req.query (length entries));
        rows = map (λ e. post_row platform (as_post e) req) paged;
      } in
      if eqb (length entries) 0
      then record filled { empty_state = some (platform.table_empty_state filled) }
      else filled

  unfoldable pub hydrate_post_table : ScreenModel → HydrateRequest → Exec S ScreenModel
  unfolding filled_table sort_by_id with_content_service
  hydrate_post_table screen req = do
    entries ←
        with_content_service tx env (Content.list env (record { kind = kind_post; status = [] }))
    pure (filled_table screen req (sort_by_id entries))

  -- The post that is edited, if what was found is one.
  unfoldable pub edited_post : Option Entry → Option Entry
  edited_post none = none
  edited_post (some e) = if (as_post e).kind == kind_post then some (as_post e) else none

  filled_form : Text → ScreenModel → Exec S ScreenModel
  unfolding edited_post with_content_service
  filled_form id screen = do
    found ← with_content_service tx env (Content.get env id)
    e ← require (content_not_found id) (edited_post found)
    pure (record screen { form_record = some (post_form_values platform e) })

  unfoldable pub hydrate_post_form : ScreenModel → HydrateRequest → Exec S ScreenModel
  unfolding filled_form
  hydrate_post_form screen req =
      let id = record_id_from_edit_path req.path in
      if is_empty id then pure screen else filled_form id screen

  -- `Hydrate`, with a provider.
  unfoldable pub hydrate : ScreenModel → HydrateRequest → Exec S ScreenModel
  unfolding hydrate_post_table hydrate_post_form
  hydrate screen req =
      if not (screen.record_type == codes "post")
      then pure screen
      else if screen.view == platform.view_table
      then hydrate_post_table screen req
      else if screen.view == platform.view_form
      then hydrate_post_form screen req
      else pure screen
