-- ===== src/App/Actions.antt =====
-- pkg/app/bff_actions.go: the actions on posts that the forms of the administration send. What the
-- platform's package `bff` makes of a request and of a result, and `encoding/json`, are arguments.
pub mod Effects
pub mod Updates
use app_gocms.Prelude.{
  Bool, true, false, not, ◌&&◌, Option, none, some, List, [], ◌∷◌, ◌++◌, if◌then◌else◌, Result, ok,
  err, Error, Exec, pure, raise, lift, require, ◌>>=◌, ◌>>◌,
}
use app_gocms.Text.{Text, codes, ◌==◌, is_empty, has_prefix, trim_space, contains}
use app_gocms.Domain.{Entry, zero_entry, kind_post, status_published}
use app_gocms.Env.{Env}
use app_gocms.Content
use app_gocms.Services.ContentTypes
use app_gocms.Rest.Merge.{or_keep, or_keep_map}
use app_gocms.Storage.Transactions.{Transactions, within_tx}
use app_gocms.Authn.Principals.{content_write}
use app_gocms.App.Options.{first_non_empty}

-- `bff.ActionRequest`: the values of the URL's query, empty if absent, the values of the form if it is
-- not nil, and the body if it is JSON.
pub record ActionRequest : Type 0 where
  pub query : Text → Text
  pub form : Option (Text → List Text)
  pub json : Text

unfoldable pub merge_post_entry : Entry → Entry → Entry
unfolding or_keep or_keep_map
merge_post_entry existing patch = record existing {
  title = or_keep_map patch.title existing.title;
  slug = or_keep patch.slug existing.slug;
  content = or_keep patch.content existing.content;
  excerpt = or_keep patch.excerpt existing.excerpt;
  status = or_keep patch.status existing.status;
  visibility = or_keep patch.visibility existing.visibility;
  author_id = or_keep patch.author_id existing.author_id;
  featured_media_id = or_keep patch.featured_media_id existing.featured_media_id;
  metadata = or_keep_map patch.metadata existing.metadata;
}

pub record ActionDescriptor : Type 0 where
  pub id : Text
  pub label : Text
  pub method : Text
  pub path : Text
  pub scope : Text
  pub capability : Text
  pub requires_token : Bool

pub record ValidationIssue : Type 0 where
  pub field : Text
  pub code : Text
  pub message : Text

-- `bff.ValidationFailure` of a message and issues, or a `bff.SuccessResult` with the redirection that
-- is set on it.
pub data ActionResult (P : Type 0) : Type 0 where
  validation_failure : Text → List ValidationIssue → ActionResult P
  success : P → Text → ActionResult P

pub record Bff (P : Type 0) : Type 0 where
  pub action_path : Text → Text
  pub required_fields : ActionRequest → Text → List ValidationIssue
  pub success_result : Text → Entry → Result P

-- `json.Unmarshal` into an entry, and into a map of titles, which may be set to nil.
pub record EntryJson : Type 0 where
  pub unmarshal_entry : Text → Result Entry
  pub unmarshal_title : Text → Result (Option (List (Text × Text)))

abbrev pub cms_content_action_scope : Text
cms_content_action_scope = codes "admin.content.write"

module _ {P : Type 0} (bff : Bff P) where
  abbrev pub descriptor : Text → Text → ActionDescriptor
  descriptor id label = record {
    id = id;
    label = label;
    method = codes "POST";
    path = bff.action_path id;
    scope = cms_content_action_scope;
    capability = content_write;
    requires_token = true;
  }

  unfoldable pub action_descriptors : List ActionDescriptor
  action_descriptors =
      descriptor (codes "post.create") (codes "Create post")
      ∷ descriptor (codes "post.update") (codes "Update post")
      ∷ descriptor (codes "post.trash") (codes "Trash post")
      ∷ []

abbrev pub first_of_list : List Text → Text
first_of_list [] = []
first_of_list (value ∷ values) = value

unfoldable pub first_form_value : ActionRequest → Text → Text
first_form_value req key = elim req.form [ none ↦ [] | some form ↦ first_of_list (form key) ]

module _ (json : EntryJson) where
  -- The title of a form: a JSON object, or the English text; none leaves an empty map.
  unfoldable pub bind_title : Text → Result (Option (List (Text × Text)))
  bind_title value =
      if is_empty value
      then ok (some [])
      else if has_prefix (trim_space value) (codes "{")
      then json.unmarshal_title value
      else ok (some ((codes "en", value) ∷ []))

  -- The values of a form. A field whose value is empty stays as it is, which is empty.
  abbrev pub form_entry : ActionRequest → Option (List (Text × Text)) → Entry
  form_entry req title = record zero_entry {
    title = title;
    id = first_form_value req (codes "id");
    slug = first_form_value req (codes "slug");
    content = first_form_value req (codes "content");
    excerpt = first_form_value req (codes "excerpt");
    status = first_form_value req (codes "status");
    visibility = first_form_value req (codes "visibility");
    author_id = first_form_value req (codes "author_id");
    featured_media_id = first_form_value req (codes "featured_media_id");
  }

  abbrev pub bound_form : ActionRequest → Result (Option (List (Text × Text))) → Result Entry
  bound_form req (err e) = err e
  bound_form req (ok title) = ok (form_entry req title)

  unfoldable pub bind_post_entry : ActionRequest → Result Entry
  unfolding bind_title first_form_value
  bind_post_entry req =
      if not (is_empty req.json)
      then json.unmarshal_entry req.json
      else bound_form req (bind_title (first_form_value req (codes "title")))

module _ {S : Type 0} (tx : Transactions S) (env : Env S) where
  unfoldable pub with_content_service : {A : Type 0} → Exec S A → Exec S A
  with_content_service fn = within_tx tx (ContentTypes.install_built_ins env >> fn)

abbrev issue : Text → Text → Text → ValidationIssue
issue field code message = record { field = field; code = code; message = message }

module _ {P : Type 0} where
  abbrev pub validation_from_error : Error → ActionResult P
  validation_from_error e = validation_failure [] (issue [] (codes "invalid") e ∷ [])

  abbrev id_required : ActionResult P
  id_required =
      validation_failure []
        (issue (codes "id") (codes "required") (codes "Post id is required") ∷ [])

  abbrev post_not_found : ActionResult P
  post_not_found =
      validation_failure [] (issue (codes "id") (codes "not_found") (codes "Post not found") ∷ [])

  -- The result with its redirection.
  abbrev pub redirecting : Text → Result P → Result (ActionResult P)
  redirecting to (err e) = err e
  redirecting to (ok payload) = ok (success payload to)

abbrev pub edit_path : Entry → Text
edit_path e = codes "/go-admin/posts/" ++ (e.id ++ codes "/edit")

-- The post among what was found.
abbrev post_of : Option Entry → Option Entry
post_of none = none
post_of (some e) = if e.kind == kind_post then some e else none

module _ {S P : Type 0} (bff : Bff P) (json : EntryJson) (tx : Transactions S) (env : Env S) where
  -- What `post.create` does in its transaction: a draft, which is published if that is asked for.
  unfoldable pub create_post : Entry → Exec S Entry
  create_post entry = do
    created ← Content.create_draft env entry
    if entry.status == status_published then Content.publish env created.id else pure created

  created_result : Result Entry → Result (ActionResult P)
  created_result (err e) = ok (validation_from_error e)
  created_result (ok created) =
      redirecting (edit_path created) (bff.success_result (codes "created") created)

  create_bound : Result Entry → S → Result (ActionResult P) × S
  unfolding create_post created_result with_content_service
  create_bound (err e) s = (ok (validation_failure e []), s)
  create_bound (ok entry) s =
      let (r, s') =
        with_content_service tx env (create_post (record entry { kind = kind_post })) s in
      (created_result r, s')

  checked_create : List ValidationIssue → ActionRequest → S → Result (ActionResult P) × S
  unfolding create_bound bind_post_entry
  checked_create (i ∷ is) req s = (ok (validation_failure [] (i ∷ is)), s)
  checked_create [] req s = create_bound (bind_post_entry json req) s

  unfoldable pub post_create : ActionRequest → S → Result (ActionResult P) × S
  unfolding checked_create
  post_create req s = checked_create (bff.required_fields req (codes "id")) req s

  -- The id of a request: that of the query, else that of the form.
  unfoldable pub action_id : ActionRequest → Text
  unfolding first_non_empty first_form_value
  action_id req = first_non_empty (req.query (codes "id") ∷ first_form_value req (codes "id") ∷ [])

  -- What `post.update` does in its transaction.
  unfoldable pub update_post : Text → Entry → Exec S Entry
  update_post id patch = do
    found ← Content.get env id
    existing ← require (codes "content not found") (post_of found)
    let updated = merge_post_entry existing patch
    Content.update env updated
    pure updated

  updated_result : Result Entry → Result (ActionResult P)
  updated_result (err e) =
      if e == codes "content not found" then ok post_not_found else ok (validation_from_error e)
  updated_result (ok updated) =
      redirecting (edit_path updated) (bff.success_result (codes "updated") updated)

  update_bound : Text → Result Entry → S → Result (ActionResult P) × S
  unfolding update_post updated_result with_content_service
  update_bound id (err e) s = (ok (validation_failure e []), s)
  update_bound id (ok patch) s =
      let (r, s') = with_content_service tx env (update_post id patch) s in (updated_result r, s')

  unfoldable pub post_update : ActionRequest → S → Result (ActionResult P) × S
  unfolding action_id update_bound bind_post_entry
  post_update req s =
      if is_empty (action_id req)
      then (ok id_required, s)
      else update_bound (action_id req) (bind_post_entry json req) s

  trashed_result : Result Entry → Result (ActionResult P)
  trashed_result (err e) = ok (validation_from_error e)
  trashed_result (ok trashed) =
      redirecting (codes "/go-admin/posts") (bff.success_result (codes "trashed") trashed)

  trash_at : Text → S → Result (ActionResult P) × S
  unfolding trashed_result with_content_service
  trash_at id s =
      let (r, s') = with_content_service tx env (Content.trash env id) s in (trashed_result r, s')

  unfoldable pub post_trash : ActionRequest → S → Result (ActionResult P) × S
  unfolding action_id trash_at
  post_trash req s =
      if is_empty (action_id req) then (ok id_required, s) else trash_at (action_id req) s

  -- The handlers that `newCMSActionExecutors` registers.
  unfoldable pub executor_of : Text → Option (ActionRequest → S → Result (ActionResult P) × S)
  unfolding post_create post_update post_trash
  executor_of id =
      if id == codes "post.create"
      then some post_create
      else if id == codes "post.update"
      then some post_update
      else if id == codes "post.trash"
      then some post_trash
      else none
