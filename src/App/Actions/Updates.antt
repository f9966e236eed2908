-- ===== src/App/Actions/Updates.antt =====
-- Updates of posts: the action and the PATCH of the REST API come to the same, and what a form
-- without a title does.
use app_gocms.Prelude.{
  ◌≡◌, refl, sym, ap, ◌∙◌, inl, inr, not, Bool-cases, Option, none, some, List, [], ◌∷◌,
  if◌then◌else◌, Result, ok, err, Exec, pure, require, ◌>>=◌, ◌>>◌, arith,
}
use app_gocms.Prelude.Errors.{continue, ok-injective}
use app_gocms.Text.{Text, codes, ◌==◌, is_empty}
use app_gocms.Text.Laws.{==_iff}
use app_gocms.Domain.{Entry, kind_post}
use app_gocms.Env.{Env}
use app_gocms.Content
use app_gocms.Services.ContentTypes
use app_gocms.Rest.Merge.{merge_content, or_keep_map}
use app_gocms.Rest.Reply.{Request, respond, entry}
use app_gocms.Rest.Routes.{Authorizer, refusal, split_path, guarded, decoded, answer_with}
use app_gocms.Rest.Content.{content}
use app_gocms.Rest.Dispatch.{handle, dispatch}
use app_gocms.Storage.Transactions.{Transactions}
use app_gocms.Authn.Principals.{content_write}
use app_gocms.App.Actions.{
  ActionRequest, success, Bff, EntryJson, with_content_service, update_bound, updated_result,
  merge_post_entry, update_post, post_update, post_of, bind_post_entry, action_id, redirecting,
  edit_path, first_form_value, bind_title, bound_form, form_entry,
}
use app_gocms.App.Actions.Effects.{committed}

-- The forms and the REST API merge alike.
merge_post_entry-merge_content :
    (existing patch : Entry) → merge_post_entry existing patch ≡ merge_content existing patch
unfolding merge_post_entry merge_content
merge_post_entry-merge_content existing patch = refl

module _ {S P : Type 0} (bff : Bff P) (json : EntryJson) (tx : Transactions S) (env : Env S) where
  success_of :
      (o : Result Entry) (p : P) (to : Text)
      → updated_result bff json tx env o ≡ ok (success p to)
      → (e : Entry) × (o ≡ ok e)
        × (bff.success_result (codes "updated") e ≡ ok p)
        × (to ≡ edit_path e)
  unfolding updated_result
  success_of (ok e) p to h =
      let (made, there) = presented (bff.success_result (codes "updated") e) h in
      (e, refl, made, there)
    where
      presented :
          (o : Result P)
          → redirecting (edit_path e) o ≡ ok (success p to)
          → (o ≡ ok p) × (to ≡ edit_path e)
      presented (ok q) g = ground arith
      presented (err x) g = absurd (ground arith)
  success_of (err e) p to h = absurd (ground arith)

  -- What an update does after its look-up.
  abbrev after_get : Entry → Option Entry → Exec S Entry
  after_get patch found = require (codes "content not found") (post_of found) >>= λ existing.
      Content.update env (merge_post_entry existing patch) >> pure (merge_post_entry existing patch)

  updated_found :
      (patch e : Entry) (o : Result (Option Entry)) (t s' : S)
      → continue o (after_get patch) t ≡ (ok e, s')
      → (existing : Entry) × (o ≡ ok (some existing))
        × (existing.kind ≡ kind_post)
        × (e ≡ merge_post_entry existing patch)
        × (Content.update env (merge_post_entry existing patch) t ≡ (ok tt, s'))
  updated_found patch e (ok (some x)) t s' h = elim (Bool-cases (x.kind == kind_post)) [
    | inl k ↦ (
      x,
      refl,
      (==_iff x.kind kind_post).0 k,
      ground (arith, rw k at h),
      ground (arith, rw k at h),
    )
    | inr k ↦ absurd (ground (arith, rw k at h))
  ]
  updated_found patch e (ok none) t s' h = absurd (ground arith)
  updated_found patch e (err x) t s' h = absurd (ground arith)

  updated_post :
      (id : Text) (patch e : Entry) (s s' : S)
      → update_post bff json tx env id patch s ≡ (ok e, s')
      → (existing : Entry) × ((env.get id s).0 ≡ ok (some existing))
        × (existing.kind ≡ kind_post)
        × (e ≡ merge_content existing patch)
        × (Content.update env (merge_content existing patch) (env.get id s).1 ≡ (ok tt, s'))
  unfolding update_post Content.get
  updated_post id patch e s s' h =
      let (existing, found, kind, merged, updated) =
        updated_found patch e (env.get id s).0 (env.get id s).1 s' h in
      let same = merge_post_entry-merge_content existing patch in
      (
        existing,
        found,
        kind,
        merged ∙ same,
        ap (λ x. Content.update env x (env.get id s).1) (sym same) ∙ updated,
      )

module _ {S : Type 0} (tx : Transactions S) (env : Env S) (authorize : Authorizer)
    (r : Request) where
  -- A PATCH of a post in which nothing fails.
  patched :
      (path id : Text) (existing patch : Entry) (s s' : S)
      → split_path path ≡ codes "posts" ∷ id ∷ []
      → r.method ≡ codes "PATCH"
      → refusal authorize content_write ≡ none
      → r.entry_body ≡ ok patch
      → tx.begin s ≡ ok tt
      → (ContentTypes.install_built_ins env s).0 ≡ ok tt
      → (env.get id (ContentTypes.install_built_ins env s).1).0 ≡ ok (some existing)
      → Content.update env
          (merge_content existing patch)
          (env.get id (ContentTypes.install_built_ins env s).1).1
        ≡ (ok tt, s')
      → tx.commit s' ≡ ok tt
      → handle tx env authorize r path s ≡ (respond 200 (entry (merge_content existing patch)), s')
  unfolding handle dispatch content guarded decoded answer_with Content.get ◌==◌
  patched path id existing patch s s' parts method granted body begun installed found updated done =
      ground arith

module _ {S P : Type 0} (bff : Bff P) (json : EntryJson) (tx : Transactions S) (env : Env S) where
  update_bound_ok :
      (id : Text) (o : Result Entry) (s s' : S) (p : P) (to : Text)
      → update_bound bff json tx env id o s ≡ (ok (success p to), s')
      → (patch : Entry) × (e : Entry) × (o ≡ ok patch)
        × (with_content_service tx env (update_post bff json tx env id patch) s ≡ (ok e, s'))
        × (bff.success_result (codes "updated") e ≡ ok p)
        × (to ≡ edit_path e)
  unfolding update_bound
  update_bound_ok id (err x) s s' p to h = absurd (ground arith)
  update_bound_ok id (ok patch) s s' p to h =
      let (e, ends, made, there) =
        success_of bff json tx env
          (with_content_service tx env (update_post bff json tx env id patch) s).0 p to
          (ap (λ x. x.0) h) in
      (patch, e, refl, (λ i. (ends i, (ap (λ x. x.1) h) i)), made, there)

  post_update_ok :
      (req : ActionRequest) (s s' : S) (p : P) (to : Text)
      → post_update bff json tx env req s ≡ (ok (success p to), s')
      → (patch : Entry) × (e : Entry) × (bind_post_entry json req ≡ ok patch)
        × (with_content_service tx env
              (update_post bff json tx env (action_id bff json tx env req) patch)
              s
            ≡ (ok e, s'))
        × (bff.success_result (codes "updated") e ≡ ok p)
        × (to ≡ edit_path e)
  unfolding post_update
  post_update_ok req s s' p to h = elim (Bool-cases (is_empty (action_id bff json tx env req))) [
    | inl none_given ↦ absurd (ground (arith, rw none_given at h))
    | inr given ↦
        update_bound_ok (action_id bff json tx env req) (bind_post_entry json req) s s' p to
          (rw given at h)
  ]

  -- An update of a post by the form that succeeds is the PATCH of the REST API, of the post under the
  -- same id with the same fields: an allowed PATCH answers the same entry, of which the form's
  -- result is made, and leaves the same state. The entry that was stored was a post, and the fields
  -- that the form does not name are kept.
  pub post_update-handle :
      (req : ActionRequest) (authorize : Authorizer) (r : Request) (path : Text) (s s' : S) (p : P)
      (to : Text)
      → split_path path ≡ codes "posts" ∷ action_id bff json tx env req ∷ []
      → r.method ≡ codes "PATCH"
      → refusal authorize content_write ≡ none
      → r.entry_body ≡ bind_post_entry json req
      → post_update bff json tx env req s ≡ (ok (success p to), s')
      → (existing : Entry) × (patch : Entry) × (existing.kind ≡ kind_post)
        × (bind_post_entry json req ≡ ok patch)
        × (bff.success_result (codes "updated") (merge_content existing patch) ≡ ok p)
        × (to ≡ edit_path (merge_content existing patch))
        × (handle tx env authorize r path s
            ≡ (respond 200 (entry (merge_content existing patch)), s'))
  post_update-handle req authorize r path s s' p to parts method granted body h =
      let (patch, e, bound, ran, made, there) = post_update_ok req s s' p to h in
      let (begun, installed, work, done) =
        committed tx env (update_post bff json tx env (action_id bff json tx env req) patch) s s' e
          ran in
      let (existing, found, kind, merged, updated) =
        updated_post bff json tx env (action_id bff json tx env req) patch e
          (ContentTypes.install_built_ins env s).1 s' work in
      (
        existing,
        patch,
        kind,
        bound,
        ap (bff.success_result (codes "updated")) (sym merged) ∙ made,
        there ∙ ap edit_path merged,
        patched tx env authorize r path (action_id bff json tx env req) existing patch s s' parts
            method granted (body ∙ bound) begun installed found updated done,
      )

  titleless :
      (req : ActionRequest) (patch : Entry)
      → req.json ≡ []
      → first_form_value req (codes "title") ≡ []
      → bind_post_entry json req ≡ ok patch
      → patch.title ≡ some []
  unfolding bind_post_entry bind_title is_empty
  titleless req patch no_body no_title bound =
      let empty : bind_post_entry json req ≡ ok (form_entry json req (some [])) =
        ap
          (λ b.
            if not (is_empty b)
            then json.unmarshal_entry b
            else bound_form json req (bind_title json (first_form_value req (codes "title"))))
          no_body
        ∙ ap (λ t. bound_form json req (bind_title json t)) no_title in
      ap (λ (e : Entry). e.title) (ok-injective patch _ (sym bound ∙ empty))

  titled_by_patch :
      (e patch : Entry) (title : List (Text × Text))
      → patch.title ≡ some title
      → (merge_content e patch).title ≡ some title
  unfolding merge_content or_keep_map
  titled_by_patch e patch title h = ap (λ o. or_keep_map o e.title) h

  -- An update by a form that has no title takes the stored title away: the entry that is updated, of
  -- which the result is made, has an empty map of titles.
  pub form_without_title :
      (req : ActionRequest) (s s' : S) (p : P) (to : Text)
      → req.json ≡ []
      → first_form_value req (codes "title") ≡ []
      → post_update bff json tx env req s ≡ (ok (success p to), s')
      → (e : Entry) × (bff.success_result (codes "updated") e ≡ ok p)
        × (e.title ≡ some [])
        × (t : S) × (Content.update env e t ≡ (ok tt, s'))
  form_without_title req s s' p to no_body no_title h =
      let (patch, e, bound, ran, made, there) = post_update_ok req s s' p to h in
      let (begun, installed, work, done) =
        committed tx env (update_post bff json tx env (action_id bff json tx env req) patch) s s' e
          ran in
      let (existing, found, kind, merged, updated) =
        updated_post bff json tx env (action_id bff json tx env req) patch e
          (ContentTypes.install_built_ins env s).1 s' work in
      (
        e,
        made,
        ap (λ (x : Entry). x.title) merged
            ∙ titled_by_patch existing patch [] (titleless req patch no_body no_title bound),
        (env.get (action_id bff json tx env req) (ContentTypes.install_built_ins env s).1).1,
        ap
              (λ x.
                Content.update env x
                  (env.get (action_id bff json tx env req)
                    (ContentTypes.install_built_ins env s).1).1)
              merged
            ∙ updated,
      )
