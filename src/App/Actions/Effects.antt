-- ===== src/App/Actions/Effects.antt =====
-- The actions on posts: what a failure leaves, and what an update comes to.
use mathlib.Core.Path.{subst}
use mathlib.Core.Option.{some-injective}
use app_gocms.Prelude.{
  ◌≡◌, ◌≢◌, refl, inl, inr, Bool-cases, some, List, [], ◌∷◌, Result, ok, err, Error, Exec, arith,
}
use app_gocms.Text.{Text, codes, ◌==◌, is_empty}
use app_gocms.Domain.{Entry, kind_post}
use app_gocms.Env.{Env}
use app_gocms.Content
use app_gocms.Services.ContentTypes
use app_gocms.Storage.Transactions.{Transactions}
use app_gocms.Storage.Transactions
use app_gocms.App.Actions.{
  ActionRequest, ActionResult, validation_failure, ValidationIssue, Bff, EntryJson,
  with_content_service, create_bound, created_result, checked_create, create_post, post_create,
  update_bound, updated_result, update_post, post_update, trash_at, trashed_result, post_trash,
  executor_of, bind_post_entry, action_id, redirecting, edit_path,
}

module _ {S : Type 0} (tx : Transactions S) (env : Env S) where
  -- What is left of a transaction that failed.
  rolled_back :
      {A : Type 0} (m : Exec S A) (s : S) {e : Error}
      → (with_content_service tx env m s).0 ≡ err e
      → (with_content_service tx env m s).1 ≡ s
  unfolding with_content_service
  rolled_back m s {e} h = Transactions.rolled_back tx _ s e h

  -- What a transaction that succeeded has done.
  pub committed :
      {A : Type 0} (m : Exec S A) (s s' : S) (a : A)
      → with_content_service tx env m s ≡ (ok a, s')
      → (tx.begin s ≡ ok tt)
        × ((ContentTypes.install_built_ins env s).0 ≡ ok tt)
        × (m (ContentTypes.install_built_ins env s).1 ≡ (ok a, s'))
        × (tx.commit s' ≡ ok tt)
  unfolding with_content_service
  committed m s s' a h =
      let (begun, ran, done) = Transactions.committed tx _ s s' a h in
      (begun, ground arith, ground arith, done)

redirecting-ne-failure :
    {P : Type 0} (to : Text) (r : Result P) (m : Text) (is : List ValidationIssue)
    → redirecting to r ≢ ok (validation_failure m is)
redirecting-ne-failure to (ok payload) m is h = absurd (ground arith)
redirecting-ne-failure to (err e) m is h = absurd (ground arith)

module _ {S P : Type 0} (tx : Transactions S) (env : Env S) where
  -- Where only an error of the transaction is presented as a failure, a failure has changed nothing.
  failure_keeps :
      (present : Result Entry → Result (ActionResult P)) (work : Exec S Entry) (s : S) (m : Text)
      (is : List ValidationIssue)
      → ((e : Entry) → present (ok e) ≢ ok (validation_failure m is))
      → present (with_content_service tx env work s).0 ≡ ok (validation_failure m is)
      → (with_content_service tx env work s).1 ≡ s
  failure_keeps present work s m is never h = from (with_content_service tx env work s).0 refl h
    where
      from :
          (o : Result Entry)
          → (with_content_service tx env work s).0 ≡ o
          → present o ≡ ok (validation_failure m is)
          → (with_content_service tx env work s).1 ≡ s
      from (ok e) at g = absurd (never e g)
      from (err e) at g = rolled_back tx env work s at

module _ {S P : Type 0} (bff : Bff P) (json : EntryJson) (tx : Transactions S) (env : Env S) where
  failed_create :
      (o : Result Entry) (s : S) (m : Text) (is : List ValidationIssue)
      → (create_bound bff json tx env o s).0 ≡ ok (validation_failure m is)
      → (create_bound bff json tx env o s).1 ≡ s
  unfolding create_bound created_result
  failed_create (err e) s m is h = refl
  failed_create (ok entry) s m is h =
      failure_keeps tx env (created_result bff json tx env)
        (create_post bff json tx env (record entry { kind = kind_post })) s m is
        (λ e. redirecting-ne-failure (edit_path e) (bff.success_result (codes "created") e) m is) h

  failed_checked_create :
      (issues : List ValidationIssue) (req : ActionRequest) (s : S) (m : Text)
      (is : List ValidationIssue)
      → (checked_create bff json tx env issues req s).0 ≡ ok (validation_failure m is)
      → (checked_create bff json tx env issues req s).1 ≡ s
  unfolding checked_create
  failed_checked_create [] req s m is h = failed_create (bind_post_entry json req) s m is h
  failed_checked_create (i ∷ issues) req s m is h = refl

  failed_update :
      (id : Text) (o : Result Entry) (s : S) (m : Text) (is : List ValidationIssue)
      → (update_bound bff json tx env id o s).0 ≡ ok (validation_failure m is)
      → (update_bound bff json tx env id o s).1 ≡ s
  unfolding update_bound updated_result
  failed_update id (err e) s m is h = refl
  failed_update id (ok patch) s m is h =
      failure_keeps tx env (updated_result bff json tx env) (update_post bff json tx env id patch) s
        m is
        (λ e. redirecting-ne-failure (edit_path e) (bff.success_result (codes "updated") e) m is) h

  failed_trash :
      (id : Text) (s : S) (m : Text) (is : List ValidationIssue)
      → (trash_at bff json tx env id s).0 ≡ ok (validation_failure m is)
      → (trash_at bff json tx env id s).1 ≡ s
  unfolding trash_at trashed_result
  failed_trash id s m is h =
      failure_keeps tx env (trashed_result bff json tx env) (Content.trash env id) s m is
        (λ e.
          redirecting-ne-failure (codes "/go-admin/posts") (bff.success_result (codes "trashed") e)
            m is)
        h

  -- An executor leaves the state as it was when it answers a failure.
  record IsAtomic (run : ActionRequest → S → Result (ActionResult P) × S) : Type 0 where
    keeps :
        (req : ActionRequest) (s : S) (m : Text) (is : List ValidationIssue)
        → (run req s).0 ≡ ok (validation_failure m is)
        → (run req s).1 ≡ s

  create-IsAtomic : IsAtomic (post_create bff json tx env)
  unfolding post_create
  create-IsAtomic = record {
    keeps =
        λ req s m is h. failed_checked_create (bff.required_fields req (codes "id")) req s m is h;
  }

  update-IsAtomic : IsAtomic (post_update bff json tx env)
  unfolding post_update
  update-IsAtomic = record {
    keeps = λ req s m is h. elim (Bool-cases (is_empty (action_id bff json tx env req))) [
      | inl e ↦ rw e refl
      | inr e ↦ rw e (
          failed_update (action_id bff json tx env req) (bind_post_entry json req) s m is
            (rw e at h))
    ];
  }

  trash-IsAtomic : IsAtomic (post_trash bff json tx env)
  unfolding post_trash
  trash-IsAtomic = record {
    keeps = λ req s m is h. elim (Bool-cases (is_empty (action_id bff json tx env req))) [
      | inl e ↦ rw e refl
      | inr e ↦ rw e (failed_trash (action_id bff json tx env req) s m is (rw e at h))
    ];
  }

  executor-IsAtomic :
      (id : Text) (run : ActionRequest → S → Result (ActionResult P) × S)
      → executor_of bff json tx env id ≡ some run
      → IsAtomic run
  unfolding executor_of
  executor-IsAtomic id run h = elim (Bool-cases (id == codes "post.create")) [
    | inl e ↦ subst IsAtomic (some-injective _ run (rw e at h)) create-IsAtomic
    | inr e ↦ elim (Bool-cases (id == codes "post.update")) [
      | inl f ↦ subst IsAtomic (some-injective _ run (rw (e, f) at h)) update-IsAtomic
      | inr f ↦ elim (Bool-cases (id == codes "post.trash")) [
        | inl g ↦ subst IsAtomic (some-injective _ run (rw (e, f, g) at h)) trash-IsAtomic
        | inr g ↦ absurd (ground (arith, rw (e, f, g) at h))
      ]
    ]
  ]

  -- An action that answers a validation failure, of whatever cause (a missing field, a body that
  -- cannot be read, an error of the service, of the storage or of the commit), has changed nothing.
  pub failure_rolls_back :
      (id : Text) (run : ActionRequest → S → Result (ActionResult P) × S) (req : ActionRequest)
      (s : S) (m : Text) (is : List ValidationIssue)
      → executor_of bff json tx env id ≡ some run
      → (run req s).0 ≡ ok (validation_failure m is)
      → (run req s).1 ≡ s
  failure_rolls_back id run req s m is known h = (executor-IsAtomic id run known).keeps req s m is h
