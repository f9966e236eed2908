-- ===== src/Tests/BffRuns.antt =====
-- Runs of the handler of actions of the BFF. The dispatch finds the descriptor of the action, and
-- looks for the token in the query.
use mathlib.Core.Path.{subst}
use mathlib.Core.Option.{some-injective}
use app_gocms.Prelude.{
  ◌≡◌, ◌⊎◌, refl, ap, inl, inr, Bool, true, Bool-cases, not, ◌&&◌, ◌||◌, Option, none, some, List,
  [], ◌∷◌, ◌++◌, find, if◌then◌else◌, ok, arith,
}
use app_gocms.Text.{Text, codes, ◌==◌, is_empty, contains, has_prefix, trim_space}
use app_gocms.Text.Laws.{==_iff}
use app_gocms.Authn.{principal, user}
use app_gocms.Authn.Principals.{has, contains_text, principal_for_user}
use app_gocms.Domain.{validate}
use app_gocms.Content
use app_gocms.Services.ContentTypes
use app_gocms.Storage.Transactions.{within_tx}
use app_gocms.App.Boundary.{valid_action_token, principal_from_request}
use app_gocms.App.Actions.{ActionDescriptor, success, action_descriptors, executor_of, post_trash}
use app_gocms.App.Handling.{
  BffRequest, BffInstants, DispatchInput, Dispatched, unknown_action, forbidden, Executor,
  Dispatcher, acted, handle_bff_action, require_bff_json, parse_action_request,
}
use app_gocms.App.Handling.Dispatching.{outcome_of, Performs, DispatchLaws}
use app_gocms.App.Handling.Guarded.{Acted, bff_action_guarded}
use app_gocms.Tests.Memory.{Memory, memory}
use app_gocms.Tests.ActionRuns.{ids, no_json, committed, blog}
use app_gocms.Tests.AppRuns.{signed, plain, store, signed_in}

abbrev token_of : DispatchInput → Text
token_of input = input.request.query (codes "token")

abbrev is_permitted : DispatchInput → ActionDescriptor → Bool
is_permitted input d =
    d.id == input.action_id
    && (has input.principal d.capability
        && (not d.requires_token || input.validator (token_of input) d.scope))

find_split :
    {A : Type 0} (p : A → Bool) (xs : List A) (x : A)
    → find p xs ≡ some x
    → (p x ≡ true) × (before : List A) × (after : List A) × (xs ≡ before ++ x ∷ after)
find_split p [] x h = absurd (ground (arith, h))
find_split p (y ∷ ys) x h = elim (Bool-cases (p y)) [
  | inl e ↦
      let same : y ≡ x = some-injective y x (rw e at h) in
      (subst (λ z. p z ≡ true) same e, [], ys, ap (λ z. z ∷ ys) same)
  | inr e ↦
      let (passes, before, after, split) = find_split p ys x (rw e at h) in
      (passes, y ∷ before, after, ap (λ zs. y ∷ zs) split)
]

permitted_parts :
    (input : DispatchInput) (d : ActionDescriptor)
    → is_permitted input d ≡ true
    → (d.id ≡ input.action_id)
      × (has input.principal d.capability ≡ true)
      × (d.requires_token ≡ true → input.validator (token_of input) d.scope ≡ true)
permitted_parts input d h =
    (ground (arith, ==_iff d.id input.action_id), ground arith, λ asked. ground arith)

module _ {S P : Type 0} where
  run_with : DispatchInput → Option ActionDescriptor → Option (Executor S P) → S → Dispatched P × S
  run_with input none executor s = (forbidden, s)
  run_with input (some d) none s = (unknown_action, s)
  run_with input (some d) (some run) s =
      (outcome_of (run input.request s).0, (run input.request s).1)

  dispatch :
      List ActionDescriptor → (Text → Option (Executor S P)) → DispatchInput → S → Dispatched P × S
  unfolding run_with
  dispatch descriptors executors input s =
      run_with input (find (is_permitted input) descriptors) (executors input.action_id) s

  abbrev dispatcher : Dispatcher S P
  dispatcher = record {
    secure_dispatch = dispatch;
    action_token_of = λ request. request.query (codes "token");
    http_status = λ result. 200;
  }

  runs_securely :
      (descriptors : List ActionDescriptor) (executors : Text → Option (Executor S P))
      (input : DispatchInput) (s : S) (found : Option ActionDescriptor)
      (executor : Option (Executor S P))
      → find (is_permitted input) descriptors ≡ found
      → executors input.action_id ≡ executor
      → ((run_with input found executor s).1 ≡ s)
        ⊎ Performs dispatcher descriptors executors input s (run_with input found executor s)
  unfolding run_with
  runs_securely descriptors executors input s none executor is known = inl refl
  runs_securely descriptors executors input s (some d) none is known = inl refl
  runs_securely descriptors executors input s (some d) (some run) is known =
      let (passes, before, after, split) = find_split (is_permitted input) descriptors d is in
      let (named, permitted, validated) = permitted_parts input d passes in
      inr (record {
        before = before;
        descriptor = d;
        after = after;
        listed = split;
        named = named;
        permitted = permitted;
        validated = validated;
        run = run;
        known = known;
        ran = refl;
      })

  dispatcher-DispatchLaws : DispatchLaws dispatcher
  unfolding dispatch
  dispatcher-DispatchLaws = record {
    secure =
        λ descriptors executors input s. runs_securely descriptors executors input s _ _ refl refl;
  }

-- A request to trash the post, by a signed-in editor, with a token for the content scope.
abbrev trash_request : BffRequest
trash_request = record {
  http = signed_in;
  path_value = codes "post.trash";
  query = λ key.
      if key == codes "id"
      then codes "p1" ∷ []
      else if key == codes "token"
      then (700 ∷ codes "admin.content.write") ∷ []
      else [];
  content_type = codes "application/x-www-form-urlencoded";
  body = ok [];
  post_form = λ key. [];
}

abbrev at_once : BffInstants
at_once = record { guarded_at = 100; named_at = 100; token_at = 100 }

abbrev executors : Text → Option (Executor Memory Text)
executors = executor_of ids no_json committed memory

abbrev trashed_blog : Memory
trashed_blog =
    (handle_bff_action dispatcher (action_descriptors ids) executors signed [] plain store
      trash_request at_once blog).1

bff_action_guarded_example :
    (trashed_blog ≡ blog)
    ⊎ Acted dispatcher ids executors signed [] plain store trash_request at_once blog trashed_blog
bff_action_guarded_example =
    bff_action_guarded dispatcher ids executors signed [] plain store dispatcher-DispatchLaws
      trash_request at_once blog

-- The request is answered by the result of the executor.
trash_answered :
    (handle_bff_action dispatcher
      (action_descriptors ids)
      executors
      signed
      []
      plain
      store
      trash_request
      at_once
      blog).0
    ≡ acted 200 (success (codes "p1") (codes "/go-admin/posts"))
unfolding handle_bff_action require_bff_json parse_action_request dispatch run_with executor_of
    post_trash principal user has contains_text principal_for_user ◌==◌ is_empty contains has_prefix
    trim_space valid_action_token principal_from_request within_tx ContentTypes.install_built_ins
    memory Content.trash Content.transition_status Content.transition action_descriptors validate
trash_answered = refl
