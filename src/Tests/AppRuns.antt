-- ===== src/Tests/AppRuns.antt =====
-- Runs of the boundary of authentication and of the actions on posts. A token of an action is signed
-- by nothing but its own text, and the hash of a raw token is the token.
use app_gocms.Prelude.{
  All, false, ◌+◌, ◌-◌, ◌<◌, ◌≡◌, ◌≢◌, ◌⊎◌, refl, sym, ap, inl, inr, Bool, true, ◌&&◌, none, some,
  [], ◌∷◌, arith, leb, if◌then◌else◌, Result, ok, err, Bool-cases,
}
use mathlib.Core.Path.{subst}
use mathlib.Core.Option.{some-injective}
use app_gocms.Prelude.Errors.{ok-injective}
use app_gocms.Text.{Text, codes, ◌==◌, is_empty, trim_space, to_lower}
use app_gocms.Authn.Principals.{AuthUser, principal_for_user, has, contains_text, content_write}
use app_gocms.Authn.{
  MemoryStore, authenticate_password, count_failures, is_called, user, user_by_identifier,
  normalized, recent_failures, day, principal,
}
use app_gocms.Screens.{ScreenModel, metadata_of}
use app_gocms.App.Boundary.{
  HttpRequest, SessionClaims, ActionToken, Signer, Instants, unix, ten_minutes, scope_of,
  inject_screen_action_token, valid_action_token, authorize, complete_login, principal_from_request,
  require_admin, admit,
}
use app_gocms.App.Boundary.ActionTokens.{SignerLaws, valid-inject_screen_action_token}
use app_gocms.App.Boundary.Authorized.{InSession, Bears, authorize_sound}
use app_gocms.App.Boundary.Logins.{IsKeyed, complete_login_opens}
use app_gocms.App.Boundary.Seeded.{after_logins, seeded-IsKeyed}
use app_gocms.Authn.Lockout.{Login}
use app_gocms.Authn.Seeded.{store_of, new_seeded_memory_store, seed_users}
use app_gocms.Extensions.{Runtime, Route, handled, serve_route}
use app_gocms.App.Extended.{PluginHandler, graphql, extension_runtime, extension_runtime_guarded}

abbrev pub plain : Text → Text
plain raw = raw

abbrev same_text : Text → Text → Bool
same_text password hash = password == hash

abbrev ann : AuthUser
ann = record {
  id = codes "u1";
  email = codes "ann@x.io";
  password_hash = codes "pw";
  roles = codes "editor" ∷ [];
  active = true;
}

abbrev pub store : MemoryStore
store = record { users = (ann.id, ann) ∷ []; tokens = []; attempts = [] }

abbrev claims : SessionClaims
claims = record { principal_id = codes "u1"; profile_id = codes "gocms-admin" }

-- The token is written before its text, as its instant and its action.
abbrev token_in : Text → Result ActionToken
token_in [] = err (codes "invalid")
token_in (exp ∷ action) = ok (record { action = action; exp = exp })

abbrev pub signed : Signer
signed = record {
  signed_encode = λ t secret. ok (t.exp ∷ t.action);
  signed_decode = λ raw secret. token_in raw;
}

signed-SignerLaws : SignerLaws signed
signed-SignerLaws = record {
  decode-encode = λ t secret raw made. ap token_in (sym (ok-injective (t.exp ∷ t.action) raw made));
}

abbrev values : Text → Text
values key =
    if key == codes "identifier"
    then codes "U1"
    else if key == codes "password"
    then codes "pw"
    else if key == codes "action_token"
    then 700 ∷ codes "login"
    else []

abbrev login_form : HttpRequest
login_form = record {
  method = codes "POST";
  session = none;
  authorization = [];
  form = ok tt;
  value = values;
  remote_addr = codes "::1";
}

abbrev pub signed_in : HttpRequest
signed_in = record login_form { session = some claims; value = λ key. [] }

authorize_sound_example :
    (u : AuthUser) × (u.active ≡ true)
    × (has (principal_for_user u) content_write ≡ true)
    × (InSession plain signed_in 100 store u ⊎ Bears plain signed_in 100 store u content_write)
unfolding authorize principal user has contains_text principal_for_user ◌==◌ is_empty
authorize_sound_example =
    authorize_sound plain signed_in 100 store content_write (λ h. absurd (ground (arith, h))) refl

found_ann : (name : Text) (u : AuthUser) → user_by_identifier store name ≡ some u → ann ≡ u
unfolding user_by_identifier
found_ann name u found = elim (Bool-cases (is_called (normalized name) ann)) [
  | inl e ↦ some-injective ann u (rw e at found)
  | inr e ↦ absurd (ground (arith, rw e at found))
]

ann_stored : user store ann.id ≡ some ann
unfolding user ◌==◌
ann_stored = refl

store-IsKeyed : IsKeyed store
store-IsKeyed = record {
  by_id = λ name u found. subst (λ x. user store x.id ≡ some x) (found_ann name u found) ann_stored;
  named = λ name u found.
      subst (λ x. x.id ≢ []) (found_ann name u found) (λ h. absurd (ground (arith, h)));
}

abbrev instants : Instants
instants = record { token_at = 5; checked_at = 5; saved_at = 6 }

abbrev after_login : MemoryStore
after_login = (complete_login signed [] same_text (λ c. ok tt) login_form instants store).1

complete_login_opens_example :
    (u : AuthUser) × (user_by_identifier store (normalized (login_form.value (codes "identifier")))
      ≡ some u)
    × (u.active ≡ true)
    × (same_text (login_form.value (codes "password")) u.password_hash ≡ true)
    × (recent_failures store
          (normalized (login_form.value (codes "identifier")))
          (instants.checked_at - day)
        < 3)
    × (valid_action_token signed []
          (login_form.value (codes "action_token"))
          (codes "login")
          instants.token_at
        ≡ true)
    × (principal_from_request plain signed_in 100 after_login ≡ some (principal_for_user u))
    × (require_admin plain signed_in 100 after_login ≡ admit (some (principal_for_user u)))
unfolding complete_login valid_action_token ◌==◌ is_empty authenticate_password to_lower trim_space
    count_failures user_by_identifier principal_for_user
complete_login_opens_example =
    complete_login_opens signed [] same_text (λ c. ok tt) plain login_form signed_in instants 100
      store after_login (codes "/go-admin/") claims store-IsKeyed refl refl

abbrev post_form : ScreenModel
post_form = record {
  record_type = codes "post";
  pagination = none;
  rows = [];
  empty_state = none;
  form_record = none;
  view = codes "form";
  metadata = (codes "action_scope", codes "admin.content.write") ∷ [];
}

abbrev with_action_token : ScreenModel
with_action_token = record post_form {
  metadata = (codes "action_token", 600 ∷ codes "admin.content.write") ∷ post_form.metadata;
}

valid-inject_screen_action_token_example :
    valid_action_token signed []
      (metadata_of (codes "action_token") with_action_token.metadata)
      (codes "admin.content.write")
      30
    ≡ (codes "admin.content.write" == codes "admin.content.write"
        && leb (unix 30) (unix (0 + ten_minutes)))
unfolding scope_of inject_screen_action_token ◌==◌ is_empty
valid-inject_screen_action_token_example =
    valid-inject_screen_action_token signed signed-SignerLaws [] (codes "form") post_form
      with_action_token (codes "admin.content.write") (codes "admin.content.write") 0 30 refl refl

abbrev seeded_store : MemoryStore
seeded_store = store_of (codes "admin") (codes "editor") (codes "viewer")

abbrev editor_login : Login
editor_login = record {
  identifier = codes "Editor@example.test";
  password = codes "editor";
  remote_addr = codes "::1";
  checked_at = 5;
  saved_at = 6;
}

seeded-IsKeyed_example : IsKeyed (after_logins same_text (editor_login ∷ []) seeded_store)
unfolding new_seeded_memory_store seed_users
seeded-IsKeyed_example =
    seeded-IsKeyed same_text (λ password. ok password) seeded_store (editor_login ∷ []) refl

abbrev no_one : Text → Bool × Bool
no_one capability = (true, false)

extension_runtime_guarded_example :
    (r : Runtime PluginHandler Text) × (extension_runtime ≡ ok r)
    × All
        (λ (route : Route PluginHandler).
          (route.handler ≡ graphql) ⊎ (serve_route no_one route ≢ handled))
        r.active_context.routes
extension_runtime_guarded_example =
    extension_runtime_guarded no_one (λ capability h. ground (arith, ap (λ x. x.1) h))
