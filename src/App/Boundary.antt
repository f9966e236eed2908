-- ===== src/App/Boundary.antt =====
-- pkg/app/app.go: `authBoundary`, which says who a request comes from, and issues and checks the
-- tokens of actions. The signed texts and the session cookies are the framework's, and are arguments;
-- an instant is a number of nanoseconds, and `Unix` of it leaves out the fixed distance of the epochs.
pub mod Authorized
pub mod ActionTokens
pub mod Logins
pub mod Seeded
use app_gocms.Prelude.{
  ℕ, ◌+◌, ◌*◌, ◌/◌, ◌≤◌, Bool, true, false, not, ◌&&◌, Option, none, some, List, [], ◌∷◌, leb,
  if◌then◌else◌, Result, ok, err, Error,
}
use app_gocms.Text.{Text, codes, ◌==◌, is_empty, has_prefix, trim_prefix}
use app_gocms.Domain.{Time}
use app_gocms.Authn.{
  MemoryStore, AuthError, login_locked, invalid_credentials, missing_capability, app_token_failed,
  Outcome, granted, denied, principal, authenticate_app_token, authenticate_password,
}
use app_gocms.Authn.Principals.{Principal, has, admin_access}
use app_gocms.Screens.{ScreenModel, metadata_of}

pub record SessionClaims : Type 0 where
  pub principal_id : Text
  pub profile_id : Text

-- What the boundary reads of a request: its method, the claims of its session cookie if the framework
-- accepts it, the header "Authorization", whether its form can be parsed, and the values of the form.
pub record HttpRequest : Type 0 where
  pub method : Text
  pub session : Option SessionClaims
  pub authorization : Text
  pub form : Result (Unit {0})
  pub value : Text → Text
  pub remote_addr : Text

pub record ActionToken : Type 0 where
  pub action : Text
  pub exp : ℕ

-- `SignedEncode` and `SignedDecode`, with the secret last.
pub record Signer : Type 0 where
  pub signed_encode : ActionToken → Text → Result Text
  pub signed_decode : Text → Text → Result ActionToken

abbrev pub nanoseconds : ℕ
nanoseconds = 1000000000

abbrev pub unix : Time → ℕ
unix t = t / nanoseconds

abbrev pub ten_minutes : ℕ
ten_minutes = 600000000000

-- The claims of a session that name someone.
named_session : Option SessionClaims → Option Text
named_session none = none
named_session (some c) = if is_empty c.principal_id then none else some c.principal_id

abbrev named_principal : MemoryStore → Option Text → Option Principal
named_principal s none = none
named_principal s (some id) = principal s id

unfoldable pub session_principal : HttpRequest → MemoryStore → Option Principal
unfolding named_session
session_principal r s = named_principal s (named_session r.session)

granted_only : Outcome Principal → Option Principal
granted_only (granted p) = some p
granted_only (denied e) = none

abbrev first_of : Option Principal → Option Principal → Option Principal
first_of (some p) other = some p
first_of none other = other

abbrev pub may : Text → Option Principal → Bool × Bool
may capability none = (false, false)
may capability (some p) = (true, has p capability)

-- What `requireAdmin` does with a request.
pub data Access : Type 0 where
  to_login : Access
  refused : Access
  admitted : Principal → Access

abbrev pub admit : Option Principal → Access
admit none = to_login
admit (some p) = if has p admin_access then admitted p else refused

module _ (token_hash : Text → Text) where
  unfoldable pub token_principal : HttpRequest → Time → MemoryStore → Option Principal
  unfolding granted_only
  token_principal r now s =
      if has_prefix r.authorization (codes "Bearer ")
      then granted_only
          (authenticate_app_token token_hash (trim_prefix r.authorization (codes "Bearer ")) now s)
      else none

  -- The session comes first; `now` is the instant at which a token is checked.
  unfoldable pub principal_from_request : HttpRequest → Time → MemoryStore → Option Principal
  unfolding session_principal token_principal
  principal_from_request r now s = first_of (session_principal r s) (token_principal r now s)

  -- Whether the request is authenticated, and whether it is allowed.
  unfoldable pub authorize : HttpRequest → Time → MemoryStore → Text → Bool × Bool
  unfolding principal_from_request
  authorize r now s capability = may capability (principal_from_request r now s)

  unfoldable pub require_admin : HttpRequest → Time → MemoryStore → Access
  unfolding principal_from_request
  require_admin r now s = admit (principal_from_request r now s)

abbrev pub is_good : Text → Time → Result ActionToken → Bool
is_good action now (err e) = false
is_good action now (ok token) = token.action == action && leb (unix now) token.exp

module _ (signer : Signer) (secret : Text) where
  unfoldable pub action_token : Text → ℕ → Time → Result Text
  action_token action ttl now =
      signer.signed_encode (record { action = action; exp = unix (now + ttl) }) secret

  unfoldable pub valid_action_token : Text → Text → Time → Bool
  valid_action_token raw action now = is_good action now (signer.signed_decode raw secret)

-- `view_form` is the platform's `ViewForm`.
module _ (view_form : Text) where
  -- The scope of the token that a screen is given, if it is given one.
  unfoldable pub scope_of : ScreenModel → Option Text
  unfolding metadata_of
  scope_of screen =
      let scope = metadata_of (codes "action_scope") screen.metadata in
      if not (is_empty scope)
      then some scope
      else if screen.view == view_form
      then some (codes "admin-write")
      else none

  with_token : ScreenModel → Result Text → Result ScreenModel
  with_token screen (err e) = err e
  with_token screen (ok token) =
      ok (record screen { metadata = (codes "action_token", token) ∷ screen.metadata })

  module _ (signer : Signer) (secret : Text) where
    at_scope : ScreenModel → Time → Option Text → Result ScreenModel
    unfolding with_token action_token
    at_scope screen now none = ok screen
    at_scope screen now (some scope) =
        with_token screen (action_token signer secret scope ten_minutes now)

    unfoldable pub inject_screen_action_token : ScreenModel → Time → Result ScreenModel
    unfolding scope_of at_scope
    inject_screen_action_token screen now = at_scope screen now (scope_of screen)

-- An answer of the boundary: an error with its status, or a redirection, with the session that is
-- issued, or `none` where it is cleared.
pub data Answer : Type 0 where
  failed : ℕ → Text → Answer
  redirected : Text → Option SessionClaims → Answer

-- The instants of the check of the action token and of the two calls of `now` of the service.
pub record Instants : Type 0 where
  pub token_at : Time
  pub checked_at : Time
  pub saved_at : Time

abbrev pub claims_of : Principal → SessionClaims
claims_of p = record { principal_id = p.id; profile_id = codes "gocms-admin" }

abbrev opened : Principal → Result (Unit {0}) → Answer
opened p (err e) = failed 500 e
opened p (ok _) = redirected (codes "/go-admin/") (some (claims_of p))

-- `issued` is what `Issue` returns for the claims, whose cookie is then set.
module _ (signer : Signer) (secret : Text) (verify : Text → Text → Bool)
    (issued : SessionClaims → Result (Unit {0})) where
  concluded : Outcome Principal → Answer
  concluded (denied login_locked) = failed 429 (codes "login temporarily locked")
  concluded (denied invalid_credentials) = failed 401 (codes "invalid credentials")
  concluded (denied missing_capability) = failed 401 (codes "invalid credentials")
  concluded (denied app_token_failed) = failed 401 (codes "invalid credentials")
  concluded (granted p) = opened p (issued (claims_of p))

  checked_login : HttpRequest → Instants → MemoryStore → Answer × MemoryStore
  unfolding concluded
  checked_login r at s =
      let (outcome, s') =
        authenticate_password verify (r.value (codes "identifier")) (r.value (codes "password"))
          r.remote_addr at.checked_at at.saved_at s in
      (concluded outcome, s')

  unfoldable pub complete_login : HttpRequest → Instants → MemoryStore → Answer × MemoryStore
  unfolding checked_login valid_action_token
  complete_login r at s = elim r.form [
    | err e ↦ (failed 400 (codes "invalid form"), s)
    | ok _ ↦
        if valid_action_token signer secret (r.value (codes "action_token")) (codes "login")
          at.token_at
        then checked_login r at s
        else (failed 403 (codes "invalid action token"), s)
  ]

module _ (signer : Signer) (secret : Text) where
  -- A form that cannot be parsed is as good as one without values.
  unfoldable pub complete_logout : HttpRequest → Time → Answer
  unfolding valid_action_token
  complete_logout r now =
      let token = r.value (codes "action_token") in
      if r.method == codes "POST"
        && (not (is_empty token)
            && not (valid_action_token signer secret token (codes "logout") now))
      then failed 403 (codes "invalid action token")
      else redirected (codes "/go-login") none
