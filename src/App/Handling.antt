-- ===== src/App/Handling.antt =====
-- pkg/app/bff.go and pkg/app/bff_action_handler.go: the handlers of the BFF, for screens and actions,
-- with the guard of `requireBFFJSON` before them. The dispatch of an action, after its checks, and the
-- page of a screen are the platform's, and are arguments.
pub mod Dispatching
pub mod Guarded
use app_gocms.Prelude.{
  ℕ, Bool, true, false, Option, none, some, List, [], ◌∷◌, if◌then◌else◌, Result, ok, err, Error,
}
use app_gocms.Text.{Text, codes, contains, trim_space}
use app_gocms.Domain.{Time}
use app_gocms.Authn.{MemoryStore}
use app_gocms.Authn.Principals.{Principal, has, admin_access}
use app_gocms.Screens.{ScreenModel}
use app_gocms.App.Boundary.{
  HttpRequest, Signer, principal_from_request, valid_action_token, inject_screen_action_token,
}
use app_gocms.App.Actions.{ActionRequest, ActionDescriptor, ActionResult, first_of_list}
use app_gocms.App.Routes.{bff_screen_path, cms_action_resource}

-- A request to the BFF: `path_value` is the part of the path that its pattern names, `query` are the
-- values of the URL, `body` is what the body is read as, and `post_form` are the values of the form,
-- where `http.form` says that it can be parsed.
pub record BffRequest : Type 0 where
  pub http : HttpRequest
  pub path_value : Text
  pub query : Text → List Text
  pub content_type : Text
  pub body : Result Text
  pub post_form : Text → List Text

abbrev from_body : BffRequest → Result Text → Result ActionRequest
from_body r (err e) = err e
from_body r (ok text) =
    ok (record { query = λ key. first_of_list (r.query key); form = none; json = text })

abbrev from_form : BffRequest → Result (Unit {0}) → Result ActionRequest
from_form r (err e) = err e
from_form r (ok _) =
    ok (record { query = λ key. first_of_list (r.query key); form = some r.post_form; json = [] })

unfoldable pub parse_action_request : BffRequest → Result ActionRequest
parse_action_request r =
    if contains r.content_type (codes "application/json")
    then from_body r r.body
    else from_form r r.http.form

-- The instants of the two calls of `principalFromRequest`, and of the check of the action token.
pub record BffInstants : Type 0 where
  pub guarded_at : Time
  pub named_at : Time
  pub token_at : Time

pub record DispatchInput : Type 0 where
  pub action_id : Text
  pub request : ActionRequest
  pub principal : Principal
  pub validator : Text → Text → Bool
  pub resource : Text

-- How a dispatch ends: by one of the platform's errors, by another one, or with a result.
pub data Dispatched (P : Type 0) : Type 0 where
  unknown_action forbidden invalid_action_token : Dispatched P
  broken : Error → Dispatched P
  done : ActionResult P → Dispatched P

abbrev pub Executor : Type 0 → Type 0 → Type 0
Executor S P = ActionRequest → S → Result (ActionResult P) × S

-- `SecureDispatch` over the descriptors and the executors that are registered, the text that it takes
-- for the action token of a request, and `ActionHTTPStatus`.
pub record Dispatcher (S P : Type 0) : Type 0 where
  pub secure_dispatch :
      List ActionDescriptor → (Text → Option (Executor S P)) → DispatchInput → S → Dispatched P × S
  pub action_token_of : ActionRequest → Text
  pub http_status : ActionResult P → ℕ

-- An answer of the BFF: an error as a screen or as a message, a screen, or the result of an action.
pub data BffReply (P : Type 0) : Type 0 where
  sign_in not_permitted screen_not_found : BffReply P
  refused : ℕ → Text → BffReply P
  shown : ScreenModel → BffReply P
  acted : ℕ → ActionResult P → BffReply P

-- The zero `Principal`, which `principalFromRequest` returns beside `false`.
abbrev pub nobody : Principal
nobody = record { id = []; roles = []; capabilities = [] }

abbrev pub or_nobody : Option Principal → Principal
or_nobody none = nobody
or_nobody (some p) = p

unfoldable pub replied : {P : Type 0} → (ActionResult P → ℕ) → Dispatched P → BffReply P
replied status unknown_action = refused 404 (codes "action not found")
replied status forbidden = refused 403 (codes "forbidden")
replied status invalid_action_token = refused 403 (codes "invalid action token")
replied status (broken e) = refused 500 e
replied status (done result) = acted (status result) result

module _ {S P : Type 0} where
  guard_at : Option Principal → (S → BffReply P × S) → S → BffReply P × S
  guard_at none next s = (sign_in, s)
  guard_at (some p) next s = if has p admin_access then next s else (not_permitted, s)

  module _ (token_hash : Text → Text) (m : MemoryStore) where
    unfoldable pub require_bff_json : HttpRequest → Time → (S → BffReply P × S) → S → BffReply P × S
    unfolding guard_at principal_from_request
    require_bff_json r now next = guard_at (principal_from_request token_hash r now m) next

module _ {S P : Type 0} (dispatcher : Dispatcher S P) (descriptors : List ActionDescriptor)
    (executors : Text → Option (Executor S P)) (signer : Signer) (secret : Text)
    (token_hash : Text → Text) (m : MemoryStore) where
  abbrev pub input_of : BffRequest → BffInstants → ActionRequest → DispatchInput
  input_of r at req = record {
    action_id = trim_space r.path_value;
    request = req;
    principal = or_nobody (principal_from_request token_hash r.http at.named_at m);
    validator = λ raw scope. valid_action_token signer secret raw scope at.token_at;
    resource = cms_action_resource (trim_space r.path_value);
  }

  perform : BffRequest → BffInstants → Result ActionRequest → S → BffReply P × S
  unfolding replied
  perform r at (err e) s = (refused 400 (codes "invalid request"), s)
  perform r at (ok req) s =
      let (outcome, s') = dispatcher.secure_dispatch descriptors executors (input_of r at req) s in
      (replied dispatcher.http_status outcome, s')

  unfoldable pub handle_bff_action : BffRequest → BffInstants → S → BffReply P × S
  unfolding require_bff_json perform parse_action_request
  handle_bff_action r at =
      require_bff_json token_hash m r.http at.guarded_at (perform r at (parse_action_request r))

-- `page` is the platform's page for a path, a principal and the query of a request.
module _ {S P : Type 0} (page : Text → Principal → (Text → Text) → S → Result ScreenModel × S)
    (view_form : Text) (signer : Signer) (secret : Text) (token_hash : Text → Text)
    (m : MemoryStore) where
  abbrev shown_with : Result ScreenModel → BffReply P
  shown_with (err e) = refused 500 e
  shown_with (ok screen) = shown screen

  screen_at : Time → Result ScreenModel → BffReply P
  unfolding inject_screen_action_token
  screen_at now (err e) = screen_not_found
  screen_at now (ok screen) =
      shown_with (inject_screen_action_token view_form signer secret screen now)

  render_page : BffRequest → BffInstants → S → BffReply P × S
  unfolding screen_at bff_screen_path
  render_page r at s =
      let p = or_nobody (principal_from_request token_hash r.http at.named_at m) in
      let (found, s') =
        page (bff_screen_path r.path_value) p (λ key. first_of_list (r.query key)) s in
      (screen_at at.token_at found, s')

  unfoldable pub render_bff_screen : BffRequest → BffInstants → S → BffReply P × S
  unfolding require_bff_json render_page
  render_bff_screen r at = require_bff_json token_hash m r.http at.guarded_at (render_page r at)
