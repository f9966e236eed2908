-- ===== src/App/Routes.antt =====
-- pkg/app/app.go and pkg/app/bff.go: the routes that a mode of the application registers, as the
-- patterns that are handed to the mux, with what serves each. The names of the BFF's paths and
-- resources are here too.
use app_gocms.Prelude.{
  Bool, ◌||◌, Option, none, some, List, [], ◌∷◌, ◌++◌, if◌then◌else◌, Result, ok, err,
}
use app_gocms.Text.{Text, codes, ◌==◌, is_empty, has_prefix, is_slash, trim}
use app_gocms.App.Options.{mode_headless, mode_admin}

-- Who serves a route: the public site, the login and the logout, the BFF behind `requireBFFJSON`, the
-- administration behind `requireAdmin`, the REST API, and the plugins, each route with the
-- capability that the plugin asks for.
pub data Server : Type 0 where
  public_site : Server
  login_page complete_login complete_logout : Server
  bff_screen bff_nav bff_session bff_action : Server
  admin_dashboard admin_screen : Server
  rest_root rest_v2 rest_resource : Server
  plugin : Text → Server

abbrev pub Route : Type 0
Route = Text × Server

abbrev is_api_only : Text → Bool
is_api_only mode = mode == mode_headless || mode == mode_admin

bff_routes : List Route
bff_routes =
    (codes "GET /bff/screens/{path...}", bff_screen)
    ∷ (codes "GET /bff/nav", bff_nav)
    ∷ (codes "GET /bff/session", bff_session)
    ∷ (codes "POST /bff/actions/{actionId}", bff_action)
    ∷ []

rest_routes : List Route
rest_routes =
    (codes "GET /go-json/{$}", rest_root)
    ∷ (codes "GET /go-json/go/v2/{$}", rest_v2)
    ∷ (codes "/go-json/go/v2/{path...}", rest_resource)
    ∷ []

-- `none` is the panic of a mode whose plugins cannot be activated; `plugins` are the routes of the
-- runtime that `extensionRuntime` makes.
unfoldable pub register_routes_with_options : Text → Result (List Route) → Option (List Route)
unfolding bff_routes rest_routes
register_routes_with_options mode plugins =
    let home = if is_api_only mode then [] else (codes "GET /{$}", public_site) ∷ [] in
    let login =
      (codes "GET /go-login", login_page)
      ∷ (codes "POST /go-login", complete_login)
      ∷ (codes "GET /go-logout", complete_logout)
      ∷ (codes "POST /go-logout", complete_logout)
      ∷ [] in
    let admin =
      if mode == mode_headless
      then []
      else (codes "GET /go-admin/{$}", admin_dashboard)
        ∷ (codes "GET /go-admin/{path...}", admin_screen)
        ∷ [] in
    let pages =
      if is_api_only mode
      then []
      else (codes "GET /posts/{slug}", public_site) ∷ (codes "GET /{slug}", public_site) ∷ [] in
    let before = home ++ (login ++ (bff_routes ++ (admin ++ rest_routes))) in
    if mode == mode_admin
    then some (before ++ pages)
    else elim plugins [ err e ↦ none | ok extra ↦ some (before ++ (extra ++ pages)) ]

-- `bffScreenPath`
unfoldable pub bff_screen_path : Text → Text
bff_screen_path raw =
    let inner = trim is_slash raw in
    if is_empty inner then codes "/go-admin" else codes "/" ++ inner

-- `cmsActionResource`
unfoldable pub cms_action_resource : Text → Text
cms_action_resource action_id =
    if has_prefix action_id (codes "post.") then codes "post" else codes "cms"
