-- ===== src/App/Options.antt =====
-- pkg/app/app.go: the choices that the options of the application make. The environment, the
-- configuration that the framework loads and the root of the repository are arguments.
use app_gocms.Prelude.{Bool, not, List, [], ◌∷◌, ◌++◌, if◌then◌else◌, Result, ok, err}
use app_gocms.Text.{Text, codes, is_empty, trim_space}

abbrev pub mode_full : Text
mode_full = codes "full"

abbrev pub mode_headless : Text
mode_headless = codes "headless"

abbrev pub mode_admin : Text
mode_admin = codes "admin"

pub record Options : Type 0 where
  pub addr : Text
  pub static_dir : Text
  pub session_key : Text
  pub headless : Bool
  pub runtime_mode : Text

-- The first text that is not blank.
unfoldable pub first_non_empty : List Text → Text
first_non_empty [] = []
first_non_empty (value ∷ values) =
    let rest = first_non_empty values in if is_empty (trim_space value) then rest else value

unfoldable pub runtime_mode : Options → Text
runtime_mode o =
    if o.headless
    then mode_headless
    else if is_empty o.runtime_mode
    then mode_admin
    else o.runtime_mode

abbrev pub development_secret : Text
development_secret = codes "appcms-development-session-secret-32-bytes"

-- The secret of the sessions and of the action tokens, in `authFromOptions`.
unfoldable pub secret_of : Options → Text → Text
unfolding first_non_empty
secret_of o configured = first_non_empty (o.session_key ∷ configured ∷ development_secret ∷ [])

-- The fields of the framework's configuration that are set here.
pub record Config : Type 0 where
  pub app_bind : Text
  pub static_dir : Text
  pub health_live_path : Text
  pub health_ready_path : Text

abbrev or_default : Text → Text → Text
or_default value default = if is_empty value then default else value

abbrev configured : Text → Text → Config → Config
configured bind dir loaded = record {
  app_bind = bind;
  static_dir = dir;
  health_live_path = or_default loaded.health_live_path (codes "/healthz");
  health_ready_path = or_default loaded.health_ready_path (codes "/readyz");
}

-- The directory of the static files: the option's; the loaded one if the variable is set; else the one
-- under the root of the repository.
abbrev static_dir_of : Options → Config → Text → Result Text → Result Text
static_dir_of o loaded app_static_dir root =
    if not (is_empty o.static_dir)
    then ok o.static_dir
    else if not (is_empty app_static_dir)
    then ok loaded.static_dir
    else elim root [ err e ↦ err e | ok dir ↦ ok (dir ++ codes "/web/static") ]

-- `loaded` is what `LoadConfig` returns, `addr` and `app_static_dir` are variables of the
-- environment, and `root` is what `repoRoot` finds.
unfoldable pub framework_config :
    Options → Result Config → Text → Text → Result Text → Result Config
framework_config o (err e) addr app_static_dir root = err e
framework_config o (ok loaded) addr app_static_dir root =
    let bind = if is_empty o.addr then or_default addr loaded.app_bind else o.addr in
    elim (static_dir_of o loaded app_static_dir root) [
      | err e ↦ err e
      | ok dir ↦ ok (configured bind dir loaded)
    ]
