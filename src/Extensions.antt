-- ===== src/Extensions.antt =====
-- internal/extensions/runtime.go: the manifests of the plugins, and the runtime that activates them.
-- `H` is the type of an HTTP handler and `D` that of a capability definition of the platform's
-- contracts. The map of plugins is the list of its entries, in the order of their registration, and
-- the map of states is a function.
pub mod Hooks
pub mod Installation
pub mod Activation
pub mod Stopped
use app_gocms.Prelude.{
  ℕ, ℤ, Bool, true, false, not, ◌&&◌, ◌||◌, Option, none, some, List, [], ◌∷◌, ◌++◌, leb, eqb, find,
  is_some, if◌then◌else◌, Result, ok, err, Error,
}
use app_gocms.Text.{Text, codes, ◌==◌, is_empty, trim_space}
use app_gocms.Text.Quote.{quote}
use app_gocms.Domain.{Value}

pub data State : Type 0 where
  installed active inactive failed uninstalled : State

pub record PluginSetting : Type 0 where
  pub key : Text
  pub kind : Text
  pub default : Value
  pub public : Bool
  pub capability : Text

pub record HookRegistration : Type 0 where
  pub hook_id : Text
  pub handler : Text
  pub priority : ℤ

pub record Route (H : Type 0) : Type 0 where
  pub method : Text
  pub pattern_text : Text
  pub capability : Text
  pub handler : H

pub record Manifest (D : Type 0) : Type 0 where
  pub id : Text
  pub name : Text
  pub version : Text
  pub contract : Text
  pub capabilities : List D
  pub settings : List PluginSetting
  pub hooks : List HookRegistration

pub record Context (H D : Type 0) : Type 0 where
  pub routes : List (Route H)
  pub capabilities : List D
  pub settings : List PluginSetting
  pub hooks : List HookRegistration

module _ {H D : Type 0} where
  unfoldable pub empty_context : Context H D
  empty_context = record { routes = []; capabilities = []; settings = []; hooks = [] }

  unfoldable pub add_route : Route H → Context H D → Context H D
  add_route route c = record c { routes = c.routes ++ route ∷ [] }

  unfoldable pub add_capabilities : List D → Context H D → Context H D
  add_capabilities capabilities c = record c { capabilities = c.capabilities ++ capabilities }

  unfoldable pub add_settings : List PluginSetting → Context H D → Context H D
  add_settings settings c = record c { settings = c.settings ++ settings }

  unfoldable pub add_hooks : List HookRegistration → Context H D → Context H D
  add_hooks hooks c = record c { hooks = c.hooks ++ hooks }

-- `Register` adds to the context that it is given, and may return an error.
pub record Plugin (H D : Type 0) : Type 0 where
  pub manifest : Manifest D
  pub registration : Context H D → Option Error × Context H D

abbrev pub States : Type 0
States = Text → Option State

pub record Runtime (H D : Type 0) : Type 0 where
  pub plugins : List (Text × Plugin H D)
  pub states : States
  pub active_context : Context H D

-- `[a-z0-9]`
abbrev pub is_id_start : ℕ → Bool
is_id_start c = (leb b'a' c && leb c b'z') || (leb b'0' c && leb c b'9')

-- `[a-z0-9-]`
abbrev pub is_id_byte : ℕ → Bool
is_id_byte c = is_id_start c || eqb c b'-'

all_bytes : (ℕ → Bool) → Text → Bool
all_bytes p [] = true
all_bytes p (c ∷ s) = p c && all_bytes p s

-- `pluginIDPattern.MatchString`
unfoldable pub matches_id : Text → Bool
unfolding all_bytes
matches_id [] = false
matches_id (c ∷ s) = is_id_start c && all_bytes is_id_byte s

unfoldable pub validate_manifest : {D : Type 0} → Manifest D → Option Error
unfolding matches_id
validate_manifest m =
    if not (matches_id m.id)
    then some (codes "plugin id must be lowercase URL-safe")
    else if is_empty (trim_space m.name)
    then some (codes "plugin name is required")
    else if is_empty (trim_space m.version)
    then some (codes "plugin version is required")
    else if is_empty (trim_space m.contract)
    then some (codes "plugin contract is required")
    else none

-- `states[id] = state`
unfoldable pub with_state : Text → State → States → States
with_state id state states name = if name == id then some state else states name

unfoldable pub contains_id : List Text → Text → Bool
contains_id [] want = false
contains_id (x ∷ xs) want = x == want || contains_id xs want

-- The error of `Activate` for a plugin whose `Register` returned `cause`.
abbrev pub activation_error : Text → Error → Error
activation_error id cause = codes "activate plugin " ++ quote id ++ codes ": " ++ cause

-- How the loop of `Activate` ends: at an unknown plugin, at a plugin that fails, or at the end.
pub data Progress (H D : Type 0) : Type 0 where
  unknown : Text → Progress H D
  stopped : Error → States → Progress H D
  reached : Context H D → States → Progress H D

unfoldable pub is_active : Option State → Bool
is_active (some active) = true
is_active _ = false

-- One round of the second loop of `Activate`.
unfoldable pub settle : Text → List Text → States → States
unfolding contains_id with_state is_active
settle id ids states =
    if not (contains_id ids id) && is_active (states id)
    then with_state id inactive states
    else states

module _ {H D : Type 0} where
  unfoldable pub plugin_named : Text → List (Text × Plugin H D) → Option (Plugin H D)
  plugin_named id [] = none
  plugin_named id ((key, plugin) ∷ plugins) =
      if key == id then some plugin else plugin_named id plugins

  -- The runtime with one more plugin.
  unfoldable pub install : Plugin H D → Runtime H D → Result (Runtime H D)
  unfolding validate_manifest plugin_named with_state
  install plugin r = elim (validate_manifest plugin.manifest) [
    | some e ↦ err e
    | none ↦
        if is_some (plugin_named plugin.manifest.id r.plugins)
        then err (codes "duplicate plugin " ++ quote plugin.manifest.id)
        else ok (record r {
          plugins = r.plugins ++ (plugin.manifest.id, plugin) ∷ [];
          states = with_state plugin.manifest.id installed r.states;
        })
  ]

  unfoldable pub install_all : List (Plugin H D) → Runtime H D → Result (Runtime H D)
  unfolding install
  install_all [] r = ok r
  install_all (plugin ∷ plugins) r =
      let rest = install_all plugins in
      elim (install plugin r) [ ok next ↦ rest next | err e ↦ err e ]

  unfoldable pub new_runtime : List (Plugin H D) → Result (Runtime H D)
  unfolding install_all empty_context
  new_runtime plugins =
      install_all plugins
        (record { plugins = []; states = λ _. none; active_context = empty_context })

  -- After `Register`: the error, or what the rest of the loop makes of the context.
  abbrev pub after_register :
      Text
      → States
      → (Context H D → States → Progress H D)
      → Option Error × Context H D
      → Progress H D
  after_register id states rest (some e, after) =
      stopped (activation_error id e) (with_state id failed states)
  after_register id states rest (none, after) = rest after (with_state id active states)

  abbrev pub at_plugin :
      Text
      → Context H D
      → States
      → (Context H D → States → Progress H D)
      → Option (Plugin H D)
      → Progress H D
  at_plugin id next states rest none = unknown id
  at_plugin id next states rest (some plugin) =
      after_register id states rest (plugin.registration next)

  unfoldable pub activate_each :
      List (Text × Plugin H D) → List Text → Context H D → States → Progress H D
  unfolding plugin_named with_state
  activate_each plugins [] next states = reached next states
  activate_each plugins (id ∷ ids) next states =
      at_plugin id next states (activate_each plugins ids) (plugin_named id plugins)

  -- The loop over the map of plugins: those that were active and are not named are inactive now.
  unfoldable pub deactivate_others : List (Text × Plugin H D) → List Text → States → States
  unfolding settle
  deactivate_others [] ids states = states
  deactivate_others ((id, plugin) ∷ plugins) ids states =
      deactivate_others plugins ids (settle id ids states)

  finish_activation : Runtime H D → List Text → Progress H D → Option Error × Runtime H D
  unfolding deactivate_others
  finish_activation r ids (unknown id) = (some (codes "unknown plugin " ++ quote id), r)
  finish_activation r ids (stopped e states) = (some e, record r { states = states })
  finish_activation r ids (reached next states) =
      (none, record r { active_context = next; states = deactivate_others r.plugins ids states })

  unfoldable pub activate : List Text → Runtime H D → Option Error × Runtime H D
  unfolding activate_each finish_activation
  activate ids r = finish_activation r ids (activate_each r.plugins ids empty_context r.states)

-- What `RegisterRoutes` serves for a route.
pub data Served : Type 0 where
  authorization_required missing_capability handled : Served

-- `authorize` returns whether the request is authenticated, and whether it is allowed.
unfoldable pub serve_route : {H : Type 0} → (Text → Bool × Bool) → Route H → Served
serve_route authorize route =
    if is_empty route.capability
    then handled
    else if not (authorize route.capability).0
    then authorization_required
    else if not (authorize route.capability).1
    then missing_capability
    else handled
