-- ===== src/App/Extended.antt =====
-- pkg/app/app.go: `extensionRuntime`, the runtime with the two plugins of internal/plugins, and the
-- manifests of those.
use app_gocms.Prelude.{
  ◌≡◌, ◌≢◌, ◌⊎◌, refl, inl, inr, Bool, true, false, Option, none, some, [], ◌∷◌, All, Result, ok,
  err, Error, arith,
}
use app_gocms.Text.{Text, codes, ◌==◌, is_empty, trim_space}
use app_gocms.Extensions.{
  Manifest, Plugin, Runtime, Route, new_runtime, activate, empty_context, handled, serve_route,
}
use app_gocms.Plugins.Graphql
use app_gocms.Plugins.Ops
use app_gocms.Plugins.Ops.{OpsHandler}

pub data PluginHandler : Type 0 where
  graphql : PluginHandler
  operations : OpsHandler → PluginHandler

module _ {D : Type 0} where
  abbrev plugin_manifest : Text → Text → Manifest D
  plugin_manifest id name = record {
    id = id;
    name = name;
    version = codes "0.1.0";
    contract = codes "go-codex.plugin.v0.1";
    capabilities = [];
    settings = [];
    hooks = [];
  }

  abbrev graphql_plugin : Plugin PluginHandler D
  graphql_plugin = record {
    manifest = plugin_manifest (codes "graphql") (codes "GraphQL");
    registration = λ c. (none, Graphql.register graphql c);
  }

  abbrev operations_plugin : Plugin PluginHandler D
  operations_plugin = record {
    manifest = plugin_manifest (codes "operations") (codes "Operations");
    registration = λ c. (none, Ops.register operations c);
  }

  abbrev activated : Option Error × Runtime PluginHandler D → Result (Runtime PluginHandler D)
  activated (none, r) = ok r
  activated (some e, r) = err e

  activated_runtime : Result (Runtime PluginHandler D) → Result (Runtime PluginHandler D)
  activated_runtime (err e) = err e
  activated_runtime (ok r) = activated (activate (codes "graphql" ∷ codes "operations" ∷ []) r)

  unfoldable pub extension_runtime : Result (Runtime PluginHandler D)
  unfolding activated_runtime
  extension_runtime = activated_runtime (new_runtime (graphql_plugin ∷ operations_plugin ∷ []))

  -- The runtime of a result, where it has one.
  abbrev made : Result (Runtime PluginHandler D) → Runtime PluginHandler D
  made (ok r) = r
  made (err e) = record { plugins = []; states = λ _. none; active_context = empty_context }

-- A route that is not served to whom no capability is granted.
not_served :
    (authorize : Text → Bool × Bool) (route : Route PluginHandler)
    → ((c : Text) → authorize c ≢ (true, true))
    → is_empty route.capability ≡ false
    → serve_route authorize route ≢ handled
unfolding serve_route
not_served authorize route none_granted named h =
    let authenticated : (authorize route.capability).0 ≡ true = ground (arith, h, named) in
    let allowed : (authorize route.capability).1 ≡ true = ground (arith, h, named) in
    none_granted route.capability (λ i. (authenticated i, allowed i))

module _ {D : Type 0} where
  -- The runtime of the plugins is made without an error; of its routes, only those of GraphQL are
  -- served to a request to which no capability is granted.
  pub extension_runtime_guarded :
      (authorize : Text → Bool × Bool)
      → ((c : Text) → authorize c ≢ (true, true))
      → (r : Runtime PluginHandler D) × (extension_runtime ≡ ok r)
        × All
            (λ (route : Route PluginHandler).
              (route.handler ≡ graphql) ⊎ (serve_route authorize route ≢ handled))
            r.active_context.routes
  unfolding extension_runtime activated_runtime new_runtime activate Graphql.register Ops.register
      empty_context is_empty trim_space ◌==◌
  extension_runtime_guarded authorize none_granted = (
    made extension_runtime,
    refl,
    (
      inl refl,
      (
        inl refl,
        (
          guarded _ refl,
          (
            guarded _ refl,
            (guarded _ refl, (guarded _ refl, (guarded _ refl, (guarded _ refl, tt)))),
          ),
        ),
      ),
    ),
  )
    where
      guarded :
          (route : Route PluginHandler)
          → is_empty route.capability ≡ false
          → (route.handler ≡ graphql) ⊎ (serve_route authorize route ≢ handled)
      guarded route named = inr (not_served authorize route none_granted named)
