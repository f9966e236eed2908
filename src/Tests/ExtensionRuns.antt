-- ===== src/Tests/ExtensionRuns.antt =====
-- Runs of the plugin runtime, of the hook bus and of the logs.
use app_gocms.Prelude.{
  ℕ, ◌≡◌, refl, inl, Option, ◌⊎◌, Error, none, some, List, [], ◌∷◌, ◌++◌, filter, ℤ, pos, Result,
  ok, err, Exec,
}
use app_gocms.Text.{Text, codes, ◌==◌, contains, to_lower}
use app_gocms.Extensions.{
  empty_context, Plugin, Runtime, Manifest, Route, new_runtime, activate, is_active, contains_id,
  plugin_named, activation_error,
}
use app_gocms.Extensions.Activation.{activate_exact}
use app_gocms.Extensions.Stopped.{StoppedAt, activate_failed}
use app_gocms.Extensions.Hooks.{Hook, new_hook_bus}
use app_gocms.Extensions.Hooks.Order.{
  IsOrdered, has_priority, under, Log, add_all, actions_in_order,
}
use app_gocms.Operations.{AuditEvent, text, new_store, record_audit, is_sensitive}
use app_gocms.Operations.Log.{newest, record_all, recorded, audit_newest}
use app_gocms.Operations.Redaction.{with_details, record_audit-Agree}

abbrev manifest : Text → Manifest ℕ
manifest id = record {
  id = id;
  name = codes "Demo";
  version = codes "1";
  contract = codes "v1";
  capabilities = [];
  settings = [];
  hooks = [];
}

abbrev demo_route : Route ℕ
demo_route = record {
  method = codes "GET";
  pattern_text = codes "/demo";
  capability = [];
  handler = 7;
}

abbrev good : Plugin ℕ ℕ
good = record {
  manifest = manifest (codes "good");
  registration = λ c. (none, record c { routes = c.routes ++ demo_route ∷ [] });
}

abbrev bad : Plugin ℕ ℕ
bad = record { manifest = manifest (codes "bad"); registration = λ c. (some (codes "boom"), c) }

abbrev runtime : Runtime ℕ ℕ
runtime = record {
  plugins = (codes "good", good) ∷ (codes "bad", bad) ∷ [];
  states = λ name. none;
  active_context = record { routes = []; capabilities = []; settings = []; hooks = [] };
}

activate_exact_example :
    is_active ((activate (codes "good" ∷ []) runtime).1.states (codes "bad"))
    ≡ contains_id (codes "good" ∷ []) (codes "bad")
unfolding activate plugin_named ◌==◌
activate_exact_example =
    activate_exact (codes "good" ∷ []) runtime (activate (codes "good" ∷ []) runtime).1
      (codes "bad") bad refl refl

abbrev both_activated : Option Error × Runtime ℕ ℕ
both_activated = activate (codes "good" ∷ codes "bad" ∷ []) runtime

activate_failed_example :
    (both_activated.1.active_context ≡ runtime.active_context)
    × (both_activated.1.plugins ≡ runtime.plugins)
    × ((both_activated.1 ≡ runtime)
        ⊎ StoppedAt runtime.plugins
            (codes "good" ∷ codes "bad" ∷ [])
            empty_context
            runtime.states
            (activation_error (codes "bad") (codes "boom"))
            both_activated.1.states)
unfolding activate plugin_named ◌==◌
activate_failed_example =
    activate_failed (codes "good" ∷ codes "bad" ∷ []) runtime both_activated.1
      (activation_error (codes "bad") (codes "boom")) refl

abbrev installed_runtime : Result (Runtime ℕ ℕ)
installed_runtime = new_runtime (good ∷ bad ∷ [])

abbrev or_runtime : Result (Runtime ℕ ℕ) → Runtime ℕ ℕ
or_runtime (ok r) = r
or_runtime (err e) = runtime

abbrev hook : Text → ℤ → Hook ℕ
hook id priority = record { id = id; priority = priority; handle = 0 }

abbrev log : Log ℕ
log =
    (codes "demo", hook (codes "late") (pos 20))
    ∷ (codes "demo", hook (codes "early") (pos 10))
    ∷ (codes "demo", hook (codes "later") (pos 20))
    ∷ []

actions_in_order_example :
    IsOrdered ((add_all log (new_hook_bus {A = ℕ} {F = ℕ})).actions (codes "demo"))
    × (filter
          (has_priority (pos 20))
          ((add_all log (new_hook_bus {A = ℕ} {F = ℕ})).actions (codes "demo"))
        ≡ filter (has_priority (pos 20)) (under (codes "demo") log))
actions_in_order_example = actions_in_order ℕ (pos 20) (codes "demo") log

abbrev counts : Hook (ℕ → Exec (List ℕ) (Unit {0}))
counts = record { id = codes "count"; priority = pos 1; handle = λ n s. (ok tt, n ∷ s) }

abbrev fails : Hook (ℕ → Exec (List ℕ) (Unit {0}))
fails = record { id = codes "fail"; priority = pos 2; handle = λ n s. (err (codes "boom"), s) }

abbrev doubles : Hook (ℕ → Exec (List ℕ) ℕ)
doubles = record { id = codes "more"; priority = pos 1; handle = λ n s. (ok 9, s) }

abbrev refuses : Hook (ℕ → Exec (List ℕ) ℕ)
refuses = record { id = codes "no"; priority = pos 2; handle = λ n s. (err (codes "boom"), s) }

abbrev event : Text → AuditEvent ℕ
event action = record {
  action = action;
  actor = codes "u1";
  resource = codes "post";
  details = some ((codes "api_token", text (codes "abc")) ∷ []);
  created_at = 0;
}

audit_newest_example :
    (record_all
      ((1, event (codes "create")) ∷ (2, event (codes "publish")) ∷ [])
      (new_store (pos 1))).audit
    ≡ newest
        (new_store {V = ℕ} (pos 1)).limit
        (recorded ((1, event (codes "create")) ∷ (2, event (codes "publish")) ∷ []))
audit_newest_example =
    audit_newest (pos 1) ((1, event (codes "create")) ∷ (2, event (codes "publish")) ∷ [])

record_audit-Agree_example :
    record_audit 3
      (with_details ((codes "api_token", text (codes "abc")) ∷ []) (event (codes "create")))
      (new_store (pos 1))
    ≡ record_audit 3
        (with_details ((codes "api_token", text (codes "xyz")) ∷ []) (event (codes "create")))
        (new_store (pos 1))
unfolding is_sensitive contains to_lower
record_audit-Agree_example =
    record_audit-Agree 3 (event (codes "create")) (new_store (pos 1))
      ((codes "api_token", text (codes "abc")) ∷ []) ((codes "api_token", text (codes "xyz")) ∷ [])
      (refl, inl refl, tt)
