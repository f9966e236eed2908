-- ===== src/Plugins/Ops.antt =====
-- internal/plugins/ops/plugin.go: the health, the logs and the snapshots that the operations plugin
-- answers. The state of a handler is that of the records beside the store of the logs.
pub mod Imports
use app_gocms.Prelude.{
  ℕ, Bool, true, false, not, Option, none, some, List, [], ◌∷◌, if◌then◌else◌, Result, ok, err,
  Error, Exec, ◌>>=◌, ◌>>◌,
}
use app_gocms.Text.{Text, codes, ◌==◌}
use app_gocms.Domain.{Time}
use app_gocms.Authn.Principals.{admin_access, settings_manage}
use app_gocms.Storage.Repositories.{Repositories}
use app_gocms.Storage.Transactions.{Transactions, within_tx}
use app_gocms.Operations.{
  AuditEvent, ErrorRecord, Store, record_audit, record_error, HealthResult, health, Snapshot,
  snapshot_version, import_snapshot, export_snapshot,
}
use app_gocms.Extensions.{Route, Context, add_route}

pub data OpsBody (V R : Type 0) : Type 0 where
  checks : List HealthResult → OpsBody V R
  events : List (AuditEvent V) → OpsBody V R
  errors : List ErrorRecord → OpsBody V R
  snapshot : Snapshot R → OpsBody V R
  imported : OpsBody V R
  failure : Text → OpsBody V R

pub record OpsReply (V R : Type 0) : Type 0 where
  pub status : ℕ
  pub body : OpsBody V R

module _ {V R : Type 0} where
  abbrev pub ok_reply : OpsBody V R → OpsReply V R
  ok_reply body = record { status = 200; body = body }

  abbrev pub failed_reply : ℕ → Text → OpsReply V R
  failed_reply status message = record { status = status; body = failure message }

-- The error and the event that a handler of snapshots records.
abbrev pub snapshot_error : Text → Error → ErrorRecord
snapshot_error source e = record { message = e; source = source; created_at = 0 }

abbrev pub snapshot_event : {V : Type 0} → Text → AuditEvent V
snapshot_event action = record {
  action = action;
  actor = codes "admin";
  resource = codes "snapshot";
  details = none;
  created_at = 0;
}

unfoldable pub runtime_state : Option Text → Text
runtime_state none = codes "unknown"
runtime_state (some state) = state

module _ {V R S : Type 0} (field : R → Text → Text) (tx : Transactions S) (repos : Repositories S R)
    (runtime : Option Text) (now : Time) where
  -- The transaction of `Health` lists the content types and drops them.
  unfoldable pub check_health : S × Store V → OpsReply V R × (S × Store V)
  unfolding runtime_state health
  check_health (s, ops) =
      let (listed, s') = within_tx tx (repos.content_types.list >> λ t. (ok tt, t)) s in
      let (results, noted) = health listed (some ops) (runtime_state runtime) now in
      (ok_reply (checks results), (s', or_same noted))
    where
      or_same : Option (Store V) → Store V
      or_same none = ops
      or_same (some kept) = kept

  unfoldable pub audit : S × Store V → OpsReply V R × (S × Store V)
  audit (s, ops) = (ok_reply (events ops.audit), (s, ops))

  unfoldable pub list_errors : S × Store V → OpsReply V R × (S × Store V)
  list_errors (s, ops) = (ok_reply (errors ops.errors), (s, ops))

  -- The end of an export or import: what is recorded and answered.
  unfoldable pub concluded :
      {A : Type 0}
      → Text
      → (A → OpsBody V R)
      → Store V
      → Result A × S
      → OpsReply V R × (S × Store V)
  unfolding record_error record_audit
  concluded action body ops (err e, s) =
      (failed_reply 500 e, (s, record_error now (snapshot_error action e) ops))
  concluded action body ops (ok a, s) =
      (ok_reply (body a), (s, record_audit now (snapshot_event action) ops))

  unfoldable pub answer_export : S × Store V → OpsReply V R × (S × Store V)
  unfolding concluded
  answer_export (s, ops) =
      concluded (codes "snapshot.export") snapshot ops (within_tx tx (export_snapshot now repos) s)

  -- The body as it is decoded, which fails for what is no snapshot.
  unfoldable pub answer_import : Result (Snapshot R) → S × Store V → OpsReply V R × (S × Store V)
  unfolding concluded
  answer_import (err e) st = (failed_reply 400 (codes "invalid snapshot"), st)
  answer_import (ok bundle) (s, ops) =
      if not (bundle.version == snapshot_version)
      then (failed_reply 400 (codes "unsupported snapshot version"), (s, ops))
      else concluded (codes "snapshot.import") (λ _. imported) ops
          (within_tx tx (import_snapshot field repos bundle) s)

pub data OpsHandler : Type 0 where
  health_checks audit_log error_log snapshot_export snapshot_import import_export_screen :
      OpsHandler

abbrev ops_route : {H : Type 0} → Text → Text → Text → H → Route H
ops_route method pattern_text capability handler = record {
  method = method;
  pattern_text = pattern_text;
  capability = capability;
  handler = handler;
}

-- `wrap` is how the handlers of the plugin stand among all those of a runtime.
module _ {H : Type 0} (wrap : OpsHandler → H) where
  abbrev ops_routes : List (Route H)
  ops_routes =
      ops_route (codes "GET") (codes "/go-json/go/v2/ops/health") admin_access (wrap health_checks)
      ∷ ops_route (codes "GET") (codes "/go-json/go/v2/ops/audit") admin_access (wrap audit_log)
      ∷ ops_route (codes "GET") (codes "/go-json/go/v2/ops/errors") admin_access (wrap error_log)
      ∷ ops_route (codes "GET") (codes "/go-json/go/v2/ops/snapshot") settings_manage
          (wrap snapshot_export)
      ∷ ops_route (codes "POST") (codes "/go-json/go/v2/ops/snapshot") settings_manage
          (wrap snapshot_import)
      ∷ ops_route (codes "GET") (codes "/go-admin/import-export") settings_manage
          (wrap import_export_screen)
      ∷ []

unfoldable add_routes : {H D : Type 0} → List (Route H) → Context H D → Context H D
unfolding add_route
add_routes [] c = c
add_routes (route ∷ routes) c = add_routes routes (add_route route c)

unfoldable pub register : {H D : Type 0} → (OpsHandler → H) → Context H D → Context H D
unfolding add_routes
register wrap c = add_routes (ops_routes wrap) c
