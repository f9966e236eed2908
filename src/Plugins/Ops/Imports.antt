-- ===== src/Plugins/Ops/Imports.antt =====
-- What a failed import leaves.
use app_gocms.Prelude.{◌≡◌, ◌≢◌, refl, Option, Result, ok, err, arith}
use app_gocms.Text.{Text}
use app_gocms.Domain.{Time}
use app_gocms.Storage.Repositories.{Repositories}
use app_gocms.Storage.Transactions.{Transactions, within_tx}
use app_gocms.Operations.{Store, record_error, Snapshot}
use app_gocms.Plugins.Ops.{concluded, answer_import}

module _ {V R S : Type 0} (field : R → Text → Text) (tx : Transactions S) (repos : Repositories S R)
    (runtime : Option Text) (now : Time) where
  -- An import that is not answered with status 200 has changed no record, and no event is recorded
  -- of it.
  pub failed_import_keeps :
      (body : Result (Snapshot R)) (s : S) (ops : Store V)
      → (answer_import field tx repos runtime now body (s, ops)).0.status ≢ 200
      → ((answer_import field tx repos runtime now body (s, ops)).1.0 ≡ s)
        × ((answer_import field tx repos runtime now body (s, ops)).1.1.audit ≡ ops.audit)
  unfolding answer_import concluded record_error within_tx
  failed_import_keeps (err e) s ops h = (refl, refl)
  failed_import_keeps (ok bundle) s ops h = ground arith
