-- ===== src/Services/Revisions.antt =====
-- internal/application/revisions/service.go
pub mod RoundTrip
use app_gocms.Prelude.{◌++◌, Exec, pure, require, call, ◌>>=◌, ◌>>◌}
use app_gocms.Text.{Text, codes}
use app_gocms.Text.Quote.{quote}
use app_gocms.Domain.{Entry, Revision}
use app_gocms.Env.{Env}
use app_gocms.Content.{content_not_found}

module _ {S : Type 0} (env : Env S) where
  unfoldable pub create : Text → Text → Exec S Revision
  create id entry_id = do
    found ← env.get entry_id
    entry ← require (content_not_found entry_id) found
    now ← call env.now
    let revision : Revision = record {
      id = id;
      entry_id = entry_id;
      entry = entry;
      created_at = now;
    }
    env.save_revision revision
    pure revision

  unfoldable pub restore : Text → Exec S Entry
  restore id = do
    found ← env.get_revision id
    revision ← require (codes "revision " ++ (quote id ++ codes " not found")) found
    env.save revision.entry
    pure revision.entry
