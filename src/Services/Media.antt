-- ===== src/Services/Media.antt =====
-- internal/application/media/service.go
use app_gocms.Prelude.{◌++◌, Option, List, Exec, pure, require, fail_if, ◌>>=◌, ◌>>◌}
use app_gocms.Text.{Text, codes, is_empty}
use app_gocms.Text.Quote.{quote}
use app_gocms.Domain.{Entry, Asset}
use app_gocms.Env.{Env}
use app_gocms.Content.{content_not_found}

module _ {S : Type 0} (env : Env S) where
  unfoldable pub save_metadata : Asset → Exec S Unit
  save_metadata asset = do
    fail_if (is_empty asset.id) (codes "media asset id is required")
    env.save_asset asset

  unfoldable pub get : Text → Exec S (Option Asset)
  get id = env.get_asset id

  unfoldable pub list : Exec S (List Asset)
  list = env.list_assets

  unfoldable pub attach_featured : Text → Text → Exec S Entry
  attach_featured entry_id asset_id = do
    asset ← env.get_asset asset_id
    require (codes "media asset " ++ (quote asset_id ++ codes " not found")) asset
    found ← env.get entry_id
    entry ← require (content_not_found entry_id) found
    let attached = record entry { featured_media_id = asset_id }
    env.save attached
    pure attached
