-- ===== src/Rest/Merge.antt =====
-- `mergeContent` of internal/delivery/rest/routes.go: what a patch leaves of an entry.
pub mod Laws
use app_gocms.Prelude.{Option, none, some, if◌then◌else◌}
use app_gocms.Text.{Text, is_empty}
use app_gocms.Domain.{Entry}

-- `if patch != "" { existing = patch }`
unfoldable pub or_keep : Text → Text → Text
or_keep patch existing = if is_empty patch then existing else patch

-- `if patch != nil { existing = patch }`
unfoldable pub or_keep_map {ℓ} : {A : Type ℓ} → Option A → Option A → Option A
or_keep_map none existing = existing
or_keep_map (some patch) existing = some patch

unfoldable pub merge_content : Entry → Entry → Entry
unfolding or_keep or_keep_map
merge_content existing patch = record existing {
  title = or_keep_map patch.title existing.title;
  slug = or_keep patch.slug existing.slug;
  content = or_keep patch.content existing.content;
  excerpt = or_keep patch.excerpt existing.excerpt;
  status = or_keep patch.status existing.status;
  visibility = or_keep patch.visibility existing.visibility;
  author_id = or_keep patch.author_id existing.author_id;
  featured_media_id = or_keep patch.featured_media_id existing.featured_media_id;
  metadata = or_keep_map patch.metadata existing.metadata;
}
