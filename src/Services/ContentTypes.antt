-- ===== src/Services/ContentTypes.antt =====
-- internal/application/contenttype/service.go
use app_gocms.Prelude.{Option, List, Exec, fail_if, ◌>>◌}
use app_gocms.Text.{Text, codes, is_empty}
use app_gocms.Domain.{ContentType, built_in_post, built_in_page}
use app_gocms.Env.{Env}

module _ {S : Type 0} (env : Env S) where
  unfoldable pub register : ContentType → Exec S Unit
  register item = do
    fail_if (is_empty item.id) (codes "content type id is required")
    fail_if (is_empty item.label) (codes "content type label is required")
    env.save_content_type item

  -- The loop over the two built-in types.
  unfoldable pub install_built_ins : Exec S Unit
  unfolding register
  install_built_ins = do register built_in_post; register built_in_page

  unfoldable pub get : Text → Exec S (Option ContentType)
  get id = env.get_content_type id

  unfoldable pub list : Exec S (List ContentType)
  list = env.list_content_types
