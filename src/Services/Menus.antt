-- ===== src/Services/Menus.antt =====
-- internal/application/menus/service.go
use app_gocms.Prelude.{◌||◌, Option, List, Exec, fail_if, ◌>>◌}
use app_gocms.Text.{Text, codes, is_empty}
use app_gocms.Domain.{Menu}
use app_gocms.Env.{Env}

module _ {S : Type 0} (env : Env S) where
  unfoldable pub save : Menu → Exec S Unit
  save menu = do
    fail_if (is_empty menu.id || is_empty menu.location) (codes "menu id and location are required")
    env.save_menu menu

  unfoldable pub list : Exec S (List Menu)
  list = env.list_menus

  unfoldable pub by_location : Text → Exec S (Option Menu)
  by_location location = env.get_menu_by_location location
