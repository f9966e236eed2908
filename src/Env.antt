-- ===== src/Env.antt =====
-- What the application services call: the methods of `ApplicationRepositories`
-- (internal/storage/adapters.go), behind the `Repository` interfaces that the packages of
-- internal/application declare, and the clock and the random bytes. `S` is what these keep.
-- `(T, bool, error)` is an error or an option.
use app_gocms.Prelude.{Option, List, Exec}
use app_gocms.Text.{Text}
use app_gocms.Domain.{
  Entry, Query, ContentType, Setting, User, TaxonomyDefinition, Term, Asset, Menu, Revision, Access,
  Time,
}

pub record Env (S : Type 0) : Type 0 where
  pub save : Entry → Exec S Unit
  pub get : Text → Exec S (Option Entry)
  pub list : Query → Exec S (List Entry)
  pub save_content_type : ContentType → Exec S Unit
  pub get_content_type : Text → Exec S (Option ContentType)
  pub list_content_types : Exec S (List ContentType)
  pub save_setting : Setting → Exec S Unit
  pub get_setting : Text → Exec S (Option Setting)
  pub list_settings : Exec S (List Setting)
  pub save_user : User → Exec S Unit
  pub get_user : Text → Exec S (Option User)
  pub list_users : Exec S (List User)
  pub save_definition : TaxonomyDefinition → Exec S Unit
  pub get_definition : Text → Exec S (Option TaxonomyDefinition)
  pub save_term : Term → Exec S Unit
  pub list_terms : Text → Exec S (List Term)
  pub save_asset : Asset → Exec S Unit
  pub get_asset : Text → Exec S (Option Asset)
  pub list_assets : Exec S (List Asset)
  pub save_menu : Menu → Exec S Unit
  pub list_menus : Exec S (List Menu)
  pub get_menu_by_location : Text → Exec S (Option Menu)
  pub save_revision : Revision → Exec S Unit
  pub get_revision : Text → Exec S (Option Revision)
  pub save_preview : Access → Exec S Unit
  pub get_preview : Text → Exec S (Option Access)
  pub now : S → Time × S
  pub random_token : S → Text × S
