-- ===== src/Services/Settings.antt =====
-- internal/application/settings/service.go. The registry is the list of the definitions that
-- `NewRegistry` is given: of two with one key the later counts.
pub mod Publicity
use app_gocms.Prelude.{
  ◌≡◌, Bool, true, false, Option, none, some, List, [], ◌∷◌, String, find, if◌then◌else◌, Result,
  ok, Exec, pure, fail_if, ◌>>=◌, ◌>>◌,
}
use app_gocms.Text.{Text, codes, is_empty, ◌==◌}
use app_gocms.Domain.{Setting, SettingDefinition}
use app_gocms.Env.{Env}

abbrev pub Registry : Type 0
Registry = List SettingDefinition

-- `definitions[key]`
unfoldable pub definition_of : Text → Registry → Option SettingDefinition
definition_of key [] = none
definition_of key (d ∷ ds) =
    let later = definition_of key ds in
    elim later [ some x ↦ some x | none ↦ if d.key == key then some d else none ]

-- What `Save` stores: group and publicity are those of the definition, if there is one.
pinned : Option SettingDefinition → Setting → Setting
pinned none value = value
pinned (some d) value = record value { group = d.group; is_public = d.is_public }

-- The answer of `Get` where nothing is stored.
default_setting : Text → Option SettingDefinition → Option Setting
default_setting key none = none
default_setting key (some d) = some (record {
  key = key;
  group = d.group;
  value = d.default_value;
  is_public = d.is_public;
  is_private = false;
})

-- The loop of `Public`.
unfoldable pub public_values : List Setting → List Setting
public_values [] = []
public_values (v ∷ vs) =
    if v.is_public then record v { is_private = false } ∷ public_values vs else public_values vs

module _ {S : Type 0} (env : Env S) (registry : Registry) where
  unfoldable pub save : Setting → Exec S Unit
  unfolding pinned
  save value = do
    fail_if (is_empty value.key) (codes "setting key is required")
    env.save_setting (pinned (definition_of value.key registry) value)

  or_default : Text → Option Setting → Option Setting
  unfolding default_setting
  or_default key (some value) = some value
  or_default key none = default_setting key (definition_of key registry)

  unfoldable pub get : Text → Exec S (Option Setting)
  unfolding or_default
  get key = do found ← env.get_setting key; pure (or_default key found)

  unfoldable pub public_settings : Exec S (List Setting)
  public_settings = do values ← env.list_settings; pure (public_values values)
