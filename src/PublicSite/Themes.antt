-- ===== src/PublicSite/Themes.antt =====
-- internal/themes/registry.go: the themes, and the one that a page is rendered with. A theme renders
-- a page by its template, of type `C`.
use app_gocms.Prelude.{
  ◌≡◌, refl, inl, inr, Bool, true, false, not, Option, none, some, List, [], ◌∷◌, ◌++◌, is_some,
  if◌then◌else◌, Result, ok, err, Error, Bool-cases,
}
use app_gocms.Text.{Text, codes, ◌==◌, is_empty, trim_space}
use app_gocms.Text.Quote.{quote}
use app_gocms.Extensions.{matches_id}
use app_gocms.PublicRender.{Page}

pub data TemplateRole : Type 0 where
  role_index role_front role_page role_post role_archive role_search role_not_found : TemplateRole

-- The templates are the entries of the map.
pub record Manifest : Type 0 where
  pub id : Text
  pub name : Text
  pub version : Text
  pub contract : Text
  pub templates : List (TemplateRole × Text)
  pub assets : List Text

abbrev pub is_index : TemplateRole → Bool
is_index role_index = true
is_index _ = false

unfoldable pub has_index : List (TemplateRole × Text) → Bool
has_index [] = false
has_index ((role, template) ∷ templates) = if is_index role then true else has_index templates

unfoldable pub validate_manifest : Manifest → Option Error
unfolding has_index
validate_manifest m =
    if not (matches_id m.id)
    then some (codes "theme id must be lowercase URL-safe")
    else if is_empty (trim_space m.name)
    then some (codes "theme name is required")
    else if is_empty (trim_space m.version)
    then some (codes "theme version is required")
    else if is_empty (trim_space m.contract)
    then some (codes "theme contract is required")
    else if not (has_index m.templates)
    then some (codes "theme " ++ (quote m.id ++ codes " must provide index template fallback"))
    else none

pub record Theme (C : Type 0) : Type 0 where
  pub manifest : Manifest
  pub render : Page → C

-- The map of themes is the list of its entries.
abbrev pub Registry : Type 0 → Type 0
Registry C = List (Text × Theme C)

abbrev pub default_id : Text
default_id = codes "gocms-default"

module _ {C : Type 0} where
  unfoldable pub theme_named : Text → Registry C → Option (Theme C)
  theme_named id [] = none
  theme_named id ((key, theme) ∷ themes) = if key == id then some theme else theme_named id themes

  -- One round of the loop of `NewRegistry`.
  unfoldable pub add_theme : Theme C → Registry C → Result (Registry C)
  unfolding validate_manifest theme_named
  add_theme theme registry = elim (validate_manifest theme.manifest) [
    | some e ↦ err e
    | none ↦
        if is_some (theme_named theme.manifest.id registry)
        then err (codes "duplicate theme " ++ quote theme.manifest.id)
        else ok (registry ++ (theme.manifest.id, theme) ∷ [])
  ]

  unfoldable pub add_themes : List (Theme C) → Registry C → Result (Registry C)
  unfolding add_theme
  add_themes [] registry = ok registry
  add_themes (theme ∷ themes) registry =
      let rest = add_themes themes in
      elim (add_theme theme registry) [ ok next ↦ rest next | err e ↦ err e ]

  unfoldable pub new_registry : List (Theme C) → Result (Registry C)
  unfolding add_themes
  new_registry themes = add_themes themes []

  unfoldable pub or_default : Registry C → Option (Theme C) → Option (Theme C)
  or_default registry (some theme) = some theme
  or_default registry none = theme_named default_id registry

  unfoldable pub resolve : Text → Registry C → Option (Theme C)
  unfolding or_default
  resolve id registry = or_default registry (theme_named (trim_space id) registry)

abbrev pub blank_manifest : Manifest
blank_manifest = record {
  id = codes "blank";
  name = codes "Blank";
  version = codes "0.1.0";
  contract = codes "go-codex.theme.v0.1";
  templates =
      (role_index, codes "index")
      ∷ (role_front, codes "index")
      ∷ (role_page, codes "index")
      ∷ (role_post, codes "index")
      ∷ (role_not_found, codes "index")
      ∷ [];
  assets = codes "/static/themes/blank/theme.css" ∷ [];
}

abbrev pub default_manifest : Manifest
default_manifest = record {
  id = default_id;
  name = codes "GoCMS Default";
  version = codes "0.1.0";
  contract = codes "go-codex.theme.v0.1";
  templates =
      (role_index, codes "index")
      ∷ (role_front, codes "front")
      ∷ (role_page, codes "page")
      ∷ (role_post, codes "post")
      ∷ (role_archive, codes "archive")
      ∷ (role_search, codes "search")
      ∷ (role_not_found, codes "not_found")
      ∷ [];
  assets = codes "/static/themes/gocms-default/theme.css" ∷ [];
}

-- `DefaultRegistry`, with the templates of its two themes.
module _ {C : Type 0} (blank_page default_page : Page → C) where
  unfoldable pub default_registry : Result (Registry C)
  unfolding new_registry
  default_registry = new_registry (
      record { manifest = blank_manifest; render = blank_page }
      ∷ record { manifest = default_manifest; render = default_page }
      ∷ [])

module _ {C : Type 0} where
  named_later :
      (id : Text) (key : Text) (theme : Theme C) (registry : Registry C)
      → is_some (theme_named id registry) ≡ true
      → is_some (theme_named id ((key, theme) ∷ registry)) ≡ true
  unfolding theme_named
  named_later id key theme registry h = elim (Bool-cases (key == id)) [
    | inl e ↦ rw e refl
    | inr e ↦ rw e h
  ]

  -- A registry that has the default theme resolves every id.
  resolve_total :
      (id : Text) (registry : Registry C)
      → is_some (theme_named default_id registry) ≡ true
      → is_some (resolve id registry) ≡ true
  unfolding resolve
  resolve_total id registry h = from (theme_named (trim_space id) registry)
    where
      from : (o : Option (Theme C)) → is_some (or_default registry o) ≡ true
      from (some theme) = refl
      from none = h

module _ {C : Type 0} (blank_page default_page : Page → C) where
  -- The default registry is made without an error, and every id resolves to one of its themes.
  pub default_registry_total :
      (id : Text)
      → (r : Registry C) × (default_registry blank_page default_page ≡ ok r)
        × (is_some (resolve id r) ≡ true)
  unfolding default_registry matches_id is_empty trim_space ◌==◌
  default_registry_total id = (_, refl, resolve_total id _ refl)
