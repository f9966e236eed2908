-- ===== src/PublicSite.antt =====
-- internal/delivery/publicsite/assembler.go: the public pages, as they are assembled for a path from
-- the entries, the settings, the content types and the menus.
pub mod Themes
pub mod Shown
pub mod Served
use app_gocms.Prelude.{
  ℕ, Bool, true, false, not, ◌&&◌, ◌||◌, Option, none, some, List, [], ◌∷◌, ◌++◌, find, filter,
  if◌then◌else◌, Result, ok, err, Error, Exec, pure, raise, ◌>>=◌, ◌>>◌,
}
use app_gocms.Text.{Text, codes, ◌==◌, is_empty, has_prefix, trim_space, slash}
use app_gocms.Domain.{
  Entry, Query, ContentType, Setting, SettingDefinition, Menu, MenuItem, Value, text, kind_post,
  kind_page, status_published, visibility_public, Time,
}
use app_gocms.Env.{Env}
use app_gocms.Content
use app_gocms.Services.ContentTypes
use app_gocms.Services.Settings.{public_settings}
use app_gocms.Services.Menus
use app_gocms.PublicRender.{
  PageKind, home_page, post_page, single_page, not_found_page, Site, PageLink, PageEntry, Page,
  links_of, menu_from_domain, title_at, first_title, title_or, title_of, entry_from_content,
}
use app_gocms.Permalinks.{
  Settings, Candidate, candidate_home, candidate_page, candidate_post, candidate_none,
  default_settings, resolve, entry_path,
}

unfoldable pub string_value : Value → Text → Text
string_value (text value) fallback = if is_empty (trim_space value) then fallback else value
string_value _ fallback = fallback

-- The loop of `site`: the site and the id of the theme, after one more setting.
unfoldable pub set_value : Setting → Site × Text → Site × Text
unfolding string_value
set_value v (site, theme_id) =
    if v.key == codes "site.title"
    then (record site { title = string_value v.value site.title }, theme_id)
    else if v.key == codes "site.description"
    then (record site { description = string_value v.value site.description }, theme_id)
    else if v.key == codes "site.locale"
    then (record site { locale = string_value v.value site.locale }, theme_id)
    else if v.key == codes "theme.active"
    then (site, string_value v.value theme_id)
    else (site, theme_id)

unfoldable pub set_values : List Setting → Site × Text → Site × Text
unfolding set_value
set_values [] found = found
set_values (v ∷ vs) found = set_values vs (set_value v found)

abbrev pub default_site : Site
default_site = record { title = codes "AppCMS"; description = []; locale = codes "en" }

abbrev pub default_theme : Text
default_theme = codes "gocms-default"

unfoldable pub site_definition : Text → Text → Text → SettingDefinition
site_definition key group value = record {
  key = key;
  group = group;
  default_value = text value;
  is_public = true;
}

-- `defaultSettingsRegistry`
unfoldable pub site_definitions : List SettingDefinition
unfolding site_definition
site_definitions =
    site_definition (codes "site.title") (codes "site") (codes "AppCMS")
    ∷ site_definition (codes "site.description") (codes "site") (codes "A FastyGo powered site.")
    ∷ site_definition (codes "site.locale") (codes "site") (codes "en")
    ∷ site_definition (codes "theme.active") (codes "theme") (codes "gocms-default")
    ∷ []

-- The pattern of a content type, if it is there and is not blank.
unfoldable pub pattern_or : Text → Option ContentType → Text
pattern_or pattern none = pattern
pattern_or pattern (some item) =
    if is_empty (trim_space item.permalink_pattern) then pattern else item.permalink_pattern

abbrev pub is_public_entry : Entry → Bool
is_public_entry e = e.visibility == visibility_public

unfoldable pub listed_entries : Settings → List Entry → List PageEntry
unfolding entry_from_content
listed_entries settings [] = []
listed_entries settings (e ∷ es) =
    entry_from_content e (entry_path e settings) ∷ listed_entries settings es

-- What every page of a site has.
pub record Frame : Type 0 where
  pub settings : Settings
  pub site : Site
  pub menu : List PageLink
  pub theme_id : Text

abbrev pub empty_page : Frame → PageKind → Text → ℕ → Text → Page
empty_page f kind template_role status title = record {
  kind = kind;
  template_role = template_role;
  status_code = status;
  site = f.site;
  title = title;
  slug = [];
  permalink = [];
  content = [];
  excerpt = [];
  published_at = 0;
  entries = [];
  menu = f.menu;
  theme_id = f.theme_id;
}

unfoldable pub entry_page : Frame → Text → Entry → Page
unfolding title_of
entry_page f kind e =
    record (if kind == kind_page
      then empty_page f single_page (codes "page") 200 (title_of e)
      else empty_page f post_page (codes "post") 200 (title_of e)) {
        slug = e.slug;
        permalink = entry_path e f.settings;
        content = e.content;
        excerpt = e.excerpt;
        published_at = e.published_at;
      }

abbrev pub not_found : Frame → Page
not_found f = empty_page f not_found_page (codes "not_found") 404 (codes "Not found")

module _ {S : Type 0} (env : Env S) where
  unfoldable pub published_content : Text → Exec S (List Entry)
  published_content kind = do
    items ← Content.list env (record { kind = kind; status = status_published })
    pure (filter is_public_entry items)

  unfoldable pub permalink_settings : Exec S Settings
  unfolding pattern_or
  permalink_settings = do
    post ← ContentTypes.get env kind_post
    page ← ContentTypes.get env kind_page
    pure (record {
      post_pattern = pattern_or default_settings.post_pattern post;
      page_pattern = pattern_or default_settings.page_pattern page;
    })

  unfoldable pub site_of : Exec S (Site × Text)
  unfolding set_values
  site_of = do
    values ← public_settings env site_definitions
    pure (set_values values (default_site, default_theme))

  unfoldable pub menu_or : Result (Option Menu) → List PageLink
  unfolding menu_from_domain
  menu_or (ok (some menu)) = menu_from_domain menu
  menu_or (ok none) = []
  menu_or (err e) = []

  unfoldable pub menu_of : S → List PageLink × S
  unfolding menu_or
  menu_of s = let found = Menus.by_location env (codes "primary") s in (menu_or found.0, found.1)

  unfoldable pub published_entries : Text → Exec S (List PageEntry)
  unfolding listed_entries
  published_entries kind = do
    settings ← permalink_settings
    items ← published_content kind
    pure (listed_entries settings items)

  unfoldable pub page_or_none : Frame → Text → Option Entry → Option Page
  unfolding entry_page
  page_or_none f kind none = none
  page_or_none f kind (some e) = some (entry_page f kind e)

  unfoldable pub entry_by_slug : Frame → Text → Text → Exec S (Option Page)
  unfolding page_or_none
  entry_by_slug f kind slug = do
    items ← published_content kind
    pure (page_or_none f kind (find (λ (e : Entry). e.slug == slug) items))

  unfoldable pub home : Frame → Exec S Page
  home f = do
    posts ← published_entries kind_post
    pure (record (empty_page f home_page (codes "front") 200 f.site.title) { entries = posts })

  -- A page that was found, or the rest of the loop.
  abbrev pub or_rest : Option Page → Exec S Page → Exec S Page
  or_rest (some page) rest = pure page
  or_rest none rest = rest

  abbrev pub try_entry : Frame → Text → Text → Exec S Page → Exec S Page
  try_entry f kind slug rest = entry_by_slug f kind slug >>= λ found. or_rest found rest

  abbrev pub try_candidate : Frame → Candidate → Exec S Page → Exec S Page
  try_candidate f c rest = elim c.kind [
    | candidate_home ↦ home f
    | candidate_page ↦ try_entry f kind_page c.slug rest
    | candidate_post ↦ try_entry f kind_post c.slug rest
    | candidate_none ↦ rest
  ]

  unfoldable pub first_page : Frame → List Candidate → Exec S Page
  first_page f [] = pure (not_found f)
  first_page f (c ∷ cs) = try_candidate f c (first_page f cs)

  unfoldable pub assembled : Text → Site → Text → Settings → Exec S Page
  unfolding menu_of first_page
  assembled path site theme_id settings s =
      let found = menu_of s in
      first_page (record { settings = settings; site = site; menu = found.0; theme_id = theme_id })
        (resolve path settings) found.1

  unfoldable pub assemble : Text → Exec S Page
  unfolding assembled
  assemble path = do
    found ← site_of
    settings ← permalink_settings
    assembled path found.0 found.1 settings
