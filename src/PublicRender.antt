-- ===== src/PublicRender.antt =====
-- internal/publicrender/model.go: what a public page is rendered from. The map of titles is a list, in
-- the order of the iteration.
use app_gocms.Prelude.{ℕ, Option, none, some, List, [], ◌∷◌, if◌then◌else◌}
use app_gocms.Text.{Text, codes, ◌==◌, is_empty}
use app_gocms.Domain.{Entry, Menu, MenuItem, Time}

pub data PageKind : Type 0 where
  home_page post_page single_page not_found_page : PageKind

pub record Site : Type 0 where
  pub title : Text
  pub description : Text
  pub locale : Text

pub record PageLink : Type 0 where
  pub label : Text
  pub url : Text

pub record PageEntry : Type 0 where
  pub title : Text
  pub slug : Text
  pub permalink : Text
  pub excerpt : Text
  pub published_at : Time

pub record Page : Type 0 where
  pub kind : PageKind
  pub template_role : Text
  pub status_code : ℕ
  pub site : Site
  pub title : Text
  pub slug : Text
  pub permalink : Text
  pub content : Text
  pub excerpt : Text
  pub published_at : Time
  pub entries : List PageEntry
  pub menu : List PageLink
  pub theme_id : Text

unfoldable pub links_of : List MenuItem → List PageLink
links_of [] = []
links_of (item ∷ items) = record { label = item.label; url = item.url } ∷ links_of items

unfoldable pub menu_from_domain : Menu → List PageLink
unfolding links_of
menu_from_domain menu = links_of menu.items

-- `titles[locale]`, which is empty for a missing key.
unfoldable pub title_at : Text → List (Text × Text) → Text
title_at locale [] = []
title_at locale ((l, title) ∷ titles) = if l == locale then title else title_at locale titles

unfoldable pub first_title : Text → List (Text × Text) → Text
first_title id [] = id
first_title id ((l, title) ∷ titles) = if is_empty title then first_title id titles else title

unfoldable pub title_or : Text → Option (List (Text × Text)) → Text
unfolding title_at first_title
title_or id none = id
title_or id (some titles) =
    if is_empty (title_at (codes "en") titles)
    then first_title id titles
    else title_at (codes "en") titles

unfoldable pub title_of : Entry → Text
unfolding title_or
title_of e = title_or e.id e.title

unfoldable pub entry_from_content : Entry → Text → PageEntry
unfolding title_of
entry_from_content e permalink = record {
  title = title_of e;
  slug = e.slug;
  permalink = permalink;
  excerpt = e.excerpt;
  published_at = e.published_at;
}
