-- ===== src/Tests/SiteRuns.antt =====
-- Runs of the public site and of the rows of records.
use app_gocms.Prelude.{ℕ, ◌≡◌, refl, false, [], ◌∷◌, arith, Result, ok, err}
use app_gocms.Text.{
  codes, ◌==◌, is_empty, has_prefix, trim, trim_space, count, contains, cut, has_suffix,
  trim_suffix, replace_all, replace_from, strip_prefix, strip_suffix, trim_left, trim_prefix,
  trim_right,
}
use app_gocms.Domain.{
  Fields, end, field, text, Entry, zero_entry, kind_post, status_published, visibility_public,
}
use app_gocms.Storage.{set_field, get, put, table_for_record_type}
use app_gocms.Storage.Rows.{get-put_other}
use app_gocms.Permalinks.{
  default_settings, clean_path, matches_pattern, fits_around, slug_from_pattern, slug_between,
  resolve, candidate_if, or_guess, entry_path, pattern_for,
}
use app_gocms.PublicRender.{Page, not_found_page, title_of, title_or}
use app_gocms.PublicSite.{
  Frame, empty_page, default_site, default_theme, assemble, site_of, set_values, permalink_settings,
  pattern_or, assembled, menu_of, menu_or, first_page, entry_by_slug, published_content,
  page_or_none, entry_page,
}
use app_gocms.PublicSite.Themes.{
  Registry, resolve as resolve_theme, default_registry, default_registry_total,
}
use app_gocms.PublicSite.Served.{
  Response, in_transaction, conclude, render_page, under_any, serve, rendered, is_system_path,
  serve-Shows,
}
use app_gocms.PublicSite.Shown.{Shows}
use app_gocms.PublicSite.Themes
use app_gocms.PublicSite.Themes.{theme_named}
use app_gocms.Extensions.{matches_id}
use app_gocms.Content
use app_gocms.Services.ContentTypes
use app_gocms.Services.Menus
use app_gocms.Services.Settings.{public_settings, public_values}
use app_gocms.Tests.Table.{rows, format, flat, rows-StatementLaws}
use app_gocms.Tests.Memory.{Memory, empty_memory, memory, memory-ListLaws, memory-ReadOnly}
use app_gocms.Storage.Transactions.{Transactions}

abbrev titled : Fields
titled = field (codes "slug") (text (codes "hello")) end

get-put_other_example :
    (get rows format
      (codes "other")
      (codes "post")
      (codes "p1")
      (put rows format (codes "root") (codes "post") (codes "p1") titled []).1).0
    ≡ (get rows format (codes "other") (codes "post") (codes "p1") []).0
unfolding put flat rows table_for_record_type set_field ◌==◌
get-put_other_example =
    get-put_other rows format rows-StatementLaws (codes "root") (codes "other") (codes "post")
      (codes "post") (codes "p1") (codes "p1") titled []
      (put rows format (codes "root") (codes "post") (codes "p1") titled []).1
      (λ h. ground (arith, h)) refl

abbrev committed : Transactions Memory
committed = record { begin = λ s. ok tt; commit = λ s. ok tt }

abbrev hello : Entry
hello = record zero_entry {
  id = codes "p1";
  kind = kind_post;
  slug = codes "hello";
  status = status_published;
  visibility = visibility_public;
}

abbrev site : Memory
site = record empty_memory { entries = hello ∷ [] }

abbrev themes : Registry ℕ
themes = or_none (default_registry (λ p. 1) (λ p. 2))
  where
    or_none : Result (Registry ℕ) → Registry ℕ
    or_none (ok r) = r
    or_none (err e) = []

abbrev no_frame : Frame
no_frame = record {
  settings = default_settings;
  site = default_site;
  menu = [];
  theme_id = default_theme;
}

abbrev page_shown : Response ℕ → Page
page_shown (rendered p c) = p
page_shown _ = empty_page no_frame not_found_page [] 0 []

serve-Shows_example :
    (is_system_path (codes "/posts/hello") ≡ false)
    × (false ≡ false)
    × Shows memory
        (ContentTypes.install_built_ins memory site).1
        (page_shown (serve committed memory themes false (codes "/posts/hello") site).0)
unfolding serve is_system_path under_any in_transaction conclude render_page assemble site_of
    set_values permalink_settings pattern_or assembled menu_of menu_or first_page entry_by_slug
    published_content page_or_none entry_page ◌==◌ has_prefix ContentTypes.install_built_ins
    is_empty memory public_settings public_values ContentTypes.get resolve clean_path trim
    matches_pattern trim_space count contains cut has_suffix trim_suffix Content.list candidate_if
    entry_path fits_around or_guess pattern_for slug_between slug_from_pattern Themes.or_default
    resolve_theme theme_named title_of title_or Menus.by_location ContentTypes.register replace_all
    replace_from strip_prefix strip_suffix trim_left trim_prefix trim_right default_registry
    matches_id
serve-Shows_example =
    serve-Shows committed memory themes false memory-ListLaws memory-ReadOnly (codes "/posts/hello")
      site (page_shown (serve committed memory themes false (codes "/posts/hello") site).0) 2 refl
