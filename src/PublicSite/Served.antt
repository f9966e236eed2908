-- ===== src/PublicSite/Served.antt =====
-- internal/delivery/publicsite/handler.go: the handler of the public pages.
use app_gocms.Prelude.{
  ◌≡◌, refl, ap, Bool, true, false, ◌||◌, Option, none, some, List, [], ◌∷◌, ◌++◌, arith,
  if◌then◌else◌, Result, ok, err, Error,
}
use app_gocms.Text.{Text, codes, ◌==◌, has_prefix, slash}
use app_gocms.Env.{Env}
use app_gocms.Services.ContentTypes
use app_gocms.Storage.Transactions.{Transactions}
use app_gocms.Rest.Visibility.{ListLaws}
use app_gocms.Rest.Authorization.{ReadOnly}
use app_gocms.PublicRender.{Page}
use app_gocms.PublicSite.{assemble}
use app_gocms.PublicSite.Themes.{Theme, Registry, resolve}
use app_gocms.PublicSite.Shown.{Shows, assemble-Shows}

abbrev pub system_prefixes : List Text
system_prefixes =
    codes "/go-admin"
    ∷ codes "/go-json"
    ∷ codes "/go-login"
    ∷ codes "/go-logout"
    ∷ codes "/static"
    ∷ codes "/healthz"
    ∷ codes "/readyz"
    ∷ []

unfoldable pub under_any : Text → List Text → Bool
under_any path [] = false
under_any path (prefix ∷ prefixes) =
    path == prefix || has_prefix path (prefix ++ slash ∷ []) || under_any path prefixes

unfoldable pub is_system_path : Text → Bool
unfolding under_any
is_system_path path = under_any path system_prefixes

-- What is written: `http.NotFound`, an error with status 500, or a page that a theme has rendered.
pub data Response (C : Type 0) : Type 0 where
  missing : Response C
  failure : Error → Response C
  rendered : Page → C → Response C

module _ {S C : Type 0} (tx : Transactions S) (env : Env S) (themes : Registry C)
    (headless : Bool) where
  -- After the transaction.
  unfoldable pub render_page : Page → Option (Theme C) → Response C
  render_page page none = failure (codes "theme not found")
  render_page page (some theme) = rendered page (theme.render page)

  -- The end of a transaction that began at `before`: an error, and a failed commit, roll it back.
  unfoldable pub conclude : S → Result Page × S → Response C × S
  unfolding render_page
  conclude before (err e, s) = (failure e, before)
  conclude before (ok page, s) = elim (tx.commit s) [
    | err e ↦ (failure e, before)
    | ok _ ↦ (render_page page (resolve page.theme_id themes), s)
  ]

  unfoldable pub in_transaction : Text → S → Response C × S
  unfolding conclude
  in_transaction path s = elim (ContentTypes.install_built_ins env s).0 [
    | err e ↦ (failure e, s)
    | ok _ ↦ conclude s (assemble env path (ContentTypes.install_built_ins env s).1)
  ]

  unfoldable pub serve : Text → S → Response C × S
  unfolding in_transaction is_system_path
  serve path s =
      if is_system_path path || headless
      then (missing, s)
      else elim (tx.begin s) [ err e ↦ (failure e, s) | ok _ ↦ in_transaction path s ]

  rendered_page :
      (page : Page) (o : Option (Theme C)) (p : Page) (c : C)
      → render_page page o ≡ rendered p c
      → page ≡ p
  unfolding render_page
  rendered_page page none p c h = absurd (ground arith)
  rendered_page page (some theme) p c h = ground arith

  conclude_shows :
      (before : S) (a : Result Page) (s : S) (p : Page) (c : C)
      → (conclude before (a, s)).0 ≡ rendered p c
      → a ≡ ok p
  unfolding conclude
  conclude_shows before (err e) s p c h = absurd (ground arith)
  conclude_shows before (ok page) s p c h = from (tx.commit s) h
    where
      from :
          (r : Result (Unit {0}))
          → (elim r as (λ _. Response C × S) [
            | err e ↦ (failure e, before)
            | ok _ ↦ (render_page page (resolve page.theme_id themes), s)
          ]).0
            ≡ rendered p c
          → ok page ≡ ok p
      from (err e) h = absurd (ground arith)
      from (ok u) h = ap ok (rendered_page page (resolve page.theme_id themes) p c h)

  in_transaction-Shows :
      (laws : ListLaws env) (reads : ReadOnly env) (path : Text) (s : S) (p : Page) (c : C)
      → (in_transaction path s).0 ≡ rendered p c
      → Shows env (ContentTypes.install_built_ins env s).1 p
  unfolding in_transaction
  in_transaction-Shows laws reads path s p c = from (ContentTypes.install_built_ins env s).0
    where
      t : S
      t = (ContentTypes.install_built_ins env s).1

      from :
          (r : Result (Unit {0}))
          → (elim r as (λ _. Response C × S) [
            | err e ↦ (failure e, s)
            | ok _ ↦ conclude s (assemble env path t)
          ]).0
            ≡ rendered p c
          → Shows env t p
      from (err e) h = absurd (ground arith)
      from (ok u) h =
          assemble-Shows env laws reads t path p
            (conclude_shows s (assemble env path t).0 (assemble env path t).1 p c h)

  -- Where a list by a status holds entries of that status only, and what reads changes nothing: a
  -- page that is rendered is one of a path that is not the system's, on a site that is not headless.
  -- Once the built-in content types are registered, it shows nothing, or all the public entries
  -- of the list of the published posts, or one entry of the list of the published entries of some
  -- kind; and every entry that it shows is published and public.
  pub serve-Shows :
      (laws : ListLaws env) (reads : ReadOnly env) (path : Text) (s : S) (p : Page) (c : C)
      → (serve path s).0 ≡ rendered p c
      → (is_system_path path ≡ false)
        × (headless ≡ false)
        × Shows env (ContentTypes.install_built_ins env s).1 p
  unfolding serve
  serve-Shows laws reads path s p c = from (is_system_path path) headless (tx.begin s)
    where
      from :
          (system hidden : Bool) (r : Result (Unit {0}))
          → (if system || hidden then (missing, s) else elim r as (λ _. Response C × S) [
            | err e ↦ (failure e, s)
            | ok _ ↦ in_transaction path s
          ]).0
            ≡ rendered p c
          → (system ≡ false)
            × (hidden ≡ false)
            × Shows env (ContentTypes.install_built_ins env s).1 p
      from true hidden r h = absurd (ground arith)
      from false true r h = absurd (ground arith)
      from false false (err e) h = absurd (ground arith)
      from false false (ok u) h = (refl, refl, in_transaction-Shows laws reads path s p c h)
