-- ===== src/PublicSite/Shown.antt =====
-- Which entries the public pages show.
use mathlib.Core.Path.{subst}
use mathlib.Core.Option.{some-injective}
use mathlib.Core.List.{Mem, mem-cons_self, mem-cons_of_mem}
use app_gocms.Prelude.{
  ◌≡◌, refl, sym, ap, ◌∙◌, inl, inr, Bool, Option, none, some, List, [], ◌∷◌, arith, find, filter,
  All, ok, Exec, Bool-cases,
}
use app_gocms.Prelude.Errors.{bind_ok, ok-injective}
use app_gocms.Text.{is_empty, Text, codes, ◌==◌}
use app_gocms.Text.Laws.{==_iff}
use app_gocms.Domain.{Entry, status_published, visibility_public, kind_page, kind_post}
use app_gocms.Env.{Env}
use app_gocms.Content
use app_gocms.Services.ContentTypes
use app_gocms.Services.Menus
use app_gocms.Services.Settings.{public_settings}
use app_gocms.Rest.Visibility.{ListLaws}
use app_gocms.Rest.Authorization.{ReadOnly, Reads, Reads-bind, Reads-pure-bind}
use app_gocms.Permalinks.{
  Settings, Candidate, CandidateKind, candidate_home, candidate_page, candidate_post,
  candidate_none, resolve,
}
use app_gocms.PublicRender.{Page, Site}
use app_gocms.PublicSite.{
  Frame, entry_page, is_public_entry, listed_entries, published_content, published_entries,
  entry_by_slug, page_or_none, home, try_entry, try_candidate, or_rest, first_page, assembled,
  assemble, menu_of, permalink_settings, site_of, not_found,
}

-- The entry is published, and public.
pub record IsOpen (e : Entry) : Type 0 where
  pub published : e.status ≡ status_published
  pub public : e.visibility ≡ visibility_public

-- What a list of the published entries of a kind answers.
abbrev pub IsListed : {S : Type 0} → Env S → S → Text → List Entry → Type 0
IsListed env s kind all =
    (env.list (record { kind = kind; status = status_published }) s).0 ≡ ok all

-- Where the entries of a page come from, on the site that is stored in `s`: nowhere, from all the
-- public entries of those that are listed as published posts, or from one entry of such a list.
pub data Shows {S : Type 0} (env : Env S) (s : S) (page : Page) : Type 0 where
  nothing : page.entries ≡ [] → page.content ≡ [] → page.status_code ≡ 404 → Shows env s page
  open_list :
      (settings : Settings) (all : List Entry)
      → IsListed env s kind_post all
      → All IsOpen (filter is_public_entry all)
      → page.entries ≡ listed_entries settings (filter is_public_entry all)
      → page.content ≡ []
      → Shows env s page
  open_entry :
      (f : Frame) (kind : Text) (all : List Entry) (e : Entry)
      → IsListed env s kind all
      → Mem e all
      → IsOpen e
      → page ≡ entry_page f kind e
      → Shows env s page

IsOpen-public :
    (items : List Entry)
    → All (λ (e : Entry). e.status ≡ status_published) items
    → All IsOpen (filter is_public_entry items)
IsOpen-public [] h = tt
IsOpen-public (e ∷ es) (published, h) = elim (Bool-cases (is_public_entry e)) [
  | inl public ↦ rw public (
    record { published = published; public = (==_iff e.visibility visibility_public).0 public },
    IsOpen-public es h,
  )
  | inr private ↦ rw private (IsOpen-public es h)
]

found-Mem :
    (p : Entry → Bool) (items : List Entry) (e : Entry)
    → find p (filter is_public_entry items) ≡ some e
    → Mem e items
found-Mem p [] e found = absurd (ground arith)
found-Mem p (x ∷ xs) e found = elim (Bool-cases (is_public_entry x)) [
  | inr private ↦ mem-cons_of_mem x (found-Mem p xs e (rw private at found))
  | inl public ↦ elim (Bool-cases (p x)) [
    | inl passes ↦
        subst (λ y. Mem y (x ∷ xs)) (some-injective x e (rw (public, passes) at found))
          mem-cons_self
    | inr fails ↦ mem-cons_of_mem x (found-Mem p xs e (rw (public, fails) at found))
  ]
]

found-IsOpen :
    (p : Entry → Bool) (items : List Entry) (e : Entry)
    → All IsOpen items
    → find p items ≡ some e
    → IsOpen e
found-IsOpen p [] e h found = absurd (ground arith)
found-IsOpen p (x ∷ xs) e (hx, h) found = elim (Bool-cases (p x)) [
  | inl passes ↦ subst IsOpen (some-injective x e (rw passes at found)) hx
  | inr fails ↦ found-IsOpen p xs e h (rw fails at found)
]

module _ {S : Type 0} (env : Env S) (reads : ReadOnly env) where
  Reads-published_content : (kind : Text) → Reads (published_content env kind)
  unfolding published_content Content.list
  Reads-published_content kind = Reads-pure-bind _ _ (record { at = reads.list _ })

  Reads-permalink_settings : Reads (permalink_settings env)
  unfolding permalink_settings ContentTypes.get
  Reads-permalink_settings =
      Reads-bind (env.get_content_type kind_post) _ (record { at = reads.content_type kind_post })
        λ post.
          Reads-pure-bind (env.get_content_type kind_page) _
            (record { at = reads.content_type kind_page })

  Reads-site_of : Reads (site_of env)
  unfolding site_of public_settings
  Reads-site_of = Reads-pure-bind _ _ (Reads-pure-bind _ _ (record { at = reads.settings }))

  menu_of_state : (s : S) → (menu_of env s).1 ≡ s
  unfolding menu_of Menus.by_location
  menu_of_state s = reads.menu (codes "primary") s

  Reads-entry_by_slug : (f : Frame) (kind slug : Text) → Reads (entry_by_slug env f kind slug)
  unfolding entry_by_slug
  Reads-entry_by_slug f kind slug = Reads-pure-bind _ _ (Reads-published_content kind)

module _ {S : Type 0} (env : Env S) (laws : ListLaws env) (reads : ReadOnly env) (u : S) where
  -- What `published_content` answers is what is public of what is listed.
  published-IsListed :
      (kind : Text) (items : List Entry)
      → (published_content env kind u).0 ≡ ok items
      → (all : List Entry) × IsListed env u kind all
        × All IsOpen (filter is_public_entry all)
        × (filter is_public_entry all ≡ items)
  unfolding published_content Content.list
  published-IsListed kind items h =
      let (all, listed, made) = bind_ok (env.list _) _ u items h in
      (
        all,
        listed,
        IsOpen-public all (
            laws.status (record { kind = kind; status = status_published }) u all
              (unfold is_empty in refl) listed),
        ok-injective _ items made,
      )

  home-Shows :
      (f : Frame) (s : S) (page : Page) → s ≡ u → (home env f s).0 ≡ ok page → Shows env u page
  unfolding home published_entries
  home-Shows f s page same h =
      let (posts, read, made) = bind_ok (published_entries env kind_post) _ s page h in
      let (settings, t, listed) = bind_ok (permalink_settings env) _ s posts read in
      let (items, found, shown) =
        bind_ok (published_content env kind_post) _ (permalink_settings env s).1 posts listed in
      let (all, listed_all, opened, kept) = published-IsListed kind_post items (
        ap (λ x. (published_content env kind_post x).0)
          (sym ((Reads-permalink_settings env reads).at s ∙ same))
        ∙ found) in
      open_list settings all listed_all opened
        (sym (ap (λ (p : Page). p.entries) (ok-injective _ page made))
          ∙ sym (ok-injective _ posts shown)
          ∙ ap (listed_entries settings) (sym kept))
        (sym (ap (λ (p : Page). p.content) (ok-injective _ page made)))

  -- What the page that `entry_by_slug` finds is made of.
  page_of_entry :
      (f : Frame) (kind : Text) (o : Option Entry) (page : Page)
      → page_or_none env f kind o ≡ some page
      → (e : Entry) × (o ≡ some e) × (page ≡ entry_page f kind e)
  unfolding page_or_none
  page_of_entry f kind none page h = absurd (ground arith)
  page_of_entry f kind (some e) page h =
      (e, refl, sym (some-injective (entry_page f kind e) page h))

  entry_by_slug-Shows :
      (f : Frame) (kind slug : Text) (page : Page)
      → (entry_by_slug env f kind slug u).0 ≡ ok (some page)
      → Shows env u page
  unfolding entry_by_slug
  entry_by_slug-Shows f kind slug page h =
      let (items, listed, made) = bind_ok (published_content env kind) _ u (some page) h in
      let (e, found, same) = page_of_entry f kind _ page (ok-injective _ (some page) made) in
      let (all, listed_all, opened, kept) = published-IsListed kind items listed in
      let found_in = ap (find (λ (x : Entry). x.slug == slug)) kept ∙ found in
      open_entry f kind all e listed_all (found-Mem _ all e found_in)
        (found-IsOpen _ (filter is_public_entry all) e opened found_in) same

  or_rest-Shows :
      (o : Option Page) (rest : Exec S Page) (s : S) (page : Page)
      → ((found : Page) → o ≡ some found → Shows env u found)
      → ((rest s).0 ≡ ok page → Shows env u page)
      → (or_rest env o rest s).0 ≡ ok page
      → Shows env u page
  or_rest-Shows none rest s page shown later h = later h
  or_rest-Shows (some found) rest s page shown later h =
      subst (Shows env u) (ok-injective found page h) (shown found refl)

  -- What the rest of the candidates shows.
  abbrev ShowsFrom : Exec S Page → Page → Type 0
  ShowsFrom rest page = (t : S) → t ≡ u → (rest t).0 ≡ ok page → Shows env u page

  try_entry-Shows :
      (f : Frame) (kind slug : Text) (rest : Exec S Page) (s : S) (page : Page)
      → ShowsFrom rest page
      → s ≡ u
      → (try_entry env f kind slug rest s).0 ≡ ok page
      → Shows env u page
  try_entry-Shows f kind slug rest s page later same h =
      let (o, found, more) = bind_ok (entry_by_slug env f kind slug) _ s page h in
      or_rest-Shows o rest (entry_by_slug env f kind slug s).1 page
        (λ p is.
          entry_by_slug-Shows f kind slug p
            (ap (λ x. (entry_by_slug env f kind slug x).0) (sym same) ∙ found ∙ ap ok is))
        (later (entry_by_slug env f kind slug s).1
          ((Reads-entry_by_slug env reads f kind slug).at s ∙ same))
        more

  try_candidate-Shows :
      (f : Frame) (kind : CandidateKind) (slug : Text) (rest : Exec S Page) (s : S) (page : Page)
      → ShowsFrom rest page
      → s ≡ u
      → (try_candidate env f (record { kind = kind; slug = slug }) rest s).0 ≡ ok page
      → Shows env u page
  try_candidate-Shows f candidate_home slug rest s page later same h = home-Shows f s page same h
  try_candidate-Shows f candidate_page slug rest s page later same h =
      try_entry-Shows f kind_page slug rest s page later same h
  try_candidate-Shows f candidate_post slug rest s page later same h =
      try_entry-Shows f kind_post slug rest s page later same h
  try_candidate-Shows f candidate_none slug rest s page later same h = later s same h

  first_page-Shows :
      (f : Frame) (cs : List Candidate) (page : Page) → ShowsFrom (first_page env f cs) page
  unfolding first_page
  first_page-Shows f [] page s same h =
      subst (Shows env u) (ok-injective (not_found f) page h) (nothing refl refl refl)
  first_page-Shows f (c ∷ cs) page s same h =
      try_candidate-Shows f c.kind c.slug (first_page env f cs) s page (first_page-Shows f cs page)
        same h

  assembled-Shows :
      (path : Text) (site : Site) (theme_id : Text) (settings : Settings) (s : S) (page : Page)
      → s ≡ u
      → (assembled env path site theme_id settings s).0 ≡ ok page
      → Shows env u page
  unfolding assembled
  assembled-Shows path site theme_id settings s page same h =
      first_page-Shows _ (resolve path settings) page (menu_of env s).1
        (menu_of_state env reads s ∙ same) h

  -- Where a list by a status holds entries of that status only, and what reads changes nothing: a
  -- page that is assembled, for whatever path, shows nothing; or all the public entries of those
  -- that are listed as published posts; or one entry of those that are listed as published ones of
  -- some kind, which is public.
  pub assemble-Shows :
      (path : Text) (page : Page) → (assemble env path u).0 ≡ ok page → Shows env u page
  unfolding assemble
  assemble-Shows path page h =
      let (found, t, more) = bind_ok (site_of env) _ u page h in
      let (settings, v, last) = bind_ok (permalink_settings env) _ (site_of env u).1 page more in
      assembled-Shows path found.0 found.1 settings _ page
        ((Reads-permalink_settings env reads).at (site_of env u).1 ∙ (Reads-site_of env reads).at u)
        last
