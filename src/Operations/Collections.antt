-- ===== src/Operations/Collections.antt =====
-- The collections of records that a snapshot holds, and what is relied on of their repositories.
use app_gocms.Prelude.{ℕ, ◌≡◌, ◌≢◌, refl, sym, ap, ◌∙◌, eqb, List, [], ◌∷◌, if◌then◌else◌, ok}
use app_gocms.Text.{Text}
use app_gocms.Storage.Repositories.{Repository, Repositories}
use app_gocms.Operations.{Snapshot, id_of}

-- The collections that a snapshot holds, in the order of their import.
pub data Collection : Type 0 where
  content_types taxonomies terms authors posts pages media settings menus : Collection

abbrev pub rank : Collection → ℕ
rank content_types = 0
rank taxonomies = 1
rank terms = 2
rank authors = 3
rank posts = 4
rank pages = 5
rank media = 6
rank settings = 7
rank menus = 8

abbrev of_rank : ℕ → Collection
of_rank n =
    if eqb n 0
    then content_types
    else if eqb n 1
    then taxonomies
    else if eqb n 2
    then terms
    else if eqb n 3
    then authors
    else if eqb n 4
    then posts
    else if eqb n 5
    then pages
    else if eqb n 6
    then media
    else if eqb n 7
    then settings
    else menus

of_rank-rank : (c : Collection) → of_rank (rank c) ≡ c
of_rank-rank content_types = refl
of_rank-rank taxonomies = refl
of_rank-rank terms = refl
of_rank-rank authors = refl
of_rank-rank posts = refl
of_rank-rank pages = refl
of_rank-rank media = refl
of_rank-rank settings = refl
of_rank-rank menus = refl

pub rank-injective : (c d : Collection) → rank c ≡ rank d → c ≡ d
rank-injective c d h = sym (of_rank-rank c) ∙ ap of_rank h ∙ of_rank-rank d

abbrev pub all_collections : List Collection
all_collections =
    content_types ∷ taxonomies ∷ terms ∷ authors ∷ posts ∷ pages ∷ media ∷ settings ∷ menus ∷ []

abbrev pub items_of : {R : Type 0} → Snapshot R → Collection → List R
items_of s content_types = s.content_types
items_of s taxonomies = s.taxonomies
items_of s terms = s.terms
items_of s authors = s.authors
items_of s posts = s.posts
items_of s pages = s.pages
items_of s media = s.media
items_of s settings = s.settings
items_of s menus = s.menus

module _ {S R : Type 0} where
  abbrev pub repo_of : Repositories S R → Collection → Repository S R
  repo_of repos content_types = repos.content_types
  repo_of repos taxonomies = repos.taxonomies
  repo_of repos terms = repos.terms
  repo_of repos authors = repos.authors
  repo_of repos posts = repos.posts
  repo_of repos pages = repos.pages
  repo_of repos media = repos.media_assets
  repo_of repos settings = repos.settings
  repo_of repos menus = repos.menus

-- What is seen of a record once it is put, which is seen under its id, and what else is seen stays.
pub record PutLaws {S R V : Type 0} (field : R → Text → Text) (repos : Repositories S R)
    (stored : R → V) (view : Collection → S → Text → V) : Type 0 where
  pub here :
      (c : Collection) (r : R) (s s' : S)
      → (repo_of repos c).put (id_of field r) r s ≡ (ok tt, s')
      → view c s' (id_of field r) ≡ stored r
  pub other_id :
      (c : Collection) (other : Text) (r : R) (s s' : S)
      → (repo_of repos c).put (id_of field r) r s ≡ (ok tt, s')
      → other ≢ id_of field r
      → view c s' other ≡ view c s other
  pub elsewhere :
      (c d : Collection) (other : Text) (r : R) (s s' : S)
      → (repo_of repos c).put (id_of field r) r s ≡ (ok tt, s')
      → c ≢ d
      → view d s' other ≡ view d s other
