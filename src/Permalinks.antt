-- ===== src/Permalinks.antt =====
-- internal/permalinks/resolver.go: the paths of entries, and the entries that a path may name.
pub mod RoundTrip
pub mod Clean
use app_gocms.Prelude.{
  ℕ, Bool, true, false, not, ◌&&◌, Option, none, some, List, [], ◌∷◌, ◌++◌, String, eqb,
  if◌then◌else◌,
}
use app_gocms.Text.{
  Text, codes, ◌==◌, is_empty, has_prefix, has_suffix, trim_prefix, trim_suffix, cut, contains,
  count, replace_all, trim_right, trim, trim_space, is_slash, slash,
}
use app_gocms.Domain.{Entry, kind_page}

pub data CandidateKind : Type 0 where
  candidate_home candidate_page candidate_post candidate_none : CandidateKind

pub record Candidate : Type 0 where
  pub kind : CandidateKind
  pub slug : Text

pub record Settings : Type 0 where
  pub post_pattern : Text
  pub page_pattern : Text

abbrev pub slug_token : Text
slug_token = codes "{slug}"

abbrev pub postname_token : Text
postname_token = codes "%postname%"

abbrev pub slug_pattern : Text
slug_pattern = codes "/{slug}"

abbrev pub default_settings : Settings
default_settings = record { post_pattern = codes "/posts/{slug}"; page_pattern = slug_pattern }

unfoldable pub clean_path : Text → Text
clean_path path =
    let rooted = slash ∷ trim is_slash path in
    if rooted == slash ∷ [] then rooted else trim_right is_slash rooted

-- The cases of the `switch` on a pattern that holds a token.
unfoldable pub fits_around : Text → Option (Text × Text) → Bool
fits_around path none = true
fits_around path (some (prefix, suffix)) =
    has_prefix path prefix
    && has_suffix path suffix
    && not (is_empty (trim_suffix (trim_prefix path prefix) suffix))

unfoldable pub matches_pattern : Text → Text → Bool
unfolding fits_around clean_path
matches_pattern path pattern =
    let p = clean_path pattern in
    if p == slug_pattern
    then eqb (count slash (trim is_slash path)) 0
    else if contains p slug_token
    then fits_around path (cut p slug_token)
    else if contains p postname_token
    then fits_around path (cut p postname_token)
    else path == p

unfoldable pub slug_between : Text → Option (Text × Text) → Text
slug_between path none = trim is_slash path
slug_between path (some (prefix, suffix)) =
    trim is_slash (trim_suffix (trim_prefix path prefix) suffix)

unfoldable pub slug_from_pattern : Text → Text → Text
unfolding slug_between clean_path
slug_from_pattern path pattern =
    let p = clean_path pattern in
    slug_between path (cut p (if contains p postname_token then postname_token else slug_token))

unfoldable pub candidate_if : Bool → CandidateKind → Text → List Candidate
candidate_if true kind slug = record { kind = kind; slug = slug } ∷ []
candidate_if false kind slug = []

-- The candidates that the patterns give, and the ones tried where they give none.
unfoldable pub or_guess : List Candidate → Text → List Candidate
or_guess (c ∷ cs) slug = c ∷ cs
or_guess [] slug =
    if not (is_empty slug) && not (contains slug (slash ∷ []))
    then record { kind = candidate_page; slug = slug }
      ∷ record { kind = candidate_post; slug = slug }
      ∷ []
    else []

unfoldable pub resolve : Text → Settings → List Candidate
unfolding candidate_if or_guess
resolve path settings =
    let clean = clean_path path in
    if clean == slash ∷ []
    then record { kind = candidate_home; slug = [] } ∷ []
    else or_guess
        (candidate_if (matches_pattern clean settings.page_pattern) candidate_page
            (slug_from_pattern clean settings.page_pattern)
          ++ candidate_if (matches_pattern clean settings.post_pattern) candidate_post
              (slug_from_pattern clean settings.post_pattern))
        (trim is_slash clean)

unfoldable pub pattern_for : Entry → Settings → Text
pattern_for entry settings =
    let pattern =
      if entry.kind == kind_page then settings.page_pattern else settings.post_pattern in
    if is_empty (trim_space pattern) then slug_pattern else pattern

unfoldable pub entry_path : Entry → Settings → Text
unfolding pattern_for
entry_path entry settings = clean_path (
    replace_all (replace_all (pattern_for entry settings) slug_token entry.slug) postname_token
      entry.slug)
