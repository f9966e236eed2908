-- ===== src/Permalinks/RoundTrip.antt =====
-- `EntryPath` and `Resolve`: the path of an entry leads back to the entry.
use app_gocms.Prelude.{
  ℕ, ◌≡◌, ◌≢◌, refl, ap, true, false, not, none, some, [], ◌∷◌, ◌++◌, arith, if◌then◌else◌,
  Bool-cases, inl, inr, append-nil,
}
use app_gocms.Text.{
  Text, codes, ◌==◌, slash, is_slash, is_empty, trim, trim_left, trim_right, trim_space, count,
  contains, has_prefix, has_suffix, strip_prefix, strip_suffix, trim_suffix, cut, replace_from,
  replace_all,
}
use app_gocms.Text.Laws.{Lacks, trim-AllOut, trim_prefix-append, count-Lacks}
use app_gocms.Text.Trim.{trim_right-append}
use app_gocms.Domain.{Entry, kind_page}
use app_gocms.Permalinks.{
  CandidateKind, candidate_page, candidate_post, default_settings, slug_token, postname_token,
  slug_pattern, clean_path, matches_pattern, slug_from_pattern, resolve, entry_path,
}
use app_gocms.Permalinks.Clean.{clean_path_fixed}

-- A slug that a path can carry: not empty, and free of slashes and percent signs.
pub record IsSlug (s : Text) : Type 0 where
  pub nonempty : s ≢ []
  pub one_segment : Lacks slash s
  pub no_percent : Lacks b'%' s

-- Nothing is replaced in a text that lacks the first byte of what is looked for.
replace_from-Lacks : (c : ℕ) (old new s : Text) → Lacks c s → replace_from (c ∷ old) new 0 s ≡ s
unfolding replace_from has_prefix strip_prefix
replace_from-Lacks c old new [] h = refl
replace_from-Lacks c old new (d ∷ s) (h, hs) = ground (arith, replace_from-Lacks c old new s hs)

page_path : Text → Text
page_path s = slash ∷ s

post_path : Text → Text
post_path s = codes "/posts/" ++ s

fill_page :
    (s : Text)
    → IsSlug s
    → replace_all (replace_all slug_pattern slug_token s) postname_token s ≡ page_path s
unfolding replace_all replace_from strip_prefix page_path
fill_page s h =
    rw append-nil
      (ap (λ r. slash ∷ r) (replace_from-Lacks b'%' (codes "postname%") s s h.no_percent))

fill_post :
    (s : Text)
    → IsSlug s
    → replace_all (replace_all (codes "/posts/{slug}") slug_token s) postname_token s ≡ post_path s
unfolding replace_all replace_from strip_prefix post_path
fill_post s h =
    rw append-nil (
      ap (λ r. codes "/posts/" ++ r) (replace_from-Lacks b'%' (codes "postname%") s s h.no_percent))

trim-page : (s : Text) → IsSlug s → trim is_slash (page_path s) ≡ s
unfolding trim trim_left page_path
trim-page s h = trim-AllOut is_slash s h.one_segment

trim-post : (s : Text) → IsSlug s → trim is_slash (post_path s) ≡ codes "posts/" ++ s
unfolding trim trim_left post_path
trim-post s h = trim_right-append is_slash (codes "posts/") s h.nonempty h.one_segment

clean_path-page : (s : Text) → IsSlug s → clean_path (page_path s) ≡ page_path s
unfolding page_path
clean_path-page s h = clean_path_fixed s (trim-AllOut is_slash s h.one_segment)

clean_path-post : (s : Text) → IsSlug s → clean_path (post_path s) ≡ post_path s
unfolding post_path
clean_path-post s h = clean_path_fixed (codes "posts/" ++ s) (
    unfold trim trim_left in trim_right-append is_slash (codes "posts/") s h.nonempty h.one_segment)

strip_prefix-Lacks : (s p q : Text) → Lacks slash s → strip_prefix s (p ++ slash ∷ q) ≡ none
unfolding strip_prefix
strip_prefix-Lacks [] [] q h = refl
strip_prefix-Lacks [] (c ∷ p) q h = refl
strip_prefix-Lacks (d ∷ s) [] q (h, hs) = rw h
strip_prefix-Lacks (d ∷ s) (c ∷ p) q (h, hs) = ground (arith, strip_prefix-Lacks s p q hs)

strip_suffix-nil : (s : Text) → strip_suffix s [] ≡ some s
unfolding strip_suffix
strip_suffix-nil [] = refl
strip_suffix-nil (c ∷ s) = rw (strip_suffix-nil s)

has_suffix-nil : (s : Text) → has_suffix s [] ≡ true
unfolding has_suffix
has_suffix-nil s = rw (strip_suffix-nil s)

trim_suffix-nil : (s : Text) → trim_suffix s [] ≡ s
unfolding trim_suffix
trim_suffix-nil s = ground (arith, strip_suffix-nil s)

not-is_empty : (s : Text) → s ≢ [] → not (is_empty s) ≡ true
unfolding is_empty
not-is_empty [] h = absurd (h refl)
not-is_empty (c ∷ s) h = refl

has_prefix-page : (s : Text) → IsSlug s → has_prefix (page_path s) (codes "/posts/") ≡ false
unfolding has_prefix strip_prefix page_path
has_prefix-page s h = rw (strip_prefix-Lacks s (codes "posts") [] h.one_segment)

page-ne-root : (s : Text) → s ≢ [] → (page_path s == slash ∷ []) ≡ false
unfolding ◌==◌ page_path
page-ne-root [] h = absurd (h refl)
page-ne-root (c ∷ s) h = refl

post-ne-root : (s : Text) → (post_path s == slash ∷ []) ≡ false
unfolding ◌==◌ post_path
post-ne-root s = refl

page_pattern_matches : (s : Text) → IsSlug s → matches_pattern (page_path s) slug_pattern ≡ true
unfolding matches_pattern ◌==◌ trim trim_left trim_right
page_pattern_matches s h = rw (trim-page s h, count-Lacks slash s h.one_segment)

page_pattern_fails : (s : Text) → IsSlug s → matches_pattern (post_path s) slug_pattern ≡ false
unfolding matches_pattern ◌==◌ trim trim_left trim_right count
page_pattern_fails s h = rw (trim-post s h) (ground arith)

post_pattern_fails :
    (s : Text) → IsSlug s → matches_pattern (page_path s) (codes "/posts/{slug}") ≡ false
unfolding matches_pattern ◌==◌ trim trim_left trim_right contains has_prefix strip_prefix cut
    page_path
post_pattern_fails s h = rw (has_prefix-page s h)

post_pattern_matches :
    (s : Text) → IsSlug s → matches_pattern (post_path s) (codes "/posts/{slug}") ≡ true
unfolding matches_pattern ◌==◌ trim trim_left trim_right contains has_prefix strip_prefix cut
    post_path
post_pattern_matches s h = rw (
  has_suffix-nil,
  trim_prefix-append (codes "/posts/") s,
  trim_suffix-nil,
  not-is_empty s h.nonempty,
)

slug_of_page : (s : Text) → IsSlug s → slug_from_pattern (page_path s) slug_pattern ≡ s
unfolding slug_from_pattern ◌==◌ trim trim_left trim_right contains has_prefix strip_prefix cut
    page_path
slug_of_page s h =
    rw (trim_prefix-append (slash ∷ []) s, trim_suffix-nil) (trim-AllOut is_slash s h.one_segment)

slug_of_post : (s : Text) → IsSlug s → slug_from_pattern (post_path s) (codes "/posts/{slug}") ≡ s
unfolding slug_from_pattern ◌==◌ trim trim_left trim_right contains has_prefix strip_prefix cut
    post_path
slug_of_post s h =
    rw (trim_prefix-append (codes "/posts/") s, trim_suffix-nil)
      (trim-AllOut is_slash s h.one_segment)

-- The kind of candidate that leads to an entry.
abbrev pub candidate_for : Entry → CandidateKind
candidate_for e = if e.kind == kind_page then candidate_page else candidate_post

resolve-page :
    (s : Text)
    → IsSlug s
    → resolve (page_path s) default_settings ≡ record { kind = candidate_page; slug = s } ∷ []
unfolding resolve
resolve-page s h = rw (
  clean_path-page s h,
  page-ne-root s h.nonempty,
  page_pattern_matches s h,
  slug_of_page s h,
  post_pattern_fails s h,
)

resolve-post :
    (s : Text)
    → IsSlug s
    → resolve (post_path s) default_settings ≡ record { kind = candidate_post; slug = s } ∷ []
unfolding resolve
resolve-post s h = rw (
  clean_path-post s h,
  post-ne-root s,
  page_pattern_fails s h,
  slug_of_post s h,
  post_pattern_matches s h,
)

entry_path-page :
    (e : Entry)
    → IsSlug e.slug
    → (e.kind == kind_page) ≡ true
    → entry_path e default_settings ≡ page_path e.slug
unfolding entry_path trim_space trim trim_left trim_right is_empty
entry_path-page e h k = rw k (rw (fill_page e.slug h) (clean_path-page e.slug h))

entry_path-post :
    (e : Entry)
    → IsSlug e.slug
    → (e.kind == kind_page) ≡ false
    → entry_path e default_settings ≡ post_path e.slug
unfolding entry_path trim_space trim trim_left trim_right is_empty
entry_path-post e h k = rw k (rw (fill_post e.slug h) (clean_path-post e.slug h))

-- With the default patterns, the path of an entry, whose slug is not empty and has no slash and no
-- percent sign, resolves to one candidate: the entry's own slug, as a page or as a post.
pub resolve-entry_path :
    (e : Entry)
    → IsSlug e.slug
    → resolve (entry_path e default_settings) default_settings
      ≡ record { kind = candidate_for e; slug = e.slug } ∷ []
resolve-entry_path e h = elim (Bool-cases (e.kind == kind_page)) [
  | inl k ↦ rw (entry_path-page e h k, k) (resolve-page e.slug h)
  | inr k ↦ rw (entry_path-post e h k, k) (resolve-post e.slug h)
]
