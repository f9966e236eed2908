-- ===== src/Adapters/Views.antt =====
-- What a look-up of an entry shows of the rows of posts and pages.
use app_gocms.Prelude.{
  ◌≡◌, ◌≢◌, ◌⊎◌, refl, sym, ap, ◌∙◌, inl, inr, false, Option, none, some, Bool-cases, Result, ok,
  err, arith,
}
use app_gocms.Text.{Text, ◌==◌, is_empty}
use app_gocms.Text.Laws.{==_iff}
use app_gocms.Domain.{Entry, kind_post, kind_page}
use app_gocms.Sql.{Engine}
use app_gocms.Storage.{Json}
use app_gocms.Adapters.Entries.{entry_at, post_row, page_row, chosen}
use app_gocms.Adapters.{Codec, with_content_kind}

-- A row of the posts holds an entry, or is passed over.
pub post_cases :
    (r : Result (Option Entry))
    → ((e : Entry) × (r ≡ ok (some e)))
      ⊎ ((other : Option Entry) → chosen kind_post r other ≡ other)
unfolding chosen
post_cases (ok (some e)) = inl (e, refl)
post_cases (ok none) = inr (λ other. refl)
post_cases (err x) = inr (λ other. refl)

pub own_or_other : (e : Entry) (j : Text) → (e.id ≡ j) ⊎ (j ≢ e.id)
own_or_other e j = elim (Bool-cases (e.id == j)) [
  | inl same ↦ inl ((==_iff e.id j).0 same)
  | inr other ↦ inr (λ h. absurd (ground (arith, other, (==_iff e.id j).1 (sym h))))
]

pub posted_kind :
    (e : Entry) → e.kind ≡ kind_post → (with_content_kind e kind_post).kind ≡ kind_post
unfolding with_content_kind
posted_kind e kind = elim (Bool-cases (is_empty e.kind)) [
  | inl missing ↦ rw missing refl
  | inr named ↦ rw named kind
]

pub post-ne-page : ◌≢◌ {A = Text} kind_post kind_page
post-ne-page h = absurd (ground arith)

-- The entry that a look-up shows is fixed by the two rows under its id.
module _ {DB : Type 0} (engine : Engine DB) (json : Json) (workspace : Text)
    (codec : Codec Entry) where
  abbrev view : DB → Text → Option Entry
  view = entry_at engine json workspace codec

  pub view_alike :
      (s t : DB) (j : Text)
      → post_row engine json workspace codec t j ≡ post_row engine json workspace codec s j
      → page_row engine json workspace codec t j ≡ page_row engine json workspace codec s j
      → view t j ≡ view s j
  unfolding entry_at
  view_alike s t j p q = λ i. chosen kind_post (p i) (chosen kind_page (q i) none)

  kind_kept : (e : Entry) (kind : Text) → is_empty e.kind ≡ false → with_content_kind e kind ≡ e
  unfolding with_content_kind
  kind_kept e kind h = rw h refl

  pub view_post :
      (t : DB) (j : Text) (e : Entry)
      → post_row engine json workspace codec t j ≡ ok (some e)
      → view t j ≡ some (with_content_kind e kind_post)
  unfolding entry_at chosen
  view_post t j e found = rw found refl

  pub view_posted :
      (t : DB) (e : Entry)
      → e.kind ≡ kind_post
      → post_row engine json workspace codec t e.id ≡ ok (some e)
      → view t e.id ≡ some e
  unfolding is_empty
  view_posted t e kind found =
      view_post t e.id e found ∙ ap some (kind_kept e kind_post (ap is_empty kind))

  pub same_post :
      (s t : DB) (j : Text) (o : Entry)
      → post_row engine json workspace codec t j ≡ post_row engine json workspace codec s j
      → post_row engine json workspace codec t j ≡ ok (some o)
      → view t j ≡ view s j
  same_post s t j o same found = view_post t j o found ∙ sym (view_post s j o (sym same ∙ found))

  -- A page is shown where no post stands before it.
  pub view_paged :
      (t : DB) (e : Entry)
      → e.kind ≡ kind_page
      → page_row engine json workspace codec t e.id ≡ ok (some e)
      → ((other : Option Entry)
          → chosen kind_post (post_row engine json workspace codec t e.id) other ≡ other)
      → view t e.id ≡ some e
  unfolding entry_at chosen is_empty
  view_paged t e kind found free =
      free _
      ∙ ap (λ r. chosen kind_page r none) found
      ∙ ap some (kind_kept e kind_page (ap is_empty kind))
