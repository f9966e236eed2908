-- ===== src/Rest/Merge/Laws.antt =====
-- Patches: an empty one changes nothing, and two in a row are as good as their own merge.
use app_gocms.Prelude.{◌≡◌, refl, Option, none, some, [], ◌∷◌}
use app_gocms.Text.{Text, is_empty}
use app_gocms.Domain.{Entry, zero_entry}
use app_gocms.Rest.Merge.{or_keep, or_keep_map, merge_content}

or_keep_assoc : (x y z : Text) → or_keep z (or_keep y x) ≡ or_keep (or_keep z y) x
unfolding or_keep is_empty
or_keep_assoc x y [] = refl
or_keep_assoc x y (c ∷ z) = refl

or_keep_map_assoc {ℓ} :
    {A : Type ℓ} (x y z : Option A)
    → or_keep_map z (or_keep_map y x) ≡ or_keep_map (or_keep_map z y) x
unfolding or_keep_map
or_keep_map_assoc x y none = refl
or_keep_map_assoc x y (some z) = refl

-- A patch that names nothing keeps the entry as it is, and an entry that is merged with two patches
-- in a row is the same as one that is merged with the second laid over the first.
merge_content_assoc :
    (e p q : Entry)
    → (merge_content e zero_entry ≡ e)
      × (merge_content (merge_content e p) q ≡ merge_content e (merge_content p q))
unfolding merge_content or_keep or_keep_map is_empty
merge_content_assoc e p q = (
  refl,
  λ i. record e {
    title = or_keep_map_assoc e.title p.title q.title i;
    slug = or_keep_assoc e.slug p.slug q.slug i;
    content = or_keep_assoc e.content p.content q.content i;
    excerpt = or_keep_assoc e.excerpt p.excerpt q.excerpt i;
    status = or_keep_assoc e.status p.status q.status i;
    visibility = or_keep_assoc e.visibility p.visibility q.visibility i;
    author_id = or_keep_assoc e.author_id p.author_id q.author_id i;
    featured_media_id = or_keep_assoc e.featured_media_id p.featured_media_id q.featured_media_id i;
    metadata = or_keep_map_assoc e.metadata p.metadata q.metadata i;
  },
)
