-- ===== src/Screens/EditForms.antt =====
-- The form of a post, and what the action makes of it when it comes back as it was.
use app_gocms.Prelude.{
  ◌≡◌, refl, ap, true, false, Bool-cases, inl, inr, Option, none, some, [], ◌∷◌, if◌then◌else◌,
  Result, ok,
}
use app_gocms.Text.{Text, codes, ◌==◌, is_empty, has_prefix, trim_space}
use app_gocms.Domain.{Entry}
use app_gocms.Rest.Merge.{or_keep}
use app_gocms.App.Actions.{
  merge_post_entry, ActionRequest, EntryJson, bind_post_entry, bind_title, first_form_value,
  bound_form, form_entry,
}
use app_gocms.Screens.{
  Platform, TextMap, metadata_of, localized_json, localized_slug_json, post_form_values,
}

-- A form that is sent with the values that it was filled with.
unfoldable pub sent : TextMap → ActionRequest
sent values = record {
  query = λ key. [];
  form = some (λ key. metadata_of key values ∷ []);
  json = [];
}

-- What `encoding/json` promises: a map of texts is written as an object, which is read back.
pub record TitleLaws (platform : Platform) (json : EntryJson) : Type 0 where
  pub written :
      (values : TextMap)
      → (payload : Text) × (platform.marshal_texts values ≡ ok payload)
        × (has_prefix (trim_space payload) (codes "{") ≡ true)
        × (is_empty payload ≡ false)
        × (json.unmarshal_title payload ≡ ok (some values))
  pub empty : json.unmarshal_title (codes "{}") ≡ ok (some [])

abbrev pub map_or_empty : Option TextMap → TextMap
map_or_empty none = []
map_or_empty (some values) = values

or_keep_same : (x : Text) → or_keep x x ≡ x
unfolding or_keep
or_keep_same x = elim (Bool-cases (is_empty x)) [ inl e ↦ rw e refl | inr e ↦ rw e refl ]

module _ (platform : Platform) (json : EntryJson) (laws : TitleLaws platform json) where
  bind_object :
      (value : Text) (o : Result (Option TextMap))
      → is_empty value ≡ false
      → has_prefix (trim_space value) (codes "{") ≡ true
      → json.unmarshal_title value ≡ o
      → bind_title json value ≡ o
  unfolding bind_title
  bind_object value o filled object read = rw (filled, object) read

  bind_title-localized_json :
      (title : Option TextMap)
      → bind_title json (localized_json platform title) ≡ ok (some (map_or_empty title))
  unfolding localized_json is_empty has_prefix trim_space
  bind_title-localized_json none = bind_object (codes "{}") _ refl refl laws.empty
  bind_title-localized_json (some []) = bind_object (codes "{}") _ refl refl laws.empty
  bind_title-localized_json (some (value ∷ values)) =
      let (payload, made, object, filled, read) = laws.written (value ∷ values) in
      rw made (bind_object payload _ filled object read)

  slug_object :
      (slug : Text)
      → (is_empty (localized_slug_json platform slug) ≡ false)
        × (has_prefix (trim_space (localized_slug_json platform slug)) (codes "{") ≡ true)
  unfolding localized_slug_json is_empty has_prefix trim_space
  slug_object [] = (refl, refl)
  slug_object (c ∷ slug) =
      let (payload, made, object, filled, read) = laws.written ((codes "en", c ∷ slug) ∷ []) in
      rw made (filled, object)

  abbrev sent_back : Entry → ActionRequest
  sent_back e = sent (post_form_values platform e)

  bound_back :
      (e : Entry)
      → bind_post_entry json (sent_back e)
        ≡ ok (form_entry json (sent_back e) (some (map_or_empty e.title)))
  unfolding bind_post_entry sent post_form_values first_form_value metadata_of is_empty ◌==◌
  bound_back e = ap (bound_form json (sent_back e)) (bind_title-localized_json e.title)

  merged_back :
      (e : Entry)
      → merge_post_entry e (form_entry json (sent_back e) (some (map_or_empty e.title)))
        ≡ record e {
          title = some (map_or_empty e.title);
          slug = localized_slug_json platform e.slug;
        }
  unfolding merge_post_entry sent post_form_values first_form_value metadata_of ◌==◌
  merged_back e = λ i. record e {
    title = some (map_or_empty e.title);
    slug = slug_path i;
    content = or_keep_same e.content i;
    excerpt = or_keep_same e.excerpt i;
    status = or_keep_same e.status i;
    visibility = or_keep_same e.visibility i;
    author_id = or_keep_same e.author_id i;
    featured_media_id = or_keep_same e.featured_media_id i;
  }
    where
      slug_path :
          or_keep (localized_slug_json platform e.slug) e.slug ≡ localized_slug_json platform e.slug
      slug_path =
          ap (λ b. if b then e.slug else localized_slug_json platform e.slug) (slug_object e.slug).0

  -- Where maps of texts are written as JSON objects that are read back: the edit form of a post, sent
  -- back just as it was filled, keeps every field of the entry but the slug. The slug becomes the
  -- JSON object that stands in the form, which the action takes as it is; a missing title becomes
  -- an empty one.
  pub edit_form_sent_back :
      (e : Entry)
      → (patch : Entry) × (bind_post_entry json (sent (post_form_values platform e)) ≡ ok patch)
        × (merge_post_entry e patch ≡ record e {
          title = some (map_or_empty e.title);
          slug = localized_slug_json platform e.slug;
        })
        × (has_prefix (trim_space (localized_slug_json platform e.slug)) (codes "{") ≡ true)
  edit_form_sent_back e = (
    form_entry json (sent_back e) (some (map_or_empty e.title)),
    bound_back e,
    merged_back e,
    (slug_object e.slug).1,
  )
