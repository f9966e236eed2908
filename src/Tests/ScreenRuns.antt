-- ===== src/Tests/ScreenRuns.antt =====
-- Runs of the screens of posts. A map of texts is written as a brace and the text format of rows.
use app_gocms.Prelude.{◌≡◌, refl, ap, ◌∙◌, true, some, [], ◌∷◌, Option, Result, ok, err}
use app_gocms.Prelude.Errors.{ok-injective}
use app_gocms.Text.{Text, codes, is_empty, has_prefix, trim_space}
use app_gocms.Domain.{
  Fields, end, field, null, bool, number, text, array, object, Entry, zero_entry, kind_post,
  status_draft, visibility_public,
}
use app_gocms.App.Actions.{merge_post_entry, EntryJson, bind_post_entry}
use app_gocms.Screens.{Platform, TextMap, localized_slug_json, post_form_values}
use app_gocms.Screens.EditForms.{TitleLaws, sent, map_or_empty, edit_form_sent_back}
use app_gocms.Tests.Table.{then_fields, flat, unflat, unflat-flat}

fields_of : TextMap → Fields
fields_of [] = end
fields_of ((k, v) ∷ rest) = field k (text v) (fields_of rest)

texts_in : Fields → TextMap
texts_in end = []
texts_in (field k (text v) rest) = (k, v) ∷ texts_in rest
texts_in (field k null rest) = texts_in rest
texts_in (field k (bool b) rest) = texts_in rest
texts_in (field k (number n) rest) = texts_in rest
texts_in (field k (array vs) rest) = texts_in rest
texts_in (field k (object fs) rest) = texts_in rest

texts_in-fields_of : (values : TextMap) → texts_in (fields_of values) ≡ values
unfolding texts_in fields_of
texts_in-fields_of [] = refl
texts_in-fields_of ((k, v) ∷ rest) = ap (λ r. (k, v) ∷ r) (texts_in-fields_of rest)

flat_total : (values : TextMap) → (payload : Text) × (flat (fields_of values) ≡ ok payload)
unfolding flat fields_of
flat_total [] = ([], refl)
flat_total ((k, v) ∷ rest) = let (payload, made) = flat_total rest in (_, ap (then_fields k v) made)

abbrev braced : Result Text → Result Text
braced (err e) = err e
braced (ok payload) = ok (b'{' ∷ payload)

abbrev unbraced : Text → Result (Option TextMap)
unbraced [] = err (codes "unexpected end of JSON input")
unbraced (c ∷ payload) = ok (some (texts_in (unflat payload)))

abbrev platform : Platform
platform = record {
  view_table = codes "table";
  view_form = codes "form";
  paginate_slice = λ entries query. entries;
  pagination_from_query = λ query total. record { page = 1; per_page = 50; total = total };
  table_empty_state = λ screen. codes "No records";
  marshal_texts = λ values. braced (flat (fields_of values));
  marshal_fields = λ fields. braced (flat fields);
  rfc3339 = λ at. at ∷ [];
}

abbrev json : EntryJson
json = record { unmarshal_entry = λ body. err (codes "unsupported"); unmarshal_title = unbraced }

starts_with_brace : (payload : Text) → has_prefix (trim_space (b'{' ∷ payload)) (codes "{") ≡ true
unfolding has_prefix trim_space
starts_with_brace payload = refl

platform-TitleLaws : TitleLaws platform json
unfolding unflat texts_in is_empty
platform-TitleLaws = record {
  written = λ values.
      (let (payload, made) = flat_total values in
        (
          b'{' ∷ payload,
          ap braced made,
          starts_with_brace payload,
          refl,
          ap (λ f. ok (some (texts_in f)))
                (ok-injective _ _ (unflat-flat (fields_of values) payload made))
              ∙ ap (λ m. ok (some m)) (texts_in-fields_of values),
        ));
  empty = refl;
}

abbrev hello : Entry
hello = record zero_entry {
  id = codes "p1";
  kind = kind_post;
  title = some ((codes "en", codes "Hello") ∷ []);
  slug = codes "hello";
  content = codes "Hi";
  status = status_draft;
  visibility = visibility_public;
}

edit_form_sent_back_example :
    (patch : Entry) × (bind_post_entry json (sent (post_form_values platform hello)) ≡ ok patch)
    × (merge_post_entry hello patch ≡ record hello {
      title = some (map_or_empty hello.title);
      slug = localized_slug_json platform hello.slug;
    })
    × (has_prefix (trim_space (localized_slug_json platform hello.slug)) (codes "{") ≡ true)
edit_form_sent_back_example = edit_form_sent_back platform json platform-TitleLaws hello
