-- ===== src/Tests/StackRuns.antt =====
-- Runs of the adapters over rows in memory. An instant is written as a text of one code point, and
-- the values that the format has no place for are not written.
use app_gocms.Prelude.{
  ◌≡◌, refl, sym, ap, ◌∙◌, Option, none, some, List, [], ◌∷◌, Result, ok, err, arith,
}
use app_gocms.Prelude.Errors.{ok-injective}
use app_gocms.Text.{Text, codes, ◌==◌}
use app_gocms.Domain.{Fields, end, field, text, Entry, Access, Revision, Time}
use app_gocms.Env.{Env}
use app_gocms.Storage.{set_field}
use app_gocms.Adapters.{and_then, Codec, Codecs, Host, to_record, from_record}
use app_gocms.Adapters.Cells.{CodecLaws}
use app_gocms.Adapters.Saves.{HostLaws, workspace_env}
use app_gocms.Adapters.Entries.{entry_at, PostsInOrder}
use app_gocms.Adapters.Refines.{application_repositories_refine, access_at, revision_at}
use app_gocms.Content.Lifecycle.{EntryLaws}
use app_gocms.Content.Effects.{SaveLaws}
use app_gocms.Services.Previews.{PreviewLaws}
use app_gocms.Services.Revisions.RoundTrip.{RevisionLaws}
use app_gocms.Rest.Authorization.{ReadOnly}
use app_gocms.Rest.Visibility.{ListLaws}
use app_gocms.Tests.Table.{
  Row, rows, format, flat, unflat, unflat-flat, rows-RowLaws, rows-StatementLaws,
}

abbrev instant : Time → Text
instant t = t ∷ []

abbrev time_of : Text → Time
time_of [] = 0
time_of (t ∷ ts) = t

abbrev entry_fields : Entry → Fields
entry_fields e = field (codes "id") (text e.id) (
    field (codes "kind") (text e.kind) (
      field (codes "slug") (text e.slug) (
        field (codes "content") (text e.content) (
          field (codes "excerpt") (text e.excerpt) (
            field (codes "status") (text e.status) (
              field (codes "visibility") (text e.visibility) (
                field (codes "author_id") (text e.author_id) (
                  field (codes "featured_media_id") (text e.featured_media_id) (
                    field (codes "published_at") (text (instant e.published_at)) (
                      field (codes "scheduled_for") (text (instant e.scheduled_for)) (
                        field (codes "created_at") (text (instant e.created_at))
                          (field (codes "updated_at") (text (instant e.updated_at)) end))))))))))))

-- An entry with no title, terms and metadata.
write_entry : Option (List (Text × Text)) → List Text → Option Fields → Fields → Result Text
write_entry none [] none fields = flat fields
write_entry _ _ _ fields = err (codes "unsupported")

texts_of : Fields → List Text
texts_of end = []
texts_of (field key (text value) rest) = value ∷ texts_of rest
texts_of (field key _ rest) = texts_of rest

entry_of : List Text → Result Entry
entry_of
      (id ∷ kind ∷ slug ∷ content ∷ excerpt ∷ status ∷ visibility ∷ author ∷ media ∷ published
        ∷ scheduled ∷ created ∷ updated ∷ []) =
    ok (record {
      id = id;
      kind = kind;
      title = none;
      slug = slug;
      content = content;
      excerpt = excerpt;
      status = status;
      visibility = visibility;
      author_id = author;
      featured_media_id = media;
      term_ids = [];
      metadata = none;
      published_at = time_of published;
      scheduled_for = time_of scheduled;
      created_at = time_of created;
      updated_at = time_of updated;
    })
entry_of _ = err (codes "unsupported")

entry_codec : Codec Entry
unfolding write_entry texts_of entry_of
entry_codec = record {
  marshal = λ e. write_entry e.title e.term_ids e.metadata (entry_fields e);
  unmarshal = λ payload. entry_of (texts_of (unflat payload));
}

-- A value that is written as fields of texts, and read from them.
module _ {A : Type 0} (codec : Codec A) (id_of : A → Text) (v : A) (fields stored : Fields)
    (p q : Text) (written : codec.marshal v ≡ ok p) (flattened : flat fields ≡ ok p)
    (named : set_field (codes "id") (text (id_of v)) fields ≡ stored) (put : flat stored ≡ ok q)
    (decode : Fields → Result A) (unmarshals : (t : Text) → codec.unmarshal t ≡ decode (unflat t))
    (decoded : decode stored ≡ ok v) where
  flat_law :
      (r : Fields)
      → to_record format codec v ≡ ok r
      → from_record format codec (set_field (codes "id") (text (id_of v)) r) ≡ ok v
  unfolding to_record from_record
  flat_law r h =
      let is_fields : ok fields ≡ ok r =
        sym (unflat-flat fields p flattened)
        ∙ sym (ap (and_then (λ t. ok (unflat t))) written)
        ∙ h in
      let from_stored : from_record format codec stored ≡ ok v =
        ap (and_then codec.unmarshal) put
        ∙ unmarshals q
        ∙ ap decode (ok-injective (unflat q) stored (unflat-flat stored q put))
        ∙ decoded in
      rw (sym (ok-injective fields r is_fields), named) from_stored

abbrev ok_or_nil : Result Text → Text
ok_or_nil (ok t) = t
ok_or_nil (err e) = []

unwritten :
    {A B : Type 0} (codec : Codec A) (v : A) (r : Fields)
    → codec.marshal v ≡ err (codes "unsupported")
    → to_record format codec v ≡ ok r
    → B
unfolding to_record
unwritten codec v r failed h =
    absurd (ground (arith, sym (ap (and_then (λ t. ok (unflat t))) failed) ∙ h))

entry_law_at :
    (e : Entry) (title : Option (List (Text × Text))) (terms : List Text) (metadata : Option Fields)
    → e.title ≡ title
    → e.term_ids ≡ terms
    → e.metadata ≡ metadata
    → (r : Fields) → to_record format entry_codec e ≡ ok r
    → from_record format entry_codec (set_field (codes "id") (text e.id) r) ≡ ok e
unfolding entry_codec write_entry flat texts_of entry_of set_field ◌==◌
entry_law_at e none [] none t i m r h =
    flat_law entry_codec (λ (x : Entry). x.id) e (entry_fields e) (entry_fields e)
      (ok_or_nil (flat (entry_fields e))) (ok_or_nil (flat (entry_fields e)))
      (λ j. write_entry (t j) (i j) (m j) (entry_fields e)) refl refl refl
      (λ f. entry_of (texts_of f)) (λ p. refl)
      (λ j. ok (record e { title = sym t j; term_ids = sym i j; metadata = sym m j })) r h
entry_law_at e (some x) i m ti te me r h =
    unwritten entry_codec e r (λ j. write_entry (ti j) e.term_ids e.metadata (entry_fields e)) h
entry_law_at e none (x ∷ xs) m ti te me r h =
    unwritten entry_codec e r (λ j. write_entry (ti j) (te j) e.metadata (entry_fields e)) h
entry_law_at e none [] (some m) ti te me r h =
    unwritten entry_codec e r (λ j. write_entry (ti j) (te j) (me j) (entry_fields e)) h

entry_law : CodecLaws format entry_codec (λ (e : Entry). e.id)
entry_law = record {
  from-to = λ e r h. entry_law_at e e.title e.term_ids e.metadata refl refl refl r h;
}

access_fields : Access → Fields
access_fields a = field (codes "token") (text a.token) (
    field (codes "entry_id") (text a.entry_id)
      (field (codes "expires_at") (text (instant a.expires_at)) end))

access_of : List Text → Result Access
access_of (token ∷ entry_id ∷ expires ∷ id ∷ []) =
    ok (record { token = token; entry_id = entry_id; expires_at = time_of expires })
access_of _ = err (codes "unsupported")

access_codec : Codec Access
unfolding access_fields access_of texts_of
access_codec = record {
  marshal = λ a. flat (access_fields a);
  unmarshal = λ payload. access_of (texts_of (unflat payload));
}

access_law : CodecLaws format access_codec (λ (a : Access). a.token)
unfolding access_codec flat set_field ◌==◌
access_law = record {
  from-to = λ a.
      flat_law access_codec (λ (x : Access). x.token) a (access_fields a)
        (set_field (codes "id") (text a.token) (access_fields a))
        (ok_or_nil (flat (access_fields a)))
        (ok_or_nil (flat (set_field (codes "id") (text a.token) (access_fields a)))) refl refl refl
        refl (λ f. access_of (texts_of f)) (λ t. refl) refl;
}

revision_fields : Revision → Fields
revision_fields r = field (codes "id") (text r.id) (
    field (codes "entry_id") (text r.entry_id)
      (field (codes "created_at") (text (instant r.created_at)) (entry_fields r.entry)))

with_entry : Text → Text → Text → Result Entry → Result Revision
with_entry id entry_id at (err e) = err e
with_entry id entry_id at (ok e) =
    ok (record { id = id; entry_id = entry_id; entry = e; created_at = time_of at })

revision_of : List Text → Result Revision
unfolding with_entry entry_of
revision_of (id ∷ entry_id ∷ at ∷ rest) = with_entry id entry_id at (entry_of rest)
revision_of _ = err (codes "unsupported")

revision_codec : Codec Revision
unfolding revision_fields revision_of write_entry texts_of
revision_codec = record {
  marshal = λ r. write_entry r.entry.title r.entry.term_ids r.entry.metadata (revision_fields r);
  unmarshal = λ payload. revision_of (texts_of (unflat payload));
}

revision_law_at :
    (v : Revision) (title : Option (List (Text × Text))) (terms : List Text)
    (metadata : Option Fields)
    → v.entry.title ≡ title
    → v.entry.term_ids ≡ terms
    → v.entry.metadata ≡ metadata
    → (r : Fields) → to_record format revision_codec v ≡ ok r
    → from_record format revision_codec (set_field (codes "id") (text v.id) r) ≡ ok v
unfolding revision_codec flat set_field ◌==◌
revision_law_at v none [] none t i m r h =
    flat_law revision_codec (λ (x : Revision). x.id) v (revision_fields v) (revision_fields v)
      (ok_or_nil (flat (revision_fields v))) (ok_or_nil (flat (revision_fields v)))
      (λ j. write_entry (t j) (i j) (m j) (revision_fields v)) refl refl refl
      (λ f. revision_of (texts_of f)) (λ p. refl)
      (λ j. ok (record v {
        entry = record v.entry { title = sym t j; term_ids = sym i j; metadata = sym m j };
      }))
      r h
revision_law_at v (some x) i m ti te me r h =
    unwritten revision_codec v r
      (λ j. write_entry (ti j) v.entry.term_ids v.entry.metadata (revision_fields v)) h
revision_law_at v none (x ∷ xs) m ti te me r h =
    unwritten revision_codec v r
      (λ j. write_entry (ti j) (te j) v.entry.metadata (revision_fields v)) h
revision_law_at v none [] (some m) ti te me r h =
    unwritten revision_codec v r (λ j. write_entry (ti j) (te j) (me j) (revision_fields v)) h

revision_law : CodecLaws format revision_codec (λ (r : Revision). r.id)
revision_law = record {
  from-to =
      λ v r h. revision_law_at v v.entry.title v.entry.term_ids v.entry.metadata refl refl refl r h;
}

abbrev unwritable : {A : Type 0} → Codec A
unwritable = record {
  marshal = λ v. err (codes "unsupported");
  unmarshal = λ payload. err (codes "unsupported");
}

abbrev codecs : Codecs
codecs = record {
  entry = entry_codec;
  content_type = unwritable;
  setting = unwritable;
  user = unwritable;
  definition = unwritable;
  term = unwritable;
  asset = unwritable;
  menu = unwritable;
  revision = revision_codec;
  access = access_codec;
}

abbrev host : Host (List Row)
host = record { now = λ s. (100, s); random_token = λ s. (codes "t0k3n", s) }

host-HostLaws : HostLaws rows host
host-HostLaws = record { now_keeps = λ table workspace id s. refl }

abbrev stack : Env (List Row)
stack = workspace_env rows format (codes "root") codecs host

abbrev stored_entry : List Row → Text → Option Entry
stored_entry = entry_at rows format (codes "root") entry_codec

application_repositories_refine_example :
    EntryLaws stack stored_entry
    × SaveLaws stack stored_entry (PostsInOrder rows format (codes "root") entry_codec)
    × ReadOnly stack
    × ListLaws stack
    × PreviewLaws stack (access_at rows format (codes "root") codecs)
    × RevisionLaws stack (revision_at rows format (codes "root") codecs)
application_repositories_refine_example =
    application_repositories_refine rows format (codes "root") codecs host rows-StatementLaws
      host-HostLaws rows-RowLaws entry_law access_law revision_law
