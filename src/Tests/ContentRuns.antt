-- ===== src/Tests/ContentRuns.antt =====
-- Runs of the content service and of the previews.
use mathlib.Core.Path.{subst}
use mathlib.Core.Option.{some-injective}
use app_gocms.Prelude.{
  ◌+◌, ◌<◌, ◌≡◌, ◌≢◌, refl, sym, ap, inl, inr, true, false, none, some, [], ◌∷◌, arith, ltb,
  if◌then◌else◌, ok, Bool-cases, pos, pos_part,
}
use app_gocms.Text.{Text, codes, ◌==◌, is_empty}
use app_gocms.Text.Laws.{==_iff}
use app_gocms.Domain.{
  Entry, zero_entry, Access, validate, kind_post, status_draft, status_published, status_trashed,
  visibility_public, built_in_post, Setting, Revision, text,
}
use app_gocms.Content.{publish, transition, create_draft, ensure_type}
use app_gocms.Content.Creation.{create_draft_effect}
use app_gocms.Content.Lifecycle.{
  IsStored, IsSound, run, run-IsSound, create_draft_of, publish_of, trash_of, schedule_of,
}
use app_gocms.Content.Effects.{publish_effect}
use app_gocms.Services.Previews.{create, validate as validate_token, validate-create}
use app_gocms.Tests.Memory.{
  Memory, empty_memory, memory, entry_in, access_in, memory-EntryLaws, memory-SaveLaws, AnyOrder,
  memory-PreviewLaws,
}

abbrev hello : Entry
hello = record zero_entry {
  id = codes "p1";
  kind = kind_post;
  slug = codes "hello";
  content = codes "Hello";
  status = status_draft;
  visibility = visibility_public;
}

abbrev start : Memory
start = record empty_memory { content_types = built_in_post ∷ [] }

abbrev one_draft : Memory
one_draft = record start { entries = hello ∷ [] }

start-IsSound : IsSound entry_in start
unfolding entry_in
start-IsSound j e found = absurd (ground arith)

hello-valid : validate hello ≡ ok tt
unfolding validate is_empty ◌==◌
hello-valid = refl

one_draft-IsSound : IsSound entry_in one_draft
unfolding entry_in
one_draft-IsSound j e found = elim (Bool-cases (hello.id == j)) [
  | inl same ↦ stored (some-injective hello e (rw same at found)) ((==_iff hello.id j).0 same)
  | inr other ↦ absurd (ground (arith, rw other at found))
]
  where
    stored : hello ≡ e → hello.id ≡ j → IsStored j e
    stored is own = subst (IsStored j) is (record { valid = hello-valid; own_id = own })

run-IsSound_example : IsSound entry_in (
    run memory
      (create_draft_of hello
        ∷ publish_of (codes "p1")
        ∷ trash_of (codes "p2")
        ∷ schedule_of (codes "p1") 500
        ∷ [])
      start)
run-IsSound_example =
    run-IsSound memory entry_in memory-EntryLaws
      (create_draft_of hello
        ∷ publish_of (codes "p1")
        ∷ trash_of (codes "p2")
        ∷ schedule_of (codes "p1") 500
        ∷ [])
      start start-IsSound

abbrev published_hello : Entry
published_hello = record hello { status = status_published; published_at = 100; updated_at = 101 }

publish_effect_example :
    (e : Entry) × (entry_in one_draft (codes "p1") ≡ some e)
    × (published_hello ≡ record e {
      status = status_published;
      published_at = (memory.now one_draft).0;
      scheduled_for = 0;
      updated_at = (memory.now (memory.now one_draft).1).0;
    })
    × (entry_in (publish memory (codes "p1") one_draft).1 (codes "p1") ≡ some published_hello)
    × ((j : Text)
        → j ≢ codes "p1"
        → entry_in (publish memory (codes "p1") one_draft).1 j ≡ entry_in one_draft j)
unfolding publish transition memory entry_in ◌==◌ validate is_empty
publish_effect_example =
    publish_effect memory entry_in memory-EntryLaws AnyOrder memory-SaveLaws (codes "p1") one_draft
      published_hello one_draft-IsSound tt refl

abbrev trashed_hello : Entry
trashed_hello = record hello { status = status_trashed; updated_at = 100 }

abbrev made : Access
made = record { token = codes "t0k3n"; entry_id = codes "p1"; expires_at = 150 }

validate-create_example :
    (0 < pos_part (pos 50))
    × (made.expires_at ≡ (memory.now (memory.get (codes "p1") one_draft).1).0 + pos_part (pos 50))
    × ((validate_token memory made.token (create memory (codes "p1") (pos 50) one_draft).1).0
        ≡ ok (
            if ltb (memory.now (create memory (codes "p1") (pos 50) one_draft).1).0 made.expires_at
            then some made
            else none))
unfolding create memory entry_in ◌==◌
validate-create_example =
    validate-create memory access_in memory-PreviewLaws (codes "p1") (pos 50) one_draft made refl
      (λ h. ground (arith, h))

abbrev with_access : Memory
with_access = record start { previews = made ∷ [] }

abbrev patch : Entry
patch = record zero_entry { title = some ((codes "en", codes "Hi") ∷ []) }

abbrev site_title : Setting
site_title = record {
  key = codes "site.title";
  group = codes "site";
  value = text (codes "Blog");
  is_public = true;
  is_private = false;
}

abbrev secret : Setting
secret = record site_title { key = codes "mail.key"; is_public = false }

abbrev recorded : Revision
recorded = record { id = codes "r1"; entry_id = codes "p1"; entry = hello; created_at = 100 }

-- A published post, and another one that is created under its id.
abbrev one_published : Memory
one_published = record start { entries = published_hello ∷ [] }

abbrev newer : Entry
newer = record hello { content = codes "Again"; status = status_published }

abbrev newer_draft : Entry
newer_draft = record newer { status = status_draft; created_at = 100; updated_at = 100 }

create_draft_effect_example :
    (newer_draft.id ≡ newer.id)
    × (newer_draft.kind ≡ newer.kind)
    × (newer_draft.title ≡ newer.title)
    × (newer_draft.status ≡ status_draft)
    × (entry_in (create_draft memory newer one_published).1 newer.id ≡ some newer_draft)
    × ((j : Text)
        → j ≢ newer.id
        → entry_in (create_draft memory newer one_published).1 j ≡ entry_in one_published j)
unfolding create_draft ensure_type memory entry_in ◌==◌ validate is_empty
create_draft_effect_example =
    create_draft_effect memory entry_in memory-EntryLaws AnyOrder memory-SaveLaws newer
      one_published newer_draft tt
      (λ o found. ap (λ (e : Entry). e.kind) (sym (some-injective published_hello o found))) refl
