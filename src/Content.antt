-- ===== src/Content.antt =====
-- internal/application/content/service.go: the life of an entry. `none` for a found value becomes
-- the error that the source returns, and `return entry, s.repo.Save(ctx, entry)` is the error of
-- the save or the entry.
pub mod Lifecycle
pub mod Effects
pub mod Creation
use app_gocms.Prelude.{
  ℕ, Bool, true, false, Option, none, some, List, [], ◌∷◌, ◌++◌, String, eqb, if◌then◌else◌, Result,
  ok, err, Error, Exec, pure, raise, lift, require, call, fail_if, ◌>>=◌, ◌>>◌,
}
use app_gocms.Text.{Text, codes, is_empty}
use app_gocms.Text.Quote.{quote}
use app_gocms.Domain.{
  Entry, Query, Time, validate, status_draft, status_published, status_scheduled, status_trashed,
  status_archived, visibility_public,
}
use app_gocms.Env.{Env}

unfoldable pub content_not_found : Text → Error
content_not_found id = codes "content " ++ (quote id ++ codes " not found")

module _ {S : Type 0} (env : Env S) where
  unfoldable pub ensure_type : Text → Exec S Unit
  ensure_type kind = do
    found ← env.get_content_type kind
    require (codes "content type " ++ (quote kind ++ codes " is not registered")) found
    pure tt

  -- The fields that `CreateDraft` sets, at the time `now`.
  unfoldable as_draft : Time → Entry → Entry
  as_draft now e = record e {
    status = status_draft;
    visibility = if is_empty e.visibility then visibility_public else e.visibility;
    created_at = if eqb e.created_at 0 then now else e.created_at;
    updated_at = now;
  }

  unfoldable pub create_draft : Entry → Exec S Entry
  unfolding as_draft
  create_draft entry = do
    fail_if (is_empty entry.id) (codes "content id is required")
    ensure_type entry.kind
    now ← call env.now
    let draft = as_draft now entry
    lift (validate draft)
    env.save draft
    pure draft

  unfoldable pub update : Entry → Exec S Unit
  update entry = do
    ensure_type entry.kind
    now ← call env.now
    let updated = record entry { updated_at = now }
    lift (validate updated)
    env.save updated

  unfoldable pub transition : Text → (Entry → Exec S Entry) → Exec S Entry
  transition id mutate = do
    found ← env.get id
    entry ← require (content_not_found id) found
    mutated ← mutate entry
    now ← call env.now
    let updated = record mutated { updated_at = now }
    lift (validate updated)
    env.save updated
    pure updated

  unfoldable pub publish : Text → Exec S Entry
  publish id = transition id λ entry. do
    now ← call env.now
    pure (record entry { status = status_published; published_at = now; scheduled_for = 0 })

  unfoldable pub schedule : Text → Time → Exec S Entry
  schedule id publish_at = do
    fail_if (eqb publish_at 0) (codes "schedule time is required")
    transition id
        λ entry. pure (record entry { status = status_scheduled; scheduled_for = publish_at })

  unfoldable pub transition_status : Text → Text → Exec S Entry
  transition_status id status = transition id λ entry. pure (record entry { status = status })

  unfoldable pub trash : Text → Exec S Entry
  trash id = transition_status id status_trashed

  unfoldable pub restore : Text → Exec S Entry
  restore id = transition_status id status_draft

  unfoldable pub archive : Text → Exec S Entry
  archive id = transition_status id status_archived

  unfoldable pub get : Text → Exec S (Option Entry)
  get id = env.get id

  unfoldable pub list : Query → Exec S (List Entry)
  list query = env.list query
