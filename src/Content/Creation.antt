-- ===== src/Content/Creation.antt =====
-- What the creation of a draft does to the stored entries.
use app_gocms.Prelude.{◌≡◌, ◌≢◌, sym, ap, ◌∙◌, inl, inr, Option, some, ok, arith}
use app_gocms.Text.{Text}
use app_gocms.Domain.{Entry, status_draft}
use app_gocms.Env.{Env}
use app_gocms.Content.{as_draft, ensure_type, create_draft}
use app_gocms.Content.Lifecycle.{EntryLaws}
use app_gocms.Content.Effects.{SaveLaws}

module _ {S : Type 0} (env : Env S) where
  -- What is done by a creation that succeeds.
  created :
      (entry : Entry) (s : S) (e' : Entry)
      → (create_draft env entry s).0 ≡ ok e'
      → (e' ≡ as_draft env (env.now (env.get_content_type entry.kind s).1).0 entry)
        × ((env.save e' (env.now (env.get_content_type entry.kind s).1).1).0 ≡ ok tt)
        × ((create_draft env entry s).1
            ≡ (env.save e' (env.now (env.get_content_type entry.kind s).1).1).1)
  unfolding create_draft ensure_type
  created entry s e' h = ground arith

module _ {S : Type 0} (env : Env S) (view : S → Text → Option Entry) (laws : EntryLaws env view)
    (InOrder : S → Type 0) (saves : SaveLaws env view InOrder) where
  -- Over a storage in order that keeps to the laws: a creation that succeeds leaves, under the id of
  -- the entry that was given, the draft that it returns, which has the entry's id, kind and title;
  -- also where an entry of the kind was stored under the id already, published or not, which is
  -- replaced. The other entries are as before.
  pub create_draft_effect :
      (entry : Entry) (s : S) (e' : Entry)
      → InOrder s
      → ((o : Entry) → view s entry.id ≡ some o → o.kind ≡ entry.kind)
      → (create_draft env entry s).0 ≡ ok e'
      → (e'.id ≡ entry.id)
        × (e'.kind ≡ entry.kind)
        × (e'.title ≡ entry.title)
        × (e'.status ≡ status_draft)
        × (view (create_draft env entry s).1 entry.id ≡ some e')
        × ((j : Text) → j ≢ entry.id → view (create_draft env entry s).1 j ≡ view s j)
  unfolding as_draft
  create_draft_effect entry s e' order kinds h =
      let t = (env.get_content_type entry.kind s).1 in
      let u = (env.now t).1 in
      let (drafted, saved, after) = created env entry s e' h in
      let kept : (j : Text) → view u j ≡ view s j =
        λ j. laws.now_keeps t j ∙ laws.types_keep entry.kind s j in
      let own : e'.id ≡ entry.id = ap (λ (e : Entry). e.id) drafted in
      let kind : e'.kind ≡ entry.kind = ap (λ (e : Entry). e.kind) drafted in
      let stands : view (env.save e' u).1 e'.id ≡ some e' =
        saves.save_ok e' u (saves.now-InOrder t (saves.types-InOrder entry.kind s order))
          (λ o found. kinds o (sym (kept entry.id) ∙ ap (view u) (sym own) ∙ found) ∙ sym kind)
          saved in
      (
        own,
        kind,
        ap (λ (e : Entry). e.title) drafted,
        ap (λ (e : Entry). e.status) drafted,
        rw (after, sym own) stands,
        λ j other. rw after (elim (laws.save_writes e' u j) [
          | inl same ↦ same ∙ kept j
          | inr (at, written) ↦ absurd (other (sym at ∙ own))
        ]),
      )
