-- ===== src/Content/Effects.antt =====
-- What a transition of the content service does to the stored entries.
use mathlib.Core.Path.{subst}
use mathlib.Core.Option.{some-injective}
use app_gocms.Prelude.{
  ◌≡◌, ◌≢◌, ◌⊎◌, inl, inr, refl, sym, ap, ◌∙◌, Option, none, some, arith, Result, ok, err, Error,
  Exec, pure, lift, call, ◌>>=◌, ◌>>◌, Option-cases,
}
use app_gocms.Prelude.Errors.{continue}
use app_gocms.Text.{Text}
use app_gocms.Domain.{Entry, Time, validate, status_published}
use app_gocms.Env.{Env}
use app_gocms.Content.{transition, publish, transition_status, content_not_found}
use app_gocms.Content.Lifecycle.{EntryLaws, IsSound}

-- More that the service relies on, of a storage in an order that it keeps: a save that succeeds can
-- be read back, and one that fails has written nothing.
pub record SaveLaws {S : Type 0} (env : Env S) (view : S → Text → Option Entry)
    (InOrder : S → Type 0) : Type 0 where
  pub save_ok :
      (e : Entry) (s : S)
      → InOrder s
      → ((o : Entry) → view s e.id ≡ some o → o.kind ≡ e.kind)
      → (env.save e s).0 ≡ ok tt
      → view (env.save e s).1 e.id ≡ some e
  pub save_err :
      (e : Entry) (s : S) {x : Error}
      → (env.save e s).0 ≡ err x
      → (j : Text) → view (env.save e s).1 j ≡ view s j
  pub save-InOrder : (e : Entry) (s : S) → InOrder s → InOrder (env.save e s).1
  pub types-InOrder : (kind : Text) (s : S) → InOrder s → InOrder (env.get_content_type kind s).1
  pub now-InOrder : (s : S) → InOrder s → InOrder (env.now s).1

Result-cases {ℓ} :
    {A : Type ℓ} (r : Result A) → ((a : A) × (r ≡ ok a)) ⊎ ((e : Error) × (r ≡ err e))
Result-cases (ok a) = inl (a, refl)
Result-cases (err e) = inr (e, refl)

-- The entry that a transition writes: what the mutation made, at the time `now`.
abbrev stamped : Time → Entry → Entry
stamped now e = record e { updated_at = now }

module _ {S : Type 0} (env : Env S) where
  -- What a transition does after the mutation.
  abbrev finish : Entry → Exec S Entry
  finish mutated = do
    now ← call env.now
    lift (validate (stamped now mutated))
    env.save (stamped now mutated)
    pure (stamped now mutated)

module _ {S : Type 0} (env : Env S) (view : S → Text → Option Entry)
    (laws : EntryLaws env view) where
  -- Over a storage that keeps to the laws: a transition of an entry that is not stored fails with
  -- "content not found", and changes nothing.
  transition_missing :
      (id : Text) (mutate : Entry → Exec S Entry) (s : S)
      → view s id ≡ none
      → transition env id mutate s ≡ (err (content_not_found id), s)
  unfolding transition
  transition_missing id mutate s h = rw (laws.get_reads id s, h)

  transition_found :
      (id : Text) (mutate : Entry → Exec S Entry) (s : S) (e : Entry)
      → view s id ≡ some e
      → transition env id mutate s ≡ (mutate e >>= finish env) s
  unfolding transition
  transition_found id mutate s e h = rw (laws.get_reads id s, h)

  finish_ok :
      (m : Entry) (s : S) (e' : Entry)
      → (finish env m s).0 ≡ ok e'
      → (e' ≡ stamped (env.now s).0 m)
        × ((env.save (stamped (env.now s).0 m) (env.now s).1).0 ≡ ok tt)
        × ((finish env m s).1 ≡ (env.save (stamped (env.now s).0 m) (env.now s).1).1)
  finish_ok m s e' h = ground arith

  finish_err :
      (m : Entry) (s : S) {x : Error}
      → (finish env m s).0 ≡ err x
      → ((finish env m s).1 ≡ (env.now s).1)
        ⊎ ((y : Error) × ((env.save (stamped (env.now s).0 m) (env.now s).1).0 ≡ err y)
            × ((finish env m s).1 ≡ (env.save (stamped (env.now s).0 m) (env.now s).1).1))
  finish_err m s h = ground arith

module _ {S : Type 0} (env : Env S) (view : S → Text → Option Entry) (laws : EntryLaws env view)
    (InOrder : S → Type 0) (saves : SaveLaws env view InOrder) where
  -- The entry that `finish` writes, where it began at an entry of the same id and kind.
  finish-view :
      (m : Entry) (s : S) (o : Entry) (e' : Entry)
      → InOrder s
      → view s m.id ≡ some o
      → o.kind ≡ m.kind
      → (finish env m s).0 ≡ ok e'
      → view (finish env m s).1 m.id ≡ some e'
  finish-view m s o e' order found same h =
      let (is_stamped, saved, after) = finish_ok env view laws m s e' h in
      rw (after, is_stamped)
        (saves.save_ok (stamped (env.now s).0 m) (env.now s).1 (saves.now-InOrder s order)
          (λ x f.
            ap (λ (y : Entry). y.kind) (some-injective x o (sym f ∙ laws.now_keeps s m.id ∙ found))
            ∙ same)
          saved)

  finish-view_ne :
      (m : Entry) (s : S) (e' : Entry) (j : Text)
      → j ≢ m.id
      → (finish env m s).0 ≡ ok e'
      → view (finish env m s).1 j ≡ view s j
  finish-view_ne m s e' j other h =
      let (is_stamped, saved, after) = finish_ok env view laws m s e' h in
      rw after (elim (laws.save_writes (stamped (env.now s).0 m) (env.now s).1 j) [
        | inl same ↦ same ∙ laws.now_keeps s j
        | inr (own, written) ↦ absurd (other (sym own))
      ])

  -- A transition that changes neither id nor kind, and does not fail by itself.
  module _ (id : Text) (mutate : Entry → Exec S Entry) (made : Entry → S → Entry)
      (mutates : (e : Entry) (s : S) → (mutate e s).0 ≡ ok (made e s))
      (mutate_keeps : (e : Entry) (s : S) (j : Text) → view (mutate e s).1 j ≡ view s j)
      (mutate-InOrder : (e : Entry) (s : S) → InOrder s → InOrder (mutate e s).1)
      (same_id : (e : Entry) (s : S) → (made e s).id ≡ e.id)
      (same_kind : (e : Entry) (s : S) → (made e s).kind ≡ e.kind) where
    transition_at :
        (s : S) (e : Entry)
        → view s id ≡ some e
        → transition env id mutate s ≡ finish env (made e s) (mutate e s).1
    transition_at s e found =
        transition_found env view laws id mutate s e found
        ∙ ap (λ (r : Result Entry). continue r (finish env) (mutate e s).1) (mutates e s)

    transition_effect :
        (s : S) (e' : Entry)
        → IsSound view s
        → InOrder s
        → (transition env id mutate s).0 ≡ ok e'
        → (e : Entry) × (view s id ≡ some e)
          × (e' ≡ stamped (env.now (mutate e s).1).0 (made e s))
          × (view (transition env id mutate s).1 id ≡ some e')
          × ((j : Text) → j ≢ id → view (transition env id mutate s).1 j ≡ view s j)
    transition_effect s e' sound order h = elim (Option-cases (view s id)) [
      | inl missing ↦
          let fails : (transition env id mutate s).0 ≡ err (content_not_found id) =
            rw (transition_missing env view laws id mutate s missing) in
          cc
      | inr (e, found) ↦
          let at = transition_at s e found in
          let own : (made e s).id ≡ id = same_id e s ∙ (sound id e found).own_id in
          let h' : (finish env (made e s) (mutate e s).1).0 ≡ ok e' = rw at at h in
          let before : view (mutate e s).1 (made e s).id ≡ some e =
            mutate_keeps e s (made e s).id ∙ (rw own found) in
          (
            e,
            found,
            (finish_ok env view laws (made e s) (mutate e s).1 e' h').0,
            rw at (
                subst (λ k. view (finish env (made e s) (mutate e s).1).1 k ≡ some e') own
                  (finish-view (made e s) (mutate e s).1 e e' (mutate-InOrder e s order) before
                    (sym (same_kind e s)) h')),
            λ j other. rw at (
                finish-view_ne (made e s) (mutate e s).1 e' j (rw own other) h'
                ∙ mutate_keeps e s j),
          )
    ]

  -- Over a storage that keeps to the laws, from a sound store in order: a publication that succeeds
  -- writes the entry that was stored under the id, with the status "published", the time of the
  -- publication, no scheduled time and a new time of update; it stands under the same id, and the
  -- other entries are as before.
  pub publish_effect :
      (id : Text) (s : S) (e' : Entry)
      → IsSound view s
      → InOrder s
      → (publish env id s).0 ≡ ok e'
      → (e : Entry) × (view s id ≡ some e)
        × (e' ≡ record e {
          status = status_published;
          published_at = (env.now s).0;
          scheduled_for = 0;
          updated_at = (env.now (env.now s).1).0;
        })
        × (view (publish env id s).1 id ≡ some e')
        × ((j : Text) → j ≢ id → view (publish env id s).1 j ≡ view s j)
  unfolding publish
  publish_effect id s e' =
      transition_effect id _
        (λ e s. record e {
          status = status_published;
          published_at = (env.now s).0;
          scheduled_for = 0;
        })
        (λ e s. refl) (λ e s j. laws.now_keeps s j) (λ e s. saves.now-InOrder s) (λ e s. refl)
        (λ e s. refl) s e'

  -- Over a storage that keeps to the laws, from a sound store in order: a change of status (Trash,
  -- Restore, Archive) that succeeds writes the entry that was stored under the id, with that status
  -- and a new time of update; it stands under the same id, and the other entries are as before.
  transition_status_effect :
      (id status : Text) (s : S) (e' : Entry)
      → IsSound view s
      → InOrder s
      → (transition_status env id status s).0 ≡ ok e'
      → (e : Entry) × (view s id ≡ some e)
        × (e' ≡ record e { status = status; updated_at = (env.now s).0 })
        × (view (transition_status env id status s).1 id ≡ some e')
        × ((j : Text) → j ≢ id → view (transition_status env id status s).1 j ≡ view s j)
  unfolding transition_status
  transition_status_effect id status s e' =
      transition_effect id _ (λ e s. record e { status = status }) (λ e s. refl) (λ e s j. refl)
        (λ e s order. order) (λ e s. refl) (λ e s. refl) s e'
