-- ===== src/Content/Lifecycle.antt =====
-- What the content service keeps: every stored entry is valid, and is stored under its own id.
use mathlib.Core.Path.{subst}
use mathlib.Core.Option.{some-injective}
use app_gocms.Prelude.{
  ◌≡◌, ◌⊎◌, inl, inr, sym, ◌∙◌, Option, some, List, [], ◌∷◌, ok, Exec, lift, call, ◌>>=◌,
}
use app_gocms.Prelude.Holds.{Holds, Holds-check, holds_rules}
use app_gocms.Text.{Text}
use app_gocms.Domain.{Entry, Time, validate}
use app_gocms.Env.{Env}
use app_gocms.Content.{
  ensure_type, create_draft, update, transition, publish, schedule, transition_status, trash,
  restore, archive,
}

-- What the service relies on, of a storage whose entries a view shows: the other calls leave the
-- entries alone, and a save changes at most the entry of its own id, to the entry saved.
pub record EntryLaws {S : Type 0} (env : Env S) (view : S → Text → Option Entry) : Type 0 where
  pub get_reads : (id : Text) (s : S) → env.get id s ≡ (ok (view s id), s)
  pub types_keep :
      (kind : Text) (s : S) (j : Text) → view (env.get_content_type kind s).1 j ≡ view s j
  pub now_keeps : (s : S) (j : Text) → view (env.now s).1 j ≡ view s j
  pub save_writes :
      (e : Entry) (s : S) (j : Text)
      → (view (env.save e s).1 j ≡ view s j) ⊎ ((e.id ≡ j) × (view (env.save e s).1 j ≡ some e))

-- The operations of the service that change entries.
pub data Operation : Type 0 where
  create_draft_of update_of : Entry → Operation
  publish_of trash_of restore_of archive_of : Text → Operation
  schedule_of : Text → Time → Operation

module _ {S : Type 0} (env : Env S) where
  -- The state after an operation, whether it returned an error or not.
  pub apply : Operation → S → S
  apply (create_draft_of e) s = (create_draft env e s).1
  apply (update_of e) s = (update env e s).1
  apply (publish_of id) s = (publish env id s).1
  apply (trash_of id) s = (trash env id s).1
  apply (restore_of id) s = (restore env id s).1
  apply (archive_of id) s = (archive env id s).1
  apply (schedule_of id t) s = (schedule env id t s).1

  pub run : List Operation → S → S
  unfolding apply
  run [] s = s
  run (op ∷ ops) s = run ops (apply op s)

-- An entry that may be stored under an id.
pub record IsStored (id : Text) (e : Entry) : Type 0 where
  pub valid : validate e ≡ ok tt
  pub own_id : e.id ≡ id

module _ {S : Type 0} where
  -- Every stored entry is valid and stored under its own id.
  abbrev pub IsSound : (S → Text → Option Entry) → S → Type 0
  IsSound view s = (j : Text) (e : Entry) → view s j ≡ some e → IsStored j e

module _ {S : Type 0} (env : Env S) (view : S → Text → Option Entry)
    (laws : EntryLaws env view) where
  -- Where the view is the same, so is what is sound.
  IsSound-view : (s t : S) → ((j : Text) → view t j ≡ view s j) → IsSound view s → IsSound view t
  IsSound-view s t same h j e found = h j e (sym (same j) ∙ found)

  get-IsSound : (id : Text) → Holds (IsSound view) (env.get id)
  get-IsSound id = record { after = λ s h. rw (laws.get_reads id s) h }

  types-IsSound : (kind : Text) → Holds (IsSound view) (env.get_content_type kind)
  types-IsSound kind = record { after = λ s h. IsSound-view s _ (laws.types_keep kind s) h }

  now-IsSound : Holds (IsSound view) (call env.now)
  now-IsSound = record { after = λ s h. IsSound-view s _ (laws.now_keeps s) h }

  save-IsSound : (e : Entry) → validate e ≡ ok tt → Holds (IsSound view) (env.save e)
  save-IsSound e valid = record {
    after = λ s h j x found. elim (laws.save_writes e s j) [
      | inl same ↦ h j x (sym same ∙ found)
      | inr (own, written) ↦
          subst (IsStored j) (some-injective e x (sym written ∙ found))
            (record { valid = valid; own_id = own })
    ];
  }

  -- A check of an entry, and what is done only if the entry passes.
  checked-IsSound :
      {A : Type 0} (e : Entry) (rest : Unit → Exec S A)
      → (validate e ≡ ok tt → Holds (IsSound view) (rest tt))
      → Holds (IsSound view) (lift (validate e) >>= rest)
  checked-IsSound e rest h = Holds-check (validate e) rest λ a valid. h valid

  ruleset sound_rules =
      (holds_rules, get-IsSound, types-IsSound, now-IsSound, save-IsSound, checked-IsSound)

  ensure_type-IsSound : (kind : Text) → Holds (IsSound view) (ensure_type env kind)
  unfolding ensure_type
  ensure_type-IsSound kind = search sound_rules

  create_draft-IsSound : (e : Entry) → Holds (IsSound view) (create_draft env e)
  unfolding create_draft
  create_draft-IsSound e = search (sound_rules, ensure_type-IsSound) depth 20

  update-IsSound : (e : Entry) → Holds (IsSound view) (update env e)
  unfolding update
  update-IsSound e = search (sound_rules, ensure_type-IsSound) depth 20

  transition-IsSound :
      (id : Text) (mutate : Entry → Exec S Entry)
      → ((e : Entry) → Holds (IsSound view) (mutate e))
      → Holds (IsSound view) (transition env id mutate)
  unfolding transition
  transition-IsSound id mutate h = search sound_rules depth 20

  status-IsSound : (id status : Text) → Holds (IsSound view) (transition_status env id status)
  unfolding transition_status
  status-IsSound id status = transition-IsSound id _ λ e. search sound_rules

  apply-IsSound : (op : Operation) (s : S) → IsSound view s → IsSound view (apply env op s)
  unfolding apply publish schedule trash restore archive
  apply-IsSound (create_draft_of e) = (create_draft-IsSound e).after
  apply-IsSound (update_of e) = (update-IsSound e).after
  apply-IsSound (publish_of id) = (transition-IsSound id _ λ e. search sound_rules).after
  apply-IsSound (trash_of id) = (status-IsSound id _).after
  apply-IsSound (restore_of id) = (status-IsSound id _).after
  apply-IsSound (archive_of id) = (status-IsSound id _).after
  apply-IsSound (schedule_of id t) =
      (let kept : Holds (IsSound view) (schedule env id t) =
          search (sound_rules, transition-IsSound) depth 20 in
        kept).after

  -- Over a storage that keeps to the laws: from a store where every entry is valid and stands under
  -- its own id, any operations of the content service, whether they succeed or fail, lead to such a
  -- store.
  pub run-IsSound : (ops : List Operation) (s : S) → IsSound view s → IsSound view (run env ops s)
  unfolding run
  run-IsSound [] s h = h
  run-IsSound (op ∷ ops) s h = run-IsSound ops (apply env op s) (apply-IsSound op s h)
