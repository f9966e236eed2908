-- ===== src/Services/Revisions/RoundTrip.antt =====
-- Revisions: what is restored is what was recorded.
use mathlib.Core.Path.{subst}
use app_gocms.Prelude.{◌≡◌, refl, Option, some, ok, arith}
use app_gocms.Text.{Text}
use app_gocms.Domain.{Revision}
use app_gocms.Env.{Env}
use app_gocms.Services.Revisions.{create, restore}

-- What the service relies on: a revision that was saved is found under its id.
pub record RevisionLaws {S : Type 0} (env : Env S) (view : S → Text → Option Revision)
    : Type 0 where
  pub get_reads :
      (id : Text) (s : S) (r : Revision)
      → view s id ≡ some r
      → env.get_revision id s ≡ (ok (some r), s)
  pub save_ok :
      (r : Revision) (s : S)
      → (env.save_revision r s).0 ≡ ok tt
      → view (env.save_revision r s).1 r.id ≡ some r

module _ {S : Type 0} (env : Env S) (view : S → Text → Option Revision)
    (laws : RevisionLaws env view) where
  -- What `create` returns is saved under its id, with the entry that was found.
  create_saves :
      (id entry_id : Text) (s : S) (r : Revision)
      → (create env id entry_id s).0 ≡ ok r
      → (t : S) × ((env.save_revision r t).0 ≡ ok tt)
        × ((create env id entry_id s).1 ≡ (env.save_revision r t).1)
        × (r.id ≡ id)
        × ((env.get entry_id s).0 ≡ ok (some r.entry))
  unfolding create
  create_saves id entry_id s r h =
      ((env.now (env.get entry_id s).1).1, ground arith, ground arith, ground arith, ground arith)

  restore_found :
      (id : Text) (s : S) (r : Revision)
      → view s id ≡ some r
      → (env.save r.entry s).0 ≡ ok tt
      → (restore env id s).0 ≡ ok r.entry
  unfolding restore
  restore_found id s r found saved = rw (laws.get_reads id s r found, saved) refl

  -- Where a revision that was saved is found: a revision that was recorded of an entry holds the
  -- entry as it was stored, and to restore it, with nothing done between, returns just that entry, if
  -- the storage takes it.
  restore-create :
      (id entry_id : Text) (s : S) (r : Revision)
      → (create env id entry_id s).0 ≡ ok r
      → (env.save r.entry (create env id entry_id s).1).0 ≡ ok tt
      → ((env.get entry_id s).0 ≡ ok (some r.entry))
        × ((restore env id (create env id entry_id s).1).0 ≡ ok r.entry)
  restore-create id entry_id s r h saved =
      let (t, stored, after, own, found) = create_saves id entry_id s r h in
      (
        found,
        restore_found id (create env id entry_id s).1 r
            (rw after (
              subst (λ j. view (env.save_revision r t).1 j ≡ some r) own (laws.save_ok r t stored)))
            saved,
      )
