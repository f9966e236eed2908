-- ===== src/App/Boundary/Seeded.antt =====
-- The store that an application starts with, and what logins make of it.
use app_gocms.Prelude.{
  ◌≡◌, ◌≢◌, refl, sym, Bool, Bool-cases, inl, inr, some, List, [], ◌∷◌, find, Result, ok, arith,
}
use mathlib.Core.Path.{subst}
use mathlib.Core.Option.{some-injective}
use app_gocms.Text.{Text, ◌==◌}
use app_gocms.Authn.{
  MemoryStore, user, user_at, users_of, user_by_identifier, is_called, normalized,
}
use app_gocms.Authn.Principals.{AuthUser}
use app_gocms.Authn.Active.{users-authenticate_password}
use app_gocms.Authn.Lockout.{Login, login}
use app_gocms.Authn.Seeded.{
  seed_admin, seed_editor, seed_viewer, user_of, store_of, new_seeded_memory_store, seeded,
}
use app_gocms.App.Boundary.Logins.{IsKeyed}

module _ (admin editor viewer : Text) where
  -- Who is found is one of the three.
  one_of :
      (Q : AuthUser → Type 0) (name : Text) (u : AuthUser)
      → user_by_identifier (store_of admin editor viewer) name ≡ some u
      → Q (user_of seed_admin admin)
      → Q (user_of seed_editor editor)
      → Q (user_of seed_viewer viewer)
      → Q u
  unfolding user_by_identifier
  one_of Q name u found a e v =
      elim (Bool-cases (is_called (normalized name) (user_of seed_admin admin))) [
        | inl x ↦ subst Q (some-injective _ u (rw x at found)) a
        | inr x ↦ elim (Bool-cases (is_called (normalized name) (user_of seed_editor editor))) [
          | inl y ↦ subst Q (some-injective _ u (rw (x, y) at found)) e
          | inr y ↦ elim (Bool-cases (is_called (normalized name) (user_of seed_viewer viewer))) [
            | inl z ↦ subst Q (some-injective _ u (rw (x, y, z) at found)) v
            | inr z ↦ absurd (ground (arith, rw (x, y, z) at found))
          ]
        ]
      ]

  store_of-IsKeyed : IsKeyed (store_of admin editor viewer)
  unfolding user ◌==◌
  store_of-IsKeyed = record {
    by_id = λ name u found.
        one_of (λ u. user (store_of admin editor viewer) u.id ≡ some u) name u found refl refl refl;
    named = λ name u found.
        one_of (λ u. u.id ≢ []) name u found (λ h. ground (arith, h)) (λ h. ground (arith, h))
          (λ h. ground (arith, h));
  }

-- Stores with the same users are keyed alike.
same_users-IsKeyed : (s t : MemoryStore) → s.users ≡ t.users → IsKeyed s → IsKeyed t
unfolding user user_by_identifier
same_users-IsKeyed s t same keyed = record {
  by_id = λ name u found.
      subst (λ users. user_at u.id users ≡ some u) same
        (keyed.by_id name u (
          subst (λ users. find (is_called (normalized name)) (users_of users) ≡ some u) (sym same)
            found));
  named = λ name u found. keyed.named name u (
      subst (λ users. find (is_called (normalized name)) (users_of users) ≡ some u) (sym same)
        found);
}

module _ (verify : Text → Text → Bool) where
  -- The store after some logins.
  pub after_logins : List Login → MemoryStore → MemoryStore
  after_logins [] s = s
  after_logins (l ∷ logins) s = after_logins logins (login verify l s).1

  after_logins-IsKeyed :
      (logins : List Login) (s : MemoryStore) → IsKeyed s → IsKeyed (after_logins logins s)
  unfolding after_logins
  after_logins-IsKeyed [] s keyed = keyed
  after_logins-IsKeyed (l ∷ logins) s keyed = after_logins-IsKeyed logins (login verify l s).1 (
      same_users-IsKeyed s _
        (sym (
          users-authenticate_password verify l.identifier l.password l.remote_addr l.checked_at
            l.saved_at s))
        keyed)

  -- In the store that an application starts with, and in every store that any logins make of it,
  -- whatever the hasher: a user who is found by a name has an id, and stands in the map under just
  -- that id.
  pub seeded-IsKeyed :
      (hash : Text → Result Text) (s : MemoryStore) (logins : List Login)
      → new_seeded_memory_store hash ≡ ok s
      → IsKeyed (after_logins logins s)
  seeded-IsKeyed hash s logins made =
      let (admin, editor, viewer, same) = seeded hash s made in
      after_logins-IsKeyed logins s
        (subst IsKeyed (sym same) (store_of-IsKeyed admin editor viewer))
