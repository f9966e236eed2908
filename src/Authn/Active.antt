-- ===== src/Authn/Active.antt =====
-- Principals of users: who has one, and that attempts at a login change none.
use app_gocms.Prelude.{
  ◌≡◌, refl, sym, ap, Bool, true, Option, none, some, Bool-cases, inl, inr, arith,
}
use mathlib.Core.Option.{some-injective}
use app_gocms.Text.{Text}
use app_gocms.Domain.{Time}
use app_gocms.Authn.Principals.{Principal, AuthUser, principal_for_user}
use app_gocms.Authn.{
  MemoryStore, user, user_at, principal, active_principal, save_attempt, authenticate_password,
  conclude,
}

active_of :
    (o : Option AuthUser) (p : Principal)
    → active_principal o ≡ some p
    → (u : AuthUser) × (o ≡ some u) × (u.active ≡ true) × (p ≡ principal_for_user u)
unfolding active_principal principal_for_user
active_of none p h = absurd (ground arith)
active_of (some u) p h = elim (Bool-cases u.active) [
  | inl e ↦ (u, refl, e, sym (some-injective (principal_for_user u) p (rw e at h)))
  | inr e ↦ absurd (ground (arith, rw e at h))
]

-- Who has a principal is an active user, with that principal.
pub principal_active :
    (s : MemoryStore) (id : Text) (p : Principal)
    → principal s id ≡ some p
    → (u : AuthUser) × (user s id ≡ some u) × (u.active ≡ true) × (p ≡ principal_for_user u)
unfolding principal
principal_active s id p h = active_of (user s id) p h

pub principal_of_user :
    (s : MemoryStore) (id : Text) (u : AuthUser)
    → user s id ≡ some u
    → u.active ≡ true
    → principal s id ≡ some (principal_for_user u)
unfolding principal active_principal
principal_of_user s id u found active = rw found (rw active refl)

pub users-authenticate_password :
    (verify : Text → Text → Bool) (identifier password remote_addr : Text)
    (checked_at saved_at : Time) (s : MemoryStore)
    → (authenticate_password verify identifier password remote_addr checked_at saved_at s).1.users
      ≡ s.users
unfolding authenticate_password conclude save_attempt
users-authenticate_password verify identifier password remote_addr checked_at saved_at s =
    ground arith

pub principal-authenticate_password :
    (verify : Text → Text → Bool) (identifier password remote_addr : Text)
    (checked_at saved_at : Time) (s : MemoryStore) (id : Text)
    → principal
        (authenticate_password verify identifier password remote_addr checked_at saved_at s).1
        id
      ≡ principal s id
unfolding principal user
principal-authenticate_password verify identifier password remote_addr checked_at saved_at s id =
    ap (λ users. active_principal (user_at id users))
      (users-authenticate_password verify identifier password remote_addr checked_at saved_at s)
