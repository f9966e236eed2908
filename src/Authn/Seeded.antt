-- ===== src/Authn/Seeded.antt =====
-- internal/application/authn/service.go: the store with the three users that an application without
-- its own store starts with.
use app_gocms.Prelude.{◌≡◌, sym, true, List, [], ◌∷◌, Result, ok, err, arith}
use app_gocms.Prelude.Errors.{ok-injective}
use app_gocms.Text.{Text, codes}
use app_gocms.Authn.{MemoryStore}
use app_gocms.Authn.Principals.{AuthUser}

pub record Seed : Type 0 where
  pub id : Text
  pub email : Text
  pub password : Text
  pub roles : List Text

abbrev pub seed_admin : Seed
seed_admin = record {
  id = codes "admin";
  email = codes "admin@example.test";
  password = codes "admin";
  roles = codes "admin" ∷ [];
}

abbrev pub seed_editor : Seed
seed_editor = record {
  id = codes "editor";
  email = codes "editor@example.test";
  password = codes "editor";
  roles = codes "editor" ∷ [];
}

abbrev pub seed_viewer : Seed
seed_viewer = record {
  id = codes "viewer";
  email = codes "viewer@example.test";
  password = codes "viewer";
  roles = codes "viewer" ∷ [];
}

abbrev pub seeds : List Seed
seeds = seed_admin ∷ seed_editor ∷ seed_viewer ∷ []

abbrev pub user_of : Seed → Text → AuthUser
user_of seed hash = record {
  id = seed.id;
  email = seed.email;
  password_hash = hash;
  roles = seed.roles;
  active = true;
}

abbrev pub new_memory_store : MemoryStore
new_memory_store = record { users = []; tokens = []; attempts = [] }

-- `store.users[seed.id] = …`, before the seeds that follow.
abbrev with_user :
    Seed → Result Text → Result (List (Text × AuthUser)) → Result (List (Text × AuthUser))
with_user seed (err e) others = err e
with_user seed (ok hashed) (err e) = err e
with_user seed (ok hashed) (ok users) = ok ((seed.id, user_of seed hashed) ∷ users)

abbrev with_users : Result (List (Text × AuthUser)) → Result MemoryStore
with_users (err e) = err e
with_users (ok users) = ok (record new_memory_store { users = users })

-- `hash` is the hasher's `Hash`. The users are in the order of the seeds, which is one of those in
-- which the map may be read.
module _ (hash : Text → Result Text) where
  unfoldable pub seed_users : List Seed → Result (List (Text × AuthUser))
  seed_users [] = ok []
  seed_users (seed ∷ rest) = with_user seed (hash seed.password) (seed_users rest)

  unfoldable pub new_seeded_memory_store : Result MemoryStore
  unfolding seed_users
  new_seeded_memory_store = with_users (seed_users seeds)

abbrev pub store_of : Text → Text → Text → MemoryStore
store_of admin editor viewer = record new_memory_store {
  users =
      (seed_admin.id, user_of seed_admin admin)
      ∷ (seed_editor.id, user_of seed_editor editor)
      ∷ (seed_viewer.id, user_of seed_viewer viewer)
      ∷ [];
}

module _ (hash : Text → Result Text) where
  -- The users of a seeded store.
  pub seeded :
      (s : MemoryStore)
      → new_seeded_memory_store hash ≡ ok s
      → (admin : Text) × (editor : Text) × (viewer : Text) × (s ≡ store_of admin editor viewer)
  unfolding new_seeded_memory_store seed_users
  seeded s h = from (hash (codes "admin")) (hash (codes "editor")) (hash (codes "viewer")) h
    where
      from :
          (a e v : Result Text)
          → with_users
              (with_user seed_admin a (with_user seed_editor e (with_user seed_viewer v (ok []))))
            ≡ ok s
          → (admin : Text) × (editor : Text) × (viewer : Text) × (s ≡ store_of admin editor viewer)
      from (ok a) (ok e) (ok v) h = (a, e, v, sym (ok-injective _ s h))
      from (ok a) (ok e) (err v) h = absurd (ground (arith, h))
      from (ok a) (err e) v h = absurd (ground (arith, h))
      from (err a) e v h = absurd (ground (arith, h))
