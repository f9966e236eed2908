-- ===== src/Authn.antt =====
-- internal/application/authn/service.go: the users, the login attempts and the app tokens of
-- `MemoryStore`, and `Service` on them. The argon2 hasher, the SHA-256 hash of a token and the
-- random bytes are arguments, and so are the instants that `now` returns. The map of users is the
-- list of its keys and values, in the order of the iteration.
pub mod Principals
pub mod Lockout
pub mod Tokens
pub mod Active
pub mod Seeded
use app_gocms.Prelude.{
  ℕ, suc, ◌+◌, ◌-◌, ◌*◌, ℤ, pos, pos_part, leb_ℤ, Bool, true, false, not, ◌&&◌, ◌||◌, Option, none,
  some, List, [], ◌∷◌, ◌++◌, String, find, is_some, leb, ltb, if◌then◌else◌, Result, ok, err, Error,
}
use app_gocms.Text.{Text, codes, ◌==◌, is_empty, trim_space, to_lower, cut}
use app_gocms.Text.Quote.{quote}
use app_gocms.Domain.{Time}
use app_gocms.Authn.Principals.{Principal, has, AuthUser, principal_for_user, with_capabilities}

pub record AppToken : Type 0 where
  pub id : Text
  pub user_id : Text
  pub prefix : Text
  pub hash : Text
  pub capabilities : List Text
  pub expires_at : Time
  pub revoked_at : Option Time

pub record LoginAttempt : Type 0 where
  pub identifier : Text
  pub remote_addr : Text
  pub success : Bool
  pub created_at : Time

pub record MemoryStore : Type 0 where
  pub users : List (Text × AuthUser)
  pub tokens : List AppToken
  pub attempts : List LoginAttempt

-- The errors that the package names.
pub data AuthError : Type 0 where
  invalid_credentials login_locked missing_capability app_token_failed : AuthError

pub data Outcome {ℓ} (A : Type ℓ) : Type ℓ where
  granted : A → Outcome A
  denied : AuthError → Outcome A

abbrev pub normalized : Text → Text
normalized identifier = to_lower (trim_space identifier)

-- The test of the loop of `UserByIdentifier`.
abbrev pub is_called : Text → AuthUser → Bool
is_called identifier u = to_lower u.id == identifier || to_lower u.email == identifier

-- The values of the map of users.
abbrev pub users_of : List (Text × AuthUser) → List AuthUser
users_of [] = []
users_of ((key, u) ∷ users) = u ∷ users_of users

-- `s.users[id]`
abbrev pub user_at : Text → List (Text × AuthUser) → Option AuthUser
user_at id [] = none
user_at id ((key, u) ∷ users) = if key == id then some u else user_at id users

unfoldable pub user_by_identifier : MemoryStore → Text → Option AuthUser
user_by_identifier s identifier = find (is_called (normalized identifier)) (users_of s.users)

unfoldable pub user : MemoryStore → Text → Option AuthUser
user s id = user_at id s.users

unfoldable pub save_attempt : MemoryStore → LoginAttempt → MemoryStore
save_attempt s attempt = record s { attempts = s.attempts ++ attempt ∷ [] }

-- The test of the loop of `RecentFailures`.
abbrev pub is_failure : Text → Time → LoginAttempt → Bool
is_failure identifier since a =
    a.identifier == identifier && not a.success && not (ltb a.created_at since)

unfoldable pub count_failures : Text → Time → List LoginAttempt → ℕ
count_failures identifier since [] = 0
count_failures identifier since (a ∷ attempts) =
    if is_failure identifier since a
    then suc (count_failures identifier since attempts)
    else count_failures identifier since attempts

unfoldable pub recent_failures : MemoryStore → Text → Time → ℕ
recent_failures s identifier since = count_failures identifier since s.attempts

-- The map of tokens is keyed by their prefixes: the newest of a prefix stands first.
unfoldable pub save_token : MemoryStore → AppToken → MemoryStore
save_token s token = record s { tokens = token ∷ s.tokens }

unfoldable pub token_of : MemoryStore → Text → Option AppToken
token_of s prefix = find (λ (t : AppToken). t.prefix == prefix) s.tokens

-- 24 hours, and one hour, in nanoseconds.
abbrev pub day : ℕ
day = 86400000000000

abbrev pub hour : ℕ
hour = 3600000000000

module _ (verify : Text → Text → Bool) where
  -- The user that the password is right for, if there is one and is active.
  abbrev pub right_user : Text → Option AuthUser → Option AuthUser
  right_user password none = none
  right_user password (some u) =
      if not u.active || not (verify password u.password_hash) then none else some u

  unfoldable pub attempt_of : Text → Text → Bool → Time → LoginAttempt
  attempt_of identifier remote_addr success at = record {
    identifier = identifier;
    remote_addr = remote_addr;
    success = success;
    created_at = at;
  }

  -- The end of `AuthenticatePassword`: the attempt is saved, and the user is let in or not.
  unfoldable pub conclude :
      MemoryStore → Text → Text → Time → Option AuthUser → Outcome Principal × MemoryStore
  unfolding attempt_of
  conclude s identifier remote_addr at none =
      (denied invalid_credentials, save_attempt s (attempt_of identifier remote_addr false at))
  conclude s identifier remote_addr at (some u) =
      (granted (principal_for_user u), save_attempt s (attempt_of identifier remote_addr true at))

  -- The two instants are those of the check of recent failures and of the attempt.
  unfoldable pub authenticate_password :
      Text → Text → Text → Time → Time → MemoryStore → Outcome Principal × MemoryStore
  unfolding conclude save_attempt recent_failures
  authenticate_password identifier password remote_addr checked_at saved_at s =
      let name = normalized identifier in
      if is_empty name || is_empty (trim_space password)
      then (denied invalid_credentials, s)
      else if leb 3 (recent_failures s name (checked_at - day))
      then (denied login_locked, s)
      else conclude s name remote_addr saved_at (right_user password (user_by_identifier s name))

active_principal : Option AuthUser → Option Principal
active_principal none = none
active_principal (some u) = if u.active then some (principal_for_user u) else none

unfoldable pub principal : MemoryStore → Text → Option Principal
unfolding active_principal user
principal s id = active_principal (user s id)

unfoldable pub require_capability : Principal → Text → Outcome (Unit {0})
require_capability p capability = if has p capability then granted tt else denied missing_capability

-- `ctx.Err()`, with the token already saved.
unfoldable pub ended : Option Error → Text × AppToken → Result (Text × AppToken)
ended none made = ok made
ended (some e) made = err e

-- The prefix of a raw text, if it has one.
prefix_of : Option (Text × Text) → Option Text
prefix_of none = none
prefix_of (some (prefix, rest)) = if is_empty prefix then none else some prefix

token_named : MemoryStore → Option Text → Option AppToken
unfolding token_of
token_named s none = none
token_named s (some prefix) = token_of s prefix

-- The principal of a token, cut to the capabilities of the token if it names any.
abbrev pub limited : List Text → Option Principal → Outcome Principal
limited capabilities none = denied app_token_failed
limited [] (some p) = granted p
limited (c ∷ cs) (some p) = granted (with_capabilities p (c ∷ cs))

principal_of : MemoryStore → Option AppToken → Outcome Principal
unfolding principal
principal_of s none = denied app_token_failed
principal_of s (some t) = limited t.capabilities (principal s t.user_id)

module _ (token_hash : Text → Text) where
  abbrev token_for : Text → Text → Text → List Text → Time → AppToken
  token_for user_id id secret capabilities expires_at = record {
    id = id;
    user_id = user_id;
    prefix = id;
    hash = token_hash (id ++ (codes "." ++ secret));
    capabilities = capabilities;
    expires_at = expires_at;
    revoked_at = none;
  }

  unfoldable pub issue :
      Text
      → List Text
      → ℤ
      → Result Text
      → Result Text
      → Option Error
      → Time
      → MemoryStore
      → Result (Text × AppToken) × MemoryStore
  unfolding ended save_token
  issue user_id capabilities ttl (err e) secret cancelled now s = (err e, s)
  issue user_id capabilities ttl (ok id) (err e) cancelled now s = (err e, s)
  issue user_id capabilities ttl (ok id) (ok secret) cancelled now s =
      let lifetime = if leb_ℤ ttl (pos 0) then hour else pos_part ttl in
      let token = token_for user_id id secret capabilities (now + lifetime) in
      (ended cancelled (id ++ (codes "." ++ secret), token), save_token s token)

  -- `id` and `secret` are what the two calls of `randomToken` return, and `cancelled` is the error of
  -- the request's context.
  unfoldable pub create_app_token :
      Text
      → List Text
      → ℤ
      → Result Text
      → Result Text
      → Option Error
      → Time
      → MemoryStore
      → Result (Text × AppToken) × MemoryStore
  unfolding issue
  create_app_token user_id capabilities ttl id secret cancelled now s =
      if is_some (principal s user_id)
      then issue user_id capabilities ttl id secret cancelled now s
      else (err (codes "user " ++ (quote user_id ++ codes " not found")), s)

  -- The token that a raw text names, if the text and the token are in order.
  accepted : Text → Time → Option AppToken → Option AppToken
  accepted raw now none = none
  accepted raw now (some t) =
      if is_some t.revoked_at || ltb t.expires_at now || not (t.hash == token_hash raw)
      then none
      else some t

  unfoldable pub authenticate_app_token : Text → Time → MemoryStore → Outcome Principal
  unfolding accepted prefix_of token_named principal_of
  authenticate_app_token raw now s =
      principal_of s
        (accepted raw now (token_named s (prefix_of (cut (trim_space raw) (codes ".")))))
