-- ===== src/Authn/Lockout.antt =====
-- Logins by password: who is let in, and who is locked out.
use mathlib.Core.Path.{subst}
use app_gocms.Prelude.{
  suc, ◌+◌, ◌-◌, ◌≤◌, ◌<◌, ◌≡◌, ◌∙◌, Bool, true, false, Option, none, some, List, [], ◌∷◌, ◌++◌,
  arith, leb, le→leb, if◌then◌else◌,
}
use app_gocms.Text.{Text, is_empty, trim_space}
use app_gocms.Text.Laws.{==_refl}
use app_gocms.Domain.{Time}
use app_gocms.Authn.Principals.{Principal, AuthUser, principal_for_user}
use app_gocms.Authn.{
  MemoryStore, LoginAttempt, invalid_credentials, login_locked, Outcome, granted, denied,
  normalized, user_by_identifier, save_attempt, count_failures, recent_failures, day, right_user,
  conclude, authenticate_password, attempt_of,
}

count_failures-append :
    (identifier : Text) (since : Time) (xs ys : List LoginAttempt)
    → count_failures identifier since (xs ++ ys)
      ≡ count_failures identifier since xs + count_failures identifier since ys
unfolding count_failures
count_failures-append identifier since [] ys = omega arith
count_failures-append identifier since (x ∷ xs) ys =
    ground (arith, count_failures-append identifier since xs ys)

-- Neither the identifier nor the password is blank.
pub record IsFilled (identifier password : Text) : Type 0 where
  pub named : is_empty (normalized identifier) ≡ false
  pub secret : is_empty (trim_space password) ≡ false

module _ (verify : Text → Text → Bool) where
  count_one :
      (name remote_addr : Text) (at since : Time)
      → since ≤ at
      → count_failures name since (attempt_of verify name remote_addr false at ∷ []) ≡ 1
  unfolding count_failures attempt_of
  count_one name remote_addr at since later = ground (arith, ==_refl name)

  failed_attempt :
      (name : Text) (remote_addr : Text) (at since : Time) (s : MemoryStore) (o : Option AuthUser)
      → since ≤ at
      → (conclude verify s name remote_addr at o).0 ≡ denied invalid_credentials
      → recent_failures (conclude verify s name remote_addr at o).1 name since
        ≡ suc (recent_failures s name since)
  unfolding conclude recent_failures save_attempt
  failed_attempt name remote_addr at since s (some u) later h = ground arith
  failed_attempt name remote_addr at since s none later h =
      count_failures-append name since s.attempts (attempt_of verify name remote_addr false at ∷ [])
      ∙ ground (arith, count_one name remote_addr at since later)

  -- What is done for an attempt with nothing blank.
  attempt : Text → Text → Text → Time → Time → MemoryStore → Outcome Principal × MemoryStore
  attempt name password remote_addr checked_at saved_at s =
      if leb 3 (recent_failures s name (checked_at - day))
      then (denied login_locked, s)
      else conclude verify s name remote_addr saved_at
          (right_user verify password (user_by_identifier s name))

  authenticate_filled :
      (identifier password remote_addr : Text) (checked_at saved_at : Time) (s : MemoryStore)
      → IsFilled identifier password
      → authenticate_password verify identifier password remote_addr checked_at saved_at s
        ≡ attempt (normalized identifier) password remote_addr checked_at saved_at s
  unfolding authenticate_password attempt
  authenticate_filled identifier password remote_addr checked_at saved_at s filled =
      rw (filled.named, filled.secret)

  attempt_counts :
      (name password remote_addr : Text) (checked_at saved_at since : Time) (s : MemoryStore)
      → since ≤ saved_at
      → (attempt name password remote_addr checked_at saved_at s).0 ≡ denied invalid_credentials
      → recent_failures (attempt name password remote_addr checked_at saved_at s).1 name since
        ≡ suc (recent_failures s name since)
  unfolding attempt
  attempt_counts name password remote_addr checked_at saved_at since s later =
      from (leb 3 (recent_failures s name (checked_at - day)))
    where
      o : Option AuthUser
      o = right_user verify password (user_by_identifier s name)

      from :
          (locked : Bool)
          → (if locked
              then (denied login_locked, s)
              else conclude verify s name remote_addr saved_at o).0
            ≡ denied invalid_credentials
          → recent_failures
              (if locked
                then (denied login_locked, s)
                else conclude verify s name remote_addr saved_at o).1
              name
              since
            ≡ suc (recent_failures s name since)
      from true h = cc
      from false h = failed_attempt name remote_addr saved_at since s o later h

  -- An attempt that is answered by "invalid credentials", with nothing blank, is one more failure.
  failure_counts :
      (identifier password remote_addr : Text) (checked_at saved_at since : Time) (s : MemoryStore)
      → IsFilled identifier password
      → since ≤ saved_at
      → (authenticate_password verify identifier password remote_addr checked_at saved_at s).0
        ≡ denied invalid_credentials
      → recent_failures
          (authenticate_password verify identifier password remote_addr checked_at saved_at s).1
          (normalized identifier)
          since
        ≡ suc (recent_failures s (normalized identifier) since)
  failure_counts identifier password remote_addr checked_at saved_at since s filled later h =
      let same = authenticate_filled identifier password remote_addr checked_at saved_at s filled in
      rw same (
        attempt_counts (normalized identifier) password remote_addr checked_at saved_at since s
          later (rw same at h))

  -- The answer to a login for an identifier with three failures in the last 24 hours, and nothing
  -- blank, is that the login is locked; the store stays as it is.
  three_failures :
      (identifier password remote_addr : Text) (checked_at saved_at : Time) (s : MemoryStore)
      → IsFilled identifier password
      → 3 ≤ recent_failures s (normalized identifier) (checked_at - day)
      → authenticate_password verify identifier password remote_addr checked_at saved_at s
        ≡ (denied login_locked, s)
  three_failures identifier password remote_addr checked_at saved_at s filled h =
      authenticate_filled identifier password remote_addr checked_at saved_at s filled
      ∙ (unfold attempt in rw (le→leb 3 _ h))

-- The arguments of a login, and the instants of its two calls of `now`.
pub record Login : Type 0 where
  pub identifier : Text
  pub password : Text
  pub remote_addr : Text
  pub checked_at : Time
  pub saved_at : Time

module _ (verify : Text → Text → Bool) where
  abbrev pub login : Login → MemoryStore → Outcome Principal × MemoryStore
  login l =
      authenticate_password verify l.identifier l.password l.remote_addr l.checked_at l.saved_at

  -- A login for the name, with nothing blank, that was refused no more than a day before `now`.
  pub record IsRefused (name : Text) (now : Time) (l : Login) (s : MemoryStore) : Type 0 where
    pub name_of : normalized l.identifier ≡ name
    pub filled : IsFilled l.identifier l.password
    pub recent : now - day ≤ l.saved_at
    pub refused : (login l s).0 ≡ denied invalid_credentials

  refused_counts :
      (name : Text) (now : Time) (l : Login) (s : MemoryStore)
      → IsRefused name now l s
      → recent_failures (login l s).1 name (now - day) ≡ suc (recent_failures s name (now - day))
  refused_counts name now l s h =
      subst
        (λ n. recent_failures (login l s).1 n (now - day) ≡ suc (recent_failures s n (now - day)))
        h.name_of
        (failure_counts verify l.identifier l.password l.remote_addr l.checked_at l.saved_at
          (now - day) s h.filled h.recent h.refused)

  -- After three logins for one name, with nothing blank, that were refused no more than a day
  -- before the check of the fourth, a fourth login for that name, with whatever password that is
  -- not blank, is answered by "login temporarily locked", and leaves the store as it is.
  pub three_strikes :
      (a b c d : Login) (s : MemoryStore)
      → IsFilled d.identifier d.password
      → IsRefused (normalized d.identifier) d.checked_at a s
      → IsRefused (normalized d.identifier) d.checked_at b (login a s).1
      → IsRefused (normalized d.identifier) d.checked_at c (login b (login a s).1).1
      → login d (login c (login b (login a s).1).1).1
        ≡ (denied login_locked, (login c (login b (login a s).1).1).1)
  three_strikes a b c d s filled ha hb hc =
      let name = normalized d.identifier in
      three_failures verify d.identifier d.password d.remote_addr d.checked_at d.saved_at
        (login c (login b (login a s).1).1).1 filled
        (omega (
          arith,
          refused_counts name d.checked_at a s ha,
          refused_counts name d.checked_at b (login a s).1 hb,
          refused_counts name d.checked_at c (login b (login a s).1).1 hc,
        ))

  -- Who is let in is the user that the identifier finds: active, with the right password, with fewer
  -- than three failures in the last day, and with the capabilities of the user's roles.
  pub login_granted :
      (l : Login) (s : MemoryStore) (p : Principal)
      → (login l s).0 ≡ granted p
      → (u : AuthUser) × (user_by_identifier s (normalized l.identifier) ≡ some u)
        × (u.active ≡ true)
        × (verify l.password u.password_hash ≡ true)
        × (p ≡ principal_for_user u)
        × (recent_failures s (normalized l.identifier) (l.checked_at - day) < 3)
  unfolding authenticate_password conclude
  login_granted l s p h = ground arith
